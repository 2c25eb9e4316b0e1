-- ===== src/Logging/Sinks/Forked/Examples.antt =====
-- Instances of the theorems on the sinks of several processes.
use https_http_server.Shared.{◌≡◌, refl, List, [], ◌∷◌, ◌++◌, codes, some, none, true, All}
use https_http_server.Status.LogLevels.{Log, error, debug, important_log}
use https_http_server.Logging.Record.{Format}
use https_http_server.Logging.Sinks.{done, file_log, write, flush, flush_stream}
use https_http_server.Logging.Sinks.Durable.{LogCall}
use https_http_server.Logging.Sinks.Forked.{Event, forks, exits, logs, step, run}
use https_http_server.Logging.Sinks.Forked.Order.{IsEmpty, lines_of, run-lines_of}
use https_http_server.Logging.Sinks.Forked.Lost.{fork_and_log, alone, run_fork_twice, run_fork_lost}

abbrev call_of : Log → LogCall
call_of level = record {
  info = record {
    status = level;
    info = codes "no";
    file = codes "a.cc";
    line = 3;
    column = 1;
    details = [];
    timepoint = codes "now";
  };
  on_write = done 0;
  on_flush = done 0;
}

abbrev message : Format
message i = i.info

abbrev events : List Event
events = forks 0 ∷ logs 1 (call_of error) ∷ logs 0 (call_of error) ∷ exits 1 ∷ []

run-lines_of_example :
    ((run message events (alone (codes "a") [])).0.file ≡ codes "a" ++ lines_of message events)
    × All IsEmpty (run message events (alone (codes "a") [])).0.buffers
unfolding run step file_log write flush flush_stream important_log
run-lines_of_example =
    run-lines_of message events (alone (codes "a") []) (refl, tt) (tt, (refl, (refl, (tt, tt))))
      refl

run_fork_twice_example :
    (run message
      (fork_and_log (call_of error ∷ []) (call_of error ∷ []))
      (alone (codes "a") (codes "b"))).0
    ≡ record { file = codes "abno\nbno\n"; buffers = some [] ∷ none ∷ [] }
unfolding run step file_log write flush flush_stream important_log
run_fork_twice_example =
    run_fork_twice message (codes "a") (codes "b") (call_of error ∷ []) (call_of error ∷ []) refl
      refl refl

run_fork_lost_example :
    run message (fork_and_log (call_of debug ∷ []) []) (alone (codes "a") (codes "b"))
    ≡ (record { file = codes "a"; buffers = some (codes "b") ∷ none ∷ [] }, true)
unfolding important_log
run_fork_lost_example =
    run_fork_lost message (codes "a") (codes "b") (call_of debug ∷ []) ((refl, refl), tt)
