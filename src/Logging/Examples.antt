-- ===== src/Logging/Examples.antt =====
-- Instances of the theorems on logging.
use https_http_server.Shared.{
  arith, ◌≡◌, ◌≢◌, ◌↔◌, refl, List, [], ◌∷◌, Text, codes, text_eq, Option, none, some, Bool, true,
  false, is_some, if◌then◌else◌, ◌⊎◌, inl,
}
use https_http_server.Samples.{text_json}
use https_http_server.Status.LogLevels.{Log, level_number, error, debug}
use https_http_server.Logging.Record.{LogInfo, console_format}
use https_http_server.Logging.Sinks.{console, FileSink, Logger, done, file_log}
use https_http_server.Logging.Sinks.Durable.{LogCall, file_logs, file_logs_durable, taken}
use https_http_server.Logging.Config.{YamlLib, ok}
use https_http_server.Logging.Manager.{
  LogManager, LogConfig, new_manager, pause, init, parse_log_config,
}
use https_http_server.Logging.Manager.Reloading.{logger_of, init_lem}
use https_http_server.Logging.Watcher.{
  Watcher, Worker, idle, running, ended, Opening, new_watcher, KEvent, run_event, user, vnode,
  event_error, receive, Reach, here, next, starts, receives, MayCome, drop_watcher,
}
use https_http_server.Logging.Watcher
use https_http_server.Logging.Watcher.Lifecycle.{IsFree, IsBusy, NoFailure, Reach-start}
use https_http_server.Logging.System.{
  LogSystem, run_events, returned, raised, terminated, get, log_target, start, start_path, stop,
}
use https_http_server.Logging.System.Gate.{log_target_iff, Takes}
use https_http_server.Logging.System.Reloads.{run_events-manager}
use https_http_server.Logging.System.Switch.{start_twice}
use https_http_server.Logging.System.Restart.{IsSafe, start_path_safe}
use https_http_server.Logging.System.Halting.{stop_returns}
use https_http_server.Logging.Stream.{on_status, subject_level, Place, log_statement}
use https_http_server.Logging.Stream.Output.{statement_lem, console_lines, statement_record}
use https_http_server.Status.Codes.{Http}
use https_http_server.Connection.Descriptor.{pos}

-- A configuration with a console, and its nodes.
data Sample : Type 0 where
  root logging yes level sinks sink sink_name settings format missing : Sample

abbrev sample_at : Sample → Text → Option Sample
sample_at root name = some (if text_eq name (codes "logging") then logging else missing)
sample_at logging name = some (
    if text_eq name (codes "enabled")
    then yes
    else if text_eq name (codes "level")
    then level
    else if text_eq name (codes "sinks")
    then sinks
    else missing)
sample_at settings name = some (
    if text_eq name (codes "enabled")
    then yes
    else if text_eq name (codes "format")
    then format
    else missing)
sample_at _ name = none

abbrev sample_text : Sample → Option Text
sample_text yes = some (codes "true")
sample_text level = some (codes "debug")
sample_text sink_name = some (codes "console")
sample_text format = some (codes "console")
sample_text _ = none

abbrev is_dictionary : Sample → Bool
is_dictionary root = true
is_dictionary logging = true
is_dictionary sink = true
is_dictionary settings = true
is_dictionary _ = false

abbrev sample_yaml : YamlLib
sample_yaml = record {
  Node = Sample;
  is_defined = λ n. elim n [ missing ↦ false | _ ↦ true ];
  is_map = is_dictionary;
  is_scalar = λ n. is_some (sample_text n);
  is_sequence = λ n. elim n [ sinks ↦ true | _ ↦ false ];
  size = λ n. 1;
  at = sample_at;
  begin = λ n. (sink_name, settings);
  items = λ n. elim n [ sinks ↦ sink ∷ [] | _ ↦ [] ];
  as_bool = λ n. elim n [ yes ↦ some true | _ ↦ none ];
  as_text = sample_text;
}

abbrev no_files : Text → Option Text
no_files path = none

abbrev console_logger : Logger
console_logger = record { level = debug; sinks = console console_format ∷ [] }

abbrev manager : LogManager
manager = record { logger = some console_logger; paused = false }

-- The configuration is read.
new_manager_example : new_manager text_json sample_yaml no_files [] (some root) ≡ ok manager
unfolding new_manager
new_manager_example = refl

abbrev watcher : Watcher
watcher = record {
  fd = pos 3;
  kq = pos 4;
  started = false;
  worker = idle;
  trigger = false;
  stopping = false;
}

abbrev running_watcher : Watcher
running_watcher = record watcher { started = true; worker = running }

abbrev system : LogSystem
system = record { lm = some manager; cw = some watcher }

log_target_iff_example :
    (log_target system error ≡ some console_logger)
    ↔ ((m : LogManager) × (some manager ≡ some m) × Takes m error console_logger)
log_target_iff_example = log_target_iff system error console_logger

start_twice_example :
    (get (record { lm = some manager; cw = some running_watcher }) ≡ some console_logger)
    × (start true (record { lm = some manager; cw = some running_watcher }) ≡ terminated)
    × (start false (record { lm = some manager; cw = some running_watcher })
        ≡ raised (record { lm = some manager; cw = some running_watcher }))
unfolding start pause
start_twice_example =
    start_twice true (record { lm = some (pause manager); cw = some watcher })
      (record { lm = some manager; cw = some running_watcher }) refl

stop_returns_example :
    (u : LogSystem) × (stop text_json sample_yaml no_files []
        ((user, none) ∷ [])
        (record { lm = some manager; cw = some running_watcher })
      ≡ returned u true)
    × ((level : Log) → log_target u level ≡ none)
unfolding run_event
stop_returns_example =
    stop_returns text_json sample_yaml no_files [] ((user, none) ∷ []) manager running_watcher
      (λ t. inl refl)

abbrev opening : Opening
opening = record { exists = true; file = some (pos 3); queue = some (pos 4); registered = true }

abbrev first_start : Reach watcher running_watcher
unfolding Watcher.start
first_start = next {u = watcher} here (starts refl refl)

Reach-start_example :
    (running_watcher.started ≡ false → IsFree running_watcher)
    × (NoFailure first_start → running_watcher.started ≡ true → IsBusy running_watcher)
unfolding new_watcher
Reach-start_example = Reach-start opening watcher running_watcher refl first_start refl

start_path_safe_example : IsSafe true (
    start_path text_json sample_yaml true no_files []
      (some root)
      opening
      ((user, none) ∷ [])
      (record { lm = some manager; cw = some running_watcher }))
start_path_safe_example =
    start_path_safe text_json sample_yaml no_files [] ((user, none) ∷ []) true (some root) opening
      (record { lm = some manager; cw = some running_watcher }) (tt, refl)

abbrev some_record : LogInfo
some_record = record {
  status = error;
  info = codes "no";
  file = codes "a.cc";
  line = 3;
  column = 1;
  details = [];
  timepoint = codes "now";
}

abbrev message_format : LogInfo → Text
message_format i = i.info

abbrev sink_of_file : FileSink
sink_of_file = record {
  format = message_format;
  stream = record { file = codes "a"; buffer = codes "b" };
}

abbrev one_call : List LogCall
one_call = record { info = some_record; on_write = done 1; on_flush = done 0 } ∷ []

file_logs_durable_example :
    (taken (file_logs one_call sink_of_file).0.stream ≡ codes "abno\n")
    × ((file_logs one_call sink_of_file).0.stream.buffer ≡ [])
unfolding file_log
file_logs_durable_example = file_logs_durable one_call sink_of_file refl

abbrev place : Place
place = record { file = codes "a.cc"; line = 3; column = 1; timepoint = codes "now" }

statement_lem_example :
    log_statement
      (λ msg vs. none)
      (λ i. (done 0, done 0))
      (on_status Http.not_found)
      place
      (codes "no")
      []
      []
      []
      system
    ≡ (
      console_lines
          (statement_record (λ msg vs. none) (on_status Http.not_found) place [] (codes "no"))
          (console console_format ∷ []),
      system,
    )
unfolding subject_level level_number
statement_lem_example =
    statement_lem (λ msg vs. none) (λ i. (done 0, done 0)) (on_status Http.not_found) place
      (codes "no") [] [] [] manager (some watcher) console_logger (codes "no")
      (refl, refl, (λ e. cc), omega arith) refl

init_lem_example :
    ((init text_json sample_yaml no_files [] (some root) (pause manager)).0.paused ≡ false)
    × (((c : LogConfig) × ((parse_log_config text_json sample_yaml no_files [] (some root) true).1
            ≡ ok c)
          × ((init text_json sample_yaml no_files [] (some root) (pause manager)).1 ≡ ok true)
          × ((init text_json sample_yaml no_files [] (some root) (pause manager)).0.logger
              ≡ some (logger_of c)))
        ⊎ (((init text_json sample_yaml no_files [] (some root) (pause manager)).1 ≢ ok true)
            × ((init text_json sample_yaml no_files [] (some root) (pause manager)).0.logger
                ≡ some console_logger)))
unfolding pause text_eq
init_lem_example = init_lem text_json sample_yaml no_files [] (some root) (pause manager)

-- Two writes, of which the second cannot be read, and the end of the thread.
abbrev two_writes : List (KEvent × Option Sample)
two_writes =
    (vnode true (some []), some root)
    ∷ (vnode true (some []), none)
    ∷ (user, none)
    ∷ (vnode true (some []), some root)
    ∷ []

run_events-manager_example :
    (run_events text_json sample_yaml no_files [] two_writes (record {
      lm = some (record { logger = none; paused = true });
      cw = some running_watcher;
    })).lm
    ≡ some manager
unfolding parse_log_config text_eq
run_events-manager_example =
    run_events-manager text_json sample_yaml no_files [] two_writes
      (record { logger = none; paused = true }) running_watcher
