-- ===== src/Logging/Sinks/Forked.antt =====
-- A file sink in a process and the children that it has forked: `FileSink`, of
-- src/logging/include/project/logging/logging.h, under the `fork` and the `_exit` of
-- `clientIntakeCycle`, of src/server/src/http/http_server.cc and https_server.cc. `fork` gives the child
-- a copy of the stream's buffer, the file is one for all of them and is written at its end
-- (`std::ios::app`), and `_exit` writes no buffer.
pub mod Order
pub mod Lost
mod Examples
use https_http_server.Shared.{
  ℕ, List, [], ◌∷◌, ◌++◌, Text, Option, none, some, Bool, true, false, ◌&&◌, get_elem?, set,
}
use https_http_server.Logging.Record.{Format}
use https_http_server.Logging.Sinks.{Stream, FileSink, file_log}
use https_http_server.Logging.Sinks.Durable.{LogCall}

-- What stands in the file, and the buffer of each process, `none` where it has ended.
pub record Processes : Type 0 where
  pub file : Text
  pub buffers : List (Option Text)

-- A process forks; it logs a record; it calls `_exit`.
pub data Event : Type 0 where
  forks exits : ℕ → Event
  logs : ℕ → LogCall → Event

abbrev pub buffer_of : Option (Option Text) → Option Text
buffer_of none = none
buffer_of (some b) = b

-- An event, and whether a call that it makes has returned `true`.
unfoldable pub step : Format → Event → Processes → Processes × Bool
unfolding file_log
step format (forks i) s =
    (record { file = s.file; buffers = s.buffers ++ buffer_of (get_elem? s.buffers i) ∷ [] }, true)
step format (exits i) s = (record { file = s.file; buffers = set s.buffers i none }, true)
step format (logs i c) s = elim (buffer_of (get_elem? s.buffers i)) [
  | none ↦ (s, false)
  | some b ↦
      let sink : FileSink = record {
        format = format;
        stream = record { file = s.file; buffer = b };
      } in
      let (sink', is_good) = file_log c.info c.on_write c.on_flush sink in
      (
        record { file = sink'.stream.file; buffers = set s.buffers i (some sink'.stream.buffer) },
        is_good,
      )
]

-- A series of events, in the order in which they happen, and whether all calls have returned `true`.
unfoldable pub run : Format → List Event → Processes → Processes × Bool
unfolding step
run format [] s = (s, true)
run format (e ∷ es) s =
    let (s', one) = step format e s in let (s'', rest) = run format es s' in (s'', one && rest)
