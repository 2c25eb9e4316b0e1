-- ===== src/Logging/Sinks.antt =====
-- `ConsoleSink`, `FileSink` and `Logger`, of src/logging/include/project/logging/logging.h and
-- src/logging/src/logging.cc. A `std::ofstream` is what stands in the file and what stands in its
-- buffer; how each of its calls ends is an event. Messages to the system log are not modelled.
pub mod Durable
pub mod Forked
use https_http_server.Shared.{
  ℕ, zero, suc, List, [], ◌∷◌, ◌++◌, Text, codes, text_eq, Bool, true, false, if◌then◌else◌, take,
  drop,
}
use https_http_server.Status.LogLevels.{Log, important_log}
use https_http_server.Logging.Record.{LogField, LogInfo, Format}

pub record Stream : Type 0 where
  pub file : Text
  pub buffer : Text

-- How a call on the stream ends: well, and the stream has moved so many bytes of its buffer to the
-- file by itself; or with `fail()`, and this is what is left.
pub data Effect : Type 0 where
  done : ℕ → Effect
  broken : Stream → Effect

-- `file_ << text`, and `fail()` behind it.
unfoldable pub write : Text → Effect → Stream → Stream × Bool
write text (done n) s =
    let b = s.buffer ++ text in (record { file = s.file ++ take n b; buffer = drop n b }, true)
write text (broken s') s = (s', false)

-- `file_.flush()`, and `fail()` behind it.
unfoldable pub flush_stream : Effect → Stream → Stream × Bool
flush_stream (done n) s = (record { file = s.file ++ s.buffer; buffer = [] }, true)
flush_stream (broken s') s = (s', false)

pub record FileSink : Type 0 where
  pub format : Format
  pub stream : Stream

-- `FileSink::flush`; `clear()` forgets the failure.
unfoldable pub flush : Effect → FileSink → FileSink × Bool
unfolding flush_stream
flush e sink =
    let (stream, is_good) = flush_stream e sink.stream in
    (record { format = sink.format; stream = stream }, is_good)

-- `FileSink::log`: how the write and the flush end, where there is one.
unfoldable pub file_log : LogInfo → Effect → Effect → FileSink → FileSink × Bool
unfolding write flush important_log
file_log info on_write on_flush sink =
    let (stream, is_good) = write (sink.format info ++ codes "\n") on_write sink.stream in
    let sink' : FileSink = record { format = sink.format; stream = stream } in
    elim is_good [
      | false ↦ (sink', false)
      | true ↦ elim (important_log info.status) [
        | true ↦ flush on_flush sink'
        | false ↦ (sink', true)
      ]
    ]

-- The two sinks.
pub data Sink : Type 0 where
  console : Format → Sink
  file : FileSink → Sink

pub record Logger : Type 0 where
  pub level : Log
  pub sinks : List Sink

-- `ISink::log` on the standard output and a sink; a console always returns `true`.
unfoldable pub sink_log : LogInfo → Effect × Effect → Text → Sink → Text × Sink
unfolding file_log
sink_log info e out (console format) = (out ++ (format info ++ codes "\n"), console format)
sink_log info e out (file sink) = (out, file (file_log info e.0 e.1 sink).0)

-- The loop of `Logger::log`, which reads no result; `effects` is how the calls on the sink at each
-- position end.
unfoldable pub log_sinks : LogInfo → (ℕ → Effect × Effect) → Text → List Sink → Text × List Sink
unfolding sink_log
log_sinks info effects out [] = (out, [])
log_sinks info effects out (s ∷ sinks) =
    let (out', s') = sink_log info (effects 0) out s in
    let (out'', sinks') = log_sinks info (λ i. effects (suc i)) out' sinks in (out'', s' ∷ sinks')

-- `Logger::log`
unfoldable pub log : LogInfo → (ℕ → Effect × Effect) → Text → Logger → Text × Logger
unfolding log_sinks
log info effects out logger =
    let (out', sinks) = log_sinks info effects out logger.sinks in
    (out', record { level = logger.level; sinks = sinks })

-- `Logger::log` of a level, a message, details and a place.
unfoldable pub log_text :
    Log
    → Text
    → List LogField
    → Text × ℕ × ℕ
    → Text
    → (ℕ → Effect × Effect)
    → Text
    → Logger
    → Text × Logger
unfolding log
log_text level info details (path, line, column) timepoint = log (record {
  status = level;
  info = info;
  file = path;
  line = line;
  column = column;
  details = details;
  timepoint = timepoint;
})

unfoldable pub set_level : Log → Logger → Logger
set_level level logger = record logger { level = level }

-- The destructor of a file sink: `close` writes what stands in the buffer. What stands in the file.
unfoldable pub close : Effect → FileSink → Text
unfolding flush_stream
close e sink = (flush_stream e sink.stream).0.file
