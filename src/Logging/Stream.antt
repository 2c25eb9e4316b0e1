-- ===== src/Logging/Stream.antt =====
-- `LogStream` and the macros over `LOG`, of
-- src/logging/include/project/logging/manager/logging_system.h and
-- src/logging/src/manager/logging_system.cc. `fmt::vformat` is the parameter `vformat`, `none` where it
-- throws, which is caught.
pub mod Output
use https_http_server.Shared.{ℕ, List, [], ◌∷◌, ◌++◌, Text, codes, Option, none, some}
use https_http_server.Status.Codes.{Http, code, obsolete_reason}
use https_http_server.Status.RetCodes.{RetCode, retcode_number, to_http_status, ret_mesg}
use https_http_server.Status.LogLevels.{Log, to_log_of_status, to_log_of_retcode}
use https_http_server.Codec.Serialize.{to_decimal}
use https_http_server.Logging.Record.{LogField, LogInfo}
use https_http_server.Logging.Sinks.{Effect, Logger, log}
use https_http_server.Logging.Manager.{LogManager}
use https_http_server.Logging.System.{LogSystem, log_target}

-- What the macro `LOG` is called on: one of the three types that `to_log` takes.
pub data Subject : Type 0 where
  on_level : Log → Subject
  on_code : RetCode → Subject
  on_status : Http → Subject

-- `to_log`
unfoldable pub subject_level : Subject → Log
unfolding to_log_of_status to_log_of_retcode
subject_level (on_level l) = l
subject_level (on_code c) = to_log_of_retcode c
subject_level (on_status s) = to_log_of_status s

-- `details_base`
unfoldable pub details_base : Subject → List LogField
unfolding to_decimal code retcode_number to_http_status ret_mesg obsolete_reason
details_base (on_level l) = []
details_base (on_code c) =
    (codes "retCode", to_decimal (retcode_number c))
    ∷ (codes "retMesg", ret_mesg c)
    ∷ (codes "status", to_decimal (code (to_http_status c)))
    ∷ (codes "obsolete_reason", obsolete_reason (to_http_status c))
    ∷ []
details_base (on_status s) =
    (codes "status", to_decimal (code s)) ∷ (codes "obsolete_reason", obsolete_reason s) ∷ []

-- `std::source_location`, and the time.
pub record Place : Type 0 where
  pub file : Text
  pub line : ℕ
  pub column : ℕ
  pub timepoint : Text

pub record LogStream : Type 0 where
  pub linfo : LogInfo
  pub buffer : List Text

-- The constructors; those without a message call the others with an empty one.
unfoldable pub new_stream : Subject → Place → Text → List LogField → LogStream
unfolding subject_level details_base
new_stream subject p msg details = record {
  linfo = record {
    status = subject_level subject;
    info = msg;
    file = p.file;
    line = p.line;
    column = p.column;
    details = details ++ details_base subject;
    timepoint = p.timepoint;
  };
  buffer = [];
}

-- `operator<<` on a value, given as its text.
unfoldable pub put : LogStream → Text → LogStream
put s v = record s { buffer = s.buffer ++ (v ∷ []) }

-- A chain of `<<`.
unfoldable pub put_all : LogStream → List Text → LogStream
unfolding put
put_all s [] = s
put_all s (v ∷ vs) = put_all (put s v) vs

-- What a statement leaves: the standard output and the logging system.
abbrev pub store_logger : Logger → LogSystem → LogSystem
store_logger l s = elim s.lm [
  | none ↦ s
  | some m ↦ record s { lm = some (record m { logger = some l }) }
]

module _ (vformat : Text → List Text → Option Text) where
  -- The record that the destructor logs.
  unfoldable pub finished : LogStream → Option LogInfo
  finished s = elim s.buffer [
    | [] ↦ some s.linfo
    | v ∷ vs ↦ elim (vformat s.linfo.info (v ∷ vs)) [
      | none ↦ none
      | some info ↦ some (record s.linfo { info = info })
    ]
  ]

  -- `LOG(subject, msg, details) << v << ...`. The stream has a copy of the logger, whose sinks are
  -- those of the manager's.
  unfoldable pub log_statement :
      (ℕ → Effect × Effect)
      → Subject
      → Place
      → Text
      → List LogField
      → List Text
      → Text
      → LogSystem
      → Text × LogSystem
  unfolding log_target subject_level new_stream put_all finished log
  log_statement effects subject p msg details values out s =
      elim (log_target s (subject_level subject)) [
        | none ↦ (out, s)
        | some logger ↦ elim (finished (put_all (new_stream subject p msg details) values)) [
          | none ↦ (out, s)
          | some info ↦
              let (out', logger') = log info effects out logger in (out', store_logger logger' s)
        ]
      ]
