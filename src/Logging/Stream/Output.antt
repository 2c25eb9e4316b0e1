-- ===== src/Logging/Stream/Output.antt =====
-- What a statement of the macro `LOG` prints.
use https_http_server.Shared.{
  ℕ, suc, ◌≡◌, refl, sym, ap, ◌∙◌, List, [], ◌∷◌, ◌++◌, append-nil, append_assoc, Text, codes,
  Option, none, some,
}
use https_http_server.Logging.Record.{LogField, LogInfo}
use https_http_server.Logging.Sinks.{
  Effect, Sink, console, file, Logger, log, log_sinks, sink_log, file_log,
}
use https_http_server.Logging.Manager.{LogManager}
use https_http_server.Logging.Watcher.{Watcher}
use https_http_server.Logging.System.{LogSystem}
use https_http_server.Logging.System.Gate.{log_target_iff, Takes}
use https_http_server.Logging.Stream.{
  Subject, subject_level, details_base, Place, LogStream, new_stream, put, put_all, finished,
  log_statement, store_logger,
}

-- What a record prints on the standard output: the text of its format and a line end, for each console.
abbrev pub console_lines : LogInfo → List Sink → Text
console_lines info [] = []
console_lines info (console format ∷ sinks) =
    (format info ++ codes "\n") ++ console_lines info sinks
console_lines info (file sink ∷ sinks) = console_lines info sinks

-- The sinks behind a record: each file sink has logged it by itself.
abbrev pub sinks_after : LogInfo → (ℕ → Effect × Effect) → List Sink → List Sink
sinks_after info effects [] = []
sinks_after info effects (console format ∷ sinks) =
    console format ∷ sinks_after info (λ i. effects (suc i)) sinks
sinks_after info effects (file sink ∷ sinks) =
    file (file_log info (effects 0).0 (effects 0).1 sink).0
    ∷ sinks_after info (λ i. effects (suc i)) sinks

pair_eq {ℓ κ} :
    {A : Type ℓ} {B : Type κ} {a c : A} {b d : B} → a ≡ c → b ≡ d → ◌≡◌ {A = A × B} (a, b) (c, d)
pair_eq {a = a} {d = d} p q = ap (λ x. (a, x)) q ∙ ap (λ x. (x, d)) p

log_sinks_lem :
    (info : LogInfo) (effects : ℕ → Effect × Effect) (out : Text) (sinks : List Sink)
    → log_sinks info effects out sinks
      ≡ (out ++ console_lines info sinks, sinks_after info effects sinks)
unfolding log_sinks sink_log
log_sinks_lem info effects out [] = pair_eq (sym (append-nil out)) refl
log_sinks_lem info effects out (console format ∷ sinks) =
    let line = format info ++ codes "\n" in
    let h = log_sinks_lem info (λ i. effects (suc i)) (out ++ line) sinks in
    pair_eq (ap (λ x. x.0) h ∙ append_assoc out line (console_lines info sinks))
      (ap (λ x. console format ∷ x.1) h)
log_sinks_lem info effects out (file sink ∷ sinks) =
    let h = log_sinks_lem info (λ i. effects (suc i)) out sinks in
    pair_eq (ap (λ x. x.0) h)
      (ap (λ x. file (file_log info (effects 0).0 (effects 0).1 sink).0 ∷ x.1) h)

put_all-buffer :
    (s : LogStream) (vs : List Text) → put_all s vs ≡ record s { buffer = s.buffer ++ vs }
unfolding put_all put
put_all-buffer s [] = ap (λ b. record s { buffer = b }) (sym (append-nil s.buffer))
put_all-buffer s (v ∷ vs) =
    put_all-buffer (put s v) vs
    ∙ ap (λ b. record s { buffer = b }) (append_assoc s.buffer (v ∷ []) vs)

module _ (vformat : Text → List Text → Option Text) where
  -- The message of a statement with its values put in.
  abbrev pub message : Text → List Text → Option Text
  message msg [] = some msg
  message msg (v ∷ vs) = vformat msg (v ∷ vs)

  -- The record of a statement with a message.
  abbrev pub statement_record : Subject → Place → List LogField → Text → LogInfo
  statement_record subject p details info = record {
    status = subject_level subject;
    info = info;
    file = p.file;
    line = p.line;
    column = p.column;
    details = details ++ details_base subject;
    timepoint = p.timepoint;
  }

  statement_finished :
      (subject : Subject) (p : Place) (msg : Text) (details : List LogField) (values : List Text)
      → (o : Option Text) → message msg values ≡ o
      → finished vformat (put_all (new_stream subject p msg details) values)
        ≡ (elim o [ none ↦ none | some t ↦ some (statement_record subject p details t) ])
  unfolding finished new_stream put_all
  statement_finished subject p msg details [] o h = rw⁻¹ (h) refl
  statement_finished subject p msg details (v ∷ vs) o h =
      simp (put_all-buffer (new_stream subject p msg details) (v ∷ vs)) (rw⁻¹ (h) refl)

  -- For every statement of the macro `LOG` with a message, details and values, every manager that is
  -- not paused and has a logger which takes records of the level, and whatever the calls on the files
  -- do: where the values fit the message, the statement prints, once for each console sink and in
  -- their order, the text that the sink's format gives, which may have several lines, and a line end,
  -- for the record of that level, place and text whose details are followed by those
  -- of the code or the status; and it leaves the system as it was, but for each file sink having logged
  -- the record by itself.
  pub statement_lem :
      (effects : ℕ → Effect × Effect)
      → (subject : Subject) (p : Place) (msg : Text) (details : List LogField) (values : List Text)
      → (out : Text) (m : LogManager) (cw : Option Watcher) (l : Logger) (t : Text)
      → Takes m (subject_level subject) l
      → message msg values ≡ some t
      → log_statement vformat effects subject p msg details values out
          (record { lm = some m; cw = cw })
        ≡ (
          out ++ console_lines (statement_record subject p details t) l.sinks,
          record {
            lm = some (record m {
              logger = some (record l {
                sinks = sinks_after (statement_record subject p details t) effects l.sinks;
              });
            });
            cw = cw;
          },
        )
  unfolding log_statement log
  statement_lem effects subject p msg details values out m cw l t g h =
      let s : LogSystem = record { lm = some m; cw = cw } in
      simp
        (
          (log_target_iff s (subject_level subject) l).1 (m, refl, g),
          statement_finished subject p msg details values (some t) h,
          log_statement,
          log,
        )
        (ap (λ x. (x.0, store_logger (record l { sinks = x.1 }) s))
          (log_sinks_lem (statement_record subject p details t) effects out l.sinks))
