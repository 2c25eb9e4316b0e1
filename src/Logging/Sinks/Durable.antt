-- ===== src/Logging/Sinks/Durable.antt =====
-- What a file sink has when `log` returns.
use https_http_server.Shared.{
  ℕ, ◌≡◌, refl, sym, ap, ap₂, ◌∙◌, List, [], ◌∷◌, ◌++◌, append_assoc, append-nil, Text, codes, Bool,
  true, false, take, drop, take-append-drop, ◌&&◌, Bool-cases, inl, inr, if◌then◌else◌,
}
use https_http_server.Status.LogLevels.{important_log}
use https_http_server.Logging.Record.{LogInfo, Format}
use https_http_server.Logging.Sinks.{
  Stream, Effect, done, broken, write, flush_stream, FileSink, flush, file_log,
}

-- The line of a record.
abbrev pub log_line : Format → LogInfo → Text
log_line format info = format info ++ codes "\n"

-- What a stream has taken, in the file and behind it in the buffer.
abbrev pub taken : Stream → Text
taken s = s.file ++ s.buffer

-- What holds behind a call of `log` that has returned a value.
abbrev pub Kept : LogInfo → FileSink → FileSink × Bool → Type 0
Kept info old (new, false) = Unit
Kept info old (new, true) =
    (new.format ≡ old.format)
    × (taken new.stream ≡ taken old.stream ++ log_line old.format info)
    × (important_log info.status ≡ true → new.stream.buffer ≡ [])

take-drop :
    (n : ℕ) (s : Stream) (t : Text)
    → (s.file ++ take n (s.buffer ++ t)) ++ drop n (s.buffer ++ t) ≡ taken s ++ t
take-drop n s t =
    append_assoc s.file (take n (s.buffer ++ t)) (drop n (s.buffer ++ t))
    ∙ (ap (λ b. s.file ++ b) (take-append-drop n (s.buffer ++ t))
        ∙ sym (append_assoc s.file s.buffer t))

Kept-file_log :
    (info : LogInfo) (on_write on_flush : Effect) (sink : FileSink)
    → Kept info sink (file_log info on_write on_flush sink)
unfolding file_log write flush flush_stream
Kept-file_log info (broken s) on_flush sink = tt
Kept-file_log info (done n) (done m) sink = elim (Bool-cases (important_log info.status)) [
  | inr plain ↦
      rw (plain, file_log) (refl, take-drop n sink.stream (log_line sink.format info), λ e. cc)
  | inl important ↦
      rw (important, file_log)
        (refl, append-nil _ ∙ take-drop n sink.stream (log_line sink.format info), λ e. refl)
]
Kept-file_log info (done n) (broken s) sink = elim (Bool-cases (important_log info.status)) [
  | inr plain ↦
      rw (plain, file_log) (refl, take-drop n sink.stream (log_line sink.format info), λ e. cc)
  | inl important ↦ rw (important, file_log) tt
]

-- A call of `log` with how its calls on the stream end.
pub record LogCall : Type 0 where
  pub info : LogInfo
  pub on_write : Effect
  pub on_flush : Effect

-- A series of calls, and whether all have returned `true`.
abbrev pub file_logs : List LogCall → FileSink → FileSink × Bool
file_logs [] sink = (sink, true)
file_logs (c ∷ cs) sink =
    let (sink', one) = file_log c.info c.on_write c.on_flush sink in
    let (sink'', rest) = file_logs cs sink' in (sink'', one && rest)

abbrev pub log_lines : Format → List LogCall → Text
log_lines format [] = []
log_lines format (c ∷ cs) = log_line format c.info ++ log_lines format cs

-- The record of the last call.
abbrev pub ends_important : List LogCall → Bool
ends_important [] = false
ends_important (c ∷ []) = important_log c.info.status
ends_important (c ∷ d ∷ cs) = ends_important (d ∷ cs)

pub and_parts : (a b : Bool) → (a && b) ≡ true → (a ≡ true) × (b ≡ true)
and_parts true b h = (refl, h)
and_parts false b h = cc

Kept-true :
    (info : LogInfo) (old : FileSink) (r : FileSink × Bool)
    → Kept info old r
    → r.1 ≡ true
    → (r.0.format ≡ old.format)
      × (taken r.0.stream ≡ taken old.stream ++ log_line old.format info)
      × (important_log info.status ≡ true → r.0.stream.buffer ≡ [])
Kept-true info old (new, true) k h = k
Kept-true info old (new, false) k h = cc

-- What a call that returns `true` has kept.
pub kept :
    (c : LogCall) (sink : FileSink)
    → (file_log c.info c.on_write c.on_flush sink).1 ≡ true
    → let r = (file_log c.info c.on_write c.on_flush sink).0 in
      (r.format ≡ sink.format)
      × (taken r.stream ≡ taken sink.stream ++ log_line sink.format c.info)
      × (important_log c.info.status ≡ true → r.stream.buffer ≡ [])
kept c sink = Kept-true c.info sink _ (Kept-file_log c.info c.on_write c.on_flush sink)

pub taken-file_logs :
    (cs : List LogCall) (sink : FileSink)
    → (file_logs cs sink).1 ≡ true
    → taken (file_logs cs sink).0.stream ≡ taken sink.stream ++ log_lines sink.format cs
taken-file_logs [] sink h = sym (append-nil (taken sink.stream))
taken-file_logs (c ∷ cs) sink h =
    let (one, rest) = and_parts _ _ h in
    let (format, line, flushed) = kept c sink one in
    let sink' : FileSink = (file_log c.info c.on_write c.on_flush sink).0 in
    taken-file_logs cs sink' rest
    ∙ (ap₂ (λ t f. t ++ log_lines f cs) line format
        ∙ append_assoc (taken sink.stream) (log_line sink.format c.info) (log_lines sink.format cs))

pub file_logs_flushed :
    (cs : List LogCall) (sink : FileSink)
    → (file_logs cs sink).1 ≡ true
    → ends_important cs ≡ true
    → (file_logs cs sink).0.stream.buffer ≡ []
file_logs_flushed [] sink h e = cc
file_logs_flushed (c ∷ []) sink h e = (kept c sink (and_parts _ _ h).0).2 e
file_logs_flushed (c ∷ d ∷ cs) sink h e =
    file_logs_flushed (d ∷ cs) (file_log c.info c.on_write c.on_flush sink).0 (and_parts _ _ h).1 e

-- After a series of calls of `FileSink::log` that have all returned `true`, the stream has taken the
-- lines of all their records, in their order, behind what it had before; and where the last record
-- is of a level that is flushed at once, its buffer is empty, so that all of it stands in the file.
pub file_logs_durable :
    (cs : List LogCall) (sink : FileSink)
    → (file_logs cs sink).1 ≡ true
    → (taken (file_logs cs sink).0.stream ≡ taken sink.stream ++ log_lines sink.format cs)
      × ((if ends_important cs then (file_logs cs sink).0.stream.buffer else []) ≡ [])
file_logs_durable cs sink h = (
  taken-file_logs cs sink h,
  elim (Bool-cases (ends_important cs)) [
    | inl e ↦ rw e (file_logs_flushed cs sink h e)
    | inr e ↦ rw e refl
  ],
)
