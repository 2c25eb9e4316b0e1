-- ===== src/Logging/Sinks/Forked/Order.antt =====
-- What the file gets from several processes.
use https_http_server.Shared.{
  ℕ, ◌≡◌, refl, sym, ap, ◌∙◌, List, [], ◌∷◌, ◌++◌, append_assoc, append-nil, Text, Option, none,
  some, Bool, true, get_elem?, All, All-set, All-append, All-get_elem?, Option-cases, inl, inr,
}
use https_http_server.Status.LogLevels.{important_log}
use https_http_server.Logging.Record.{Format}
use https_http_server.Logging.Sinks.{FileSink, file_log}
use https_http_server.Logging.Sinks.Durable.{LogCall, log_line, kept, and_parts}
use https_http_server.Logging.Sinks.Forked.{
  Processes, Event, forks, exits, logs, buffer_of, step, run,
}

-- Every record that is logged is of a level that is flushed at once.
abbrev pub IsImportant : Event → Type 0
IsImportant (forks i) = Unit
IsImportant (exits i) = Unit
IsImportant (logs i c) = important_log c.info.status ≡ true

abbrev pub IsEmpty : Option Text → Type 0
IsEmpty none = Unit
IsEmpty (some b) = b ≡ []

-- The lines of the records, in the order of the calls.
abbrev pub lines_of : Format → List Event → Text
lines_of format [] = []
lines_of format (forks i ∷ es) = lines_of format es
lines_of format (exits i ∷ es) = lines_of format es
lines_of format (logs i c ∷ es) = log_line format c.info ++ lines_of format es

IsEmpty-buffer_of :
    (s : Processes) (i : ℕ) → All IsEmpty s.buffers → IsEmpty (buffer_of (get_elem? s.buffers i))
IsEmpty-buffer_of s i h = elim (Option-cases (get_elem? s.buffers i)) [
  | inl e ↦ rw e tt
  | inr (b, e) ↦ rw e (All-get_elem? IsEmpty s.buffers i b h e)
]

-- What an event leaves, with the lines that it adds.
abbrev Orderly : Format → Event → Processes → Processes × Bool → Type 0
Orderly format e s r =
    r.1 ≡ true → (r.0.file ≡ s.file ++ lines_of format (e ∷ [])) × All IsEmpty r.0.buffers

logs-Orderly :
    (format : Format) (i : ℕ) (c : LogCall) (s : Processes) (o : Option Text)
    → buffer_of (get_elem? s.buffers i) ≡ o
    → IsEmpty o
    → All IsEmpty s.buffers
    → IsImportant (logs i c)
    → Orderly format (logs i c) s (step format (logs i c) s)
unfolding step
logs-Orderly format i c s none e empty h important = rw (e, step) (λ done. cc)
logs-Orderly format i c s (some b) e empty h important =
    rw (e, step)
      λ done.
        let sink : FileSink = record {
          format = format;
          stream = record { file = s.file; buffer = b };
        } in
        let (same, line, flushed) = kept c sink done in
        let none_left = flushed important in
        let new = (file_log c.info c.on_write c.on_flush sink).0.stream in
        (
          sym (append-nil new.file)
              ∙ (ap (λ t. new.file ++ t) (sym none_left)
                  ∙ (line
                      ∙ (ap (λ t. (s.file ++ t) ++ log_line format c.info) empty
                          ∙ (ap (λ t. t ++ log_line format c.info) (append-nil s.file)
                              ∙ ap (λ t. s.file ++ t)
                                  (sym (append-nil (log_line format c.info))))))),
          All-set IsEmpty s.buffers i (some new.buffer) h none_left,
        )

step-Orderly :
    (format : Format) (e : Event) (s : Processes)
    → All IsEmpty s.buffers
    → IsImportant e
    → Orderly format e s (step format e s)
unfolding step
step-Orderly format (logs i c) s h important done =
    logs-Orderly format i c s (buffer_of (get_elem? s.buffers i)) refl (IsEmpty-buffer_of s i h) h
      important done
step-Orderly format (forks i) s h important done =
    (sym (append-nil s.file), All-append IsEmpty s.buffers _ h (IsEmpty-buffer_of s i h, tt))
step-Orderly format (exits i) s h important done =
    (sym (append-nil s.file), All-set IsEmpty s.buffers i none h tt)

lines_of_cons :
    (format : Format) (e : Event) (es : List Event)
    → lines_of format (e ∷ []) ++ lines_of format es ≡ lines_of format (e ∷ es)
lines_of_cons format (forks i) es = refl
lines_of_cons format (exits i) es = refl
lines_of_cons format (logs i c) es = append_assoc (log_line format c.info) [] (lines_of format es)

-- The file of processes that fork, end and log in any order, with empty buffers at the start, records
-- of levels that are flushed at once only, and calls that all return `true`, gets the line of every
-- record, once and in the order of the calls; and no buffer keeps anything.
pub run-lines_of :
    (format : Format) (es : List Event) (s : Processes)
    → All IsEmpty s.buffers
    → All IsImportant es
    → (run format es s).1 ≡ true
    → ((run format es s).0.file ≡ s.file ++ lines_of format es)
      × All IsEmpty (run format es s).0.buffers
unfolding run
run-lines_of format [] s h important done = (sym (append-nil s.file), h)
run-lines_of format (e ∷ es) s h important done =
    let s' = (step format e s).0 in
    let (one, rest) = and_parts (step format e s).1 (run format es s').1 done in
    let (file, empty) = step-Orderly format e s h important.0 one in
    let (file', empty') = run-lines_of format es s' empty important.1 rest in
    (
      file'
          ∙ (ap (λ t. t ++ lines_of format es) file
              ∙ (append_assoc s.file (lines_of format (e ∷ [])) (lines_of format es)
                  ∙ ap (λ t. s.file ++ t) (lines_of_cons format e es))),
      empty',
    )
