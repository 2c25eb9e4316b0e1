-- ===== src/Logging/Sinks/Forked/Lost.antt =====
-- Records that stand twice in the file, and records that are lost.
use https_http_server.Shared.{
  and_assoc, ℕ, ◌≡◌, refl, sym, ap, ap₂, ◌∙◌, List, [], ◌∷◌, ◌++◌, map, append_assoc, append-nil,
  Text, Option, none, some, true, false, ◌&&◌, get_elem?-set_self, length, ◌<◌, arith, set, set-set,
  All, Bool-cases, inl, inr,
}
use https_http_server.Status.LogLevels.{important_log}
use https_http_server.Logging.Record.{LogInfo, Format}
use https_http_server.Logging.Sinks.{
  Effect, done, broken, write, flush_stream, flush, FileSink, file_log,
}
use https_http_server.Logging.Sinks.Durable.{
  LogCall, log_line, log_lines, file_logs, ends_important, taken, taken-file_logs,
  file_logs_flushed, and_parts,
}
use https_http_server.Logging.Sinks.Forked.{Processes, Event, forks, exits, logs, step, run}

abbrev pub sink_of : Format → Text → Text → FileSink
sink_of format file buffer = record {
  format = format;
  stream = record { file = file; buffer = buffer };
}

-- The state in which a process, at its place, has what a sink has.
abbrev pub with_sink : List (Option Text) → ℕ → FileSink → Processes
with_sink buffers i sink = record {
  file = sink.stream.file;
  buffers = set buffers i (some sink.stream.buffer);
}

file_log_format :
    (info : LogInfo) (on_write on_flush : Effect) (sink : FileSink)
    → (file_log info on_write on_flush sink).0.format ≡ sink.format
unfolding file_log write flush flush_stream
file_log_format info (broken s) on_flush sink = refl
file_log_format info (done n) on_flush sink = elim (Bool-cases (important_log info.status)) [
  | inr plain ↦ rw (plain, file_log) refl
  | inl important ↦ rw (important, file_log) refl
]

run-append :
    (format : Format) (es fs : List Event) (s : Processes)
    → run format (es ++ fs) s ≡ (
      (run format fs (run format es s).0).0,
      (run format es s).1 && (run format fs (run format es s).0).1,
    )
unfolding run
run-append format [] fs s = refl
run-append format (e ∷ es) fs s =
    let (s', one) = step format e s in
    let ih = run-append format es fs s' in
    ap₂ (λ t b. (t, one && b)) (ap (λ r. r.0) ih) (ap (λ r. r.1) ih)
    ∙ ap (λ b. ((run format fs (run format es s').0).0, b))
        (sym (and_assoc one (run format es s').1 (run format fs (run format es s').0).1))

step-logs :
    (buffers : List (Option Text)) (i : ℕ) (c : LogCall) (sink : FileSink)
    → i < length buffers
    → step sink.format (logs i c) (with_sink buffers i sink) ≡ (
      with_sink buffers i (file_log c.info c.on_write c.on_flush sink).0,
      (file_log c.info c.on_write c.on_flush sink).1,
    )
unfolding step
step-logs buffers i c sink inside =
    let new = (file_log c.info c.on_write c.on_flush sink).0 in
    rw (get_elem?-set_self buffers i (some sink.stream.buffer) inside, step)
      (ap
        (λ bs. (
          record { file = new.stream.file; buffers = bs },
          (file_log c.info c.on_write c.on_flush sink).1,
        ))
        (set-set buffers i (some sink.stream.buffer) (some new.stream.buffer)))

run-file_logs :
    (format : Format) (buffers : List (Option Text)) (i : ℕ) (cs : List LogCall) (sink : FileSink)
    → i < length buffers
    → sink.format ≡ format
    → run format (map (logs i) cs) (with_sink buffers i sink)
      ≡ (with_sink buffers i (file_logs cs sink).0, (file_logs cs sink).1)
unfolding run
run-file_logs format buffers i [] sink inside same = refl
run-file_logs format buffers i (c ∷ cs) sink inside same =
    let (sink', one) = file_log c.info c.on_write c.on_flush sink in
    let stepped =
      ap (λ f. step f (logs i c) (with_sink buffers i sink)) (sym same)
      ∙ step-logs buffers i c sink inside in
    let ih =
      run-file_logs format buffers i cs sink' inside
        (file_log_format c.info c.on_write c.on_flush sink ∙ same) in
    ap (λ r. let (s'', rest) = run format (map (logs i) cs) r.0 in (s'', r.1 && rest)) stepped
    ∙ ap (λ r. (r.0, one && r.1)) ih

-- A process forks; the child logs records and ends; and then the process logs records.
abbrev pub fork_and_log : List LogCall → List LogCall → List Event
fork_and_log cs ds = forks 0 ∷ (map (logs 1) cs ++ exits 1 ∷ map (logs 0) ds)

-- One process, with what stands in its buffer.
abbrev pub alone : Text → Text → Processes
alone file buffer = record { file = file; buffers = some buffer ∷ [] }

-- What the child leaves in its sink, and then the parent in its own.
abbrev pub child_sink : Format → Text → Text → List LogCall → FileSink
child_sink format f b cs = (file_logs cs (sink_of format f b)).0

abbrev pub parent_sink : Format → Text → Text → List LogCall → FileSink
parent_sink format f b cs = sink_of format (child_sink format f b cs).stream.file b

run-fork_and_log :
    (format : Format) (f b : Text) (cs ds : List LogCall)
    → run format (fork_and_log cs ds) (alone f b) ≡ (
      with_sink (some b ∷ none ∷ []) 0 (file_logs ds (parent_sink format f b cs)).0,
      (file_logs cs (sink_of format f b)).1 && (file_logs ds (parent_sink format f b cs)).1,
    )
unfolding run step
run-fork_and_log format f b cs ds =
    let child =
      run-file_logs format (some b ∷ some b ∷ []) 1 cs (sink_of format f b) (omega arith) refl in
    let parent =
      run-file_logs format (some b ∷ none ∷ []) 0 ds (parent_sink format f b cs) (omega arith)
        refl in
    run-append format (map (logs 1) cs) (exits 1 ∷ map (logs 0) ds)
      (with_sink (some b ∷ some b ∷ []) 1 (sink_of format f b))
    ∙ (ap (λ r. let (t, ok) = run format (exits 1 ∷ map (logs 0) ds) r.0 in (t, r.1 && ok)) child
        ∙ ap (λ r. (r.0, (file_logs cs (sink_of format f b)).1 && r.1)) parent)

-- The file, when a series of calls ends with a record that is flushed at once.
flushed_file :
    (cs : List LogCall) (sink : FileSink)
    → (file_logs cs sink).1 ≡ true
    → ends_important cs ≡ true
    → (file_logs cs sink).0.stream.file ≡ taken sink.stream ++ log_lines sink.format cs
flushed_file cs sink well last =
    let new = (file_logs cs sink).0.stream in
    sym (append-nil new.file)
    ∙ (ap (λ t. new.file ++ t) (sym (file_logs_flushed cs sink well last))
        ∙ taken-file_logs cs sink well)

the_state :
    {f f' b b' : Text}
    → f ≡ f'
    → b ≡ b'
    → ◌≡◌ {A = Processes}
        (record { file = f; buffers = some b ∷ none ∷ [] })
        (record { file = f'; buffers = some b' ∷ none ∷ [] })
the_state e e' = ap₂ (λ f b. record { file = f; buffers = some b ∷ none ∷ [] }) e e'

-- A process forks while its sink keeps text in its buffer; the child logs records, the last of them
-- of a level that is flushed at once, and ends; and the process does the same. Where all calls return
-- `true`, the text of the buffer stands in the file twice, before the lines of the child and before
-- those of the process.
pub run_fork_twice :
    (format : Format) (f b : Text) (cs ds : List LogCall)
    → (run format (fork_and_log cs ds) (alone f b)).1 ≡ true
    → ends_important cs ≡ true
    → ends_important ds ≡ true
    → (run format (fork_and_log cs ds) (alone f b)).0 ≡ record {
      file = (f ++ b) ++ (log_lines format cs ++ (b ++ log_lines format ds));
      buffers = some [] ∷ none ∷ [];
    }
run_fork_twice format f b cs ds well last last' =
    let all = run-fork_and_log format f b cs ds in
    let (one, two) = and_parts _ _ (sym (ap (λ r. r.1) all) ∙ well) in
    ap (λ r. r.0) all
    ∙ the_state
        (flushed_file ds (parent_sink format f b cs) two last'
          ∙ (ap (λ t. (t ++ b) ++ log_lines format ds)
                (flushed_file cs (sink_of format f b) one last)
              ∙ simp append_assoc))
        (file_logs_flushed ds (parent_sink format f b cs) two last')

-- What a call does that moves nothing to the file by itself, on a record that is not flushed at once.
abbrev pub IsQuiet : LogCall → Type 0
IsQuiet c = (important_log c.info.status ≡ false) × (c.on_write ≡ done 0)

quiet-file_log :
    (format : Format) (c : LogCall) (f b : Text)
    → important_log c.info.status ≡ false
    → c.on_write ≡ done 0
    → file_log c.info c.on_write c.on_flush (sink_of format f b)
      ≡ (sink_of format f (b ++ log_line format c.info), true)
unfolding file_log write
quiet-file_log format c f b plain still =
    ap (λ w. file_log c.info w c.on_flush (sink_of format f b)) still
    ∙ rw (plain, file_log)
        (ap (λ t. (sink_of format t (b ++ log_line format c.info), true)) (append-nil f))

quiet-file_logs :
    (format : Format) (cs : List LogCall) (f b : Text)
    → All IsQuiet cs
    → file_logs cs (sink_of format f b) ≡ (sink_of format f (b ++ log_lines format cs), true)
quiet-file_logs format [] f b quiet = ap (λ t. (sink_of format f t, true)) (sym (append-nil b))
quiet-file_logs format (c ∷ cs) f b ((plain, still), quiet) =
    let line = log_line format c.info in
    ap (λ r. let (sink'', rest) = file_logs cs r.0 in (sink'', r.1 && rest))
      (quiet-file_log format c f b plain still)
    ∙ (quiet-file_logs format cs f (b ++ line) quiet
        ∙ ap (λ t. (sink_of format f t, true)) (append_assoc b line (log_lines format cs)))

-- A process forks; the child logs records, none of which is of a level that is flushed at once, and
-- ends before the stream moves anything to the file by itself. All calls return `true`, and the file
-- and what the process keeps are as they were: the records of the child are lost.
pub run_fork_lost :
    (format : Format) (f b : Text) (cs : List LogCall)
    → All IsQuiet cs
    → run format (fork_and_log cs []) (alone f b)
      ≡ (record { file = f; buffers = some b ∷ none ∷ [] }, true)
run_fork_lost format f b cs quiet =
    run-fork_and_log format f b cs []
    ∙ ap (λ r. (with_sink (some b ∷ none ∷ []) 0 (sink_of format r.0.stream.file b), r.1 && true))
        (quiet-file_logs format cs f b quiet)
