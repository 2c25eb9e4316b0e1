-- ===== src/Logging/Watcher/Lifecycle.antt =====
-- What holds of a watcher whatever its thread and its callers do.
use https_http_server.Shared.{
  ◌≡◌, ◌≢◌, refl, ap, ◌∙◌, none, some, Bool, true, false, is_some, arith,
}
use https_http_server.Logging.Watcher.{
  Worker, idle, running, ended, Watcher, Opening, new_watcher, start, signal, join, KEvent, failure,
  nothing, event_error, vnode, user, other, receive, MayCome, up, failed, crashed, Step, starts,
  fails, signals, joins, receives, Reach, here, next, drop_watcher,
}

-- A watcher that is started has a thread that is not joined, or a `Start` has made none. One that is neither started nor
-- stopping has none. While it stops, a thread that runs will find the user event.
abbrev Phase : Bool → Bool → Worker → Bool → Type 0
Phase true true worker trigger = ⊥
Phase true false idle trigger = Unit
Phase true false running trigger = Unit
Phase true false ended trigger = Unit
Phase false false idle trigger = Unit
Phase false false running trigger = ⊥
Phase false false ended trigger = ⊥
Phase false true idle trigger = Unit
Phase false true ended trigger = Unit
Phase false true running true = Unit
Phase false true running false = ⊥

abbrev pub IsSound : Watcher → Type 0
IsSound w = Phase w.started w.stopping w.worker w.trigger

start-IsSound : (w u : Watcher) → IsSound w → w.stopping ≡ false → start true w ≡ up u → IsSound u
unfolding start
start-IsSound w u s h e = ground arith

fail-IsSound :
    (w u : Watcher) → IsSound w → w.stopping ≡ false → start false w ≡ failed u → IsSound u
unfolding start
fail-IsSound w u s h e = ground arith

signal-IsSound : (w : Watcher) → IsSound w → w.stopping ≡ false → IsSound (signal w)
unfolding signal
signal-IsSound w s h = ground arith

join-IsSound : (w u : Watcher) → IsSound w → w.stopping ≡ true → join w ≡ some u → IsSound u
unfolding join
join-IsSound w u s h e = ground arith

receive-IsSound :
    (e : KEvent) (w : Watcher)
    → IsSound w
    → w.worker ≡ running
    → MayCome e w
    → IsSound (receive e w)
unfolding receive
receive-IsSound failure w s h m = ground arith
receive-IsSound nothing w s h m = ground arith
receive-IsSound event_error w s h m = ground arith
receive-IsSound (vnode false path) w s h m = ground arith
receive-IsSound (vnode true none) w s h m = ground arith
receive-IsSound (vnode true (some path)) w s h m = ground arith
receive-IsSound user w s h m = ground arith
receive-IsSound other w s h m = ground arith

Step-IsSound : {w u : Watcher} → Step w u → IsSound w → IsSound u
Step-IsSound {w} {u} (starts h e) s = start-IsSound w u s h e
Step-IsSound {w} {u} (fails h e) s = fail-IsSound w u s h e
Step-IsSound {w} (signals h) s = signal-IsSound w s h
Step-IsSound {w} {u} (joins h e) s = join-IsSound w u s h e
Step-IsSound {w} (receives e h m) s = receive-IsSound e w s h m

Reach-IsSound : {w u : Watcher} → Reach w u → IsSound w → IsSound u
Reach-IsSound here s = s
Reach-IsSound (next r st) s = Step-IsSound st (Reach-IsSound r s)

new_watcher-IsSound : (o : Opening) (w : Watcher) → (new_watcher o).0 ≡ some w → IsSound w
unfolding new_watcher
new_watcher-IsSound o w e = ground arith

-- No `Start` on the way has failed to make its thread.
abbrev pub NoFailure : {w u : Watcher} → Reach w u → Type 0
NoFailure here = Unit
NoFailure (next r (fails h e)) = ⊥
NoFailure (next r (starts h e)) = NoFailure r
NoFailure (next r (signals h)) = NoFailure r
NoFailure (next r (joins h e)) = NoFailure r
NoFailure (next r (receives e h m)) = NoFailure r

-- A started watcher has a thread.
abbrev HasThread : Watcher → Type 0
HasThread w = w.started ≡ true → w.worker ≢ idle

start-HasThread : (w u : Watcher) → start true w ≡ up u → HasThread u
unfolding start
start-HasThread w u e = λ t k. ground arith

signal-HasThread : (w : Watcher) → HasThread w → HasThread (signal w)
unfolding signal
signal-HasThread w h = λ t k. ground arith

join-HasThread : (w u : Watcher) → IsSound w → w.stopping ≡ true → join w ≡ some u → HasThread u
unfolding join
join-HasThread w u s h e = λ t k. ground arith

receive-HasThread : (e : KEvent) (w : Watcher) → w.worker ≡ running → HasThread (receive e w)
unfolding receive
receive-HasThread failure w h = λ t k. cc
receive-HasThread nothing w h = λ t k. cc
receive-HasThread event_error w h = λ t k. cc
receive-HasThread (vnode false path) w h = λ t k. cc
receive-HasThread (vnode true none) w h = λ t k. cc
receive-HasThread (vnode true (some path)) w h = λ t k. cc
receive-HasThread user w h = λ t k. cc
receive-HasThread other w h = λ t k. cc

Reach-HasThread :
    {w u : Watcher} (r : Reach w u) → NoFailure r → IsSound w → HasThread w → HasThread u
Reach-HasThread here n s h = h
Reach-HasThread (next r (fails k e)) n s h = absurd n
Reach-HasThread (next {u = v} r (starts {u = u} k e)) n s h = start-HasThread v u e
Reach-HasThread (next {u = v} r (signals k)) n s h = signal-HasThread v (Reach-HasThread r n s h)
Reach-HasThread (next {u = v} r (joins {u = u} k e)) n s h =
    join-HasThread v u (Reach-IsSound r s) k e
Reach-HasThread (next {u = v} r (receives e k m)) n s h = receive-HasThread e v k

new_watcher-HasThread : (o : Opening) (w : Watcher) → (new_watcher o).0 ≡ some w → HasThread w
unfolding new_watcher
new_watcher-HasThread o w e = ground arith

-- `Start` would not terminate the program, and destroying the watcher as it is would not either.
abbrev pub IsFree : Watcher → Type 0
IsFree u = (start true u ≢ crashed) × (is_some (drop_watcher u) ≡ true)

abbrev pub IsBusy : Watcher → Type 0
IsBusy u = (start true u ≡ crashed) × (drop_watcher u ≡ none)

free_lem : (u : Watcher) → IsSound u → u.stopping ≡ false → u.started ≡ false → IsFree u
unfolding start drop_watcher
free_lem u s h e = (λ c. ground arith, ground arith)

busy_lem : (u : Watcher) → u.worker ≢ idle → IsBusy u
unfolding start drop_watcher
busy_lem u h = (ground arith, ground arith)

-- Whatever a new watcher has gone through, while nobody stops it: where it is not started, `Start` does
-- not terminate the program, and neither does destroying it without `Stop`; and where it is started, and
-- the system has made the thread at every `Start` that it has gone through, a `Start` for which the
-- system makes a thread terminates the program, and destroying the watcher without `Stop` would too.
pub Reach-start :
    (o : Opening) (w u : Watcher)
    → (new_watcher o).0 ≡ some w
    → (r : Reach w u) → u.stopping ≡ false
    → (u.started ≡ false → IsFree u) × (NoFailure r → u.started ≡ true → IsBusy u)
Reach-start o w u e r h =
    let s = new_watcher-IsSound o w e in
    (
      free_lem u (Reach-IsSound r s) h,
      λ n t. busy_lem u (Reach-HasThread r n s (new_watcher-HasThread o w e) t),
    )

-- The watcher, stopped.
abbrev pub IsStopped : Watcher → Type 0
IsStopped v = (v.worker ≡ idle) × (v.stopping ≡ false) × (v.started ≡ false)

can_join :
    (u : Watcher) (k : Worker)
    → IsSound u
    → u.stopping ≡ true
    → u.worker ≡ k
    → (v : Watcher) × Reach u v × IsStopped v
unfolding join receive
can_join u idle s h e = (
  record u { worker = idle; stopping = false },
  next here (joins h (rw (e, join) refl)),
  (refl, refl, ground arith),
)
can_join u ended s h e = (
  record u { worker = idle; stopping = false },
  next here (joins h (rw (e, join) refl)),
  (refl, refl, ground arith),
)
can_join u running s h e = (
  record u { worker = idle; trigger = false; stopping = false },
  next (next here (receives user e (ground arith))) (joins h refl),
  (refl, refl, ground arith),
)

-- Whatever a new watcher has gone through, a `Stop` that waits can end: the thread has returned, or
-- finds the user event and returns, and the watcher is stopped.
pub Reach-can_stop :
    (o : Opening) (w u : Watcher)
    → (new_watcher o).0 ≡ some w
    → Reach w u
    → u.stopping ≡ true
    → (v : Watcher) × Reach u v × IsStopped v
Reach-can_stop o w u e r h =
    can_join u u.worker (Reach-IsSound r (new_watcher-IsSound o w e)) h refl

-- `Stop` and `Start` on a watcher whose thread has returned by itself: the new thread runs with the
-- user event still triggered, so that it may return at once while the watcher counts as started.
restart_ended :
    (w : Watcher)
    → w.worker ≡ ended
    → w.started ≡ true
    → w.stopping ≡ false
    → (u : Watcher) × Reach w u
      × (u.started ≡ true)
      × (u.worker ≡ running)
      × (receive user u).worker ≡ ended
      × MayCome user u
unfolding start signal join receive
restart_ended w we ws wp =
    let stopped : Watcher = record w {
      started = false;
      worker = idle;
      trigger = true;
      stopping = false;
    } in
    let wait : (signal w).stopping ≡ true = rw (ws, signal) refl in
    let sent : signal w ≡ record w { started = false; trigger = true; stopping = true } =
      rw (ws, signal) refl in
    let joined : join (signal w) ≡ some stopped = ap join sent ∙ rw (we, join) refl in
    (
      record stopped { started = true; worker = running },
      next {u = stopped} (next {u = signal w} (next here (signals wp)) (joins wait joined))
          (starts refl refl),
      refl,
      refl,
      refl,
      refl,
    )
