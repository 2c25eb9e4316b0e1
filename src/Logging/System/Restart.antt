-- ===== src/Logging/System/Restart.antt =====
-- Starting the logging system anew by `LogSystem::Start` of a path.
use https_http_server.Shared.{
  ◌≡◌, ◌≢◌, inl, inr, refl, List, Text, Option, none, some, Bool, true, false, Bool-cases,
  Option-cases, arith,
}
use https_http_server.Message.Envelope.{JsonLib}
use https_http_server.Logging.Config.{YamlLib, Read, ok, absent, thrown}
use https_http_server.Logging.Manager.{LogManager, new_manager}
use https_http_server.Logging.Watcher.{
  Watcher, Opening, new_watcher, Worker, idle, running, ended, KEvent, signal, join, drop_watcher,
}
use https_http_server.Logging.Watcher
use https_http_server.Logging.Watcher.Lifecycle.{IsSound}
use https_http_server.Logging.System.{
  LogSystem, Called, returned, raised, terminated, blocked, and_then, stop_watcher, run_events,
  join_thread, retire, assemble, start_watcher, start_path,
}

-- A call that is blocked, or returns with a state of some kind.
abbrev pub EndsIn : (LogSystem → Type 0) → Called → Type 0
EndsIn P (returned s b) = P s
EndsIn P (raised s) = ⊥
EndsIn P terminated = ⊥
EndsIn P blocked = Unit {0}

-- The program is not terminated, and an exception leaves the call only where the system does not make
-- the thread.
abbrev pub IsSafe : Bool → Called → Type 0
IsSafe spawns (returned s b) = Unit {0}
IsSafe spawns (raised s) = spawns ≡ false
IsSafe spawns terminated = ⊥
IsSafe spawns blocked = Unit {0}

-- The system has no watcher, or one without a thread.
abbrev pub IsSettled : LogSystem → Type 0
IsSettled s = elim s.cw [ none ↦ Unit {0} | some w ↦ w.worker ≡ idle ]

module _ (J : JsonLib) (Y : YamlLib) where
  joined-IsSettled :
      (lm : Option LogManager) (cw : Option Watcher)
      → EndsIn IsSettled (join_thread J Y (record { lm = lm; cw = cw }))
  unfolding join_thread join
  joined-IsSettled lm none = tt
  joined-IsSettled lm (some w) = of_worker w w.worker refl
    where
      of_worker :
          (w : Watcher) (k : Worker)
          → w.worker ≡ k
          → EndsIn IsSettled (join_thread J Y (record { lm = lm; cw = some w }))
      of_worker w idle e = simp (e, join_thread, join) refl
      of_worker w running e = simp (e, join_thread, join) tt
      of_worker w ended e = simp (e, join_thread, join) refl

  -- The watcher, if any, is in a state that it comes to, and nobody is stopping it.
  abbrev pub IsCalm : Option Watcher → Type 0
  IsCalm none = Unit {0}
  IsCalm (some w) = IsSound w × (w.stopping ≡ false)

  calm_idle : (w : Watcher) → IsSound w → w.stopping ≡ false → w.started ≡ false → w.worker ≡ idle
  calm_idle w s h e = ground arith

  module _ (files : Text → Option Text) (now : Text)
      (events : List (KEvent × Option (YamlLib.Node Y))) where
    stopped-IsSettled :
        (lm : Option LogManager) (cw : Option Watcher)
        → IsCalm cw
        → EndsIn IsSettled (stop_watcher J Y files now events (record { lm = lm; cw = cw }))
    unfolding stop_watcher
    stopped-IsSettled lm none h = tt
    stopped-IsSettled lm (some w) h = elim (Bool-cases w.started) [
      | inl y ↦
          simp (y, stop_watcher)
            (joined-IsSettled
              (run_events J Y files now events (record { lm = lm; cw = some (signal w) })).lm
              (run_events J Y files now events (record { lm = lm; cw = some (signal w) })).cw)
      | inr n ↦ simp (n, stop_watcher) (calm_idle w h.0 h.1 n)
    ]

    dropped : (w : Watcher) → w.worker ≡ idle → drop_watcher w ≢ none
    unfolding drop_watcher
    dropped w h e = ground arith

    retired_parts :
        (s : LogSystem) (lm : Option LogManager) (cw : Option Watcher) (b : Bool)
        → stop_watcher J Y files now events s ≡ returned (record { lm = lm; cw = cw }) b
        → IsSettled (record { lm = lm; cw = cw })
        → IsSafe true (retire J Y files now events s)
    unfolding retire
    retired_parts s lm none b e h = simp (e, retire) tt
    retired_parts s lm (some w) b e h = elim (Option-cases (drop_watcher w)) [
      | inl n ↦ absurd (dropped w h n)
      | inr (closed, d) ↦ simp (e, d, retire) tt
    ]

    retired_from :
        (s : LogSystem) (c : Called)
        → stop_watcher J Y files now events s ≡ c
        → EndsIn IsSettled c
        → IsSafe true (retire J Y files now events s)
    unfolding retire
    retired_from s (returned u b) e h = retired_parts s u.lm u.cw b e h
    retired_from s (raised u) e h = absurd h
    retired_from s terminated e h = absurd h
    retired_from s blocked e h = simp (e, retire) tt

    retired : (s : LogSystem) → IsCalm s.cw → IsSafe true (retire J Y files now events s)
    retired s h =
        retired_from s (stop_watcher J Y files now events s) refl (stopped-IsSettled s.lm s.cw h)

    new_watcher-idle : (o : Opening) (w : Watcher) → (new_watcher o).0 ≡ some w → w.worker ≡ idle
    unfolding new_watcher
    new_watcher-idle o w e = ground arith

    started :
        (spawns : Bool) (s : LogSystem) (w : Watcher)
        → w.worker ≡ idle
        → IsSafe spawns (start_watcher spawns (record s { cw = some w }))
    unfolding start_watcher Watcher.start
    started false s w h = refl
    started true s w h = simp (h, start_watcher, Watcher.start) tt

    with_watcher :
        (spawns : Bool) (loaded : Option (YamlLib.Node Y)) (opening : Opening) (s : LogSystem)
        (m : LogManager) (w : Watcher) (c : Called)
        → new_manager J Y files now loaded ≡ ok m
        → (new_watcher opening).0 ≡ some w
        → retire J Y files now events (record s { lm = some m }) ≡ c
        → IsSafe true c
        → IsSafe spawns (start_path J Y spawns files now loaded opening events s)
    unfolding start_path assemble
    with_watcher spawns loaded opening s m w terminated e g r h = absurd h
    with_watcher spawns loaded opening s m w (raised u) e g r h = cc
    with_watcher spawns loaded opening s m w blocked e g r h =
        simp (e, g, r, start_path, assemble, and_then) tt
    with_watcher spawns loaded opening s m w (returned u b) e g r h =
        simp (e, g, r, start_path, assemble, and_then)
          (started spawns u w (new_watcher-idle opening w g))

    with_manager :
        (spawns : Bool) (loaded : Option (YamlLib.Node Y)) (opening : Opening) (s : LogSystem)
        (m : LogManager)
        → new_manager J Y files now loaded ≡ ok m
        → IsCalm s.cw
        → IsSafe spawns (start_path J Y spawns files now loaded opening events s)
    unfolding start_path assemble
    with_manager spawns loaded opening s m e h = elim (Option-cases (new_watcher opening).0) [
      | inl n ↦ simp (e, n, start_path, assemble, and_then) tt
      | inr (w, g) ↦
          let s' : LogSystem = record s { lm = some m } in
          with_watcher spawns loaded opening s m w (retire J Y files now events s') e g refl
            (retired s' h)
    ]

    no_manager :
        (spawns : Bool) (loaded : Option (YamlLib.Node Y)) (opening : Opening) (s : LogSystem)
        (r : Read LogManager)
        → new_manager J Y files now loaded ≡ r
        → IsCalm s.cw
        → IsSafe spawns (start_path J Y spawns files now loaded opening events s)
    unfolding start_path assemble
    no_manager spawns loaded opening s (ok m) e h = with_manager spawns loaded opening s m e h
    no_manager spawns loaded opening s absent e h = simp (e, start_path, assemble, and_then) tt
    no_manager spawns loaded opening s thrown e h = simp (e, start_path, assemble, and_then) tt

    -- For every state of the logging system whose watcher, if it has one, is in a state that it comes
    -- to, started or not, and is not being stopped, every configuration, everything that the calls of
    -- the new watcher's constructor give and everything that the old thread receives:
    -- `LogSystem::Start` of a path does not end in `std::terminate` itself, and where the system makes
    -- the new watcher's thread, no exception leaves it. (Where it does not, `std::system_error` does.)
    pub start_path_safe :
        (spawns : Bool) (loaded : Option (YamlLib.Node Y)) (opening : Opening) (s : LogSystem)
        → IsCalm s.cw
        → IsSafe spawns (start_path J Y spawns files now loaded opening events s)
    start_path_safe spawns loaded opening s h =
        no_manager spawns loaded opening s (new_manager J Y files now loaded) refl h
