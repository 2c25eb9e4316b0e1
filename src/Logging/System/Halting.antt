-- ===== src/Logging/System/Halting.antt =====
-- `LogSystem::Stop` returns.
use https_http_server.Shared.{
  ◌≡◌, ◌≢◌, refl, ◌∙◌, List, [], ◌∷◌, Text, Option, none, some, Bool, true, false, ◌⊎◌, inl, inr,
}
use https_http_server.Message.Envelope.{JsonLib}
use https_http_server.Status.LogLevels.{Log}
use https_http_server.Logging.System.Switch.{stop_is_silent}
use https_http_server.Logging.Config.{YamlLib}
use https_http_server.Logging.Manager.{LogManager, init}
use https_http_server.Logging.Watcher.{
  Watcher, Worker, idle, running, ended, KEvent, Verdict, finish, reload, run_event, receive,
  failure, nothing, event_error, vnode, user, other, signal, join,
}
use https_http_server.Logging.System.{
  LogSystem, Called, returned, pause_manager, and_then, stop, stop_watcher, run_events, join_thread,
  reload_config, log_target,
}

module _ (J : JsonLib) (Y : YamlLib) (files : Text → Option Text) (now : Text) where
  -- Some event makes `Run` return.
  abbrev Finishes : List (KEvent × Option (YamlLib.Node Y)) → Type 0
  Finishes [] = ⊥
  Finishes ((e, loaded) ∷ events) = (run_event e ≡ finish) ⊎ Finishes events

  unfoldable joined : Option LogManager → Watcher → List (KEvent × Option (YamlLib.Node Y)) → Called
  unfolding run_events join_thread
  joined lm w events =
      join_thread J Y (run_events J Y files now events (record { lm = lm; cw = some w }))

  joined_rest :
      (lm : Option LogManager) (w : Watcher) (events : List (KEvent × Option (YamlLib.Node Y)))
      → (w.worker ≡ idle) ⊎ (w.worker ≡ ended)
      → joined lm w events
        ≡ returned
            (record { lm = lm; cw = some (record w { worker = idle; stopping = false }) })
            true
  unfolding joined run_events join_thread join
  joined_rest lm w [] (inl k) = rw (k) refl
  joined_rest lm w [] (inr k) = rw (k) refl
  joined_rest lm w (x ∷ events) (inl k) = rw (k) rw (k) refl
  joined_rest lm w (x ∷ events) (inr k) = rw (k) rw (k) refl

  -- The manager behind the verdict on an event.
  abbrev reloaded : Verdict → Option (YamlLib.Node Y) → Option LogManager → Option LogManager
  reloaded (reload path) loaded (some m) = some (init J Y files now loaded m).0
  reloaded _ loaded lm = lm

  joined_step :
      (e : KEvent) (loaded : Option (YamlLib.Node Y))
      → (events : List (KEvent × Option (YamlLib.Node Y))) → (lm : Option LogManager) (w : Watcher)
      → w.worker ≡ running
      → joined lm w ((e, loaded) ∷ events)
        ≡ joined (reloaded (run_event e) loaded lm) (receive e w) events
  unfolding joined run_events run_event reload_config
  joined_step failure loaded events lm w k = simp (k) refl
  joined_step nothing loaded events lm w k = simp (k) refl
  joined_step event_error loaded events lm w k = simp (k) refl
  joined_step (vnode false path) loaded events lm w k = simp (k) refl
  joined_step (vnode true none) loaded events lm w k = simp (k) refl
  joined_step (vnode true (some path)) loaded events none w k = simp (k) refl
  joined_step (vnode true (some path)) loaded events (some m) w k = simp (k) refl
  joined_step user loaded events lm w k = simp (k) refl
  joined_step other loaded events lm w k = simp (k) refl

  -- The thread goes on behind an event, or has left its loop.
  goes_on :
      (e : KEvent) (w : Watcher)
      → w.worker ≡ running
      → ((run_event e ≢ finish) × ((receive e w).worker ≡ running)) ⊎ ((receive e w).worker ≡ ended)
  unfolding run_event receive
  goes_on failure w k = inr refl
  goes_on nothing w k = inl (λ e. cc, k)
  goes_on event_error w k = inr refl
  goes_on (vnode false path) w k = inl (λ e. cc, k)
  goes_on (vnode true none) w k = inl (λ e. cc, k)
  goes_on (vnode true (some path)) w k = inl (λ e. cc, k)
  goes_on user w k = inr refl
  goes_on other w k = inl (λ e. cc, k)

  Finishes-joined :
      (events : List (KEvent × Option (YamlLib.Node Y)))
      → (lm : Option LogManager) (w : Watcher) → w.worker ≡ running
      → Finishes events
      → (u : LogSystem) × (joined lm w events ≡ returned u true)
  Finishes-joined [] lm w k h = absurd h
  Finishes-joined ((e, loaded) ∷ events) lm w k h =
      let lm' = reloaded (run_event e) loaded lm in
      elim (goes_on e w k) [
        | inr q ↦
            (_, joined_step e loaded events lm w k ∙ joined_rest lm' (receive e w) events (inr q))
        | inl g ↦ elim h [
          | inl f ↦ absurd (g.0 f)
          | inr hs ↦
              let (u, r) = Finishes-joined events lm' (receive e w) g.1 hs in
              (u, joined_step e loaded events lm w k ∙ r)
        ]
      ]

  joins_anyhow :
      (events : List (KEvent × Option (YamlLib.Node Y)))
      → (lm : Option LogManager) (w : Watcher) (k : Worker) → w.worker ≡ k
      → Finishes events
      → (u : LogSystem) × (joined lm w events ≡ returned u true)
  joins_anyhow events lm w idle k h = (_, joined_rest lm w events (inl k))
  joins_anyhow events lm w running k h = Finishes-joined events lm w k h
  joins_anyhow events lm w ended k h = (_, joined_rest lm w events (inr k))

  then_pause :
      (c : Called) {u : LogSystem}
      → c ≡ returned u true
      → and_then c (λ s. returned (pause_manager s) true) ≡ returned (pause_manager u) true
  unfolding and_then
  then_pause c e = rw (e) refl

  -- The user event stands among the events.
  abbrev pub HasUser : List (KEvent × Option (YamlLib.Node Y)) → Type 0
  HasUser [] = ⊥
  HasUser ((e, loaded) ∷ events) = (e ≡ user) ⊎ HasUser events

  HasUser-Finishes :
      (events : List (KEvent × Option (YamlLib.Node Y))) → HasUser events → Finishes events
  unfolding run_event
  HasUser-Finishes [] h = absurd h
  HasUser-Finishes ((e, loaded) ∷ events) (inl h) = inl (rw h refl)
  HasUser-Finishes ((e, loaded) ∷ events) (inr h) = inr (HasUser-Finishes events h)

  -- `kqueue` hands a user event that is triggered to the thread: it stands among the events that are
  -- there for the thread, of which the thread receives those up to its return.
  abbrev pub Delivers : Watcher → List (KEvent × Option (YamlLib.Node Y)) → Type 0
  Delivers w events = w.trigger ≡ true → HasUser events

  stop_from :
      (events : List (KEvent × Option (YamlLib.Node Y)))
      → (m : LogManager) (w : Watcher) (b : Bool) → w.started ≡ b
      → Delivers (signal w) events
      → (u : LogSystem) × (stop J Y files now events (record { lm = some m; cw = some w })
          ≡ returned u true)
  unfolding stop stop_watcher joined signal
  stop_from events m w false e h =
      (pause_manager (record { lm = some m; cw = some w }), simp (e, and_then) refl)
  stop_from events m w true e h =
      let triggered : (signal w).trigger ≡ true = rw (e, signal) refl in
      let (u, r) =
        joins_anyhow events (some m) (signal w) (signal w).worker refl
          (HasUser-Finishes events (h triggered)) in
      (pause_manager u, simp (e, and_then) (then_pause (joined (some m) (signal w) events) r))

  -- For every manager and watcher that the logging system has, and every sequence of events that are
  -- there for the thread of the watcher, where the user event is one of them if it is triggered once
  -- `Stop` has signalled the watcher: `LogSystem::Stop` is not blocked; it returns behind its early
  -- return, and then the macro `LOG` hands a record of no level to a logger.
  pub stop_returns :
      (events : List (KEvent × Option (YamlLib.Node Y)))
      → (m : LogManager) (w : Watcher) → Delivers (signal w) events
      → (u : LogSystem) × (stop J Y files now events (record { lm = some m; cw = some w })
          ≡ returned u true)
        × ((level : Log) → log_target u level ≡ none)
  stop_returns events m w h =
      let s : LogSystem = record { lm = some m; cw = some w } in
      let (u, r) = stop_from events m w w.started refl h in
      (u, r, λ level. stop_is_silent J Y files now events s u r level)
