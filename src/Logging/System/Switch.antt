-- ===== src/Logging/System/Switch.antt =====
-- Turning the logging system on and off.
use https_http_server.Shared.{
  ◌≡◌, ◌≢◌, refl, sym, ap, subst, ◌∙◌, List, Text, Option, none, some, Bool, true, false, is_none,
  ◌||◌, Bool-cases, ◌⊎◌, inl, inr,
}
use https_http_server.Status.LogLevels.{Log}
use https_http_server.Message.Envelope.{JsonLib}
use https_http_server.Logging.Sinks.{Logger}
use https_http_server.Logging.Config.{YamlLib, ok}
use https_http_server.Logging.Manager.{LogManager, new_manager, pause, remain}
use https_http_server.Logging.Manager
use https_http_server.Logging.Watcher.{
  Watcher, Opening, new_watcher, Worker, idle, running, ended, KEvent,
}
use https_http_server.Logging.Watcher
use https_http_server.Logging.System.{
  LogSystem, Called, returned, raised, terminated, blocked, get, should_log, log_target, start,
  pause_manager, and_then, stop, system_init, stop_watcher, assemble,
}

-- The logger of the manager, whether or not it is paused.
abbrev pub logger_of : LogSystem → Option Logger
logger_of s = elim s.lm [ none ↦ none | some m ↦ m.logger ]

paused_gets_none :
    (o : Option Logger) (p : Bool) (cw : Option Watcher)
    → get (pause_manager (record { lm = some (record { logger = o; paused = p }); cw = cw })) ≡ none
unfolding get pause_manager pause Manager.get
paused_gets_none none p cw = refl
paused_gets_none (some l) p cw = refl

system_gets_none :
    (o : Option LogManager) (cw : Option Watcher)
    → get (pause_manager (record { lm = o; cw = cw })) ≡ none
unfolding get pause_manager
system_gets_none none cw = refl
system_gets_none (some m) cw =
    (unfold get pause_manager in refl) ∙ paused_gets_none m.logger m.paused cw

choose_none :
    (b : Bool) (o : Option Logger) → o ≡ none → (elim b [ false ↦ none | true ↦ o ]) ≡ none
choose_none false o h = refl
choose_none true o h = h

pub pause-log_target : (s : LogSystem) (level : Log) → log_target (pause_manager s) level ≡ none
unfolding log_target
pause-log_target s level =
    choose_none (should_log (pause_manager s) level) (get (pause_manager s))
      (system_gets_none s.lm s.cw)

-- What a call ends in that pauses the manager last.
then_paused :
    (c : Called) {s' : LogSystem}
    → and_then c (λ u. returned (pause_manager u) true) ≡ returned s' true
    → (u : LogSystem) × (s' ≡ pause_manager u)
unfolding and_then
then_paused (returned u true) e = (u, cc)
then_paused (returned u false) e = cc
then_paused (raised u) e = cc
then_paused terminated e = cc
then_paused blocked e = cc

not_early : {s : LogSystem} (s' : LogSystem) → returned s false ≢ returned s' true
not_early s' e = cc

is_silent :
    (c : Called) {s' : LogSystem}
    → and_then c (λ u. returned (pause_manager u) true) ≡ returned s' true
    → (level : Log) → log_target s' level ≡ none
is_silent c e level =
    let (u, q) = then_paused c e in ap (λ x. log_target x level) q ∙ pause-log_target u level

module _ (J : JsonLib) (Y : YamlLib) where
  pub stop_is_silent :
      (files : Text → Option Text)
      → (now : Text) → (events : List (KEvent × Option (YamlLib.Node Y))) → (s s' : LogSystem)
      → stop J Y files now events s ≡ returned s' true
      → (level : Log) → log_target s' level ≡ none
  unfolding stop
  stop_is_silent files now events s s' e level = elim (Bool-cases (is_none s.lm || is_none s.cw)) [
    | inl y ↦ absurd (not_early {s = s} s' (sym (rw (y, stop) refl) ∙ e))
    | inr n ↦ is_silent (stop_watcher J Y files now events s) (sym (rw (n, stop) refl) ∙ e) level
  ]

  -- For every state, every configuration and everything that the thread of the watcher receives: where
  -- `LogSystem::Stop` gets behind its early return and returns, or `LogSystem::Init` returns true, the
  -- macro `LOG` hands a record of no level to a logger.
  pub off_is_silent :
      (files : Text → Option Text)
      → (now : Text) → (loaded : Option (YamlLib.Node Y)) → (opening : Opening)
      → (events : List (KEvent × Option (YamlLib.Node Y))) → (s s' : LogSystem)
      → (stop J Y files now events s ≡ returned s' true)
        ⊎ (system_init J Y files now loaded opening events s ≡ returned s' true)
      → (level : Log) → log_target s' level ≡ none
  unfolding system_init
  off_is_silent files now loaded opening events s s' (inl e) level =
      stop_is_silent files now events s s' e level
  off_is_silent files now loaded opening events s s' (inr e) level =
      is_silent (assemble J Y files now loaded opening events s) e level

module _ (J : JsonLib) (Y : YamlLib) where
  -- For every configuration from which a manager is made and every state: if the constructor of the
  -- watcher throws, `LogSystem::Init` returns false, and the new manager stays as the configuration
  -- made it, not paused by `Init`.
  pub init_without_watcher :
      (files : Text → Option Text)
      → (now : Text) → (loaded : Option (YamlLib.Node Y)) → (opening : Opening)
      → (events : List (KEvent × Option (YamlLib.Node Y))) → (s : LogSystem) (m : LogManager)
      → new_manager J Y files now loaded ≡ ok m
      → (new_watcher opening).0 ≡ none
      → system_init J Y files now loaded opening events s
        ≡ returned (record s { lm = some m }) false
  unfolding system_init assemble and_then
  init_without_watcher files now loaded opening events s m em ew =
      simp (em, ew, system_init, assemble, and_then) refl

returned-system : {s t : LogSystem} → returned s true ≡ returned t true → s ≡ t
returned-system {s} e =
    ap (λ c. elim c [ returned x b ↦ x | raised x ↦ s | terminated ↦ s | blocked ↦ s ]) e

-- A system with a manager and a watcher.
abbrev system_of : Option Logger → Bool → Watcher → LogSystem
system_of o p w = record { lm = some (record { logger = o; paused = p }); cw = some w }

get_running : (o : Option Logger) (w : Watcher) → get (system_of o false w) ≡ o
unfolding get Manager.get
get_running none w = refl
get_running (some l) w = refl

start_idle :
    (o : Option Logger) (p : Bool) (w : Watcher)
    → start true (system_of o p (record w { worker = idle }))
      ≡ returned (system_of o false (record w { started = true; worker = running })) true
unfolding start Watcher.start remain
start_idle o true w = refl
start_idle o false w = refl

start_running :
    (o : Option Logger) (p : Bool) (w : Watcher)
    → start true (system_of o p (record w { worker = running })) ≡ terminated
unfolding start Watcher.start
start_running o p w = refl

start_ended :
    (o : Option Logger) (p : Bool) (w : Watcher)
    → start true (system_of o p (record w { worker = ended })) ≡ terminated
unfolding start Watcher.start
start_ended o p w = refl

start_parts :
    (spawns : Bool) (o : Option Logger) (p : Bool) (w : Watcher) (k : Worker) (s' : LogSystem)
    → start spawns (system_of o p (record w { worker = k })) ≡ returned s' true
    → (get s' ≡ o) × (start true s' ≡ terminated) × (start false s' ≡ raised s')
unfolding start Watcher.start
start_parts false o p w k s' e = cc
start_parts true o p w idle s' e =
    let q = returned-system (sym (start_idle o p w) ∙ e) in
    (
      ap get (sym q) ∙ get_running o (record w { started = true; worker = running }),
      ap (start true) (sym q) ∙ start_running o false (record w { started = true }),
      subst (λ s. start false s ≡ raised s) q refl,
    )
start_parts true o p w running s' e = cc (start_running o p w)
start_parts true o p w ended s' e = cc (start_ended o p w)

start_cases :
    (spawns : Bool) (lm : Option LogManager) (cw : Option Watcher) (s' : LogSystem)
    → start spawns (record { lm = lm; cw = cw }) ≡ returned s' true
    → (get s' ≡ logger_of (record { lm = lm; cw = cw }))
      × (start true s' ≡ terminated)
      × (start false s' ≡ raised s')
unfolding start
start_cases spawns none cw s' e = cc
start_cases spawns (some m) none s' e = cc
start_cases spawns (some m) (some w) s' e = start_parts spawns m.logger m.paused w w.worker s' e

-- For every state of the logging system from which `LogSystem::Start` returns true: behind it the
-- logger of the manager is in use, whether or not the manager was paused before by its configuration,
-- and a second `LogSystem::Start` terminates the program, unless the system does not make its thread,
-- when the exception leaves it.
pub start_twice :
    (spawns : Bool) (s s' : LogSystem)
    → start spawns s ≡ returned s' true
    → (get s' ≡ logger_of s) × (start true s' ≡ terminated) × (start false s' ≡ raised s')
start_twice spawns s s' e = start_cases spawns s.lm s.cw s' e
