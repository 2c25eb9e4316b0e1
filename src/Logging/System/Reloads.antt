-- ===== src/Logging/System/Reloads.antt =====
-- What the thread of the watcher makes of a series of events, of src/logging/src/config/impl/macos.cc and
-- src/logging/src/manager/logging_system.cc.
use https_http_server.Shared.{
  ◌≡◌, refl, ap, ap₂, ◌∙◌, List, [], ◌∷◌, Text, Option, none, some, Bool, true, false, arith,
}
use https_http_server.Message.Envelope.{JsonLib}
use https_http_server.Logging.Sinks.{Logger}
use https_http_server.Logging.Config.{YamlLib, Read, ok, absent, thrown}
use https_http_server.Logging.Manager.{
  LogConfig, LogManager, parse_log_config, read_enabled, install, init,
}
use https_http_server.Logging.Manager.Reloading.{logger_of, switch, switched, parsed-switch}
use https_http_server.Logging.Watcher.{
  Watcher, running, ended, KEvent, failure, nothing, event_error, vnode, user, other, run_event,
  receive,
}
use https_http_server.Logging.System.{run_events, reload_config}

module _ (J : JsonLib) (Y : YamlLib) where
  open Y use {Node}

  -- The configurations that are loaded before the thread ends: one for each write to the file.
  abbrev pub loads : List (KEvent × Option Node) → List (Option Node)
  loads [] = []
  loads ((failure, c) ∷ events) = []
  loads ((event_error, c) ∷ events) = []
  loads ((user, c) ∷ events) = []
  loads ((vnode true (some path), c) ∷ events) = c ∷ loads events
  loads ((vnode true none, c) ∷ events) = loads events
  loads ((vnode false path, c) ∷ events) = loads events
  loads ((nothing, c) ∷ events) = loads events
  loads ((other, c) ∷ events) = loads events

  -- Whether the last configuration that has `enabled` pauses the manager.
  abbrev pub last_switched : List (Option Node) → Bool → Bool
  last_switched [] paused = paused
  last_switched (c ∷ cs) paused = last_switched cs (switched J Y (switch J Y c) paused)

  abbrev pub newer : Read LogConfig → Option Logger → Option Logger
  newer (ok config) logger = some (logger_of config)
  newer _ logger = logger

  module _ (files : Text → Option Text) (now : Text) where
    abbrev pub read_of : Option Node → Read LogConfig
    unfolding parse_log_config
    read_of c = (parse_log_config J Y files now c false).1

    -- The logger of the last configuration that can be read.
    abbrev pub last_logger : List (Option Node) → Option Logger → Option Logger
    last_logger [] logger = logger
    last_logger (c ∷ cs) logger = last_logger cs (newer (read_of c) logger)

    abbrev pub after : List (Option Node) → LogManager → LogManager
    after cs m = record { logger = last_logger cs m.logger; paused = last_switched cs m.paused }

    parsed-read_of :
        (c : Option Node) (paused : Bool) → (parse_log_config J Y files now c paused).1 ≡ read_of c
    unfolding parse_log_config read_enabled
    parsed-read_of c paused = ground arith

    install-newer :
        (r : Read LogConfig) (m : LogManager)
        → (install J Y r m).0 ≡ record m { logger = newer r m.logger }
    unfolding install
    install-newer (ok c) m = refl
    install-newer absent m = refl
    install-newer thrown m = refl

    init-after : (c : Option Node) (m : LogManager) → (init J Y files now c m).0 ≡ after (c ∷ []) m
    unfolding init
    init-after c m =
        let (paused, read) = parse_log_config J Y files now c m.paused in
        install-newer read (record m { paused = paused })
        ∙ ap₂ (λ r p. record { logger = newer r m.logger; paused = p }) (parsed-read_of c m.paused)
            (parsed-switch J Y files now c m.paused)

    run_events-ended :
        (events : List (KEvent × Option Node)) (lm : Option LogManager) (w : Watcher)
        → (run_events J Y files now events
            (record { lm = lm; cw = some (record w { worker = ended }) })).lm
          ≡ lm
    unfolding run_events
    run_events-ended [] lm w = refl
    run_events-ended (x ∷ events) lm w = refl

    -- The thread of the watcher runs on any events: the manager behind it has the logger of the last
    -- configuration that could be read among those loaded before an event that ends the thread, the
    -- logger that it had where there is none; and the last of them whose dictionary `logging` has a
    -- Boolean `enabled` says whether it is paused, also where that configuration could not be read.
    pub run_events-manager :
        (events : List (KEvent × Option Node)) (m : LogManager) (w : Watcher)
        → (run_events J Y files now events
            (record { lm = some m; cw = some (record w { worker = running }) })).lm
          ≡ some (after (loads events) m)
    unfolding run_events reload_config run_event receive
    run_events-manager [] m w = refl
    run_events-manager ((failure, c) ∷ events) m w = run_events-ended events (some m) w
    run_events-manager ((event_error, c) ∷ events) m w = run_events-ended events (some m) w
    run_events-manager ((user, c) ∷ events) m w =
        run_events-ended events (some m) (record w { trigger = false })
    run_events-manager ((vnode true (some path), c) ∷ events) m w =
        run_events-manager events (init J Y files now c m).0 w
        ∙ ap (λ n. some (after (loads events) n)) (init-after c m)
    run_events-manager ((vnode true none, c) ∷ events) m w = run_events-manager events m w
    run_events-manager ((vnode false path, c) ∷ events) m w = run_events-manager events m w
    run_events-manager ((nothing, c) ∷ events) m w = run_events-manager events m w
    run_events-manager ((other, c) ∷ events) m w = run_events-manager events m w
