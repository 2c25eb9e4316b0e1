-- ===== src/Logging/System.antt =====
-- `LogSystem`, `ShouldLog` and the macro `LOG`, of
-- src/logging/include/project/logging/manager/logging_system.h and
-- src/logging/src/manager/logging_system.cc. `std::bad_alloc` is not modelled. Messages to the system
-- log are not modelled.
pub mod Gate
pub mod Halting
pub mod Reloads
pub mod Restart
pub mod Switch
use https_http_server.Shared.{
  ℕ, List, [], ◌∷◌, Text, Option, none, some, Bool, true, false, ◌||◌, ltb, is_none, if◌then◌else◌,
  ◌==◌,
}
use https_http_server.Status.LogLevels.{Log, level_number, unknown}
use https_http_server.Message.Envelope.{JsonLib}
use https_http_server.Logging.Sinks.{Logger}
use https_http_server.Logging.Config.{YamlLib, Read, ok, absent, thrown}
use https_http_server.Logging.Manager.{LogManager, new_manager, init, pause, remain}
use https_http_server.Logging.Manager
use https_http_server.Logging.Watcher.{
  Watcher, Opening, new_watcher, up, failed, crashed, Worker, idle, running, ended, KEvent, Verdict,
  go_on, finish, reload, run_event, receive, user,
}
use https_http_server.Logging.Watcher

pub record LogSystem : Type 0 where
  pub lm : Option LogManager
  pub cw : Option Watcher

-- How a call ends: it returns; or an exception leaves it, and the state; or the program is terminated;
-- or it waits for the thread.
pub data Called : Type 0 where
  returned : LogSystem → Bool → Called
  raised : LogSystem → Called
  terminated blocked : Called

-- `LogSystem::Get`
unfoldable pub get : LogSystem → Option Logger
unfolding Manager.get
get s = elim s.lm [ none ↦ none | some m ↦ Manager.get m ]

-- `LogSystem::GetLevel`
unfoldable pub get_level : LogSystem → Log
unfolding Manager.get_level
get_level s = elim s.lm [ none ↦ unknown | some m ↦ Manager.get_level m ]

-- The test of `ShouldLog` on the set level and a record's.
unfoldable pub passes : Log → Log → Bool
unfolding level_number
passes set_level level =
    if level_number set_level == 0 || ltb (level_number level) (level_number set_level)
    then false
    else true

-- `ShouldLog`
unfoldable pub should_log : LogSystem → Log → Bool
unfolding get_level passes
should_log s level = passes (get_level s) level

-- The macro `LOG`: the logger that the record goes to, if any.
unfoldable pub log_target : LogSystem → Log → Option Logger
unfolding should_log get
log_target s level = elim (should_log s level) [ false ↦ none | true ↦ get s ]

module _ (J : JsonLib) (Y : YamlLib) where
  -- The handler of the watcher: `lm_->Init(p)` on what is loaded; its exceptions are caught.
  unfoldable pub reload_config :
      (Text → Option Text) → Text → Option (YamlLib.Node Y) → LogSystem → LogSystem
  unfolding init
  reload_config files now loaded s = elim s.lm [
    | none ↦ s
    | some m ↦ record s { lm = some (init J Y files now loaded m).0 }
  ]

  -- The thread of the watcher, on the events that it receives, each with what is loaded then.
  unfoldable pub run_events :
      (Text → Option Text) → Text → List (KEvent × Option (YamlLib.Node Y)) → LogSystem → LogSystem
  unfolding receive run_event reload_config
  run_events files now [] s = s
  run_events files now ((e, loaded) ∷ events) s = elim s.cw [
    | none ↦ s
    | some w ↦ elim w.worker [
      | running ↦
          let s' : LogSystem = record s { cw = some (receive e w) } in
          elim (run_event e) [
            | reload path ↦ run_events files now events (reload_config files now loaded s')
            | _ ↦ run_events files now events s'
          ]
      | idle ↦ s
      | ended ↦ s
    ]
  ]

  -- The end of `ConfigWatcherImpl::Stop`.
  unfoldable pub join_thread : LogSystem → Called
  unfolding Watcher.join
  join_thread s = elim s.cw [
    | none ↦ returned s true
    | some w ↦ elim (Watcher.join w) [
      | none ↦ blocked
      | some w' ↦ returned (record s { cw = some w' }) true
    ]
  ]

  -- `ConfigWatcherImpl::Stop`, on what its thread receives until it returns.
  unfoldable pub stop_watcher :
      (Text → Option Text) → Text → List (KEvent × Option (YamlLib.Node Y)) → LogSystem → Called
  unfolding Watcher.signal run_events join_thread
  stop_watcher files now events s = elim s.cw [
    | none ↦ returned s true
    | some w ↦ elim w.started [
      | false ↦ returned s true
      | true ↦ join_thread (run_events files now events (record s { cw = some (Watcher.signal w) }))
    ]
  ]

  -- Before a new watcher takes the place of the old one, that is destroyed.
  unfoldable pub retire :
      (Text → Option Text) → Text → List (KEvent × Option (YamlLib.Node Y)) → LogSystem → Called
  unfolding stop_watcher Watcher.drop_watcher
  retire files now events s = elim (stop_watcher files now events s) [
    | blocked ↦ blocked
    | terminated ↦ terminated
    | raised s' ↦ raised s'
    | returned s' b ↦ elim s'.cw [
      | none ↦ returned s' true
      | some w ↦ elim (Watcher.drop_watcher w) [
        | none ↦ terminated
        | some closed ↦ returned s' true
      ]
    ]
  ]

  -- The `try` block that `Init` and `Start` of a path share, and its handlers: what is loaded, what
  -- the calls of the watcher's constructor give, and what an old watcher's thread receives.
  unfoldable pub assemble :
      (Text → Option Text)
      → Text
      → Option (YamlLib.Node Y)
      → Opening
      → List (KEvent × Option (YamlLib.Node Y))
      → LogSystem
      → Called
  unfolding new_manager new_watcher retire
  assemble files now loaded opening events s = elim (new_manager J Y files now loaded) [
    | thrown ↦ returned s false
    | absent ↦ returned s false
    | ok m ↦
        let s' : LogSystem = record s { lm = some m } in
        elim (new_watcher opening).0 [
          | none ↦ returned s' false
          | some w ↦ elim (retire files now events s') [
            | blocked ↦ blocked
            | terminated ↦ terminated
            | raised s'' ↦ raised s''
            | returned s'' b ↦ returned (record s'' { cw = some w }) true
          ]
        ]
  ]

-- `lm_->Pause()`
unfoldable pub pause_manager : LogSystem → LogSystem
unfolding pause
pause_manager s = elim s.lm [ none ↦ s | some m ↦ record s { lm = some (pause m) } ]

-- `LogSystem::Start()`, with whether the system makes the thread.
unfoldable pub start : Bool → LogSystem → Called
unfolding Watcher.start remain
start spawns s = elim s.lm [
  | none ↦ returned s false
  | some m ↦ elim s.cw [
    | none ↦ returned s false
    | some w ↦ elim (Watcher.start spawns w) [
      | crashed ↦ terminated
      | failed w' ↦ raised (record s { cw = some w' })
      | up w' ↦
          returned (record { lm = some (if m.paused then remain m else m); cw = some w' }) true
    ]
  ]
]

-- `cw_->Start()` at the end of `Start` of a path, behind its `try` block.
unfoldable pub start_watcher : Bool → LogSystem → Called
unfolding Watcher.start
start_watcher spawns s = elim s.cw [
  | none ↦ returned s true
  | some w ↦ elim (Watcher.start spawns w) [
    | crashed ↦ terminated
    | failed w' ↦ raised (record s { cw = some w' })
    | up w' ↦ returned (record s { cw = some w' }) true
  ]
]

-- What follows a call that returns `true`; one that returns `false` returns it.
unfoldable pub and_then : Called → (LogSystem → Called) → Called
and_then (returned s true) f = f s
and_then (returned s false) f = returned s false
and_then (raised s) f = raised s
and_then terminated f = terminated
and_then blocked f = blocked

module _ (J : JsonLib) (Y : YamlLib) where
  -- `LogSystem::Init`
  unfoldable pub system_init :
      (Text → Option Text)
      → Text
      → Option (YamlLib.Node Y)
      → Opening
      → List (KEvent × Option (YamlLib.Node Y))
      → LogSystem
      → Called
  unfolding assemble and_then pause_manager
  system_init files now loaded opening events s =
      and_then (assemble J Y files now loaded opening events s)
        λ s'. returned (pause_manager s') true

  -- `LogSystem::Start(path)`, with whether the system makes the thread.
  unfoldable pub start_path :
      Bool
      → (Text → Option Text)
      → Text
      → Option (YamlLib.Node Y)
      → Opening
      → List (KEvent × Option (YamlLib.Node Y))
      → LogSystem
      → Called
  unfolding assemble and_then start_watcher
  start_path spawns files now loaded opening events s =
      and_then (assemble J Y files now loaded opening events s) (start_watcher spawns)

  -- `LogSystem::Stop`, which returns nothing: `false` is its early return.
  unfoldable pub stop :
      (Text → Option Text) → Text → List (KEvent × Option (YamlLib.Node Y)) → LogSystem → Called
  unfolding stop_watcher and_then pause_manager
  stop files now events s = elim (is_none s.lm || is_none s.cw) [
    | true ↦ returned s false
    | false ↦ and_then (stop_watcher J Y files now events s) λ s'. returned (pause_manager s') true
  ]
