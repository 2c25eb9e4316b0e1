-- ===== src/Logging/Manager.antt =====
-- `LogManager`, of src/logging/include/project/logging/manager/logging_manager.h and
-- src/logging/src/manager/logging_manager.cc. What `YAML::LoadFile` gives is an argument, `none` where
-- it throws, which is caught. Messages to the system log are not modelled.
pub mod Levels
pub mod Reloading
use https_http_server.Shared.{
  ℕ, List, [], ◌∷◌, Text, codes, Option, none, some, Bool, true, false, not, ◌&&◌, ◌||◌, is_none,
}
use https_http_server.Status.LogLevels.{Log, unknown, to_log_of_name}
use https_http_server.Message.Envelope.{JsonLib}
use https_http_server.Logging.Sinks.{Sink, Logger}
use https_http_server.Logging.Config.{
  YamlLib, Read, ok, absent, thrown, ◌>>=◌, ◌>>◌, check, value, create_sinks,
}

pub record LogConfig : Type 0 where
  pub level : Log
  pub sinks : List Sink

pub record LogManager : Type 0 where
  pub logger : Option Logger
  pub paused : Bool

abbrev pub is_unknown_level : Log → Bool
is_unknown_level unknown = true
is_unknown_level _ = false

unfoldable pub pause : LogManager → LogManager
pause m = record m { paused = true }

unfoldable pub remain : LogManager → LogManager
remain m = record m { paused = false }

unfoldable pub shut_down : LogManager → LogManager
shut_down m = record m { logger = none }

-- `Get`: nothing while the manager is paused.
unfoldable pub get : LogManager → Option Logger
get m = elim (is_none m.logger || m.paused) [ true ↦ none | false ↦ m.logger ]

-- `GetLevel`
unfoldable pub get_level : LogManager → Log
get_level m = elim m.logger [ none ↦ unknown | some l ↦ l.level ]

module _ (J : JsonLib) (Y : YamlLib) where
  open Y use {Node, is_defined, is_map, is_scalar, is_sequence, at, items, as_bool, as_text}

  -- The part of `ParseLogConfig` that is about `enabled`: whether the manager is paused behind it.
  unfoldable pub read_enabled : Node → Bool → Bool × Read (Unit {0})
  read_enabled logging paused = elim (at logging (codes "enabled")) [
    | none ↦ (paused, thrown)
    | some enabled ↦ elim (is_defined enabled) [
      | false ↦ (paused, ok tt)
      | true ↦ elim (is_scalar enabled) [
        | false ↦ (paused, absent)
        | true ↦ elim (as_bool enabled) [
          | none ↦ (paused, thrown)
          | some false ↦ (true, absent)
          | some true ↦ (false, ok tt)
        ]
      ]
    ]
  ]

  -- The parts about `level` and `sinks`.
  unfoldable pub read_settings : (Text → Option Text) → Text → Node → Read LogConfig
  unfolding to_log_of_name create_sinks
  read_settings files now logging = do
    level_node ← value (at logging (codes "level"))
    check (is_defined level_node && is_scalar level_node)
    sinks_node ← value (at logging (codes "sinks"))
    check (is_defined sinks_node && is_sequence sinks_node)
    name ← value (as_text level_node)
    let level = to_log_of_name name
    check (not (is_unknown_level level))
    sinks ← create_sinks J Y files now (items sinks_node)
    ok (record { level = level; sinks = sinks })

  -- The node of `logging`, where it is a dictionary.
  unfoldable pub logging_node : Node → Read Node
  logging_node config = do
    logging ← value (at config (codes "logging"))
    check (is_defined logging && is_map logging)
    ok logging

  -- `ParseLogConfig`, with whether the manager is paused before and behind it.
  unfoldable pub parse_log_config :
      (Text → Option Text) → Text → Option Node → Bool → Bool × Read LogConfig
  unfolding read_enabled read_settings logging_node
  parse_log_config files now none paused = (paused, absent)
  parse_log_config files now (some config) paused = elim (logging_node config) [
    | absent ↦ (paused, absent)
    | thrown ↦ (paused, thrown)
    | ok logging ↦
        let (paused', enabled) = read_enabled logging paused in
        (paused', enabled >> read_settings files now logging)
  ]

  -- What `Init` makes of a configuration.
  unfoldable pub install : Read LogConfig → LogManager → LogManager × Read Bool
  install absent m = (m, ok false)
  install thrown m = (m, thrown)
  install (ok config) m =
      (record m { logger = some (record { level = config.level; sinks = config.sinks }) }, ok true)

  -- `Init`: the manager behind it, also where an exception leaves it.
  unfoldable pub init :
      (Text → Option Text) → Text → Option Node → LogManager → LogManager × Read Bool
  unfolding parse_log_config install
  init files now loaded m =
      let (paused, config) = parse_log_config files now loaded m.paused in
      install config (record m { paused = paused })

  -- The constructor, which does not read what `Init` returns.
  unfoldable pub new_manager : (Text → Option Text) → Text → Option Node → Read LogManager
  unfolding init
  new_manager files now loaded =
      let (m, result) = init files now loaded (record { logger = none; paused = false }) in
      elim result [ ok b ↦ ok m | absent ↦ ok m | thrown ↦ thrown ]
