-- ===== src/Logging/Manager/Reloading.antt =====
-- What a reading of the configuration keeps and what it changes.
use https_http_server.Shared.{
  ◌≡◌, ◌≢◌, ◌⊎◌, inl, inr, refl, ◌∙◌, Text, codes, Option, none, some, Bool, true, not, ◌&&◌,
  if◌then◌else◌, Option-cases, Bool-cases, arith,
}
use https_http_server.Message.Envelope.{JsonLib}
use https_http_server.Logging.Sinks.{Logger}
use https_http_server.Logging.Config.{YamlLib, Read, ok, absent, thrown}
use https_http_server.Logging.Manager.{
  LogConfig, LogManager, read_enabled, logging_node, parse_log_config, install, init,
}

abbrev pub logger_of : LogConfig → Logger
logger_of c = record { level = c.level; sinks = c.sinks }

module _ (J : JsonLib) (Y : YamlLib) where
  open Y use {Node, is_defined, is_map, is_scalar, is_sequence, at, items, as_bool, as_text}

  -- The Boolean of `enabled`, where the dictionary has one.
  abbrev pub enabled_of : Node → Option Bool
  enabled_of logging = elim (at logging (codes "enabled")) [
    | none ↦ none
    | some e ↦ if is_defined e && is_scalar e then as_bool e else none
  ]

  -- That of a configuration.
  abbrev pub switch : Option Node → Option Bool
  switch none = none
  switch (some config) = elim (at config (codes "logging")) [
    | none ↦ none
    | some l ↦ if is_defined l && is_map l then enabled_of l else none
  ]

  abbrev pub switched : Option Bool → Bool → Bool
  switched none paused = paused
  switched (some b) paused = not b

  read_enabled-switched :
      (logging : Node) (paused : Bool)
      → (read_enabled J Y logging paused).0 ≡ switched (enabled_of logging) paused
  unfolding read_enabled
  read_enabled-switched logging paused = ground arith

  pub parsed-switch :
      (files : Text → Option Text) (now : Text) (loaded : Option Node) (paused : Bool)
      → (parse_log_config J Y files now loaded paused).0 ≡ switched (switch loaded) paused
  unfolding parse_log_config logging_node
  parsed-switch files now none paused = refl
  parsed-switch files now (some config) paused = elim (Option-cases (at config (codes "logging"))) [
    | inl e ↦ rw (e, switch, parse_log_config, logging_node) refl
    | inr (l, e) ↦ elim (Bool-cases (is_defined l && is_map l)) [
      | inl y ↦ rw (e, y, switch, parse_log_config, logging_node) (read_enabled-switched l paused)
      | inr n ↦ rw (e, n, switch, parse_log_config, logging_node) refl
    ]
  ]

  Read-cases {ℓ} : {A : Type ℓ} (r : Read A) → ((a : A) × (r ≡ ok a)) ⊎ ((a : A) → r ≢ ok a)
  Read-cases (ok a) = inl (a, refl)
  Read-cases absent = inr (λ a e. cc)
  Read-cases thrown = inr (λ a e. cc)

  install-logger :
      (r : Read LogConfig) (m : LogManager)
      → ((c : LogConfig) × (r ≡ ok c)
          × ((install J Y r m).1 ≡ ok true)
          × ((install J Y r m).0.logger ≡ some (logger_of c)))
        ⊎ (((install J Y r m).1 ≢ ok true) × ((install J Y r m).0.logger ≡ m.logger))
  unfolding install
  install-logger (ok c) m = inl (c, refl, refl, refl)
  install-logger absent m = inr (λ e. cc, refl)
  install-logger thrown m = inr (λ e. cc, refl)

  install-paused : (r : Read LogConfig) (m : LogManager) → (install J Y r m).0.paused ≡ m.paused
  unfolding install
  install-paused (ok c) m = refl
  install-paused absent m = refl
  install-paused thrown m = refl

  -- `Init` of any configuration: the manager is paused behind it exactly as the Boolean `enabled` says,
  -- where the configuration has a dictionary `logging` with one, also where `Init` does not return
  -- `true`, and as before where it has none; and either the configuration is read, `Init` returns
  -- `true`, and the manager has its level and its sinks, or `Init` returns `false` or throws, and the
  -- manager has the logger that it had.
  pub init_lem :
      (files : Text → Option Text) (now : Text) (loaded : Option Node) (m : LogManager)
      → ((init J Y files now loaded m).0.paused ≡ switched (switch loaded) m.paused)
        × (((c : LogConfig) × ((parse_log_config J Y files now loaded m.paused).1 ≡ ok c)
              × ((init J Y files now loaded m).1 ≡ ok true)
              × ((init J Y files now loaded m).0.logger ≡ some (logger_of c)))
            ⊎ (((init J Y files now loaded m).1 ≢ ok true)
                × ((init J Y files now loaded m).0.logger ≡ m.logger)))
  unfolding init
  init_lem files now loaded m =
      let parsed = parse_log_config J Y files now loaded m.paused in
      (
        install-paused parsed.1 (record m { paused = parsed.0 })
            ∙ parsed-switch files now loaded m.paused,
        install-logger parsed.1 (record m { paused = parsed.0 }),
      )
