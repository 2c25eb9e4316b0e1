-- ===== src/Logging/Manager/Levels.antt =====
-- What a log manager keeps through every reading of its configuration.
use https_http_server.Shared.{
  ◌≡◌, ◌≢◌, refl, ap, subst, Text, codes, Option, none, some, Bool, true, false, not, ◌&&◌,
}
use mathlib.Core.Option.{some-injective}
use https_http_server.Status.LogLevels.{
  Log, unknown, info, trace, debug, warning, error, critical, to_log_of_name,
}
use https_http_server.Message.Envelope.{JsonLib}
use https_http_server.Logging.Sinks.{Logger}
use https_http_server.Logging.Config.{
  YamlLib, Read, ok, absent, thrown, ◌>>=◌, ◌>>◌, check, value, create_sinks,
}
use https_http_server.Logging.Manager.{
  LogConfig, LogManager, is_unknown_level, pause, remain, shut_down, read_enabled, read_settings,
  logging_node, parse_log_config, install, init, new_manager,
}

-- The logger of the manager, where it has one, has a level.
abbrev pub HasLevel : LogManager → Type 0
HasLevel m = (l : Logger) → m.logger ≡ some l → l.level ≢ unknown

ok-injective {ℓ} : {A : Type ℓ} {a b : A} → ok a ≡ ok b → a ≡ b
ok-injective {a = a} e = ap (λ r. elim r [ ok x ↦ x | absent ↦ a | thrown ↦ a ]) e

-- What a chain that gives a value has read first.
bind_ok {ℓ κ} :
    {A : Type ℓ} {B : Type κ} (r : Read A) {f : A → Read B} {b : B}
    → (r >>= f) ≡ ok b
    → (a : A) × (r ≡ ok a) × (f a ≡ ok b)
bind_ok (ok a) e = (a, refl, e)
bind_ok absent e = cc
bind_ok thrown e = cc

check_ok : (b : Bool) {u : Unit {0}} → check b ≡ ok u → b ≡ true
check_ok true e = refl
check_ok false e = cc

level_is_known : (l : Log) → not (is_unknown_level l) ≡ true → l ≢ unknown
level_is_known unknown h = cc
level_is_known trace h = λ e. cc
level_is_known debug h = λ e. cc
level_is_known info h = λ e. cc
level_is_known warning h = λ e. cc
level_is_known error h = λ e. cc
level_is_known critical h = λ e. cc

module _ (J : JsonLib) (Y : YamlLib) (files : Text → Option Text) (now : Text) where
  open Y use {Node, is_defined, is_map, is_scalar, is_sequence, at, items, as_bool, as_text}

  settings-level :
      (logging : Node) (c : LogConfig)
      → read_settings J Y files now logging ≡ ok c
      → c.level ≢ unknown
  unfolding read_settings
  settings-level logging c e =
      let (level_node, e1, r1) = bind_ok (value (at logging (codes "level"))) e in
      let (u2, e2, r2) = bind_ok (check (is_defined level_node && is_scalar level_node)) r1 in
      let (sinks_node, e3, r3) = bind_ok (value (at logging (codes "sinks"))) r2 in
      let (u4, e4, r4) = bind_ok (check (is_defined sinks_node && is_sequence sinks_node)) r3 in
      let (name, e5, r5) = bind_ok (value (as_text level_node)) r4 in
      let (u6, e6, r6) = bind_ok (check (not (is_unknown_level (to_log_of_name name)))) r5 in
      let (sinks, e7, r7) = bind_ok (create_sinks J Y files now (items sinks_node)) r6 in
      subst (λ (x : LogConfig). x.level ≢ unknown) (ok-injective r7)
        (level_is_known (to_log_of_name name)
          (check_ok (not (is_unknown_level (to_log_of_name name))) e6))

  parsed-level :
      (loaded : Option Node) (p : Bool) (c : LogConfig)
      → (parse_log_config J Y files now loaded p).1 ≡ ok c
      → c.level ≢ unknown
  unfolding parse_log_config
  parsed-level none p c e = cc
  parsed-level (some config) p c e = go (logging_node J Y config) e
    where
      go :
          (r : Read Node)
          → (elim r as (λ x. Bool × Read LogConfig) [
            | absent ↦ (p, absent)
            | thrown ↦ (p, thrown)
            | ok logging ↦
                let (paused', enabled) = read_enabled J Y logging p in
                (paused', enabled >> read_settings J Y files now logging)
          ]).1
            ≡ ok c
          → c.level ≢ unknown
      go absent e = cc
      go thrown e = cc
      go (ok logging) e =
          let (u, e1, r1) = bind_ok (read_enabled J Y logging p).1 e in settings-level logging c r1

  install-HasLevel :
      (r : Read LogConfig) (m : LogManager)
      → ((c : LogConfig) → r ≡ ok c → c.level ≢ unknown)
      → HasLevel m
      → HasLevel (install J Y r m).0
  unfolding install
  install-HasLevel absent m h g = g
  install-HasLevel thrown m h g = g
  install-HasLevel (ok c) m h g =
      λ l e. subst (λ (x : Logger). x.level ≢ unknown) (some-injective _ l e) (h c refl)

  init-HasLevel :
      (loaded : Option Node) (m : LogManager)
      → HasLevel m
      → HasLevel (init J Y files now loaded m).0
  unfolding init
  init-HasLevel loaded m g =
      let (p, r) = parse_log_config J Y files now loaded m.paused in
      install-HasLevel r (record m { paused = p }) (λ c. parsed-level loaded m.paused c) g

  install_keeps :
      (r : Read LogConfig) (m : LogManager)
      → (install J Y r m).1 ≢ ok true
      → (install J Y r m).0 ≡ m
  unfolding install
  install_keeps absent m h = refl
  install_keeps thrown m h = refl
  install_keeps (ok c) m h = absurd (h refl)

  -- For every manager and everything that is loaded: unless `LogManager::Init` returns true, it returns
  -- or throws with the logger of the manager as it was, with its level, its sinks and their files; only
  -- whether the manager is paused may have changed.
  pub init_keeps :
      (loaded : Option Node) (m : LogManager)
      → (init J Y files now loaded m).1 ≢ ok true
      → (init J Y files now loaded m).0
        ≡ record m { paused = (parse_log_config J Y files now loaded m.paused).0 }
  unfolding init
  init_keeps loaded m h =
      let (p, r) = parse_log_config J Y files now loaded m.paused in
      install_keeps r (record m { paused = p }) h

-- What becomes of a manager: it is made, and then its configuration is read again, it is paused,
-- continued or shut down, in any order.
pub data Managed (J : JsonLib) (Y : YamlLib) : LogManager → Type 1 where
  made :
      (files : Text → Option Text) (now : Text) (loaded : Option (YamlLib.Node Y)) {m : LogManager}
      → new_manager J Y files now loaded ≡ ok m
      → Managed J Y m
  reread :
      (files : Text → Option Text) (now : Text) (loaded : Option (YamlLib.Node Y)) {m : LogManager}
      → Managed J Y m
      → Managed J Y (init J Y files now loaded m).0
  paused : {m : LogManager} → Managed J Y m → Managed J Y (pause m)
  continued : {m : LogManager} → Managed J Y m → Managed J Y (remain m)
  shut : {m : LogManager} → Managed J Y m → Managed J Y (shut_down m)

made_of :
    (m' : LogManager) (result : Read Bool) {m : LogManager}
    → (elim result as (λ x. Read LogManager) [ ok b ↦ ok m' | absent ↦ ok m' | thrown ↦ thrown ])
      ≡ ok m
    → m' ≡ m
made_of m' (ok b) e = ok-injective e
made_of m' absent e = ok-injective e
made_of m' thrown e = cc

made-HasLevel :
    (J : JsonLib) (Y : YamlLib)
    → (files : Text → Option Text) (now : Text) (loaded : Option (YamlLib.Node Y)) (m : LogManager)
    → new_manager J Y files now loaded ≡ ok m
    → HasLevel m
unfolding new_manager
made-HasLevel J Y files now loaded m e =
    let empty : LogManager = record { logger = none; paused = false } in
    let (m', result) = init J Y files now loaded empty in
    subst (λ (x : LogManager). HasLevel x) (made_of m' result e)
      (init-HasLevel J Y files now loaded empty (λ l h. cc))

-- For every manager, however its configuration was read, and read again while it was in use, and
-- whether it was paused, continued or shut down: where it has a logger, the level of the logger is not
-- the unknown one.
pub Managed-HasLevel : (J : JsonLib) (Y : YamlLib) (m : LogManager) → Managed J Y m → HasLevel m
unfolding pause remain shut_down
Managed-HasLevel J Y m (made files now loaded e) = made-HasLevel J Y files now loaded m e
Managed-HasLevel J Y m (reread files now loaded {m = m'} g) =
    init-HasLevel J Y files now loaded m' (Managed-HasLevel J Y m' g)
Managed-HasLevel J Y m (paused {m = m'} g) = Managed-HasLevel J Y m' g
Managed-HasLevel J Y m (continued {m = m'} g) = Managed-HasLevel J Y m' g
Managed-HasLevel J Y m (shut {m = m'} g) = λ l e. cc
