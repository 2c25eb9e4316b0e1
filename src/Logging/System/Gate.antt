-- ===== src/Logging/System/Gate.antt =====
-- When the macro `LOG` logs.
use https_http_server.Shared.{
  subst, ◌≤◌, ◌≡◌, ◌≢◌, ◌↔◌, refl, sym, ap, ◌∙◌, Option, none, some, Bool, true, false, arith,
  Bool-cases, inl, inr,
}
use mathlib.Core.Option.{some-injective}
use https_http_server.Status.LogLevels.{Log, level_number, unknown}
use https_http_server.Logging.Sinks.{Logger}
use https_http_server.Logging.Manager.{LogManager}
use https_http_server.Logging.Manager
use https_http_server.Logging.Watcher.{Watcher}
use https_http_server.Logging.System.{LogSystem, get, get_level, passes, should_log, log_target}

unknown_of_number : (l : Log) → level_number l ≡ 0 → l ≡ unknown
unfolding level_number
unknown_of_number unknown h = refl
unknown_of_number _ h = absurd (omega arith)

passes_iff :
    (set level : Log)
    → (passes set level ≡ true) ↔ ((set ≢ unknown) × (level_number set ≤ level_number level))
unfolding passes
passes_iff set level = (
  λ e. (λ u. ground (arith, zero_of u), ground arith),
  λ h. ground (arith, λ (z : level_number set ≡ 0). h.0 (unknown_of_number set z)),
)
  where
    zero_of : set ≡ unknown → level_number set ≡ 0
    zero_of u = ap level_number u ∙ (unfold level_number in refl)

-- A logger takes records of a level.
abbrev pub Takes : LogManager → Log → Logger → Type 0
Takes m level l =
    (m.logger ≡ some l)
    × (m.paused ≡ false)
    × (l.level ≢ unknown)
    × (level_number l.level ≤ level_number level)

target-get :
    (s : LogSystem) (level : Log) (l : Logger)
    → (log_target s level ≡ some l) ↔ ((passes (get_level s) level ≡ true) × (get s ≡ some l))
unfolding log_target should_log
target-get s level l = elim (Bool-cases (passes (get_level s) level)) [
  | inl y ↦ rw (y, log_target) (λ e. (refl, e), λ h. h.1)
  | inr n ↦ rw (n, log_target) (λ e. cc, λ h. cc (h.0))
]

get_iff :
    (o : Option Logger) (p : Bool) (cw : Option Watcher) (l : Logger)
    → (get (record { lm = some (record { logger = o; paused = p }); cw = cw }) ≡ some l)
      ↔ ((o ≡ some l) × (p ≡ false))
unfolding get Manager.get
get_iff none p cw l = (λ e. cc, λ h. cc (h.0))
get_iff (some k) true cw l = (λ e. cc, λ h. cc (h.1))
get_iff (some k) false cw l = (λ e. (e, refl), λ h. h.0)

level_of_some : (k l : Logger) → some k ≡ some l → k.level ≡ l.level
level_of_some k l e = ap (λ o. elim o [ none ↦ k.level | some x ↦ x.level ]) e

gate :
    (o : Option Logger) (p : Bool) (cw : Option Watcher) (level : Log) (l : Logger)
    → (log_target (record { lm = some (record { logger = o; paused = p }); cw = cw }) level
        ≡ some l)
      ↔ Takes (record { logger = o; paused = p }) level l
unfolding get_level Manager.get_level
gate none p cw level l =
    let s : LogSystem = record { lm = some (record { logger = none; paused = p }); cw = cw } in
    let t = target-get s level l in
    let g = get_iff none p cw l in (λ e. cc ((g.0 (t.0 e).1).0), λ h. cc (h.0))
gate (some k) p cw level l =
    let s : LogSystem = record { lm = some (record { logger = some k; paused = p }); cw = cw } in
    let t = target-get s level l in
    let g = get_iff (some k) p cw l in
    (
      λ e.
          let q = (passes_iff k.level level).0 (t.0 e).0 in
          let (o, r) = g.0 (t.0 e).1 in
          let v : k.level ≡ l.level = level_of_some k l o in
          (
            o,
            r,
            subst (λ x. x ≢ unknown) v q.0,
            subst (λ x. level_number x ≤ level_number level) v q.1,
          ),
      λ h.
          let v : l.level ≡ k.level = sym (level_of_some k l h.0) in
          t.1 (
            (passes_iff k.level level).1 (
              subst (λ x. x ≢ unknown) v h.2,
              subst (λ x. level_number x ≤ level_number level) v h.3,
            ),
            g.1 (h.0, h.1),
          ),
    )

on_manager :
    (o : Option LogManager) (cw : Option Watcher) (level : Log) (l : Logger)
    → (log_target (record { lm = o; cw = cw }) level ≡ some l)
      ↔ ((m : LogManager) × (o ≡ some m) × Takes m level l)
unfolding log_target should_log get
on_manager none cw level l = (λ e. cc, λ h. cc (h.1))
on_manager (some m) cw level l =
    let g = gate m.logger m.paused cw level l in
    (
      λ e. (m, refl, g.0 e),
      λ h. g.1 (subst (λ (x : LogManager). Takes x level l) (sym (some-injective m h.0 h.1)) h.2),
    )

-- For every state of the logging system, level and logger: the macro `LOG` hands a record of the level
-- to the logger exactly when the system has a manager whose logger it is, the manager is not paused,
-- the logger's level is not the unknown one, and its number is at most that of the record's level.
pub log_target_iff :
    (s : LogSystem) (level : Log) (l : Logger)
    → (log_target s level ≡ some l) ↔ ((m : LogManager) × (s.lm ≡ some m) × Takes m level l)
log_target_iff s level l = on_manager s.lm s.cw level l
