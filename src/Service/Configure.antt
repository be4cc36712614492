-- ===== src/Service/Configure.antt =====
-- ApplyConfig, startScheduler, startPriorityRecovery and Shutdown: what replaces or ends the
-- service's work. The result of ParseConfig is an argument.
use cpa_auto_refresh_quota.Service.{
  Error, bad_config, u64, Service, Effect, cancels, starts_schedule_loop, starts_recovery,
  empty_config, cancel_of, stopped,
}
use cpa_auto_refresh_quota.Base.{
  ℕ, ◌+◌, ◌%◌, String, Bool, true, false, not, ◌&&◌, ◌||◌, none, some, List, [], ◌∷◌, ◌++◌, ◌==◌,
  ltb, ◌=ℕ◌, if◌then◌else◌, Result, ok, err,
}
use cpa_auto_refresh_quota.Errors.{sanitize_error}
use cpa_auto_refresh_quota.Config.{Config}
use cpa_auto_refresh_quota.Config.Equivalent.{equivalent}

-- The new configuration repeats the active one.
unfoldable pub is_repeat : Service → Result String Config → Bool
is_repeat s (err e) = false
is_repeat s (ok cfg) = ltb 0 s.config_generation && s.config_error == "" && equivalent s.config cfg

unfoldable pub next_generation : Service → ℕ
next_generation s = (s.config_generation + 1) % u64

installed : Result String Config → Config × String
installed (err e) = (empty_config true, sanitize_error e)
installed (ok cfg) = (cfg, "")

replaced : Service → Result String Config → Service
unfolding installed next_generation
replaced s parsed =
    let (cfg, e) = installed parsed in
    record s {
      scheduler_cancel = none;
      recovery_cancel = none;
      recovery_generation = 0;
      priority_recovery_pending = false;
      priority_recovery_error = "";
      config_generation = next_generation s;
      next = none;
      config = cfg;
      config_error = e;
    }

-- The first locked section of ApplyConfig, with the cancellations that follow it. `ok true` goes on
-- to the second part, `ok false` is the early return for a repeated configuration.
unfoldable pub swap_config :
    Service → Result String Config → Result Error Bool × Service × List Effect
unfolding is_repeat replaced
swap_config s parsed =
    if s.is_stopped
    then (err stopped, s, [])
    else if is_repeat s parsed
    then (ok false, s, [])
    else (
      (elim parsed [ err e ↦ err (bad_config e) | ok cfg ↦ ok true ]),
      replaced s parsed,
      cancel_of s.scheduler_cancel ++ (cancel_of s.active_cancel ++ cancel_of s.recovery_cancel),
    )

-- The context `ctx` is new.
unfoldable pub start_scheduler : Service → Config → ℕ → ℕ → Service × List Effect
start_scheduler s cfg generation ctx =
    if s.is_stopped || not (generation =ℕ s.config_generation)
    then (s, cancels ctx ∷ [])
    else (record s { scheduler_cancel = some ctx }, starts_schedule_loop ctx cfg generation ∷ [])

unfoldable pub start_priority_recovery : Service → Config → ℕ → ℕ → Service × List Effect
start_priority_recovery s cfg generation ctx =
    if s.is_stopped || not (generation =ℕ s.config_generation) then (s, cancels ctx ∷ []) else (
      record s {
        recovery_cancel = some ctx;
        recovery_generation = generation;
        priority_recovery_pending = true;
        priority_recovery_error = "";
      },
      starts_recovery ctx cfg generation ∷ [],
    )

-- The second part of ApplyConfig, for a configuration that was installed as `generation`.
start_work : Service → Config → ℕ → ℕ → ℕ → Service × List Effect
unfolding start_scheduler start_priority_recovery
start_work s cfg generation schedule_ctx recovery_ctx =
    let scheduled =
      if cfg.host_enabled && cfg.schedule_enabled
      then start_scheduler s cfg generation schedule_ctx
      else (s, []) in
    let recovering =
      if cfg.host_enabled
      then start_priority_recovery scheduled.0 cfg generation recovery_ctx
      else (scheduled.0, []) in
    (recovering.0, scheduled.1 ++ recovering.1)

-- ApplyConfig where no other goroutine takes the lock between its parts.
unfoldable pub apply_config :
    Service → Result String Config → ℕ → ℕ → Result Error (Unit {0}) × Service × List Effect
unfolding swap_config start_work
apply_config s parsed schedule_ctx recovery_ctx =
    let (r, s', effects) = swap_config s parsed in
    elim r [
      | err e ↦ (err e, s', effects)
      | ok false ↦ (ok tt, s', effects)
      | ok true ↦ elim parsed [
        | err e ↦ (err (bad_config e), s', effects)
        | ok cfg ↦
            let (s'', started) = start_work s' cfg s'.config_generation schedule_ctx recovery_ctx in
            (ok tt, s'', effects ++ started)
      ]
    ]

-- The deferred section of the recovery goroutine.
unfoldable pub end_recovery : Service → ℕ → Service
end_recovery s generation =
    if s.recovery_generation =ℕ generation
    then record s {
      recovery_cancel = none;
      recovery_generation = 0;
      priority_recovery_pending = false;
    }
    else s

unfoldable pub priority_recovery_still_current : Service → ℕ → Bool
priority_recovery_still_current s generation =
    not s.is_stopped && generation =ℕ s.config_generation && s.recovery_generation =ℕ generation

-- The error's text is the sanitized one, empty for nil.
unfoldable pub set_priority_recovery_result : Service → ℕ → String → Service
set_priority_recovery_result s generation e =
    if s.is_stopped
      || not (generation =ℕ s.config_generation)
      || not (generation =ℕ s.recovery_generation)
    then s
    else record s { priority_recovery_pending = false; priority_recovery_error = e }

-- Shutdown up to its wait for the goroutines.
unfoldable pub shutdown : Service → Service × List Effect
shutdown s = if s.is_stopped then (s, []) else (
  record s {
    is_stopped = true;
    next = none;
    scheduler_cancel = none;
    recovery_cancel = none;
    recovery_generation = 0;
    priority_recovery_pending = false;
  },
  cancel_of s.scheduler_cancel ++ (cancel_of s.active_cancel ++ cancel_of s.recovery_cancel),
)
