-- ===== src/Service/Lifecycle.antt =====
-- Configurations and shutdown: what a replaced or ended generation can still do.
use cpa_auto_refresh_quota.Service.Runs.{StartRequest, is_refused, start_run, publish_next}
use cpa_auto_refresh_quota.Service.Configure.{
  is_repeat, next_generation, swap_config, start_scheduler, start_priority_recovery, apply_config,
  set_priority_recovery_result, shutdown,
}
use cpa_auto_refresh_quota.Service.{u64, Service, cancels, cancel_of, stopped}
use cpa_auto_refresh_quota.Base.{
  ℕ, ◌<◌, String, ◌≡◌, refl, sym, ◌∙◌, ◌≢◌, ◌⊎◌, inl, inr, true, false, [], ◌∷◌, ◌++◌, arith, ◌||◌,
  ◌==◌, Bool-cases, Option-cases, Result, ok, err,
}
use cpa_auto_refresh_quota.Base.Text.{trim_space}
use cpa_auto_refresh_quota.Config.{Config}

-- The generation that a new configuration gets is another one.
pub next_generation-ne :
    (s : Service) → s.config_generation < u64 → next_generation s ≢ s.config_generation
unfolding next_generation
next_generation-ne s h = omega arith

pub start_run-refused :
    (s : Service) (q : StartRequest) (id : String)
    → is_refused s q ≡ true
    → (start_run s q).0 ≢ ok id
unfolding start_run
start_run-refused s q id h = ground (arith, h)

-- The generation `g` can do nothing any more.
abbrev IsOver : Service → ℕ → Type 0
IsOver s g = (s.is_stopped ≡ true) ⊎ (g ≢ s.config_generation)

module _ (s : Service) (g : ℕ) (over : IsOver s g) where
  is_refused-over : (q : StartRequest) → q.expected_generation ≡ g → is_refused s q ≡ true
  unfolding is_refused
  is_refused-over q e = ground (arith, over, e)

  start_scheduler-over :
      (cfg : Config) (ctx : ℕ) → start_scheduler s cfg g ctx ≡ (s, cancels ctx ∷ [])
  unfolding start_scheduler
  start_scheduler-over cfg ctx = ground (arith, over)

  start_priority_recovery-over :
      (cfg : Config) (ctx : ℕ) → start_priority_recovery s cfg g ctx ≡ (s, cancels ctx ∷ [])
  unfolding start_priority_recovery
  start_priority_recovery-over cfg ctx = ground (arith, over)

  publish_next-over : (at : ℕ) (id : String) → publish_next s g at id ≡ s
  unfolding publish_next
  publish_next-over at id = ground (arith, over)

  set_priority_recovery_result-over : (e : String) → set_priority_recovery_result s g e ≡ s
  unfolding set_priority_recovery_result
  set_priority_recovery_result-over e = ground (arith, over)

swap_config-installs :
    (s : Service) (parsed : Result String Config)
    → s.is_stopped ≡ false
    → is_repeat s parsed ≡ false
    → ((swap_config s parsed).1.config_generation ≡ next_generation s)
      × ((swap_config s parsed).2
          ≡ cancel_of s.scheduler_cancel
            ++ (cancel_of s.active_cancel ++ cancel_of s.recovery_cancel))
unfolding swap_config
swap_config-installs s parsed on new = (ground (arith, on, new), ground (arith, on, new))

-- Where the service is not stopped, ApplyConfig gets an error or a configuration other than the
-- active one, and the generation is a uint64, it cancels the context of the schedule, of the
-- active run and of the recovery, and none of what was begun for the old generation can go on: it
-- starts no run, arms no schedule and no recovery, and shows no time and no recovery result.
pub swap_config-ends_generation :
    (s : Service) (parsed : Result String Config) (q : StartRequest) (id : String)
    → s.is_stopped ≡ false
    → is_repeat s parsed ≡ false
    → s.config_generation < u64
    → q.expected_generation ≡ s.config_generation
    → let old = s.config_generation in
      let after = (swap_config s parsed).1 in
      ((swap_config s parsed).2
        ≡ cancel_of s.scheduler_cancel
          ++ (cancel_of s.active_cancel ++ cancel_of s.recovery_cancel))
      × ((start_run after q).0 ≢ ok id)
      × ((cfg : Config) (ctx : ℕ) → start_scheduler after cfg old ctx ≡ (after, cancels ctx ∷ []))
      × ((cfg : Config) (ctx : ℕ)
          → start_priority_recovery after cfg old ctx ≡ (after, cancels ctx ∷ []))
      × ((at : ℕ) (occurrence_id : String) → publish_next after old at occurrence_id ≡ after)
      × ((e : String) → set_priority_recovery_result after old e ≡ after)
swap_config-ends_generation s parsed q id on new bounded old = (
  effects,
  start_run-refused after q id (is_refused-over after s.config_generation over q old),
  start_scheduler-over after s.config_generation over,
  start_priority_recovery-over after s.config_generation over,
  publish_next-over after s.config_generation over,
  set_priority_recovery_result-over after s.config_generation over,
)
  where
    after : Service
    after = (swap_config s parsed).1

    effects :
        (swap_config s parsed).2
        ≡ cancel_of s.scheduler_cancel ++ (cancel_of s.active_cancel ++ cancel_of s.recovery_cancel)
    effects = (swap_config-installs s parsed on new).1

    over : IsOver after s.config_generation
    over =
        inr
          (λ e. next_generation-ne s bounded (sym (swap_config-installs s parsed on new).0 ∙ sym e))

apply_config-stopped :
    (s : Service) (parsed : Result String Config) (schedule_ctx recovery_ctx : ℕ)
    → s.is_stopped ≡ true
    → apply_config s parsed schedule_ctx recovery_ctx ≡ (err stopped, s, [])
unfolding apply_config
apply_config-stopped s parsed schedule_ctx recovery_ctx h = ground (arith, h)

start_run-unchanged :
    (s : Service) (q : StartRequest)
    → is_refused s q ≡ true
    → ((start_run s q).1 ≡ s) × ((start_run s q).2 ≡ [])
unfolding start_run
start_run-unchanged s q h =
    elim (Bool-cases (trim_space q.cfg.model == "" || trim_space q.cfg.message == "")) [
      | inl e ↦ rw e (refl, refl)
      | inr e ↦ rw e (elim (Option-cases q.run_id) [
        | inl n ↦ rw n (refl, refl)
        | inr (id, n) ↦ rw n (rw h (refl, refl))
      ])
    ]

-- After a shutdown the service stays as it is, and starts nothing, under every later configuration,
-- every start, every new schedule, recovery, next time and recovery's result of any generation, and
-- another shutdown; and it gives up each context that is handed to the schedule or the recovery.
pub shutdown_final :
    (s : Service) (parsed : Result String Config) (q : StartRequest) (id : String)
    (schedule_ctx recovery_ctx : ℕ)
    → let after = (shutdown s).0 in
      (after.is_stopped ≡ true)
      × (apply_config after parsed schedule_ctx recovery_ctx ≡ (err stopped, after, []))
      × ((start_run after q).0 ≢ ok id)
      × ((start_run after q).1 ≡ after)
      × ((start_run after q).2 ≡ [])
      × ((cfg : Config) (g ctx : ℕ) → start_scheduler after cfg g ctx ≡ (after, cancels ctx ∷ []))
      × ((cfg : Config) (g ctx : ℕ)
          → start_priority_recovery after cfg g ctx ≡ (after, cancels ctx ∷ []))
      × ((g at : ℕ) (occurrence_id : String) → publish_next after g at occurrence_id ≡ after)
      × ((g : ℕ) (e : String) → set_priority_recovery_result after g e ≡ after)
      × (shutdown after ≡ (after, []))
shutdown_final s parsed q id schedule_ctx recovery_ctx = (
  stopped-shutdown,
  apply_config-stopped (shutdown s).0 parsed schedule_ctx recovery_ctx stopped-shutdown,
  start_run-refused _ q id (is_refused-over _ q.expected_generation (inl stopped-shutdown) q refl),
  (start_run-unchanged _ q
      (is_refused-over _ q.expected_generation (inl stopped-shutdown) q refl)).0,
  (start_run-unchanged _ q
      (is_refused-over _ q.expected_generation (inl stopped-shutdown) q refl)).1,
  λ cfg g. start_scheduler-over _ g (inl stopped-shutdown) cfg,
  λ cfg g. start_priority_recovery-over _ g (inl stopped-shutdown) cfg,
  λ g. publish_next-over _ g (inl stopped-shutdown),
  λ g. set_priority_recovery_result-over _ g (inl stopped-shutdown),
  unfold shutdown in ground arith,
)
  where
    stopped-shutdown : (shutdown s).0.is_stopped ≡ true
    stopped-shutdown = unfold shutdown in ground arith
