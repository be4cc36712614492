-- ===== src/Service/Invariant.antt =====
-- The steps of the service in any order, as its goroutines and callers may interleave them, and
-- what holds of its state after each.
use cpa_auto_refresh_quota.Base.Text.{trim_space}
use cpa_auto_refresh_quota.Base.Dict.{contains}
use cpa_auto_refresh_quota.Service.Occurrences.{
  InStep, remember_occurrence_lem, remember_occurrence_shape,
}
use cpa_auto_refresh_quota.Service.Runs.{
  remember_occurrence, StartRequest, begin_run, is_refused, admit_run, start_run, publish_active,
  finish_run, publish_next, clear_next, handle_schedule_start_error,
}
use cpa_auto_refresh_quota.Service.Configure.{
  swap_config, start_scheduler, start_priority_recovery, end_recovery, set_priority_recovery_result,
  shutdown,
}
use cpa_auto_refresh_quota.Service.{
  RunReport, Error, max_remembered_occurrences, Service, Effect, new_service, stopped,
  not_configured, duplicate, run_id_failed,
}
use cpa_auto_refresh_quota.Base.{
  ℕ, ◌≤◌, String, ◌≡◌, refl, ◌≢◌, inl, inr, true, false, ◌||◌, none, List, [], ◌∷◌, arith, ◌==◌,
  eq_iff, Bool-cases, Option-cases, is_some, length, Result, err,
}
use cpa_auto_refresh_quota.Config.{Config}

pub data Action : Type 0 where
  swaps_config : Result String Config → Action
  starts_scheduler starts_priority_recovery : Config → ℕ → ℕ → Action
  ends_recovery : ℕ → Action
  sets_recovery_result : ℕ → String → Action
  starts : StartRequest → Action
  publishes_active : RunReport → Action
  finishes_run : RunReport → ℕ → Action
  publishes_next : ℕ → ℕ → String → Action
  clears_next : ℕ → Action
  fails_to_start : String → Error → Action
  shuts_down : Action

unfoldable pub act : Service → Action → Service
act s (swaps_config parsed) = (swap_config s parsed).1
act s (starts_scheduler cfg generation ctx) = (start_scheduler s cfg generation ctx).0
act s (starts_priority_recovery cfg generation ctx) =
    (start_priority_recovery s cfg generation ctx).0
act s (ends_recovery generation) = end_recovery s generation
act s (sets_recovery_result generation e) = set_priority_recovery_result s generation e
act s (starts q) = (start_run s q).1
act s (publishes_active report) = publish_active s report
act s (finishes_run report now) = finish_run s report now
act s (publishes_next generation at id) = publish_next s generation at id
act s (clears_next generation) = clear_next s generation
act s (fails_to_start id e) = handle_schedule_start_error s id e
act s shuts_down = (shutdown s).0

unfoldable pub run : Service → List Action → Service
unfolding act
run s [] = s
run s (a ∷ actions) = run (act s a) actions

pub record Inv (s : Service) : Type 0 where
  pub running_active : s.running ≡ is_some s.active
  pub running_cancel : s.running ≡ is_some s.active_cancel
  pub stopped_next : s.is_stopped ≡ true → s.next ≡ none
  pub stopped_scheduler : s.is_stopped ≡ true → s.scheduler_cancel ≡ none
  pub stopped_recovery : s.is_stopped ≡ true → s.recovery_cancel ≡ none
  pub pending_recovery : s.priority_recovery_pending ≡ true → is_some s.recovery_cancel ≡ true
  pub order_bounded : length s.occurrence_order ≤ max_remembered_occurrences
  pub in_step : InStep s.occurrences s.occurrence_order

pub new_service-Inv : Inv new_service
unfolding contains
new_service-Inv = record {
  running_active = refl;
  running_cancel = refl;
  stopped_next = λ h. cc;
  stopped_scheduler = λ h. cc;
  stopped_recovery = λ h. cc;
  pending_recovery = λ h. cc;
  order_bounded = omega arith;
  in_step = record { members = λ k. refl; distinct = tt };
}

swap_config-Inv :
    (s : Service) (parsed : Result String Config) → Inv s → Inv (swap_config s parsed).1
unfolding swap_config
swap_config-Inv s parsed v = ground arith

begin_run-Inv :
    (s : Service) (q : StartRequest) (run_id : String) → Inv s → Inv (begin_run s q run_id).1
unfolding begin_run
begin_run-Inv s q run_id v = ground arith

remember_occurrence-Inv :
    (s : Service) (k : String)
    → k ≢ ""
    → contains k s.occurrences ≡ false
    → Inv s
    → Inv (remember_occurrence s k)
remember_occurrence-Inv s k named new v =
    let (together, _, bounded) = remember_occurrence_lem s k named new v.in_step in
    let (occurrences, order, e) = remember_occurrence_shape s k in
    rw e (record {
      running_active = v.running_active;
      running_cancel = v.running_cancel;
      stopped_next = v.stopped_next;
      stopped_scheduler = v.stopped_scheduler;
      stopped_recovery = v.stopped_recovery;
      pending_recovery = v.pending_recovery;
      order_bounded = rw e at bounded;
      in_step = rw e at together;
    })

-- startRun fails and leaves the state, or begins a run, or remembers the occurrence and then
-- tries to.
pub start_run_cases :
    (P : Result Error String × Service × List Effect → Type 0) (s : Service) (q : StartRequest)
    → ((e : Error) → P (err e, s, []))
    → ((run_id : String) → is_refused s q ≡ false → q.occurrence_id ≡ "" → P (begin_run s q run_id))
    → ((run_id : String)
        → is_refused s q ≡ false
        → q.occurrence_id ≢ ""
        → contains q.occurrence_id s.occurrences ≡ false
        → P (begin_run (remember_occurrence s q.occurrence_id) q run_id))
    → P (start_run s q)
unfolding start_run admit_run
start_run_cases P s q same begins remembers =
    elim (Bool-cases (trim_space q.cfg.model == "" || trim_space q.cfg.message == "")) [
      | inl e ↦ rw e (same not_configured)
      | inr e ↦ elim (Option-cases q.run_id) [
        | inl r ↦ rw (e, r) (same run_id_failed)
        | inr (run_id, r) ↦
            rw (e, r)
              (elim (Bool-cases (is_refused s q)) [
                | inl a ↦ rw a (same stopped)
                | inr a ↦ rw a (elim (Bool-cases (q.occurrence_id == "")) [
                  | inl d ↦ rw d (begins run_id a ((eq_iff _ _).0 d))
                  | inr d ↦ rw d (elim (Bool-cases (contains q.occurrence_id s.occurrences)) [
                    | inl f ↦ rw f (same duplicate)
                    | inr f ↦
                        rw f (remembers run_id a (ground (arith, d, eq_iff q.occurrence_id "")) f)
                  ])
                ])
              ])
      ]
    ]

pub start_run-Inv : (s : Service) (q : StartRequest) → Inv s → Inv (start_run s q).1
start_run-Inv s q v =
    start_run_cases (λ r. Inv r.1) s q (λ e. v) (λ run_id _ _. begin_run-Inv s q run_id v)
      λ run_id _ named new.
        begin_run-Inv _ q run_id (remember_occurrence-Inv s q.occurrence_id named new v)

pub step-Inv : (s : Service) (a : Action) → Inv s → Inv (act s a)
unfolding act
step-Inv s (swaps_config parsed) v = swap_config-Inv s parsed v
step-Inv s (starts_scheduler cfg generation ctx) v = unfold start_scheduler in ground arith
step-Inv s (starts_priority_recovery cfg generation ctx) v =
    unfold start_priority_recovery in ground arith
step-Inv s (ends_recovery generation) v = unfold end_recovery in ground arith
step-Inv s (sets_recovery_result generation e) v =
    unfold set_priority_recovery_result in ground arith
step-Inv s (starts q) v = start_run-Inv s q v
step-Inv s (publishes_active report) v = unfold publish_active in ground arith
step-Inv s (finishes_run report now) v = unfold finish_run in ground arith
step-Inv s (publishes_next generation at id) v = unfold publish_next in ground arith
step-Inv s (clears_next generation) v = unfold clear_next in ground arith
step-Inv s (fails_to_start id e) v = unfold handle_schedule_start_error in ground arith
step-Inv s shuts_down v = unfold shutdown in ground arith

pub run-Inv : (s : Service) (actions : List Action) → Inv s → Inv (run s actions)
unfolding run
run-Inv s [] v = v
run-Inv s (a ∷ actions) v = run-Inv (act s a) actions (step-Inv s a v)

-- However the steps of callers and goroutines interleave, the service is running exactly while it
-- shows an active run and can cancel it, a stopped service has no schedule and no context of
-- theirs left, and the remembered occurrences are at most 512, each once, set and order in step.
pub run-new_service-Inv : (actions : List Action) → Inv (run new_service actions)
run-new_service-Inv actions = run-Inv new_service actions new_service-Inv
