-- ===== src/Service/Exclusive.antt =====
-- At most one run at a time: nothing but its own end gives way to another.
use cpa_auto_refresh_quota.Service.Occurrences.{remember_occurrence_shape}
use cpa_auto_refresh_quota.Service.Configure.{
  swap_config, start_scheduler, start_priority_recovery, end_recovery, set_priority_recovery_result,
  shutdown,
}
use cpa_auto_refresh_quota.Service.Runs.{
  StartRequest, begin_run, start_run, is_active, publish_active, finished_report, finish_run,
  publish_next, clear_next, handle_schedule_start_error,
}
use cpa_auto_refresh_quota.Service.Invariant.{
  Action, act, run, Inv, start_run_cases, step-Inv, swaps_config, starts_scheduler,
  starts_priority_recovery, ends_recovery, sets_recovery_result, starts, publishes_active,
  finishes_run, publishes_next, clears_next, fails_to_start, shuts_down,
}
use cpa_auto_refresh_quota.Service.{RunReport, Error, Service, Effect}
use cpa_auto_refresh_quota.Base.{
  ℕ, String, ◌≡◌, refl, ◌≢◌, true, false, Option, none, some, List, [], ◌∷◌, arith, eq_iff, Result,
  ok,
}

-- No action ends the run of this report.
abbrev pub StaysOpen : RunReport → List Action → Type 0
StaysOpen report [] = Unit {0}
StaysOpen report (finishes_run other now ∷ actions) =
    (report.run_id ≢ other.run_id) × StaysOpen report actions
StaysOpen report (a ∷ actions) = StaysOpen report actions

-- What a start must do while a run is on: fail, and leave the run as it is.
abbrev LeavesRun : Service → Result Error String × Service × List Effect → Type 0
LeavesRun s r = (r.1.active ≡ s.active) × ((id : String) → r.0 ≢ ok id)

begin_run-LeavesRun :
    (s : Service) (q : StartRequest) (run_id : String)
    → s.running ≡ true
    → LeavesRun s (begin_run s q run_id)
unfolding begin_run
begin_run-LeavesRun s q run_id h = (ground arith, λ id. ground arith)

start_run-LeavesRun :
    (s : Service) (q : StartRequest) → s.running ≡ true → LeavesRun s (start_run s q)
start_run-LeavesRun s q h =
    start_run_cases (LeavesRun s) s q (λ e. (refl, λ id x. cc))
      (λ run_id _ _. begin_run-LeavesRun s q run_id h)
      (λ run_id _ _ _.
        let (occurrences, order, e) = remember_occurrence_shape s q.occurrence_id in
        rw e (
          begin_run-LeavesRun (record s { occurrences = occurrences; occurrence_order = order }) q
            run_id h))

is_active-same :
    (s : Service) (report : RunReport) (t : Service)
    → t.active ≡ s.active
    → is_active s report ≡ true
    → is_active t report ≡ true
unfolding is_active
is_active-same s report t e h = rw e h

pub is_active-running :
    (s : Service) (report : RunReport) → Inv s → is_active s report ≡ true → s.running ≡ true
unfolding is_active
is_active-running s report v h = ground (arith, v.running_active, h)

publish_active-is_active :
    (s : Service) (report other : RunReport) (active : Option RunReport)
    → s.active ≡ active
    → is_active s report ≡ true
    → is_active (publish_active s other) report ≡ true
unfolding publish_active
publish_active-is_active s report other none e h = ground (arith, h, e)
publish_active-is_active s report other (some a) e h = ground (
  arith,
  h,
  e,
  eq_iff a.run_id report.run_id,
  eq_iff a.run_id other.run_id,
  eq_iff other.run_id report.run_id,
)

finish_run-is_active :
    (s : Service) (report other : RunReport) (now : ℕ) (active : Option RunReport)
    → s.active ≡ active
    → is_active s report ≡ true
    → report.run_id ≢ other.run_id
    → is_active (finish_run s other now) report ≡ true
unfolding finish_run
finish_run-is_active s report other now none e h n = ground (arith, h, e)
finish_run-is_active s report other now (some a) e h n =
    ground (arith, h, e, n, eq_iff a.run_id report.run_id, eq_iff a.run_id other.run_id)

act-is_active :
    (report : RunReport) (s : Service) (a : Action) (actions : List Action)
    → Inv s
    → is_active s report ≡ true
    → StaysOpen report (a ∷ actions)
    → (is_active (act s a) report ≡ true) × StaysOpen report actions
unfolding act
act-is_active report s (swaps_config parsed) actions v h open' =
    (is_active-same s report _ (unfold swap_config in ground arith) h, open')
act-is_active report s (starts_scheduler cfg generation ctx) actions v h open' =
    (is_active-same s report _ (unfold start_scheduler in ground arith) h, open')
act-is_active report s (starts_priority_recovery cfg generation ctx) actions v h open' =
    (is_active-same s report _ (unfold start_priority_recovery in ground arith) h, open')
act-is_active report s (ends_recovery generation) actions v h open' =
    (is_active-same s report _ (unfold end_recovery in ground arith) h, open')
act-is_active report s (sets_recovery_result generation e) actions v h open' =
    (is_active-same s report _ (unfold set_priority_recovery_result in ground arith) h, open')
act-is_active report s (starts q) actions v h open' = (
  is_active-same s report _ (start_run-LeavesRun s q (is_active-running s report v h)).0 h,
  open',
)
act-is_active report s (publishes_active other) actions v h open' =
    (publish_active-is_active s report other s.active refl h, open')
act-is_active report s (finishes_run other now) actions v h open' =
    (finish_run-is_active s report other now s.active refl h open'.0, open'.1)
act-is_active report s (publishes_next generation at id) actions v h open' =
    (is_active-same s report _ (unfold publish_next in ground arith) h, open')
act-is_active report s (clears_next generation) actions v h open' =
    (is_active-same s report _ (unfold clear_next in ground arith) h, open')
act-is_active report s (fails_to_start id e) actions v h open' =
    (is_active-same s report _ (unfold handle_schedule_start_error in ground arith) h, open')
act-is_active report s shuts_down actions v h open' =
    (is_active-same s report _ (unfold shutdown in ground arith) h, open')

-- From a state that the invariant holds of, a run that is active stays so until it is itself
-- finished, whatever else is done meanwhile; and in all that time no other run starts.
pub run_exclusive :
    (s : Service) (report : RunReport) (actions : List Action)
    → Inv s
    → is_active s report ≡ true
    → StaysOpen report actions
    → (is_active (run s actions) report ≡ true)
      × ((q : StartRequest) (id : String) → (start_run (run s actions) q).0 ≢ ok id)
unfolding run
run_exclusive s report [] v h open' =
    (h, λ q. (start_run-LeavesRun s q (is_active-running s report v h)).1)
run_exclusive s report (a ∷ actions) v h open' =
    let (h', rest) = act-is_active report s a actions v h open' in
    run_exclusive (act s a) report actions (step-Inv s a v) h' rest

pub finish_run_lem :
    (s : Service) (report : RunReport) (now : ℕ)
    → let after = finish_run s report now in
      (is_active s report ≡ true
        → (after.running ≡ false)
          × (after.active ≡ none)
          × (after.active_cancel ≡ none)
          × (after.last ≡ some (finished_report report now)))
      × (is_active s report ≡ false → after ≡ s)
unfolding finish_run
finish_run_lem s report now = (λ h. rw h (refl, refl, refl, refl), λ h. rw h)
