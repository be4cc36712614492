-- ===== src/Service/Tests.antt =====
-- The service on concrete configurations, starts and reports.
use cpa_auto_refresh_quota.Service.Manual.{
  normalize_manual_run_options, normalize_manual_run_options_lem,
}
use cpa_auto_refresh_quota.Service.Runs.{
  remember_occurrence, StartRequest, report_of, begin_run, is_refused, admit_run, start_run,
  is_active, finished_report, finish_run, publish_next,
}
use cpa_auto_refresh_quota.Service.Once.{starts_in, occurrence_once}
use cpa_auto_refresh_quota.Service.Occurrences.{InStep, remember_occurrence_lem}
use cpa_auto_refresh_quota.Service.Lifecycle.{swap_config-ends_generation, shutdown_final}
use cpa_auto_refresh_quota.Service.Invariant.{
  Action, run, Inv, run-new_service-Inv, swaps_config, starts, finishes_run, publishes_next,
  shuts_down,
}
use cpa_auto_refresh_quota.Service.Exclusive.{run_exclusive}
use cpa_auto_refresh_quota.Service.Succession.{IsReady, start_run-finish_run}
use cpa_auto_refresh_quota.Service.Configure.{
  is_repeat, swap_config, start_scheduler, start_priority_recovery, apply_config,
  set_priority_recovery_result, shutdown,
}
use cpa_auto_refresh_quota.Base.{
  ℕ, ◌-◌, ◌≤◌, String, ◌≡◌, refl, ◌≢◌, true, false, some, List, [], ◌∷◌, ◌++◌, map, arith, eq_iff,
  length, drop, All, ok, err,
}
use cpa_auto_refresh_quota.Base.Text.{trim_space}
use cpa_auto_refresh_quota.Base.Dict.{contains, set_add, AllDistinct}
use cpa_auto_refresh_quota.Config.{Config}
use cpa_auto_refresh_quota.Service.{
  RunReport, ManualRunOptions, max_remembered_occurrences, Service, cancels, empty_config,
  new_service, stopped, busy, starts_run,
}

abbrev ready : Config
ready = record (empty_config true) { model = "m"; message = "hi" }

abbrev started_with : String → String → StartRequest
started_with occurrence_id run_id = record {
  cfg = ready;
  expected_generation = 1;
  trigger = "schedule";
  occurrence_id = occurrence_id;
  options = record { dry_run = false; auth_indices = [] };
  run_id = some run_id;
  ctx = 7;
  now = 0;
}

-- A service with its first configuration.
abbrev configured : Service
configured = record new_service { config = ready; config_generation = 1 }

abbrev first_report : RunReport
first_report = report_of (started_with "occ-1" "run-1") "run-1"

abbrev busy_service : Service
busy_service = record configured {
  running = true;
  active = some first_report;
  active_cancel = some 7;
}

configured-Inv : Inv configured
unfolding contains
configured-Inv = record {
  running_active = refl;
  running_cancel = refl;
  stopped_next = λ h. cc;
  stopped_scheduler = λ h. cc;
  stopped_recovery = λ h. cc;
  pending_recovery = λ h. cc;
  order_bounded = omega arith;
  in_step = record { members = λ k. refl; distinct = tt };
}

busy_service-Inv : Inv busy_service
unfolding contains
busy_service-Inv = record {
  running_active = refl;
  running_cancel = refl;
  stopped_next = λ h. cc;
  stopped_scheduler = λ h. cc;
  stopped_recovery = λ h. cc;
  pending_recovery = λ h. cc;
  order_bounded = omega arith;
  in_step = record { members = λ k. refl; distinct = tt };
}

abbrev some_actions : List Action
some_actions =
    starts (started_with "occ-2" "run-2")
    ∷ publishes_next 1 50 "occ-3"
    ∷ swaps_config (err "bad")
    ∷ []

run-new_service-Inv_example : Inv (
    run new_service
      (swaps_config (ok ready) ∷ starts (started_with "occ-1" "run-1") ∷ shuts_down ∷ []))
run-new_service-Inv_example =
    run-new_service-Inv
      (swaps_config (ok ready) ∷ starts (started_with "occ-1" "run-1") ∷ shuts_down ∷ [])

run_exclusive_example :
    (is_active (run busy_service some_actions) first_report ≡ true)
    × ((q : StartRequest) (id : String) → (start_run (run busy_service some_actions) q).0 ≢ ok id)
run_exclusive_example =
    run_exclusive busy_service first_report some_actions busy_service-Inv (unfold is_active in refl)
      tt

-- A manual start while the run is active.
abbrev manual_start : StartRequest
manual_start = record (started_with "" "run-2") { trigger = "manual" }

manual_start-IsReady : IsReady busy_service manual_start "run-2"
manual_start-IsReady = record {
  configured = unfold trim_space in refl;
  drawn = refl;
  accepted = unfold is_refused in refl;
  manual = refl;
}

start_run-finish_run_example :
    let after = finish_run busy_service first_report 5 in
    let other = report_of manual_start "run-3" in
    let (started, s', effects) = start_run after manual_start in
    (start_run busy_service manual_start ≡ (err busy, busy_service, []))
    × (start_run (finish_run busy_service other 5) manual_start ≡ (err busy, busy_service, []))
    × (started ≡ ok "run-2")
    × (is_active s' (report_of manual_start "run-2") ≡ true)
    × (s'.last ≡ some (finished_report first_report 5))
    × (effects ≡ starts_run 7 ready manual_start.options (report_of manual_start "run-2") ∷ [])
start_run-finish_run_example =
    start_run-finish_run busy_service first_report (report_of manual_start "run-3") 5 manual_start
      "run-2" busy_service-Inv (unfold is_active in refl)
      (λ e. ground (arith, e, eq_iff "run-1" "run-3")) manual_start-IsReady

swap_config-ends_generation_example :
    let after = (swap_config busy_service (err "bad")).1 in
    ((swap_config busy_service (err "bad")).2 ≡ cancels 7 ∷ [])
    × ((start_run after (started_with "occ-9" "run-9")).0 ≢ ok "run-9")
    × ((cfg : Config) (ctx : ℕ) → start_scheduler after cfg 1 ctx ≡ (after, cancels ctx ∷ []))
    × ((cfg : Config) (ctx : ℕ)
        → start_priority_recovery after cfg 1 ctx ≡ (after, cancels ctx ∷ []))
    × ((at : ℕ) (occurrence_id : String) → publish_next after 1 at occurrence_id ≡ after)
    × ((e : String) → set_priority_recovery_result after 1 e ≡ after)
swap_config-ends_generation_example =
    swap_config-ends_generation busy_service (err "bad") (started_with "occ-9" "run-9") "run-9" refl
      (unfold is_repeat in refl) (omega arith) refl

shutdown_final_example :
    let after = (shutdown busy_service).0 in
    (after.is_stopped ≡ true)
    × (apply_config after (ok ready) 8 9 ≡ (err stopped, after, []))
    × ((start_run after (started_with "occ-9" "run-9")).0 ≢ ok "run-9")
    × ((start_run after (started_with "occ-9" "run-9")).1 ≡ after)
    × ((start_run after (started_with "occ-9" "run-9")).2 ≡ [])
    × ((cfg : Config) (g ctx : ℕ) → start_scheduler after cfg g ctx ≡ (after, cancels ctx ∷ []))
    × ((cfg : Config) (g ctx : ℕ)
        → start_priority_recovery after cfg g ctx ≡ (after, cancels ctx ∷ []))
    × ((g at : ℕ) (occurrence_id : String) → publish_next after g at occurrence_id ≡ after)
    × ((g : ℕ) (e : String) → set_priority_recovery_result after g e ≡ after)
    × (shutdown after ≡ (after, []))
shutdown_final_example =
    shutdown_final busy_service (ok ready) (started_with "occ-9" "run-9") "run-9" 8 9

remember_occurrence_lem_example :
    let after = remember_occurrence configured "occ-1" in
    InStep after.occurrences after.occurrence_order
    × (after.occurrence_order
        ≡ drop
            (length (configured.occurrence_order ++ "occ-1" ∷ []) - max_remembered_occurrences)
            (configured.occurrence_order ++ "occ-1" ∷ []))
    × (length after.occurrence_order ≤ max_remembered_occurrences)
unfolding contains
remember_occurrence_lem_example =
    remember_occurrence_lem configured "occ-1" (λ e. cc) refl configured-Inv.in_step

first_start : (start_run configured (started_with "occ-1" "run-1")).0 ≡ ok "run-1"
unfolding start_run trim_space contains is_refused admit_run begin_run remember_occurrence
first_start = refl

occurrence_once_example :
    (start_run
      (run
        (start_run configured (started_with "occ-1" "run-1")).1
        (finishes_run first_report 3 ∷ some_actions))
      (started_with "occ-1" "run-3")).0
    ≢ ok "run-3"
occurrence_once_example =
    occurrence_once configured (started_with "occ-1" "run-1") "run-1"
      (finishes_run first_report 3 ∷ some_actions) (started_with "occ-1" "run-3") configured-Inv
      (λ e. cc) first_start (unfold starts_in in omega arith) refl "run-3"

abbrev chosen : ManualRunOptions
chosen = record { dry_run = true; auth_indices = " a" ∷ "b" ∷ "a " ∷ [] }

abbrev kept : ManualRunOptions
kept = record { dry_run = true; auth_indices = "a" ∷ "b" ∷ [] }

normalized_options : normalize_manual_run_options chosen ≡ ok kept
unfolding normalize_manual_run_options trim_space contains set_add
normalized_options = refl

normalize_manual_run_options_lem_example :
    (3 ≤ 256)
    × (true ≡ true)
    × AllDistinct ("a" ∷ "b" ∷ [])
    × All (λ index. trim_space index ≢ "") chosen.auth_indices
    × ((k : String)
        → contains k kept.auth_indices ≡ contains k (map trim_space chosen.auth_indices))
normalize_manual_run_options_lem_example =
    normalize_manual_run_options_lem chosen kept normalized_options
