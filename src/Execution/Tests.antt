-- ===== src/Execution/Tests.antt =====
-- A run over the two credentials of the concrete host.
use cpa_auto_refresh_quota.Service.Runs.{
  StartRequest, report_of, begin_run, is_refused, admit_run, start_run, milliseconds_between,
  finished_report,
}
use cpa_auto_refresh_quota.Transaction.{
  Lease, has_no_file, wait_for_runtime_priority, get_auth_file_until,
}
use cpa_auto_refresh_quota.Execution.{ChatCompletionRequest, build_request_body, Attempt, succeeded}
use cpa_auto_refresh_quota.Transaction.Restore.{restore_priority_file, restore_priority_override}
use cpa_auto_refresh_quota.Override.{
  build_priority_override_json, is_same_transaction, restore_priority_override_json,
}
use cpa_auto_refresh_quota.Base.Dict.{lookup, insert, remove}
use cpa_auto_refresh_quota.Execution.Round.{attempt}
use cpa_auto_refresh_quota.Auths.Priorities.{desired_priority_for_auth}
use cpa_auto_refresh_quota.Auths.{Auth, string_set, auth_eligible}
use cpa_auto_refresh_quota.Transaction.Begin.{override_file, begin_priority_override}
use cpa_auto_refresh_quota.Base.Text.{trim_space, to_lower, equal_fold, byte_length}
use cpa_auto_refresh_quota.Host.Sample.{
  World, credential, file_with, host, saved_files, host-Records,
}
use cpa_auto_refresh_quota.Service.Invariant.{Action, run, new_service-Inv, shuts_down}
use cpa_auto_refresh_quota.Config.Parse.{disabled_config}
use cpa_auto_refresh_quota.Override.Sample.{Value, file_marker, json}
use cpa_auto_refresh_quota.Execution.Loop.{run_targets}
use cpa_auto_refresh_quota.Execution.Run.{execute_run}
use cpa_auto_refresh_quota.Execution.Calls.{interleave}
use cpa_auto_refresh_quota.Execution.Report.{report_of-IsFresh, Ending, Ends, execute_run-Ends}
use cpa_auto_refresh_quota.Execution.Files.{IsTidy, execute_run-IsTidy}
use cpa_auto_refresh_quota.Execution.Shown.{AllShow, execute_run-AllShow}
use cpa_auto_refresh_quota.Execution.Finish.{run_finishes}
use cpa_auto_refresh_quota.Service.{RunReport, new_service}
use cpa_auto_refresh_quota.Config.{Config}
use cpa_auto_refresh_quota.Base.{
  ℕ, String, ◌≡◌, refl, true, false, none, some, List, [], ◌∷◌, Result, ok,
}
use cpa_auto_refresh_quota.Base.Int.{pos}

abbrev cfg : Config
cfg = record disabled_config {
  host_enabled = true;
  model = "m";
  message = "hello";
  temporary_priority = true;
}

abbrev world : World
world = ([], "FILE")

abbrev request : StartRequest
request = record {
  cfg = cfg;
  expected_generation = 0;
  trigger = "manual";
  occurrence_id = "";
  options = record { dry_run = false; auth_indices = [] };
  run_id = some "run-1";
  ctx = 1;
  now = 0;
}

abbrev report : RunReport
report = report_of request "run-1"

abbrev marshal : ChatCompletionRequest → Result String (List ℕ)
marshal q = ok (123 ∷ 125 ∷ [])

abbrev clean : String → String
clean path = path

execute_run-Ends_example :
    Ends json host marshal clean false 1 cfg request.options report
      (execute_run json host marshal clean false 1 cfg request.options report world)
execute_run-Ends_example =
    execute_run-Ends json host marshal clean false 1 cfg request.options report world
      (report_of-IsFresh request "run-1")

starts_run : (start_run new_service request).0 ≡ ok "run-1"
unfolding start_run trim_space is_refused admit_run begin_run
starts_run = refl

-- A shutdown before each call.
abbrev others : ℕ → List Action
others i = shuts_down ∷ []

run_finishes_example :
    let (calls, w') =
      execute_run json host marshal clean false 1 cfg request.options report world in
    let after = run (start_run new_service request).1 (interleave others 0 calls) in
    (final : RunReport) × (after.running ≡ false)
    × (after.active ≡ none)
    × (after.last ≡ some (finished_report final 0))
    × (final.run_id ≡ "run-1")
    × Ending (build_request_body marshal cfg) false final
run_finishes_example =
    run_finishes json host marshal clean false new_service request "run-1" world others
      new_service-Inv starts_run (λ i. tt)

abbrev targets : List Auth
targets = credential "a" (pos 3) ∷ []

abbrev aligned : World
aligned = (record (file_with "FILE") { json = "WRITTEN" } ∷ [], "WRITTEN")

abbrev restored : World
restored = (record (file_with "WRITTEN") { json = "FILE" } ∷ aligned.0, "FILE")

abbrev lease : Lease Value
lease = record { auth_index = "a"; auth_id = "a"; name = "a.json"; marker = file_marker }

begins :
    begin_priority_override json host 1 cfg "run-1" (credential "a" (pos 3)) (pos 9) world
    ≡ ((some lease, none), aligned)
unfolding begin_priority_override has_no_file equal_fold trim_space override_file
    build_priority_override_json byte_length lookup insert wait_for_runtime_priority
begins = refl

restores : restore_priority_override json host cfg (some lease) aligned ≡ (none, restored)
unfolding restore_priority_override restore_priority_file get_auth_file_until
    restore_priority_override_json trim_space byte_length lookup is_same_transaction
    wait_for_runtime_priority remove insert
restores = refl

abbrev done : Attempt
done = record {
  verdict = succeeded;
  result = record {
    auth_index = "a";
    provider = "codex";
    priority = pos 3;
    priority_override_required = true;
    priority_override_to = pos 9;
    outcome = "succeeded";
    status_code = pos 200;
    response_bytes = 0;
    duration_ms = pos 0;
    error = "";
  };
  run_error = "";
  stops = false;
  executed = true;
}

attempt_a :
    attempt json host 1 cfg "run-1" [] (pos 9) true (credential "a" (pos 3)) world
    ≡ (done, restored)
unfolding attempt trim_space auth_eligible to_lower string_set desired_priority_for_auth
    milliseconds_between
attempt_a = rw (begins, restores) refl

no_error :
    (run_targets json host 1 cfg "run-1" [] (pos 9) true targets (report, []) world).0.0.error ≡ ""
unfolding run_targets
no_error = rw attempt_a refl

writes_both :
    saved_files (run_targets json host 1 cfg "run-1" [] (pos 9) true targets (report, []) world).1
    ≡ restored.0
unfolding run_targets
writes_both = rw attempt_a refl

execute_run-IsTidy_example :
    IsTidy json host marshal 1 cfg request.options saved_files host-Records "run-1" false []
      (execute_run json host marshal clean false 1 cfg request.options report world)
execute_run-IsTidy_example =
    execute_run-IsTidy json host marshal 1 cfg request.options saved_files host-Records clean false
      report world

execute_run-AllShow_example :
    AllShow json host marshal 1 cfg
      (execute_run json host marshal clean false 1 cfg request.options report world)
execute_run-AllShow_example =
    execute_run-AllShow json host marshal 1 cfg clean false request.options report world refl refl
