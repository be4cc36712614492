-- ===== src/Execution/Run.antt =====
-- executeRun: listing and recovery, the selection, the dry run, and the loop. It answers its calls of
-- the service, publishActive and finishRun, as each path makes them.
use cpa_auto_refresh_quota.Execution.Loop.{Progress, run_targets}
use cpa_auto_refresh_quota.Execution.{ChatCompletionRequest, build_request_body, aligned_result}
use cpa_auto_refresh_quota.Base.{
  ℕ, String, Bool, true, false, ◌||◌, Option, none, some, List, [], ◌∷◌, ◌++◌, map, if◌then◌else◌,
  length, Result, ok, err,
}
use cpa_auto_refresh_quota.Base.Int.{ℤ}
use cpa_auto_refresh_quota.Auths.{Auth, filter_auths, has_duplicate_auth_identity}
use cpa_auto_refresh_quota.Auths.Priorities.{highest_available_priority, desired_priority_for_auth}
use cpa_auto_refresh_quota.Config.{Config}
use cpa_auto_refresh_quota.Errors.{sanitize_error}
use cpa_auto_refresh_quota.Host.{Host}
use cpa_auto_refresh_quota.Override.{Json}
use cpa_auto_refresh_quota.Service.Invariant.{Action, publishes_active, finishes_run}
use cpa_auto_refresh_quota.Service.{AuthResult, RunReport, ManualRunOptions}
use cpa_auto_refresh_quota.Transaction.Recovery.{recover_stale_priority_overrides}

-- The result of a credential in a dry run.
unfoldable pub selected_result : Config → ℤ → Bool → Auth → AuthResult
unfolding aligned_result
selected_result cfg highest found auth =
    record (aligned_result cfg (desired_priority_for_auth auth highest found) auth) {
      outcome = "selected";
    }

abbrev pub list_failed : String
list_failed = "host auth listing failed"

abbrev pub recovery_failed : String
recovery_failed = "stale auth priority restoration failed"

abbrev pub relist_failed : String
relist_failed = "host auth listing failed after priority recovery"

abbrev pub duplicate_identities : String
duplicate_identities = "host auth listing contains duplicate auth identities"

abbrev pub targets_of : Config → ManualRunOptions → List Auth → List Auth
targets_of cfg options auths = filter_auths cfg auths options.auth_indices

-- `s.finishRun(report)` at the end of a path, after the reports that were published.
abbrev pub finish_with : {W : Type 0} → Host W → Progress × W → List Action × W
finish_with host ((report, published), w) =
    (map publishes_active published ++ finishes_run report (host.now w) ∷ [], w)

module _ {V : Type 0} (json : Json V) {W : Type 0} (host : Host W)
    (marshal : ChatCompletionRequest → Result String (List ℕ)) (ctx : ℕ) (cfg : Config) where
  -- A run that ends before its targets are known.
  unfoldable pub fail_run : String → RunReport → W → List Action × W
  fail_run error report w =
      let report' = record report {
        error = error;
        canceled = report.canceled || host.is_done ctx w;
      } in
      finish_with host ((report', []), w)

  -- The loop, with the body of its requests.
  unfoldable pub send_requests :
      List Auth → List Auth → RunReport → Result String (List ℕ) → W → List Action × W
  send_requests auths targets report (err e) w =
      finish_with host ((record report { error = sanitize_error e }, report ∷ []), w)
  send_requests auths targets report (ok body) w =
      let (highest, found) = highest_available_priority auths in
      finish_with host (
        run_targets json host ctx cfg report.run_id body highest found targets (report, report ∷ [])
          w)

module _ {V : Type 0} (json : Json V) {W : Type 0} (host : Host W)
    (marshal : ChatCompletionRequest → Result String (List ℕ)) (clean : String → String)
    (is_windows : Bool) (ctx : ℕ) (cfg : Config) (options : ManualRunOptions) where
  -- From `targets :=` on.
  unfoldable pub execute_listed : RunReport → List Auth → W → List Action × W
  unfolding send_requests selected_result
  execute_listed report auths w =
      let targets = targets_of cfg options auths in
      let (highest, found) = highest_available_priority auths in
      let report' = record report { target_count = length targets } in
      if has_duplicate_auth_identity targets
      then finish_with host ((record report' { error = duplicate_identities }, report' ∷ []), w)
      else if options.dry_run
      then finish_with host (
        (
          record report' {
            results = report'.results ++ map (selected_result cfg highest found) targets;
          },
          report' ∷ [],
        ),
        w,
      )
      else send_requests json host marshal ctx cfg auths targets report'
          (build_request_body marshal cfg) w

  abbrev pub execute_relisted : RunReport → Option (List Auth) × W → List Action × W
  execute_relisted report (none, w) = fail_run json host marshal ctx cfg relist_failed report w
  execute_relisted report (some auths, w) = execute_listed report auths w

  -- On what the recovery answered: whether it wrote, and whether it failed.
  abbrev pub execute_recovered : RunReport → List Auth → (Bool × Bool) × W → List Action × W
  execute_recovered report auths ((recovered, true), w) =
      fail_run json host marshal ctx cfg recovery_failed report w
  execute_recovered report auths ((true, false), w) =
      execute_relisted report (host.list_auths ctx w)
  execute_recovered report auths ((false, false), w) = execute_listed report auths w

  abbrev pub execute_first : RunReport → Option (List Auth) × W → List Action × W
  execute_first report (none, w) = fail_run json host marshal ctx cfg list_failed report w
  execute_first report (some auths, w) =
      execute_recovered report auths
        (recover_stale_priority_overrides json host clean is_windows ctx cfg auths w)

  unfoldable pub execute_run : RunReport → W → List Action × W
  unfolding execute_listed fail_run
  execute_run report w = execute_first report (host.list_auths ctx w)
