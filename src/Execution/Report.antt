-- ===== src/Execution/Report.antt =====
-- The report that executeRun leaves.
use cpa_auto_refresh_quota.Execution.Counts.{counted, Accounts, run_targets-Accounts}
use cpa_auto_refresh_quota.Execution.Calls.{Finishes}
use cpa_auto_refresh_quota.Execution.Loop.{run_targets}
use cpa_auto_refresh_quota.Execution.Run.{
  selected_result, list_failed, recovery_failed, relist_failed, targets_of, fail_run, send_requests,
  execute_listed, execute_relisted, execute_recovered, execute_first, execute_run,
}
use cpa_auto_refresh_quota.Execution.{ChatCompletionRequest, build_request_body}
use cpa_auto_refresh_quota.Errors.{sanitize_error}
use cpa_auto_refresh_quota.Base.{
  ℕ, ◌+◌, ◌≤◌, String, ◌≡◌, refl, ◌∙◌, ◌≢◌, ◌⊎◌, inl, inr, Bool, true, false, Option, none, some,
  List, [], ◌∷◌, map, arith, ◌==◌, eq_iff, Bool-cases, length, length-append, length-map, Result,
  ok, err,
}
use cpa_auto_refresh_quota.Auths.{Auth, has_duplicate_auth_identity}
use cpa_auto_refresh_quota.Auths.Priorities.{highest_available_priority}
use cpa_auto_refresh_quota.Config.{Config}
use cpa_auto_refresh_quota.Host.{Host}
use cpa_auto_refresh_quota.Override.{Json}
use cpa_auto_refresh_quota.Service.{RunReport, ManualRunOptions}
use cpa_auto_refresh_quota.Service.Invariant.{Action}
use cpa_auto_refresh_quota.Service.Runs.{StartRequest, report_of}

-- A report as startRun makes it: nothing counted, no result, no error.
pub record IsFresh (report : RunReport) : Type 0 where
  pub uncounted : counted report ≡ 0
  pub no_results : length report.results ≡ 0
  pub no_target : report.target_count ≡ 0

pub report_of-IsFresh : (q : StartRequest) (run_id : String) → IsFresh (report_of q run_id)
report_of-IsFresh q run_id = record { uncounted = refl; no_results = refl; no_target = refl }

-- How a run ends. Refused: nothing is counted and an error says why, where it is no failure of
-- json.Marshal. Dry: nothing is counted, one result for each target. Sent: each target is counted
-- once, and has its result unless the run was canceled or ended with an error.
pub data Ending (build : Result String (List ℕ)) (dry_run : Bool) (after : RunReport) : Type 0 where
  was_refused :
      counted after ≡ 0
      → length after.results ≡ 0
      → (after.error ≢ "") ⊎ ((e : String) × (build ≡ err e) × (after.error ≡ sanitize_error e))
      → Ending build dry_run after
  was_dry :
      dry_run ≡ true
      → counted after ≡ 0
      → length after.results ≡ after.target_count
      → Ending build dry_run after
  was_sent :
      dry_run ≡ false
      → counted after ≡ after.target_count
      → length after.results ≤ after.target_count
      → (after.canceled ≡ true) ⊎ (after.error ≢ "") ⊎ (length after.results ≡ after.target_count)
      → Ending build dry_run after

is_complete :
    (n m : ℕ) (before after : RunReport)
    → Accounts n before after
    → length before.results + n ≡ m
    → (after.canceled ≡ true) ⊎ (after.error ≢ "") ⊎ (length after.results ≡ m)
is_complete n m before after h e = elim (Bool-cases after.canceled) [
  | inl c ↦ inl c
  | inr c ↦ elim (Bool-cases (after.error == "")) [
    | inl x ↦ inr (inr (h.complete c ((eq_iff after.error "").0 x) ∙ e))
    | inr x ↦ inr (inl (λ y. ground (arith, x, y, eq_iff after.error "")))
  ]
]

module _ {V : Type 0} (json : Json V) {W : Type 0} (host : Host W)
    (marshal : ChatCompletionRequest → Result String (List ℕ)) (ctx : ℕ) (cfg : Config) where
  -- The last call ends the same run.
  abbrev pub IsEndOf : RunReport → Bool → List Action × W → Type 0
  IsEndOf report dry_run = Finishes host (λ final.
      (final.run_id ≡ report.run_id) × Ending (build_request_body marshal cfg) dry_run final)

  send_requests-Ends :
      (auths targets : List Auth) (report : RunReport) (body : Result String (List ℕ)) (w : W)
      → build_request_body marshal cfg ≡ body
      → counted report ≡ 0
      → length report.results ≡ 0
      → report.target_count ≡ length targets
      → IsEndOf report false (send_requests json host marshal ctx cfg auths targets report body w)
  unfolding send_requests
  send_requests-Ends auths targets report (err e) w built c r t =
      (report ∷ [], _, refl, (refl, was_refused c r (inr (e, built, refl))))
  send_requests-Ends auths targets report (ok body) w built c r t =
      let (highest, found) = highest_available_priority auths in
      let st =
        (run_targets json host ctx cfg report.run_id body highest found targets
          (report, report ∷ []) w).0 in
      let h =
        run_targets-Accounts json host ctx cfg report.run_id body highest found targets report
          (report ∷ []) w in
      (
        st.1,
        st.0,
        refl,
        (
          h.same_id,
          was_sent refl (omega (arith, h.count, h.same_targets))
              (omega (arith, h.few_results, h.same_targets))
              (is_complete (length targets) _ report _ h (omega (arith, h.same_targets))),
        ),
      )

module _ {V : Type 0} (json : Json V) {W : Type 0} (host : Host W)
    (marshal : ChatCompletionRequest → Result String (List ℕ)) (clean : String → String)
    (is_windows : Bool) (ctx : ℕ) (cfg : Config) (options : ManualRunOptions) where
  abbrev pub Ends : RunReport → List Action × W → Type 0
  Ends report = IsEndOf json host marshal ctx cfg report options.dry_run

  fail_run-Ends :
      (error : String) (report : RunReport) (w : W)
      → IsFresh report
      → error ≢ ""
      → Ends report (fail_run json host marshal ctx cfg error report w)
  unfolding fail_run
  fail_run-Ends error report w fresh named =
      ([], _, refl, (refl, was_refused fresh.uncounted fresh.no_results (inl named)))

  execute_listed-Ends :
      (report : RunReport) (auths : List Auth) (w : W)
      → IsFresh report
      → Ends report
          (execute_listed json host marshal clean is_windows ctx cfg options report auths w)
  unfolding execute_listed
  execute_listed-Ends report auths w fresh =
      let targets = targets_of cfg options auths in
      elim (Bool-cases (has_duplicate_auth_identity targets)) [
        | inl e ↦ rw e (
            (_ ∷ [], _, refl, (refl, was_refused fresh.uncounted fresh.no_results (inl (λ x. cc)))))
        | inr e ↦ rw e (elim (Bool-cases options.dry_run) [
          | inl d ↦ rw d (
            _ ∷ [],
            _,
            refl,
            (
              refl,
              was_dry refl fresh.uncounted (
                  omega (
                    arith,
                    fresh.no_results,
                    length-append report.results (
                        map
                          (selected_result cfg (highest_available_priority auths).0
                            (highest_available_priority auths).1)
                          targets),
                    length-map
                        (selected_result cfg (highest_available_priority auths).0
                          (highest_available_priority auths).1)
                        targets,
                  )),
            ),
          )
          | inr d ↦ rw d (
              send_requests-Ends json host marshal ctx cfg auths targets _
                (build_request_body marshal cfg) w refl fresh.uncounted fresh.no_results refl)
        ])
      ]

  execute_relisted-Ends :
      (report : RunReport) (listed : Option (List Auth) × W)
      → IsFresh report
      → Ends report
          (execute_relisted json host marshal clean is_windows ctx cfg options report listed)
  execute_relisted-Ends report (none, w) fresh =
      fail_run-Ends relist_failed report w fresh (λ x. cc)
  execute_relisted-Ends report (some auths, w) fresh = execute_listed-Ends report auths w fresh

  execute_recovered-Ends :
      (report : RunReport) (auths : List Auth) (recovered : (Bool × Bool) × W)
      → IsFresh report
      → Ends report (
          execute_recovered json host marshal clean is_windows ctx cfg options report auths
            recovered)
  execute_recovered-Ends report auths ((recovered, true), w) fresh =
      fail_run-Ends recovery_failed report w fresh (λ x. cc)
  execute_recovered-Ends report auths ((true, false), w) fresh =
      execute_relisted-Ends report (host.list_auths ctx w) fresh
  execute_recovered-Ends report auths ((false, false), w) fresh =
      execute_listed-Ends report auths w fresh

  execute_first-Ends :
      (report : RunReport) (listed : Option (List Auth) × W)
      → IsFresh report
      → Ends report (execute_first json host marshal clean is_windows ctx cfg options report listed)
  execute_first-Ends report (none, w) fresh = fail_run-Ends list_failed report w fresh (λ x. cc)
  execute_first-Ends report (some auths, w) fresh = execute_recovered-Ends report auths _ fresh

  -- A run that starts with a fresh report ends, in every world, with one call of finishRun, after which
  -- it makes no other and before which it only publishes reports. The report of that call keeps the run's id, and the
  -- run was refused, with nothing counted, no result and the error that says why; or it was dry,
  -- with nothing counted and one result for each target; or it was sent, with each target counted
  -- once, as succeeded, failed or skipped, and at most one result for each target, exactly one where
  -- the report shows neither a cancellation nor an error.
  pub execute_run-Ends :
      (report : RunReport) (w : W)
      → IsFresh report
      → Ends report (execute_run json host marshal clean is_windows ctx cfg options report w)
  unfolding execute_run
  execute_run-Ends report w fresh = execute_first-Ends report (host.list_auths ctx w) fresh
