-- ===== src/Execution/Shown.antt =====
-- What the reports say that executeRun publishes and ends with.
use cpa_auto_refresh_quota.Execution.Texts.{Fits, Reports, attempt-Reports, was_selected}
use cpa_auto_refresh_quota.Execution.Loop.{
  record_attempt, skip_rest, cancel_rest, Next, Progress, after_attempt, leave, run_targets,
  goes_on, is_canceled, is_over,
}
use cpa_auto_refresh_quota.Execution.Round.{attempt}
use cpa_auto_refresh_quota.Execution.Run.{
  selected_result, list_failed, recovery_failed, relist_failed, targets_of, finish_with, fail_run,
  send_requests, execute_listed, execute_relisted, execute_recovered, execute_first, execute_run,
}
use cpa_auto_refresh_quota.Execution.{
  ChatCompletionRequest, build_request_body, Attempt, aligned_result,
}
use cpa_auto_refresh_quota.Errors.{sanitize_error}
use cpa_auto_refresh_quota.Auths.{Auth, has_duplicate_auth_identity}
use cpa_auto_refresh_quota.Auths.Priorities.{highest_available_priority}
use cpa_auto_refresh_quota.Base.{
  ℕ, String, ◌≡◌, refl, ◌⊎◌, inl, inr, Bool, true, false, Option, none, some, List, [], ◌∷◌, ◌++◌,
  map, arith, ◌==◌, eq_iff, Bool-cases, length, is_empty, All, All-append, Result, ok, err,
}
use cpa_auto_refresh_quota.Base.Dict.{contains}
use cpa_auto_refresh_quota.Base.Int.{ℤ}
use cpa_auto_refresh_quota.Config.{Config}
use cpa_auto_refresh_quota.Host.{Host}
use cpa_auto_refresh_quota.Override.{Json}
use cpa_auto_refresh_quota.Service.Invariant.{Action, publishes_active, finishes_run}
use cpa_auto_refresh_quota.Service.{RunReport, ManualRunOptions}

abbrev pub run_errors : List String
run_errors =
    "" ∷ "host auth listing failed" ∷ "stale auth priority restoration failed"
    ∷ "host auth listing failed after priority recovery"
    ∷ "host auth listing contains duplicate auth identities"
    ∷ "auth priority restore failed; remaining credentials were not attempted" ∷ []

-- Each result fits its outcome, and the run's error is a fixed one, or what sanitizeError leaves of
-- a failure of json.Marshal.
pub record IsClean (build : Result String (List ℕ)) (report : RunReport) : Type 0 where
  pub results : All Fits report.results
  pub error :
      (contains report.error run_errors ≡ true)
      ⊎ ((e : String) × (build ≡ err e) × (report.error ≡ sanitize_error e))

-- A call of publishActive or finishRun with such a report.
pub data Shows (build : Result String (List ℕ)) : Action → Type 0 where
  shows_active : (report : RunReport) → IsClean build report → Shows build (publishes_active report)
  shows_last :
      (report : RunReport) (now : ℕ) → IsClean build report → Shows build (finishes_run report now)

module _ (build : Result String (List ℕ)) where
  abbrev Clean : Progress → Type 0
  Clean st = IsClean build st.0 × All (IsClean build) st.1

  finish_with-Shows :
      {W : Type 0} (host : Host W) (final : RunReport) (published : List RunReport) (w : W)
      → Clean (final, published)
      → All (Shows build) (finish_with host ((final, published), w)).0
  finish_with-Shows host final [] w h = (shows_last final (host.now w) h.0, tt)
  finish_with-Shows host final (p ∷ published) w h =
      (shows_active p h.1.0, finish_with-Shows host final published w (h.0, h.1.1))

  record_attempt-IsClean :
      (report : RunReport) (a : Attempt)
      → IsClean build report
      → Reports a
      → IsClean build (record_attempt report a)
  unfolding record_attempt contains
  record_attempt-IsClean report a h reports = record {
    results = All-append Fits report.results (a.result ∷ []) h.results (reports.0, tt);
    error = elim (Bool-cases (a.run_error == "")) [
      | inl e ↦ rw e h.error
      | inr e ↦ rw e (elim reports.1 [
        | inl x ↦ ground (arith, e, x, eq_iff a.run_error "")
        | inr x ↦ rw x (inl refl)
      ])
    ];
  }

  leave-Clean :
      {W : Type 0} (next : Next) (st : Progress) (left : ℕ) (w : W) (rest : Progress × W)
      → Clean st
      → Clean rest.0
      → Clean (leave next st left w rest).0
  unfolding leave skip_rest cancel_rest
  leave-Clean goes_on st left w rest h later = later
  leave-Clean is_canceled (report, published) left w rest h later =
      (record { results = h.0.results; error = h.0.error }, h.1)
  leave-Clean is_over (report, published) left w rest h later =
      (record { results = h.0.results; error = h.0.error }, h.1)

  module _ {V : Type 0} (json : Json V) {W : Type 0} (host : Host W) (ctx : ℕ) (cfg : Config)
      (run_id : String) (body : List ℕ) (highest : ℤ) (found : Bool) where
    run_targets-Clean :
        (targets : List Auth) (st : Progress) (w : W)
        → Clean st
        → Clean (run_targets json host ctx cfg run_id body highest found targets st w).0
    unfolding run_targets cancel_rest
    run_targets-Clean [] st w h = h
    run_targets-Clean (listed ∷ targets) (report, published) w h =
        let (a, w1) = attempt json host ctx cfg run_id body highest found listed w in
        let report' = record_attempt report a in
        let (next, w2) = after_attempt host ctx cfg.delay_between_auths (is_empty targets) a w1 in
        let clean =
          record_attempt-IsClean report a h.0
            (attempt-Reports json host ctx cfg run_id body highest found listed w) in
        let h' : Clean (report', published ++ report' ∷ []) =
          (clean, All-append (IsClean build) published (report' ∷ []) h.1 (clean, tt)) in
        let rest = run_targets-Clean targets (report', published ++ report' ∷ []) w2 h' in
        elim (Bool-cases (host.is_done ctx w)) [
          | inl e ↦ rw e (record { results = h.0.results; error = h.0.error }, h.1)
          | inr e ↦
              rw e (
                leave-Clean next (report', published ++ report' ∷ []) (length targets) w2 _ h' rest)
        ]

selected-Fits :
    (cfg : Config) (highest : ℤ) (found : Bool) (auths : List Auth)
    → All Fits (map (selected_result cfg highest found) auths)
unfolding selected_result aligned_result
selected-Fits cfg highest found [] = tt
selected-Fits cfg highest found (auth ∷ auths) =
    (was_selected refl refl, selected-Fits cfg highest found auths)

module _ {V : Type 0} (json : Json V) {W : Type 0} (host : Host W)
    (marshal : ChatCompletionRequest → Result String (List ℕ)) (ctx : ℕ) (cfg : Config) where
  -- Of a path of the run: each of its calls shows a clean report.
  abbrev pub AllShow : List Action × W → Type 0
  AllShow r = All (Shows (build_request_body marshal cfg)) r.0

  fail_run-AllShow :
      (error : String) (report : RunReport) (w : W)
      → contains error run_errors ≡ true
      → IsClean (build_request_body marshal cfg) report
      → AllShow (fail_run json host marshal ctx cfg error report w)
  unfolding fail_run
  fail_run-AllShow error report w named h =
      (shows_last _ (host.now w) (record { results = h.results; error = inl named }), tt)

  send_requests-AllShow :
      (auths targets : List Auth) (report : RunReport) (body : Result String (List ℕ)) (w : W)
      → build_request_body marshal cfg ≡ body
      → IsClean (build_request_body marshal cfg) report
      → AllShow (send_requests json host marshal ctx cfg auths targets report body w)
  unfolding send_requests
  send_requests-AllShow auths targets report (err e) w built h =
      finish_with-Shows _ host _ (report ∷ []) w
        (record { results = h.results; error = inr (e, built, refl) }, (h, tt))
  send_requests-AllShow auths targets report (ok body) w built h =
      let (highest, found) = highest_available_priority auths in
      finish_with-Shows _ host _ _ _ (
        run_targets-Clean _ json host ctx cfg report.run_id body highest found targets
          (report, report ∷ []) w (h, (h, tt)))

  module _ (clean : String → String) (is_windows : Bool) (options : ManualRunOptions) where
    execute_listed-AllShow :
        (report : RunReport) (auths : List Auth) (w : W)
        → IsClean (build_request_body marshal cfg) report
        → AllShow (execute_listed json host marshal clean is_windows ctx cfg options report auths w)
    unfolding execute_listed contains
    execute_listed-AllShow report auths w h =
        let (highest, found) = highest_available_priority auths in
        let targets = targets_of cfg options auths in
        let counted : RunReport = record report { target_count = length targets } in
        let h' : IsClean (build_request_body marshal cfg) counted = record {
          results = h.results;
          error = h.error;
        } in
        elim (Bool-cases (has_duplicate_auth_identity targets)) [
          | inl e ↦ rw e (
              finish_with-Shows _ host _ (counted ∷ []) w
                (record { results = h.results; error = inl refl }, (h', tt)))
          | inr e ↦ rw e (elim (Bool-cases options.dry_run) [
            | inl d ↦ rw d (
                finish_with-Shows _ host _ (counted ∷ []) w (
                  record {
                    results =
                        All-append Fits report.results _ h.results
                          (selected-Fits cfg highest found targets);
                    error = h.error;
                  },
                  (h', tt),
                ))
            | inr d ↦ rw d (
                send_requests-AllShow auths targets counted (build_request_body marshal cfg) w refl
                  h')
          ])
        ]

    execute_relisted-AllShow :
        (report : RunReport) (listed : Option (List Auth) × W)
        → IsClean (build_request_body marshal cfg) report
        → AllShow
            (execute_relisted json host marshal clean is_windows ctx cfg options report listed)
    unfolding contains
    execute_relisted-AllShow report (none, w) h = fail_run-AllShow relist_failed report w refl h
    execute_relisted-AllShow report (some auths, w) h = execute_listed-AllShow report auths w h

    execute_recovered-AllShow :
        (report : RunReport) (auths : List Auth) (recovered : (Bool × Bool) × W)
        → IsClean (build_request_body marshal cfg) report
        → AllShow (
            execute_recovered json host marshal clean is_windows ctx cfg options report auths
              recovered)
    unfolding contains
    execute_recovered-AllShow report auths ((recovered, true), w) h =
        fail_run-AllShow recovery_failed report w refl h
    execute_recovered-AllShow report auths ((true, false), w) h =
        execute_relisted-AllShow report (host.list_auths ctx w) h
    execute_recovered-AllShow report auths ((false, false), w) h =
        execute_listed-AllShow report auths w h

    execute_first-AllShow :
        (report : RunReport) (listed : Option (List Auth) × W)
        → IsClean (build_request_body marshal cfg) report
        → AllShow (execute_first json host marshal clean is_windows ctx cfg options report listed)
    unfolding contains
    execute_first-AllShow report (none, w) h = fail_run-AllShow list_failed report w refl h
    execute_first-AllShow report (some auths, w) h = execute_recovered-AllShow report auths _ h

    -- Whatever the host and the request's errors say, each report that a run publishes or ends with shows
    -- only fixed texts, where its first report has no result and no error: each result fits its
    -- outcome, "succeeded" only with a status from 200 to 299 and no error, "failed" with the text of
    -- its status or one of the fixed texts, "skipped" with a reason of AuthEligible; and the run's
    -- error is a fixed text, or what sanitizeError leaves of a failure of json.Marshal.
    pub execute_run-AllShow :
        (report : RunReport) (w : W)
        → report.results ≡ []
        → report.error ≡ ""
        → AllShow (execute_run json host marshal clean is_windows ctx cfg options report w)
    unfolding execute_run contains
    execute_run-AllShow report w no_results no_error =
        execute_first-AllShow report (host.list_auths ctx w)
          (record { results = rw no_results tt; error = inl (rw no_error refl) })
