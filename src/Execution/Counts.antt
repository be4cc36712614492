-- ===== src/Execution/Counts.antt =====
-- The counts of a run's report, and what is left out of it.
use cpa_auto_refresh_quota.Pins.Execute.{ModelResponse}
use cpa_auto_refresh_quota.Transaction.Begin.{Begun, begin_priority_override}
use cpa_auto_refresh_quota.Auths.Priorities.{desired_priority_for_auth}
use cpa_auto_refresh_quota.Execution.{
  Verdict, Attempt, restore_failed, aligned_result, settle_attempt, succeeded, failed, skipped,
}
use cpa_auto_refresh_quota.Transaction.Restore.{restore_priority_override}
use cpa_auto_refresh_quota.Transaction.Begin.{Begun}
use cpa_auto_refresh_quota.Transaction.{TransactionError}
use cpa_auto_refresh_quota.Host.{Host}
use cpa_auto_refresh_quota.Override.{Json}
use cpa_auto_refresh_quota.Config.{Config}
use cpa_auto_refresh_quota.Auths.{Auth}
use cpa_auto_refresh_quota.Execution.Round.{
  timed, request_of, attempt_begun, attempt_eligible, attempt, attempt_cases,
}
use cpa_auto_refresh_quota.Base.Int.{ℤ}
use cpa_auto_refresh_quota.Execution.Loop.{
  count_verdict, record_attempt, skip_rest, cancel_rest, Next, Progress, after_attempt, leave,
  run_targets, goes_on, is_canceled, is_over,
}
use cpa_auto_refresh_quota.Execution.{
  Verdict, Attempt, restore_failed, settle_attempt, succeeded, failed, skipped,
}
use cpa_auto_refresh_quota.Base.{
  ℕ, suc, ◌+◌, ◌≤◌, String, ◌≡◌, refl, ◌∙◌, ◌≢◌, inl, inr, Bool, true, false, Option, none, some,
  List, [], ◌∷◌, ◌++◌, arith, ◌==◌, if◌then◌else◌, Bool-cases, Option-cases, length, is_empty,
  length-append, Result, ok, err,
}
use cpa_auto_refresh_quota.Service.{AuthResult, RunReport}

abbrev pub counted : RunReport → ℕ
counted report = report.success_count + report.failed_count + report.skipped_count

-- The parts that the loop never changes, the count of `n` more credentials, and that without an
-- error and cancellation every one of them has its result.
pub record Accounts (n : ℕ) (before after : RunReport) : Type 0 where
  pub same_id : after.run_id ≡ before.run_id
  pub same_targets : after.target_count ≡ before.target_count
  pub count : counted after ≡ counted before + n
  pub few_results : length after.results ≤ length before.results + n
  pub complete :
      after.canceled ≡ false → after.error ≡ "" → length after.results ≡ length before.results + n

Accounts-refl : (report : RunReport) → Accounts 0 report report
Accounts-refl report = record {
  same_id = refl;
  same_targets = refl;
  count = omega arith;
  few_results = omega arith;
  complete = λ h e. omega arith;
}

record_attempt-Accounts :
    (report : RunReport) (a : Attempt) → Accounts 1 report (record_attempt report a)
unfolding record_attempt
record_attempt-Accounts report a = verdicts a.verdict
  where
    verdicts :
        (v : Verdict)
        → Accounts 1 report (record (count_verdict report v) {
          error = (if a.run_error == "" then report.error else a.run_error);
          results = report.results ++ a.result ∷ [];
        })
    verdicts succeeded =
        unfold count_verdict in
        record {
          same_id = refl;
          same_targets = refl;
          count = omega arith;
          few_results = omega (arith, length-append report.results (a.result ∷ []));
          complete = λ h e. omega (arith, length-append report.results (a.result ∷ []));
        }
    verdicts failed =
        unfold count_verdict in
        record {
          same_id = refl;
          same_targets = refl;
          count = omega arith;
          few_results = omega (arith, length-append report.results (a.result ∷ []));
          complete = λ h e. omega (arith, length-append report.results (a.result ∷ []));
        }
    verdicts skipped =
        unfold count_verdict in
        record {
          same_id = refl;
          same_targets = refl;
          count = omega arith;
          few_results = omega (arith, length-append report.results (a.result ∷ []));
          complete = λ h e. omega (arith, length-append report.results (a.result ∷ []));
        }

-- A round that ends the run says why in the report's error.
abbrev pub TellsStop : Attempt → Type 0
TellsStop a = a.stops ≡ true → a.run_error ≡ restore_failed

settle_attempt-TellsStop :
    (result : AuthResult) (e : Option TransactionError) (reply : Result String ModelResponse)
    → TellsStop (settle_attempt result e reply)
unfolding settle_attempt
settle_attempt-TellsStop result (some e) reply h = refl
settle_attempt-TellsStop result none (err e) h = cc
settle_attempt-TellsStop result none (ok response) h = ground (arith, h)

leave-Accounts :
    {W : Type 0} (next : Next) (n : ℕ) (before report : RunReport) (published : List RunReport)
    (w : W) (rest : Progress × W)
    → Accounts 1 before report
    → length report.results ≡ length before.results + 1
    → (next ≡ is_over → report.error ≢ "")
    → (next ≡ goes_on → Accounts n report rest.0.0)
    → Accounts (suc n) before (leave next (report, published) n w rest).0.0
unfolding leave
leave-Accounts goes_on n before report published w rest h grown over later =
    let r = later refl in
    record {
      same_id = r.same_id ∙ h.same_id;
      same_targets = r.same_targets ∙ h.same_targets;
      count = omega (arith, r.count, h.count);
      few_results = omega (arith, r.few_results, h.few_results);
      complete = λ c e. omega (arith, r.complete c e, grown);
    }
leave-Accounts is_canceled n before report published w rest h grown over later =
    unfold cancel_rest in
    record {
      same_id = h.same_id;
      same_targets = h.same_targets;
      count = omega (arith, h.count);
      few_results = omega (arith, h.few_results);
      complete = λ c e. cc;
    }
leave-Accounts is_over n before report published w rest h grown over later =
    unfold skip_rest in
    record {
      same_id = h.same_id;
      same_targets = h.same_targets;
      count = omega (arith, h.count);
      few_results = omega (arith, h.few_results);
      complete = λ c e. elim (over refl e) [ ];
    }

pub record_attempt-error :
    (report : RunReport) (a : Attempt)
    → a.run_error ≡ restore_failed
    → (record_attempt report a).error ≢ ""
unfolding record_attempt
record_attempt-error report a h = rw h (λ e. cc)

record_attempt-grown :
    (report : RunReport) (a : Attempt)
    → length (record_attempt report a).results ≡ length report.results + 1
unfolding record_attempt
record_attempt-grown report a = omega (arith, length-append report.results (a.result ∷ []))

module _ {W : Type 0} (host : Host W) (ctx : ℕ) where
  after_attempt-over :
      (delay : ℤ) (is_last : Bool) (a : Attempt) (w : W)
      → TellsStop a
      → (after_attempt host ctx delay is_last a w).0 ≡ is_over
      → a.run_error ≡ restore_failed
  unfolding after_attempt
  after_attempt-over delay is_last a w tells h = ground (arith, h, tells)

module _ {V : Type 0} (json : Json V) {W : Type 0} (host : Host W) (ctx : ℕ) (cfg : Config)
    (run_id : String) (body : List ℕ) (highest : ℤ) (found : Bool) where
  attempt_begun-TellsStop :
      (auth : Auth) (result : AuthResult) (started : ℕ) (begun : Begun V × W)
      → TellsStop
          (attempt_begun json host ctx cfg run_id body highest found auth result started begun).0
  unfolding attempt_begun
  attempt_begun-TellsStop auth result started ((lease, some e), w) =
      elim (Option-cases (restore_priority_override json host cfg lease w).0) [
        | inl q ↦ rw q (λ h. cc)
        | inr (x, q) ↦ rw q (λ h. refl)
      ]
  attempt_begun-TellsStop auth result started ((lease, none), w) =
      let (execute_ctx, w1) = host.with_timeout ctx cfg.request_timeout w in
      let (reply, w2) =
        host.execute_pinned execute_ctx
          (request_of json host ctx cfg run_id body highest found auth) w1 in
      let (restore_error, w3) =
        restore_priority_override json host cfg lease (host.cancel execute_ctx w2) in
      settle_attempt-TellsStop (timed json host ctx cfg run_id body highest found started w3 result)
        restore_error reply

  attempt_eligible-TellsStop :
      (auth : Auth) (w : W)
      → TellsStop (attempt_eligible json host ctx cfg run_id body highest found auth w).0
  unfolding attempt_eligible
  attempt_eligible-TellsStop auth w =
      let desired = desired_priority_for_auth auth highest found in
      attempt_begun-TellsStop auth (aligned_result cfg desired auth) (host.now w)
        (begin_priority_override json host ctx cfg run_id auth desired w)

  pub attempt-TellsStop :
      (listed : Auth) (w : W)
      → TellsStop (attempt json host ctx cfg run_id body highest found listed w).0
  attempt-TellsStop listed w =
      attempt_cases json host ctx cfg run_id body highest found (λ r. TellsStop r.0) listed w
        (λ verdict error result _ h. cc)
        λ auth _ _ _ _.
          attempt_eligible-TellsStop auth (host.get_runtime_auth ctx listed.auth_index w).1

  -- The loop leaves the run's id and target count; each target counts once, as a success, a failure or
  -- as skipped; and without a cancellation and an error every target has its result.
  pub run_targets-Accounts :
      (targets : List Auth) (report : RunReport) (published : List RunReport) (w : W)
      → Accounts
          (length targets)
          report
          (run_targets json host ctx cfg run_id body highest found targets
            (report, published)
            w).0.0
  unfolding run_targets
  run_targets-Accounts [] report published w = Accounts-refl report
  run_targets-Accounts (listed ∷ targets) report published w =
      elim (Bool-cases (host.is_done ctx w)) [
        | inl e ↦ rw e (
            unfold cancel_rest in
            record {
              same_id = refl;
              same_targets = refl;
              count = omega arith;
              few_results = omega arith;
              complete = λ c x. cc;
            })
        | inr e ↦ rw e (
            let (a, w1) = attempt json host ctx cfg run_id body highest found listed w in
            let report' = record_attempt report a in
            let (next, w2) =
              after_attempt host ctx cfg.delay_between_auths (is_empty targets) a w1 in
            leave-Accounts next (length targets) report report' _ w2 _
              (record_attempt-Accounts report a) (record_attempt-grown report a)
              (λ over. record_attempt-error report a (
                after_attempt-over host ctx cfg.delay_between_auths (is_empty targets) a w1
                  (attempt-TellsStop listed w) over))
              (λ on. run_targets-Accounts targets report' (published ++ report' ∷ []) w2))
      ]
