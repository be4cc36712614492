-- ===== src/Execution/Texts.antt =====
-- What the results of a round say: an outcome and a text that fits it.
use cpa_auto_refresh_quota.Execution.Round.{
  timed, request_of, abandon_override, execute_request, attempt_begun, attempt_eligible, IsChecked,
  attempt, attempt_cases,
}
use cpa_auto_refresh_quota.Execution.{
  Verdict, Attempt, verdict_on, restore_failed, aligned_result, is_success, http_error,
  settle_attempt, failed,
}
use cpa_auto_refresh_quota.Transaction.Begin.{Begun}
use cpa_auto_refresh_quota.Transaction.Restore.{restore_priority_override}
use cpa_auto_refresh_quota.Transaction.{TransactionError}
use cpa_auto_refresh_quota.Pins.Execute.{ModelResponse}
use cpa_auto_refresh_quota.Errors.{safe_execution_error}
use cpa_auto_refresh_quota.Auths.{Auth, auth_eligible}
use cpa_auto_refresh_quota.Base.{
  ℕ, String, ◌≡◌, refl, ◌⊎◌, inl, inr, Bool, true, false, Option, none, some, List, [], ◌∷◌,
  if◌then◌else◌, Bool-cases, is_some, Result, ok, err,
}
use cpa_auto_refresh_quota.Base.Dict.{contains}
use cpa_auto_refresh_quota.Base.Int.{ℤ}
use cpa_auto_refresh_quota.Config.{Config}
use cpa_auto_refresh_quota.Host.{Host}
use cpa_auto_refresh_quota.Override.{Json}
use cpa_auto_refresh_quota.Service.{AuthResult}

abbrev pub reasons : List String
reasons =
    "missing_auth_id" ∷ "missing_auth_index" ∷ "disabled" ∷ "unavailable" ∷ "not_physical_file"
    ∷ "provider_not_selected" ∷ "auth_not_included" ∷ "auth_excluded" ∷ []

abbrev pub failures : List String
failures =
    "runtime auth check failed" ∷ "runtime auth index mismatch" ∷ "runtime auth id mismatch"
    ∷ "temporary auth priority update failed" ∷ "auth priority restore failed"
    ∷ "CPA scheduler did not select target auth" ∷ "target auth is unavailable to CPA scheduler"
    ∷ "CPA routing token was rejected" ∷ "host auth manager is unavailable"
    ∷ "host model executor is unavailable" ∷ "context canceled" ∷ "context deadline exceeded"
    ∷ "host model execution failed" ∷ []

-- The results there are: of a dry run; of a response with a status from 200 to 299, and of another
-- one, with this status; of a credential that is not eligible any more, with the reason; and of a
-- failure, with one of the fixed texts.
pub data Fits (r : AuthResult) : Type 0 where
  was_selected : r.outcome ≡ "selected" → r.error ≡ "" → Fits r
  was_answered : r.outcome ≡ "succeeded" → is_success r.status_code ≡ true → r.error ≡ "" → Fits r
  was_rejected :
      r.outcome ≡ "failed"
      → is_success r.status_code ≡ false
      → r.error ≡ http_error r.status_code
      → Fits r
  was_skipped : r.outcome ≡ "skipped" → contains r.error reasons ≡ true → Fits r
  was_failed : r.outcome ≡ "failed" → contains r.error failures ≡ true → Fits r

record IsReason (r : Bool × String) : Type 0 where
  pub listed : r.0 ≡ false → contains r.1 reasons ≡ true

choose-IsReason :
    (b : Bool) (x y : Bool × String) → IsReason x → IsReason y → IsReason (if b then x else y)
choose-IsReason true x y hx hy = hx
choose-IsReason false x y hx hy = hy

reason : (text : String) → contains text reasons ≡ true → IsReason (false, text)
reason text h = record { listed = λ e. h }

eligible-IsReason : IsReason (true, "")
eligible-IsReason = record { listed = λ e. cc }

auth_eligible-IsReason : (cfg : Config) (auth : Auth) → IsReason (auth_eligible cfg auth)
unfolding auth_eligible contains
auth_eligible-IsReason cfg auth = choose-IsReason _ _ _ (reason "missing_auth_id" refl) (
    choose-IsReason _ _ _ (reason "missing_auth_index" refl) (
      choose-IsReason _ _ _ (reason "disabled" refl) (
        choose-IsReason _ _ _ (reason "unavailable" refl) (
          choose-IsReason _ _ _ (reason "not_physical_file" refl) (
            choose-IsReason _ _ _ (reason "provider_not_selected" refl) (
              choose-IsReason _ _ _ (reason "auth_not_included" refl)
                (choose-IsReason _ _ _ (reason "auth_excluded" refl) (eligible-IsReason))))))))

record IsFailure (text : String) : Type 0 where
  pub listed : contains text failures ≡ true

choose-IsFailure :
    (b : Bool) (x y : String) → IsFailure x → IsFailure y → IsFailure (if b then x else y)
choose-IsFailure true x y hx hy = hx
choose-IsFailure false x y hx hy = hy

failure : (text : String) → contains text failures ≡ true → IsFailure text
failure text h = record { listed = h }

safe_execution_error-IsFailure : (e : String) → IsFailure (safe_execution_error e)
unfolding safe_execution_error contains
safe_execution_error-IsFailure e =
    choose-IsFailure _ _ _ (failure "CPA scheduler did not select target auth" refl) (
      choose-IsFailure _ _ _ (failure "target auth is unavailable to CPA scheduler" refl) (
        choose-IsFailure _ _ _ (failure "CPA routing token was rejected" refl) (
          choose-IsFailure _ _ _ (failure "host auth manager is unavailable" refl) (
            choose-IsFailure _ _ _ (failure "host model executor is unavailable" refl) (
              choose-IsFailure _ _ _ (failure "context canceled" refl) (
                choose-IsFailure _ _ _ (failure "context deadline exceeded" refl)
                  (failure "host model execution failed" refl)))))))

-- Of a round: its result fits, and what it writes to the report's error is fixed.
abbrev pub Reports : Attempt → Type 0
Reports a = Fits a.result × ((a.run_error ≡ "") ⊎ (a.run_error ≡ restore_failed))

fails :
    (text : String) (result : AuthResult)
    → contains text failures ≡ true
    → Reports (verdict_on failed text result)
fails text result h = (was_failed refl h, inl refl)

settle_attempt-Reports :
    (result : AuthResult) (e : Option TransactionError) (reply : Result String ModelResponse)
    → result.error ≡ ""
    → Reports (settle_attempt result e reply)
unfolding settle_attempt contains
settle_attempt-Reports result (some e) reply h = (was_failed refl refl, inr refl)
settle_attempt-Reports result none (err e) h =
    fails _ result (safe_execution_error-IsFailure e).listed
settle_attempt-Reports result none (ok response) h =
    elim (Bool-cases (is_success response.status_code)) [
      | inl e ↦ rw e (was_answered refl e h, inl refl)
      | inr e ↦ rw e (was_rejected refl e refl, inl refl)
    ]

module _ {V : Type 0} (json : Json V) {W : Type 0} (host : Host W) (ctx : ℕ) (cfg : Config)
    (run_id : String) (body : List ℕ) (highest : ℤ) (found : Bool) where
  attempt_begun-Reports :
      (auth : Auth) (result : AuthResult) (started : ℕ) (begun : Begun V × W)
      → result.error ≡ ""
      → Reports
          (attempt_begun json host ctx cfg run_id body highest found auth result started begun).0
  unfolding attempt_begun abandon_override execute_request contains
  attempt_begun-Reports auth result started ((lease, some e), w) h =
      elim (Bool-cases (is_some (restore_priority_override json host cfg lease w).0)) [
        | inl q ↦ rw q (was_failed refl refl, inr refl)
        | inr q ↦ rw q (was_failed refl refl, inl refl)
      ]
  attempt_begun-Reports auth result started ((lease, none), w) h =
      let (c, w1) = host.with_timeout ctx cfg.request_timeout w in
      let (reply, w2) =
        host.execute_pinned c (request_of json host ctx cfg run_id body highest found auth) w1 in
      let (e, w3) = restore_priority_override json host cfg lease (host.cancel c w2) in
      settle_attempt-Reports (timed json host ctx cfg run_id body highest found started w3 result) e
        reply h

  check-Reports :
      (verdict : Verdict) (error : String) (result : AuthResult)
      → IsChecked json host ctx cfg run_id body highest found verdict error
      → Reports (verdict_on verdict error result)
  unfolding contains
  check-Reports verdict error result (inl (v, inl e)) = rw (v, e) (fails _ result refl)
  check-Reports verdict error result (inl (v, inr (inl e))) = rw (v, e) (fails _ result refl)
  check-Reports verdict error result (inl (v, inr (inr e))) = rw (v, e) (fails _ result refl)
  check-Reports verdict error result (inr (v, auth, refused, e)) =
      rw (v, e) (was_skipped refl ((auth_eligible-IsReason cfg auth).listed refused), inl refl)

  -- Whatever the host answers, the result of a round fits, and the round writes nothing to the
  -- report's error but that a restoration failed.
  pub attempt-Reports :
      (listed : Auth) (w : W)
      → Reports (attempt json host ctx cfg run_id body highest found listed w).0
  attempt-Reports listed w =
      attempt_cases json host ctx cfg run_id body highest found (λ r. Reports r.0) listed w
        (λ verdict error result h. check-Reports verdict error result h)
        (λ auth _ _ _ _.
          unfold attempt_eligible in
          attempt_begun-Reports auth (aligned_result cfg _ auth) _ _
            (unfold aligned_result in refl))
