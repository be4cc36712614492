-- ===== src/Execution/Round.antt =====
-- One round of executeRun's loop: the checks of the credential, the override, the request and the
-- restoration.
use cpa_auto_refresh_quota.Execution.{
  Verdict, Attempt, verdict_on, unrestored, result_of, aligned_result, settle_attempt, failed,
  skipped,
}
use cpa_auto_refresh_quota.Base.{
  ℕ, String, ◌⊎◌, inl, inr, false, Bool, true, not, Option, none, some, List, [], ◌==◌,
  if◌then◌else◌, Bool-cases, is_some, ◌≡◌, refl, arith, eq_iff,
}
use cpa_auto_refresh_quota.Base.Text.{trim_space}
use cpa_auto_refresh_quota.Base.Int.{ℤ}
use cpa_auto_refresh_quota.Auths.{Auth, auth_eligible}
use cpa_auto_refresh_quota.Auths.Priorities.{desired_priority_for_auth}
use cpa_auto_refresh_quota.Config.{Config}
use cpa_auto_refresh_quota.Host.{Host}
use cpa_auto_refresh_quota.Override.{Json}
use cpa_auto_refresh_quota.Pins.Execute.{PinnedModelRequest}
use cpa_auto_refresh_quota.Service.{AuthResult}
use cpa_auto_refresh_quota.Service.Runs.{milliseconds_between}
use cpa_auto_refresh_quota.Transaction.{Lease}
use cpa_auto_refresh_quota.Transaction.Begin.{Begun, begin_priority_override}
use cpa_auto_refresh_quota.Transaction.Restore.{restore_priority_override}

module _ {V : Type 0} (json : Json V) {W : Type 0} (host : Host W) (ctx : ℕ) (cfg : Config)
    (run_id : String) (body : List ℕ) (highest : ℤ) (found : Bool) where
  -- A result with the time since `started`.
  abbrev pub timed : ℕ → W → AuthResult → AuthResult
  timed started w result = record result { duration_ms = milliseconds_between started (host.now w) }

  abbrev pub request_of : Auth → PinnedModelRequest
  request_of auth = record {
    auth_id = auth.id;
    entry_protocol = cfg.entry_protocol;
    exit_protocol = cfg.exit_protocol;
    model = cfg.model;
    body = body;
    headers = [];
    query = [];
    alt = "";
  }

  -- The priority update failed: what was written of it is restored.
  unfoldable pub abandon_override : AuthResult → ℕ → Option (Lease V) → W → Attempt × W
  abandon_override result started lease w =
      let (unrestored_error, w1) = restore_priority_override json host cfg lease w in
      (
        (if is_some unrestored_error
            then unrestored (timed started w1 result)
            else verdict_on failed "temporary auth priority update failed"
                (timed started w1 result)),
        w1,
      )

  unfoldable pub execute_request : Auth → AuthResult → ℕ → Option (Lease V) → W → Attempt × W
  unfolding settle_attempt
  execute_request auth result started lease w =
      let (execute_ctx, w1) = host.with_timeout ctx cfg.request_timeout w in
      let (reply, w2) = host.execute_pinned execute_ctx (request_of auth) w1 in
      let (restore_error, w3) =
        restore_priority_override json host cfg lease (host.cancel execute_ctx w2) in
      (
        record (settle_attempt (timed started w3 result) restore_error reply) { executed = true },
        w3,
      )

  unfoldable pub attempt_begun : Auth → AuthResult → ℕ → Begun V × W → Attempt × W
  unfolding abandon_override execute_request
  attempt_begun auth result started ((lease, some e), w) = abandon_override result started lease w
  attempt_begun auth result started ((lease, none), w) = execute_request auth result started lease w

  unfoldable pub attempt_eligible : Auth → W → Attempt × W
  unfolding attempt_begun aligned_result
  attempt_eligible auth w =
      let desired = desired_priority_for_auth auth highest found in
      attempt_begun auth (aligned_result cfg desired auth) (host.now w)
        (begin_priority_override json host ctx cfg run_id auth desired w)

  -- The result still shows the listed credential, with the provider of the other.
  abbrev pub with_provider : Auth → Auth → AuthResult
  with_provider listed auth = record (result_of listed) { provider = auth.provider }

  unfoldable pub attempt_found : Auth → Option Auth → W → Attempt × W
  unfolding attempt_eligible
  attempt_found listed none w =
      (verdict_on failed "runtime auth check failed" (result_of listed), w)
  attempt_found listed (some auth) w =
      if not (trim_space auth.auth_index == trim_space listed.auth_index)
      then (verdict_on failed "runtime auth index mismatch" (with_provider listed auth), w)
      else if not (trim_space auth.id == trim_space listed.id)
      then (verdict_on failed "runtime auth id mismatch" (with_provider listed auth), w)
      else if not (auth_eligible cfg auth).0
      then (verdict_on skipped (auth_eligible cfg auth).1 (with_provider listed auth), w)
      else attempt_eligible auth w

  unfoldable pub attempt : Auth → W → Attempt × W
  unfolding attempt_found
  attempt listed w =
      let (auth, w1) = host.get_runtime_auth ctx listed.auth_index w in attempt_found listed auth w1

  -- What a check that fails makes of a credential.
  abbrev pub IsChecked : Verdict → String → Type 0
  IsChecked verdict error =
      ((verdict ≡ failed)
        × ((error ≡ "runtime auth check failed")
            ⊎ (error ≡ "runtime auth index mismatch")
            ⊎ (error ≡ "runtime auth id mismatch")))
      ⊎ ((verdict ≡ skipped)
          × (auth : Auth) × ((auth_eligible cfg auth).0 ≡ false)
          × (error ≡ (auth_eligible cfg auth).1))

  -- A round ends at a check, with nothing done but to ask for the credential, or comes to the rest.
  pub attempt_cases :
      (P : Attempt × W → Type 0) (listed : Auth) (w : W)
      → ((verdict : Verdict) (error : String) (result : AuthResult)
          → IsChecked verdict error
          → P (verdict_on verdict error result, (host.get_runtime_auth ctx listed.auth_index w).1))
      → ((auth : Auth)
          → (host.get_runtime_auth ctx listed.auth_index w).0 ≡ some auth
          → trim_space auth.auth_index ≡ trim_space listed.auth_index
          → trim_space auth.id ≡ trim_space listed.id
          → (auth_eligible cfg auth).0 ≡ true
          → P (attempt_eligible auth (host.get_runtime_auth ctx listed.auth_index w).1))
      → P (attempt listed w)
  unfolding attempt
  attempt_cases P listed w checked eligible =
      found_of (host.get_runtime_auth ctx listed.auth_index w).0
        (host.get_runtime_auth ctx listed.auth_index w).1 checked eligible
    where
      found_of :
          (auth : Option Auth) (w : W)
          → ((verdict : Verdict) (error : String) (result : AuthResult)
              → IsChecked verdict error
              → P (verdict_on verdict error result, w))
          → ((a : Auth)
              → auth ≡ some a
              → trim_space a.auth_index ≡ trim_space listed.auth_index
              → trim_space a.id ≡ trim_space listed.id
              → (auth_eligible cfg a).0 ≡ true
              → P (attempt_eligible a w))
          → P (attempt_found listed auth w)
      found_of none w checked eligible =
          checked failed "runtime auth check failed" (result_of listed) (inl (refl, inl refl))
      found_of (some auth) w checked eligible =
          elim (Bool-cases (not (trim_space auth.auth_index == trim_space listed.auth_index))) [
            | inl e ↦ rw e (
                checked failed "runtime auth index mismatch" (with_provider listed auth)
                  (inl (refl, inr (inl refl))))
            | inr e ↦ rw e (elim (Bool-cases (not (trim_space auth.id == trim_space listed.id))) [
              | inl f ↦ rw f (
                  checked failed "runtime auth id mismatch" (with_provider listed auth)
                    (inl (refl, inr (inr refl))))
              | inr f ↦ rw f (elim (Bool-cases (not (auth_eligible cfg auth).0)) [
                | inl g ↦ rw g (
                    checked skipped (auth_eligible cfg auth).1 (with_provider listed auth)
                      (inr (refl, auth, ground (arith, g), refl)))
                | inr g ↦ rw g (
                    eligible auth refl
                      ((eq_iff (trim_space auth.auth_index) (trim_space listed.auth_index)).0
                        (ground (arith, e)))
                      ((eq_iff (trim_space auth.id) (trim_space listed.id)).0 (ground (arith, f)))
                      (ground (arith, g)))
              ])
            ])
          ]
