-- ===== src/Execution/RoundWrites.antt =====
-- What one round of the loop writes.
use mathlib.Core.Path.{subst}
use cpa_auto_refresh_quota.Pins.Execute.{ModelResponse}
use cpa_auto_refresh_quota.Execution.Round.{
  timed, request_of, abandon_override, attempt_begun, attempt_eligible, attempt, attempt_cases,
}
use cpa_auto_refresh_quota.Execution.{Attempt, aligned_result, settle_attempt}
use cpa_auto_refresh_quota.Transaction.Writes.{Overrides, begin_priority_override-Writes}
use cpa_auto_refresh_quota.Transaction.Undo.{Restores, Wrote, restore_priority_file-Wrote}
use cpa_auto_refresh_quota.Transaction.Restore.{
  Restoration, restore_priority_file, error_of, restore_priority_override,
}
use cpa_auto_refresh_quota.Transaction.Begin.{Begun, begin_priority_override}
use cpa_auto_refresh_quota.Transaction.{TransactionError, Lease, positive_timeout}
use cpa_auto_refresh_quota.Base.{
  ℕ, String, ◌≡◌, refl, sym, ◌∙◌, ◌≢◌, ◌⊎◌, inl, inr, Bool, true, false, Option, none, some, List,
  arith, Option-cases, Result, ok, err,
}
use cpa_auto_refresh_quota.Base.Int.{ℤ}
use cpa_auto_refresh_quota.Auths.{Auth, auth_eligible}
use cpa_auto_refresh_quota.Base.Text.{trim_space}
use cpa_auto_refresh_quota.Auths.Priorities.{desired_priority_for_auth}
use cpa_auto_refresh_quota.Config.{Config}
use cpa_auto_refresh_quota.Host.{AuthFile, Host}
use cpa_auto_refresh_quota.Host.Saves.{Records, Gives}
use cpa_auto_refresh_quota.Override.{Json}
use cpa_auto_refresh_quota.Service.{AuthResult}

-- For a listed credential, as the host gives it right before, the override with the priority that it
-- is to get was written, and then its restoration succeeded.
pub record Aligns {V : Type 0} (json : Json V) {W : Type 0} (host : Host W)
    (saves : W → List AuthFile) (cfg : Config) (run_id : String) (highest : ℤ) (found : Bool)
    (listed : Auth) (before after : List AuthFile) : Type 0 where
  pub auth : Auth
  pub given : Gives host saves before listed.auth_index auth
  pub same_index : trim_space auth.auth_index ≡ trim_space listed.auth_index
  pub same_id : trim_space auth.id ≡ trim_space listed.id
  pub eligible : (auth_eligible cfg auth).0 ≡ true
  pub lease : Lease V
  pub between : List AuthFile
  pub external_change : Bool
  pub saved : Bool
  pub overridden :
      Overrides json host saves cfg auth run_id
        (desired_priority_for_auth auth highest found)
        lease
        before
        between
  pub restored :
      Restores json host saves auth.auth_index
        (some lease.marker)
        external_change
        saved
        between
        after

module _ {V : Type 0} (json : Json V) {W : Type 0} (host : Host W) (ctx : ℕ) (cfg : Config)
    (run_id : String) (body : List ℕ) (highest : ℤ) (found : Bool) (saves : W → List AuthFile)
    (records : Records host saves) where
  -- A lease is restored without an error; without one nothing is written.
  abbrev Settles : Option (Lease V) → List AuthFile → List AuthFile → Type 0
  Settles none before after = after ≡ before
  Settles (some lease) before after =
      (external_change saved : Bool) × Restores json host saves lease.auth_index (some lease.marker)
        external_change saved before after

  error_of-Settles :
      (lease : Lease V) (before after : List AuthFile) (r : Restoration)
      → Wrote json host saves lease.auth_index (some lease.marker) before after r
      → error_of r ≡ none
      → Settles (some lease) before after
  error_of-Settles lease before after (ok (external_change, saved)) h e =
      (external_change, saved, h)
  error_of-Settles lease before after (err x) h e = cc

  restore_override-Settles :
      (lease : Option (Lease V)) (before : List AuthFile) (w : W)
      → saves w ≡ before
      → (restore_priority_override json host cfg lease w).0 ≡ none
      → Settles lease before (saves (restore_priority_override json host cfg lease w).1)
  unfolding restore_priority_override
  restore_override-Settles none before w same e = same
  restore_override-Settles (some lease) before w same e =
      let timeout = positive_timeout cfg.priority_sync_timeout in
      let (c, w1) = host.with_timeout host.background timeout w in
      let (r, w2) =
        restore_priority_file json host c timeout lease.auth_index lease.auth_id (some lease.marker)
          w1 in
      error_of-Settles lease before (saves (host.cancel c w2)) r
        (subst
          (λ files.
            Wrote json host saves lease.auth_index (some lease.marker) files
              (saves (host.cancel c w2)) r)
          (records.by_timeout host.background timeout w ∙ same)
          (subst
            (λ files. Wrote json host saves lease.auth_index (some lease.marker) (saves w1) files r)
            (sym (records.by_cancel c w2))
            (restore_priority_file-Wrote json host c timeout lease.auth_index lease.auth_id
              (some lease.marker) saves records w1)))
        e

  settle_attempt-restored :
      (result : AuthResult) (e : Option TransactionError) (reply : Result String ModelResponse)
      → (settle_attempt result e reply).stops ≡ false
      → e ≡ none
  unfolding settle_attempt
  settle_attempt-restored result none reply h = refl
  settle_attempt-restored result (some e) reply h = cc

  attempt_begun-Settles :
      (auth : Auth) (result : AuthResult) (started : ℕ) (begun : Begun V × W)
      → let (a, w') =
          attempt_begun json host ctx cfg run_id body highest found auth result started begun in
        a.stops ≡ false → Settles begun.0.0 (saves begun.1) (saves w')
  unfolding attempt_begun
  attempt_begun-Settles auth result started ((lease, some e), w) go =
      elim (Option-cases (restore_priority_override json host cfg lease w).0) [
        | inl q ↦ restore_override-Settles lease (saves w) w refl q
        | inr (x, q) ↦ elim (abandoned x q go) [ ]
      ]
    where
      abandoned :
          (x : TransactionError)
          → (restore_priority_override json host cfg lease w).0 ≡ some x
          → (abandon_override json host ctx cfg run_id body highest found result started lease
              w).0.stops
            ≢ false
      abandoned x q h = unfold abandon_override in ground (arith, q, h)
  attempt_begun-Settles auth result started ((lease, none), w) go =
      let (c, w1) = host.with_timeout ctx cfg.request_timeout w in
      let q = request_of json host ctx cfg run_id body highest found auth in
      let (reply, w2) = host.execute_pinned c q w1 in
      let (restore_error, w3) = restore_priority_override json host cfg lease (host.cancel c w2) in
      restore_override-Settles lease (saves w) (host.cancel c w2)
        (records.by_cancel c w2
          ∙ records.by_execute c q w1
          ∙ records.by_timeout ctx cfg.request_timeout w)
        (settle_attempt-restored
          (timed json host ctx cfg run_id body highest found started w3 result) restore_error reply
          go)

  -- What a round writes.
  abbrev pub RoundWrites : Auth → List AuthFile → Attempt × W → Type 0
  RoundWrites listed before r =
      r.0.stops ≡ false
      → (saves r.1 ≡ before)
        ⊎ Aligns json host saves cfg run_id highest found listed before (saves r.1)

  attempt_eligible-RoundWrites :
      (listed auth : Auth) (before : List AuthFile) (w : W)
      → Gives host saves before listed.auth_index auth
      → trim_space auth.auth_index ≡ trim_space listed.auth_index
      → trim_space auth.id ≡ trim_space listed.id
      → (auth_eligible cfg auth).0 ≡ true
      → saves w ≡ before
      → RoundWrites listed before
          (attempt_eligible json host ctx cfg run_id body highest found auth w)
  unfolding attempt_eligible
  attempt_eligible-RoundWrites listed auth before w given same_index same_id eligible same go =
      let desired = desired_priority_for_auth auth highest found in
      let begun = begin_priority_override json host ctx cfg run_id auth desired w in
      let after =
        saves
          (attempt_begun json host ctx cfg run_id body highest found auth
            (aligned_result cfg desired auth) (host.now w) begun).1 in
      let settled =
        attempt_begun-Settles auth (aligned_result cfg desired auth) (host.now w) begun go in
      elim (begin_priority_override-Writes json host ctx cfg run_id auth desired saves records w) [
        | inl (none_begun, unwritten) ↦ inl (
            subst (λ lease. Settles lease (saves begun.1) after) none_begun settled
            ∙ unwritten
            ∙ same)
        | inr (lease, begun_lease, lease_index, overrides) ↦
            (let (external_change, saved, restored) =
                subst (λ l. Settles l (saves begun.1) after) begun_lease settled in
              inr (record {
                auth = auth;
                given = given;
                same_index = same_index;
                same_id = same_id;
                eligible = eligible;
                lease = lease;
                between = saves begun.1;
                external_change = external_change;
                saved = saved;
                overridden =
                    subst
                      (λ files.
                        Overrides json host saves cfg auth run_id desired lease files
                          (saves begun.1))
                      same overrides;
                restored =
                    subst
                      (λ index.
                        Restores json host saves index (some lease.marker) external_change saved
                          (saves begun.1) after)
                      lease_index restored;
              }))
      ]

  pub attempt-RoundWrites :
      (listed : Auth) (w : W)
      → RoundWrites listed (saves w) (attempt json host ctx cfg run_id body highest found listed w)
  attempt-RoundWrites listed w =
      attempt_cases json host ctx cfg run_id body highest found (RoundWrites listed (saves w))
        listed w (λ verdict error result _ go. inl (records.by_runtime ctx listed.auth_index w))
        (λ auth e same_index same_id eligible.
          attempt_eligible-RoundWrites listed auth (saves w) _
            (record { ctx = ctx; world = w; answered = e; same = refl }) same_index same_id eligible
            (records.by_runtime ctx listed.auth_index w))
