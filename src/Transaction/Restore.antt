-- ===== src/Transaction/Restore.antt =====
-- restorePriorityFile and restorePriorityOverride: the marker is taken off again.
use cpa_auto_refresh_quota.Transaction.{
  TransactionError, bad_json, Lease, positive_timeout, wait_for_runtime_priority,
  get_auth_file_until, file_unreadable, not_written, auth_file_changed, not_published,
}
use cpa_auto_refresh_quota.Base.{
  ℕ, zero, suc, String, Bool, true, false, not, Option, none, some, if◌then◌else◌, is_some, Result,
  ok, err,
}
use cpa_auto_refresh_quota.Base.Int.{ℤ}
use cpa_auto_refresh_quota.Config.{Config}
use cpa_auto_refresh_quota.Override.{
  Marker, Json, OverrideError, Restored, restore_priority_override_json,
}
use cpa_auto_refresh_quota.Host.{AuthFile, Saved, Host, is_saved, file_changed, not_saved}

-- Whether the priority was changed from outside, and whether a file was saved.
abbrev pub Restoration : Type 0
Restoration = Result TransactionError (Bool × Bool)

unfoldable pub confirmed : Bool → Bool → Bool → Restoration
confirmed published external_change saved =
    if published then ok (external_change, saved) else err not_published

module _ {V : Type 0} (json : Json V) {W : Type 0} (host : Host W) (ctx : ℕ) (timeout : ℤ)
    (auth_index auth_id : String) (marker : Option (Marker V)) where
  abbrev pub wait_for : ℤ → W → Bool × W
  wait_for expected_priority w =
      wait_for_runtime_priority host ctx timeout auth_index auth_id expected_priority w

  unfoldable pub after_restore : Restored → Saved → W → Restoration × W → Restoration × W
  after_restore r is_saved w again =
      let (published, w1) = wait_for r.expected_priority w in
      (confirmed published r.external_change true, w1)
  after_restore r file_changed w again = again
  after_restore r not_saved w again = (err not_written, w)

  unfoldable pub save_restored :
      AuthFile → Result OverrideError Restored → W → (W → Restoration × W) → Restoration × W
  unfolding after_restore confirmed
  save_restored file (err e) w next = (err (bad_json e), w)
  save_restored file (ok r) w next =
      if not r.changed
      then (if is_some marker
          then (let (published, w1) = wait_for r.expected_priority w in
              (confirmed published r.external_change false, w1))
          else (ok (r.external_change, false), w))
      else (let (saved, w1) = host.save_auth_file ctx (record file { json = r.content }) w in
          after_restore r saved w1 (next w1))

  unfoldable pub write_restored : Option AuthFile → W → (W → Restoration × W) → Restoration × W
  unfolding save_restored
  write_restored none w next = (err file_unreadable, w)
  write_restored (some file) w next =
      save_restored file (restore_priority_override_json json file.json marker) w next

  unfoldable pub restore_attempts : ℕ → W → Restoration × W
  unfolding write_restored
  restore_attempts zero w = (err auth_file_changed, w)
  restore_attempts (suc left) w =
      let (file, w1) = get_auth_file_until host ctx auth_index w in
      write_restored file w1 (restore_attempts left)

  unfoldable pub restore_priority_file : W → Restoration × W
  unfolding restore_attempts
  restore_priority_file w = restore_attempts 3 w

-- The error, where there is one.
abbrev pub error_of : Restoration → Option TransactionError
error_of (ok r) = none
error_of (err e) = some e

module _ {V : Type 0} (json : Json V) {W : Type 0} (host : Host W) (cfg : Config) where
  unfoldable pub restore_priority_override : Option (Lease V) → W → Option TransactionError × W
  restore_priority_override none w = (none, w)
  restore_priority_override (some lease) w =
      let timeout = positive_timeout cfg.priority_sync_timeout in
      let (ctx, w1) = host.with_timeout host.background timeout w in
      let (restored, w2) =
        restore_priority_file json host ctx timeout lease.auth_index lease.auth_id
          (some lease.marker) w1 in
      (error_of restored, host.cancel ctx w2)
