-- ===== src/Transaction.antt =====
-- The temporary priority of a credential, written and restored through the host:
-- internal/refreshquota/priority_service.go, without its log entries. Errors keep what the callers
-- read of them, whether there is one and whether it is ErrAuthFileChanged.
mod Tests
pub mod Writes
pub mod Undo
pub mod Stale
pub mod Begin
pub mod Restore
pub mod Recovery
use cpa_auto_refresh_quota.Base.{
  ℕ, zero, suc, String, Bool, true, false, not, ◌&&◌, ◌||◌, Option, none, some, ◌==◌, if◌then◌else◌,
  is_some,
}
use cpa_auto_refresh_quota.Base.Text.{trim_space, equal_fold}
use cpa_auto_refresh_quota.Base.Int.{ℤ, ltb_ℤ, eqb_ℤ, pos}
use cpa_auto_refresh_quota.Auths.{Auth}
use cpa_auto_refresh_quota.Override.{Marker, OverrideError}
use cpa_auto_refresh_quota.Host.{AuthFile, Host}

pub data TransactionError : Type 0 where
  no_physical_file file_unreadable other_auth_index no_file_name : TransactionError
  bad_json : OverrideError → TransactionError
  not_written auth_file_changed not_published : TransactionError
  context_done : TransactionError

-- priorityOverrideLease
pub record Lease (V : Type 0) : Type 0 where
  pub auth_index : String
  pub auth_id : String
  pub name : String
  pub marker : Marker V

abbrev pub default_priority_sync_timeout : ℤ
default_priority_sync_timeout = pos 5_000_000_000

-- `if timeout <= 0 { timeout = defaultPrioritySyncTimeout }`
abbrev pub positive_timeout : ℤ → ℤ
positive_timeout timeout = if ltb_ℤ (pos 0) timeout then timeout else default_priority_sync_timeout

-- The condition of waitForRuntimePriority on what GetRuntimeAuth answers.
unfoldable pub is_published : String → String → ℤ → Option Auth → Bool
is_published auth_index auth_id expected_priority none = false
is_published auth_index auth_id expected_priority (some auth) =
    trim_space auth.auth_index == trim_space auth_index
    && (trim_space auth_id == "" || trim_space auth.id == trim_space auth_id)
    && eqb_ℤ auth.priority expected_priority

-- `auth.RuntimeOnly || !strings.EqualFold(strings.TrimSpace(auth.Source), "file")`
unfoldable pub has_no_file : Auth → Bool
has_no_file auth = auth.runtime_only || not (equal_fold (trim_space auth.source) "file")

module _ {W : Type 0} (host : Host W) where
  -- The loop of waitForRuntimePriority, by the polls that its context allows.
  unfoldable pub watch_runtime_priority : ℕ → ℕ → String → String → ℤ → W → Bool × W
  unfolding is_published
  watch_runtime_priority zero ctx auth_index auth_id expected_priority w =
      let (auth, w1) = host.get_runtime_auth ctx auth_index w in
      if is_published auth_index auth_id expected_priority auth
      then (true, w1)
      else (false, host.gave_up ctx w1)
  watch_runtime_priority (suc polls) ctx auth_index auth_id expected_priority w =
      let (auth, w1) = host.get_runtime_auth ctx auth_index w in
      let again =
        watch_runtime_priority polls ctx auth_index auth_id expected_priority
          (host.polled ctx w1) in
      if is_published auth_index auth_id expected_priority auth then (true, w1) else again

  -- Whether the host published the priority in time; the Auth that shows it is read by no caller.
  unfoldable pub wait_for_runtime_priority : ℕ → ℤ → String → String → ℤ → W → Bool × W
  unfolding watch_runtime_priority
  wait_for_runtime_priority ctx timeout auth_index auth_id expected_priority w =
      let (wait_ctx, w1) = host.with_timeout ctx (positive_timeout timeout) w in
      let (published, w2) =
        watch_runtime_priority (host.polls_left wait_ctx w1) wait_ctx auth_index auth_id
          expected_priority w1 in
      (published, host.cancel wait_ctx w2)

  unfoldable pub get_auth_file_within : ℕ → ℕ → String → W → Option AuthFile × W
  get_auth_file_within zero ctx auth_index w =
      let (file, w1) = host.get_auth_file ctx auth_index w in
      (file, if is_some file then w1 else host.gave_up ctx w1)
  get_auth_file_within (suc polls) ctx auth_index w =
      let (file, w1) = host.get_auth_file ctx auth_index w in
      let again = get_auth_file_within polls ctx auth_index (host.polled ctx w1) in
      if is_some file then (file, w1) else again

  unfoldable pub get_auth_file_until : ℕ → String → W → Option AuthFile × W
  unfolding get_auth_file_within
  get_auth_file_until ctx auth_index w =
      get_auth_file_within (host.polls_left ctx w) ctx auth_index w
