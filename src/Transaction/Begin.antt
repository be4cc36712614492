-- ===== src/Transaction/Begin.antt =====
-- beginPriorityOverride: a credential's file gets the priority of the highest tier and a marker.
use cpa_auto_refresh_quota.Transaction.{
  TransactionError, bad_json, Lease, has_no_file, wait_for_runtime_priority, no_physical_file,
  file_unreadable, other_auth_index, no_file_name, not_written, auth_file_changed, not_published,
}
use cpa_auto_refresh_quota.Base.{
  ℕ, zero, suc, String, not, ◌&&◌, ◌||◌, Option, none, some, ◌==◌, if◌then◌else◌, Result, ◌>>◌,
  refuse_if, ok, err,
}
use cpa_auto_refresh_quota.Base.Text.{trim_space}
use cpa_auto_refresh_quota.Base.Int.{ℤ, ltb_ℤ}
use cpa_auto_refresh_quota.Auths.{Auth}
use cpa_auto_refresh_quota.Config.{Config}
use cpa_auto_refresh_quota.Override.{Marker, Json, OverrideError, build_priority_override_json}
use cpa_auto_refresh_quota.Host.{AuthFile, Saved, Host, is_saved, file_changed, not_saved}

-- The lease and the error, each of which may be nil.
abbrev pub Begun : Type 0 → Type 0
Begun V = Option (Lease V) × Option TransactionError

-- The two checks of what GetAuthFile answered.
unfoldable pub check_file : Auth → AuthFile → Result TransactionError (Unit {0})
check_file auth file =
    refuse_if
      (not (trim_space file.auth_index == "")
        && not (trim_space file.auth_index == trim_space auth.auth_index))
      other_auth_index
    >> refuse_if (trim_space file.name == "") no_file_name

-- What is to be saved and its marker, from the file and what was built of it.
unfoldable pub built_file :
    {V : Type 0}
    → AuthFile
    → Result OverrideError (String × Marker V)
    → Result TransactionError (AuthFile × Marker V)
built_file file (err e) = err (bad_json e)
built_file file (ok (modified, marker)) = ok (record file { json = modified }, marker)

unfoldable pub override_file :
    {V : Type 0}
    → Json V
    → Auth
    → String
    → ℤ
    → AuthFile
    → Result TransactionError (AuthFile × Marker V)
unfolding check_file built_file
override_file json auth run_id override_priority file =
    check_file auth file
    >> built_file file
        (build_priority_override_json json file.json auth.auth_index run_id override_priority)

module _ {V : Type 0} (json : Json V) {W : Type 0} (host : Host W) (ctx : ℕ) (cfg : Config)
    (run_id : String) (auth : Auth) (override_priority : ℤ) where
  abbrev pub lease_of : AuthFile → Marker V → Lease V
  lease_of file marker = record {
    auth_index = auth.auth_index;
    auth_id = auth.id;
    name = file.name;
    marker = marker;
  }

  -- What follows SaveAuthFile, with what the next attempt would give.
  unfoldable pub after_save : AuthFile → Marker V → Saved → W → Begun V × W → Begun V × W
  after_save file marker is_saved w again =
      let (published, w1) =
        wait_for_runtime_priority host ctx cfg.priority_sync_timeout auth.auth_index auth.id
          override_priority w in
      ((some (lease_of file marker), if published then none else some not_published), w1)
  after_save file marker file_changed w again = again
  after_save file marker not_saved w again = ((none, some not_written), w)

  unfoldable pub save_override :
      Result TransactionError (AuthFile × Marker V) → W → (W → Begun V × W) → Begun V × W
  unfolding after_save
  save_override (err e) w next = ((none, some e), w)
  save_override (ok (file, marker)) w next =
      let (saved, w1) = host.save_auth_file ctx file w in after_save file marker saved w1 (next w1)

  unfoldable pub write_override : Option AuthFile → W → (W → Begun V × W) → Begun V × W
  unfolding save_override
  write_override none w next = ((none, some file_unreadable), w)
  write_override (some file) w next =
      save_override (override_file json auth run_id override_priority file) w next

  -- `for attempt := 0; attempt < 3; attempt++`, by the attempts left.
  unfoldable pub begin_attempts : ℕ → W → Begun V × W
  unfolding write_override
  begin_attempts zero w = ((none, some auth_file_changed), w)
  begin_attempts (suc left) w =
      let (file, w1) = host.get_auth_file ctx auth.auth_index w in
      write_override file w1 (begin_attempts left)

  unfoldable pub begin_priority_override : W → Begun V × W
  unfolding begin_attempts
  begin_priority_override w =
      if not cfg.temporary_priority || not (ltb_ℤ auth.priority override_priority)
      then ((none, none), w)
      else if has_no_file auth
      then ((none, some no_physical_file), w)
      else begin_attempts 3 w
