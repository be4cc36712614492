-- ===== src/Transaction/Recovery.antt =====
-- recoverStalePriorityOverrides: overrides that an earlier run left are restored.
use cpa_auto_refresh_quota.Transaction.Restore.{Restoration, restore_priority_file}
use cpa_auto_refresh_quota.Transaction.{
  TransactionError, bad_json, context_done, has_no_file, file_unreadable,
}
use cpa_auto_refresh_quota.Base.{
  ℕ, String, Bool, false, not, ◌||◌, Option, none, some, List, [], ◌∷◌, ◌++◌, ◌==◌, if◌then◌else◌,
  is_empty, Result, ok, err,
}
use cpa_auto_refresh_quota.Base.Dict.{contains, set_add}
use cpa_auto_refresh_quota.Base.Text.{trim_space, to_lower}
use cpa_auto_refresh_quota.Auths.{Auth}
use cpa_auto_refresh_quota.Config.{Config}
use cpa_auto_refresh_quota.Override.{
  Marker, Json, OverrideError, priority_override_marker_from_json,
}
use cpa_auto_refresh_quota.Host.{AuthFile, Host}

-- priorityRecoveryPathKey, with filepath.Clean and the operating system as parameters.
unfoldable pub priority_recovery_path_key : (String → String) → Bool → String → String
priority_recovery_path_key clean is_windows path =
    let path' = clean (trim_space path) in
    if path' == "." || path' == "" then "" else if is_windows then to_lower path' else path'

-- The variables of the loop: `changed`, `seenPaths` and the errors.
pub record Recovery : Type 0 where
  pub changed : Bool
  pub seen_paths : List String
  pub errors : List TransactionError

abbrev pub failed_with : Recovery → TransactionError → Recovery
failed_with st e = record st { errors = st.errors ++ e ∷ [] }

module _ {V : Type 0} (json : Json V) {W : Type 0} (host : Host W) (clean : String → String)
    (is_windows : Bool) (ctx : ℕ) (cfg : Config) where
  abbrev pub note_restoration : Recovery → Restoration × W → Recovery × W
  note_restoration st (ok (external_change, saved), w) =
      (record st { changed = st.changed || saved }, w)
  note_restoration st (err e, w) = (failed_with st e, w)

  unfoldable pub recover_marked :
      Auth → Recovery → Result OverrideError (Option (Marker V)) → W → Recovery × W
  recover_marked auth st (err e) w = (failed_with st (bad_json e), w)
  recover_marked auth st (ok none) w = (st, w)
  recover_marked auth st (ok (some marker)) w = note_restoration st (
      restore_priority_file json host ctx cfg.priority_sync_timeout auth.auth_index auth.id
        (some marker) w)

  unfoldable pub recover_file : Auth → Recovery → Option AuthFile → W → Recovery × W
  unfolding recover_marked
  recover_file auth st none w = (failed_with st file_unreadable, w)
  recover_file auth st (some file) w =
      let key = priority_recovery_path_key clean is_windows file.path in
      let marked = priority_override_marker_from_json json file.json in
      if key == ""
      then recover_marked auth st marked w
      else if contains key st.seen_paths
      then (st, w)
      else recover_marked auth (record st { seen_paths = set_add key st.seen_paths }) marked w

  -- `auth.RuntimeOnly || … != "file" || …AuthIndex… == ""`
  abbrev pub is_passed_over : Auth → Bool
  is_passed_over auth = has_no_file auth || trim_space auth.auth_index == ""

  -- What the loop does with one credential.
  unfoldable pub recover_one : Auth → Recovery → W → Recovery × W
  unfolding recover_file
  recover_one auth st w =
      if is_passed_over auth
      then (st, w)
      else (let (file, w1) = host.get_auth_file ctx auth.auth_index w in
          recover_file auth st file w1)

  unfoldable pub recover_each : List Auth → Recovery → W → Recovery × W
  unfolding recover_one
  recover_each [] st w = (st, w)
  recover_each (auth ∷ auths) st w =
      let (st', w1) = recover_one auth st w in
      let rest = recover_each auths st' w1 in
      if host.is_done ctx w then (failed_with st context_done, w) else rest

  -- `changed`, and whether there is an error.
  unfoldable pub recover_stale_priority_overrides : List Auth → W → (Bool × Bool) × W
  unfolding recover_each
  recover_stale_priority_overrides auths w =
      let (st, w1) =
        recover_each auths (record { changed = false; seen_paths = []; errors = [] }) w in
      ((st.changed, not (is_empty st.errors)), w1)
