-- ===== src/Transaction/Undo.antt =====
-- What restoring a credential's priority writes.
use cpa_auto_refresh_quota.Transaction.Writes.{wait-saves, get_within-saves, get_within-Reads}
use cpa_auto_refresh_quota.Transaction.Restore.{
  Restoration, confirmed, after_restore, save_restored, write_restored, restore_attempts,
  restore_priority_file,
}
use cpa_auto_refresh_quota.Transaction.{get_auth_file_until, not_published}
use cpa_auto_refresh_quota.Base.{
  ℕ, zero, suc, String, ◌≡◌, refl, ap, ◌∙◌, ◌⊎◌, inl, inr, Bool, true, false, not, Option, none,
  some, List, ◌∷◌, arith, if◌then◌else◌, Bool-cases, is_some, Result, ok, err,
}
use cpa_auto_refresh_quota.Base.Int.{ℤ}
use cpa_auto_refresh_quota.Override.{
  Marker, Json, OverrideError, Restored, restore_priority_override_json,
}
use cpa_auto_refresh_quota.Host.{AuthFile, Saved, Host, is_saved, file_changed, not_saved}
use cpa_auto_refresh_quota.Host.Saves.{was_saved, Records, Reads}

-- The file that the host gave for the index was restored for the marker: it was written where that
-- changed it, and nothing else was.
pub record Restores {V : Type 0} (json : Json V) {W : Type 0} (host : Host W)
    (saves : W → List AuthFile) (auth_index : String) (marker : Option (Marker V))
    (external_change saved : Bool) (before after : List AuthFile) : Type 0 where
  pub file : AuthFile
  pub read : Reads host saves before auth_index file
  pub restored : Restored
  pub built : restore_priority_override_json json file.json marker ≡ ok restored
  pub same_external : restored.external_change ≡ external_change
  pub same_saved : restored.changed ≡ saved
  pub written : after ≡ (if saved then record file { json = restored.content } ∷ before else before)

-- Of an answer without an error: such a restoration. Of one with an error: nothing was written, or
-- the restored file was and its priority was not published in time.
abbrev pub Wrote :
    {V : Type 0}
    → Json V
    → {W : Type 0} → Host W
    → (W → List AuthFile)
    → String
    → Option (Marker V)
    → List AuthFile
    → List AuthFile
    → Restoration
    → Type 0
Wrote json host saves auth_index marker before after (ok (external_change, saved)) =
    Restores json host saves auth_index marker external_change saved before after
Wrote json host saves auth_index marker before after (err e) =
    (after ≡ before)
    ⊎ ((external_change saved : Bool) × Restores json host saves auth_index marker external_change
          saved before after
        × (e ≡ not_published))

module _ {V : Type 0} (json : Json V) {W : Type 0} (host : Host W) (ctx : ℕ) (timeout : ℤ)
    (auth_index auth_id : String) (marker : Option (Marker V)) (saves : W → List AuthFile)
    (records : Records host saves) where
  confirmed-Wrote :
      (published external_change saved : Bool) (before after : List AuthFile)
      → Restores json host saves auth_index marker external_change saved before after
      → Wrote json host saves auth_index marker before after
          (confirmed published external_change saved)
  unfolding confirmed
  confirmed-Wrote true external_change saved before after h = h
  confirmed-Wrote false external_change saved before after h = inr (external_change, saved, h, refl)

  after_restore-Wrote :
      (before : List AuthFile) (file : AuthFile) (r : Restored) (saved : Saved) (w : W)
      (again : Restoration × W)
      → restore_priority_override_json json file.json marker ≡ ok r
      → Reads host saves before auth_index file
      → r.changed ≡ true
      → saves w ≡ was_saved saved (record file { json = r.content }) before
      → (saved ≡ file_changed
          → Wrote json host saves auth_index marker before (saves again.1) again.0)
      → let (result, w') =
          after_restore json host ctx timeout auth_index auth_id marker r saved w again in
        Wrote json host saves auth_index marker before (saves w') result
  unfolding after_restore
  after_restore-Wrote before file r is_saved w again built read changed e h =
      confirmed-Wrote _ r.external_change true before _ (record {
        file = file;
        read = read;
        restored = r;
        built = built;
        same_external = refl;
        same_saved = changed;
        written =
            wait-saves host saves records ctx timeout auth_index auth_id r.expected_priority w ∙ e;
      })
  after_restore-Wrote before file r file_changed w again built read changed e h = h refl
  after_restore-Wrote before file r not_saved w again built read changed e h = inl e

  save_restored-Wrote :
      (before : List AuthFile) (file : AuthFile) (r : Result OverrideError Restored) (w : W)
      (next : W → Restoration × W)
      → restore_priority_override_json json file.json marker ≡ r
      → Reads host saves before auth_index file
      → saves w ≡ before
      → ((w' : W)
          → saves w' ≡ before
          → Wrote json host saves auth_index marker before (saves (next w').1) (next w').0)
      → let (result, w') =
          save_restored json host ctx timeout auth_index auth_id marker file r w next in
        Wrote json host saves auth_index marker before (saves w') result
  unfolding save_restored
  save_restored-Wrote before file (err x) w next built read same h = inl same
  save_restored-Wrote before file (ok r) w next built read same h =
      elim (Bool-cases (not r.changed)) [
        | inl e ↦ rw e (elim (Bool-cases (is_some marker)) [
          | inl s ↦ rw s (
              confirmed-Wrote _ r.external_change false before _ (
                unsaved e (
                  wait-saves host saves records ctx timeout auth_index auth_id r.expected_priority w
                  ∙ same)))
          | inr s ↦ rw s (unsaved e same)
        ])
        | inr e ↦ rw e (
            after_restore-Wrote before file r _ _ _ built read (ground (arith, e))
              (records.by_save ctx (record file { json = r.content }) w
                ∙ ap
                    (was_saved (host.save_auth_file ctx (record file { json = r.content }) w).0
                      (record file { json = r.content }))
                    same)
              (λ unsaved.
                h _ (records.by_save ctx (record file { json = r.content }) w ∙ rw unsaved same)))
      ]
    where
      unsaved :
          {after : List AuthFile}
          → not r.changed ≡ true
          → after ≡ before
          → Restores json host saves auth_index marker r.external_change false before after
      unsaved e s = record {
        file = file;
        read = read;
        restored = r;
        built = built;
        same_external = refl;
        same_saved = ground (arith, e);
        written = s;
      }

  write_restored-Wrote :
      (before : List AuthFile) (file : Option AuthFile) (w : W) (next : W → Restoration × W)
      → ((f : AuthFile) → file ≡ some f → Reads host saves before auth_index f)
      → saves w ≡ before
      → ((w' : W)
          → saves w' ≡ before
          → Wrote json host saves auth_index marker before (saves (next w').1) (next w').0)
      → let (result, w') =
          write_restored json host ctx timeout auth_index auth_id marker file w next in
        Wrote json host saves auth_index marker before (saves w') result
  unfolding write_restored
  write_restored-Wrote before none w next read same h = inl same
  write_restored-Wrote before (some file) w next read same h =
      save_restored-Wrote before file _ w next refl (read file refl) same h

  restore_attempts-Wrote :
      (left : ℕ) (before : List AuthFile) (w : W)
      → saves w ≡ before
      → let (result, w') =
          restore_attempts json host ctx timeout auth_index auth_id marker left w in
        Wrote json host saves auth_index marker before (saves w') result
  unfolding restore_attempts
  restore_attempts-Wrote zero before w same = inl same
  restore_attempts-Wrote (suc left) before w same =
      write_restored-Wrote before _ _ _
        (unfold get_auth_file_until in
          get_within-Reads host saves records (host.polls_left ctx w) ctx auth_index before w same)
        (unfold get_auth_file_until in
          get_within-saves host saves records (host.polls_left ctx w) ctx auth_index w ∙ same)
        (restore_attempts-Wrote left before)

  -- restorePriorityFile writes at most one file: the one that GetAuthFile gave for the credential's
  -- index, nothing having been written since, with nothing changed but its content, which is the
  -- one restored for the marker. Where it answers no error it says truly whether it wrote it; where
  -- it fails after a write, the priority was not published in time. Given that only SaveAuthFile writes, and only where it answers no error.
  pub restore_priority_file-Wrote :
      (w : W)
      → let (result, w') =
          restore_priority_file json host ctx timeout auth_index auth_id marker w in
        Wrote json host saves auth_index marker (saves w) (saves w') result
  unfolding restore_priority_file
  restore_priority_file-Wrote w = restore_attempts-Wrote 3 (saves w) w refl
