-- ===== src/Transaction/Stale.antt =====
-- What the recovery of stale overrides writes.
use mathlib.Core.Path.{subst}
use cpa_auto_refresh_quota.Transaction.Recovery.{
  priority_recovery_path_key, Recovery, failed_with, note_restoration, recover_marked, recover_file,
  is_passed_over, recover_one, recover_each, recover_stale_priority_overrides,
}
use cpa_auto_refresh_quota.Transaction.Restore.{Restoration, restore_priority_file}
use cpa_auto_refresh_quota.Transaction.Undo.{Restores, Wrote, restore_priority_file-Wrote}
use cpa_auto_refresh_quota.Transaction.{
  TransactionError, bad_json, context_done, has_no_file, file_unreadable,
}
use cpa_auto_refresh_quota.Base.{
  ℕ, String, ◌≡◌, refl, sym, ap, ◌∙◌, ◌⊎◌, inl, inr, Bool, true, false, Option, none, some, List,
  [], ◌∷◌, ◌++◌, ◌||◌, arith, ◌==◌, Bool-cases, is_empty, Result, ok, err,
}
use cpa_auto_refresh_quota.Base.Dict.{contains, set_add}
use cpa_auto_refresh_quota.Base.Text.{trim_space}
use cpa_auto_refresh_quota.Auths.{Auth}
use cpa_auto_refresh_quota.Config.{Config}
use cpa_auto_refresh_quota.Host.{AuthFile, Host}
use cpa_auto_refresh_quota.Host.Saves.{Records, Reads}
use cpa_auto_refresh_quota.Override.{
  Marker, Json, OverrideError, priority_override_marker_from_json,
}

-- The file that the host gave for the credential has the marker, for which it was restored.
pub record Recovers {V : Type 0} (json : Json V) {W : Type 0} (host : Host W)
    (saves : W → List AuthFile) (auth : Auth) (before after : List AuthFile) : Type 0 where
  pub marked_file : AuthFile
  pub marker : Marker V
  pub external_change : Bool
  pub saved : Bool
  pub passed : (has_no_file auth || trim_space auth.auth_index == "") ≡ false
  pub read : Reads host saves before auth.auth_index marked_file
  pub marked : priority_override_marker_from_json json marked_file.json ≡ ok (some marker)
  pub restores :
      Restores json host saves auth.auth_index (some marker) external_change saved before after

-- Of the credentials, in their order, some were restored, each once, and nothing else was written.
pub data Restorations {V : Type 0} (json : Json V) {W : Type 0} (host : Host W)
    (saves : W → List AuthFile) : List Auth → List AuthFile → List AuthFile → Type 0 where
  no_restoration :
      (auths : List Auth) (files : List AuthFile) → Restorations json host saves auths files files
  not_restored :
      (auth : Auth) (auths : List Auth) (before after : List AuthFile)
      → Restorations json host saves auths before after
      → Restorations json host saves (auth ∷ auths) before after
  then_restored :
      (auth : Auth) (auths : List Auth) (before between after : List AuthFile)
      → Recovers json host saves auth before between
      → Restorations json host saves auths between after
      → Restorations json host saves (auth ∷ auths) before after

is_empty-snoc : {A : Type 0} (xs : List A) (x : A) → is_empty (xs ++ x ∷ []) ≡ false
is_empty-snoc [] x = refl
is_empty-snoc (y ∷ xs) x = refl

module _ {V : Type 0} (json : Json V) {W : Type 0} (host : Host W) (clean : String → String)
    (is_windows : Bool) (ctx : ℕ) (cfg : Config) (saves : W → List AuthFile)
    (records : Records host saves) where
  -- From one state of the loop to a later one.
  record Step (Written : List AuthFile → List AuthFile → Type 0) (st : Recovery)
      (before : List AuthFile) (later : Recovery × W) : Type 0 where
    pub restored : Written before (saves later.1)
    pub quiet :
        is_empty later.0.errors ≡ true
        → later.0.changed ≡ false
        → (is_empty st.errors ≡ true) × (st.changed ≡ false) × (saves later.1 ≡ before)

  abbrev One : Auth → Recovery → List AuthFile → Recovery × W → Type 0
  One auth = Step (λ before after. (after ≡ before) ⊎ Recovers json host saves auth before after)

  unchanged :
      (auth : Auth) (st st' : Recovery) (before : List AuthFile) (w : W)
      → saves w ≡ before
      → st'.errors ≡ st.errors
      → st'.changed ≡ st.changed
      → One auth st before (st', w)
  unchanged auth st st' before w same errors changed = record {
    restored = inl same;
    quiet = λ e c. (ap is_empty (sym errors) ∙ e, sym changed ∙ c, same);
  }

  failing :
      (Written : List AuthFile → List AuthFile → Type 0) (st : Recovery) (e : TransactionError)
      (before : List AuthFile) (w : W)
      → Written before (saves w)
      → Step Written st before (failed_with st e, w)
  failing Written st e before w h = record {
    restored = h;
    quiet = λ empty c. ground (arith, empty, is_empty-snoc st.errors e);
  }

  -- What the file of a credential shows, when it is to be recovered.
  record IsMarked (auth : Auth) (before : List AuthFile) (marker : Marker V) : Type 0 where
    pub file : AuthFile
    pub passed : is_passed_over json host clean is_windows ctx cfg auth ≡ false
    pub read : Reads host saves before auth.auth_index file
    pub marked : priority_override_marker_from_json json file.json ≡ ok (some marker)

  recovers :
      (auth : Auth) (before after : List AuthFile) (marker : Marker V)
      (external_change saved : Bool)
      → IsMarked auth before marker
      → Restores json host saves auth.auth_index (some marker) external_change saved before after
      → Recovers json host saves auth before after
  recovers auth before after marker external_change saved m h = record {
    marked_file = m.file;
    marker = marker;
    external_change = external_change;
    saved = saved;
    passed = m.passed;
    read = m.read;
    marked = m.marked;
    restores = h;
  }

  note_restoration-Step :
      (auth : Auth) (marker : Marker V) (st : Recovery) (before : List AuthFile) (r : Restoration)
      (w : W)
      → IsMarked auth before marker
      → Wrote json host saves auth.auth_index (some marker) before (saves w) r
      → One auth st before (note_restoration json host clean is_windows ctx cfg st (r, w))
  note_restoration-Step auth marker st before (ok (external_change, true)) w m h = record {
    restored = inr (recovers auth before (saves w) marker external_change true m h);
    quiet = λ empty c. ground (arith, c);
  }
  note_restoration-Step auth marker st before (ok (external_change, false)) w m h = record {
    restored = inr (recovers auth before (saves w) marker external_change false m h);
    quiet = λ empty c. (empty, ground (arith, c), h.written);
  }
  note_restoration-Step auth marker st before (err e) w m (inl same) =
      failing _ st e before w (inl same)
  note_restoration-Step auth marker st before (err e) w m (inr (external_change, saved, h, _)) =
      failing _ st e before w
        (inr (recovers auth before (saves w) marker external_change saved m h))

  recover_marked-Step :
      (auth : Auth) (st : Recovery) (before : List AuthFile)
      (marked : Result OverrideError (Option (Marker V))) (w : W)
      → ((marker : Marker V) → marked ≡ ok (some marker) → IsMarked auth before marker)
      → saves w ≡ before
      → One auth st before (recover_marked json host clean is_windows ctx cfg auth st marked w)
  unfolding recover_marked
  recover_marked-Step auth st before (err e) w m same =
      failing _ st (bad_json e) before w (inl same)
  recover_marked-Step auth st before (ok none) w m same =
      unchanged auth st st before w same refl refl
  recover_marked-Step auth st before (ok (some marker)) w m same =
      let (r, w1) =
        restore_priority_file json host ctx cfg.priority_sync_timeout auth.auth_index auth.id
          (some marker) w in
      note_restoration-Step auth marker st before r w1 (m marker refl) (
        subst (λ files. Wrote json host saves auth.auth_index (some marker) files (saves w1) r) same
          (restore_priority_file-Wrote json host ctx cfg.priority_sync_timeout auth.auth_index
            auth.id (some marker) saves records w))

  recover_file-Step :
      (auth : Auth) (st : Recovery) (before : List AuthFile) (file : Option AuthFile) (w : W)
      → is_passed_over json host clean is_windows ctx cfg auth ≡ false
      → ((f : AuthFile) → file ≡ some f → Reads host saves before auth.auth_index f)
      → saves w ≡ before
      → One auth st before (recover_file json host clean is_windows ctx cfg auth st file w)
  unfolding recover_file
  recover_file-Step auth st before none w passed read same =
      failing _ st file_unreadable before w (inl same)
  recover_file-Step auth st before (some file) w passed read same =
      let key = priority_recovery_path_key clean is_windows file.path in
      let marked = priority_override_marker_from_json json file.json in
      elim (Bool-cases (key == "")) [
        | inl e ↦ rw e (recover_marked-Step auth st before marked w shows same)
        | inr e ↦ rw e (elim (Bool-cases (contains key st.seen_paths)) [
          | inl f ↦ rw f (unchanged auth st st before w same refl refl)
          | inr f ↦ rw f (
              let h =
                recover_marked-Step auth (record st { seen_paths = set_add key st.seen_paths })
                  before marked w shows same in
              record { restored = h.restored; quiet = h.quiet })
        ])
      ]
    where
      shows :
          (marker : Marker V)
          → priority_override_marker_from_json json file.json ≡ ok (some marker)
          → IsMarked auth before marker
      shows marker e = record { file = file; passed = passed; read = read file refl; marked = e }

  recover_one-Step :
      (auth : Auth) (st : Recovery) (w : W)
      → One auth st (saves w) (recover_one json host clean is_windows ctx cfg auth st w)
  unfolding recover_one
  recover_one-Step auth st w =
      elim (Bool-cases (is_passed_over json host clean is_windows ctx cfg auth)) [
        | inl e ↦ rw e (unchanged auth st st (saves w) w refl refl refl)
        | inr e ↦ rw e (
            recover_file-Step auth st (saves w) _ _ e
              (λ f h. record { ctx = ctx; world = w; answered = h; same = refl })
              (records.by_file ctx auth.auth_index w))
      ]

  extend :
      (auth : Auth) (auths : List Auth) (before between after : List AuthFile)
      → (between ≡ before) ⊎ Recovers json host saves auth before between
      → Restorations json host saves auths between after
      → Restorations json host saves (auth ∷ auths) before after
  extend auth auths before between after (inl e) h =
      not_restored auth auths before after
        (subst (λ files. Restorations json host saves auths files after) e h)
  extend auth auths before between after (inr r) h =
      then_restored auth auths before between after r h

  recover_each-Step :
      (auths : List Auth) (st : Recovery) (w : W)
      → Step
          (Restorations json host saves auths)
          st
          (saves w)
          (recover_each json host clean is_windows ctx cfg auths st w)
  unfolding recover_each
  recover_each-Step [] st w = record {
    restored = no_restoration [] (saves w);
    quiet = λ e c. (e, c, refl);
  }
  recover_each-Step (auth ∷ auths) st w = elim (Bool-cases (host.is_done ctx w)) [
    | inl e ↦ rw e (failing _ st context_done (saves w) w (no_restoration (auth ∷ auths) (saves w)))
    | inr e ↦ rw e (
        let first = recover_one-Step auth st w in
        let (st', w1) = recover_one json host clean is_windows ctx cfg auth st w in
        let rest = recover_each-Step auths st' w1 in
        record {
          restored = extend auth auths (saves w) (saves w1) _ first.restored rest.restored;
          quiet = λ empty c.
              let (empty', c', same') = rest.quiet empty c in
              let (empty'', c'', same) = first.quiet empty' c' in (empty'', c'', same' ∙ same);
        })
  ]

  -- The recovery writes nothing but this, whether or not it fails: for some of the listed credentials,
  -- in their order and each once, the file that GetAuthFile gives for the credential's index, which
  -- shows a marker, with nothing changed but its content, which is the one restored for that marker; given that only SaveAuthFile writes, and only where it answers no error; and it answers a change, or an error, or it wrote nothing at all, so that the
  -- credentials that were listed before it need not be listed again.
  pub recover_stale-Restorations :
      (auths : List Auth) (w : W)
      → let ((recovered, has_failed), w') =
          recover_stale_priority_overrides json host clean is_windows ctx cfg auths w in
        Restorations json host saves auths (saves w) (saves w')
        × ((recovered ≡ true) ⊎ (has_failed ≡ true) ⊎ (saves w' ≡ saves w))
  unfolding recover_stale_priority_overrides
  recover_stale-Restorations auths w =
      let start : Recovery = record { changed = false; seen_paths = []; errors = [] } in
      let (st, w') = recover_each json host clean is_windows ctx cfg auths start w in
      let h = recover_each-Step auths start w in
      (
        h.restored,
        elim (Bool-cases st.changed) [
          | inl c ↦ inl c
          | inr c ↦ elim (Bool-cases (is_empty st.errors)) [
            | inl e ↦ inr (inr ((h.quiet e c).2))
            | inr e ↦ inr (inl (ground (arith, e)))
          ]
        ],
      )
