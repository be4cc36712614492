-- ===== src/Transaction/Writes.antt =====
-- What a transaction writes: an override with its marker, and then its restoration.
use cpa_auto_refresh_quota.Transaction.Begin.{
  Begun, check_file, built_file, override_file, lease_of, after_save, save_override, write_override,
  begin_attempts, begin_priority_override,
}
use cpa_auto_refresh_quota.Transaction.{
  TransactionError, Lease, positive_timeout, has_no_file, watch_runtime_priority,
  wait_for_runtime_priority, get_auth_file_within,
}
use mathlib.Core.Path.{subst}
use cpa_auto_refresh_quota.Config.{Config}
use cpa_auto_refresh_quota.Auths.{Auth}
use cpa_auto_refresh_quota.Base.{
  ℕ, zero, suc, String, ◌≡◌, refl, sym, ap, ◌∙◌, ◌⊎◌, inl, inr, not, ◌||◌, Option, none, some, List,
  ◌∷◌, arith, Bool-cases, is_some, true, Result, >>=-eq-ok, ok_inj, ok, err,
}
use cpa_auto_refresh_quota.Base.Int.{ℤ, ltb_ℤ}
use cpa_auto_refresh_quota.Auths.{Auth}
use cpa_auto_refresh_quota.Override.{Marker, Json, OverrideError, build_priority_override_json}
use cpa_auto_refresh_quota.Host.{AuthFile, Saved, Host, is_saved, file_changed, not_saved}
use cpa_auto_refresh_quota.Host.Saves.{was_saved, Records, Reads}

module _ {W : Type 0} (host : Host W) (saves : W → List AuthFile)
    (records : Records host saves) where
  watch-saves :
      (polls ctx : ℕ) (auth_index auth_id : String) (expected : ℤ) (w : W)
      → saves (watch_runtime_priority host polls ctx auth_index auth_id expected w).1 ≡ saves w
  unfolding watch_runtime_priority
  watch-saves zero ctx auth_index auth_id expected w = ground (
    arith,
    records.by_runtime ctx auth_index w,
    records.by_giving_up ctx (host.get_runtime_auth ctx auth_index w).1,
  )
  watch-saves (suc polls) ctx auth_index auth_id expected w = ground (
    arith,
    records.by_runtime ctx auth_index w,
    records.by_poll ctx (host.get_runtime_auth ctx auth_index w).1,
    watch-saves polls ctx auth_index auth_id expected
        (host.polled ctx (host.get_runtime_auth ctx auth_index w).1),
  )

  pub wait-saves :
      (ctx : ℕ) (timeout : ℤ) (auth_index auth_id : String) (expected : ℤ) (w : W)
      → saves (wait_for_runtime_priority host ctx timeout auth_index auth_id expected w).1 ≡ saves w
  unfolding wait_for_runtime_priority
  wait-saves ctx timeout auth_index auth_id expected w =
      records.by_cancel _ _
      ∙ watch-saves _ _ auth_index auth_id expected _
      ∙ records.by_timeout ctx (positive_timeout timeout) w

  pub get_within-saves :
      (polls ctx : ℕ) (auth_index : String) (w : W)
      → saves (get_auth_file_within host polls ctx auth_index w).1 ≡ saves w
  unfolding get_auth_file_within
  get_within-saves zero ctx auth_index w = ground (
    arith,
    records.by_file ctx auth_index w,
    records.by_giving_up ctx (host.get_auth_file ctx auth_index w).1,
  )
  get_within-saves (suc polls) ctx auth_index w = ground (
    arith,
    records.by_file ctx auth_index w,
    records.by_poll ctx (host.get_auth_file ctx auth_index w).1,
    get_within-saves polls ctx auth_index (host.polled ctx (host.get_auth_file ctx auth_index w).1),
  )

  pub get_within-Reads :
      (polls ctx : ℕ) (auth_index : String) (before : List AuthFile) (w : W)
      → saves w ≡ before
      → (file : AuthFile) → (get_auth_file_within host polls ctx auth_index w).0 ≡ some file
      → Reads host saves before auth_index file
  unfolding get_auth_file_within
  get_within-Reads zero ctx auth_index before w same file =
      λ h. record { ctx = ctx; world = w; answered = h; same = same }
  get_within-Reads (suc polls) ctx auth_index before w same file =
      elim (Bool-cases (is_some (host.get_auth_file ctx auth_index w).0)) [
        | inl e ↦ rw e (λ h. record { ctx = ctx; world = w; answered = h; same = same })
        | inr e ↦ rw e (
            get_within-Reads polls ctx auth_index before _
              (records.by_poll ctx (host.get_auth_file ctx auth_index w).1
                ∙ records.by_file ctx auth_index w
                ∙ same)
              file)
      ]

-- The override was written to the credential's file, as the host gave it right before, and no other
-- file was: with the new priority, which is higher than the credential's.
pub record Overrides {V : Type 0} (json : Json V) {W : Type 0} (host : Host W)
    (saves : W → List AuthFile) (cfg : Config) (auth : Auth) (run_id : String) (priority : ℤ)
    (lease : Lease V) (before after : List AuthFile) : Type 0 where
  pub file : AuthFile
  pub content : String
  pub wanted : cfg.temporary_priority ≡ true
  pub higher : ltb_ℤ auth.priority priority ≡ true
  pub read : Reads host saves before auth.auth_index file
  pub built :
      build_priority_override_json json file.json auth.auth_index run_id priority
      ≡ ok (content, lease.marker)
  pub written : after ≡ (record file { json = content }) ∷ before

built_file-ok :
    {V : Type 0} (file file' : AuthFile) (marker : Marker V)
    (r : Result OverrideError (String × Marker V))
    → built_file file r ≡ ok (file', marker)
    → (content : String) × (r ≡ ok (content, marker)) × (file' ≡ record file { json = content })
unfolding built_file
built_file-ok file file' marker (err e) h = cc
built_file-ok file file' marker (ok (content, m)) h =
    let e = ok_inj h in
    (content, ap (λ x. ok (content, x)) (ap (λ x. x.1) e), sym (ap (λ x. x.0) e))

override_file-ok :
    {V : Type 0} (json : Json V) (auth : Auth) (run_id : String) (priority : ℤ)
    (file file' : AuthFile) (marker : Marker V)
    → override_file json auth run_id priority file ≡ ok (file', marker)
    → (content : String) × (build_priority_override_json json file.json auth.auth_index run_id
          priority
        ≡ ok (content, marker))
      × (file' ≡ record file { json = content })
unfolding override_file
override_file-ok json auth run_id priority file file' marker h =
    let (_, _, h') = >>=-eq-ok (check_file auth file) _ h in built_file-ok file file' marker _ h'

module _ {V : Type 0} (json : Json V) {W : Type 0} (host : Host W) (ctx : ℕ) (cfg : Config)
    (run_id : String) (auth : Auth) (priority : ℤ) (saves : W → List AuthFile)
    (records : Records host saves) where
  -- Without a lease nothing was written; with one, its override was, and nothing else.
  abbrev pub Writes : List AuthFile → Begun V × W → Type 0
  Writes before begun =
      ((begun.0.0 ≡ none) × (saves begun.1 ≡ before))
      ⊎ ((lease : Lease V) × (begun.0.0 ≡ some lease)
          × (lease.auth_index ≡ auth.auth_index)
          × Overrides json host saves cfg auth run_id priority lease before (saves begun.1))

  abbrev IsWanted : Type 0
  IsWanted = (cfg.temporary_priority ≡ true) × (ltb_ℤ auth.priority priority ≡ true)

  after_save-Writes :
      (before : List AuthFile) (file : AuthFile) (content : String) (marker : Marker V)
      (saved : Saved) (w : W) (again : Begun V × W)
      → build_priority_override_json json file.json auth.auth_index run_id priority
        ≡ ok (content, marker)
      → IsWanted
      → Reads host saves before auth.auth_index file
      → saves w ≡ was_saved saved (record file { json = content }) before
      → (saved ≡ file_changed → Writes before again)
      → Writes before (
          after_save json host ctx cfg run_id auth priority
            (record file { json = content })
            marker
            saved
            w
            again)
  unfolding after_save
  after_save-Writes before file content marker is_saved w again built wanted read e h = inr (
    lease_of json host ctx cfg run_id auth priority (record file { json = content }) marker,
    refl,
    refl,
    record {
      file = file;
      content = content;
      wanted = wanted.0;
      higher = wanted.1;
      read = read;
      built = built;
      written =
          wait-saves host saves records ctx cfg.priority_sync_timeout auth.auth_index auth.id
            priority w
          ∙ e;
    },
  )
  after_save-Writes before file content marker file_changed w again built wanted read e h = h refl
  after_save-Writes before file content marker not_saved w again built wanted read e h =
      inl (refl, e)

  save_override-Writes :
      (before : List AuthFile) (file : AuthFile) (r : Result TransactionError (AuthFile × Marker V))
      (w : W) (next : W → Begun V × W)
      → override_file json auth run_id priority file ≡ r
      → IsWanted
      → Reads host saves before auth.auth_index file
      → saves w ≡ before
      → ((w' : W) → saves w' ≡ before → Writes before (next w'))
      → Writes before (save_override json host ctx cfg run_id auth priority r w next)
  unfolding save_override
  save_override-Writes before file (err x) w next e wanted read same h = inl (refl, same)
  save_override-Writes before file (ok (file', marker)) w next e wanted read same h =
      let (content, built, is_file) =
        override_file-ok json auth run_id priority file file' marker e in
      subst
        (λ f. Writes before (
          after_save json host ctx cfg run_id auth priority f marker (host.save_auth_file ctx f w).0
            (host.save_auth_file ctx f w).1 (next (host.save_auth_file ctx f w).1)))
        (sym is_file)
        (after_save-Writes before file content marker _ _ _ built wanted read
          (records.by_save ctx (record file { json = content }) w
            ∙ ap
                (was_saved (host.save_auth_file ctx (record file { json = content }) w).0
                  (record file { json = content }))
                same)
          (λ unsaved.
            h _ (records.by_save ctx (record file { json = content }) w ∙ rw unsaved same)))

  write_override-Writes :
      (before : List AuthFile) (file : Option AuthFile) (w : W) (next : W → Begun V × W)
      → IsWanted
      → ((f : AuthFile) → file ≡ some f → Reads host saves before auth.auth_index f)
      → saves w ≡ before
      → ((w' : W) → saves w' ≡ before → Writes before (next w'))
      → Writes before (write_override json host ctx cfg run_id auth priority file w next)
  unfolding write_override
  write_override-Writes before none w next wanted read same h = inl (refl, same)
  write_override-Writes before (some file) w next wanted read same h =
      save_override-Writes before file _ w next refl wanted (read file refl) same h

  begin_attempts-Writes :
      (left : ℕ) (before : List AuthFile) (w : W)
      → IsWanted
      → saves w ≡ before
      → Writes before (begin_attempts json host ctx cfg run_id auth priority left w)
  unfolding begin_attempts
  begin_attempts-Writes zero before w wanted same = inl (refl, same)
  begin_attempts-Writes (suc left) before w wanted same =
      write_override-Writes before _ _ _ wanted
        (λ f e. record { ctx = ctx; world = w; answered = e; same = same })
        (records.by_file ctx auth.auth_index w ∙ same)
        (λ w'. begin_attempts-Writes left before w' wanted)

  -- beginPriorityOverride answers a lease exactly where it wrote one file, the override of the
  -- credential's file with the marker of the lease; without a lease it wrote nothing.
  pub begin_priority_override-Writes :
      (w : W) → Writes (saves w) (begin_priority_override json host ctx cfg run_id auth priority w)
  unfolding begin_priority_override
  begin_priority_override-Writes w =
      elim (Bool-cases (not cfg.temporary_priority || not (ltb_ℤ auth.priority priority))) [
        | inl e ↦ rw e (inl (refl, refl))
        | inr e ↦ rw e (elim (Bool-cases (has_no_file auth)) [
          | inl f ↦ rw f (inl (refl, refl))
          | inr f ↦
              rw f (begin_attempts-Writes 3 (saves w) w (ground (arith, e), ground (arith, e)) refl)
        ])
      ]
