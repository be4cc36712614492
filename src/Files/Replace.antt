-- ===== src/Files/Replace.antt =====
-- What the replacement of a credential file does to it.
use cpa_auto_refresh_quota.Files.Disk.{Disk}
use cpa_auto_refresh_quota.Files.{
  FileError, FileInfo, Paths, Os, max_auth_file_write_bytes, checked, read_within, read_opened,
  read_auth_file_bounded, is_changed, replace_read, replace_auth_file_cas, fill_and_replace,
  write_temp, atomic_write_auth_file, not_written, mode_not_set, not_synced, not_closed,
  not_renamed,
}
use mathlib.Core.Path.{subst}
use cpa_auto_refresh_quota.Base.{
  ℕ, ◌+◌, String, ◌≡◌, refl, sym, ap, ◌∙◌, ◌≢◌, inl, inr, Bool, true, false, not, Option, none,
  some, arith, ltb, Bool-cases, Result, ok_inj, ok, err,
}
use cpa_auto_refresh_quota.Base.Text.{equal_fold, byte_length}

module _ {W : Type 0} (os : Os W) (paths : Paths) (sha256 : String → String) (is_done : W → Bool)
    (content : String → W → Option String) (disk : Disk os content) where
  read_within-ok :
      (path : String) (w : W) (r : Option String) (raw : String)
      → os.read_at_most (max_auth_file_write_bytes + 1) path w ≡ r
      → read_within r ≡ ok raw
      → content path w ≡ some raw
  read_within-ok path w none raw e = λ h. cc
  read_within-ok path w (some text) raw e =
      elim (Bool-cases (ltb max_auth_file_write_bytes (byte_length text))) [
        | inl x ↦ rw x (λ h. cc)
        | inr x ↦ rw x (λ h.
            disk.reads (max_auth_file_write_bytes + 1) path text w e (ground (arith, x))
            ∙ ap some (ok_inj h))
      ]

  -- What a read answers is the file's content.
  pub read_auth_file_bounded-ok :
      (path raw : String) (w : W)
      → read_auth_file_bounded os paths sha256 path w ≡ ok raw
      → content path w ≡ some raw
  unfolding read_auth_file_bounded
  read_auth_file_bounded-ok path raw w = opened-ok (os.opened path w)
    where
      opened-ok :
          (r : Option FileInfo)
          → read_opened os paths sha256 path w r ≡ ok raw
          → content path w ≡ some raw
      opened-ok none = λ h. cc
      opened-ok (some info) = elim (Bool-cases (not info.is_regular)) [
        | inl x ↦ rw x (λ h. cc)
        | inr x ↦ rw x (elim (Bool-cases (ltb max_auth_file_write_bytes info.size)) [
          | inl y ↦ rw y (λ h. cc)
          | inr y ↦ rw y (read_within-ok path w _ raw refl)
        ])
      ]

  same_hash :
      (expected latest : String)
      → is_changed os paths sha256 expected latest ≡ false
      → equal_fold expected (sha256 latest) ≡ true
  unfolding is_changed
  same_hash expected latest h = ground (arith, h)

  module _ (path raw expected : String) where
    -- Of an answer nil: the file had the expected hash and has the new content. Of an error: it is
    -- as it was.
    abbrev pub Replaced : Option String → Result FileError (Unit {0}) × W → Type 0
    Replaced before (ok u, w) =
        (latest : String) × (before ≡ some latest)
        × (equal_fold expected (sha256 latest) ≡ true)
        × (content path w ≡ some raw)
    Replaced before (err e, w) = content path w ≡ before

    checked-Replaced :
        (before : Option String) (e : FileError) (r : Bool × W)
        (next : W → Result FileError (Unit {0}) × W)
        → (r.0 ≡ false → content path r.1 ≡ before)
        → (r.0 ≡ true → Replaced before (next r.1))
        → Replaced before (checked e r next)
    checked-Replaced before e (true, w) next same h = h refl
    checked-Replaced before e (false, w) next same h = same refl

    Replaced-same :
        (before : Option String) (r : Result FileError (Unit {0})) (w w' : W)
        → content path w' ≡ content path w
        → Replaced before (r, w)
        → Replaced before (r, w')
    Replaced-same before (ok u) w w' e (latest, was, hash, new) = (latest, was, hash, e ∙ new)
    Replaced-same before (err x) w w' e h = e ∙ h

    replace_read-Replaced :
        (temp : String) (r : Result FileError String) (w : W)
        → read_auth_file_bounded os paths sha256 path w ≡ r
        → content temp w ≡ some raw
        → Replaced (content path w) (replace_read os paths sha256 is_done path temp expected r w)
    unfolding replace_read
    replace_read-Replaced temp (err x) w e h = refl
    replace_read-Replaced temp (ok latest) w e h =
        elim (Bool-cases (is_changed os paths sha256 expected latest)) [
          | inl x ↦ rw x refl
          | inr x ↦ rw x (elim (Bool-cases (is_done w)) [
            | inl y ↦ rw y refl
            | inr y ↦ rw y (
                checked-Replaced (content path w) not_renamed (os.rename temp path w) _
                  (disk.fails_to_rename temp path w)
                  (λ done. (
                    latest,
                    read_auth_file_bounded-ok path latest w e,
                    same_hash expected latest x,
                    disk.syncs_directory (paths.dir path) path _
                        ∙ disk.renames temp path w done
                        ∙ h,
                  )))
          ])
        ]

    replace_auth_file_cas-Replaced :
        (before : Option String) (temp : String) (w : W)
        → content path w ≡ before
        → content temp w ≡ some raw
        → Replaced before (replace_auth_file_cas os paths sha256 is_done path temp expected w)
    unfolding replace_auth_file_cas
    replace_auth_file_cas-Replaced before temp w same h = elim (Bool-cases (is_done w)) [
      | inl x ↦ rw x same
      | inr x ↦ rw x (
          subst
            (λ b. Replaced b (
              replace_read os paths sha256 is_done path temp expected
                (read_auth_file_bounded os paths sha256 path w) w))
            same (replace_read-Replaced temp _ w refl h))
    ]

    fill_and_replace-Replaced :
        (before : Option String) (temp : String) (mode : ℕ) (w : W)
        → temp ≢ path
        → content path w ≡ before
        → content temp w ≡ some ""
        → Replaced before (fill_and_replace os paths sha256 is_done temp path raw mode expected w)
    unfolding fill_and_replace
    fill_and_replace-Replaced before temp mode w apart same empty =
        let (wrote, w1) = os.write temp raw w in
        let (set, w2) = os.chmod temp mode w1 in
        let (synced, w3) = os.sync temp w2 in
        let same1 : content path w1 ≡ before = disk.writes_other temp raw path w apart ∙ same in
        let same2 : content path w2 ≡ before = disk.chmods temp path mode w1 ∙ same1 in
        let same3 : content path w3 ≡ before = disk.syncs temp path w2 ∙ same2 in
        let same4 : content path (os.close temp w3).1 ≡ before = disk.closes temp path w3 ∙ same3 in
        checked-Replaced before not_written (os.write temp raw w) _ (λ _. same1)
          (λ ok1.
            checked-Replaced before mode_not_set (os.chmod temp mode w1) _ (λ _. same2)
              (λ _.
                checked-Replaced before not_synced (os.sync temp w2) _ (λ _. same3)
                  (λ _.
                    checked-Replaced before not_closed (os.close temp w3) _ (λ _. same4)
                      (λ _. replace_auth_file_cas-Replaced before temp _ same4 (
                        disk.closes temp temp w3
                        ∙ disk.syncs temp temp w2
                        ∙ disk.chmods temp temp mode w1
                        ∙ disk.writes temp raw w empty ok1)))))

    write_temp-Replaced :
        (before : Option String) (temp : Option String) (mode : ℕ) (w : W)
        → content path w ≡ before
        → ((t : String) → temp ≡ some t → (t ≢ path) × (content t w ≡ some ""))
        → Replaced before (write_temp os paths sha256 is_done temp path raw mode expected w)
    unfolding write_temp
    write_temp-Replaced before none mode w same h = same
    write_temp-Replaced before (some temp) mode w same h =
        let (apart, empty) = h temp refl in
        Replaced-same before _ _ _ (disk.removes temp path _ apart ∙ disk.closes temp path _)
          (fill_and_replace-Replaced before temp mode w apart same empty)

    pub atomic_write_auth_file-Replaced :
        (current : String) (mode : ℕ) (w : W)
        → content path w ≡ some current
        → Replaced
            (content path w)
            (atomic_write_auth_file os paths sha256 is_done path raw mode expected w)
    unfolding atomic_write_auth_file
    atomic_write_auth_file-Replaced current mode w here =
        write_temp-Replaced (content path w) (os.create_temp (paths.dir path) w).0 mode _
          (disk.creates_other (paths.dir path) path current w here ∙ sym here)
          (λ t e. (λ same. absent t e same, (disk.creates (paths.dir path) t w e).1))
      where
        absent : (t : String) → (os.create_temp (paths.dir path) w).0 ≡ some t → t ≢ path
        absent t e same =
            ground
              (arith, (disk.creates (paths.dir path) t w e).0, ap (λ q. content q w) same, here)
