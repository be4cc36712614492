-- ===== src/Files/Save.antt =====
-- What SaveAuthFile does to a credential file.
use cpa_auto_refresh_quota.Files.Disk.{Disk}
use cpa_auto_refresh_quota.Override.{Json}
use cpa_auto_refresh_quota.Host.{AuthFile}
use cpa_auto_refresh_quota.Files.{
  FileError, FileInfo, Paths, Os, max_auth_file_write_bytes, is_bad_path, validate_auth_file_json,
  regular, validate_physical_auth_file, read_auth_file_bounded, is_changed, check_save, save_read,
  save_checked, save_auth_file, index_required, name_required, json_required, json_too_large,
  path_invalid,
}
use mathlib.Core.Path.{subst}
use cpa_auto_refresh_quota.Base.{
  ℕ, String, ◌≡◌, refl, sym, ap, inl, inr, Bool, Option, ◌==◌, ltb, Bool-cases, Result, refuse_if,
  >>=-eq-ok, ok_inj, ok, err,
}
use cpa_auto_refresh_quota.Base.Text.{trim_space, byte_length}
use cpa_auto_refresh_quota.Files.Replace.{
  Replaced, atomic_write_auth_file-Replaced, read_auth_file_bounded-ok,
}

module _ {W : Type 0} (os : Os W) (paths : Paths) (sha256 : String → String) (is_done : W → Bool)
    (content : String → W → Option String) (disk : Disk os content) where
  validate_physical-path :
      (name given path : String) (info : FileInfo) (w : W)
      → validate_physical_auth_file os paths sha256 name given w ≡ ok (path, info)
      → path ≡ paths.clean (trim_space given)
  unfolding validate_physical_auth_file
  validate_physical-path name given path info w h =
      let (_, _, h1) = >>=-eq-ok (refuse_if (trim_space name == "") name_required) _ h in
      let (_, _, h2) =
        >>=-eq-ok
          (refuse_if (is_bad_path paths (trim_space name) (paths.clean (trim_space given)))
            path_invalid)
          _ h1 in
      let (_, _, h3) = >>=-eq-ok (regular (os.lstat (paths.clean (trim_space given)) w)) _ h2 in
      sym (ap (λ x. x.0) (ok_inj h3))

  module _ {V : Type 0} (json : Json V) (file : AuthFile) where
    abbrev pub target : String
    target = paths.clean (trim_space file.path)

    check_save-path :
        (path : String) (info : FileInfo) (w : W)
        → check_save os paths sha256 is_done json file w ≡ ok (path, info)
        → path ≡ target
    unfolding check_save
    check_save-path path info w h =
        let (_, _, h1) =
          >>=-eq-ok (refuse_if (trim_space file.auth_index == "") index_required) _ h in
        let (_, _, h2) = >>=-eq-ok (refuse_if (trim_space file.name == "") name_required) _ h1 in
        let (_, _, h3) = >>=-eq-ok (refuse_if (trim_space file.json == "") json_required) _ h2 in
        let (_, _, h4) =
          >>=-eq-ok
            (refuse_if (ltb max_auth_file_write_bytes (byte_length file.json)) json_too_large) _
            h3 in
        let (_, _, h5) = >>=-eq-ok (validate_auth_file_json json file.json) _ h4 in
        validate_physical-path (trim_space file.name) file.path path info w h5

    save_read-Replaced :
        (mode : ℕ) (w : W) (r : Result FileError String)
        → read_auth_file_bounded os paths sha256 target w ≡ r
        → Replaced os paths sha256 is_done content disk target file.json file.expected_sha256
            (content target w)
            (save_read os paths sha256 is_done json file target mode r w)
    unfolding save_read
    save_read-Replaced mode w (err x) e = refl
    save_read-Replaced mode w (ok current) e =
        elim (Bool-cases (is_changed os paths sha256 file.expected_sha256 current)) [
          | inl x ↦ rw x refl
          | inr x ↦ rw x (elim (Bool-cases (is_done w)) [
            | inl y ↦ rw y refl
            | inr y ↦ rw y (
                atomic_write_auth_file-Replaced os paths sha256 is_done content disk target
                  file.json file.expected_sha256 current mode w
                  (read_auth_file_bounded-ok os paths sha256 is_done content disk target current w
                    e))
          ])
        ]

    save_checked-Replaced :
        (r : Result FileError (String × FileInfo)) (w : W)
        → check_save os paths sha256 is_done json file w ≡ r
        → Replaced os paths sha256 is_done content disk target file.json file.expected_sha256
            (content target w)
            (save_checked os paths sha256 is_done json file r w)
    unfolding save_checked
    save_checked-Replaced (err x) w h = refl
    save_checked-Replaced (ok (path, info)) w h =
        subst
          (λ p.
            Replaced os paths sha256 is_done content disk target file.json file.expected_sha256
              (content target w)
              (save_read os paths sha256 is_done json file p info.mode
                (read_auth_file_bounded os paths sha256 p w) w))
          (sym (check_save-path path info w h)) (save_read-Replaced info.mode w _ refl)

    -- SaveAuthFile that answers no error replaced a file whose content, read right before, had the
    -- expected hash, and the file then holds the new JSON whole; with an error the file is as it
    -- was, wherever the error came from; given that nobody else writes the file during the call.
    pub save_auth_file-Replaced :
        (w : W)
        → Replaced os paths sha256 is_done content disk target file.json file.expected_sha256
            (content target w)
            (save_auth_file os paths sha256 is_done json file w)
    unfolding save_auth_file
    save_auth_file-Replaced w = save_checked-Replaced _ w refl
