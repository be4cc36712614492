-- ===== src/Files/Update.antt =====
-- A credential file that is read, changed and saved again.
use cpa_auto_refresh_quota.Files.Disk.{Disk}
use cpa_auto_refresh_quota.Override.{Json}
use cpa_auto_refresh_quota.Host.{AuthFile}
use cpa_auto_refresh_quota.Files.Save.{save_auth_file-Replaced}
use cpa_auto_refresh_quota.Files.Replace.{Replaced, read_auth_file_bounded-ok}
use cpa_auto_refresh_quota.Files.{
  FileError, Paths, Os, max_auth_file_write_bytes, HostAuthFile, validate_auth_file_json,
  validate_physical_auth_file, read_auth_file_bounded, save_auth_file, get_auth_file, too_large,
  context_done, other_auth_index,
}
use mathlib.Core.Path.{subst}
use cpa_auto_refresh_quota.Base.{
  String, ◌≡◌, refl, Bool, true, not, Option, none, some, ◌==◌, ltb, Result, refuse_if, >>=-eq-ok,
  ok_inj, ok, err,
}
use cpa_auto_refresh_quota.Base.Text.{trim_space, equal_fold}

module _ {W : Type 0} (os : Os W) (paths : Paths) (sha256 : String → String) (is_done : W → Bool)
    (content : String → W → Option String) (disk : Disk os content) {V : Type 0}
    (json : Json V) where
  -- What GetAuthFile answers is the file's content, with its hash.
  abbrev IsCurrent : AuthFile → W → Type 0
  IsCurrent file w =
      (content file.path w ≡ some file.json) × (file.expected_sha256 ≡ sha256 file.json)

  get_auth_file-IsCurrent :
      (auth_index : String) (response : Option HostAuthFile) (file : AuthFile) (w : W)
      → get_auth_file os paths sha256 is_done json auth_index response w ≡ ok file
      → IsCurrent file w
  unfolding get_auth_file
  get_auth_file-IsCurrent auth_index none file w h = cc
  get_auth_file-IsCurrent auth_index (some response) file w h =
      let (_, _, h1) =
        >>=-eq-ok
          (refuse_if (not (trim_space response.auth_index == trim_space auth_index))
            other_auth_index)
          _ h in
      let ((path, info), _, h2) =
        >>=-eq-ok (validate_physical_auth_file os paths sha256 response.name response.path w) _
          h1 in
      let (_, _, h3) =
        >>=-eq-ok (refuse_if (ltb max_auth_file_write_bytes info.size) too_large) _ h2 in
      let (_, _, h4) = >>=-eq-ok (refuse_if (is_done w) context_done) _ h3 in
      let (raw, read, h5) = >>=-eq-ok (read_auth_file_bounded os paths sha256 path w) _ h4 in
      let (_, _, h6) = >>=-eq-ok (validate_auth_file_json json raw) _ h5 in
      subst (λ f. IsCurrent f w) (ok_inj h6)
        (read_auth_file_bounded-ok os paths sha256 is_done content disk path raw w read, refl)

  saved :
      (file : AuthFile) (before : Option String) (r : Result FileError (Unit {0})) (w : W)
      → r ≡ ok tt
      → Replaced os paths sha256 is_done content disk
          (paths.clean (trim_space file.path))
          file.json
          file.expected_sha256
          before
          (r, w)
      → (latest : String) × (before ≡ some latest)
        × (equal_fold file.expected_sha256 (sha256 latest) ≡ true)
        × (content (paths.clean (trim_space file.path)) w ≡ some file.json)
  saved file before (ok u) w e h = h
  saved file before (err x) w e h = cc

  -- What GetAuthFile answers is the content of the file that it names. If SaveAuthFile, in any later
  -- state, answers no error on it with another JSON, then the file still had a content of the same
  -- hash, up to the case of its letters, and now holds the other JSON; given that nobody else
  -- writes the file during the two calls.
  pub get_auth_file-save_auth_file :
      (auth_index : String) (response : Option HostAuthFile) (file : AuthFile) (w : W)
      (modified : String) (later : W)
      → get_auth_file os paths sha256 is_done json auth_index response w ≡ ok file
      → (save_auth_file os paths sha256 is_done json (record file { json = modified }) later).0
        ≡ ok tt
      → let path = paths.clean (trim_space file.path) in
        let (_, w') =
          save_auth_file os paths sha256 is_done json (record file { json = modified }) later in
        (content file.path w ≡ some file.json)
        × (latest : String) × (content path later ≡ some latest)
        × (equal_fold (sha256 file.json) (sha256 latest) ≡ true)
        × (content path w' ≡ some modified)
  get_auth_file-save_auth_file auth_index response file w modified later got done =
      let (is_content, is_hash) = get_auth_file-IsCurrent auth_index response file w got in
      let (latest, was, same, new) =
        saved (record file { json = modified }) (content (paths.clean (trim_space file.path)) later)
          _ _ done
          (save_auth_file-Replaced os paths sha256 is_done content disk json
            (record file { json = modified }) later) in
      (
        is_content,
        latest,
        was,
        subst (λ hash. equal_fold hash (sha256 latest) ≡ true) is_hash same,
        new,
      )
