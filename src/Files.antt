-- ===== src/Files.antt =====
-- The credential files as the plugin reads and replaces them: GetAuthFile, SaveAuthFile and what
-- they call in cmd/cpa-auto-refresh-quota/main.go, with replaceAuthFileCAS of replace_unix.go. The
-- calls of the os and path/filepath packages and SHA-256 are parameters; a file's bytes are text.
mod Tests
pub mod Disk
pub mod Replace
pub mod Save
pub mod Update
use cpa_auto_refresh_quota.Host.{AuthFile, Saved, is_saved, file_changed, not_saved}
use cpa_auto_refresh_quota.Override.{Json}
use cpa_auto_refresh_quota.Base.{
  ℕ, ◌+◌, ◌*◌, String, Bool, true, false, not, ◌||◌, Option, none, some, ◌==◌, ltb, if◌then◌else◌,
  is_some, Result, ◌>>=◌, ◌>>◌, refuse_if, ok, err,
}
use cpa_auto_refresh_quota.Base.Text.{trim_space, equal_fold, byte_length}

pub data FileError : Type 0 where
  index_required name_required json_required json_too_large : FileError
  json_empty json_undecodable json_not_object over_limit : FileError
  path_invalid not_inspected not_regular not_opened too_large not_read : FileError
  changed context_done : FileError
  not_created not_written mode_not_set not_synced not_closed not_renamed : FileError
  call_failed other_auth_index : FileError

pub record FileInfo : Type 0 where
  pub is_regular : Bool
  pub size : ℕ
  pub mode : ℕ

-- path/filepath, and whether the system is Windows
pub record Paths : Type 0 where
  pub clean : String → String
  pub is_abs : String → Bool
  pub ext : String → String
  pub base : String → String
  pub dir : String → String
  pub is_windows : Bool

-- The calls of os on a world that holds the files. `opened` is Open with Stat of what it opened, and
-- `read_at_most` is ReadAll of it through a LimitReader; the calls of a temporary file name it by its
-- path.
pub record Os (W : Type 0) : Type 0 where
  pub lstat : String → W → Option FileInfo
  pub opened : String → W → Option FileInfo
  pub read_at_most : ℕ → String → W → Option String
  pub create_temp : String → W → Option String × W
  pub write : String → String → W → Bool × W
  pub chmod : String → ℕ → W → Bool × W
  pub sync : String → W → Bool × W
  pub close : String → W → Bool × W
  pub rename : String → String → W → Bool × W
  pub remove : String → W → W
  pub sync_directory : String → W → W

abbrev pub max_auth_file_write_bytes : ℕ
max_auth_file_write_bytes = 4 * 1024 * 1024

-- What host.auth.get answers, decoded.
pub record HostAuthFile : Type 0 where
  pub auth_index : String
  pub name : String
  pub path : String

-- `if !ok { return err }`, with what comes after
abbrev pub checked :
    {W : Type 0}
    → FileError
    → Bool × W
    → (W → Result FileError (Unit {0}) × W)
    → Result FileError (Unit {0}) × W
checked e (true, w) next = next w
checked e (false, w) next = (err e, w)

unfoldable pub same_auth_file_name : Paths → String → String → Bool
same_auth_file_name paths left right =
    if paths.is_windows then equal_fold left right else left == right

-- The condition on which a cleaned path is refused.
unfoldable pub is_bad_path : Paths → String → String → Bool
unfolding same_auth_file_name
is_bad_path paths name path =
    path == ""
    || not (paths.is_abs path)
    || not (equal_fold (paths.ext path) ".json")
    || not (same_auth_file_name paths (paths.base path) name)

unfoldable pub validate_auth_file_json :
    {V : Type 0} → Json V → String → Result FileError (Unit {0})
validate_auth_file_json json raw =
    refuse_if (trim_space raw == "") json_empty >> elim (json.decode_object raw) [
      | none ↦ err json_undecodable
      | some object ↦ refuse_if (not (is_some object)) json_not_object
    ]

abbrev pub regular : Option FileInfo → Result FileError FileInfo
regular none = err not_inspected
regular (some info) = if info.is_regular then ok info else err not_regular

abbrev pub read_within : Option String → Result FileError String
read_within none = err not_read
read_within (some raw) =
    if ltb max_auth_file_write_bytes (byte_length raw) then err over_limit else ok raw

module _ {W : Type 0} (os : Os W) (paths : Paths) (sha256 : String → String) where
  -- The path and what Lstat says of it; `filepath.Clean` never answers an empty path.
  unfoldable pub validate_physical_auth_file :
      String → String → W → Result FileError (String × FileInfo)
  validate_physical_auth_file name path w =
      let name' = trim_space name in
      let path' = paths.clean (trim_space path) in
      refuse_if (name' == "") name_required
      >> (refuse_if (is_bad_path paths name' path') path_invalid
          >> (regular (os.lstat path' w) >>= λ info. ok (path', info)))

  abbrev pub read_opened : String → W → Option FileInfo → Result FileError String
  read_opened path w none = err not_opened
  read_opened path w (some info) =
      if not info.is_regular
      then err not_regular
      else if ltb max_auth_file_write_bytes info.size
      then err over_limit
      else read_within (os.read_at_most (max_auth_file_write_bytes + 1) path w)

  unfoldable pub read_auth_file_bounded : String → W → Result FileError String
  read_auth_file_bounded path w = read_opened path w (os.opened path w)

  -- `strings.TrimSpace(expected) == "" || !strings.EqualFold(expected, authFileSHA256(current))`
  unfoldable pub is_changed : String → String → Bool
  is_changed expected current =
      trim_space expected == "" || not (equal_fold expected (sha256 current))

  module _ (is_done : W → Bool) where
    unfoldable pub replace_read :
        String → String → String → Result FileError String → W → Result FileError (Unit {0}) × W
    unfolding is_changed
    replace_read target replacement expected (err e) w = (err e, w)
    replace_read target replacement expected (ok latest) w =
        if is_changed expected latest
        then (err changed, w)
        else if is_done w
        then (err context_done, w)
        else checked not_renamed (os.rename replacement target w)
            (λ w1. (ok tt, os.sync_directory (paths.dir target) w1))

    unfoldable pub replace_auth_file_cas :
        String → String → String → W → Result FileError (Unit {0}) × W
    unfolding replace_read
    replace_auth_file_cas target replacement expected w =
        if is_done w
        then (err context_done, w)
        else replace_read target replacement expected (read_auth_file_bounded target w) w

    -- What is done with the temporary file once it is there.
    unfoldable pub fill_and_replace :
        String → String → String → ℕ → String → W → Result FileError (Unit {0}) × W
    unfolding replace_auth_file_cas
    fill_and_replace temp path raw mode expected w =
        checked not_written (os.write temp raw w) (λ w1.
          checked mode_not_set (os.chmod temp mode w1) (λ w2.
            checked not_synced (os.sync temp w2) (λ w3.
              checked not_closed (os.close temp w3)
                (λ w4. replace_auth_file_cas path temp expected w4))))

    -- The deferred calls come last: the file is closed, again, and removed.
    unfoldable pub write_temp :
        Option String → String → String → ℕ → String → W → Result FileError (Unit {0}) × W
    unfolding fill_and_replace
    write_temp none path raw mode expected w = (err not_created, w)
    write_temp (some temp) path raw mode expected w =
        let (result, w1) = fill_and_replace temp path raw mode expected w in
        (result, os.remove temp (os.close temp w1).1)

    unfoldable pub atomic_write_auth_file :
        String → String → ℕ → String → W → Result FileError (Unit {0}) × W
    unfolding write_temp
    atomic_write_auth_file path raw mode expected w =
        let (temp, w1) = os.create_temp (paths.dir path) w in
        write_temp temp path raw mode expected w1

    module _ {V : Type 0} (json : Json V) where
      -- The checks of SaveAuthFile before it reads: the path and the file's mode.
      unfoldable pub check_save : AuthFile → W → Result FileError (String × FileInfo)
      check_save file w =
          refuse_if (trim_space file.auth_index == "") index_required
          >> (refuse_if (trim_space file.name == "") name_required
              >> (refuse_if (trim_space file.json == "") json_required
                  >> (refuse_if (ltb max_auth_file_write_bytes (byte_length file.json))
                        json_too_large
                      >> (validate_auth_file_json json file.json
                          >> validate_physical_auth_file (trim_space file.name) file.path w))))

      unfoldable pub save_read :
          AuthFile → String → ℕ → Result FileError String → W → Result FileError (Unit {0}) × W
      unfolding is_changed
      save_read file path mode (err e) w = (err e, w)
      save_read file path mode (ok current) w =
          if is_changed file.expected_sha256 current
          then (err changed, w)
          else if is_done w
          then (err context_done, w)
          else atomic_write_auth_file path file.json mode file.expected_sha256 w

      unfoldable pub save_checked :
          AuthFile → Result FileError (String × FileInfo) → W → Result FileError (Unit {0}) × W
      unfolding save_read
      save_checked file (err e) w = (err e, w)
      save_checked file (ok (path, info)) w =
          save_read file path info.mode (read_auth_file_bounded path w) w

      unfoldable pub save_auth_file : AuthFile → W → Result FileError (Unit {0}) × W
      unfolding save_checked
      save_auth_file file w = save_checked file (check_save file w) w

      -- GetAuthFile on what the host answers.
      unfoldable pub get_auth_file : String → Option HostAuthFile → W → Result FileError AuthFile
      get_auth_file auth_index none w = err call_failed
      get_auth_file auth_index (some response) w =
          refuse_if (not (trim_space response.auth_index == trim_space auth_index)) other_auth_index
          >> (validate_physical_auth_file response.name response.path w >>= λ (path, info).
              refuse_if (ltb max_auth_file_write_bytes info.size) too_large
              >> (refuse_if (is_done w) context_done
                  >> (read_auth_file_bounded path w >>= λ raw.
                      validate_auth_file_json json raw
                      >> ok (record {
                        auth_index = response.auth_index;
                        name = trim_space response.name;
                        path = path;
                        json = raw;
                        expected_sha256 = sha256 raw;
                      }))))

-- How the callers of SaveAuthFile tell its errors apart.
unfoldable pub saved_of : Result FileError (Unit {0}) → Saved
saved_of (ok u) = is_saved
saved_of (err changed) = file_changed
saved_of (err e) = not_saved
