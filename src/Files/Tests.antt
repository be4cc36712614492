-- ===== src/Files/Tests.antt =====
-- Saving on a concrete disk with one credential file and one temporary file.
use cpa_auto_refresh_quota.Files.{
  FileInfo, Paths, Os, HostAuthFile, is_bad_path, validate_auth_file_json,
  validate_physical_auth_file, read_auth_file_bounded, atomic_write_auth_file, check_save,
  save_auth_file, get_auth_file,
}
use cpa_auto_refresh_quota.Override.{Json, other_value}
use cpa_auto_refresh_quota.Host.{AuthFile}
use cpa_auto_refresh_quota.Files.Update.{get_auth_file-save_auth_file}
use cpa_auto_refresh_quota.Base.Text.{trim_space, equal_fold, byte_length}
use mathlib.Core.Path.{subst}
use cpa_auto_refresh_quota.Files.Disk.{Disk}
use cpa_auto_refresh_quota.Files.Save.{save_auth_file-Replaced}
use cpa_auto_refresh_quota.Files.Replace.{Replaced}
use cpa_auto_refresh_quota.Files.{
  FileInfo, Paths, Os, HostAuthFile, validate_auth_file_json, validate_physical_auth_file,
  read_auth_file_bounded, save_auth_file, get_auth_file,
}
use cpa_auto_refresh_quota.Base.{
  String, ◌≡◌, refl, sym, ap, Bool, true, false, ◌&&◌, Option, none, some, [], arith, ◌==◌, eq_iff,
  if◌then◌else◌, is_some, ok,
}

-- The contents of "/a.json" and of "/t.tmp".
abbrev Store : Type 0
Store = Option String × Option String

abbrev content : String → Store → Option String
content path w = if path == "/a.json" then w.0 else if path == "/t.tmp" then w.1 else none

abbrev info : FileInfo
info = record { is_regular = true; size = 2; mode = 384 }

abbrev created : Option String → Store → Option String × Store
created none w = (some "/t.tmp", (w.0, some ""))
created (some text) w = (none, w)

abbrev os : Os Store
os = record {
  lstat = λ path w. if is_some (content path w) then some info else none;
  opened = λ path w. if is_some (content path w) then some info else none;
  read_at_most = λ limit path w. content path w;
  create_temp = λ dir w. created w.1 w;
  write = λ path text w. if path == "/t.tmp" then (true, (w.0, some text)) else (false, w);
  chmod = λ path mode w. (true, w);
  sync = λ path w. (true, w);
  close = λ path w. (true, w);
  rename = λ source target w.
      if source == "/t.tmp" && target == "/a.json" then (true, (w.1, none)) else (false, w);
  remove = λ path w. if path == "/t.tmp" then (w.0, none) else w;
  sync_directory = λ path w. w;
}

some_inj : {a b : String} → Path (Option String) (some a) (some b) → a ≡ b
some_inj h = cc h

created-creates :
    (temp : String) (w : Store) (t : Option String)
    → w.1 ≡ t
    → (created t w).0 ≡ some temp
    → (content temp w ≡ none) × (content temp (created t w).1 ≡ some "")
created-creates temp w none e h =
    subst (λ t. (content t w ≡ none) × (content t (w.0, some "") ≡ some "")) (some_inj h) (e, refl)
created-creates temp w (some text) e h = cc

created-other :
    (path text : String) (w : Store) (t : Option String)
    → w.1 ≡ t
    → content path w ≡ some text
    → content path (created t w).1 ≡ some text
created-other path text w none e h = ground (arith, e, h)
created-other path text w (some old) e h = h

written :
    (path text : String) (w : Store)
    → (os.write path text w).0 ≡ true
    → content path (os.write path text w).1 ≡ some text
written path text w h =
    subst (λ p. content p (os.write p text w).1 ≡ some text) (sym (is_temp h)) refl
  where
    is_temp : (os.write path text w).0 ≡ true → path ≡ "/t.tmp"
    is_temp done = ground (arith, done, eq_iff path "/t.tmp")

renamed :
    (source target : String) (w : Store)
    → (os.rename source target w).0 ≡ true
    → content target (os.rename source target w).1 ≡ content source w
renamed source target w h =
    subst (λ p. content target (os.rename p target w).1 ≡ content p w) (sym (is_temp h))
      (subst (λ t. content t (os.rename "/t.tmp" t w).1 ≡ w.1) (sym (is_file h)) refl)
  where
    is_temp : (os.rename source target w).0 ≡ true → source ≡ "/t.tmp"
    is_temp done = ground (arith, done, eq_iff source "/t.tmp")

    is_file : (os.rename source target w).0 ≡ true → target ≡ "/a.json"
    is_file done = ground (arith, done, eq_iff target "/a.json")

disk : Disk os content
disk = record {
  reads = λ limit path raw w h short. h;
  creates = λ dir temp w h. created-creates temp w w.1 refl h;
  creates_other = λ dir path text w h. created-other path text w w.1 refl h;
  writes = λ path text w empty done. written path text w done;
  writes_other =
      λ path text other w apart. ground (arith, apart, eq_iff path "/t.tmp", eq_iff other "/t.tmp");
  chmods = λ path other mode w. refl;
  syncs = λ path other w. refl;
  closes = λ path other w. refl;
  renames = λ source target w done. renamed source target w done;
  fails_to_rename = λ source target w failed. ground (arith, failed);
  removes =
      λ path other w apart. ground (arith, apart, eq_iff path "/t.tmp", eq_iff other "/t.tmp");
  syncs_directory = λ path other w. refl;
}

-- The hash of a text is the text, and each object is one of three texts.
abbrev sha256 : String → String
sha256 text = text

abbrev never : Store → Bool
never w = false

abbrev paths : Paths
paths = record {
  clean = λ path. path;
  is_abs = λ path. true;
  ext = λ path. ".json";
  base = λ path. "a.json";
  dir = λ path. "/";
  is_windows = false;
}

abbrev json : Json String
json = record {
  decode_object = λ text. some (some []);
  encode_object = λ fields. "{}";
  decode_marker = λ value. none;
  encode_marker = λ m. "{}";
  decode_value = λ value. other_value;
  number = λ n. "0";
  null = "null";
}

abbrev store : Store
store = (some "old", none)

abbrev file : AuthFile
file = record {
  auth_index = "a";
  name = "a.json";
  path = "/a.json";
  json = "new";
  expected_sha256 = "old";
}

saves : save_auth_file os paths sha256 never json file store ≡ (ok tt, (some "new", none))
unfolding save_auth_file check_save validate_auth_file_json validate_physical_auth_file is_bad_path
    read_auth_file_bounded atomic_write_auth_file trim_space byte_length equal_fold
saves = refl

save_auth_file-Replaced_example :
    Replaced os paths sha256 never content disk "/a.json" "new" "old"
      (some "old")
      (save_auth_file os paths sha256 never json file store)
unfolding trim_space
save_auth_file-Replaced_example =
    save_auth_file-Replaced os paths sha256 never content disk json file store

abbrev response : Option HostAuthFile
response = some (record { auth_index = "a"; name = "a.json"; path = "/a.json" })

gets :
    get_auth_file os paths sha256 never json "a" response store ≡ ok (record file { json = "old" })
unfolding get_auth_file validate_physical_auth_file validate_auth_file_json is_bad_path
    read_auth_file_bounded trim_space byte_length equal_fold
gets = refl

get_auth_file-save_auth_file_example :
    (content "/a.json" store ≡ some "old")
    × (latest : String) × (content "/a.json" store ≡ some latest)
    × (equal_fold "old" latest ≡ true)
    × (content "/a.json" (save_auth_file os paths sha256 never json file store).1 ≡ some "new")
unfolding trim_space
get_auth_file-save_auth_file_example =
    get_auth_file-save_auth_file os paths sha256 never content disk json "a" response
      (record file { json = "old" }) store "new" store gets (ap (λ r. r.0) saves)
