-- ===== src/Files/Disk.antt =====
-- The contents of the files, and what the calls of the os package do to them.
use cpa_auto_refresh_quota.Files.{Os}
use cpa_auto_refresh_quota.Base.{ℕ, String, ◌≡◌, ◌≢◌, true, false, Option, none, some, ltb}
use cpa_auto_refresh_quota.Base.Text.{byte_length}

-- What the calls do to the contents of the files, where nobody else writes them meanwhile: a new
-- file is empty and was not there; a write that succeeds fills it; a rename that succeeds moves the content, in
-- one step; the other calls leave every other file as it is.
pub record Disk {W : Type 0} (os : Os W) (content : String → W → Option String) : Type 0 where
  pub reads :
      (limit : ℕ) (path raw : String) (w : W)
      → os.read_at_most limit path w ≡ some raw
      → ltb (byte_length raw) limit ≡ true
      → content path w ≡ some raw
  pub creates :
      (dir temp : String) (w : W)
      → (os.create_temp dir w).0 ≡ some temp
      → (content temp w ≡ none) × (content temp (os.create_temp dir w).1 ≡ some "")
  pub creates_other :
      (dir path text : String) (w : W)
      → content path w ≡ some text
      → content path (os.create_temp dir w).1 ≡ some text
  pub writes :
      (path text : String) (w : W)
      → content path w ≡ some ""
      → (os.write path text w).0 ≡ true
      → content path (os.write path text w).1 ≡ some text
  pub writes_other :
      (path text other : String) (w : W)
      → path ≢ other
      → content other (os.write path text w).1 ≡ content other w
  pub chmods :
      (path other : String) (mode : ℕ) (w : W)
      → content other (os.chmod path mode w).1 ≡ content other w
  pub syncs : (path other : String) (w : W) → content other (os.sync path w).1 ≡ content other w
  pub closes : (path other : String) (w : W) → content other (os.close path w).1 ≡ content other w
  pub renames :
      (source target : String) (w : W)
      → (os.rename source target w).0 ≡ true
      → content target (os.rename source target w).1 ≡ content source w
  pub fails_to_rename :
      (source target : String) (w : W)
      → (os.rename source target w).0 ≡ false
      → content target (os.rename source target w).1 ≡ content target w
  pub removes :
      (path other : String) (w : W)
      → path ≢ other
      → content other (os.remove path w) ≡ content other w
  pub syncs_directory :
      (path other : String) (w : W) → content other (os.sync_directory path w) ≡ content other w
