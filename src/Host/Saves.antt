-- ===== src/Host/Saves.antt =====
-- The credential files that were written, newest first, as a history that the world keeps.
use cpa_auto_refresh_quota.Host.{AuthFile, Saved, Host, is_saved, file_changed, not_saved}
use cpa_auto_refresh_quota.Base.{ℕ, String, ◌≡◌, some, List, ◌∷◌}
use cpa_auto_refresh_quota.Auths.{Auth}
use cpa_auto_refresh_quota.Base.Int.{ℤ}
use cpa_auto_refresh_quota.Pins.Execute.{PinnedModelRequest}

abbrev pub was_saved : Saved → AuthFile → List AuthFile → List AuthFile
was_saved is_saved file files = file ∷ files
was_saved file_changed file files = files
was_saved not_saved file files = files

-- Only SaveAuthFile writes a file, the one that it is given, and only where it answers no error.
pub record Records {W : Type 0} (host : Host W) (saves : W → List AuthFile) : Type 0 where
  pub by_list : (ctx : ℕ) (w : W) → saves (host.list_auths ctx w).1 ≡ saves w
  pub by_runtime :
      (ctx : ℕ) (auth_index : String) (w : W)
      → saves (host.get_runtime_auth ctx auth_index w).1 ≡ saves w
  pub by_file :
      (ctx : ℕ) (auth_index : String) (w : W)
      → saves (host.get_auth_file ctx auth_index w).1 ≡ saves w
  pub by_save :
      (ctx : ℕ) (file : AuthFile) (w : W)
      → saves (host.save_auth_file ctx file w).1
        ≡ was_saved (host.save_auth_file ctx file w).0 file (saves w)
  pub by_execute :
      (ctx : ℕ) (req : PinnedModelRequest) (w : W)
      → saves (host.execute_pinned ctx req w).1 ≡ saves w
  pub by_timeout :
      (ctx : ℕ) (timeout : ℤ) (w : W) → saves (host.with_timeout ctx timeout w).1 ≡ saves w
  pub by_cancel : (ctx : ℕ) (w : W) → saves (host.cancel ctx w) ≡ saves w
  pub by_timer : (ctx : ℕ) (delay : ℤ) (w : W) → saves (host.timer_fires ctx delay w).1 ≡ saves w
  pub by_poll : (ctx : ℕ) (w : W) → saves (host.polled ctx w) ≡ saves w
  pub by_giving_up : (ctx : ℕ) (w : W) → saves (host.gave_up ctx w) ≡ saves w

-- What the host answered, at a time when the files were the given ones: the credentials that
-- ListAuths lists, the credential that GetRuntimeAuth gives for an index, the file that GetAuthFile
-- gives for an index.
pub record Lists {W : Type 0} (host : Host W) (saves : W → List AuthFile) (files : List AuthFile)
    (auths : List Auth) : Type 0 where
  pub ctx : ℕ
  pub world : W
  pub answered : (host.list_auths ctx world).0 ≡ some auths
  pub same : saves world ≡ files

pub record Gives {W : Type 0} (host : Host W) (saves : W → List AuthFile) (files : List AuthFile)
    (auth_index : String) (auth : Auth) : Type 0 where
  pub ctx : ℕ
  pub world : W
  pub answered : (host.get_runtime_auth ctx auth_index world).0 ≡ some auth
  pub same : saves world ≡ files

pub record Reads {W : Type 0} (host : Host W) (saves : W → List AuthFile) (files : List AuthFile)
    (auth_index : String) (file : AuthFile) : Type 0 where
  pub ctx : ℕ
  pub world : W
  pub answered : (host.get_auth_file ctx auth_index world).0 ≡ some file
  pub same : saves world ≡ files
