-- ===== src/Transaction/Tests.antt =====
-- An override and its restoration on the concrete host.
use cpa_auto_refresh_quota.Config.Parse.{disabled_config}
use cpa_auto_refresh_quota.Host.Sample.{World, credential, host, saved_files, host-Records}
use cpa_auto_refresh_quota.Override.Sample.{file_marker, json}
use cpa_auto_refresh_quota.Transaction.Stale.{Restorations, recover_stale-Restorations}
use cpa_auto_refresh_quota.Transaction.Undo.{Wrote, restore_priority_file-Wrote}
use cpa_auto_refresh_quota.Transaction.Recovery.{recover_stale_priority_overrides}
use cpa_auto_refresh_quota.Transaction.Restore.{restore_priority_file}
use cpa_auto_refresh_quota.Config.{Config}
use cpa_auto_refresh_quota.Base.{◌≡◌, ◌⊎◌, true, false, some, [], ◌∷◌}
use cpa_auto_refresh_quota.Base.Int.{pos}

abbrev cfg : Config
cfg = record disabled_config { host_enabled = true; temporary_priority = true }

abbrev overridden : World
overridden = ([], "WRITTEN")

restore_priority_file-Wrote_example :
    let (result, w') =
      restore_priority_file json host 1 (pos 5) "a" "a" (some file_marker) overridden in
    Wrote json host saved_files "a" (some file_marker) [] (saved_files w') result
restore_priority_file-Wrote_example =
    restore_priority_file-Wrote json host 1 (pos 5) "a" "a" (some file_marker) saved_files
      host-Records overridden

recover_stale-Restorations_example :
    let ((recovered, has_failed), w') =
      recover_stale_priority_overrides json host
        (λ path. path)
        false
        1
        cfg
        (credential "a" (pos 9) ∷ [])
        overridden in
    Restorations json host saved_files (credential "a" (pos 9) ∷ []) [] (saved_files w')
    × ((recovered ≡ true) ⊎ (has_failed ≡ true) ⊎ (saved_files w' ≡ []))
recover_stale-Restorations_example =
    recover_stale-Restorations json host (λ path. path) false 1 cfg saved_files host-Records
      (credential "a" (pos 9) ∷ []) overridden
