-- ===== src/Config.antt =====
-- The plugin's configuration: internal/refreshquota/config.go. A *time.Location is held by its
-- name, `none` for nil; durations are nanoseconds.
mod Tests
pub mod Equivalent
pub mod Parse
pub mod Times
pub mod TimeOrder
pub mod Filters
use cpa_auto_refresh_quota.Base.{ℕ, ◌+◌, ◌*◌, String, Bool, Option, List}
use cpa_auto_refresh_quota.Base.Int.{ℤ}

pub record DailyTime : Type 0 where
  pub hour : ℕ
  pub minute : ℕ
  pub second : ℕ
  pub text : String

unfoldable pub seconds_since_midnight : DailyTime → ℕ
seconds_since_midnight t = t.hour * 60 * 60 + t.minute * 60 + t.second

pub record Config : Type 0 where
  pub host_enabled : Bool
  pub schedule_enabled : Bool
  pub timezone : String
  pub location : Option String
  pub times : List DailyTime
  pub model : String
  pub message : String
  pub entry_protocol : String
  pub exit_protocol : String
  pub max_tokens : ℤ
  pub providers : List String
  pub include_auth_indices : List String
  pub exclude_auth_indices : List String
  pub physical_files_only : Bool
  pub skip_unavailable : Bool
  pub delay_between_auths : ℤ
  pub temporary_priority : Bool
  pub priority_sync_timeout : ℤ
  pub request_timeout : ℤ
