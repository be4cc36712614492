-- ===== src/Service.antt =====
-- The service's state and the operations on it: internal/refreshquota/service.go. Each section of
-- code under `mu` is one step; a function of several such sections is their sequence, between which
-- other goroutines' steps may come. A context.CancelFunc is the number of its context, given when
-- the context is made; what is done outside `mu` is answered as a list of effects. Instants are
-- nanoseconds since a fixed one.
mod Tests
pub mod Configure
pub mod Runs
pub mod Invariant
pub mod Occurrences
pub mod Exclusive
pub mod Succession
pub mod Lifecycle
pub mod Once
pub mod Manual
pub mod Status
use cpa_auto_refresh_quota.Base.{ℕ, String, Bool, false, Option, none, some, List, [], ◌∷◌}
use cpa_auto_refresh_quota.Base.Int.{ℤ, pos}
use cpa_auto_refresh_quota.Config.{Config}

pub record AuthResult : Type 0 where
  pub auth_index : String
  pub provider : String
  pub priority : ℤ
  pub priority_override_required : Bool
  pub priority_override_to : ℤ
  pub outcome : String
  pub status_code : ℤ
  pub response_bytes : ℕ
  pub duration_ms : ℤ
  pub error : String

pub record RunReport : Type 0 where
  pub run_id : String
  pub trigger : String
  pub occurrence_id : String
  pub dry_run : Bool
  pub started_at : ℕ
  pub finished_at : Option ℕ
  pub duration_ms : ℤ
  pub target_count : ℕ
  pub success_count : ℕ
  pub failed_count : ℕ
  pub skipped_count : ℕ
  pub canceled : Bool
  pub error : String
  pub results : List AuthResult

pub record ManualRunOptions : Type 0 where
  pub dry_run : Bool
  pub auth_indices : List String

pub record NextSchedule : Type 0 where
  pub occurrence_id : String
  pub local : ℕ
  pub utc : ℕ

pub data Error : Type 0 where
  busy stopped not_configured duplicate run_id_failed : Error
  bad_config : String → Error

abbrev pub max_remembered_occurrences : ℕ
max_remembered_occurrences = 512

abbrev pub u64 : ℕ
u64 = 18_446_744_073_709_551_616

pub record Service : Type 0 where
  pub config : Config
  pub config_generation : ℕ
  pub config_error : String
  pub next : Option NextSchedule
  pub active : Option RunReport
  pub last : Option RunReport
  pub running : Bool
  pub is_stopped : Bool
  pub scheduler_cancel : Option ℕ
  pub active_cancel : Option ℕ
  pub recovery_cancel : Option ℕ
  pub recovery_generation : ℕ
  pub priority_recovery_pending : Bool
  pub priority_recovery_error : String
  pub occurrences : List String
  pub occurrence_order : List String
  pub skipped_occurrences : ℕ
  pub last_skipped_occurrence : String

-- What a step does after it has given the lock back: cancel a context, or start a goroutine.
pub data Effect : Type 0 where
  cancels : ℕ → Effect
  starts_schedule_loop : ℕ → Config → ℕ → Effect
  starts_recovery : ℕ → Config → ℕ → Effect
  starts_run : ℕ → Config → ManualRunOptions → RunReport → Effect

-- The zero Config, with HostEnabled as ParseConfig's failure leaves it.
abbrev pub empty_config : Bool → Config
empty_config host_enabled = record {
  host_enabled = host_enabled;
  schedule_enabled = false;
  timezone = "";
  location = none;
  times = [];
  model = "";
  message = "";
  entry_protocol = "";
  exit_protocol = "";
  max_tokens = pos 0;
  providers = [];
  include_auth_indices = [];
  exclude_auth_indices = [];
  physical_files_only = false;
  skip_unavailable = false;
  delay_between_auths = pos 0;
  temporary_priority = false;
  priority_sync_timeout = pos 0;
  request_timeout = pos 0;
}

abbrev pub new_service : Service
new_service = record {
  config = empty_config false;
  config_generation = 0;
  config_error = "";
  next = none;
  active = none;
  last = none;
  running = false;
  is_stopped = false;
  scheduler_cancel = none;
  active_cancel = none;
  recovery_cancel = none;
  recovery_generation = 0;
  priority_recovery_pending = false;
  priority_recovery_error = "";
  occurrences = [];
  occurrence_order = [];
  skipped_occurrences = 0;
  last_skipped_occurrence = "";
}

-- `if f != nil { f() }`
abbrev pub cancel_of : Option ℕ → List Effect
cancel_of none = []
cancel_of (some ctx) = cancels ctx ∷ []
