-- ===== src/Service/Status.antt =====
-- Status of internal/refreshquota/service.go and Summary of internal/refreshquota/config.go: what the
-- service shows of itself. Copies of values are the values; SHA-256 in hexadecimal and
-- Duration.String are parameters.
use cpa_auto_refresh_quota.Service.{RunReport, NextSchedule, Service}
use cpa_auto_refresh_quota.Base.{ℕ, String, Bool, Option, List, map, ◌==◌, if◌then◌else◌}
use cpa_auto_refresh_quota.Base.Int.{ℤ}
use cpa_auto_refresh_quota.Base.Text.{byte_length}
use cpa_auto_refresh_quota.Config.{Config}

pub record ConfigSummary : Type 0 where
  pub host_enabled : Bool
  pub schedule_enabled : Bool
  pub timezone : String
  pub times : List String
  pub model : String
  pub entry_protocol : String
  pub exit_protocol : String
  pub max_tokens : ℤ
  pub providers : List String
  pub include_auth_indices : List String
  pub exclude_auth_indices : List String
  pub physical_files_only : Bool
  pub skip_unavailable : Bool
  pub delay_between_auths : String
  pub temporary_priority : Bool
  pub priority_sync_timeout : String
  pub request_timeout : String
  pub message_bytes : ℕ
  pub message_sha256 : String

pub record Status : Type 0 where
  pub config_generation : ℕ
  pub config : ConfigSummary
  pub config_error : String
  pub priority_recovery_pending : Bool
  pub priority_recovery_error : String
  pub next : Option NextSchedule
  pub running : Bool
  pub active_run : Option RunReport
  pub last_run : Option RunReport
  pub skipped_occurrences : ℕ
  pub last_skipped_occurrence : String
  pub is_stopped : Bool

pub record Summaries : Type 0 where
  pub sha256 : String → String
  pub duration_text : ℤ → String

module _ (summaries : Summaries) where
  unfoldable pub summary : Config → ConfigSummary
  summary c = record {
    host_enabled = c.host_enabled;
    schedule_enabled = c.schedule_enabled;
    timezone = c.timezone;
    times = map (λ t. t.text) c.times;
    model = c.model;
    entry_protocol = c.entry_protocol;
    exit_protocol = c.exit_protocol;
    max_tokens = c.max_tokens;
    providers = c.providers;
    include_auth_indices = c.include_auth_indices;
    exclude_auth_indices = c.exclude_auth_indices;
    physical_files_only = c.physical_files_only;
    skip_unavailable = c.skip_unavailable;
    delay_between_auths = summaries.duration_text c.delay_between_auths;
    temporary_priority = c.temporary_priority;
    priority_sync_timeout = summaries.duration_text c.priority_sync_timeout;
    request_timeout = summaries.duration_text c.request_timeout;
    message_bytes = byte_length c.message;
    message_sha256 = (if c.message == "" then "" else summaries.sha256 c.message);
  }

  unfoldable pub status_of : Service → Status
  unfolding summary
  status_of s = record {
    config_generation = s.config_generation;
    config = summary s.config;
    config_error = s.config_error;
    priority_recovery_pending = s.priority_recovery_pending;
    priority_recovery_error = s.priority_recovery_error;
    next = s.next;
    running = s.running;
    active_run = s.active;
    last_run = s.last;
    skipped_occurrences = s.skipped_occurrences;
    last_skipped_occurrence = s.last_skipped_occurrence;
    is_stopped = s.is_stopped;
  }
