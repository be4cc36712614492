-- ===== src/Config/Parse.antt =====
-- ParseConfig, supportedExitProtocol and StringList.UnmarshalYAML of internal/refreshquota/config.go.
-- What gopkg.in/yaml.v3 and the time package read of a text is a parameter.
pub mod Bounds
use cpa_auto_refresh_quota.Base.{
  ℕ, ◌*◌, String, Bool, true, false, not, ◌||◌, Option, none, some, List, [], ◌∷◌, ◌==◌, ltb,
  if◌then◌else◌, option_or, is_empty, Result, ◌>>=◌, ◌>>◌, refuse_if, ok, err,
}
use cpa_auto_refresh_quota.Base.Text.{trim_space, to_lower, equal_fold, split, byte_length}
use cpa_auto_refresh_quota.Base.Dict.{contains}
use cpa_auto_refresh_quota.Base.Int.{ℤ, ltb_ℤ, pos}
use cpa_auto_refresh_quota.Config.Times.{TimeError, normalize_times}
use cpa_auto_refresh_quota.Config.Filters.{normalize_filter_strings}
use cpa_auto_refresh_quota.Config.{DailyTime, Config}

-- What UnmarshalYAML reads of a *yaml.Node: of a scalar its tag and its value.
pub data Item : Type 0 where
  scalar_item : String → String → Item
  other_item : Item

pub data Node : Type 0 where
  sequence_node : List Item → Node
  scalar_node : String → String → Node
  other_node : Node

pub data ListError : Type 0 where
  values_must_be_strings expected_string_or_list : ListError

unfoldable pub item_values : List Item → Result ListError (List String)
item_values [] = ok []
item_values (other_item ∷ items) = err values_must_be_strings
item_values (scalar_item tag value ∷ items) =
    refuse_if (not (tag == "!!str")) values_must_be_strings
    >> (item_values items >>= λ rest. ok (value ∷ rest))

-- `none` is the nil node.
unfoldable pub unmarshal_yaml : Option Node → Result ListError (List String)
unfolding item_values
unmarshal_yaml none = ok []
unmarshal_yaml (some (sequence_node items)) = item_values items
unmarshal_yaml (some other_node) = err expected_string_or_list
unmarshal_yaml (some (scalar_node tag value)) =
    if tag == "!!null"
    then ok []
    else if not (tag == "!!str")
    then err expected_string_or_list
    else if trim_space value == ""
    then ok (value ∷ [])
    else ok (split (trim_space value) ",")

-- rawConfig less `store`, which nothing reads; `none` is a nil pointer.
pub record RawConfig : Type 0 where
  pub host_enabled : Option Bool
  pub host_priority : ℤ
  pub schedule_enabled : Bool
  pub timezone : String
  pub times : List String
  pub model : String
  pub message : String
  pub entry_protocol : String
  pub exit_protocol : String
  pub max_tokens : Option ℤ
  pub providers : List String
  pub include_auth_indices : List String
  pub exclude_auth_indices : List String
  pub physical_files_only : Option Bool
  pub skip_unavailable : Option Bool
  pub delay_between_auths_raw : String
  pub temporary_priority : Option Bool
  pub priority_sync_raw : String
  pub request_timeout_raw : String

abbrev pub empty_raw : RawConfig
empty_raw = record {
  host_enabled = none;
  host_priority = pos 0;
  schedule_enabled = false;
  timezone = "";
  times = [];
  model = "";
  message = "";
  entry_protocol = "";
  exit_protocol = "";
  max_tokens = none;
  providers = [];
  include_auth_indices = [];
  exclude_auth_indices = [];
  physical_files_only = none;
  skip_unavailable = none;
  delay_between_auths_raw = "";
  temporary_priority = none;
  priority_sync_raw = "";
  request_timeout_raw = "";
}

-- What a second Decode finds behind the first document.
pub data Trailing : Type 0 where
  end_of_file another_document malformed : Trailing

pub data ConfigError : Type 0 where
  undecodable multiple_documents : ConfigError
  invalid_timezone : String → ConfigError
  bad_max_tokens : ConfigError
  invalid_duration out_of_range : String → ConfigError
  bad_times : TimeError → ConfigError
  message_too_long no_times no_model no_message bad_entry_protocol bad_exit_protocol : ConfigError
  empty_filter : String → ConfigError

abbrev pub nanoseconds_per_second : ℕ
nanoseconds_per_second = 1_000_000_000

abbrev pub disabled_config : Config
disabled_config = record {
  host_enabled = false;
  schedule_enabled = false;
  timezone = "";
  location = none;
  times = [];
  model = "";
  message = "";
  entry_protocol = "";
  exit_protocol = "";
  max_tokens = pos 0;
  providers = [];
  include_auth_indices = [];
  exclude_auth_indices = [];
  physical_files_only = false;
  skip_unavailable = false;
  delay_between_auths = pos 0;
  temporary_priority = false;
  priority_sync_timeout = pos 0;
  request_timeout = pos 0;
}

unfoldable pub supported_exit_protocol : String → Bool
unfolding contains
supported_exit_protocol protocol = contains protocol (
    "openai" ∷ "openai-response" ∷ "claude" ∷ "gemini" ∷ "codex" ∷ "antigravity" ∷ "interactions"
    ∷ [])

-- A text that stands for `other` when it is empty.
abbrev pub default_text : String → String → String
default_text value other = if value == "" then other else value

unfoldable pub from_option {ℓ} : {A : Type ℓ} → Option A → ConfigError → Result ConfigError A
from_option none e = err e
from_option (some a) e = ok a

unfoldable pub from_times : Result TimeError (List DailyTime) → Result ConfigError (List DailyTime)
from_times (ok times) = ok times
from_times (err e) = err (bad_times e)

unfoldable pub from_filter : Result String (List String) → Result ConfigError (List String)
from_filter (ok values) = ok values
from_filter (err name) = err (empty_filter name)

unfoldable pub decoded_config :
    (String → Option RawConfig) → (String → Trailing) → String → Result ConfigError RawConfig
decoded_config decode decode_next raw =
    if trim_space raw == ""
    then ok empty_raw
    else (from_option (decode raw) undecodable >>= λ decoded. (elim (decode_next raw) [
      | end_of_file ↦ ok decoded
      | another_document ↦ err multiple_documents
      | malformed ↦ err undecodable
    ]))

unfoldable pub location_of : (String → Option String) → String → Result ConfigError String
location_of load_location timezone =
    if equal_fold timezone "local"
    then ok "Local"
    else from_option (load_location timezone) (invalid_timezone timezone)

-- The text of a duration, where it has one.
unfoldable pub stated_duration : (String → Option ℤ) → String → String → ℕ → Result ConfigError ℤ
stated_duration parse_duration name raw default =
    if trim_space raw == ""
    then ok (pos default)
    else from_option (parse_duration (trim_space raw)) (invalid_duration name)

-- One of the three durations, with its bounds.
unfoldable pub duration_of :
    (String → Option ℤ) → String → String → ℕ → ℕ → ℕ → Result ConfigError ℤ
unfolding stated_duration
duration_of parse_duration name raw default low high =
    stated_duration parse_duration name raw default >>= λ duration.
    refuse_if (ltb_ℤ duration (pos low) || ltb_ℤ (pos high) duration) (out_of_range name)
    >> ok duration

-- The block under `if decoded.ScheduleEnabled`.
unfoldable pub check_schedule : RawConfig → List DailyTime → Result ConfigError (Unit {0})
check_schedule decoded times =
    if decoded.schedule_enabled
    then (refuse_if (is_empty times) no_times
        >> refuse_if (trim_space decoded.model == "") no_model
        >> refuse_if (trim_space decoded.message == "") no_message)
    else ok tt

module _ (load_location : String → Option String) (parse_duration : String → Option ℤ) where
  unfoldable pub parse_enabled : RawConfig → Result ConfigError Config
  unfolding location_of duration_of check_schedule supported_exit_protocol
  parse_enabled decoded =
      let timezone = default_text (trim_space decoded.timezone) "Local" in
      let max_tokens = option_or decoded.max_tokens (pos 16) in
      let entry_protocol = default_text (to_lower (trim_space decoded.entry_protocol)) "openai" in
      let exit_protocol = default_text (to_lower (trim_space decoded.exit_protocol)) "openai" in
      location_of load_location timezone >>= λ location.
      refuse_if (ltb_ℤ max_tokens (pos 1) || ltb_ℤ (pos 4096) max_tokens) bad_max_tokens
      >> duration_of parse_duration "delay_between_auths" decoded.delay_between_auths_raw
          nanoseconds_per_second 0 (3600 * nanoseconds_per_second)
      >>= λ delay.
          duration_of parse_duration "priority_sync_timeout" decoded.priority_sync_raw
            (5 * nanoseconds_per_second) 100_000_000 (60 * nanoseconds_per_second)
          >>= λ sync.
              duration_of parse_duration "request_timeout" decoded.request_timeout_raw
                (120 * nanoseconds_per_second) nanoseconds_per_second
                (1800 * nanoseconds_per_second)
              >>= λ timeout. from_times (normalize_times decoded.times) >>= λ times.
                  refuse_if (ltb 65536 (byte_length decoded.message)) message_too_long
                  >> check_schedule decoded times
                  >> refuse_if (not (entry_protocol == "openai")) bad_entry_protocol
                  >> refuse_if (not (supported_exit_protocol exit_protocol)) bad_exit_protocol
                  >> from_filter (normalize_filter_strings "providers" decoded.providers true)
                  >>= λ providers.
                      from_filter (
                        normalize_filter_strings "include_auth_indices" decoded.include_auth_indices
                          false)
                      >>= λ included.
                          from_filter (
                            normalize_filter_strings "exclude_auth_indices"
                              decoded.exclude_auth_indices false)
                          >>= λ excluded. ok (record {
                            host_enabled = true;
                            schedule_enabled = decoded.schedule_enabled;
                            timezone = timezone;
                            location = some location;
                            times = times;
                            model = trim_space decoded.model;
                            message = decoded.message;
                            entry_protocol = entry_protocol;
                            exit_protocol = exit_protocol;
                            max_tokens = max_tokens;
                            providers = providers;
                            include_auth_indices = included;
                            exclude_auth_indices = excluded;
                            physical_files_only = option_or decoded.physical_files_only true;
                            skip_unavailable = option_or decoded.skip_unavailable true;
                            delay_between_auths = delay;
                            temporary_priority = option_or decoded.temporary_priority false;
                            priority_sync_timeout = sync;
                            request_timeout = timeout;
                          })

  unfoldable pub parse_config :
      (String → Option RawConfig) → (String → Trailing) → String → Result ConfigError Config
  unfolding decoded_config parse_enabled
  parse_config decode decode_next raw = decoded_config decode decode_next raw >>= λ decoded.
      if not (option_or decoded.host_enabled true)
      then ok disabled_config
      else parse_enabled decoded
