-- ===== src/Config/Tests.antt =====
-- Configurations from concrete settings.
use cpa_auto_refresh_quota.Sort.{sort_slice}
use cpa_auto_refresh_quota.Config.Times.{
  parse_unit, time_text, daily_time, parse_daily_time, earlier, normalize_times,
}
use cpa_auto_refresh_quota.Config.TimeOrder.{IsTime, IsBefore, normalize_times_lem}
use cpa_auto_refresh_quota.Config.Filters.{
  normalized, normalize_strings, normalize_filter_strings, normalize_strings_lem,
}
use cpa_auto_refresh_quota.Config.Equivalent.{equivalent, equivalent_iff}
use cpa_auto_refresh_quota.Base.{
  ◌≤◌, String, ◌≡◌, refl, ◌↔◌, ◌⊎◌, true, false, not, ◌&&◌, Option, none, some, List, [], ◌∷◌, map,
  ◌==◌, All, Pairwise, ok,
}
use cpa_auto_refresh_quota.Base.Text.{trim_space, to_lower, equal_fold, split, byte_length}
use cpa_auto_refresh_quota.Base.Dict.{contains, set_add, AllDistinct}
use cpa_auto_refresh_quota.Base.Int.{ℤ, pos}
use cpa_auto_refresh_quota.Base.Number.{atoi, two_digits}
use cpa_auto_refresh_quota.Config.{DailyTime, Config}
use cpa_auto_refresh_quota.Config.Parse.{
  RawConfig, empty_raw, Trailing, disabled_config, from_option, from_times, from_filter,
  parse_config, end_of_file,
}
use cpa_auto_refresh_quota.Config.Parse.Bounds.{IsValid, parse_config-IsValid}

abbrev scheduled : RawConfig
scheduled = record empty_raw {
  schedule_enabled = true;
  times = "9:30" ∷ " 07:05:10" ∷ "09:30:00" ∷ [];
  model = " m ";
  message = "hi";
  max_tokens = some (pos 32);
  providers = "Codex" ∷ " codex " ∷ [];
}

abbrev two_times : List DailyTime
two_times = daily_time 7 5 10 ∷ daily_time 9 30 0 ∷ []

times_normalized : normalize_times (scheduled.times) ≡ ok two_times
unfolding normalize_times parse_daily_time trim_space contains set_add sort_slice earlier split atoi
    parse_unit byte_length time_text two_digits
times_normalized = refl

normalize_times_lem_example : (3 ≤ 64) × All IsTime two_times × Pairwise IsBefore two_times
normalize_times_lem_example = normalize_times_lem scheduled.times two_times times_normalized

normalize_strings_lem_example :
    AllDistinct (normalize_strings (" A" ∷ "" ∷ "a" ∷ []) true)
    × ((k : String)
        → contains k (normalize_strings (" A" ∷ "" ∷ "a" ∷ []) true)
          ≡ (not (k == "") && contains k (map (normalized true) (" A" ∷ "" ∷ "a" ∷ []))))
normalize_strings_lem_example = normalize_strings_lem (" A" ∷ "" ∷ "a" ∷ []) true

abbrev no_location : String → Option String
no_location zone = none

abbrev no_duration : String → Option ℤ
no_duration text = none

abbrev decodes_to_scheduled : String → Option RawConfig
decodes_to_scheduled raw = some scheduled

abbrev nothing_follows : String → Trailing
nothing_follows raw = end_of_file

abbrev parsed : Config
parsed = record {
  host_enabled = true;
  schedule_enabled = true;
  timezone = "Local";
  location = some "Local";
  times = two_times;
  model = "m";
  message = "hi";
  entry_protocol = "openai";
  exit_protocol = "openai";
  max_tokens = pos 32;
  providers = "codex" ∷ [];
  include_auth_indices = [];
  exclude_auth_indices = [];
  physical_files_only = true;
  skip_unavailable = true;
  delay_between_auths = pos 1_000_000_000;
  temporary_priority = false;
  priority_sync_timeout = pos 5_000_000_000;
  request_timeout = pos 120_000_000_000;
}

parses :
    parse_config no_location no_duration decodes_to_scheduled nothing_follows "times: ..."
    ≡ ok parsed
unfolding parse_config trim_space from_option equal_fold from_times normalize_times parse_daily_time
    split parse_unit byte_length atoi sort_slice set_add time_text two_digits earlier from_filter
    normalize_filter_strings to_lower contains
parses = refl

parse_config-IsValid_example : (parsed ≡ disabled_config) ⊎ IsValid parsed
parse_config-IsValid_example =
    parse_config-IsValid no_location no_duration decodes_to_scheduled nothing_follows "times: ..."
      parsed parses

equivalent_iff_example :
    (equivalent parsed (record parsed { location = none }) ≡ true)
    ↔ (record parsed { location = none } ≡ record parsed { location = none })
equivalent_iff_example = equivalent_iff parsed (record parsed { location = none })
