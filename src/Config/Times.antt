-- ===== src/Config/Times.antt =====
-- parseDailyTime and normalizeTimes of internal/refreshquota/config.go.
use Prim.Native.String.{◌++◌ as ◌<>◌}
use cpa_auto_refresh_quota.Base.{
  ℕ, String, Bool, ◌||◌, Option, none, some, List, [], ◌∷◌, ◌++◌, ltb, if◌then◌else◌, length,
  Result, ◌>>=◌, ◌>>◌, refuse_if, ok, err,
}
use cpa_auto_refresh_quota.Base.Text.{trim_space, split, byte_length}
use cpa_auto_refresh_quota.Base.Number.{atoi, two_digits}
use cpa_auto_refresh_quota.Base.Dict.{contains, set_add}
use cpa_auto_refresh_quota.Base.Int.{ℤ, pos, negsuc}
use cpa_auto_refresh_quota.Config.{DailyTime, seconds_since_midnight}
use cpa_auto_refresh_quota.Sort.{sort_slice}

abbrev pub max_time_points : ℕ
max_time_points = 64

-- Each error by its format; the unit it names is "hour", "minute" or "second".
pub data TimeError : Type 0 where
  too_many_times : TimeError
  bad_daily_time : String → TimeError
  bad_unit : String → String → TimeError

unfoldable pub between : ℕ → ℕ → TimeError → Option ℤ → Result TimeError ℕ
between low high e none = err e
between low high e (some (negsuc n)) = err e
between low high e (some (pos n)) = if ltb n low || ltb high n then err e else ok n

-- The closure `parse` of parseDailyTime.
unfoldable pub parse_unit : String → String → String → ℕ → ℕ → Result TimeError ℕ
unfolding between
parse_unit value name text low high =
    if ltb (byte_length text) 1 || ltb 2 (byte_length text)
    then err (bad_unit name value)
    else between low high (bad_unit name value) (atoi text)

unfoldable pub time_text : ℕ → ℕ → ℕ → String
time_text hour minute second =
    two_digits hour <> ":" <> two_digits minute <> ":" <> two_digits second

abbrev pub daily_time : ℕ → ℕ → ℕ → DailyTime
daily_time hour minute second = record {
  hour = hour;
  minute = minute;
  second = second;
  text = time_text hour minute second;
}

unfoldable pub parse_parts : String → List String → Result TimeError DailyTime
parse_parts value (h ∷ m ∷ []) = parse_unit value "hour" h 0 23 >>= λ hour.
    parse_unit value "minute" m 0 59 >>= λ minute. ok (daily_time hour minute 0)
parse_parts value (h ∷ m ∷ s ∷ []) = parse_unit value "hour" h 0 23 >>= λ hour.
    parse_unit value "minute" m 0 59 >>= λ minute.
    parse_unit value "second" s 0 59 >>= λ second. ok (daily_time hour minute second)
parse_parts value parts = err (bad_daily_time value)

unfoldable pub parse_daily_time : String → Result TimeError DailyTime
unfolding parse_parts
parse_daily_time value = parse_parts value (split (trim_space value) ":")

-- The body of the loop, on `seen` and `out`.
unfoldable pub add_time : List String × List DailyTime → DailyTime → List String × List DailyTime
add_time (seen, out) parsed =
    if contains parsed.text seen
    then (seen, out)
    else (set_add parsed.text seen, out ++ parsed ∷ [])

unfoldable pub collect_times :
    List String × List DailyTime → List String → Result TimeError (List String × List DailyTime)
unfolding add_time
collect_times st [] = ok st
collect_times st (value ∷ values) =
    parse_daily_time value >>= λ parsed. collect_times (add_time st parsed) values

unfoldable pub earlier : DailyTime → DailyTime → Bool
unfolding seconds_since_midnight
earlier s t = ltb (seconds_since_midnight s) (seconds_since_midnight t)

unfoldable pub normalize_times : List String → Result TimeError (List DailyTime)
unfolding collect_times
normalize_times values =
    refuse_if (ltb max_time_points (length values)) too_many_times
    >> (collect_times ([], []) values >>= λ st. ok (sort_slice earlier st.1))
