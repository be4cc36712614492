-- ===== src/Schedule/Tests.antt =====
-- The next time on a calendar whose days have 86400 seconds.
use cpa_auto_refresh_quota.Config.{Config}
use cpa_auto_refresh_quota.Base.Number.{digits_text}
use cpa_auto_refresh_quota.Base.Text.{byte_length}
use cpa_auto_refresh_quota.Base.{true}
use cpa_auto_refresh_quota.Service.{Service, new_service, empty_config}
use cpa_auto_refresh_quota.Service.Invariant.{clears_next}
use cpa_auto_refresh_quota.Schedule.Loop.{
  Wait, occurrence_id, schedule_turn, Starts, schedule_turn-Starts,
}
use cpa_auto_refresh_quota.Schedule.{Day, Calendar, max_days, candidate, exists_on, next_occurrence}
use cpa_auto_refresh_quota.Base.Number.{two_digits}
use cpa_auto_refresh_quota.Base.{ℕ, ◌+◌, ◌*◌, ◌/◌, ◌%◌, ◌≡◌, refl, some, List, [], ◌∷◌}
use cpa_auto_refresh_quota.Config.{DailyTime}
use cpa_auto_refresh_quota.Config.Times.{time_text, daily_time}
use cpa_auto_refresh_quota.Schedule.Next.{IsFirst, next_occurrence-IsFirst}

abbrev day_number : ℕ → Day
day_number n = record { year = 2026; month = 1; day = n }

abbrev plain_calendar : Calendar
plain_calendar = record {
  day_after = λ now offset. day_number (now / 86400 + offset);
  instant = λ t. t.date.day * 86400 + t.hour * 3600 + t.minute * 60 + t.second;
  wall = λ n. record {
    date = day_number (n / 86400);
    hour = n % 86400 / 3600;
    minute = n % 3600 / 60;
    second = n % 60;
  };
}

abbrev two_daily_times : List DailyTime
two_daily_times = daily_time 9 30 0 ∷ daily_time 12 0 0 ∷ []

noon : next_occurrence 40_000 (some plain_calendar) two_daily_times ≡ some (43_200, "12:00:00")
unfolding next_occurrence candidate exists_on time_text two_digits
noon = refl

next_morning :
    next_occurrence 50_000 (some plain_calendar) two_daily_times ≡ some (120_600, "09:30:00")
unfolding next_occurrence candidate exists_on time_text two_digits
next_morning = refl

next_occurrence-IsFirst_example :
    IsFirst plain_calendar 50_000 max_days 0 two_daily_times
      (next_occurrence 50_000 (some plain_calendar) two_daily_times)
next_occurrence-IsFirst_example = next_occurrence-IsFirst 50_000 plain_calendar two_daily_times refl

abbrev daily : Config
daily = record (empty_config true) { times = two_daily_times; model = "m"; message = "hi" }

abbrev enabled : Service
enabled = record new_service { config = daily; config_generation = 1 }

abbrev wait : Wait
wait = record {
  meanwhile = clears_next 4 ∷ [];
  fires = true;
  run_id = some "run-1";
  run_ctx = 7;
  run_now = 43_200;
}

named : occurrence_id plain_calendar "UTC" 43_200 "12:00:00" ≡ "2026-01-00|12:00:00|UTC"
unfolding occurrence_id digits_text byte_length
named = refl

schedule_turn-Starts_example :
    Starts daily "UTC" 1 plain_calendar 40_000 enabled wait
      (schedule_turn daily "UTC" 1 enabled plain_calendar 40_000 wait).2
schedule_turn-Starts_example = schedule_turn-Starts daily "UTC" 1 plain_calendar 40_000 enabled wait
