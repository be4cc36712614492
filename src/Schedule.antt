-- ===== src/Schedule.antt =====
-- The next time of the schedule: NextOccurrence of internal/refreshquota/schedule.go. What the time
-- package computes for a location is a parameter; `none` is a nil location, and no time the zero time.
mod Tests
pub mod Next
pub mod Loop
use cpa_auto_refresh_quota.Base.{
  ℕ, zero, suc, String, Bool, true, not, ◌&&◌, Option, none, some, List, [], ◌∷◌, ltb, ◌=ℕ◌,
  if◌then◌else◌, is_empty,
}
use cpa_auto_refresh_quota.Config.{DailyTime}

pub record Day : Type 0 where
  pub year : ℕ
  pub month : ℕ
  pub day : ℕ

pub record WallTime : Type 0 where
  pub date : Day
  pub hour : ℕ
  pub minute : ℕ
  pub second : ℕ

-- The day so many days after an instant's, the instant that time.Date makes of a wall time, and the
-- wall time of an instant.
pub record Calendar : Type 0 where
  pub day_after : ℕ → ℕ → Day
  pub instant : WallTime → ℕ
  pub wall : ℕ → WallTime

abbrev pub max_days : ℕ
max_days = 370

module _ (location : Calendar) (now : ℕ) where
  abbrev pub wall_time : Day → DailyTime → WallTime
  wall_time day item = record {
    date = day;
    hour = item.hour;
    minute = item.minute;
    second = item.second;
  }

  unfoldable pub candidate : Day → DailyTime → ℕ
  candidate day item = location.instant (wall_time day item)

  -- The wall time exists: the instant shows it.
  unfoldable pub exists_on : Day → DailyTime → Bool
  unfolding candidate
  exists_on day item =
      let wall = location.wall (candidate day item) in
      wall.date.year =ℕ day.year
      && wall.date.month =ℕ day.month
      && wall.date.day =ℕ day.day
      && wall.hour =ℕ item.hour
      && wall.minute =ℕ item.minute
      && wall.second =ℕ item.second

  abbrev pub is_before_best : ℕ → Option (ℕ × String) → Bool
  is_before_best at none = true
  is_before_best at (some (best, label)) = ltb at best

  -- The body of the inner loop.
  unfoldable pub better : Day → Option (ℕ × String) → DailyTime → Option (ℕ × String)
  better day best item =
      if not (exists_on day item)
      then best
      else if ltb now (candidate day item) && is_before_best (candidate day item) best
      then some (candidate day item, item.text)
      else best

  unfoldable pub best_of_day : Day → Option (ℕ × String) → List DailyTime → Option (ℕ × String)
  unfolding better
  best_of_day day best [] = best
  best_of_day day best (item ∷ times) = best_of_day day (better day best item) times

  -- The outer loop, by the days that are left.
  unfoldable pub first_day : ℕ → ℕ → List DailyTime → Option (ℕ × String)
  unfolding best_of_day
  first_day zero offset times = none
  first_day (suc left) offset times =
      let later = first_day left (suc offset) times in
      elim (best_of_day (location.day_after now offset) none times) [
        | none ↦ later
        | some best ↦ some best
      ]

unfoldable pub next_occurrence : ℕ → Option Calendar → List DailyTime → Option (ℕ × String)
unfolding first_day
next_occurrence now none times = none
next_occurrence now (some location) times =
    if is_empty times then none else first_day location now max_days 0 times
