-- ===== src/Schedule/Loop.antt =====
-- OccurrenceID of internal/refreshquota/schedule.go and scheduleLoop of internal/refreshquota/service.go. The
-- loop is a goroutine: one turn of it is given what the others do while it waits.
use mathlib.Core.Path.{subst}
use Prim.Native.String.{◌++◌ as ◌<>◌}
use cpa_auto_refresh_quota.Schedule.{Calendar, next_occurrence}
use cpa_auto_refresh_quota.Service.Invariant.{Action, run, start_run_cases}
use cpa_auto_refresh_quota.Service.Runs.{
  StartRequest, report_of, begin_run, is_refused, start_run, publish_next, clear_next,
  handle_schedule_start_error,
}
use cpa_auto_refresh_quota.Service.{Error, Service, Effect, starts_run}
use cpa_auto_refresh_quota.Base.Number.{digits_text}
use cpa_auto_refresh_quota.Base.Text.{byte_length}
use cpa_auto_refresh_quota.Base.{
  ℕ, zero, suc, ◌-◌, String, ◌≡◌, refl, sym, ◌⊎◌, inl, inr, Bool, true, false, Option, none, some,
  List, [], ◌∷◌, if◌then◌else◌, Bool-cases, Result, ok, err,
}
use cpa_auto_refresh_quota.Config.{Config}

abbrev pub zeros : ℕ → String
zeros zero = ""
zeros (suc n) = "0" <> zeros n

-- `%04d` and `%02d`
unfoldable pub padded : ℕ → ℕ → String
unfolding digits_text
padded width n = let digits = digits_text 20 n "" in zeros (width - byte_length digits) <> digits

-- With the location's name.
unfoldable pub occurrence_id : Calendar → String → ℕ → String → String
unfolding padded
occurrence_id location name at label =
    let date = (location.wall at).date in
    padded 4 date.year
    <> "-"
    <> padded 2 date.month
    <> "-"
    <> padded 2 date.day
    <> "|"
    <> label
    <> "|"
    <> name

-- What happens in a turn besides it: the steps of others during the wait, whether the timer came
-- before the end of the context, and what a start draws.
pub record Wait : Type 0 where
  pub meanwhile : List Action
  pub fires : Bool
  pub run_id : Option String
  pub run_ctx : ℕ
  pub run_now : ℕ

module _ (cfg : Config) (name : String) (generation : ℕ) where
  abbrev pub scheduled : String → Wait → StartRequest
  scheduled id wait = record {
    cfg = cfg;
    expected_generation = generation;
    trigger = "scheduled";
    occurrence_id = id;
    options = record { dry_run = false; auth_indices = [] };
    run_id = wait.run_id;
    ctx = wait.run_ctx;
    now = wait.run_now;
  }

  abbrev pub after_scheduled :
      String → Result Error String × Service × List Effect → Service × List Effect
  after_scheduled id (ok run_id, s, effects) = (s, effects)
  after_scheduled id (err e, s, effects) = (handle_schedule_start_error s id e, effects)

  -- From the wait for one occurrence on; whether the loop goes on.
  unfoldable pub wait_and_start : Service → ℕ → String → Wait → Bool × Service × List Effect
  wait_and_start s at id wait =
      let s' = run (publish_next s generation at id) wait.meanwhile in
      if wait.fires
      then (let (s'', effects) = after_scheduled id (start_run s' (scheduled id wait)) in
          (true, s'', effects))
      else (false, clear_next s' generation, [])

  abbrev pub turn_for :
      Service → Calendar → Option (ℕ × String) → Wait → Bool × Service × List Effect
  turn_for s location none wait = (false, clear_next s generation, [])
  turn_for s location (some (at, label)) wait =
      wait_and_start s at (occurrence_id location name at label) wait

  unfoldable pub schedule_turn : Service → Calendar → ℕ → Wait → Bool × Service × List Effect
  unfolding wait_and_start
  schedule_turn s location now wait =
      turn_for s location (next_occurrence now (some location) cfg.times) wait

  -- Of a start in a state: nothing, or the run, admitted in that state.
  abbrev Admits : Service → String → Wait → List Effect → Type 0
  Admits s id wait effects =
      (effects ≡ [])
      ⊎ ((run_id : String) × (is_refused s (scheduled id wait) ≡ false)
          × (effects
              ≡ starts_run wait.run_ctx cfg (scheduled id wait).options
                  (report_of (scheduled id wait) run_id)
                ∷ []))

  begin_run-Admits :
      (s t : Service) (id run_id : String) (wait : Wait)
      → is_refused s (scheduled id wait) ≡ false
      → Admits s id wait (begin_run t (scheduled id wait) run_id).2
  unfolding begin_run
  begin_run-Admits s t id run_id wait h = elim (Bool-cases t.running) [
    | inl e ↦ rw e (inl refl)
    | inr e ↦ rw e (inr (run_id, h, refl))
  ]

  start_run-Admits :
      (s : Service) (id : String) (wait : Wait)
      → Admits s id wait (start_run s (scheduled id wait)).2
  start_run-Admits s id wait =
      start_run_cases (λ r. Admits s id wait r.2) s (scheduled id wait) (λ e. inl refl)
        (λ run_id h _. begin_run-Admits s s id run_id wait h)
        (λ run_id h _ _. begin_run-Admits s _ id run_id wait h)

  after_scheduled-effects :
      (id : String) (r : Result Error String × Service × List Effect)
      → (after_scheduled id r).1 ≡ r.2
  after_scheduled-effects id (ok run_id, s, effects) = refl
  after_scheduled-effects id (err e, s, effects) = refl

  -- What a turn may start: nothing; or, where the timer fired, one run for the next time.
  abbrev pub Starts : Calendar → ℕ → Service → Wait → List Effect → Type 0
  Starts location now s wait effects =
      (effects ≡ [])
      ⊎ ((at : ℕ) × (label : String) × (next_occurrence now (some location) cfg.times
            ≡ some (at, label))
          × (wait.fires ≡ true)
          × Admits
              (run (publish_next s generation at (occurrence_id location name at label))
                wait.meanwhile)
              (occurrence_id location name at label) wait effects)

  wait_and_start-Starts :
      (location : Calendar) (now : ℕ) (s : Service) (wait : Wait) (at : ℕ) (label : String)
      → next_occurrence now (some location) cfg.times ≡ some (at, label)
      → Starts location now s wait
          (wait_and_start s at (occurrence_id location name at label) wait).2
  unfolding wait_and_start
  wait_and_start-Starts location now s wait at label e =
      let id = occurrence_id location name at label in
      let s' = run (publish_next s generation at id) wait.meanwhile in
      elim (Bool-cases wait.fires) [
        | inl f ↦ rw f (
            inr (
              at,
              label,
              e,
              refl,
              subst (Admits s' id wait)
                  (sym (after_scheduled-effects id (start_run s' (scheduled id wait))))
                  (start_run-Admits s' id wait),
            ))
        | inr f ↦ rw f (inl refl)
      ]

  turn_for-Starts :
      (location : Calendar) (now : ℕ) (s : Service) (wait : Wait) (next : Option (ℕ × String))
      → next_occurrence now (some location) cfg.times ≡ next
      → Starts location now s wait (turn_for s location next wait).2
  turn_for-Starts location now s wait none e = inl refl
  turn_for-Starts location now s wait (some (at, label)) e =
      wait_and_start-Starts location now s wait at label e

  -- A turn of the schedule's loop starts nothing, or, where its timer fired, a run of all
  -- credentials for the next time that NextOccurrence gave, and this only where the service, after
  -- all that happened during the wait, is not stopped, still has the loop's configuration and
  -- is enabled.
  pub schedule_turn-Starts :
      (location : Calendar) (now : ℕ) (s : Service) (wait : Wait)
      → Starts location now s wait (schedule_turn s location now wait).2
  unfolding schedule_turn
  schedule_turn-Starts location now s wait = turn_for-Starts location now s wait _ refl
