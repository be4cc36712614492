-- ===== src/Service/Runs.antt =====
-- startRun, StartManual, rememberOccurrenceLocked, publishActive, finishRun and the schedule's own
-- sections: what starts, shows and ends a run. A run id is `none` where crypto/rand fails.
use cpa_auto_refresh_quota.Service.{
  RunReport, ManualRunOptions, Error, max_remembered_occurrences, u64, Service, Effect, starts_run,
  busy, stopped, not_configured, duplicate, run_id_failed,
}
use cpa_auto_refresh_quota.Base.Text.{trim_space}
use cpa_auto_refresh_quota.Base.Dict.{contains, set_add, set_remove}
use cpa_auto_refresh_quota.Base.{
  ℕ, ◌+◌, ◌-◌, ◌/◌, ◌%◌, String, Bool, true, false, not, ◌||◌, Option, none, some, List, [], ◌∷◌,
  ◌++◌, ◌==◌, ltb, leb, ◌=ℕ◌, if◌then◌else◌, length, Result, ok, err,
}
use cpa_auto_refresh_quota.Base.Int.{ℤ, neg_of, pos}
use cpa_auto_refresh_quota.Config.{Config}

-- `for len(order) > maxRememberedOccurrences`, by the entries of the order.
unfoldable pub forget_oldest : List String → List String → List String × List String
forget_oldest occurrences [] = (occurrences, [])
forget_oldest occurrences (oldest ∷ rest) =
    let forgotten = forget_oldest (set_remove oldest occurrences) rest in
    if ltb max_remembered_occurrences (length (oldest ∷ rest))
    then forgotten
    else (occurrences, oldest ∷ rest)

unfoldable pub remember_occurrence : Service → String → Service
unfolding forget_oldest
remember_occurrence s occurrence_id =
    if occurrence_id == ""
    then s
    else (let (occurrences, order) =
          forget_oldest (set_add occurrence_id s.occurrences)
            (s.occurrence_order ++ occurrence_id ∷ []) in
        record s { occurrences = occurrences; occurrence_order = order })

abbrev pub new_report : String → String → String → Bool → ℕ → RunReport
new_report run_id trigger occurrence_id dry_run now = record {
  run_id = run_id;
  trigger = trigger;
  occurrence_id = occurrence_id;
  dry_run = dry_run;
  started_at = now;
  finished_at = none;
  duration_ms = pos 0;
  target_count = 0;
  success_count = 0;
  failed_count = 0;
  skipped_count = 0;
  canceled = false;
  error = "";
  results = [];
}

-- What is asked of startRun, with the run id and the context that it draws and the time it reads.
pub record StartRequest : Type 0 where
  pub cfg : Config
  pub expected_generation : ℕ
  pub trigger : String
  pub occurrence_id : String
  pub options : ManualRunOptions
  pub run_id : Option String
  pub ctx : ℕ
  pub now : ℕ

abbrev pub report_of : StartRequest → String → RunReport
report_of q run_id = new_report run_id q.trigger q.occurrence_id q.options.dry_run q.now

-- The locked section from `if s.running` on.
unfoldable pub begin_run :
    Service → StartRequest → String → Result Error String × Service × List Effect
begin_run s q run_id = if s.running then (err busy, s, []) else (
  ok run_id,
  record s { running = true; active = some (report_of q run_id); active_cancel = some q.ctx },
  starts_run q.ctx q.cfg q.options (report_of q run_id) ∷ [],
)

-- The three tests that answer ErrStopped: stopped, another generation, or not enabled.
unfoldable pub is_refused : Service → StartRequest → Bool
is_refused s q =
    s.is_stopped || not (q.expected_generation =ℕ s.config_generation) || not q.cfg.host_enabled

-- The locked section, once the three tests have passed.
unfoldable pub admit_run :
    Service → StartRequest → String → Result Error String × Service × List Effect
admit_run s q run_id =
    if q.occurrence_id == ""
    then begin_run s q run_id
    else if contains q.occurrence_id s.occurrences
    then (err duplicate, s, [])
    else begin_run (remember_occurrence s q.occurrence_id) q run_id

unfoldable pub start_run : Service → StartRequest → Result Error String × Service × List Effect
start_run s q =
    if trim_space q.cfg.model == "" || trim_space q.cfg.message == ""
    then (err not_configured, s, [])
    else elim q.run_id [
      | none ↦ (err run_id_failed, s, [])
      | some run_id ↦ if is_refused s q then (err stopped, s, []) else admit_run s q run_id
    ]

-- StartManual where no other goroutine takes the lock between its two sections.
unfoldable pub start_manual :
    Service → ManualRunOptions → Option String → ℕ → ℕ → Result Error String × Service × List Effect
unfolding start_run
start_manual s options run_id ctx now = start_run s (record {
  cfg = s.config;
  expected_generation = s.config_generation;
  trigger = "manual";
  occurrence_id = "";
  options = options;
  run_id = run_id;
  ctx = ctx;
  now = now;
})

-- `s.active != nil && s.active.RunID == report.RunID`
unfoldable pub is_active : Service → RunReport → Bool
is_active s report = elim s.active [ none ↦ false | some a ↦ a.run_id == report.run_id ]

unfoldable pub publish_active : Service → RunReport → Service
unfolding is_active
publish_active s report = if is_active s report then record s { active = some report } else s

-- Duration.Milliseconds of `finished - started`, towards zero.
unfoldable pub milliseconds_between : ℕ → ℕ → ℤ
milliseconds_between started finished =
    if leb started finished
    then pos ((finished - started) / 1_000_000)
    else neg_of ((started - finished) / 1_000_000)

unfoldable pub finished_report : RunReport → ℕ → RunReport
finished_report report now = record report {
  finished_at = some now;
  duration_ms = milliseconds_between report.started_at now;
}

unfoldable pub finish_run : Service → RunReport → ℕ → Service
unfolding is_active finished_report
finish_run s report now =
    if is_active s report
    then record s {
      active = none;
      running = false;
      active_cancel = none;
      last = some (finished_report report now);
    }
    else s

unfoldable pub publish_next : Service → ℕ → ℕ → String → Service
publish_next s generation at occurrence_id =
    if s.is_stopped || not (generation =ℕ s.config_generation)
    then s
    else record s { next = some (record { occurrence_id = occurrence_id; local = at; utc = at }) }

unfoldable pub clear_next : Service → ℕ → Service
clear_next s generation = if generation =ℕ s.config_generation then record s { next = none } else s

-- The part of handleScheduleStartError that changes the state.
unfoldable pub handle_schedule_start_error : Service → String → Error → Service
handle_schedule_start_error s occurrence_id busy = record s {
  skipped_occurrences = (s.skipped_occurrences + 1) % u64;
  last_skipped_occurrence = occurrence_id;
}
handle_schedule_start_error s occurrence_id e = s
