-- ===== src/Service/Succession.antt =====
-- One run after another: startRun before and after finishRun.
use cpa_auto_refresh_quota.Service.Exclusive.{is_active-running, finish_run_lem}
use cpa_auto_refresh_quota.Service.Invariant.{Inv}
use cpa_auto_refresh_quota.Service.Runs.{
  StartRequest, report_of, begin_run, is_refused, admit_run, start_run, is_active, finished_report,
  finish_run,
}
use cpa_auto_refresh_quota.Service.{RunReport, Error, Service, Effect, busy, starts_run}
use cpa_auto_refresh_quota.Base.Text.{trim_space}
use cpa_auto_refresh_quota.Base.{
  ℕ, String, ◌≡◌, refl, ◌≢◌, true, false, Option, none, some, List, [], ◌∷◌, arith, eq_iff, Result,
  ok, err, ap, ◌∙◌, ◌||◌, ◌==◌,
}

is_active-other :
    (s : Service) (report other : RunReport) (active : Option RunReport)
    → s.active ≡ active
    → is_active s report ≡ true
    → report.run_id ≢ other.run_id
    → is_active s other ≡ false
unfolding is_active
is_active-other s report other none e h n = rw e refl
is_active-other s report other (some a) e h n =
    ground (arith, h, e, n, eq_iff a.run_id report.run_id, eq_iff a.run_id other.run_id)

-- A start that nothing but an active run can refuse.
pub record IsReady (s : Service) (q : StartRequest) (id : String) : Type 0 where
  pub configured : (trim_space q.cfg.model == "" || trim_space q.cfg.message == "") ≡ false
  pub drawn : q.run_id ≡ some id
  pub accepted : is_refused s q ≡ false
  pub manual : q.occurrence_id ≡ ""

start_run-ready :
    (s : Service) (q : StartRequest) (id : String)
    → IsReady s q id
    → start_run s q ≡ begin_run s q id
unfolding start_run admit_run begin_run
start_run-ready s q id h = rw (h.configured, h.drawn, h.accepted, h.manual) refl

-- Of a start: it begins the run, and the last report stays.
abbrev Begins :
    Service → StartRequest → String → Result Error String × Service × List Effect → Type 0
Begins t q id (started, s', effects) =
    (started ≡ ok id)
    × (is_active s' (report_of q id) ≡ true)
    × (s'.last ≡ t.last)
    × (effects ≡ starts_run q.ctx q.cfg q.options (report_of q id) ∷ [])

begin_run-Begins :
    (t : Service) (q : StartRequest) (id : String)
    → t.running ≡ false
    → Begins t q id (begin_run t q id)
unfolding begin_run is_active
begin_run-Begins t q id free = rw free (refl, ground (arith, eq_iff id id), refl, refl)

start_run-Begins :
    (t : Service) (q : StartRequest) (id : String)
    → t.running ≡ false
    → IsReady t q id
    → Begins t q id (start_run t q)
start_run-Begins t q id free r = rw (start_run-ready t q id r) (begin_run-Begins t q id free)

-- From a state that the invariant holds of, with an active run, its own end alone gives way: where a manual
-- start is refused by nothing else, it is refused as busy while the run is active, also after
-- finishRun with the report of any other run, and leaves the service as it is; after finishRun with
-- the run's report it begins, and the service then shows the report of the run that ended, with its
-- end and duration, as the last one.
pub start_run-finish_run :
    (s : Service) (report other : RunReport) (now : ℕ) (q : StartRequest) (id : String)
    → Inv s
    → is_active s report ≡ true
    → report.run_id ≢ other.run_id
    → IsReady s q id
    → let after = finish_run s report now in
      let (started, s', effects) = start_run after q in
      (start_run s q ≡ (err busy, s, []))
      × (start_run (finish_run s other now) q ≡ (err busy, s, []))
      × (started ≡ ok id)
      × (is_active s' (report_of q id) ≡ true)
      × (s'.last ≡ some (finished_report report now))
      × (effects ≡ starts_run q.ctx q.cfg q.options (report_of q id) ∷ [])
start_run-finish_run s report other now q id v h n ready =
    let busy-s : start_run s q ≡ (err busy, s, []) =
      start_run-ready s q id ready ∙ unfold begin_run in rw (is_active-running s report v h) refl in
    let same : finish_run s other now ≡ s =
      (finish_run_lem s other now).1 (is_active-other s report other s.active refl h n) in
    let begun =
      start_run-Begins (finish_run s report now) q id ((finish_run_lem s report now).0 h).0
        ready' in
    (
      busy-s,
      ap (λ t. start_run t q) same ∙ busy-s,
      begun.0,
      begun.1,
      begun.2 ∙ ((finish_run_lem s report now).0 h).3,
      begun.3,
    )
  where
    ready' : IsReady (finish_run s report now) q id
    ready' = record {
      configured = ready.configured;
      drawn = ready.drawn;
      accepted = unfold finish_run is_refused in rw h (unfold is_refused in ready.accepted);
      manual = ready.manual;
    }
