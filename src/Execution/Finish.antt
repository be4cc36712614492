-- ===== src/Execution/Finish.antt =====
-- A run from startRun to finishRun, with whatever the service's other goroutines do meanwhile.
use cpa_auto_refresh_quota.Execution.Report.{report_of-IsFresh, Ending, execute_run-Ends}
use cpa_auto_refresh_quota.Execution.Calls.{interleave, run-interleave}
use cpa_auto_refresh_quota.Execution.Run.{execute_run}
use cpa_auto_refresh_quota.Execution.{ChatCompletionRequest, build_request_body}
use cpa_auto_refresh_quota.Service.Exclusive.{StaysOpen, finish_run_lem}
use cpa_auto_refresh_quota.Service.Invariant.{Action, run, Inv, start_run_cases, start_run-Inv}
use cpa_auto_refresh_quota.Service.Runs.{
  StartRequest, report_of, begin_run, start_run, is_active, finished_report, finish_run,
}
use cpa_auto_refresh_quota.Service.{RunReport, Error, Service, Effect}
use cpa_auto_refresh_quota.Base.{
  ℕ, String, ◌≡◌, ap, ◌∙◌, Bool, true, false, none, some, List, arith, eq_iff, Result, ok,
}
use cpa_auto_refresh_quota.Host.{Host}
use cpa_auto_refresh_quota.Override.{Json}

-- Of a start that answers a run id: its report is the active one.
abbrev IsBegun : StartRequest → Result Error String × Service × List Effect → Type 0
IsBegun q r = (id : String) → r.0 ≡ ok id → is_active r.1 (report_of q id) ≡ true

begin_run-IsBegun :
    (s : Service) (q : StartRequest) (run_id : String) → IsBegun q (begin_run s q run_id)
unfolding begin_run is_active
begin_run-IsBegun s q run_id id h = ground (arith, h, eq_iff run_id id)

start_run-is_active : (s : Service) (q : StartRequest) → IsBegun q (start_run s q)
start_run-is_active s q =
    start_run_cases (IsBegun q) s q (λ e id h. cc) (λ run_id _ _. begin_run-IsBegun s q run_id)
      (λ run_id _ _ _. begin_run-IsBegun _ q run_id)

is_active-id :
    (s : Service) (a b : RunReport)
    → b.run_id ≡ a.run_id
    → is_active s a ≡ true
    → is_active s b ≡ true
unfolding is_active
is_active-id s a b e h = rw e h

module _ {V : Type 0} (json : Json V) {W : Type 0} (host : Host W)
    (marshal : ChatCompletionRequest → Result String (List ℕ)) (clean : String → String)
    (is_windows : Bool) where
  -- From a state that the invariant holds of, a run that starts comes to its end, whatever the other
  -- goroutines do before each of its calls of the service, short of ending it themselves: with its
  -- last call the service is free again, its last report is the one with which the run ended,
  -- and that has the run's id and counts each target as execute_run-Ends says.
  pub run_finishes :
      (s : Service) (q : StartRequest) (id : String) (w : W) (others : ℕ → List Action)
      → Inv s
      → (start_run s q).0 ≡ ok id
      → ((i : ℕ) → StaysOpen (report_of q id) (others i))
      → let (calls, w') =
          execute_run json host marshal clean is_windows q.ctx q.cfg q.options (report_of q id) w in
        let after = run (start_run s q).1 (interleave others 0 calls) in
        (final : RunReport) × (after.running ≡ false)
        × (after.active ≡ none)
        × (after.last ≡ some (finished_report final (host.now w')))
        × (final.run_id ≡ id)
        × Ending (build_request_body marshal q.cfg) q.options.dry_run final
  run_finishes s q id w others v started open' =
      let report = report_of q id in
      let (calls, w') =
        execute_run json host marshal clean is_windows q.ctx q.cfg q.options report w in
      let (published, final, last_is, (same_id, ending)) =
        execute_run-Ends json host marshal clean is_windows q.ctx q.cfg q.options report w
          (report_of-IsFresh q id) in
      let (t, active, e) =
        run-interleave report final (host.now w') others published 0 (start_run s q).1 open'
          (start_run-Inv s q v) (start_run-is_active s q id started) in
      let (free, idle, _, shown) =
        (finish_run_lem t final (host.now w')).0 (is_active-id t report final same_id active) in
      let after-eq : run (start_run s q).1 (interleave others 0 calls)
          ≡ finish_run t final (host.now w') =
        ap (λ c. run (start_run s q).1 (interleave others 0 c)) last_is ∙ e in
      (
        final,
        ap (λ x. x.running) after-eq ∙ free,
        ap (λ x. x.active) after-eq ∙ idle,
        ap (λ x. x.last) after-eq ∙ shown,
        same_id,
        ending,
      )
