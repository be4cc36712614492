-- ===== src/Execution/Loop.antt =====
-- executeRun's loop over the selected credentials, and waitBetweenAuths.
use cpa_auto_refresh_quota.Execution.Round.{attempt}
use cpa_auto_refresh_quota.Execution.{Verdict, Attempt, succeeded, failed, skipped}
use cpa_auto_refresh_quota.Base.{
  ℕ, suc, ◌+◌, String, Bool, true, false, not, ◌&&◌, ◌||◌, List, [], ◌∷◌, ◌++◌, ◌==◌, if◌then◌else◌,
  length, is_empty,
}
use cpa_auto_refresh_quota.Base.Int.{ℤ, ltb_ℤ, pos}
use cpa_auto_refresh_quota.Auths.{Auth}
use cpa_auto_refresh_quota.Config.{Config}
use cpa_auto_refresh_quota.Host.{Host}
use cpa_auto_refresh_quota.Override.{Json}
use cpa_auto_refresh_quota.Service.{RunReport}

unfoldable pub count_verdict : RunReport → Verdict → RunReport
count_verdict report succeeded = record report { success_count = report.success_count + 1 }
count_verdict report failed = record report { failed_count = report.failed_count + 1 }
count_verdict report skipped = record report { skipped_count = report.skipped_count + 1 }

-- The counter, the error and the result of a round.
unfoldable pub record_attempt : RunReport → Attempt → RunReport
unfolding count_verdict
record_attempt report a =
    let counted = count_verdict report a.verdict in
    record counted {
      error = (if a.run_error == "" then report.error else a.run_error);
      results = report.results ++ a.result ∷ [];
    }

-- The credentials that are left count as skipped.
unfoldable pub skip_rest : RunReport → ℕ → RunReport
skip_rest report left = record report { skipped_count = report.skipped_count + left }

unfoldable pub cancel_rest : RunReport → ℕ → RunReport
cancel_rest report left = record report {
  canceled = true;
  skipped_count = report.skipped_count + left;
}

-- How the loop goes on after a round.
pub data Next : Type 0 where
  goes_on is_canceled is_over : Next

-- The report, and the reports that were published before it.
abbrev pub Progress : Type 0
Progress = RunReport × List RunReport

module _ {W : Type 0} (host : Host W) (ctx : ℕ) where
  -- `is_last` is `index >= total-1`.
  unfoldable pub wait_between_auths : ℤ → Bool → W → Bool × W
  wait_between_auths delay is_last w =
      if host.is_done ctx w
      then (false, w)
      else if not (ltb_ℤ (pos 0) delay) || is_last
      then (true, w)
      else host.timer_fires ctx delay w

  unfoldable pub after_attempt : ℤ → Bool → Attempt → W → Next × W
  unfolding wait_between_auths
  after_attempt delay is_last a w =
      if a.stops
      then (is_over, w)
      else if a.executed && host.is_done ctx w
      then (is_canceled, w)
      else (let (waited, w1) = wait_between_auths delay is_last w in
          ((if waited then goes_on else is_canceled), w1))

-- What the loop leaves, by how it goes on: with the rest of the loop, or without.
unfoldable pub leave : {W : Type 0} → Next → Progress → ℕ → W → Progress × W → Progress × W
unfolding skip_rest cancel_rest
leave goes_on st left w rest = rest
leave is_canceled (report, published) left w rest = ((cancel_rest report left, published), w)
leave is_over (report, published) left w rest = ((skip_rest report left, published), w)

module _ {V : Type 0} (json : Json V) {W : Type 0} (host : Host W) (ctx : ℕ) (cfg : Config)
    (run_id : String) (body : List ℕ) (highest : ℤ) (found : Bool) where
  unfoldable pub run_targets : List Auth → Progress → W → Progress × W
  unfolding record_attempt after_attempt leave
  run_targets [] st w = (st, w)
  run_targets (listed ∷ targets) (report, published) w =
      let (a, w1) = attempt json host ctx cfg run_id body highest found listed w in
      let report' = record_attempt report a in
      let st : Progress = (report', published ++ report' ∷ []) in
      let (next, w2) = after_attempt host ctx cfg.delay_between_auths (is_empty targets) a w1 in
      let rest = run_targets targets st w2 in
      if host.is_done ctx w
      then ((cancel_rest report (suc (length targets)), published), w)
      else leave next st (length targets) w2 rest
