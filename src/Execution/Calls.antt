-- ===== src/Execution/Calls.antt =====
-- The calls of the service that executeRun makes, and the actions of others between them.
use cpa_auto_refresh_quota.Service.Exclusive.{StaysOpen, run_exclusive}
use cpa_auto_refresh_quota.Service.Invariant.{
  Action, run, Inv, run-Inv, step-Inv, act, publishes_active, finishes_run,
}
use cpa_auto_refresh_quota.Service.Runs.{is_active, finish_run}
use cpa_auto_refresh_quota.Service.{RunReport, Service}
use cpa_auto_refresh_quota.Host.{Host}
use cpa_auto_refresh_quota.Base.{ℕ, suc, ◌≡◌, refl, ◌∙◌, true, List, [], ◌∷◌, ◌++◌, map}

-- The calls are some of publishActive and then, as the last one, finishRun, with a report of which `P`
-- holds.
abbrev pub Finishes : {W : Type 0} → Host W → (RunReport → Type 0) → List Action × W → Type 0
Finishes host P (calls, w) =
    (published : List RunReport) × (final : RunReport) × (calls
      ≡ map publishes_active published ++ finishes_run final (host.now w) ∷ [])
    × P final

-- What others do before each of the calls, by its position.
unfoldable pub interleave : (ℕ → List Action) → ℕ → List Action → List Action
interleave others i [] = []
interleave others i (call ∷ calls) = others i ++ call ∷ interleave others (suc i) calls

run-append : (s : Service) (xs ys : List Action) → run s (xs ++ ys) ≡ run (run s xs) ys
unfolding run
run-append s [] ys = refl
run-append s (a ∷ xs) ys = run-append (act s a) xs ys

-- However the calls of an active run are interleaved, the last one finds it active.
pub run-interleave :
    (report final : RunReport) (now : ℕ) (others : ℕ → List Action) (published : List RunReport)
    (i : ℕ) (s : Service)
    → ((j : ℕ) → StaysOpen report (others j))
    → Inv s
    → is_active s report ≡ true
    → (t : Service) × (is_active t report ≡ true)
      × (run s (interleave others i (map publishes_active published ++ finishes_run final now ∷ []))
          ≡ finish_run t final now)
unfolding interleave run
run-interleave report final now others [] i s open' v h = (
  run s (others i),
  (run_exclusive s report (others i) v h (open' i)).0,
  run-append s (others i) (finishes_run final now ∷ []),
)
run-interleave report final now others (p ∷ published) i s open' v h =
    let s' = run s (others i) in
    let v' = run-Inv s (others i) v in
    let h' = (run_exclusive s report (others i) v h (open' i)).0 in
    let (t, active, e) =
      run-interleave report final now others published (suc i) (act s' (publishes_active p)) open'
        (step-Inv s' (publishes_active p) v')
        (run_exclusive s' report (publishes_active p ∷ []) v' h' tt).0 in
    (t, active, run-append s (others i) _ ∙ e)
