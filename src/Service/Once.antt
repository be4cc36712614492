-- ===== src/Service/Once.antt =====
-- A remembered occurrence does not run again.
use mathlib.Core.List.{append_assoc}
use cpa_auto_refresh_quota.Service.Runs.{
  remember_occurrence, StartRequest, begin_run, start_run, publish_active, finish_run, publish_next,
  clear_next, handle_schedule_start_error,
}
use cpa_auto_refresh_quota.Service.Occurrences.{InStep, remember_occurrence_lem}
use cpa_auto_refresh_quota.Service.{max_remembered_occurrences, Service, busy}
use cpa_auto_refresh_quota.Base.Dict.{contains, contains-append}
use cpa_auto_refresh_quota.Base.{
  ℕ, zero, suc, ◌+◌, ◌-◌, ◌≤◌, ◌<◌, String, ◌≡◌, refl, sym, ap, ◌∙◌, ◌≢◌, true, false, List, [],
  ◌∷◌, ◌++◌, arith, eq_refl, length, length-append, drop, ok,
}
use cpa_auto_refresh_quota.Service.Invariant.{
  Action, act, run, Inv, start_run_cases, start_run-Inv, step-Inv, run-Inv, swaps_config,
  starts_scheduler, starts_priority_recovery, ends_recovery, sets_recovery_result, starts,
  publishes_active, finishes_run, publishes_next, clears_next, fails_to_start, shuts_down,
}
use cpa_auto_refresh_quota.Service.Configure.{
  swap_config, start_scheduler, start_priority_recovery, end_recovery, set_priority_recovery_result,
  shutdown,
}

-- The occurrence stands in the order with at most `n` later ones behind it.
pub record Remembered (k : String) (n : ℕ) (s : Service) : Type 0 where
  pub before : List String
  pub later : List String
  pub split : s.occurrence_order ≡ before ++ k ∷ later
  pub few : length later ≤ n

drop-append {ℓ} :
    {A : Type ℓ} (n : ℕ) (xs ys : List A) → n ≤ length xs → drop n (xs ++ ys) ≡ drop n xs ++ ys
drop-append zero xs ys h = refl
drop-append (suc n) [] ys h = elim h [ ]
drop-append (suc n) (x ∷ xs) ys h = drop-append n xs ys (omega arith)

drop-split {ℓ} :
    {A : Type ℓ} (n : ℕ) (k new : A) (order before later : List A)
    → order ≡ before ++ k ∷ later
    → n ≤ length before
    → drop n (order ++ new ∷ []) ≡ drop n before ++ k ∷ (later ++ new ∷ [])
drop-split n k new order before later e h =
    rw (e, append_assoc before (k ∷ later) (new ∷ [])) (drop-append n before _ h)

remember-Remembered :
    (k id : String) (n : ℕ) (s : Service)
    → n < 511
    → Remembered k n s
    → id ≢ ""
    → contains id s.occurrences ≡ false
    → InStep s.occurrences s.occurrence_order
    → Remembered k (suc n) (remember_occurrence s id)
remember-Remembered k id n s room r named new together =
    let (_, e, _) = remember_occurrence_lem s id named new together in
    record {
      before = drop (length (s.occurrence_order ++ id ∷ []) - max_remembered_occurrences) r.before;
      later = r.later ++ id ∷ [];
      split =
          e
          ∙ drop-split _ k id s.occurrence_order r.before r.later r.split (
              omega (
                arith,
                ap length r.split,
                length-append r.before (k ∷ r.later),
                length-append s.occurrence_order (id ∷ []),
                r.few,
                room,
              ));
      few = omega (arith, length-append r.later (id ∷ []), r.few);
    }

same-Remembered :
    (k : String) (n : ℕ) (s t : Service)
    → t.occurrence_order ≡ s.occurrence_order
    → Remembered k n s
    → Remembered k n t
same-Remembered k n s t e r = record {
  before = r.before;
  later = r.later;
  split = e ∙ r.split;
  few = r.few;
}

more-Remembered : (k : String) (n : ℕ) (s : Service) → Remembered k n s → Remembered k (suc n) s
more-Remembered k n s r = record {
  before = r.before;
  later = r.later;
  split = r.split;
  few = omega (arith, r.few);
}

begin_run-order :
    (s : Service) (q : StartRequest) (run_id : String)
    → (begin_run s q run_id).1.occurrence_order ≡ s.occurrence_order
unfolding begin_run
begin_run-order s q run_id = ground arith

start_run-Remembered :
    (k : String) (n : ℕ) (s : Service) (q : StartRequest)
    → n < 511
    → Inv s
    → Remembered k n s
    → Remembered k (suc n) (start_run s q).1
start_run-Remembered k n s q room v r =
    start_run_cases (λ a. Remembered k (suc n) a.1) s q (λ e. more-Remembered k n s r)
      (λ run_id _ _. more-Remembered k n _ (same-Remembered k n s _ (begin_run-order s q run_id) r))
      λ run_id _ named new.
        same-Remembered k (suc n) (remember_occurrence s q.occurrence_id) _
          (begin_run-order _ q run_id)
          (remember-Remembered k q.occurrence_id n s room r named new v.in_step)

-- How many starts are asked for.
unfoldable pub starts_in : List Action → ℕ
starts_in [] = 0
starts_in (starts q ∷ actions) = suc (starts_in actions)
starts_in (a ∷ actions) = starts_in actions

other-order :
    (s : Service) (a : Action)
    → ((q : StartRequest) → a ≢ starts q)
    → (act s a).occurrence_order ≡ s.occurrence_order
unfolding act
other-order s (swaps_config parsed) h = unfold swap_config in ground arith
other-order s (starts_scheduler cfg generation ctx) h = unfold start_scheduler in ground arith
other-order s (starts_priority_recovery cfg generation ctx) h =
    unfold start_priority_recovery in ground arith
other-order s (ends_recovery generation) h = unfold end_recovery in ground arith
other-order s (sets_recovery_result generation e) h =
    unfold set_priority_recovery_result in ground arith
other-order s (starts q) h = elim (h q refl) [ ]
other-order s (publishes_active report) h = unfold publish_active in ground arith
other-order s (finishes_run report now) h = unfold finish_run in ground arith
other-order s (publishes_next generation at id) h = unfold publish_next in ground arith
other-order s (clears_next generation) h = unfold clear_next in ground arith
other-order s (fails_to_start id busy) h = unfold handle_schedule_start_error in refl
other-order s (fails_to_start id e) h = unfold handle_schedule_start_error in ground arith
other-order s shuts_down h = unfold shutdown in ground arith

run-Remembered :
    (k : String) (n : ℕ) (s : Service) (actions : List Action)
    → n + starts_in actions ≤ 511
    → Inv s
    → Remembered k n s
    → Remembered k (n + starts_in actions) (run s actions)
unfolding run starts_in
run-Remembered k n s [] room v r = let e : n + 0 ≡ n = omega arith in rw e r
run-Remembered k n s (starts q ∷ actions) room v r =
    let e : n + suc (starts_in actions) ≡ suc n + starts_in actions = omega arith in
    rw e (
      run-Remembered k (suc n) (act s (starts q)) actions (omega (arith, room))
        (step-Inv s (starts q) v)
        (unfold act in start_run-Remembered k n s q (omega (arith, room)) v r))
run-Remembered k n s (a ∷ actions) room v r =
    run-Remembered k n (act s a) actions room (step-Inv s a v)
      (same-Remembered k n s _ (other-order s a λ q. λ h. cc) r)

-- A start that succeeds leaves its occurrence the last of those remembered.
started-Remembered :
    (s : Service) (q : StartRequest) (run_id : String)
    → Inv s
    → q.occurrence_id ≢ ""
    → (start_run s q).0 ≡ ok run_id
    → Remembered q.occurrence_id 0 (start_run s q).1
started-Remembered s q run_id v named =
    start_run_cases (λ a. a.0 ≡ ok run_id → Remembered q.occurrence_id 0 a.1) s q (λ e h. cc)
      (λ id _ blank. elim (named blank) [ ])
      λ id _ _ new h.
        let (_, e, _) = remember_occurrence_lem s q.occurrence_id named new v.in_step in
        record {
          before =
              drop
                (length (s.occurrence_order ++ q.occurrence_id ∷ []) - max_remembered_occurrences)
                s.occurrence_order;
          later = [];
          split =
              begin_run-order _ q id
              ∙ e
              ∙ drop-append _ s.occurrence_order (q.occurrence_id ∷ []) (
                  omega (
                    arith,
                    length-append s.occurrence_order (q.occurrence_id ∷ []),
                    v.order_bounded,
                  ));
          few = omega arith;
        }

contains-Remembered :
    (k : String) (n : ℕ) (s : Service) → Inv s → Remembered k n s → contains k s.occurrences ≡ true
contains-Remembered k n s v r =
    v.in_step.members k
    ∙ ap (contains k) r.split
    ∙ contains-append k r.before (k ∷ r.later)
    ∙ (unfold contains in ground (arith, eq_refl k))

-- From a state that the invariant holds of, once a start of a named occurrence has succeeded,
-- every later start of that occurrence fails, whatever happens in between, as long as at most 511
-- starts were asked for since.
pub occurrence_once :
    (s : Service) (q : StartRequest) (run_id : String) (actions : List Action)
    (again : StartRequest)
    → Inv s
    → q.occurrence_id ≢ ""
    → (start_run s q).0 ≡ ok run_id
    → starts_in actions ≤ 511
    → again.occurrence_id ≡ q.occurrence_id
    → (id : String) → (start_run (run (start_run s q).1 actions) again).0 ≢ ok id
occurrence_once s q run_id actions again v named started few same id =
    let after = run (start_run s q).1 actions in
    let v1 = start_run-Inv s q v in
    let known =
      contains-Remembered q.occurrence_id (0 + starts_in actions) after (run-Inv _ actions v1) (
        run-Remembered q.occurrence_id 0 (start_run s q).1 actions (omega (arith, few)) v1
          (started-Remembered s q run_id v named started)) in
    start_run_cases (λ a. a.0 ≢ ok id) after again (λ e h. cc)
      (λ _ _ blank. elim (named (sym same ∙ blank)) [ ])
      (λ _ _ _ new h. cc (ap (λ x. contains x after.occurrences) same ∙ known, new))
