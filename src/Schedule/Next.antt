-- ===== src/Schedule/Next.antt =====
-- NextOccurrence finds the earliest time of the first day that has one.
use mathlib.Core.Path.{subst}
use cpa_auto_refresh_quota.Schedule.{
  Day, Calendar, max_days, candidate, exists_on, is_before_best, better, best_of_day, first_day,
  next_occurrence,
}
use cpa_auto_refresh_quota.Base.{
  ℕ, zero, suc, ◌+◌, ◌≤◌, ◌<◌, String, ◌≡◌, refl, ap, ◌⊎◌, inl, inr, Bool, true, false, ◌&&◌,
  Option, none, some, List, [], ◌∷◌, arith, ltb, Bool-cases, is_empty, All,
}
use cpa_auto_refresh_quota.Config.{DailyTime}

module _ (location : Calendar) (now : ℕ) where
  -- The time exists on the day, and is later than now.
  unfoldable pub is_offered : Day → DailyTime → Bool
  is_offered day item = exists_on location now day item && ltb now (candidate location now day item)

  -- The instant and the label are those of a time that is offered.
  abbrev pub Offers : Day → ℕ → String → List DailyTime → Type 0
  Offers day at label [] = ⊥
  Offers day at label (item ∷ times) =
      ((is_offered day item ≡ true) × (at ≡ candidate location now day item) × (label ≡ item.text))
      ⊎ Offers day at label times

  abbrev pub NoneOffered : Day → List DailyTime → Type 0
  NoneOffered day times = All (λ item. is_offered day item ≡ false) times

  abbrev pub NoneEarlier : Day → ℕ → List DailyTime → Type 0
  NoneEarlier day at times =
      All (λ item. is_offered day item ≡ true → at ≤ candidate location now day item) times

  -- What the inner loop makes of `best`.
  abbrev IsBest : Day → Option (ℕ × String) → List DailyTime → Option (ℕ × String) → Type 0
  IsBest day best times none = (best ≡ none) × NoneOffered day times
  IsBest day best times (some (at, label)) =
      ((best ≡ some (at, label)) ⊎ Offers day at label times)
      × NoneEarlier day at times
      × ((b : ℕ) (l : String) → best ≡ some (b, l) → at ≤ b)

  better_cases :
      (day : Day) (best : Option (ℕ × String)) (item : DailyTime)
      → ((is_offered day item ≡ false) × (better location now day best item ≡ best))
        ⊎ ((is_offered day item ≡ true)
            × (is_before_best location now (candidate location now day item) best ≡ true)
            × (better location now day best item
                ≡ some (candidate location now day item, item.text)))
        ⊎ ((is_offered day item ≡ true)
            × (is_before_best location now (candidate location now day item) best ≡ false)
            × (better location now day best item ≡ best))
  unfolding better is_offered
  better_cases day best item =
      ground
        (arith, Bool-cases (is_before_best location now (candidate location now day item) best))

  not_after :
      (day : Day) (item : DailyTime) (best : Option (ℕ × String)) (at : ℕ)
      → is_before_best location now (candidate location now day item) best ≡ false
      → ((b : ℕ) (l : String) → best ≡ some (b, l) → at ≤ b)
      → at ≤ candidate location now day item
  not_after day item none at after bound = cc
  not_after day item (some (b, l)) at after bound =
      let h = bound b l refl in ground (arith, h, after)

  step-IsBest :
      (day : Day) (best : Option (ℕ × String)) (item : DailyTime) (times : List DailyTime)
      (r : Option (ℕ × String))
      → IsBest day (better location now day best item) times r
      → IsBest day best (item ∷ times) r
  step-IsBest day best item times none h = elim (better_cases day best item) [
    | inl (off, e) ↦ let h' = subst (λ x. IsBest day x times none) e h in (h'.0, (off, h'.1))
    | inr (inl (on, before, e)) ↦ let h' = subst (λ x. IsBest day x times none) e h in cc h'.0
    | inr (inr (on, after, e)) ↦
        let h' = subst (λ x. IsBest day x times none) e h in
        cc (after, ap (is_before_best location now (candidate location now day item)) h'.0)
  ]
  step-IsBest day best item times (some (at, label)) h = elim (better_cases day best item) [
    | inl (off, e) ↦
        let (from, least, bound) = subst (λ x. IsBest day x times (some (at, label))) e h in
        (elim from [ inl a ↦ inl a | inr o ↦ inr (inr o) ], ((λ on. cc (on, off)), least), bound)
    | inr (inl (on, before, e)) ↦
        let (from, least, bound) = subst (λ x. IsBest day x times (some (at, label))) e h in
        let here = bound (candidate location now day item) item.text refl in
        (
          elim from [
            | inl a ↦ inr (inl (on, ground (arith, a), ground (arith, a)))
            | inr o ↦ inr (inr o)
          ],
          ((λ _. here), least),
          λ b l q. ground (
            arith,
            here,
            before,
            ap (is_before_best location now (candidate location now day item)) q,
          ),
        )
    | inr (inr (on, after, e)) ↦
        let (from, least, bound) = subst (λ x. IsBest day x times (some (at, label))) e h in
        (
          elim from [ inl a ↦ inl a | inr o ↦ inr (inr o) ],
          ((λ _. not_after day item best at after bound), least),
          bound,
        )
  ]

  best_of_day-IsBest :
      (day : Day) (best : Option (ℕ × String)) (times : List DailyTime)
      → IsBest day best times (best_of_day location now day best times)
  unfolding best_of_day
  best_of_day-IsBest day none [] = (refl, tt)
  best_of_day-IsBest day (some (at, label)) [] = (inl refl, tt, λ b l e. ground (arith, e))
  best_of_day-IsBest day best (item ∷ times) =
      step-IsBest day best item times _
        (best_of_day-IsBest day (better location now day best item) times)

  -- On the day that is `offset` days after now's: the answer, and none on the days between.
  abbrev pub IsFirst : ℕ → ℕ → List DailyTime → Option (ℕ × String) → Type 0
  IsFirst left offset times none =
      (k : ℕ) → k < left → NoneOffered (location.day_after now (offset + k)) times
  IsFirst left offset times (some (at, label)) =
      (k : ℕ) × (k < left)
      × Offers (location.day_after now (offset + k)) at label times
      × NoneEarlier (location.day_after now (offset + k)) at times
      × ((j : ℕ) → j < k → NoneOffered (location.day_after now (offset + j)) times)

  -- A statement of the day `offset + k`, at its two first forms.
  at_zero :
      (P : Day → Type 0) (offset : ℕ)
      → P (location.day_after now offset)
      → P (location.day_after now (offset + 0))
  at_zero P offset h =
      let e : offset ≡ offset + 0 = omega arith in subst (λ n. P (location.day_after now n)) e h

  at_suc :
      (P : Day → Type 0) (offset k : ℕ)
      → P (location.day_after now (suc offset + k))
      → P (location.day_after now (offset + suc k))
  at_suc P offset k h =
      let e : suc offset + k ≡ offset + suc k = omega arith in
      subst (λ n. P (location.day_after now n)) e h

  none_before :
      (offset k : ℕ) (times : List DailyTime)
      → NoneOffered (location.day_after now offset) times
      → ((j : ℕ) → j < k → NoneOffered (location.day_after now (suc offset + j)) times)
      → (j : ℕ) → j < suc k
      → NoneOffered (location.day_after now (offset + j)) times
  none_before offset k times first rest zero h = at_zero (λ d. NoneOffered d times) offset first
  none_before offset k times first rest (suc j) h =
      at_suc (λ d. NoneOffered d times) offset j (rest j (omega (arith, h)))

  combine :
      (left offset : ℕ) (times : List DailyTime) (today later : Option (ℕ × String))
      → IsBest (location.day_after now offset) none times today
      → IsFirst left (suc offset) times later
      → IsFirst (suc left) offset times (elim today [ none ↦ later | some best ↦ some best ])
  combine left offset times (some (at, label)) later b h = (
    0,
    omega arith,
    at_zero (λ d. Offers d at label times) offset (elim b.0 [ inl x ↦ cc x | inr o ↦ o ]),
    at_zero (λ d. NoneEarlier d at times) offset b.1,
    λ j q. elim (q) [ ],
  )
  combine left offset times none none b h = none_before offset left times b.1 h
  combine left offset times none (some (at, label)) b (k, bound, offers, least, rest) = (
    suc k,
    omega (arith, bound),
    at_suc (λ d. Offers d at label times) offset k offers,
    at_suc (λ d. NoneEarlier d at times) offset k least,
    none_before offset k times b.1 rest,
  )

  first_day-IsFirst :
      (left offset : ℕ) (times : List DailyTime)
      → IsFirst left offset times (first_day location now left offset times)
  unfolding first_day
  first_day-IsFirst zero offset times = λ k h. elim h [ ]
  first_day-IsFirst (suc left) offset times =
      combine left offset times _ _ (best_of_day-IsBest (location.day_after now offset) none times)
        (first_day-IsFirst left (suc offset) times)

-- For a location and at least one time: either there is an answer, the instant and label of a time
-- that its day offers, which is to exist on that day and be later than now, none that the day
-- offers is earlier, and no day before it offers any; or none of the 370 days from now's offers a
-- time.
pub next_occurrence-IsFirst :
    (now : ℕ) (location : Calendar) (times : List DailyTime)
    → is_empty times ≡ false
    → IsFirst location now max_days 0 times (next_occurrence now (some location) times)
unfolding next_occurrence
next_occurrence-IsFirst now location times h =
    rw h (first_day-IsFirst location now max_days 0 times)
