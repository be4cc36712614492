-- ===== src/Service/Occurrences.antt =====
-- The occurrences that are remembered: the latest 512, each once, in the set and in the order.
use cpa_auto_refresh_quota.Service.Runs.{forget_oldest, remember_occurrence}
use cpa_auto_refresh_quota.Service.{max_remembered_occurrences, Service}
use cpa_auto_refresh_quota.Base.{
  ℕ, zero, suc, ◌-◌, ◌≤◌, String, ◌≡◌, refl, ◌≢◌, inl, inr, false, List, [], ◌∷◌, ◌++◌, arith, ◌==◌,
  eq_iff, ltb, Bool-cases, length, drop,
}
use cpa_auto_refresh_quota.Base.Dict.{
  contains, set_add, contains-append, contains-set_add, set_remove, contains-set_remove,
  AllDistinct, AllDistinct-append,
}

-- The set and the order hold the same occurrences, each once.
pub record InStep (occurrences order : List String) : Type 0 where
  pub members : (k : String) → contains k occurrences ≡ contains k order
  pub distinct : AllDistinct order

blank-false : (k : String) → k ≢ "" → (k == "") ≡ false
blank-false k h = ground (arith, eq_iff k "")

InStep-forget :
    (oldest : String) (occurrences rest : List String)
    → InStep occurrences (oldest ∷ rest)
    → InStep (set_remove oldest occurrences) rest
unfolding contains
InStep-forget oldest occurrences rest h = record {
  members = λ k.
      ground (
        arith,
        contains-set_remove oldest k occurrences,
        h.members k,
        h.distinct.0,
        eq_iff oldest k,
      );
  distinct = h.distinct.1;
}

forget_oldest-InStep :
    (occurrences order : List String)
    → InStep occurrences order
    → InStep (forget_oldest occurrences order).0 (forget_oldest occurrences order).1
unfolding forget_oldest
forget_oldest-InStep occurrences [] h = h
forget_oldest-InStep occurrences (oldest ∷ rest) h =
    elim (Bool-cases (ltb max_remembered_occurrences (length (oldest ∷ rest)))) [
      | inl e ↦ rw e (
          forget_oldest-InStep (set_remove oldest occurrences) rest
            (InStep-forget oldest occurrences rest h))
      | inr e ↦ rw e h
    ]

-- What is left is the end of the order, as long as the limit allows.
forget_oldest-drop :
    (occurrences order : List String)
    → (forget_oldest occurrences order).1 ≡ drop (length order - max_remembered_occurrences) order
unfolding forget_oldest
forget_oldest-drop occurrences [] = refl
forget_oldest-drop occurrences (oldest ∷ rest) =
    elim (Bool-cases (ltb max_remembered_occurrences (length (oldest ∷ rest)))) [
      | inl e ↦
          let q : length (oldest ∷ rest) - max_remembered_occurrences
              ≡ suc (length rest - max_remembered_occurrences) =
            ground (arith, e) in
          rw (e, q) (forget_oldest-drop (set_remove oldest occurrences) rest)
      | inr e ↦
          let q : length (oldest ∷ rest) - max_remembered_occurrences ≡ 0 = ground (arith, e) in
          rw (e, q)
    ]

length-drop {ℓ} : {A : Type ℓ} (n : ℕ) (xs : List A) → length (drop n xs) ≡ length xs - n
length-drop zero xs = omega arith
length-drop (suc n) [] = omega arith
length-drop (suc n) (x ∷ xs) = omega (arith, length-drop n xs)

InStep-add :
    (k : String) (occurrences order : List String)
    → contains k occurrences ≡ false
    → InStep occurrences order
    → InStep (set_add k occurrences) (order ++ k ∷ [])
unfolding contains
InStep-add k occurrences order new h = record {
  members = λ j.
      ground
        (arith, contains-set_add k j occurrences, contains-append j order (k ∷ []), h.members j);
  distinct = AllDistinct-append k order (ground (arith, new, h.members k)) h.distinct;
}

-- Where the set and the order are in step, remembering a named occurrence that is new keeps them
-- in step, and the order is then the end, of at most 512 entries, of the old one with the new
-- occurrence behind it.
pub remember_occurrence_lem :
    (s : Service) (k : String)
    → k ≢ ""
    → contains k s.occurrences ≡ false
    → InStep s.occurrences s.occurrence_order
    → let after = remember_occurrence s k in
      InStep after.occurrences after.occurrence_order
      × (after.occurrence_order
          ≡ drop
              (length (s.occurrence_order ++ k ∷ []) - max_remembered_occurrences)
              (s.occurrence_order ++ k ∷ []))
      × (length after.occurrence_order ≤ max_remembered_occurrences)
unfolding remember_occurrence
remember_occurrence_lem s k named new h = rw (blank-false k named) (
  forget_oldest-InStep _ _ (InStep-add k s.occurrences s.occurrence_order new h),
  e,
  rw e (
      omega (
        arith,
        length-drop (length (s.occurrence_order ++ k ∷ []) - max_remembered_occurrences)
            (s.occurrence_order ++ k ∷ []),
      )),
)
  where
    e :
        (forget_oldest (set_add k s.occurrences) (s.occurrence_order ++ k ∷ [])).1
        ≡ drop
            (length (s.occurrence_order ++ k ∷ []) - max_remembered_occurrences)
            (s.occurrence_order ++ k ∷ [])
    e = forget_oldest-drop (set_add k s.occurrences) (s.occurrence_order ++ k ∷ [])

-- Nothing but the set and the order changes.
pub remember_occurrence_shape :
    (s : Service) (k : String)
    → (occurrences order : List String) × (remember_occurrence s k
        ≡ record s { occurrences = occurrences; occurrence_order = order })
unfolding remember_occurrence
remember_occurrence_shape s k = elim (Bool-cases (k == "")) [
  | inl e ↦ (s.occurrences, s.occurrence_order, rw e)
  | inr e ↦ (
    (forget_oldest (set_add k s.occurrences) (s.occurrence_order ++ k ∷ [])).0,
    (forget_oldest (set_add k s.occurrences) (s.occurrence_order ++ k ∷ [])).1,
    rw e,
  )
]
