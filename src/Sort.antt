-- ===== src/Sort.antt =====
-- sort.Slice with the comparison `less`: the result is ordered and has the same entries.
use mathlib.Core.List.{Perm, perm_middle, append-nil}
use mathlib.Core.List.Perm
use cpa_auto_refresh_quota.Base.{
  ◌≡◌, inl, inr, Bool, true, false, List, [], ◌∷◌, ◌++◌, if◌then◌else◌, Bool-cases, All, Pairwise,
}

module _ {ℓ} {A : Type ℓ} (less : A → A → Bool) where
  insert_sorted : A → List A → List A
  insert_sorted a [] = a ∷ []
  insert_sorted a (x ∷ xs) =
      let rest = insert_sorted a xs in if less a x then a ∷ x ∷ xs else x ∷ rest

  sort_from : List A → List A → List A
  unfolding insert_sorted
  sort_from sorted [] = sorted
  sort_from sorted (x ∷ xs) = sort_from (insert_sorted x sorted) xs

  unfoldable pub sort_slice : List A → List A
  unfolding sort_from
  sort_slice xs = sort_from [] xs

  insert_sorted-perm : (a : A) (xs : List A) → Perm (insert_sorted a xs) (a ∷ xs)
  unfolding insert_sorted
  insert_sorted-perm a [] = Perm.refl _
  insert_sorted-perm a (x ∷ xs) = elim (Bool-cases (less a x)) [
    | inl e ↦ rw e (Perm.refl _)
    | inr e ↦ rw e (Perm.trans (Perm.cons x (insert_sorted-perm a xs)) (Perm.swap a x xs))
  ]

  sort_from-perm : (sorted xs : List A) → Perm (sort_from sorted xs) (sorted ++ xs)
  unfolding sort_from
  sort_from-perm sorted [] = rw append-nil (Perm.refl sorted)
  sort_from-perm sorted (x ∷ xs) = Perm.trans (sort_from-perm (insert_sorted x sorted) xs) (
      Perm.trans (Perm.append_right xs (insert_sorted-perm x sorted))
        (Perm.symm (perm_middle sorted xs)))

  pub sort_slice-perm : (xs : List A) → Perm (sort_slice xs) xs
  unfolding sort_slice
  sort_slice-perm xs = sort_from-perm [] xs

  -- No entry is less than one before it.
  abbrev pub IsOrdered : List A → Type 0
  IsOrdered [] = Unit {0}
  IsOrdered (x ∷ xs) = All (λ y. less y x ≡ false) xs × IsOrdered xs

  insert_sorted-All {κ} :
      (P : A → Type κ) (a : A) (xs : List A) → P a → All P xs → All P (insert_sorted a xs)
  unfolding insert_sorted
  insert_sorted-All P a [] pa h = (pa, tt)
  insert_sorted-All P a (x ∷ xs) pa h = elim (Bool-cases (less a x)) [
    | inl e ↦ rw e (pa, h)
    | inr e ↦ rw e (h.0, insert_sorted-All P a xs pa h.1)
  ]

  pub sort_slice-All {κ} : (P : A → Type κ) (xs : List A) → All P xs → All P (sort_slice xs)
  unfolding sort_slice sort_from
  sort_slice-All P xs h = go [] xs tt h
    where
      go : (sorted ys : List A) → All P sorted → All P ys → All P (sort_from sorted ys)
      go sorted [] hs h = hs
      go sorted (y ∷ ys) hs h =
          go (insert_sorted y sorted) ys (insert_sorted-All P y sorted h.0 hs) h.1

  module _ {κ} (R : A → A → Type κ) (symmetric : (a b : A) → R a b → R b a) where
    insert_sorted-Pairwise :
        (a : A) (xs : List A) → All (R a) xs → Pairwise R xs → Pairwise R (insert_sorted a xs)
    unfolding insert_sorted
    insert_sorted-Pairwise a [] ha h = (tt, tt)
    insert_sorted-Pairwise a (x ∷ xs) ha h = elim (Bool-cases (less a x)) [
      | inl e ↦ rw e (ha, h)
      | inr e ↦ rw e (
        insert_sorted-All (R x) a xs (symmetric a x ha.0) h.0,
        insert_sorted-Pairwise a xs ha.1 h.1,
      )
    ]

    insert-apart :
        (a : A) (sorted xs : List A)
        → All (R a) xs
        → All (λ y. All (R y) sorted) xs
        → All (λ y. All (R y) (insert_sorted a sorted)) xs
    insert-apart a sorted [] ha h = tt
    insert-apart a sorted (x ∷ xs) ha h = (
      insert_sorted-All (R x) a sorted (symmetric a x ha.0) h.0,
      insert-apart a sorted xs ha.1 h.1,
    )

    sort_from-Pairwise :
        (sorted xs : List A)
        → Pairwise R sorted
        → All (λ x. All (R x) sorted) xs
        → Pairwise R xs
        → Pairwise R (sort_from sorted xs)
    unfolding sort_from
    sort_from-Pairwise sorted [] hs apart h = hs
    sort_from-Pairwise sorted (x ∷ xs) hs apart h =
        sort_from-Pairwise (insert_sorted x sorted) xs (insert_sorted-Pairwise x sorted apart.0 hs)
          (insert-apart x sorted xs h.0 apart.1) h.1

    pub sort_slice-Pairwise : (xs : List A) → Pairwise R xs → Pairwise R (sort_slice xs)
    unfolding sort_slice
    sort_slice-Pairwise xs h = sort_from-Pairwise [] xs tt (all-tt xs) h
      where
        all-tt : (ys : List A) → All (λ x. All (R x) []) ys
        all-tt [] = tt
        all-tt (y ∷ ys) = (tt, all-tt ys)

  module _ (less_irrefl : (a : A) → less a a ≡ false)
      (less_trans : (a b c : A) → less a b ≡ true → less b c ≡ true → less a c ≡ true) where
    less_asymm : (a b : A) → less a b ≡ true → less b a ≡ false
    less_asymm a b p = elim (Bool-cases (less b a)) [
      | inl q ↦ cc (less_irrefl a, less_trans a b a p q)
      | inr q ↦ q
    ]

    not_less_below :
        (a x : A) (xs : List A)
        → less a x ≡ true
        → All (λ y. less y x ≡ false) xs
        → All (λ y. less y a ≡ false) xs
    not_less_below a x [] p h = tt
    not_less_below a x (y ∷ xs) p h = elim (Bool-cases (less y a)) [
      | inl q ↦ cc (h.0, less_trans y a x q p)
      | inr q ↦ (q, not_less_below a x xs p h.1)
    ]

    insert_sorted-IsOrdered : (a : A) (xs : List A) → IsOrdered xs → IsOrdered (insert_sorted a xs)
    unfolding insert_sorted
    insert_sorted-IsOrdered a [] h = (tt, tt)
    insert_sorted-IsOrdered a (x ∷ xs) h = elim (Bool-cases (less a x)) [
      | inl e ↦ rw e ((less_asymm a x e, not_less_below a x xs e h.0), h)
      | inr e ↦
          rw e
            (insert_sorted-All (λ y. less y x ≡ false) a xs e h.0, insert_sorted-IsOrdered a xs h.1)
    ]

    sort_from-IsOrdered : (sorted xs : List A) → IsOrdered sorted → IsOrdered (sort_from sorted xs)
    unfolding sort_from
    sort_from-IsOrdered sorted [] h = h
    sort_from-IsOrdered sorted (x ∷ xs) h =
        sort_from-IsOrdered (insert_sorted x sorted) xs (insert_sorted-IsOrdered x sorted h)

    pub sort_slice-IsOrdered : (xs : List A) → IsOrdered (sort_slice xs)
    unfolding sort_slice
    sort_slice-IsOrdered xs = sort_from-IsOrdered [] xs tt
