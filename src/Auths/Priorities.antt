-- ===== src/Auths/Priorities.antt =====
-- highestAvailablePriority and desiredPriorityForAuth of internal/refreshquota/priority.go.
use cpa_auto_refresh_quota.Base.Int.{ℤ, ◌≤ℤ◌, ltb_ℤ, eqb_ℤ, eqb_ℤ_iff, pos}
use cpa_auto_refresh_quota.Base.{
  ◌≡◌, refl, ◌⊎◌, inl, inr, Bool, true, false, not, ◌&&◌, ◌||◌, List, [], ◌∷◌, arith, if◌then◌else◌,
  Bool-cases,
}
use cpa_auto_refresh_quota.Base.Text.{trim_space, equal_fold}
use cpa_auto_refresh_quota.Auths.{Auth}

-- The credential is switched off, by its flag or its status.
unfoldable pub is_disabled : Auth → Bool
is_disabled auth = auth.disabled || equal_fold (trim_space auth.status) "disabled"

-- The loop's state: the highest priority so far, and whether one was found.
highest_from : ℤ → Bool → List Auth → ℤ × Bool
highest_from highest found [] = (highest, found)
highest_from highest found (auth ∷ auths) =
    let better = not found || ltb_ℤ highest auth.priority in
    let take = not (is_disabled auth) && better in
    highest_from (if take then auth.priority else highest) (if take then true else found) auths

unfoldable pub highest_available_priority : List Auth → ℤ × Bool
unfolding highest_from
highest_available_priority auths = highest_from (pos 0) false auths

unfoldable pub desired_priority_for_auth : Auth → ℤ → Bool → ℤ
desired_priority_for_auth auth highest found =
    if not found || ltb_ℤ highest auth.priority then auth.priority else highest

-- Every enabled credential's priority is at most `n`.
abbrev pub IsUpperBound : ℤ → List Auth → Type 0
IsUpperBound n [] = Unit {0}
IsUpperBound n (auth ∷ auths) =
    (is_disabled auth ≡ false → auth.priority ≤ℤ n) × IsUpperBound n auths

-- Some enabled credential has the priority `n`.
abbrev pub attains : ℤ → List Auth → Bool
attains n [] = false
attains n (auth ∷ auths) = (not (is_disabled auth) && eqb_ℤ auth.priority n) || attains n auths

abbrev pub AllDisabled : List Auth → Type 0
AllDisabled [] = Unit {0}
AllDisabled (auth ∷ auths) = (is_disabled auth ≡ true) × AllDisabled auths

record IsMaximum (start : ℤ) (auths : List Auth) (m : ℤ) : Type 0 where
  from_start : start ≤ℤ m
  above : IsUpperBound m auths
  reached : (attains m auths ≡ true) ⊎ (m ≡ start)

module _ (start : ℤ) (auth : Auth) (auths : List Auth) (m : ℤ) where
  IsMaximum-skip :
      (is_disabled auth ≡ true) ⊎ (ltb_ℤ start auth.priority ≡ false)
      → IsMaximum start auths m
      → IsMaximum start (auth ∷ auths) m
  IsMaximum-skip p h = record {
    from_start = h.from_start;
    above = (ground arith, h.above);
    reached = ground arith;
  }

  IsMaximum-take :
      is_disabled auth ≡ false
      → start ≤ℤ auth.priority
      → IsMaximum auth.priority auths m
      → IsMaximum start (auth ∷ auths) m
  IsMaximum-take p q h = record {
    from_start = omega (arith, h.from_start);
    above = (λ _. h.from_start, h.above);
    reached = inl (ground (arith, eqb_ℤ_iff auth.priority m, h.reached));
  }

highest_from_found :
    (highest : ℤ) (auths : List Auth)
    → (m : ℤ) × (highest_from highest true auths ≡ (m, true)) × IsMaximum highest auths m
unfolding highest_from
highest_from_found highest [] =
    (highest, refl, record { from_start = omega arith; above = tt; reached = inr refl })
highest_from_found highest (auth ∷ auths) =
    go (highest_from_found highest auths) (highest_from_found auth.priority auths)
  where
    go :
        (m : ℤ) × (highest_from highest true auths ≡ (m, true)) × IsMaximum highest auths m
        → (m : ℤ) × (highest_from auth.priority true auths ≡ (m, true))
          × IsMaximum auth.priority auths m
        → (m : ℤ) × (highest_from highest true (auth ∷ auths) ≡ (m, true))
          × IsMaximum highest (auth ∷ auths) m
    go (m, e, h) (n, f, k) = elim (Bool-cases (is_disabled auth)) [
      | inl d ↦ (m, rw d e, IsMaximum-skip highest auth auths m (inl d) h)
      | inr d ↦ elim (Bool-cases (ltb_ℤ highest auth.priority)) [
        | inl q ↦ (n, rw (d, q) f, IsMaximum-take highest auth auths n d (ground arith) k)
        | inr q ↦ (m, rw (d, q) e, IsMaximum-skip highest auth auths m (inr q) h)
      ]
    ]

-- Either every listed credential is disabled and none is found, or the result is the priority of
-- an enabled one that no enabled one exceeds.
pub highest_available_priority_cases :
    (auths : List Auth)
    → (AllDisabled auths × (highest_available_priority auths ≡ (pos 0, false)))
      ⊎ ((m : ℤ) × (highest_available_priority auths ≡ (m, true))
          × IsUpperBound m auths
          × (attains m auths ≡ true))
unfolding highest_available_priority
highest_available_priority_cases [] = inl (tt, refl)
highest_available_priority_cases (auth ∷ auths) =
    go (highest_available_priority_cases auths) (highest_from_found auth.priority auths)
  where
    go :
        (AllDisabled auths × (highest_from (pos 0) false auths ≡ (pos 0, false)))
          ⊎ ((m : ℤ) × (highest_from (pos 0) false auths ≡ (m, true))
              × IsUpperBound m auths
              × (attains m auths ≡ true))
        → (m : ℤ) × (highest_from auth.priority true auths ≡ (m, true))
          × IsMaximum auth.priority auths m
        → (AllDisabled (auth ∷ auths)
            × (highest_from (pos 0) false (auth ∷ auths) ≡ (pos 0, false)))
          ⊎ ((m : ℤ) × (highest_from (pos 0) false (auth ∷ auths) ≡ (m, true))
              × IsUpperBound m (auth ∷ auths)
              × (attains m (auth ∷ auths) ≡ true))
    go rest (n, f, k) = elim (Bool-cases (is_disabled auth)) [
      | inl d ↦ elim rest [
        | inl (off, e) ↦ inl ((d, off), rw d e)
        | inr (m, e, above, reached) ↦ inr (m, rw d e, ((λ p. cc (p, d)), above), rw d reached)
      ]
      | inr d ↦ inr (
        n,
        rw d f,
        ((λ _. k.from_start), k.above),
        ground (arith, d, k.reached, eqb_ℤ_iff auth.priority n),
      )
    ]

IsUpperBound-mono :
    (m n : ℤ) (auths : List Auth) → m ≤ℤ n → IsUpperBound m auths → IsUpperBound n auths
IsUpperBound-mono m n [] h b = tt
IsUpperBound-mono m n (auth ∷ auths) h b =
    ((λ p. omega (arith, b.0 p)), IsUpperBound-mono m n auths h b.1)

AllDisabled-IsUpperBound : (n : ℤ) (auths : List Auth) → AllDisabled auths → IsUpperBound n auths
AllDisabled-IsUpperBound n [] h = tt
AllDisabled-IsUpperBound n (auth ∷ auths) h =
    ((λ p. cc (p, h.0)), AllDisabled-IsUpperBound n auths h.1)

-- The target priority is never below the credential's own, so an override only raises it; it is the
-- highest of the enabled ones, or its own where that is greater or none is enabled.
pub desired_priority_bounds :
    (auth : Auth) (auths : List Auth)
    → let (highest, found) = highest_available_priority auths in
      let desired = desired_priority_for_auth auth highest found in
      (auth.priority ≤ℤ desired)
      × IsUpperBound desired auths
      × ((desired ≡ auth.priority) ⊎ (attains desired auths ≡ true))
unfolding desired_priority_for_auth
desired_priority_bounds auth auths = elim (highest_available_priority_cases auths) [
  | inl (off, e) ↦ rw e (omega arith, AllDisabled-IsUpperBound auth.priority auths off, inl refl)
  | inr (m, e, above, reached) ↦ rw e (elim (Bool-cases (ltb_ℤ m auth.priority)) [
    | inl q ↦
        rw q (omega arith, IsUpperBound-mono m auth.priority auths (ground arith) above, inl refl)
    | inr q ↦ rw q (ground arith, above, inr reached)
  ])
]
