-- ===== src/Pins/Registration.antt =====
-- register and finish: a new pin under an unused token, and its end.
use cpa_auto_refresh_quota.Base.Text.{trim_space}
use cpa_auto_refresh_quota.Base.{
  ℕ, zero, suc, String, ◌≡◌, refl, ◌≢◌, ◌⊎◌, inl, inr, Option, none, some, arith, ◌==◌, eq_iff,
  eq_refl, Bool-cases, Option-cases, Result, ok, err,
}
use cpa_auto_refresh_quota.Base.Dict.{lookup, insert, remove, lookup-remove}
use cpa_auto_refresh_quota.Pins.{
  PinError, Pins, fresh_state, register_attempts, register, finish, auth_id_required, random_failed,
  no_unique_token,
}

-- Either a pin was added under a token that was free, or nothing changed.
abbrev pub Registers : Pins → String → Result PinError String × Pins → Type 0
Registers pins auth_id r =
    ((token : String) × (lookup token pins ≡ none)
      × (r ≡ (ok token, insert token (fresh_state auth_id) pins)))
    ⊎ ((e : PinError) × (r ≡ (err e, pins)))

register_attempts-Registers :
    (left : ℕ) (draw : ℕ → Option String) (pins : Pins) (auth_id : String)
    → Registers pins auth_id (register_attempts left draw pins auth_id)
unfolding register_attempts
register_attempts-Registers zero draw pins auth_id = inr (no_unique_token, refl)
register_attempts-Registers (suc left) draw pins auth_id =
    go (register_attempts-Registers left draw pins auth_id)
  where
    go :
        Registers pins auth_id (register_attempts left draw pins auth_id)
        → Registers pins auth_id (register_attempts (suc left) draw pins auth_id)
    go again = elim (Option-cases (draw left)) [
      | inl q ↦ inr (random_failed, rw (q, register_attempts))
      | inr (token, q) ↦ elim (Option-cases (lookup token pins)) [
        | inl p ↦ inl (token, p, rw (q, register_attempts) (rw p))
        | inr (s, p) ↦ rw (q, register_attempts) (rw p again)
      ]
    ]

-- Registration adds one pin, for the trimmed id and under a token that no pin has, and answers
-- the token; or it fails and changes nothing. A blank id always fails.
pub register_cases :
    (draw : ℕ → Option String) (pins : Pins) (auth_id : String)
    → ((token : String) × (trim_space auth_id ≢ "")
        × (lookup token pins ≡ none)
        × (register draw (some pins) auth_id
            ≡ (ok token, some (insert token (fresh_state (trim_space auth_id)) pins))))
      ⊎ ((e : PinError) × (register draw (some pins) auth_id ≡ (err e, some pins)))
unfolding register
register_cases draw pins auth_id = elim (Bool-cases (trim_space auth_id == "")) [
  | inl q ↦ inr (auth_id_required, rw q)
  | inr q ↦ elim (register_attempts-Registers 4 draw pins (trim_space auth_id)) [
    | inl (token, free, e) ↦
        inl (token, (ground (arith, q, eq_iff (trim_space auth_id) "")), free, rw q (rw e))
    | inr (x, e) ↦ inr (x, rw q (rw e))
  ]
]

-- finish, given a token that is not blank, answers the token's pin and takes it away, so a second
-- finish answers none; the pins of the other tokens stay.
pub finish_lem :
    (pins : Pins) (token : String)
    → token ≢ ""
    → (after : Pins) × (finish (some pins) token ≡ (lookup token pins, some after))
      × (lookup token after ≡ none)
      × ((finish (some after) token).0 ≡ none)
      × ((k : String) → k ≢ token → lookup k after ≡ lookup k pins)
unfolding finish
finish_lem pins token h = (
  remove token pins,
  ground (arith, eq_iff token ""),
  ground (arith, lookup-remove token token pins, eq_refl token),
  ground (arith, eq_iff token "", lookup-remove token token pins, eq_refl token),
  λ k n. ground (arith, lookup-remove token k pins, eq_iff token k, n),
)
