-- ===== src/Pins/Matching.antt =====
-- What matchHeader answers and which pins it marks as seen.
use cpa_auto_refresh_quota.Base.{
  String, ◌≡◌, refl, ap, ◌↔◌, inl, inr, true, false, ◌&&◌, Option, none, some, List, [], ◌∷◌, arith,
  eq_iff, eq_refl, if◌then◌else◌, Option-cases, is_some, option_or, is_empty, List-cases,
}
use cpa_auto_refresh_quota.Base.Dict.{lookup, insert, lookup-insert, contains}
use cpa_auto_refresh_quota.Pins.{
  AuthPinState, Pins, zero_state, Headers, pin_header_values, matched, known_tokens, see, mark_seen,
  match_values, match_header,
}

-- The pin as the scheduler's visit leaves it.
abbrev pub seen_of : Option AuthPinState → Option AuthPinState
seen_of none = none
seen_of (some s) = some (record s { scheduler_seen = true })

abbrev pub AllKnown : Pins → List String → Type 0
AllKnown pins [] = Unit {0}
AllKnown pins (t ∷ ts) = (is_some (lookup t pins) ≡ true) × AllKnown pins ts

AllKnown-insert :
    (token : String) (s : AuthPinState) (pins : Pins) (ts : List String)
    → AllKnown pins ts
    → AllKnown (insert token s pins) ts
AllKnown-insert token s pins [] h = tt
AllKnown-insert token s pins (t ∷ ts) h =
    (ground (arith, lookup-insert token t s pins, h.0), AllKnown-insert token s pins ts h.1)

lookup-mark_seen :
    (k : String) (pins : Pins) (known : List String)
    → AllKnown pins known
    → lookup k (mark_seen pins known)
      ≡ (if contains k known then seen_of (lookup k pins) else lookup k pins)
unfolding mark_seen contains
lookup-mark_seen k pins [] h = refl
lookup-mark_seen k pins (token ∷ known) h =
    rw (lookup-mark_seen k (insert token _ pins) known (AllKnown-insert token _ pins known h.1)) (
      ground (
        arith,
        lookup-insert token k (see (option_or (lookup token pins) zero_state)) pins,
        eq_iff token k,
        h.0,
      ))

AllKnown-known_tokens :
    (pins : Pins) (values : List String) → AllKnown pins (known_tokens pins values)
unfolding known_tokens
AllKnown-known_tokens pins [] = tt
AllKnown-known_tokens pins (v ∷ values) = ground (arith, AllKnown-known_tokens pins values)

contains-known_tokens :
    (k : String) (pins : Pins) (values : List String)
    → contains k (known_tokens pins values) ≡ (contains k values && is_some (lookup k pins))
unfolding known_tokens contains
contains-known_tokens k pins [] = refl
contains-known_tokens k pins (v ∷ values) =
    ground (arith, contains-known_tokens k pins values, eq_iff v k)

lookup-match_values :
    (k : String) (pins : Pins) (values : List String)
    → lookup k (match_values pins values).1
      ≡ (if contains k values then seen_of (lookup k pins) else lookup k pins)
unfolding match_values contains
lookup-match_values k pins values = elim (List-cases (known_tokens pins values)) [
  | inl e ↦
      rw (e, match_values) (ground (arith, contains-known_tokens k pins values, ap (contains k) e))
  | inr (t, ts, e) ↦
      rw (e, match_values)
        (ground (
          arith,
          contains-known_tokens k pins values,
          ap (contains k) e,
          lookup-mark_seen k pins (t ∷ ts) (rw e at (AllKnown-known_tokens pins values)),
        ))
]

absent_values :
    (headers : Headers) → (pin_header_values headers).1 ≡ false → (pin_header_values headers).0 ≡ []
unfolding pin_header_values
absent_values [] h = refl
absent_values ((key, items) ∷ headers) h = ground (arith, absent_values headers)

match_values-empty :
    (pins : Pins) (values : List String)
    → is_empty values ≡ true
    → (match_values pins values).1 ≡ pins
unfolding match_values
match_values-empty pins [] h = refl
match_values-empty pins (v ∷ values) h = cc

-- matchHeader marks exactly the pins that a value of the header names as seen by the scheduler, on
-- every path, and changes nothing else of any pin.
pub lookup-match_header :
    (k : String) (pins : Pins) (headers : Headers)
    → (after : Pins) × ((match_header (some pins) headers).1 ≡ some after)
      × (lookup k after ≡ (
          if contains k (pin_header_values headers).0
          then seen_of (lookup k pins)
          else lookup k pins))
unfolding match_header
lookup-match_header k pins headers = (
  (if (pin_header_values headers).1
      then (match_values pins (pin_header_values headers).0).1
      else pins),
  ground (arith, match_values-empty pins (pin_header_values headers).0),
  ground (arith, lookup-match_values k pins (pin_header_values headers).0, absent_values headers),
)

known_tokens-single :
    (pins : Pins) (token : String) (s : AuthPinState)
    → lookup token pins ≡ some s
    → known_tokens pins (token ∷ []) ≡ token ∷ []
unfolding known_tokens
known_tokens-single pins token s e = ground (arith, e)

-- A match answers the one value of the header and its pin.
match_values-matched :
    (pins : Pins) (values : List String) (token : String) (state : AuthPinState)
    → (match_values pins values).0 ≡ matched token state
    → (values ≡ token ∷ []) × (some state ≡ seen_of (lookup token pins))
unfolding match_values known_tokens contains
match_values-matched pins [] token state e = cc
match_values-matched pins (v ∷ []) token state e = elim (Option-cases (lookup v pins)) [
  | inl q ↦ ground (arith, e, q)
  | inr (s, q) ↦
      ground (arith, e, q, lookup-mark_seen v pins (v ∷ []) (ground (arith, q), tt), eq_refl v)
]
match_values-matched pins (v ∷ w ∷ values) token state e = ground (arith, e)

matched-match_values :
    (pins : Pins) (token : String) (s : AuthPinState)
    → lookup token pins ≡ some s
    → (match_values pins (token ∷ [])).0 ≡ matched token (record s { scheduler_seen = true })
unfolding match_values contains
matched-match_values pins token s e =
    rw (known_tokens-single pins token s e, match_values)
      (ground
        (arith, e, lookup-mark_seen token pins (token ∷ []) (ground (arith, e), tt), eq_refl token))

-- matchHeader answers with a token exactly where the header's only non-blank value is that of a
-- registered pin, which it answers too, marked as seen.
pub match_header-matched_iff :
    (pins : Pins) (headers : Headers) (token : String) (state : AuthPinState)
    → ((match_header (some pins) headers).0 ≡ matched token state)
      ↔ (((pin_header_values headers).0 ≡ token ∷ []) × (some state ≡ seen_of (lookup token pins)))
unfolding match_header
match_header-matched_iff pins headers token state = (
  λ h. ground (arith, h, match_values-matched pins (pin_header_values headers).0 token state),
  λ h. elim (Option-cases (lookup token pins)) [
    | inl q ↦ ground (arith, h, q)
    | inr (s, q) ↦ ground (
      arith,
      h,
      q,
      absent_values headers,
      matched-match_values pins token s q,
      ap (match_values pins) h.0,
    )
  ],
)
