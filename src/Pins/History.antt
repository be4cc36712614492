-- ===== src/Pins/History.antt =====
-- A pin over its lifetime, whatever the scheduler and the other requests do meanwhile.
use cpa_auto_refresh_quota.Pins.Registration.{register_cases}
use cpa_auto_refresh_quota.Base.Text.{trim_space}
use cpa_auto_refresh_quota.Pins.Pick.{
  picked, Selects, pick_pinned_auth_iff, Keeps, Keeps-weaken, Keeps-then, pick-Keeps,
}
use cpa_auto_refresh_quota.Pins.Execute.{Event, step, run, picks, registers, finishes}
use cpa_auto_refresh_quota.Base.{
  ℕ, String, ◌≡◌, refl, ap, ◌≢◌, ◌⊎◌, inl, inr, Option, some, List, [], ◌∷◌, arith, ◌==◌, eq_iff,
  if◌then◌else◌, ok,
}
use cpa_auto_refresh_quota.Base.Dict.{lookup, insert, remove, lookup-insert, lookup-remove}
use cpa_auto_refresh_quota.Pins.{
  AuthPinState, Pins, Registry, fresh_state, register, finish, pin_header_values, pick_pinned_auth,
}

-- The request is answered with `auth_id`, and its header's only value is `token`.
abbrev pub PicksFor : String → String → Registry → Event → Type 0
PicksFor token auth_id registry (picks request) =
    ((pick_pinned_auth registry request).0 ≡ ok (picked auth_id))
    × ((pin_header_values request.headers).0 ≡ token ∷ [])
PicksFor token auth_id registry (registers draw id) = ⊥
PicksFor token auth_id registry (finishes t) = ⊥

-- Some event of the history picks `auth_id` for the token.
abbrev pub PickedDuring : String → String → Registry → List Event → Type 0
PickedDuring token auth_id registry [] = ⊥
PickedDuring token auth_id registry (e ∷ events) =
    PicksFor token auth_id registry e ⊎ PickedDuring token auth_id (step registry e) events

-- No event takes the token's pin back: only the request that holds it does.
abbrev pub IsHeld : String → List Event → Type 0
IsHeld token [] = Unit {0}
IsHeld token (finishes t ∷ events) = (token ≢ t) × IsHeld token events
IsHeld token (e ∷ events) = IsHeld token events

finish-Keeps :
    (k token : String) (s : AuthPinState) (pins : Pins)
    → lookup k pins ≡ some s
    → k ≢ token
    → Keeps k s ⊥ (finish (some pins) token).1
unfolding finish
finish-Keeps k token s pins e n = record {
  after = (if token == "" then pins else remove token pins);
  pin = s;
  is_after = ground arith;
  registered = ground (arith, e, n, lookup-remove token k pins, eq_iff token k);
  same_auth = refl;
  selected_by = inl;
}

register-Keeps :
    (k auth_id : String) (draw : ℕ → Option String) (s : AuthPinState) (pins : Pins)
    → lookup k pins ≡ some s
    → Keeps k s ⊥ (register draw (some pins) auth_id).1
register-Keeps k auth_id draw s pins e = elim (register_cases draw pins auth_id) [
  | inl (token, _, free, q) ↦ record {
    after = insert token (fresh_state (trim_space auth_id)) pins;
    pin = s;
    is_after = ap (λ r. r.1) q;
    registered = ground (
      arith,
      e,
      free,
      eq_iff token k,
      lookup-insert token k (fresh_state (trim_space auth_id)) pins,
    );
    same_auth = refl;
    selected_by = inl;
  }
  | inr (x, q) ↦ record {
    after = pins;
    pin = s;
    is_after = ap (λ r. r.1) q;
    registered = e;
    same_auth = refl;
    selected_by = inl;
  }
]

step-Keeps :
    (k : String) (s : AuthPinState) (pins : Pins) (e : Event) (events : List Event)
    → lookup k pins ≡ some s
    → IsHeld k (e ∷ events)
    → Keeps k s (PicksFor k s.auth_id (some pins) e) (step (some pins) e) × IsHeld k events
unfolding step
step-Keeps k s pins (picks request) events q h = (
  Keeps-weaken (Selects pins request k s) _ k s
      (λ sel. ((pick_pinned_auth_iff pins request s.auth_id).1 (k, s, sel, refl), sel.0))
      (pick-Keeps k s pins request q),
  h,
)
step-Keeps k s pins (registers draw id) events q h = (register-Keeps k id draw s pins q, h)
step-Keeps k s pins (finishes t) events q h = (finish-Keeps k t s pins q h.0, h.1)

-- Whatever happens while a registered pin is held, it stays registered for its credential, and it
-- is selected only if it was before or a pick of the history answered that credential to its
-- token.
pub run-Keeps :
    (k : String) (s : AuthPinState) (pins : Pins) (events : List Event)
    → lookup k pins ≡ some s
    → IsHeld k events
    → Keeps k s (PickedDuring k s.auth_id (some pins) events) (run (some pins) events)
unfolding run
run-Keeps k s pins [] q h = record {
  after = pins;
  pin = s;
  is_after = refl;
  registered = q;
  same_auth = refl;
  selected_by = inl;
}
run-Keeps k s pins (e ∷ events) q h =
    let (st, held) = step-Keeps k s pins e events q h in
    rw st.is_after (
      Keeps-then _ k s st.pin st.same_auth
        (λ p. elim (st.selected_by p) [ inl a ↦ inl a | inr b ↦ inr (inl b) ])
        (Keeps-weaken (PickedDuring k st.pin.auth_id (some st.after) events) _ k st.pin
          (λ p. inr (rw st.same_auth at p))
          (run-Keeps k st.pin st.after events st.registered held)))
