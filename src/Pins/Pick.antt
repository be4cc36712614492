-- ===== src/Pins/Pick.antt =====
-- scheduler.pick: which requests are answered with a pinned credential, and what that records.
use cpa_auto_refresh_quota.Pins.Matching.{seen_of, lookup-match_header, match_header-matched_iff}
use cpa_auto_refresh_quota.Base.{
  String, ◌≡◌, refl, ◌∙◌, ◌≢◌, ◌↔◌, ◌⊎◌, inl, inr, true, some, [], ◌∷◌, arith, ◌==◌, eq_iff,
  if◌then◌else◌, Bool-cases, Option-cases, ok, err,
}
use cpa_auto_refresh_quota.Base.Dict.{lookup, insert, lookup-insert, contains}
use cpa_auto_refresh_quota.Pins.{
  AuthPinState, Pins, Registry, Headers, pin_header_values, Match, matched, match_header,
  select_state, mark_selected, PickRequest, PickResponse, has_candidate, pick_pinned_auth,
  pinned_auth_unavailable, not_handled, invalid,
}

abbrev pub picked : String → PickResponse
picked auth_id = record { auth_id = auth_id; handled = true }

-- The request names the pin `token` and offers its credential.
abbrev pub Selects : Pins → PickRequest → String → AuthPinState → Type 0
Selects pins request token s =
    ((pin_header_values request.headers).0 ≡ token ∷ [])
    × (lookup token pins ≡ some s)
    × (has_candidate s.auth_id request.candidates ≡ true)

pick-eq-match :
    (registry : Registry) (request : PickRequest) (token : String) (state : AuthPinState)
    → (match_header registry request.headers).0 ≡ matched token state
    → pick_pinned_auth registry request ≡ (
        if has_candidate state.auth_id request.candidates
        then (
          ok (picked state.auth_id),
          mark_selected (match_header registry request.headers).1 token,
        )
        else (err pinned_auth_unavailable, (match_header registry request.headers).1))
unfolding pick_pinned_auth
pick-eq-match registry request token state e = rw (e, pick_pinned_auth)

Match-cases :
    (m : Match)
    → (m ≡ not_handled)
      ⊎ (m ≡ invalid)
      ⊎ ((token : String) × (s : AuthPinState) × (m ≡ matched token s))
Match-cases not_handled = inl refl
Match-cases invalid = inr (inl refl)
Match-cases (matched token s) = inr (inr (token, s, refl))

pick-unmatched :
    (registry : Registry) (request : PickRequest)
    → ((match_header registry request.headers).0 ≡ not_handled)
      ⊎ ((match_header registry request.headers).0 ≡ invalid)
    → ((pick_pinned_auth registry request).1 ≡ (match_header registry request.headers).1)
      × ((auth_id : String) → (pick_pinned_auth registry request).0 ≢ ok (picked auth_id))
unfolding pick_pinned_auth
pick-unmatched registry request (inl e) =
    (rw (e, pick_pinned_auth), λ a. rw (e, pick_pinned_auth) (λ h. cc))
pick-unmatched registry request (inr e) =
    (rw (e, pick_pinned_auth), λ a. rw (e, pick_pinned_auth) (λ h. cc))

picked-Selects :
    (pins : Pins) (request : PickRequest) (auth_id token : String) (state : AuthPinState)
    → ((pin_header_values request.headers).0 ≡ token ∷ [])
      × (some state ≡ seen_of (lookup token pins))
    → (pick_pinned_auth (some pins) request).0 ≡ ok (picked auth_id)
    → pick_pinned_auth (some pins) request ≡ (
        if has_candidate state.auth_id request.candidates
        then (
          ok (picked state.auth_id),
          mark_selected (match_header (some pins) request.headers).1 token,
        )
        else (err pinned_auth_unavailable, (match_header (some pins) request.headers).1))
    → (token : String) × (s : AuthPinState) × Selects pins request token s × (s.auth_id ≡ auth_id)
picked-Selects pins request auth_id token state m h e = elim (Option-cases (lookup token pins)) [
  | inl q ↦ ground (arith, m.1, q)
  | inr (s, q) ↦ (token, s, (m.0, q, ground (arith, m.1, q, h, e)), ground (arith, m.1, q, h, e))
]

-- The plugin picks a credential exactly where the header's only value names a pin of that
-- credential and the credential is among the candidates.
pub pick_pinned_auth_iff :
    (pins : Pins) (request : PickRequest) (auth_id : String)
    → ((pick_pinned_auth (some pins) request).0 ≡ ok (picked auth_id)) ↔ (
        (token : String) × (s : AuthPinState) × Selects pins request token s
        × (s.auth_id ≡ auth_id))
pick_pinned_auth_iff pins request auth_id = (
  λ h. elim (Match-cases (match_header (some pins) request.headers).0) [
    | inl e ↦ absurd ((pick-unmatched (some pins) request (inl e)).1 auth_id h)
    | inr (inl e) ↦ absurd ((pick-unmatched (some pins) request (inr e)).1 auth_id h)
    | inr (inr (token, state, e)) ↦
        picked-Selects pins request auth_id token state
          ((match_header-matched_iff pins request.headers token state).0 e) h
          (pick-eq-match (some pins) request token state e)
  ],
  λ (token, s, sel, q).
      let e =
        (match_header-matched_iff pins request.headers token (record s { scheduler_seen = true })).1
          (sel.0, rw sel.1) in
      rw (pick-eq-match (some pins) request token _ e) (ground (arith, sel.2, q)),
)

-- What an operation does to the pin `s` of the token `k`: it stays registered for its credential.
pub record Keeps (k : String) (s : AuthPinState) (Selected : Type 0) (registry : Registry)
    : Type 0 where
  pub after : Pins
  pub pin : AuthPinState
  pub is_after : registry ≡ some after
  pub registered : lookup k after ≡ some pin
  pub same_auth : pin.auth_id ≡ s.auth_id
  pub selected_by : pin.selected ≡ true → (s.selected ≡ true) ⊎ Selected

mark_selected-Keeps :
    (k token : String) (s : AuthPinState) (pins : Pins)
    → lookup k pins ≡ some s
    → Keeps k s (token ≡ k) (mark_selected (some pins) token)
unfolding mark_selected
mark_selected-Keeps k token s pins e = elim (Option-cases (lookup token pins)) [
  | inl q ↦ record {
    after = pins;
    pin = s;
    is_after = ground (arith, q);
    registered = e;
    same_auth = refl;
    selected_by = inl;
  }
  | inr (t, q) ↦ record {
    after = (if token == "" then pins else insert token (select_state t) pins);
    pin = (if token == "" then s else if token == k then select_state t else s);
    is_after = ground (arith, q);
    registered = ground (arith, e, q, lookup-insert token k (select_state t) pins, eq_iff token k);
    same_auth = ground (arith, e, q, eq_iff token k);
    selected_by = ground (arith, e, q, eq_iff token k);
  }
]

match_header-Keeps :
    (k : String) (s : AuthPinState) (pins : Pins) (headers : Headers)
    → lookup k pins ≡ some s
    → Keeps k s ⊥ (match_header (some pins) headers).1
match_header-Keeps k s pins headers e =
    let (after, q, r) = lookup-match_header k pins headers in
    record {
      after = after;
      pin =
          (if contains k (pin_header_values headers).0
            then record s { scheduler_seen = true }
            else s);
      is_after = q;
      registered = ground (arith, r, e);
      same_auth = ground arith;
      selected_by = ground arith;
    }

pub Keeps-weaken :
    (P Q : Type 0) {registry : Registry} (k : String) (s : AuthPinState)
    → (P → Q)
    → Keeps k s P registry
    → Keeps k s Q registry
Keeps-weaken P Q k s f h = record {
  after = h.after;
  pin = h.pin;
  is_after = h.is_after;
  registered = h.registered;
  same_auth = h.same_auth;
  selected_by = λ p. weaken (h.selected_by p);
}
  where
    weaken : (s.selected ≡ true) ⊎ P → (s.selected ≡ true) ⊎ Q
    weaken (inl a) = inl a
    weaken (inr b) = inr (f b)

pub Keeps-then :
    (P : Type 0) (k : String) (s t : AuthPinState) {registry : Registry}
    → t.auth_id ≡ s.auth_id
    → (t.selected ≡ true → (s.selected ≡ true) ⊎ P)
    → Keeps k t P registry
    → Keeps k s P registry
Keeps-then P k s t e f h = record {
  after = h.after;
  pin = h.pin;
  is_after = h.is_after;
  registered = h.registered;
  same_auth = h.same_auth ∙ e;
  selected_by = λ p. first (h.selected_by p);
}
  where
    first : (t.selected ≡ true) ⊎ P → (s.selected ≡ true) ⊎ P
    first (inl a) = f a
    first (inr b) = inr b

-- A pick changes whether a pin is selected only by selecting it: the request's only value is the
-- pin's token, and its credential is a candidate.
pub pick-Keeps :
    (k : String) (s : AuthPinState) (pins : Pins) (request : PickRequest)
    → lookup k pins ≡ some s
    → Keeps k s (Selects pins request k s) (pick_pinned_auth (some pins) request).1
pick-Keeps k s pins request e = elim (Match-cases (match_header (some pins) request.headers).0) [
  | inl q ↦ rw (pick-unmatched (some pins) request (inl q)).0 unmatched
  | inr (inl q) ↦ rw (pick-unmatched (some pins) request (inr q)).0 unmatched
  | inr (inr (token, state, q)) ↦
      rw (pick-eq-match (some pins) request token state q)
        (elim (Bool-cases (has_candidate state.auth_id request.candidates)) [
          | inr c ↦ rw c unmatched
          | inl c ↦
              rw (c, seen.is_after)
                (Keeps-then _ k s seen.pin seen.same_auth
                  (λ p. elim (seen.selected_by p) [ inl a ↦ inl a | inr b ↦ absurd b ])
                  (Keeps-weaken (token ≡ k) _ k seen.pin
                    (selects token state
                      ((match_header-matched_iff pins request.headers token state).0 q) c)
                    (mark_selected-Keeps k token seen.pin seen.after seen.registered)))
        ])
]
  where
    seen : Keeps k s ⊥ (match_header (some pins) request.headers).1
    seen = match_header-Keeps k s pins request.headers e

    unmatched : Keeps k s (Selects pins request k s) (match_header (some pins) request.headers).1
    unmatched = Keeps-weaken ⊥ _ k s absurd seen

    selects :
        (token : String) (state : AuthPinState)
        → ((pin_header_values request.headers).0 ≡ token ∷ [])
          × (some state ≡ seen_of (lookup token pins))
        → has_candidate state.auth_id request.candidates ≡ true
        → token ≡ k
        → Selects pins request k s
    selects token state m c q = (ground (arith, m.0, q), e, ground (arith, m.1, q, e, c))
