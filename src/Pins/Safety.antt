-- ===== src/Pins/Safety.antt =====
-- ExecutePinned: a response comes only through the requested credential, and no pin is left behind.
use cpa_auto_refresh_quota.Pins.Registration.{register_cases, finish_lem}
use cpa_auto_refresh_quota.Pins.History.{PickedDuring, IsHeld, run-Keeps}
use cpa_auto_refresh_quota.Base.Text.{trim_space}
use cpa_auto_refresh_quota.Base.{
  ℕ, String, ◌≡◌, refl, ◌≢◌, inl, inr, true, Option, none, some, List, arith, eq_refl, Result, ok,
  err,
}
use cpa_auto_refresh_quota.Base.Dict.{lookup, insert, lookup-insert}
use cpa_auto_refresh_quota.Pins.{AuthPinState, Pins, Registry, fresh_state, register, finish}
use cpa_auto_refresh_quota.Pins.Execute.{
  Event, run, PinnedModelRequest, ModelResponse, HostRequest, HostReply, host_request, settle,
  execute_pinned,
}

settle-ok :
    (result : Result String (Option ModelResponse)) (state : Option AuthPinState)
    (response : ModelResponse)
    → settle result state ≡ ok response
    → (s : AuthPinState) × (state ≡ some s) × (s.selected ≡ true) × (result ≡ ok (some response))
unfolding settle
settle-ok result none response h = cc
settle-ok (err e) (some s) response h = ground (arith, h)
settle-ok (ok none) (some s) response h = ground (arith, h)
settle-ok (ok (some r)) (some s) response h = (s, refl, ground (arith, h), ground (arith, h))

finish-lookup :
    (token : String) (s : AuthPinState) (pins : Pins)
    → (finish (some pins) token).0 ≡ some s
    → lookup token pins ≡ some s
unfolding finish
finish-lookup token s pins h = ground (arith, h)

-- A pin that the history leaves selected was picked by it.
finish-PickedDuring :
    (token auth_id : String) (pins : Pins) (events : List Event) (s : AuthPinState)
    → lookup token pins ≡ some (fresh_state auth_id)
    → IsHeld token events
    → (finish (run (some pins) events) token).0 ≡ some s
    → s.selected ≡ true
    → PickedDuring token auth_id (some pins) events
finish-PickedDuring token auth_id pins events s e held f sel =
    let k = run-Keeps token (fresh_state auth_id) pins events e held in
    let p = finish-lookup token s k.after (rw k.is_after at f) in
    elim (k.selected_by (ground (arith, k.registered, p, sel))) [ inl a ↦ cc a | inr b ↦ b ]

module _ (draw : ℕ → Option String) (host : HostRequest → HostReply) (pins : Pins)
    (req : PinnedModelRequest) where
  -- The registry that the host's callback finds, once the pin is registered.
  abbrev pub registered_with : String → Registry
  registered_with token = some (insert token (fresh_state (trim_space req.auth_id)) pins)

  abbrev pub meanwhile : String → List Event
  meanwhile token = (host (host_request req token)).meanwhile

  -- A response is the outcome only if the host's callback answered it and, while the callback ran,
  -- the scheduler answered the requested credential to the request's own token, a new one; the
  -- condition is that nobody else takes back the pin of a new token.
  pub execute_pinned-ok :
      (response : ModelResponse)
      → ((token : String) → lookup token pins ≡ none → IsHeld token (meanwhile token))
      → (execute_pinned draw host (some pins) req).0 ≡ ok response
      → (token : String) × (lookup token pins ≡ none)
        × PickedDuring token (trim_space req.auth_id) (registered_with token) (meanwhile token)
        × ((host (host_request req token)).result ≡ ok (some response))
  unfolding execute_pinned
  execute_pinned-ok response held h = elim (register_cases draw pins req.auth_id) [
    | inr (e, q) ↦ cc (rw q at h)
    | inl (token, _, free, q) ↦
        let (s, f, sel, r) = settle-ok _ _ response (rw q at h) in
        (
          token,
          free,
          finish-PickedDuring token (trim_space req.auth_id) _ (meanwhile token) s
              (simp (lookup-insert, eq_refl)) (held token free) f sel,
          r,
        )
  ]

  -- Where the request registers a token that is not blank, and nobody else takes back its pin, the
  -- registry holds no pin of that token afterwards, whatever else happens and whatever the result.
  pub execute_pinned-released :
      (token : String)
      → token ≢ ""
      → IsHeld token (meanwhile token)
      → register draw (some pins) req.auth_id ≡ (ok token, registered_with token)
      → (after : Pins) × ((execute_pinned draw host (some pins) req).1 ≡ some after)
        × (lookup token after ≡ none)
  unfolding execute_pinned
  execute_pinned-released token named held q =
      let k =
        run-Keeps token (fresh_state (trim_space req.auth_id))
          (insert token (fresh_state (trim_space req.auth_id)) pins) (meanwhile token)
          (simp (lookup-insert, eq_refl)) held in
      let (after, f, gone, _, _) = finish_lem k.after token named in
      (after, rw (q, k.is_after, f), gone)
