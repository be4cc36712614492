-- ===== src/Pins.antt =====
-- The registry that pins a model request to one credential: cmd/cpa-auto-refresh-quota/pin.go.
-- A *authPinRegistry is an option, `none` for nil; its lock makes each operation one step. Tokens
-- come from crypto/rand: the draws are an argument, `none` where the read fails.
use cpa_auto_refresh_quota.Base.{
  ℕ, zero, suc, String, Bool, true, false, not, ◌||◌, Option, none, some, List, [], ◌∷◌, ◌++◌, ◌==◌,
  ◌=ℕ◌, if◌then◌else◌, is_some, option_or, length, is_empty, Result, ok, err,
}
mod Tests
pub mod Matching
pub mod Pick
pub mod Safety
pub mod Registration
pub mod Execute
pub mod History
use cpa_auto_refresh_quota.Base.Dict.{Dict, lookup, insert, remove}
use cpa_auto_refresh_quota.Base.Text.{trim_space, equal_fold}

abbrev pub pin_header_name : String
pin_header_name = "X-CPA-Auto-Refresh-Token"

pub data PinError : Type 0 where
  auth_id_required registry_unavailable random_failed no_unique_token : PinError
  pin_not_selected pinned_auth_unavailable invalid_pin_header : PinError

pub record AuthPinState : Type 0 where
  pub auth_id : String
  pub scheduler_seen : Bool
  pub selected : Bool

abbrev pub Pins : Type 0
Pins = Dict AuthPinState

abbrev pub Registry : Type 0
Registry = Option Pins

unfoldable pub new_auth_pin_registry : Registry
new_auth_pin_registry = some []

abbrev pub zero_state : AuthPinState
zero_state = record { auth_id = ""; scheduler_seen = false; selected = false }

abbrev pub fresh_state : String → AuthPinState
fresh_state auth_id = record { auth_id = auth_id; scheduler_seen = false; selected = false }

-- `for attempt := 0; attempt < 4; attempt++` of register, by the attempts left.
register_attempts : ℕ → (ℕ → Option String) → Pins → String → Result PinError String × Pins
register_attempts zero draw pins auth_id = (err no_unique_token, pins)
register_attempts (suc left) draw pins auth_id =
    let again = register_attempts left draw pins auth_id in
    elim (draw left) [
      | none ↦ (err random_failed, pins)
      | some token ↦
          if is_some (lookup token pins)
          then again
          else (ok token, insert token (fresh_state auth_id) pins)
    ]

-- The draws are numbered by the attempts that are left after them: 3 for the first.
unfoldable pub register :
    (ℕ → Option String) → Registry → String → Result PinError String × Registry
unfolding register_attempts
register draw registry auth_id =
    let auth_id' = trim_space auth_id in
    if auth_id' == "" then (err auth_id_required, registry) else elim registry [
      | none ↦ (err registry_unavailable, none)
      | some pins ↦ let (r, pins') = register_attempts 4 draw pins auth_id' in (r, some pins')
    ]

unfoldable pub finish : Registry → String → Option AuthPinState × Registry
finish none token = (none, none)
finish (some pins) token =
    if token == "" then (none, some pins) else (lookup token pins, some (remove token pins))

abbrev pub Headers : Type 0
Headers = List (String × List String)

non_blank : List String → List String
non_blank [] = []
non_blank (item ∷ items) =
    let rest = non_blank items in
    let item' = trim_space item in if item' == "" then rest else item' ∷ rest

unfoldable pub is_pin_header : String → Bool
is_pin_header key = equal_fold (trim_space key) pin_header_name

-- The trimmed values under the header's name, in any case, and whether the name is there.
unfoldable pub pin_header_values : Headers → List String × Bool
unfolding non_blank
pin_header_values [] = ([], false)
pin_header_values ((key, items) ∷ headers) =
    let (values, present) = pin_header_values headers in
    if is_pin_header key then (non_blank items ++ values, true) else (values, present)

-- The three results of matchHeader: not handled; handled with errInvalidPinHeader; a match.
pub data Match : Type 0 where
  not_handled invalid : Match
  matched : String → AuthPinState → Match

known_tokens : Pins → List String → List String
known_tokens pins [] = []
known_tokens pins (value ∷ values) =
    let rest = known_tokens pins values in
    if is_some (lookup value pins) then value ∷ rest else rest

see : AuthPinState → AuthPinState
see state = record state { scheduler_seen = true }

mark_seen : Pins → List String → Pins
unfolding see
mark_seen pins [] = pins
mark_seen pins (token ∷ known) =
    mark_seen (insert token (see (option_or (lookup token pins) zero_state)) pins) known

-- What matchHeader does under its lock, with the header's values.
match_values : Pins → List String → Match × Pins
unfolding known_tokens mark_seen
match_values pins values = elim (known_tokens pins values) [
  | [] ↦ (invalid, pins)
  | token ∷ more ↦
      let pins' = mark_seen pins (token ∷ more) in
      if not (length values =ℕ 1) || not (length (token ∷ more) =ℕ 1)
      then (invalid, pins')
      else (matched token (option_or (lookup token pins') zero_state), pins')
]

unfoldable pub match_header : Registry → Headers → Match × Registry
unfolding match_values
match_header none headers = (not_handled, none)
match_header (some pins) headers =
    let (values, present) = pin_header_values headers in
    if not present
    then (not_handled, some pins)
    else if is_empty values
    then (invalid, some pins)
    else (let (m, pins') = match_values pins values in (m, some pins'))

select_state : AuthPinState → AuthPinState
select_state state = record state { scheduler_seen = true; selected = true }

unfoldable pub mark_selected : Registry → String → Registry
unfolding select_state
mark_selected none token = none
mark_selected (some pins) token = if token == "" then some pins else elim (lookup token pins) [
  | none ↦ some pins
  | some state ↦ some (insert token (select_state state) pins)
]

-- The parts of pluginapi.SchedulerPickRequest that are read: the headers and the candidates' ids.
pub record PickRequest : Type 0 where
  pub headers : Headers
  pub candidates : List String

pub record PickResponse : Type 0 where
  pub auth_id : String
  pub handled : Bool

-- A candidate's trimmed id is the pinned one.
unfoldable pub has_candidate : String → List String → Bool
has_candidate auth_id [] = false
has_candidate auth_id (candidate ∷ candidates) =
    trim_space candidate == auth_id || has_candidate auth_id candidates

unfoldable pub pick_pinned_auth : Registry → PickRequest → Result PinError PickResponse × Registry
unfolding match_header mark_selected has_candidate
pick_pinned_auth registry request =
    let (m, registry') = match_header registry request.headers in
    elim m [
      | not_handled ↦ (ok (record { auth_id = ""; handled = false }), registry')
      | invalid ↦ (err invalid_pin_header, registry')
      | matched token state ↦
          if has_candidate state.auth_id request.candidates
          then (
            ok (record { auth_id = state.auth_id; handled = true }),
            mark_selected registry' token,
          )
          else (err pinned_auth_unavailable, registry')
    ]
