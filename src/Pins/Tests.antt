-- ===== src/Pins/Tests.antt =====
-- Pins on a concrete registry and a concrete host.
use mathlib.Core.Bool.{true≢false}
use cpa_auto_refresh_quota.Pins.Safety.{
  registered_with, meanwhile, execute_pinned-ok, execute_pinned-released,
}
use cpa_auto_refresh_quota.Pins.Registration.{register_cases, finish_lem}
use cpa_auto_refresh_quota.Pins.Pick.{picked, Selects, pick_pinned_auth_iff, Keeps}
use cpa_auto_refresh_quota.Pins.Matching.{seen_of, lookup-match_header, match_header-matched_iff}
use cpa_auto_refresh_quota.Pins.History.{PickedDuring, run-Keeps}
use cpa_auto_refresh_quota.Pins.Execute.{
  run, PinnedModelRequest, ModelResponse, HostRequest, HostReply, host_request, execute_pinned,
  picks, registers, finishes,
}
use cpa_auto_refresh_quota.Pins.{
  PinError, AuthPinState, Pins, fresh_state, register, finish, is_pin_header, pin_header_values,
  matched, match_header, PickRequest, pick_pinned_auth,
}
use cpa_auto_refresh_quota.Base.{
  ℕ, String, ◌≡◌, refl, sym, ◌≢◌, ◌↔◌, ◌⊎◌, true, Option, none, some, [], ◌∷◌, eq_iff,
  if◌then◌else◌, ok, err,
}
use cpa_auto_refresh_quota.Base.Int.{pos}
use cpa_auto_refresh_quota.Base.Text.{trim_space, equal_fold}
use cpa_auto_refresh_quota.Base.Dict.{lookup, insert, contains}

abbrev one_pin : Pins
one_pin = ("old", fresh_state "auth-1") ∷ []

abbrev draws : ℕ → Option String
draws n = some "new"

abbrev pick_of : String → String → PickRequest
pick_of token auth_id = record {
  headers = ("x-cpa-auto-refresh-token", token ∷ []) ∷ [];
  candidates = auth_id ∷ [];
}

abbrev request : PinnedModelRequest
request = record {
  auth_id = " auth-2 ";
  entry_protocol = "openai";
  exit_protocol = "openai";
  model = "m";
  body = [];
  headers = [];
  query = [];
  alt = "";
}

abbrev response : ModelResponse
response = record { status_code = pos 200; body = [] }

-- The host asks the scheduler for the credential, and replies.
abbrev replies : HostRequest → HostReply
replies req = record {
  result = ok (some response);
  meanwhile = picks (pick_of "new" "auth-2") ∷ [];
}

executed : (execute_pinned draws replies (some one_pin) request).0 ≡ ok response
unfolding execute_pinned register trim_space lookup finish run pick_pinned_auth pin_header_values
    is_pin_header equal_fold insert
executed = refl

execute_pinned-ok_example :
    (token : String) × (lookup token one_pin ≡ none)
    × PickedDuring token
        (trim_space " auth-2 ")
        (registered_with draws replies one_pin request token)
        (meanwhile draws replies one_pin request token)
    × ((replies (host_request request token)).result ≡ ok (some response))
execute_pinned-ok_example =
    execute_pinned-ok draws replies one_pin request response (λ token free. tt) executed

registered :
    register draws (some one_pin) " auth-2 "
    ≡ (ok "new", registered_with draws replies one_pin request "new")
unfolding register insert trim_space lookup
registered = refl

execute_pinned-released_example :
    (after : Pins) × ((execute_pinned draws replies (some one_pin) request).1 ≡ some after)
    × (lookup "new" after ≡ none)
execute_pinned-released_example =
    execute_pinned-released draws replies one_pin request "new" (λ e. cc) tt registered

pick_pinned_auth_iff_example :
    ((pick_pinned_auth (some one_pin) (pick_of "old" "auth-1")).0 ≡ ok (picked "auth-1")) ↔ (
      (token : String) × (s : AuthPinState) × Selects one_pin (pick_of "old" "auth-1") token s
      × (s.auth_id ≡ "auth-1"))
pick_pinned_auth_iff_example = pick_pinned_auth_iff one_pin (pick_of "old" "auth-1") "auth-1"

run-Keeps_example :
    Keeps "old"
      (fresh_state "auth-1")
      (PickedDuring "old" "auth-1"
        (some one_pin)
        (registers draws "auth-2" ∷ picks (pick_of "old" "auth-1") ∷ finishes "new" ∷ []))
      (run
        (some one_pin)
        (registers draws "auth-2" ∷ picks (pick_of "old" "auth-1") ∷ finishes "new" ∷ []))
run-Keeps_example =
    run-Keeps "old" (fresh_state "auth-1") one_pin
      (registers draws "auth-2" ∷ picks (pick_of "old" "auth-1") ∷ finishes "new" ∷ []) present
      ((λ e. true≢false (sym ((eq_iff "old" "new").1 e))), tt)
  where
    present : lookup "old" one_pin ≡ some (fresh_state "auth-1")
    present = unfold lookup in refl

match_header-matched_iff_example :
    ((match_header (some one_pin) (pick_of "old" "auth-1").headers).0
      ≡ matched "old" (record (fresh_state "auth-1") { scheduler_seen = true }))
    ↔ (((pin_header_values (pick_of "old" "auth-1").headers).0 ≡ "old" ∷ [])
        × (some (record (fresh_state "auth-1") { scheduler_seen = true })
            ≡ seen_of (lookup "old" one_pin)))
match_header-matched_iff_example =
    match_header-matched_iff one_pin (pick_of "old" "auth-1").headers "old"
      (record (fresh_state "auth-1") { scheduler_seen = true })

lookup-match_header_example :
    (after : Pins) × ((match_header (some one_pin) (pick_of "old" "auth-1").headers).1 ≡ some after)
    × (lookup "old" after ≡ (
        if contains "old" (pin_header_values (pick_of "old" "auth-1").headers).0
        then seen_of (lookup "old" one_pin)
        else lookup "old" one_pin))
lookup-match_header_example = lookup-match_header "old" one_pin (pick_of "old" "auth-1").headers

register_cases_example :
    ((token : String) × (trim_space " auth-2" ≢ "")
      × (lookup token one_pin ≡ none)
      × (register draws (some one_pin) " auth-2"
          ≡ (ok token, some (insert token (fresh_state (trim_space " auth-2")) one_pin))))
    ⊎ ((e : PinError) × (register draws (some one_pin) " auth-2" ≡ (err e, some one_pin)))
register_cases_example = register_cases draws one_pin " auth-2"

finish_lem_example :
    (after : Pins) × (finish (some one_pin) "old" ≡ (lookup "old" one_pin, some after))
    × (lookup "old" after ≡ none)
    × ((finish (some after) "old").0 ≡ none)
    × ((k : String) → k ≢ "old" → lookup k after ≡ lookup k one_pin)
finish_lem_example = finish_lem one_pin "old" (λ e. cc)
