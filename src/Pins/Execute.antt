-- ===== src/Pins/Execute.antt =====
-- ExecutePinned of cmd/cpa-auto-refresh-quota/main.go. The host's reply to host.model.execute and
-- the operations on the registry that happen before it replies, by the scheduler and by other
-- requests, are a function of the request.
use cpa_auto_refresh_quota.Base.Int.{ℤ}
use cpa_auto_refresh_quota.Base.{
  ℕ, String, Bool, false, not, Option, none, some, List, [], ◌∷◌, if◌then◌else◌, Result, ok, err,
}
use cpa_auto_refresh_quota.Pins.{
  PinError, AuthPinState, Registry, register, finish, Headers, PickRequest, pick_pinned_auth,
  registry_unavailable, pin_not_selected,
}
use cpa_auto_refresh_quota.Base.Dict.{insert, remove}

pub data Event : Type 0 where
  picks : PickRequest → Event
  registers : (ℕ → Option String) → String → Event
  finishes : String → Event

unfoldable pub step : Registry → Event → Registry
step registry (picks request) = (pick_pinned_auth registry request).1
step registry (registers draw auth_id) = (register draw registry auth_id).1
step registry (finishes token) = (finish registry token).1

unfoldable pub run : Registry → List Event → Registry
unfolding step
run registry [] = registry
run registry (e ∷ events) = run (step registry e) events

-- refreshquota.PinnedModelRequest; an absent map of the query is the empty one.
pub record PinnedModelRequest : Type 0 where
  pub auth_id : String
  pub entry_protocol : String
  pub exit_protocol : String
  pub model : String
  pub body : List ℕ
  pub headers : Headers
  pub query : Headers
  pub alt : String

pub record ModelResponse : Type 0 where
  pub status_code : ℤ
  pub body : List ℕ

pub data ExecuteError : Type 0 where
  pin : PinError → ExecuteError
  call_failed : String → ExecuteError
  decode_failed : ExecuteError

-- The request as the host gets it.
pub record HostRequest : Type 0 where
  pub entry_protocol : String
  pub exit_protocol : String
  pub model : String
  pub stream : Bool
  pub body : List ℕ
  pub headers : Headers
  pub query : Headers
  pub alt : String

-- The reply: the callback's error, or its result, `none` where that is no response object.
pub record HostReply : Type 0 where
  pub result : Result String (Option ModelResponse)
  pub meanwhile : List Event

-- http.Header stores a name in its canonical form.
abbrev pub canonical_pin_header : String
canonical_pin_header = "X-Cpa-Auto-Refresh-Token"

unfoldable pub host_request : PinnedModelRequest → String → HostRequest
host_request req token = record {
  entry_protocol = req.entry_protocol;
  exit_protocol = req.exit_protocol;
  model = req.model;
  stream = false;
  body = req.body;
  headers = insert canonical_pin_header (token ∷ []) (remove canonical_pin_header req.headers);
  query = req.query;
  alt = req.alt;
}

-- What follows the callback: the pin is taken back, and its marks decide.
unfoldable pub settle :
    Result String (Option ModelResponse) → Option AuthPinState → Result ExecuteError ModelResponse
settle result none = err (pin pin_not_selected)
settle result (some state) =
    if not state.selected
    then elim result [
      | ok _ ↦ err (pin pin_not_selected)
      | err e ↦ if state.scheduler_seen then err (call_failed e) else err (pin pin_not_selected)
    ]
    else elim result [
      | err e ↦ err (call_failed e)
      | ok none ↦ err decode_failed
      | ok (some response) ↦ ok response
    ]

module _ (draw : ℕ → Option String) (host : HostRequest → HostReply) where
  unfoldable pub execute_registered :
      Registry → PinnedModelRequest → String → Result ExecuteError ModelResponse × Registry
  unfolding settle
  execute_registered registry req token =
      let reply = host (host_request req token) in
      let (state, registry') = finish (run registry reply.meanwhile) token in
      (settle reply.result state, registry')

  unfoldable pub after_register :
      Result PinError String × Registry
      → PinnedModelRequest
      → Result ExecuteError ModelResponse × Registry
  unfolding execute_registered
  after_register (err e, registry) req = (err (pin e), registry)
  after_register (ok token, registry) req = execute_registered registry req token

  unfoldable pub execute_pinned :
      Registry → PinnedModelRequest → Result ExecuteError ModelResponse × Registry
  unfolding after_register
  execute_pinned none req = (err (pin registry_unavailable), none)
  execute_pinned (some pins) req = after_register (register draw (some pins) req.auth_id) req
