-- ===== src/Management.antt =====
-- The management requests: handleManagement, options, decodeStrictJSON and jsonManagementResponse of
-- cmd/cpa-auto-refresh-quota/main.go. JSON is text; what encoding/json makes of it is a parameter. The
-- envelope that okEnvelope puts around a response is left out.
mod Tests
pub mod Refusals
pub mod Runs
use Prim.Native.String.{◌++◌ as ◌<>◌}
use cpa_auto_refresh_quota.Service.Status.{Status, Summaries, status_of}
use cpa_auto_refresh_quota.Service.Manual.{
  OptionsError, normalize_manual_run_options, too_many_indices, blank_index,
}
use cpa_auto_refresh_quota.Service.Runs.{start_manual}
use cpa_auto_refresh_quota.Service.{
  ManualRunOptions, Error, Service, Effect, busy, stopped, not_configured, duplicate, run_id_failed,
  bad_config,
}
use cpa_auto_refresh_quota.Base.{
  ℕ, ◌*◌, String, Bool, false, ◌&&◌, Option, List, [], ◌∷◌, ◌==◌, ltb, if◌then◌else◌, Result, ◌>>=◌,
  ◌>>◌, refuse_if, ok, err,
}
use cpa_auto_refresh_quota.Base.Text.{trim_space, byte_length}

pub record ManagementRequest : Type 0 where
  pub method : String
  pub path : String
  pub body : String

-- manualRunRequest; the raw `auth_indices` is empty where the request leaves it out.
pub record ManualRunRequest : Type 0 where
  pub dry_run : Bool
  pub auth_indices : String

-- What a response shows.
pub data Payload : Type 0 where
  shows_status : Status → Payload
  shows_error : String → Payload
  shows_accepted : String → Payload

-- What a decoder finds behind a value.
pub data NextValue : Type 0 where
  end_of_input another_value : NextValue
  unreadable : String → NextValue

-- A json.Decoder that allows no unknown fields, by its first value with what is behind it and
-- by its next one; Unmarshal into a list of texts; Marshal.
pub record ManagementJson : Type 0 where
  pub decode_first : String → Result String (ManualRunRequest × String)
  pub decode_next : String → NextValue
  pub decode_texts : String → Result String (List String)
  pub encode : Payload → Result String String

pub record ManagementResponse : Type 0 where
  pub status_code : ℕ
  pub content_type : String
  pub body : String

abbrev pub status_route : String
status_route = "/plugins/cpa-auto-refresh-quota/status"

abbrev pub run_route : String
run_route = "/plugins/cpa-auto-refresh-quota/run"

abbrev pub max_management_body_bytes : ℕ
max_management_body_bytes = 64 * 1024

abbrev pub encoded_response : ℕ → Result String String → ManagementResponse
encoded_response status_code (ok body) = record {
  status_code = status_code;
  content_type = "application/json; charset=utf-8";
  body = body;
}
encoded_response status_code (err e) = record {
  status_code = 500;
  content_type = "application/json; charset=utf-8";
  body = "{\"error\":\"encode response\"}";
}

abbrev pub nothing_behind : ManualRunRequest → NextValue → Result String ManualRunRequest
nothing_behind request end_of_input = ok request
nothing_behind request another_value = err "invalid JSON request: multiple values"
nothing_behind request (unreadable e) = err ("invalid JSON request: " <> e)

-- What the list of texts makes of the options.
abbrev pub named_options : Bool → Result String (List String) → Result String ManualRunOptions
named_options dry_run (err e) = err ("auth_indices must be an array of strings: " <> e)
named_options dry_run (ok []) = err "auth_indices must be a non-empty array when provided"
named_options dry_run (ok (index ∷ indices)) =
    ok (record { dry_run = dry_run; auth_indices = index ∷ indices })

abbrev pub options_error_text : OptionsError → String
options_error_text too_many_indices = "auth_indices contains more than 256 entries"
options_error_text blank_index = "auth_indices must not contain empty values"

-- The text of an error of startRun, with that of crypto/rand's.
abbrev pub error_text : String → Error → String
error_text random_error busy = "a refresh run is already active"
error_text random_error stopped = "service is stopped"
error_text random_error not_configured = "model and message must be configured"
error_text random_error duplicate = "occurrence was already handled"
error_text random_error run_id_failed = "create run id: " <> random_error
error_text random_error (bad_config e) = e

unfoldable pub start_status : Error → ℕ
start_status busy = 409
start_status not_configured = 400
start_status stopped = 503
start_status duplicate = 500
start_status run_id_failed = 500
start_status (bad_config e) = 500

abbrev pub bad_request : {A : Type 0} → Result String A → Result (ℕ × String) A
bad_request (ok x) = ok x
bad_request (err e) = err (400, e)

-- The error's text for one of normalizeManualRunOptions.
abbrev pub described : {A : Type 0} → Result OptionsError A → Result String A
described (ok x) = ok x
described (err e) = err (options_error_text e)

module _ (json : ManagementJson) where
  unfoldable pub json_management_response : ℕ → Payload → ManagementResponse
  json_management_response status_code payload = encoded_response status_code (json.encode payload)

  unfoldable pub decode_strict_json : String → Result String ManualRunRequest
  decode_strict_json raw = elim (json.decode_first raw) [
    | err e ↦ err ("invalid JSON request: " <> e)
    | ok (request, behind) ↦ nothing_behind request (json.decode_next behind)
  ]

  unfoldable pub options : ManualRunRequest → Result String ManualRunOptions
  options request =
      let raw_auth_indices = trim_space request.auth_indices in
      if raw_auth_indices == ""
      then ok (record { dry_run = request.dry_run; auth_indices = [] })
      else if raw_auth_indices == "null"
      then err "auth_indices must be a non-empty array when provided"
      else named_options request.dry_run (json.decode_texts raw_auth_indices)

  -- The request of a body, where a blank one is the empty request.
  unfoldable pub read_run_request : String → Result String ManualRunRequest
  read_run_request body =
      if trim_space body == ""
      then ok (record { dry_run = false; auth_indices = "" })
      else decode_strict_json body

  -- What a body asks for, or the status and the text of its refusal.
  unfoldable pub run_options : String → Result (ℕ × String) ManualRunOptions
  run_options body =
      refuse_if (ltb max_management_body_bytes (byte_length body))
        (413, "request body is too large")
      >> (bad_request (read_run_request body) >>= λ request.
          bad_request (options request) >>= λ asked.
          bad_request (described (normalize_manual_run_options asked)))

  module _ (summaries : Summaries) (random_error : String) where
    abbrev pub after_start :
        Result Error String × Service × List Effect → ManagementResponse × Service × List Effect
    after_start (ok run_id, s, effects) =
        (json_management_response 202 (shows_accepted run_id), s, effects)
    after_start (err e, s, effects) = (
      json_management_response (start_status e) (shows_error (error_text random_error e)),
      s,
      effects,
    )

    abbrev pub start_asked :
        Service
        → Result (ℕ × String) ManualRunOptions
        → Option String
        → ℕ
        → ℕ
        → ManagementResponse × Service × List Effect
    start_asked s (err (status_code, e)) run_id ctx now =
        (json_management_response status_code (shows_error e), s, [])
    start_asked s (ok asked) run_id ctx now = after_start (start_manual s asked run_id ctx now)

    -- With the run id and the context that a start draws, and the time that it reads.
    unfoldable pub handle_management :
        Service
        → ManagementRequest
        → Option String
        → ℕ
        → ℕ
        → ManagementResponse × Service × List Effect
    handle_management s request run_id ctx now =
        if request.method == "GET" && request.path == "/v0/management" <> status_route
        then (json_management_response 200 (shows_status (status_of summaries s)), s, [])
        else if request.method == "POST" && request.path == "/v0/management" <> run_route
        then start_asked s (run_options request.body) run_id ctx now
        else (json_management_response 404 (shows_error "route not found"), s, [])
