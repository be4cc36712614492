-- ===== src/Execution.antt =====
-- A run over the credentials: executeRun and waitBetweenAuths of internal/refreshquota/service.go and
-- BuildRequestBody of internal/refreshquota/request.go, without the log entries. The lock on the
-- priorities is held throughout, so nothing else of the plugin works on the files meanwhile.
pub mod Round
pub mod Loop
pub mod Run
pub mod Calls
mod Tests
pub mod Counts
pub mod Files
pub mod Finish
pub mod Report
pub mod RoundWrites
pub mod Writes
pub mod Texts
pub mod Shown
use Prim.Native.String.{◌++◌ as ◌<>◌}
use cpa_auto_refresh_quota.Base.Number.{itoa}
use cpa_auto_refresh_quota.Transaction.{TransactionError}
use cpa_auto_refresh_quota.Errors.{safe_execution_error}
use cpa_auto_refresh_quota.Pins.Execute.{ModelResponse}
use cpa_auto_refresh_quota.Base.{
  ℕ, String, Bool, true, false, not, ◌&&◌, Option, none, some, List, [], ◌∷◌, if◌then◌else◌, length,
  Result, ok, err,
}
use cpa_auto_refresh_quota.Base.Int.{ℤ, ltb_ℤ, pos}
use cpa_auto_refresh_quota.Auths.{Auth}
use cpa_auto_refresh_quota.Config.{Config}
use cpa_auto_refresh_quota.Service.{AuthResult}

pub record ChatMessage : Type 0 where
  pub role : String
  pub content : String

pub record ChatCompletionRequest : Type 0 where
  pub model : String
  pub stream : Bool
  pub messages : List ChatMessage
  pub max_tokens : ℤ

abbrev pub marshalled : Result String (List ℕ) → Result String (List ℕ)
marshalled (err e) = err ("marshal OpenAI-compatible request body: " <> e)
marshalled (ok raw) = ok raw

-- json.Marshal is a parameter.
unfoldable pub build_request_body :
    (ChatCompletionRequest → Result String (List ℕ)) → Config → Result String (List ℕ)
build_request_body marshal cfg = marshalled (
    marshal (record {
      model = cfg.model;
      stream = false;
      messages = record { role = "user"; content = cfg.message } ∷ [];
      max_tokens = cfg.max_tokens;
    }))

pub data Verdict : Type 0 where
  succeeded failed skipped : Verdict

abbrev pub outcome_of : Verdict → String
outcome_of succeeded = "succeeded"
outcome_of failed = "failed"
outcome_of skipped = "skipped"

-- What one round of the loop makes of a credential: its verdict and result, what it writes to the
-- report's error (nothing is ""), whether it ends the run, and whether it came to the request.
pub record Attempt : Type 0 where
  pub verdict : Verdict
  pub result : AuthResult
  pub run_error : String
  pub stops : Bool
  pub executed : Bool

abbrev pub verdict_on : Verdict → String → AuthResult → Attempt
verdict_on verdict error result = record {
  verdict = verdict;
  result = record result { outcome = outcome_of verdict; error = error };
  run_error = "";
  stops = false;
  executed = false;
}

abbrev pub restore_failed : String
restore_failed = "auth priority restore failed; remaining credentials were not attempted"

-- A restoration that failed: the run is over.
abbrev pub unrestored : AuthResult → Attempt
unrestored result = record (verdict_on failed "auth priority restore failed" result) {
  run_error = restore_failed;
  stops = true;
}

abbrev pub result_of : Auth → AuthResult
result_of auth = record {
  auth_index = auth.auth_index;
  provider = auth.provider;
  priority = auth.priority;
  priority_override_required = false;
  priority_override_to = pos 0;
  outcome = "";
  status_code = pos 0;
  response_bytes = 0;
  duration_ms = pos 0;
  error = "";
}

-- The result with the priority that the credential is to get.
unfoldable pub aligned_result : Config → ℤ → Auth → AuthResult
aligned_result cfg desired auth =
    let required = cfg.temporary_priority && ltb_ℤ auth.priority desired in
    record (result_of auth) {
      priority_override_required = required;
      priority_override_to = (if required then desired else pos 0);
    }

-- `response.StatusCode >= http.StatusOK && response.StatusCode < http.StatusMultipleChoices`
unfoldable pub is_success : ℤ → Bool
is_success status = not (ltb_ℤ status (pos 200)) && ltb_ℤ status (pos 300)

-- fmt.Sprintf("model callback returned HTTP %d", …)
unfoldable pub http_error : ℤ → String
http_error status = "model callback returned HTTP " <> itoa status

-- What follows the restoration, on its error and the reply.
unfoldable pub settle_attempt :
    AuthResult → Option TransactionError → Result String ModelResponse → Attempt
unfolding is_success http_error
settle_attempt result (some e) reply = unrestored result
settle_attempt result none (err e) = verdict_on failed (safe_execution_error e) result
settle_attempt result none (ok response) =
    let result' = record result {
      status_code = response.status_code;
      response_bytes = length response.body;
    } in
    if is_success response.status_code
    then verdict_on succeeded result.error result'
    else verdict_on failed (http_error response.status_code) result'
