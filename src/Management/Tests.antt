-- ===== src/Management/Tests.antt =====
-- A management request on a concrete service.
use cpa_auto_refresh_quota.Management.Runs.{Handled, handle_management-Handled}
use cpa_auto_refresh_quota.Management.{
  ManagementRequest, Payload, shows_status, shows_error, shows_accepted, ManagementJson,
  handle_management, end_of_input,
}
use cpa_auto_refresh_quota.Service.Status.{Summaries}
use cpa_auto_refresh_quota.Service.{Service, empty_config, new_service}
use cpa_auto_refresh_quota.Base.{String, true, some, [], ◌∷◌, Result, ok}

abbrev encoded : Payload → Result String String
encoded (shows_status status) = ok "{}"
encoded (shows_error e) = ok e
encoded (shows_accepted run_id) = ok run_id

abbrev json : ManagementJson
json = record {
  decode_first = λ raw. ok (record { dry_run = true; auth_indices = "[\"a\"]" }, "");
  decode_next = λ behind. end_of_input;
  decode_texts = λ raw. ok (" a " ∷ "b" ∷ "a" ∷ []);
  encode = encoded;
}

abbrev summaries : Summaries
summaries = record { sha256 = λ text. text; duration_text = λ n. "1s" }

abbrev service : Service
service = record new_service { config = record (empty_config true) { model = "m"; message = "hi" } }

abbrev request : ManagementRequest
request = record {
  method = "POST";
  path = "/v0/management/plugins/cpa-auto-refresh-quota/run";
  body = "{}";
}

handle_management-Handled_example :
    Handled json summaries "no entropy" service request
      (some "run-1")
      7
      0
      (handle_management json summaries "no entropy" service request (some "run-1") 7 0)
handle_management-Handled_example =
    handle_management-Handled json summaries "no entropy" service request (some "run-1") 7 0
