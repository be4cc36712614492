-- ===== src/Plugin/Tests.antt =====
-- A shutdown, a call and a registration of a concrete plugin.
use cpa_auto_refresh_quota.Plugin.Lifecycle.{Call, handle_all, Restarted, shutdown-restarts}
use cpa_auto_refresh_quota.Plugin.{
  Plugin, Requests, Draws, shutdown_service, handle_method, plugin_register, management_handle,
}
use cpa_auto_refresh_quota.Management.{ManagementJson, end_of_input}
use cpa_auto_refresh_quota.Service.Status.{Summaries}
use cpa_auto_refresh_quota.Service.{new_service, empty_config}
use cpa_auto_refresh_quota.Base.{◌≡◌, refl, true, some, List, [], ◌∷◌, ok}
use cpa_auto_refresh_quota.Config.{Config}

abbrev cfg : Config
cfg = record (empty_config true) { model = "m"; message = "hi" }

abbrev plugin : Plugin
plugin = record { service = record new_service { config = cfg }; pins = some [] }

abbrev requests : Requests
requests = record {
  lifecycle = λ text. ok text;
  management = λ text. ok (record {
    method = "POST";
    path = "/v0/management/plugins/cpa-auto-refresh-quota/run";
    body = text;
  });
  scheduler = λ text. ok (record { headers = []; candidates = [] });
  config = λ yaml. ok cfg;
}

abbrev json : ManagementJson
json = record {
  decode_first = λ raw. ok (record { dry_run = true; auth_indices = "" }, "");
  decode_next = λ behind. end_of_input;
  decode_texts = λ raw. ok [];
  encode = λ payload. ok "{}";
}

abbrev summaries : Summaries
summaries = record { sha256 = λ text. text; duration_text = λ n. "1s" }

abbrev draws : Draws
draws = record { run_id = some "run-1"; run_ctx = 1; schedule_ctx = 2; recovery_ctx = 3; now = 0 }

abbrev calls : List Call
calls = record { method = management_handle; request = "{}"; draws = draws } ∷ []

shutdown-restarts_example :
    let (down, effects) =
      handle_all requests json summaries "no entropy" (shutdown_service plugin).0 calls in
    (down.service.is_stopped ≡ true)
    × (effects ≡ [])
    × Restarted requests json summaries "no entropy" down cfg
        (handle_method requests json summaries "no entropy" down plugin_register "{}" draws)
shutdown-restarts_example =
    shutdown-restarts requests json summaries "no entropy" plugin calls "{}" "{}" cfg draws
      (((λ e. cc), (λ e. cc)), tt) refl refl
