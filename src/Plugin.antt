-- ===== src/Plugin.antt =====
-- What the plugin does on a call of its host: handleMethod, applyConfiguration and shutdownService of
-- cmd/cpa-auto-refresh-quota/main.go. JSON and the names of the methods are parameters; the
-- answer of a registration is a constant and left out, as is the envelope around an answer.
mod Tests
pub mod Lifecycle
use cpa_auto_refresh_quota.Pins.{pick_pinned_auth}
use cpa_auto_refresh_quota.Pins.{
  PinError, Registry, PickRequest, PickResponse, pick_pinned_auth, auth_id_required,
  registry_unavailable, random_failed, no_unique_token, pin_not_selected, pinned_auth_unavailable,
  invalid_pin_header,
}
use cpa_auto_refresh_quota.Management.{
  ManagementRequest, ManagementJson, ManagementResponse, handle_management,
}
use cpa_auto_refresh_quota.Service.Status.{Summaries}
use cpa_auto_refresh_quota.Service.Configure.{apply_config, shutdown}
use cpa_auto_refresh_quota.Service.{Error, Service, Effect, new_service}
use cpa_auto_refresh_quota.Base.{ℕ, String, ◌==◌, Option, List, [], if◌then◌else◌, Result, ok, err}
use cpa_auto_refresh_quota.Config.{Config}

-- The variables runtimeService, which is never nil, and hostBridge.pins.
pub record Plugin : Type 0 where
  pub service : Service
  pub pins : Registry

-- The methods of pluginabi.
pub data Method : Type 0 where
  plugin_register plugin_reconfigure plugin_shutdown : Method
  management_register management_handle scheduler_pick : Method
  other_method : String → Method

-- What encoding/json makes of a request, and ParseConfig of a document.
pub record Requests : Type 0 where
  pub lifecycle : String → Result String String
  pub management : String → Result String ManagementRequest
  pub scheduler : String → Result String PickRequest
  pub config : String → Result String Config

-- What a method draws and reads: a run id, new contexts, the time.
pub record Draws : Type 0 where
  pub run_id : Option String
  pub run_ctx : ℕ
  pub schedule_ctx : ℕ
  pub recovery_ctx : ℕ
  pub now : ℕ

-- An answer in an envelope that is OK, one in an envelope that is not, with its code or for the name of
-- a method, or an error.
pub data Answer : Type 0 where
  shows_registration shows_routes shows_nothing : Answer
  shows_response : ManagementResponse → Answer
  shows_pick : PickResponse → Answer
  refuses_pick : String → PinError → Answer
  unknown_method : String → Answer
  bad_lifecycle bad_management bad_scheduler : String → Answer
  not_applied : Error → Answer

abbrev pub pick_error_code : PinError → String
pick_error_code pinned_auth_unavailable = "target_auth_unavailable"
pick_error_code invalid_pin_header = "invalid_routing_token"
pick_error_code auth_id_required = "scheduler_pin_failed"
pick_error_code registry_unavailable = "scheduler_pin_failed"
pick_error_code random_failed = "scheduler_pin_failed"
pick_error_code no_unique_token = "scheduler_pin_failed"
pick_error_code pin_not_selected = "scheduler_pin_failed"

-- `runtimeService == nil || runtimeService.Status().Stopped`
unfoldable pub serving : Service → Service
serving s = if s.is_stopped then new_service else s

unfoldable pub apply_configuration :
    Plugin → Result String Config → Draws → Result Error (Unit {0}) × Plugin × List Effect
unfolding serving
apply_configuration plugin parsed draws =
    let (r, s, effects) =
      apply_config (serving plugin.service) parsed draws.schedule_ctx draws.recovery_ctx in
    (r, record plugin { service = s }, effects)

unfoldable pub shutdown_service : Plugin → Plugin × List Effect
shutdown_service plugin =
    let (s, effects) = shutdown plugin.service in (record plugin { service = s }, effects)

abbrev pub after_apply :
    Result Error (Unit {0}) × Plugin × List Effect → Answer × Plugin × List Effect
after_apply (ok u, plugin, effects) = (shows_registration, plugin, effects)
after_apply (err e, plugin, effects) = (not_applied e, plugin, effects)

abbrev pub after_pick :
    Plugin → Result PinError PickResponse × Registry → Answer × Plugin × List Effect
after_pick plugin (ok response, pins) = (shows_pick response, record plugin { pins = pins }, [])
after_pick plugin (err e, pins) =
    (refuses_pick (pick_error_code e) e, record plugin { pins = pins }, [])

module _ (requests : Requests) (json : ManagementJson) (summaries : Summaries)
    (random_error : String) where
  -- An empty request has no document.
  abbrev pub read_lifecycle : String → Result String String
  read_lifecycle request = if request == "" then ok "" else requests.lifecycle request

  abbrev pub handle_lifecycle :
      Plugin → Result String String → Draws → Answer × Plugin × List Effect
  handle_lifecycle plugin (err e) draws = (bad_lifecycle e, plugin, [])
  handle_lifecycle plugin (ok yaml) draws =
      after_apply (apply_configuration plugin (requests.config yaml) draws)

  abbrev pub handle_decoded :
      Plugin → Result String ManagementRequest → Draws → Answer × Plugin × List Effect
  handle_decoded plugin (err e) draws = (bad_management e, plugin, [])
  handle_decoded plugin (ok request) draws =
      let (response, s, effects) =
        handle_management json summaries random_error plugin.service request draws.run_id
          draws.run_ctx draws.now in
      (shows_response response, record plugin { service = s }, effects)

  abbrev pub handle_pick : Plugin → Result String PickRequest → Answer × Plugin × List Effect
  handle_pick plugin (err e) = (bad_scheduler e, plugin, [])
  handle_pick plugin (ok request) = after_pick plugin (pick_pinned_auth plugin.pins request)

  unfoldable pub handle_method : Plugin → Method → String → Draws → Answer × Plugin × List Effect
  unfolding apply_configuration shutdown_service
  handle_method plugin plugin_register request draws =
      handle_lifecycle plugin (read_lifecycle request) draws
  handle_method plugin plugin_reconfigure request draws =
      handle_lifecycle plugin (read_lifecycle request) draws
  handle_method plugin plugin_shutdown request draws =
      let (plugin', effects) = shutdown_service plugin in (shows_nothing, plugin', effects)
  handle_method plugin management_register request draws = (shows_routes, plugin, [])
  handle_method plugin management_handle request draws =
      handle_decoded plugin (requests.management request) draws
  handle_method plugin scheduler_pick request draws =
      handle_pick plugin (requests.scheduler request)
  handle_method plugin (other_method name) request draws = (unknown_method name, plugin, [])
