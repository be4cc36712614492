-- ===== src/Plugin/Lifecycle.antt =====
-- A plugin that is shut down, and registered again.
use mathlib.Core.Path.{subst}
use cpa_auto_refresh_quota.Management.Runs.{Handled, left_alone, begun, handle_management-Handled}
use cpa_auto_refresh_quota.Management.{ManagementRequest, ManagementJson}
use cpa_auto_refresh_quota.Plugin.{
  Plugin, Method, Requests, Draws, Answer, serving, apply_configuration, shutdown_service,
  after_apply, after_pick, read_lifecycle, handle_lifecycle, handle_decoded, handle_pick,
  handle_method, plugin_register, plugin_reconfigure, plugin_shutdown, management_register,
  management_handle, scheduler_pick, other_method, shows_registration,
}
use cpa_auto_refresh_quota.Pins.{PinError, Registry, PickRequest, PickResponse}
use cpa_auto_refresh_quota.Service.Status.{Summaries}
use cpa_auto_refresh_quota.Service.Configure.{
  apply_config, start_scheduler, start_priority_recovery, shutdown,
}
use cpa_auto_refresh_quota.Service.Lifecycle.{start_run-refused}
use cpa_auto_refresh_quota.Service.Runs.{start_manual, is_refused}
use cpa_auto_refresh_quota.Service.{ManualRunOptions, Error, Service, Effect, new_service}
use cpa_auto_refresh_quota.Base.{
  ℕ, String, ◌≡◌, refl, sym, ap, ◌∙◌, ◌≢◌, inl, inr, true, false, Option, List, [], ◌∷◌, ◌++◌,
  arith, Bool-cases, Result, ok, err,
}
use cpa_auto_refresh_quota.Config.{Config}

-- A call of the host.
pub record Call : Type 0 where
  pub method : Method
  pub request : String
  pub draws : Draws

-- No registration, no new configuration.
abbrev pub IsQuiet : Method → Type 0
IsQuiet method = (method ≢ plugin_register) × (method ≢ plugin_reconfigure)

abbrev pub AllQuiet : List Call → Type 0
AllQuiet [] = Unit {0}
AllQuiet (call ∷ calls) = IsQuiet call.method × AllQuiet calls

-- What a new service has of a configuration.
record Serves (cfg : Config) (r : Result Error (Unit {0}) × Service × List Effect) : Type 0 where
  pub accepted : r.0 ≡ ok tt
  pub config : r.1.config ≡ cfg
  pub going : r.1.is_stopped ≡ false
  pub idle : r.1.running ≡ false
  pub first : r.1.config_generation ≡ 1

apply_config-Serves :
    (cfg : Config) (schedule_ctx recovery_ctx : ℕ)
    → Serves cfg (apply_config new_service (ok cfg) schedule_ctx recovery_ctx)
unfolding apply_config start_scheduler start_priority_recovery
apply_config-Serves cfg schedule_ctx recovery_ctx = elim (Bool-cases cfg.host_enabled) [
  | inl h ↦ elim (Bool-cases cfg.schedule_enabled) [
    | inl k ↦ record {
      accepted = ground (arith, h, k);
      config = ground (arith, h, k);
      going = ground (arith, h, k);
      idle = ground (arith, h, k);
      first = ground (arith, h, k);
    }
    | inr k ↦ record {
      accepted = ground (arith, h, k);
      config = ground (arith, h, k);
      going = ground (arith, h, k);
      idle = ground (arith, h, k);
      first = ground (arith, h, k);
    }
  ]
  | inr h ↦ record {
    accepted = ground (arith, h);
    config = ground (arith, h);
    going = ground (arith, h);
    idle = ground (arith, h);
    first = ground (arith, h);
  }
]

refused : (e : Error) (r : Result Error (Unit {0})) → r ≡ err e → r ≢ ok tt
refused e r h k = cc

module _ (requests : Requests) (json : ManagementJson) (summaries : Summaries)
    (random_error : String) where
  unfoldable pub handle_all : Plugin → List Call → Plugin × List Effect
  handle_all plugin [] = (plugin, [])
  handle_all plugin (call ∷ calls) =
      let (answer, plugin', effects) =
        handle_method requests json summaries random_error plugin call.method call.request
          call.draws in
      let (after, more) = handle_all plugin' calls in (after, effects ++ more)

  -- The service stays stopped and nothing is done.
  abbrev StaysDown : Answer × Plugin × List Effect → Type 0
  StaysDown r = (r.1.service.is_stopped ≡ true) × (r.2 ≡ [])

  start_manual-stopped :
      (s : Service) (asked : ManualRunOptions) (run_id : Option String) (ctx now : ℕ) (id : String)
      → s.is_stopped ≡ true
      → (start_manual s asked run_id ctx now).0 ≢ ok id
  unfolding start_manual
  start_manual-stopped s asked run_id ctx now id h =
      start_run-refused s _ id (unfold is_refused in ground (arith, h))

  handle_decoded-StaysDown :
      (plugin : Plugin) (request : Result String ManagementRequest) (draws : Draws)
      → plugin.service.is_stopped ≡ true
      → StaysDown (handle_decoded requests json summaries random_error plugin request draws)
  handle_decoded-StaysDown plugin (err e) draws h = (h, refl)
  handle_decoded-StaysDown plugin (ok request) draws h = handled _ (
      handle_management-Handled json summaries random_error plugin.service request draws.run_id
        draws.run_ctx draws.now)
    where
      handled :
          (r : _)
          → Handled json summaries random_error plugin.service request draws.run_id draws.run_ctx
              draws.now r
          → (r.1.is_stopped ≡ true) × (r.2 ≡ [])
      handled r (left_alone _ same nothing) = (ap (λ s. s.is_stopped) same ∙ h, nothing)
      handled r (begun asked id _ _ _ e _) =
          elim (start_manual-stopped plugin.service asked draws.run_id draws.run_ctx draws.now id h
            (ap (λ x. x.0) e)) [ ]

  after_pick-StaysDown :
      (plugin : Plugin) (r : Result PinError PickResponse × Registry)
      → plugin.service.is_stopped ≡ true
      → StaysDown (after_pick plugin r)
  after_pick-StaysDown plugin (ok response, pins) h = (h, refl)
  after_pick-StaysDown plugin (err e, pins) h = (h, refl)

  handle_pick-StaysDown :
      (plugin : Plugin) (request : Result String PickRequest)
      → plugin.service.is_stopped ≡ true
      → StaysDown (handle_pick requests json summaries random_error plugin request)
  handle_pick-StaysDown plugin (err e) h = (h, refl)
  handle_pick-StaysDown plugin (ok request) h = after_pick-StaysDown plugin _ h

  handle_method-StaysDown :
      (plugin : Plugin) (method : Method) (request : String) (draws : Draws)
      → IsQuiet method
      → plugin.service.is_stopped ≡ true
      → StaysDown (handle_method requests json summaries random_error plugin method request draws)
  unfolding handle_method
  handle_method-StaysDown plugin plugin_register request draws quiet h = elim (quiet.0 refl) [ ]
  handle_method-StaysDown plugin plugin_reconfigure request draws quiet h = elim (quiet.1 refl) [ ]
  handle_method-StaysDown plugin plugin_shutdown request draws quiet h =
      unfold shutdown in (ground (arith, h), ground (arith, h))
  handle_method-StaysDown plugin management_register request draws quiet h = (h, refl)
  handle_method-StaysDown plugin management_handle request draws quiet h =
      handle_decoded-StaysDown plugin (requests.management request) draws h
  handle_method-StaysDown plugin scheduler_pick request draws quiet h =
      handle_pick-StaysDown plugin (requests.scheduler request) h
  handle_method-StaysDown plugin (other_method name) request draws quiet h = (h, refl)

  handle_all-down :
      (plugin : Plugin) (calls : List Call)
      → AllQuiet calls
      → plugin.service.is_stopped ≡ true
      → let (after, effects) = handle_all plugin calls in
        (after.service.is_stopped ≡ true) × (effects ≡ [])
  unfolding handle_all
  handle_all-down plugin [] quiet h = (h, refl)
  handle_all-down plugin (call ∷ calls) quiet h =
      let step =
        handle_method requests json summaries random_error plugin call.method call.request
          call.draws in
      let (down, nothing) =
        handle_method-StaysDown plugin call.method call.request call.draws quiet.0 h in
      let (down', nothing') = handle_all-down step.1 calls quiet.1 down in
      (down', ap (λ effects. effects ++ (handle_all step.1 calls).1) nothing ∙ nothing')

  -- Of an answer: the plugin is registered, and a new service serves the configuration.
  abbrev pub Restarted : Plugin → Config → Answer × Plugin × List Effect → Type 0
  Restarted plugin cfg r =
      (r.0 ≡ shows_registration)
      × (r.1.service.config ≡ cfg)
      × (r.1.service.is_stopped ≡ false)
      × (r.1.service.running ≡ false)
      × (r.1.pins ≡ plugin.pins)

  after_apply-Restarted :
      (plugin : Plugin) (cfg : Config) (r : Result Error (Unit {0}) × Service × List Effect)
      → Serves cfg r
      → Restarted plugin cfg (after_apply (r.0, record plugin { service = r.1 }, r.2))
  after_apply-Restarted plugin cfg (ok u, s, effects) v = (refl, v.config, v.going, v.idle, refl)
  after_apply-Restarted plugin cfg (err e, s, effects) v =
      elim (refused e (err e) refl v.accepted) [ ]

  serving-stopped : (s : Service) → s.is_stopped ≡ true → serving s ≡ new_service
  unfolding serving
  serving-stopped s h = ground (arith, h)

  handle_lifecycle-Restarted :
      (plugin : Plugin) (cfg : Config) (yaml : String) (draws : Draws)
      → plugin.service.is_stopped ≡ true
      → requests.config yaml ≡ ok cfg
      → Restarted plugin cfg
          (handle_lifecycle requests json summaries random_error plugin (ok yaml) draws)
  unfolding apply_configuration
  handle_lifecycle-Restarted plugin cfg yaml draws h parsed =
      after_apply-Restarted plugin cfg
        (apply_config (serving plugin.service) (requests.config yaml) draws.schedule_ctx
          draws.recovery_ctx)
        (subst
          (λ s.
            Serves cfg
              (apply_config s (requests.config yaml) draws.schedule_ctx draws.recovery_ctx))
          (sym (serving-stopped plugin.service h))
          (subst
            (λ p. Serves cfg (apply_config new_service p draws.schedule_ctx draws.recovery_ctx))
            (sym parsed) (apply_config-Serves cfg draws.schedule_ctx draws.recovery_ctx)))

  shutdown_service-down : (plugin : Plugin) → (shutdown_service plugin).0.service.is_stopped ≡ true
  unfolding shutdown_service
  shutdown_service-down plugin = unfold shutdown in ground arith

  register-Restarted :
      (plugin : Plugin) (request yaml : String) (cfg : Config) (draws : Draws)
      → plugin.service.is_stopped ≡ true
      → read_lifecycle requests json summaries random_error request ≡ ok yaml
      → requests.config yaml ≡ ok cfg
      → Restarted plugin cfg
          (handle_method requests json summaries random_error plugin plugin_register request draws)
  unfolding handle_method
  register-Restarted plugin request yaml cfg draws h read parsed =
      subst
        (λ r.
          Restarted plugin cfg
            (handle_lifecycle requests json summaries random_error plugin r draws))
        (sym read) (handle_lifecycle-Restarted plugin cfg yaml draws h parsed)

  -- After a shutdown no call of the host starts or cancels anything and the service stays stopped,
  -- whatever the calls are short of a registration or a new configuration. A registration whose
  -- configuration parses then gives a new service that has this configuration, is not
  -- stopped and runs nothing, and keeps the pins.
  pub shutdown-restarts :
      (plugin : Plugin) (calls : List Call) (request yaml : String) (cfg : Config) (draws : Draws)
      → AllQuiet calls
      → read_lifecycle requests json summaries random_error request ≡ ok yaml
      → requests.config yaml ≡ ok cfg
      → let (down, effects) = handle_all (shutdown_service plugin).0 calls in
        (down.service.is_stopped ≡ true)
        × (effects ≡ [])
        × Restarted down cfg
            (handle_method requests json summaries random_error down plugin_register request draws)
  shutdown-restarts plugin calls request yaml cfg draws quiet read parsed =
      let (down, nothing) =
        handle_all-down (shutdown_service plugin).0 calls quiet (shutdown_service-down plugin) in
      (down, nothing, register-Restarted _ request yaml cfg draws down read parsed)
