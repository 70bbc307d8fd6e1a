-- ===== src/Instance/Power.antt =====
-- reconcilePower and syncBareMetalInstanceStatus.
use bare_metal_operator.Prelude.{
  String, Bool, not, ◌&&◌, Option, none, some, bool_eq, if◌then◌else◌,
}
use bare_metal_operator.Shared.{Error, is_transitioning_error}
use bare_metal_operator.Effect.{◌>>=◌, ◌>>◌, pure, on_error}
use bare_metal_operator.Kube.{status_true, status_false}
use bare_metal_operator.Api.Instance.{
  BareMetalInstance, RunStrategy, unspecified, always, halted, same_strategy, failed,
  host_condition_power_synced, host_condition_reason_progressing, host_condition_reason_power_on,
  host_condition_reason_power_off, host_condition_reason_ironic_api_failure,
}
use bare_metal_operator.Management.{PowerState, power_on, power_off, is_on, PowerStatus}
use bare_metal_operator.Instance.State.{
  Reconciler, Handler, sets_power, object, change, perform, set_condition, set_phase,
}

abbrev pub strategy_of : Bool → RunStrategy
strategy_of on = if on then always else halted

abbrev pub put_run_strategy : RunStrategy → BareMetalInstance → BareMetalInstance
put_run_strategy strategy o = record o { status = record o.status { run_strategy = strategy } }

-- The power action that a status calls for, if any.
abbrev pub target_state : Bool → PowerState
target_state on = if on then power_on else power_off

module _ {W : Type 0} (r : Reconciler W) where
  -- A conflict is no error: the next reconcile tries again.
  unfoldable pub power_refused : Error → Handler W (Option Error)
  power_refused e = if is_transitioning_error e then pure none else pure (some e)

  unfoldable pub change_power : String → PowerState → Handler W (Option Error)
  change_power host target = do
    e ← perform (sets_power host target) (r.management.set_power_state host target)
    on_error e power_refused (pure none)

  unfoldable pub reconcile_power : PowerStatus → Handler W (Option Error)
  reconcile_power status = do
    o ← object
    let desired_on = same_strategy o.spec.run_strategy always
    if status.is_transitioning
        then pure none
        else if bool_eq desired_on (is_on status.state)
        then pure none
        else change_power o.spec.external_host_id (target_state desired_on)

  unfoldable pub sync_failed : Handler W (Unit {0})
  sync_failed = do
    set_phase r failed
    set_condition r host_condition_power_synced status_false
        host_condition_reason_ironic_api_failure "failed to sync power status"

  -- The conditions of a status that is not in transition.
  unfoldable pub settled : Bool → BareMetalInstance → Handler W (Unit {0})
  settled on o =
      if not (same_strategy o.spec.run_strategy unspecified)
        && not (same_strategy o.spec.run_strategy o.status.run_strategy)
      then set_condition r host_condition_power_synced status_false
          host_condition_reason_progressing "waiting for node power state to converge"
      else if on
      then set_condition r host_condition_power_synced status_true host_condition_reason_power_on ""
      else set_condition r host_condition_power_synced status_true host_condition_reason_power_off
          ""

  -- syncBareMetalInstanceStatus with a status and no error; with an error it is `sync_failed`.
  unfoldable pub sync_status : PowerStatus → Handler W (Unit {0})
  sync_status status = do
    change (put_run_strategy (strategy_of (is_on status.state)))
    o ← object
    if status.is_transitioning
        then set_condition r host_condition_power_synced status_false
            host_condition_reason_progressing "node power state is transitioning"
        else settled (is_on status.state) o
