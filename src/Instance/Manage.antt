-- ===== src/Instance/Manage.antt =====
-- reconcileManagement: provisioning first, then the restart trigger, then the power state.
use bare_metal_operator.Prelude.{
  String, Bool, true, false, not, ◌&&◌, ◌||◌, Option, none, some, bool_eq, ◌<>◌, if◌then◌else◌,
}
use bare_metal_operator.Shared.{
  Error, new, Outcome, done, after, is_zero, runs_template,
  bare_metal_instance_management_finalizer,
}
use bare_metal_operator.Effect.{◌>>=◌, ◌>>◌, pure, on_error, on_res, on_option}
use bare_metal_operator.Kube.{Condition, ConditionStatus, status_true}
use bare_metal_operator.Api.Instance.{
  BareMetalInstance, unspecified, always, same_strategy, progressing, ready, failed,
  host_condition_provision_template_complete, get_status_condition,
}
use bare_metal_operator.Management.{is_on, PowerStatus}
use bare_metal_operator.Instance.State.{
  Reconciler, Handler, reads_power, object, perform, update, set_phase, add_finalizer,
}
use bare_metal_operator.Instance.Provision.{reconcile_provisioning}
use bare_metal_operator.Instance.Restart.{reconcile_restart_trigger}
use bare_metal_operator.Instance.Power.{reconcile_power, sync_failed, sync_status}

abbrev is_not_true : ConditionStatus → Bool
is_not_true status_true = false
is_not_true _ = true

-- provisionCond != nil && provisionCond.Status != metav1.ConditionTrue
abbrev pub is_incomplete : Option Condition → Bool
is_incomplete none = false
is_incomplete (some c) = is_not_true c.status

-- The run strategy is set, and the power state is not the one that it asks for.
abbrev pub is_unsettled : BareMetalInstance → PowerStatus → Bool
is_unsettled o status =
    not (same_strategy o.spec.run_strategy unspecified)
    && (status.is_transitioning
        || not (bool_eq (same_strategy o.spec.run_strategy always) (is_on status.state)))

module _ {W : Type 0} (r : Reconciler W) where
  -- A failure of the management backend.
  unfoldable pub power_failed : Error → Handler W Outcome
  power_failed e = do sync_failed r; pure (done, some e)

  abbrev nil_status : String → Error
  nil_status host = new ("management backend returned nil power status for host " <> host)

  -- GetPowerState, and what to do with its two errors and its status.
  unfoldable pub with_power_state : (PowerStatus → Handler W Outcome) → Handler W Outcome
  with_power_state next = do
    o ← object
    answer ←
        perform (reads_power o.spec.external_host_id)
          (r.management.get_power_state o.spec.external_host_id)
    on_res answer power_failed
        (λ status. on_option status (power_failed (nil_status o.spec.external_host_id)) next)

  -- The end of reconcileManagement.
  unfoldable pub settle : PowerStatus → Handler W Outcome
  settle status = do
    sync_status r status
    o ← object
    if is_unsettled o status
        then (do set_phase r progressing; pure (after r.management_recheck_interval, none))
        else do set_phase r ready; pure (done, none)

  unfoldable pub act_on_power : PowerStatus → Handler W Outcome
  act_on_power status = do
    o ← object
    if same_strategy o.spec.run_strategy unspecified
        then settle status
        else do e ← reconcile_power r status; on_error e power_failed (with_power_state settle)

  unfoldable pub reconcile_power_state : Handler W Outcome
  reconcile_power_state = with_power_state act_on_power

  unfoldable pub restart_pending : Outcome → Handler W Outcome
  restart_pending outcome = do
    on_error outcome.1 (λ e. set_phase r failed) (set_phase r progressing)
    pure outcome

  abbrev ends : Outcome → Bool
  ends (result, none) = not (is_zero result)
  ends (result, some e) = true

  unfoldable pub restart_then_power : Handler W Outcome
  restart_then_power = do
    outcome ← reconcile_restart_trigger r
    if ends outcome then restart_pending outcome else reconcile_power_state

  unfoldable pub provisioned : Handler W Outcome
  provisioned = do
    o ← object
    if is_incomplete (get_status_condition r.kube host_condition_provision_template_complete o)
        then (do set_phase r failed; pure (done, none))
        else restart_then_power

  unfoldable pub provision_first : Handler W Outcome
  provision_first = do
    outcome ← reconcile_provisioning r
    on_error outcome.1 (λ e. do set_phase r failed; pure outcome)
        (if is_zero outcome.0 then provisioned else do set_phase r progressing; pure outcome)

  unfoldable pub added_finalizer : Handler W Outcome
  added_finalizer = do
    e ← update r
    on_error e (λ x. do set_phase r failed; pure (done, some x))
        (do set_phase r progressing; pure (done, none))

  unfoldable pub reconcile_management : Handler W Outcome
  reconcile_management = do
    added ← add_finalizer r bare_metal_instance_management_finalizer
    if added then added_finalizer else do
      o ← object
      if runs_template o.spec.template_id then provision_first else restart_then_power
