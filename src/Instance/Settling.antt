-- ===== src/Instance/Settling.antt =====
-- When an instance becomes ready, and what a restart does: each theorem follows the object
-- through the handlers of reconcileManagement.
use bare_metal_operator.Prelude.{
  String, true, false, ◌||◌, none, some, ◌∷◌, ◌≡◌, ◌≢◌, arith, bool_eq, if◌then◌else◌,
}
use bare_metal_operator.Prelude.Int.{ℤ, pos, int_eq, is_positive}
use bare_metal_operator.Shared.{ok}
use bare_metal_operator.Kube.{IsLawful, Condition, status_true, status_false}
use bare_metal_operator.Api.Instance.{
  BareMetalInstance, unspecified, always, halted, same_strategy, ready, host_condition_power_synced,
  host_condition_reason_progressing, host_condition_reason_power_on,
  host_condition_reason_power_off, get_status_condition, is_status_condition_true,
  set_status_condition,
}
use bare_metal_operator.Management.{is_on, PowerStatus}
use bare_metal_operator.Instance.State.{
  Reconciler, State, restarts, checks_restart, sets_power, primitives,
}
use bare_metal_operator.Instance.Power.{
  target_state, reconcile_power, change_power, power_refused, sync_status, settled,
}
use bare_metal_operator.Instance.Manage.{settle}
use bare_metal_operator.Instance.Restart.{
  shows_progress, trigger_restart, restart_triggered, complete_restart, await_restart,
  start_restart, changed_trigger, reconcile_restart_trigger,
}

abbrev power_condition : String → Condition
power_condition reason = record {
  kind = host_condition_power_synced;
  status = status_true;
  observed_generation = pos 0;
  reason = reason;
  message = "";
}

abbrev progress_condition : String → Condition
progress_condition message = record {
  kind = host_condition_power_synced;
  status = status_false;
  observed_generation = pos 0;
  reason = host_condition_reason_progressing;
  message = message;
}

-- The user's edit of the spec.
abbrev pub put_trigger : ℤ → BareMetalInstance → BareMetalInstance
put_trigger t o = record o { spec = record o.spec { restart_trigger = t } }

module _ {W : Type 0} (r : Reconciler W) where
  -- The power action of a reconcile: none in transition or where the state is the desired one, and
  -- otherwise one call that asks for the desired state.
  reconcile_power_calls :
      (status : PowerStatus) (s : State W)
      → (reconcile_power r status s).1.calls ≡ (
          if status.is_transitioning
            || bool_eq (same_strategy s.object.spec.run_strategy always) (is_on status.state)
          then s.calls
          else sets_power s.object.spec.external_host_id
              (target_state (same_strategy s.object.spec.run_strategy always))
            ∷ s.calls)
  unfolding reconcile_power change_power power_refused primitives
  reconcile_power_calls status s = ground arith

module _ {W : Type 0} (r : Reconciler W) (lawful : IsLawful r.kube) where
  -- Where conditions behave as documented, an instance with a run strategy becomes ready at the
  -- end of reconcileManagement only with a power status that is not in transition and is the one
  -- that the strategy asks for; then its status shows that strategy and its PowerSynced condition
  -- is true.
  pub settle_ready :
      (status : PowerStatus) (s : State W)
      → s.object.spec.run_strategy ≢ unspecified
      → (settle r status s).1.object.status.phase ≡ ready
      → (status.is_transitioning ≡ false)
        × (is_on status.state ≡ same_strategy s.object.spec.run_strategy always)
        × ((settle r status s).1.object.status.run_strategy ≡ s.object.spec.run_strategy)
        × (is_status_condition_true r.kube host_condition_power_synced (settle r status s).1.object
            ≡ true)
  unfolding settle sync_status settled primitives is_status_condition_true set_status_condition
  settle_ready status s strategy is_ready =
      ground (arith, synced host_condition_reason_power_on, synced host_condition_reason_power_off)
    where
      synced :
          (reason : String)
          → r.kube.find_condition
              (r.kube.set_condition s.object.status.conditions (power_condition reason))
              host_condition_power_synced
            ≡ some (power_condition reason)
      synced reason =
          lawful.find-set s.object.status.conditions (power_condition reason)
            host_condition_power_synced

  -- With a positive recheck interval and conditions that behave as documented, a changed restart
  -- trigger of an instance that is not halted and shows no progress leads to one restart call:
  -- where the backend accepts it, the trigger of the status stays as it was, and the next
  -- reconcileRestartTrigger only asks whether the restart is complete, whatever the answer.
  pub restart_once :
      (s : State W)
      → is_positive r.management_recheck_interval ≡ true
      → int_eq s.object.spec.restart_trigger s.object.status.restart_trigger ≡ false
      → same_strategy s.object.spec.run_strategy halted ≡ false
      → shows_progress (get_status_condition r.kube host_condition_power_synced s.object) ≡ false
      → (r.management.trigger_restart s.object.spec.external_host_id s.world).0 ≡ none
      → let next = (reconcile_restart_trigger r s).1 in
        (next.object.status.restart_trigger ≡ s.object.status.restart_trigger)
        × ((reconcile_restart_trigger r next).1.calls
            ≡ checks_restart s.object.spec.external_host_id
              ∷ restarts s.object.spec.external_host_id
              ∷ s.calls)
  unfolding reconcile_restart_trigger changed_trigger start_restart trigger_restart
      restart_triggered await_restart complete_restart primitives get_status_condition
      set_status_condition
  restart_once s interval differs running idle accepted = (
    ground arith,
    ground (
      arith,
      lawful.find-set s.object.status.conditions (progress_condition "Restart operation initiated")
          host_condition_power_synced,
    ),
  )

  -- Where conditions behave as documented, a restart that is asked for while the power state
  -- converges is lost: the end of the reconcile that sees a power state in transition, of an
  -- instance that is to be always on, leaves the condition that counts as a restart in progress;
  -- when the trigger changes after that and the backend then answers that the restart is complete,
  -- the next reconcileRestartTrigger marks the restart as done, and no restart call is made.
  pub restart_lost :
      (status : PowerStatus) (s : State W) (t : ℤ)
      → status.is_transitioning ≡ true
      → s.object.spec.run_strategy ≡ always
      → int_eq t s.object.status.restart_trigger ≡ false
      → (r.management.is_restart_complete s.object.spec.external_host_id s.world).0 ≡ ok true
      → let waiting = (settle r status s).1 in
        let asked = record waiting { object = put_trigger t waiting.object } in
        ((reconcile_restart_trigger r asked).1.object.status.restart_trigger ≡ t)
        × ((reconcile_restart_trigger r asked).1.calls
            ≡ checks_restart s.object.spec.external_host_id ∷ s.calls)
  unfolding settle sync_status reconcile_restart_trigger changed_trigger await_restart
      complete_restart primitives get_status_condition set_status_condition
  restart_lost status s t moving strategy differs complete = (
    ground (arith, in_progress "node power state is transitioning"),
    ground (arith, in_progress "node power state is transitioning"),
  )
    where
      in_progress :
          (message : String)
          → r.kube.find_condition
              (r.kube.set_condition s.object.status.conditions (progress_condition message))
              host_condition_power_synced
            ≡ some (progress_condition message)
      in_progress message =
          lawful.find-set s.object.status.conditions (progress_condition message)
            host_condition_power_synced
