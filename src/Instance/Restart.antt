-- ===== src/Instance/Restart.antt =====
-- reconcileRestartTrigger and triggerRestart.
use bare_metal_operator.Prelude.{
  String, Bool, true, false, ◌&&◌, Option, none, some, ◌==◌, ◌<>◌, if◌then◌else◌,
}
use bare_metal_operator.Prelude.Int.{ℤ, int_eq}
use bare_metal_operator.Shared.{Error, wrap, Outcome, done, after, is_zero, is_transitioning_error}
use bare_metal_operator.Effect.{◌>>=◌, ◌>>◌, pure, on_error, on_res}
use bare_metal_operator.Kube.{Condition, ConditionStatus, status_true, status_false}
use bare_metal_operator.Api.Instance.{
  BareMetalInstance, halted, same_strategy, host_condition_power_synced,
  host_condition_reason_progressing, host_condition_reason_power_sync_failed, get_status_condition,
}
use bare_metal_operator.Instance.State.{
  Reconciler, Handler, restarts, checks_restart, object, change, perform, set_condition, error_text,
}

abbrev pub put_restart_trigger : ℤ → BareMetalInstance → BareMetalInstance
put_restart_trigger t o = record o { status = record o.status { restart_trigger = t } }

abbrev is_false : ConditionStatus → Bool
is_false status_false = true
is_false _ = false

-- The condition by which a restart counts as already in progress.
abbrev pub shows_progress : Option Condition → Bool
shows_progress none = false
shows_progress (some c) = is_false c.status && c.reason == host_condition_reason_progressing

module _ {W : Type 0} (r : Reconciler W) where
  abbrev power_synced : ConditionStatus → String → String → Handler W (Unit {0})
  power_synced = set_condition r host_condition_power_synced

  unfoldable pub restart_refused : String → Error → Handler W Outcome
  restart_refused host e =
      if is_transitioning_error e
      then (do
        power_synced status_false host_condition_reason_power_sync_failed
            "Host is transitioning, will retry restart when host becomes idle"
        pure (after r.management_recheck_interval, none))
      else pure (done, some (wrap "failed to trigger restart" e))

  unfoldable pub restart_triggered : Handler W Outcome
  restart_triggered = do
    power_synced status_false host_condition_reason_progressing "Restart operation initiated"
    pure (after r.management_recheck_interval, none)

  unfoldable pub trigger_restart : Handler W Outcome
  trigger_restart = do
    o ← object
    e ←
        perform (restarts o.spec.external_host_id)
          (r.management.trigger_restart o.spec.external_host_id)
    on_error e (restart_refused o.spec.external_host_id) restart_triggered

  -- The end of reconcileRestartTrigger: the status takes the trigger of the spec.
  unfoldable pub complete_restart : String → Handler W Outcome
  complete_restart message = do
    o ← object
    change (put_restart_trigger o.spec.restart_trigger)
    power_synced status_true "Completed" message
    pure (done, none)

  unfoldable pub await_restart : Handler W Outcome
  await_restart = do
    o ← object
    answer ←
        perform (checks_restart o.spec.external_host_id)
          (r.management.is_restart_complete o.spec.external_host_id)
    on_res answer
        (λ e. do
          power_synced status_false host_condition_reason_power_sync_failed
              ("Failed to check restart completion: " <> error_text r e)
          pure (done, some e))
        (λ completed.
          if completed
          then complete_restart "Restart trigger updated"
          else pure (after r.management_recheck_interval, none))

  unfoldable pub start_restart : Handler W Outcome
  start_restart = do
    outcome ← trigger_restart
    on_error outcome.1
        (λ e. do
          power_synced status_false host_condition_reason_power_sync_failed
              ("Failed to trigger restart: " <> error_text r e)
          pure outcome)
        (if is_zero outcome.0 then complete_restart "Restart trigger updated" else pure outcome)

  unfoldable pub changed_trigger : BareMetalInstance → Handler W Outcome
  changed_trigger o =
      if same_strategy o.spec.run_strategy halted
      then complete_restart "Restart trigger updated (instance halted)"
      else if shows_progress (get_status_condition r.kube host_condition_power_synced o)
      then await_restart
      else start_restart

  unfoldable pub reconcile_restart_trigger : Handler W Outcome
  reconcile_restart_trigger = do
    o ← object
    if int_eq o.spec.restart_trigger o.status.restart_trigger
        then (do
          power_synced status_true "Completed" "Restart trigger is up to date"
          pure (done, none))
        else changed_trigger o
