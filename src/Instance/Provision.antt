-- ===== src/Instance/Provision.antt =====
-- reconcileProvisioning and reconcileDeprovisioning: the job lifecycle of the provisioning
-- library, with the instance's callbacks.
use bare_metal_operator.Prelude.{
  String, Bool, true, false, not, ◌&&◌, Option, none, some, List, ◌==◌, if◌then◌else◌,
}
use bare_metal_operator.Prelude.Int.{is_positive}
use bare_metal_operator.Shared.{Error, wrap, CtrlResult, Outcome, done, is_zero}
use bare_metal_operator.Effect.{◌>>=◌, ◌>>◌, pure, on_error, on_res}
use bare_metal_operator.Kube.{Condition, status_true, status_false, JobStatus}
use bare_metal_operator.Api.Instance.{
  BareMetalInstance, failed, host_condition_provision_template_complete,
  host_condition_deprovision_template_complete, host_condition_reason_template_failed,
  host_condition_reason_progressing, get_status_condition,
}
use bare_metal_operator.Provisioning.{
  Lifecycle, returns, acts, stores_jobs, fails, succeeds, checks, flushes, Deprovision,
}
use bare_metal_operator.Instance.State.{
  Reconciler, Handler, VersionInput, provisions, deprovisions, object, change, perform,
  update_status, set_condition, set_phase,
}

abbrev version_input : BareMetalInstance → VersionInput
version_input o = record {
  host_type = o.spec.host_type;
  external_host_id = o.spec.external_host_id;
  external_host_name = o.spec.external_host_name;
  host_class = o.spec.host_class;
  network_class = o.spec.network_class;
  host_selector = o.spec.host_selector;
  inventory_labels = o.spec.inventory_labels;
  inventory_persistent_labels = o.spec.inventory_persistent_labels;
  template_id = o.spec.template_id;
  template_parameters = o.spec.template_parameters;
}

abbrev put_jobs : List JobStatus → BareMetalInstance → BareMetalInstance
put_jobs jobs o = record o { status = record o.status { jobs = jobs } }

abbrev put_version : String → BareMetalInstance → BareMetalInstance
put_version version o = record o { status = record o.status { desired_config_version = version } }

-- provisionCond == nil || provisionCond.Reason != TemplateFailed
abbrev has_not_failed : Option Condition → Bool
has_not_failed none = true
has_not_failed (some c) = not (c.reason == host_condition_reason_template_failed)

module _ {W : Type 0} (r : Reconciler W) where
  -- An action of the library on the world behind its clients.
  unfoldable pub act : (W → W) → Handler W W
  act f s = (f s.world, record s { world = f s.world })

  unfoldable pub ask : (BareMetalInstance → W → Bool × W) → Handler W Bool
  ask f s = let (answer, w) = f s.object s.world in (answer, record s { world = w })

  -- PollCallbacks.OnFailed
  unfoldable pub on_failed : String → Handler W (Unit {0})
  on_failed message = do
    set_phase r failed
    set_condition r host_condition_provision_template_complete status_false
        host_condition_reason_template_failed message

  -- PollCallbacks.OnSuccess
  unfoldable pub on_success : Handler W (Unit {0})
  on_success =
      set_condition r host_condition_provision_template_complete status_true "Succeeded"
        "Provision job completed successfully"

  -- The library's run, with the four functions that it is given.
  unfoldable pub run_lifecycle : Lifecycle W → Handler W Outcome
  run_lifecycle (returns result e) = pure (result, e)
  run_lifecycle (acts f next) = act f >>= λ w. run_lifecycle (next w)
  run_lifecycle (stores_jobs jobs next) = change (put_jobs jobs) >>= λ _. run_lifecycle next
  run_lifecycle (fails message next) = on_failed message >>= λ _. run_lifecycle next
  run_lifecycle (succeeds next) = on_success >>= λ _. run_lifecycle next
  run_lifecycle (checks next) =
      ask r.provisioning.check_non_terminal_provision_job >>= λ b. run_lifecycle (next b)
  run_lifecycle (flushes next) = update_status r >>= λ e. run_lifecycle (next e)

  abbrev shows_no_failure : BareMetalInstance → Bool
  shows_no_failure o =
      has_not_failed (get_status_condition r.kube host_condition_provision_template_complete o)

  -- A job in flight shows as progressing, and does not cover a failure.
  unfoldable pub mark_in_flight : CtrlResult → Handler W Outcome
  mark_in_flight result = do
    o ← object
    let in_flight = is_positive result.requeue_after && shows_no_failure o
    if in_flight
        then (do
          set_condition r host_condition_provision_template_complete status_false
              host_condition_reason_progressing "Provisioning job in progress"
          pure (result, none))
        else pure (result, none)

  unfoldable pub provision : String → Handler W Outcome
  provision version = do
    change (put_version version)
    o ← object
    perform (provisions o) (λ w. (tt, w))
    outcome ← run_lifecycle (
        r.provisioning.run_provisioning_lifecycle o o.status.jobs version
          r.provisioning.default_max_job_history r.provision_poll_interval)
    on_error outcome.1 (λ e. pure outcome) (mark_in_flight outcome.0)

  unfoldable pub reconcile_provisioning : Handler W Outcome
  reconcile_provisioning = do
    o ← object
    on_res (r.provisioning.compute_desired_config_version (version_input o))
        (λ e. pure (done, some (wrap "failed to compute desired config version" e))) provision

  -- A skipped run is "not done, a zero result and no error", and counts as done.
  abbrev is_done : Deprovision → Bool
  is_done d = if not d.done && is_zero d.result then true else d.done

  unfoldable pub deprovision_failed :
      CtrlResult → Error → Handler W (CtrlResult × Bool × Option Error)
  deprovision_failed result e = do
    set_condition r host_condition_deprovision_template_complete status_false
        host_condition_reason_template_failed "Deprovision job failed"
    pure (result, false, some e)

  unfoldable pub deprovision_returned :
      CtrlResult → Bool → Handler W (CtrlResult × Bool × Option Error)
  deprovision_returned result true = do
    set_condition r host_condition_deprovision_template_complete status_true "Succeeded"
        "Deprovision job completed successfully"
    pure (result, true, none)
  deprovision_returned result false = do
    set_condition r host_condition_deprovision_template_complete status_false
        host_condition_reason_progressing "Deprovision job in progress"
    pure (result, false, none)

  unfoldable pub reconcile_deprovisioning : Handler W (CtrlResult × Bool × Option Error)
  reconcile_deprovisioning = do
    o ← object
    d ← perform (deprovisions o) (
        r.provisioning.run_deprovisioning_lifecycle o o.status.jobs
          r.provisioning.default_max_job_history r.provision_poll_interval)
    change (put_jobs d.jobs)
    on_error d.error (deprovision_failed d.result) (deprovision_returned d.result (is_done d))
