-- ===== src/Pool/Provision.antt =====
-- reconcileProvisioning and reconcileDeprovisioning of a pool.
use bare_metal_operator.Prelude.{
  String, Bool, true, false, not, ◌&&◌, Option, none, some, List, if◌then◌else◌,
}
use bare_metal_operator.Prelude.Dict.{insert}
use bare_metal_operator.Shared.{
  Error, CtrlResult, Outcome, is_zero, bare_metal_pool_template_id_annotation_key,
}
use bare_metal_operator.Effect.{◌>>=◌, ◌>>◌, pure}
use bare_metal_operator.Kube.{JobStatus}
use bare_metal_operator.Api.Pool.{BareMetalPool}
use bare_metal_operator.Provisioning.{
  Lifecycle, returns, acts, stores_jobs, fails, succeeds, checks, flushes, Deprovision,
}
use bare_metal_operator.Pool.State.{
  Reconciler, Handler, provisions, deprovisions, pool, change, perform, act, update_status, fail,
}

abbrev put_jobs : List JobStatus → BareMetalPool → BareMetalPool
put_jobs jobs p = record p { status = record p.status { jobs = jobs } }

-- The template for the job, as an annotation of the pool.
abbrev annotate : String → BareMetalPool → BareMetalPool
annotate template p = record p {
  annotations = insert bare_metal_pool_template_id_annotation_key template p.annotations;
}

module _ {W : Type 0} (r : Reconciler W) where
  -- The library's run, with the four functions that it is given; OnSuccess only logs.
  unfoldable pub run_lifecycle : Lifecycle W → Handler W Outcome
  run_lifecycle (returns result e) = pure (result, e)
  run_lifecycle (acts f next) = act (λ w. (f w, f w)) >>= λ w. run_lifecycle (next w)
  run_lifecycle (stores_jobs jobs next) = change (put_jobs jobs) >>= λ _. run_lifecycle next
  run_lifecycle (fails message next) = fail r message >>= λ _. run_lifecycle next
  run_lifecycle (succeeds next) = run_lifecycle next
  run_lifecycle (checks next) = pool >>= λ p.
      act (r.provisioning.check_non_terminal_provision_job p) >>= λ b. run_lifecycle (next b)
  run_lifecycle (flushes next) = update_status r >>= λ e. run_lifecycle (next e)

  unfoldable pub reconcile_provisioning : String → Handler W Outcome
  reconcile_provisioning template = do
    change (annotate template)
    p ← pool
    perform (provisions p) (λ w. (tt, w))
    run_lifecycle (
        r.provisioning.run_provisioning_lifecycle p p.status.jobs p.status.desired_config_version
          r.max_job_history r.provision_job_poll_interval)

  abbrev no_error : Option Error → Bool
  no_error none = true
  no_error (some e) = false

  -- A skipped run is "not done, a zero result and no error", and counts as done.
  abbrev is_done : Deprovision → Bool
  is_done d = if not d.done && (is_zero d.result && no_error d.error) then true else d.done

  unfoldable pub reconcile_deprovisioning : String → Handler W (CtrlResult × Bool × Option Error)
  reconcile_deprovisioning template = do
    change (annotate template)
    p ← pool
    d ← perform (deprovisions p) (
        r.provisioning.run_deprovisioning_lifecycle p p.status.jobs r.max_job_history
          r.provision_job_poll_interval)
    change (put_jobs d.jobs)
    pure (d.result, is_done d, d.error)
