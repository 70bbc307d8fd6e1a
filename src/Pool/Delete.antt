-- ===== src/Pool/Delete.antt =====
-- handleDeletion of a pool.
use bare_metal_operator.Prelude.{
  String, Bool, Option, none, some, List, [], ◌∷◌, is_empty, if◌then◌else◌,
}
use bare_metal_operator.Shared.{
  Error, CtrlResult, Outcome, done, after, runs_template, ignore_not_found,
  bare_metal_pool_finalizer,
}
use bare_metal_operator.Effect.{◌>>=◌, ◌>>◌, pure, on_error, on_res, on_option}
use bare_metal_operator.Kube.{status_false}
use bare_metal_operator.Profile
use bare_metal_operator.Profile.{Profile}
use bare_metal_operator.Api.Instance.{BareMetalInstance}
use bare_metal_operator.Api.Pool.{BareMetalPool, deleting, bare_metal_pool_reason_deleting}
use bare_metal_operator.Pool.State.{
  Reconciler, Handler, deletes, pool, change, perform, update, set_phase, set_ready_condition, fail,
  list_instances,
}
use bare_metal_operator.Pool.Provision.{reconcile_deprovisioning}

abbrev pub without_finalizer : List String → BareMetalPool → BareMetalPool
without_finalizer fs p = record p { finalizers = fs }

module _ {W : Type 0} (r : Reconciler W) where
  -- The loop that deletes the instances that are not yet being deleted.
  unfoldable pub delete_instances : List BareMetalInstance → Handler W (Option Error)
  delete_instances [] = pure none
  delete_instances (o ∷ items) = if o.deleting then delete_instances items else do
    e ← perform (deletes o) (r.client.delete_instance o)
    on_error (ignore_not_found e) (λ x. pure (some x)) (delete_instances items)

  unfoldable pub release : Handler W Outcome
  release = do
    p ← pool
    change (without_finalizer (r.kube.remove_finalizer p.finalizers bare_metal_pool_finalizer).1)
    if (r.kube.remove_finalizer p.finalizers bare_metal_pool_finalizer).0
        then (do e ← update r; pure (done, e))
        else pure (done, none)

  unfoldable pub deprovisioned : CtrlResult × Bool × Option Error → Handler W Outcome
  deprovisioned (result, is_done, e) =
      on_error e (λ x. pure (result, some x)) (if is_done then release else pure (result, none))

  -- The teardown job of a profile's template.
  unfoldable pub teardown : Profile → Handler W Outcome
  teardown p =
      if runs_template p.bare_metal_pool_template
      then (if r.has_provider
          then (do d ← reconcile_deprovisioning r p.bare_metal_pool_template; deprovisioned d)
          else (do fail r "Provisioning provider not configured"; pure (done, none)))
      else release

  unfoldable pub finish_deletion : Handler W Outcome
  finish_deletion = do
    p ← pool
    on_option p.spec.profile release
        (λ spec. on_option (Profile.get r.profiles spec.name) release teardown)

  unfoldable pub delete_listed : List BareMetalInstance → Handler W Outcome
  delete_listed items = do
    e ← delete_instances items
    on_error e (λ x. pure (done, some x))
        (if is_empty items
          then finish_deletion
          else pure (after r.host_deletion_poll_interval, none))

  unfoldable pub handle_deletion : Handler W Outcome
  handle_deletion = do
    set_phase r deleting
    set_ready_condition r status_false "BareMetalPool is being torn down"
        bare_metal_pool_reason_deleting
    answer ← list_instances r
    on_res answer (λ e. pure (done, some e)) delete_listed
