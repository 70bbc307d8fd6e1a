-- ===== src/Instance/Delete.antt =====
-- handleDeletion: deprovision, unassign the host, and give up the two finalizers.
use bare_metal_operator.Prelude.{
  String, Bool, Option, none, some, List, [], ◌∷◌, ◌++◌, ◌==◌, if◌then◌else◌,
}
use bare_metal_operator.Prelude.Dict.{keys}
use bare_metal_operator.Shared.{
  Error, Outcome, CtrlResult, done, after, runs_template, osac_bare_metal_pool_id_label,
  bare_metal_instance_inventory_finalizer, bare_metal_instance_management_finalizer,
}
use bare_metal_operator.Effect.{◌>>=◌, ◌>>◌, pure, on_error}
use bare_metal_operator.Kube.{Kube, status_false}
use bare_metal_operator.Api.Instance.{
  BareMetalInstance, deleting, failed, host_condition_deprovision_template_complete,
  host_condition_reason_template_failed, get_pool_id,
}
use bare_metal_operator.Instance.State.{
  Reconciler, Handler, unassigns, object, perform, try_lock, unlock, update, set_condition,
  set_phase, remove_finalizer,
}
use bare_metal_operator.Instance.Provision.{reconcile_deprovisioning}

abbrev pub pool_label : Option String → List String
pool_label none = []
pool_label (some pool) = osac_bare_metal_pool_id_label ∷ []

-- The keys that UnassignHost is given.
unfoldable pub labels_to_remove : Kube → BareMetalInstance → List String
labels_to_remove k o = keys o.spec.inventory_labels ++ pool_label (get_pool_id k o)

module _ {W : Type 0} (r : Reconciler W) where
  -- RemoveFinalizer of the inventory finalizer, and the write that goes with it.
  unfoldable pub release_inventory : Handler W Outcome
  release_inventory = do
    removed ← remove_finalizer r bare_metal_instance_inventory_finalizer
    if removed then (do e ← update r; pure (done, e)) else pure (done, none)

  unfoldable pub unassign_locked : String → Handler W Outcome
  unassign_locked host_id = do
    o ← object
    e ←
        perform (unassigns host_id (labels_to_remove r.kube o))
          (r.inventory.unassign_host host_id (labels_to_remove r.kube o))
    on_error e (λ x. pure (done, some x)) release_inventory

  -- The lock, and the deferred `Unlock`.
  unfoldable pub unassign_host : String → Handler W Outcome
  unassign_host host_id = do
    got ← try_lock host_id
    if got
        then (do outcome ← unassign_locked host_id; unlock host_id; pure outcome)
        else pure (after r.try_lock_fail_poll_interval, none)

  unfoldable pub clean_up_inventory : Handler W Outcome
  clean_up_inventory = do
    o ← object
    if r.kube.contains_finalizer o.finalizers bare_metal_instance_inventory_finalizer
        then (if o.spec.external_host_id == ""
            then release_inventory
            else unassign_host o.spec.external_host_id)
        else pure (done, none)

  unfoldable pub release_management : Handler W Outcome
  release_management = do
    remove_finalizer r bare_metal_instance_management_finalizer
    e ← update r
    on_error e (λ x. pure (done, some x)) clean_up_inventory

  unfoldable pub no_provider : Handler W Outcome
  no_provider = do
    set_phase r failed
    set_condition r host_condition_deprovision_template_complete status_false
        host_condition_reason_template_failed "Provisioning provider not configured"
    pure (done, none)

  unfoldable pub deprovisioned : CtrlResult × Bool × Option Error → Handler W Outcome
  deprovisioned (result, is_done, e) =
      on_error e (λ x. pure (result, some x))
        (if is_done then release_management else pure (result, none))

  unfoldable pub clean_up_management : Handler W Outcome
  clean_up_management = do
    set_phase r deleting
    o ← object
    if runs_template o.spec.template_id
        then (if r.has_provider
            then (do d ← reconcile_deprovisioning r; deprovisioned d)
            else no_provider)
        else release_management

  unfoldable pub handle_deletion : Handler W Outcome
  handle_deletion = do
    o ← object
    if r.kube.contains_finalizer o.finalizers bare_metal_instance_management_finalizer
        then clean_up_management
        else clean_up_inventory
