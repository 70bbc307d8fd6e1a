-- ===== src/Instance/Allocate.antt =====
-- reconcileInventory: find a free host, assign it under its lock, and store its classes.
use bare_metal_operator.Prelude.{String, Option, none, some, [], ◌==◌, ◌<>◌, if◌then◌else◌}
use bare_metal_operator.Prelude.Dict.{Dict, insert, copy, index}
use bare_metal_operator.Shared.{
  Outcome, done, after, osac_default_managed_by_value, osac_default_provision_state_value,
  osac_bare_metal_pool_id_label, bare_metal_instance_inventory_finalizer,
}
use bare_metal_operator.Effect.{◌>>=◌, ◌>>◌, pure, on_error, on_res, on_option}
use bare_metal_operator.Kube.{status_true, status_false}
use bare_metal_operator.Api.Instance.{
  BareMetalInstance, allocating, progressing, failed, host_condition_allocated,
  host_condition_reason_progressing, get_pool_id,
}
use bare_metal_operator.Inventory.{Host}
use bare_metal_operator.Instance.State.{
  Reconciler, Handler, finds, assigns, object, change, perform, try_lock, unlock, update,
  set_condition, set_phase, add_finalizer,
}

-- A key that is missing or empty gets the default.
abbrev pub with_default : String → String → Dict String → Dict String
with_default key default m = if index m key == "" then insert key default m else m

-- What a free host must match.
unfoldable pub match_expressions : BareMetalInstance → Dict String
match_expressions o = with_default "provisionState" osac_default_provision_state_value (
    with_default "managedBy" osac_default_managed_by_value
      (insert "hostType" o.spec.host_type o.spec.host_selector))

-- The labels that mark an assigned host. Persistent labels override the others.
abbrev pub with_pool_id : Option String → Dict String → Dict String
with_pool_id none labels = labels
with_pool_id (some pool) labels = insert osac_bare_metal_pool_id_label pool labels

module _ {W : Type 0} (r : Reconciler W) where
  unfoldable pub combined_labels : BareMetalInstance → Dict String
  combined_labels o =
      with_pool_id (get_pool_id r.kube o)
        (copy (copy [] o.spec.inventory_labels) o.spec.inventory_persistent_labels)

  abbrev put_external_host_id : String → BareMetalInstance → BareMetalInstance
  put_external_host_id host o = record o { spec = record o.spec { external_host_id = host } }

  abbrev put_classes : Host → BareMetalInstance → BareMetalInstance
  put_classes host o = record o {
    spec = record o.spec { host_class = host.host_class; network_class = host.network_class };
  }

  unfoldable pub no_matching_hosts : Handler W Outcome
  no_matching_hosts = do
    set_phase r failed
    set_condition r host_condition_allocated status_false "Failed" "No matching hosts available"
    pure (after r.no_free_hosts_poll_interval, none)

  unfoldable pub keep_host : Host → Handler W Outcome
  keep_host host = do
    change (put_external_host_id host.inventory_host_id)
    e ← update r
    pure (done, e)

  -- The block for an instance without a host.
  unfoldable pub find_host : Handler W Outcome
  find_host = do
    o ← object
    found ← perform (finds (match_expressions o)) (r.inventory.find_free_host (match_expressions o))
    on_res found (λ e. pure (done, some e)) (λ host. on_option host no_matching_hosts keep_host)

  -- Another instance has the host: forget it.
  unfoldable pub lose_host : Handler W Outcome
  lose_host = do change (put_external_host_id ""); e ← update r; pure (done, e)

  unfoldable pub mark_allocated : String → Handler W Outcome
  mark_allocated host_class = do
    set_phase r progressing
    o ← object
    set_condition r host_condition_allocated status_true "Allocated" (
        "BareMetalInstance allocated a host (" <> o.spec.external_host_id <> ") from "
        <> host_class)
    pure (done, none)

  unfoldable pub accept_host : Host → Handler W Outcome
  accept_host host = do
    change (put_classes host)
    e ← update r
    on_error e (λ x. pure (done, some x)) (mark_allocated host.host_class)

  -- The part of reconcileInventory that runs under the host's lock.
  unfoldable pub assign_locked : String → Handler W Outcome
  assign_locked host_id = do
    o ← object
    assigned ←
        perform (assigns host_id o.uid (combined_labels o))
          (r.inventory.assign_host host_id o.uid (combined_labels o))
    on_res assigned (λ e. pure (done, some e)) (λ host. on_option host lose_host accept_host)

  -- The lock, and the deferred `Unlock`.
  unfoldable pub assign_host : Handler W Outcome
  assign_host = do
    o ← object
    got ← try_lock o.spec.external_host_id
    if got
        then (do
          outcome ← assign_locked o.spec.external_host_id
          unlock o.spec.external_host_id
          pure outcome)
        else pure (after r.try_lock_fail_poll_interval, none)

  unfoldable pub allocate : Handler W Outcome
  allocate = do o ← object; if o.spec.external_host_id == "" then find_host else assign_host

  unfoldable pub reconcile_inventory : Handler W Outcome
  reconcile_inventory = do
    set_phase r allocating
    set_condition r host_condition_allocated status_false host_condition_reason_progressing
        "Allocating BareMetalInstance"
    added ← add_finalizer r bare_metal_instance_inventory_finalizer
    if added then (do e ← update r; pure (done, e)) else allocate
