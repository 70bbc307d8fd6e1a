-- ===== src/Instance/Finalizers.antt =====
-- The inventory finalizer of handleUpdate and handleDeletion: when it is set, and when it is given
-- up, around the assignment and the unassignment of a host.
use bare_metal_operator.Prelude.{
  Bool, true, false, none, some, List, [], ◌∷◌, ◌≡◌, arith, ◌==◌, eq_refl,
}
use bare_metal_operator.Shared.{Error, error_of, done, bare_metal_instance_inventory_finalizer}
use bare_metal_operator.Effect.{◌>>=◌}
use bare_metal_operator.Kube.{IsLawful}
use bare_metal_operator.Lock.{is_locked, try_lock_lem}
use bare_metal_operator.Api.Instance.{BareMetalInstance, set_status_condition}
use bare_metal_operator.Instance.State.{
  Reconciler, State, object, Call, updates, assigns, unassigns, locked, unlocked, primitives,
}
use bare_metal_operator.Instance.Frame.{
  is_plain, Pushes, reconcile_management-Keeps, unconfigured-Keeps,
}
use bare_metal_operator.Instance.Allocate.{reconcile_inventory}
use bare_metal_operator.Instance.Delete.{
  labels_to_remove, release_inventory, unassign_locked, unassign_host, clean_up_inventory,
}
use bare_metal_operator.Instance.Reconcile.{handle_update}

-- Is a host assigned in these calls?
abbrev pub assigns_host : List Call → Bool
assigns_host [] = false
assigns_host (assigns host uid labels ∷ cs) = true
assigns_host (_ ∷ cs) = assigns_host cs

-- Does the object carry the inventory finalizer? And the object that its removal leaves.
abbrev pub has_inventory_finalizer : {W : Type 0} → Reconciler W → BareMetalInstance → Bool
has_inventory_finalizer r o =
    r.kube.contains_finalizer o.finalizers bare_metal_instance_inventory_finalizer

abbrev pub without_inventory_finalizer :
    {W : Type 0} → Reconciler W → BareMetalInstance → BareMetalInstance
without_inventory_finalizer r o = record o {
  finalizers = (r.kube.remove_finalizer o.finalizers bare_metal_instance_inventory_finalizer).1;
}

assigns_host-plain : (c : Call) → is_plain c ≡ true → Pushes (λ cs _ _. assigns_host cs ≡ false) c
assigns_host-plain (assigns h u l) e cs ls p n = absurd (ground arith)
assigns_host-plain _ e cs ls p n = n

module _ {W : Type 0} (r : Reconciler W) where
  -- For an object with the inventory finalizer and a host whose lock is free: where the inventory
  -- refuses to unassign the host, the inventory part of a deletion returns the inventory's error,
  -- leaves the object, its finalizer included, as it was, and sends no update: its calls are the
  -- lock, the unassignment and the unlock.
  pub clean_up_inventory_refused :
      (s : State W) (e : Error)
      → has_inventory_finalizer r s.object ≡ true
      → (s.object.spec.external_host_id == "") ≡ false
      → is_locked s.object.spec.external_host_id s.locks ≡ false
      → (r.inventory.unassign_host s.object.spec.external_host_id
          (labels_to_remove r.kube s.object)
          s.world).0
        ≡ some e
      → ((clean_up_inventory r s).0 ≡ (done, some e))
        × ((clean_up_inventory r s).1.object ≡ s.object)
        × ((clean_up_inventory r s).1.calls
            ≡ unlocked s.object.spec.external_host_id
              ∷ unassigns s.object.spec.external_host_id (labels_to_remove r.kube s.object)
              ∷ locked s.object.spec.external_host_id
              ∷ s.calls)
  unfolding clean_up_inventory unassign_host unassign_locked primitives
  clean_up_inventory_refused s e has named free denied = (
    ground
        (arith, try_lock_lem s.object.spec.external_host_id s.object.spec.external_host_id s.locks),
    ground
        (arith, try_lock_lem s.object.spec.external_host_id s.object.spec.external_host_id s.locks),
    ground
        (arith, try_lock_lem s.object.spec.external_host_id s.object.spec.external_host_id s.locks),
  )

module _ {W : Type 0} (r : Reconciler W) (lawful : IsLawful r.kube) where
  assigns_host-reconcile_inventory :
      (s : State W)
      → has_inventory_finalizer r s.object ≡ false
      → assigns_host s.calls ≡ false
      → assigns_host (reconcile_inventory r s).1.calls ≡ false
  unfolding reconcile_inventory primitives set_status_condition
  assigns_host-reconcile_inventory s bare n = ground (
    arith,
    lawful.add_finalizer_lem s.object.finalizers bare_metal_instance_inventory_finalizer
        bare_metal_instance_inventory_finalizer,
  )

  -- While the object lacks the inventory finalizer, and finalizers behave as documented, no update
  -- assigns a host, whatever the servers answer.
  pub assigns_host-handle_update :
      (s : State W)
      → has_inventory_finalizer r s.object ≡ false
      → assigns_host s.calls ≡ false
      → assigns_host (handle_update r s).1.calls ≡ false
  unfolding handle_update object ◌>>=◌
  assigns_host-handle_update s bare n = ground (
    arith,
    assigns_host-reconcile_inventory s bare n,
    (reconcile_management-Keeps r (λ cs _ _. assigns_host cs ≡ false) assigns_host-plain).at s n,
    (unconfigured-Keeps r (λ cs _ _. assigns_host cs ≡ false) assigns_host-plain).at s n,
  )

  -- For an object with the inventory finalizer and a host whose lock is free, and finalizers that
  -- behave as documented: once the inventory has unassigned the host, one update goes out, under
  -- the lock: the object without the inventory finalizer. Its error, if any, is the result.
  pub clean_up_inventory_released :
      (s : State W)
      → has_inventory_finalizer r s.object ≡ true
      → (s.object.spec.external_host_id == "") ≡ false
      → is_locked s.object.spec.external_host_id s.locks ≡ false
      → (r.inventory.unassign_host s.object.spec.external_host_id
          (labels_to_remove r.kube s.object)
          s.world).0
        ≡ none
      → let sent = without_inventory_finalizer r s.object in
        (has_inventory_finalizer r sent ≡ false)
        × ((clean_up_inventory r s).0.1
            ≡ error_of
                (r.client.update sent
                  (r.inventory.unassign_host s.object.spec.external_host_id
                    (labels_to_remove r.kube s.object)
                    s.world).1).0)
        × ((clean_up_inventory r s).1.calls
            ≡ unlocked s.object.spec.external_host_id
              ∷ updates sent
              ∷ unassigns s.object.spec.external_host_id (labels_to_remove r.kube s.object)
              ∷ locked s.object.spec.external_host_id
              ∷ s.calls)
  unfolding clean_up_inventory unassign_host unassign_locked release_inventory primitives
  clean_up_inventory_released s has named free freed =
      let gone =
        lawful.remove_finalizer_lem s.object.finalizers bare_metal_instance_inventory_finalizer
          bare_metal_instance_inventory_finalizer in
      (
        ground (arith, gone, eq_refl bare_metal_instance_inventory_finalizer),
        ground (
          arith,
          gone,
          try_lock_lem s.object.spec.external_host_id s.object.spec.external_host_id s.locks,
        ),
        ground (
          arith,
          gone,
          try_lock_lem s.object.spec.external_host_id s.object.spec.external_host_id s.locks,
        ),
      )
