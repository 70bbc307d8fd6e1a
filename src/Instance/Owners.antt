-- ===== src/Instance/Owners.antt =====
-- reconcileInventory and the inventory part of handleDeletion, with an inventory that keeps a table
-- of the owners of its hosts.
use bare_metal_operator.Prelude.Dict.{Dict}
use bare_metal_operator.Prelude.{
  Bool, String, true, false, none, some, ◌∷◌, ◌≡◌, refl, ◌∙◌, arith, ◌==◌,
}
use bare_metal_operator.Effect.{◌>>=◌, ◌>>◌, pure}
use bare_metal_operator.Lock
use bare_metal_operator.Lock.{is_locked, try_lock_lem}
use bare_metal_operator.Api.Instance.{BareMetalInstance}
use bare_metal_operator.Inventory.Contract.{
  Owners, Same, IsInventory, Assigns-others, Unassigns-freed,
}
use bare_metal_operator.Instance
use bare_metal_operator.Instance.State.{
  Reconciler, State, Handler, Call, object, change, perform, store, update, set_condition,
  set_phase, try_lock, unlock, remove_finalizer, primitives,
}
use bare_metal_operator.Instance.Allocate.{reconcile_inventory, combined_labels}
use bare_metal_operator.Instance.Delete.{
  labels_to_remove, unassign_locked, unassign_host, clean_up_inventory,
}
use bare_metal_operator.Instance.Finalizers.{has_inventory_finalizer}
use bare_metal_operator.Instance.World.{
  unassign_locked-world, unlocking-world, reconcile_inventory-world,
}

module _ {W : Type 0} (r : Reconciler W) where
  -- The state right after the lock of the host is taken.
  abbrev pub after_lock : State W → State W
  after_lock s = record s {
    calls = Instance.State.locked s.object.spec.external_host_id ∷ s.calls;
    locks = (Lock.try_lock s.object.spec.external_host_id s.locks).1;
  }

  pub clean_up_inventory-after_lock :
      (s : State W)
      → has_inventory_finalizer r s.object ≡ true
      → (s.object.spec.external_host_id == "") ≡ false
      → is_locked s.object.spec.external_host_id s.locks ≡ false
      → clean_up_inventory r s
        ≡ (do
          outcome ← unassign_locked r s.object.spec.external_host_id
          unlock s.object.spec.external_host_id
          pure outcome)
            (after_lock s)
  unfolding clean_up_inventory unassign_host object try_lock ◌>>=◌
  clean_up_inventory-after_lock s has named free =
      let host_id = s.object.spec.external_host_id in
      let got : (Lock.try_lock host_id s.locks).0 ≡ true =
        ground (arith, try_lock_lem host_id host_id s.locks, free) in
      rw (has, named, got) refl

-- An instance's allocation, and what it leaves of the others.
module _ {W : Type 0} (r : Reconciler W) (accepts : Dict String → Bool) (owners : W → Owners)
    (lawful : IsInventory r.inventory accepts owners)
    (quiet : (o : BareMetalInstance) (w : W)
      → Same (owners w) (owners (r.client.update o w).1)) where
  -- With an inventory that fulfils the contract, whatever it and the API server answer: a
  -- reconcileInventory never takes a host from another instance; every host that an instance other
  -- than this one owns before it, that instance owns after it. The labels of the assignment leave
  -- the backend's mark of the owner alone, and a write of the instance changes no owner.
  pub owners-reconcile_inventory :
      (s : State W) (host_id owner : String)
      → accepts (combined_labels r s.object) ≡ true
      → (owner == s.object.uid) ≡ false
      → owners s.world host_id ≡ some owner
      → owners (reconcile_inventory r s).1.world host_id ≡ some owner
  owners-reconcile_inventory s host_id owner accepted other owned =
      reconcile_inventory-world r (λ w. owners w host_id ≡ some owner)
        (λ o w h. quiet o w host_id ∙ h) (λ m w h. lawful.finds m w host_id ∙ h) s
        (λ host.
          let labels = combined_labels r s.object in
          Assigns-others host s.object.uid (owners s.world)
            (owners (r.inventory.assign_host host s.object.uid labels s.world).1)
            (r.inventory.assign_host host s.object.uid labels s.world).0 host_id owner
            (lawful.assigns host s.object.uid labels s.world accepted) other owned)
        owned

  -- With an inventory that fulfils the contract, and an API server whose writes of the instance
  -- change no owner: where the inventory part of a deletion, of an object with the inventory
  -- finalizer and a host whose lock is free, returns no error, that host has no owner afterwards,
  -- whichever instance owned it before.
  pub owners-clean_up_inventory :
      (s : State W)
      → has_inventory_finalizer r s.object ≡ true
      → (s.object.spec.external_host_id == "") ≡ false
      → is_locked s.object.spec.external_host_id s.locks ≡ false
      → (clean_up_inventory r s).0.1 ≡ none
      → owners (clean_up_inventory r s).1.world s.object.spec.external_host_id ≡ none
  unfolding ◌>>=◌
  owners-clean_up_inventory s has named free silent =
      let host_id = s.object.spec.external_host_id in
      let labels = labels_to_remove r.kube s.object in
      let step = clean_up_inventory-after_lock r s has named free in
      rw step (
        unlocking-world r (λ w. owners w host_id ≡ none) (λ o w h. quiet o w host_id ∙ h)
          (λ m w h. lawful.finds m w host_id ∙ h) host_id (unassign_locked r host_id)
          (after_lock r s)
          (unassign_locked-world r (λ w. owners w host_id ≡ none) (λ o w h. quiet o w host_id ∙ h)
            (λ m w h. lawful.finds m w host_id ∙ h) host_id (after_lock r s)
            (Unassigns-freed host_id (owners s.world)
              (owners (r.inventory.unassign_host host_id labels s.world).1)
              (r.inventory.unassign_host host_id labels s.world).0
              (lawful.unassigns host_id labels s.world))
            (rw step at silent)))
