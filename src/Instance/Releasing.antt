-- ===== src/Instance/Releasing.antt =====
-- A deletion that reaches its end: handleDeletion of an object that has a host.
use bare_metal_operator.Prelude.{
  String, Bool, true, false, not, ◌&&◌, none, ◌∷◌, ◌≡◌, refl, ap, ◌∙◌, arith, ◌==◌, eq_refl, inl,
  inr, Bool-cases,
}
use bare_metal_operator.Prelude.Dict.{Dict}
use bare_metal_operator.Shared.{
  Outcome, ok, done, runs_template, bare_metal_instance_inventory_finalizer,
  bare_metal_instance_management_finalizer,
}
use bare_metal_operator.Effect.{◌>>=◌}
use bare_metal_operator.Kube.{IsLawful}
use bare_metal_operator.Lock.{is_locked}
use bare_metal_operator.Api.Instance.{
  BareMetalInstance, BareMetalInstanceStatus, deleting, get_pool_id,
}
use bare_metal_operator.Inventory.Contract.{Owners, Same, IsInventory}
use bare_metal_operator.Instance.State.{
  Reconciler, ObjectClient, State, updates, unassigns, object, unlock, primitives,
}
use bare_metal_operator.Instance.Delete.{
  labels_to_remove, release_inventory, unassign_locked, clean_up_inventory, clean_up_management,
  release_management, handle_deletion,
}
use bare_metal_operator.Instance.Finalizers.{has_inventory_finalizer, without_inventory_finalizer}
use bare_metal_operator.Instance.Owners.{
  after_lock, clean_up_inventory-after_lock, owners-clean_up_inventory,
}
use bare_metal_operator.Instance.Served.{unlock-kept}

-- The API server accepts every update, and answers with the object but for its status, which an
-- update does not write.
pub record IsAccepting {W : Type 0} (client : ObjectClient W) : Type 0 where
  pub writes :
      (o : BareMetalInstance) (w : W)
      → (status : BareMetalInstanceStatus) × ((client.update o w).0
          ≡ ok (record o { status = status }))

abbrev pub has_management_finalizer : {W : Type 0} → Reconciler W → BareMetalInstance → Bool
has_management_finalizer r o =
    r.kube.contains_finalizer o.finalizers bare_metal_instance_management_finalizer

-- Does the object carry neither finalizer?
abbrev is_released : {W : Type 0} → Reconciler W → BareMetalInstance → Bool
is_released r o = not (has_inventory_finalizer r o) && not (has_management_finalizer r o)

module _ {W : Type 0} (r : Reconciler W) (lawful : IsLawful r.kube)
    (accepting : IsAccepting r.client) where
  -- The state after an update that is accepted.
  abbrev sent : State W → State W
  sent t = record t {
    object = record t.object { status = (accepting.writes t.object t.world).0 };
    calls = updates t.object ∷ t.calls;
    world = (r.client.update t.object t.world).1;
  }

  -- The state in which the object goes out without the inventory finalizer.
  abbrev unassigned : String → State W → State W
  unassigned host_id t = record t {
    object = without_inventory_finalizer r t.object;
    calls = unassigns host_id (labels_to_remove r.kube t.object) ∷ t.calls;
    world = (r.inventory.unassign_host host_id (labels_to_remove r.kube t.object) t.world).1;
  }

  unassign_locked-sent :
      (host_id : String) (t : State W)
      → has_inventory_finalizer r t.object ≡ true
      → (r.inventory.unassign_host host_id (labels_to_remove r.kube t.object) t.world).0 ≡ none
      → unassign_locked r host_id t ≡ ((done, none), sent (unassigned host_id t))
  unfolding unassign_locked release_inventory primitives
  unassign_locked-sent host_id t has freed =
      let removed =
        (lawful.remove_finalizer_lem t.object.finalizers bare_metal_instance_inventory_finalizer
          bare_metal_instance_inventory_finalizer).0
        ∙ has in
      rw
        (
          freed,
          removed,
          (accepting.writes (unassigned host_id t).object (unassigned host_id t).world).1,
        )
        refl

  clean_up_inventory-sent :
      (s : State W)
      → has_inventory_finalizer r s.object ≡ true
      → (s.object.spec.external_host_id == "") ≡ false
      → is_locked s.object.spec.external_host_id s.locks ≡ false
      → (r.inventory.unassign_host s.object.spec.external_host_id
          (labels_to_remove r.kube s.object)
          s.world).0
        ≡ none
      → clean_up_inventory r s ≡ (
        (done, none),
        (unlock s.object.spec.external_host_id
            (sent (unassigned s.object.spec.external_host_id (after_lock r s)))).1,
      )
  unfolding ◌>>=◌
  clean_up_inventory-sent s has named free freed =
      clean_up_inventory-after_lock r s has named free
      ∙ ap (λ x. (x.0, (unlock s.object.spec.external_host_id x.1).1))
          (unassign_locked-sent s.object.spec.external_host_id (after_lock r s) has freed)

  is_released-clean_up_inventory :
      (s : State W)
      → has_inventory_finalizer r s.object ≡ true
      → has_management_finalizer r s.object ≡ false
      → (s.object.spec.external_host_id == "") ≡ false
      → is_locked s.object.spec.external_host_id s.locks ≡ false
      → (r.inventory.unassign_host s.object.spec.external_host_id
          (labels_to_remove r.kube s.object)
          s.world).0
        ≡ none
      → is_released r (clean_up_inventory r s).1.object ≡ true
  is_released-clean_up_inventory s has unmanaged named free freed =
      rw
        (
          clean_up_inventory-sent s has named free freed,
          (unlock-kept s.object.spec.external_host_id
              (sent (unassigned s.object.spec.external_host_id (after_lock r s)))).0,
        )
        (ground (
          arith,
          unmanaged,
          lawful.remove_finalizer_lem s.object.finalizers bare_metal_instance_inventory_finalizer
              bare_metal_instance_inventory_finalizer,
          lawful.remove_finalizer_lem s.object.finalizers bare_metal_instance_inventory_finalizer
              bare_metal_instance_management_finalizer,
          eq_refl bare_metal_instance_inventory_finalizer,
        ))

  -- The state in which the object goes out without the management finalizer.
  abbrev unmanaged : State W → State W
  unmanaged s = sent (record s {
    object = record s.object {
      finalizers =
          (r.kube.remove_finalizer s.object.finalizers bare_metal_instance_management_finalizer).1;
      status = record s.object.status { phase = deleting };
    };
  })

  handle_deletion-unmanaged :
      (s : State W)
      → runs_template s.object.spec.template_id ≡ false
      → has_management_finalizer r s.object ≡ true
      → handle_deletion r s ≡ clean_up_inventory r (unmanaged s)
  unfolding handle_deletion clean_up_management release_management primitives
  handle_deletion-unmanaged s template managed =
      rw (managed, template, (accepting.writes _ s.world).1) refl

  handle_deletion-inventory :
      (s : State W)
      → has_management_finalizer r s.object ≡ false
      → handle_deletion r s ≡ clean_up_inventory r s
  unfolding handle_deletion object ◌>>=◌
  handle_deletion-inventory s free = rw free refl

module _ {W : Type 0} (r : Reconciler W) (lawful : IsLawful r.kube)
    (accepting : IsAccepting r.client) (accepts : Dict String → Bool) (owners : W → Owners)
    (inventory : IsInventory r.inventory accepts owners)
    (quiet : (o : BareMetalInstance) (w : W)
      → Same (owners w) (owners (r.client.update o w).1)) where
  -- The end of a deletion.
  abbrev IsEnded : String → Outcome × State W → Type 0
  IsEnded host_id x =
      (x.0 ≡ (done, none)) × (is_released r x.1.object ≡ true) × (owners x.1.world host_id ≡ none)

  IsEnded-clean_up_inventory :
      (s : State W)
      → has_inventory_finalizer r s.object ≡ true
      → has_management_finalizer r s.object ≡ false
      → (s.object.spec.external_host_id == "") ≡ false
      → is_locked s.object.spec.external_host_id s.locks ≡ false
      → (r.inventory.unassign_host s.object.spec.external_host_id
          (labels_to_remove r.kube s.object)
          s.world).0
        ≡ none
      → IsEnded s.object.spec.external_host_id (clean_up_inventory r s)
  IsEnded-clean_up_inventory s has unmanaged named free freed =
      let end = ap (λ x. x.0) (clean_up_inventory-sent r lawful accepting s has named free freed) in
      (
        end,
        is_released-clean_up_inventory r lawful accepting s has unmanaged named free freed,
        owners-clean_up_inventory r accepts owners inventory quiet s has named free
            (ap (λ x. x.1) end),
      )

  -- A deletion reaches its end: where no template is to be run, the instance has the inventory
  -- finalizer and a host whose lock is free, the inventory fulfils the contract and unassigns the
  -- host without an error, and the API server accepts every update, handleDeletion returns no
  -- error, with or without the management finalizer; the object is left without either finalizer,
  -- and its host without an owner. The writes of the instance change no owner, and finalizers
  -- behave as documented.
  pub handle_deletion-released :
      (s : State W)
      → runs_template s.object.spec.template_id ≡ false
      → has_inventory_finalizer r s.object ≡ true
      → (s.object.spec.external_host_id == "") ≡ false
      → is_locked s.object.spec.external_host_id s.locks ≡ false
      → ((w : W)
          → (r.inventory.unassign_host s.object.spec.external_host_id
              (labels_to_remove r.kube s.object)
              w).0
            ≡ none)
      → ((handle_deletion r s).0 ≡ (done, none))
        × (has_inventory_finalizer r (handle_deletion r s).1.object ≡ false)
        × (has_management_finalizer r (handle_deletion r s).1.object ≡ false)
        × (owners (handle_deletion r s).1.world s.object.spec.external_host_id ≡ none)
  unfolding labels_to_remove get_pool_id
  handle_deletion-released s template has named free freed =
      let ended : IsEnded s.object.spec.external_host_id (handle_deletion r s) =
        elim (Bool-cases (has_management_finalizer r s.object)) [
          | inl managed ↦ rw (handle_deletion-unmanaged r lawful accepting s template managed) (
              IsEnded-clean_up_inventory (unmanaged r lawful accepting s)
                (ground (
                  arith,
                  has,
                  lawful.remove_finalizer_lem s.object.finalizers
                      bare_metal_instance_management_finalizer
                      bare_metal_instance_inventory_finalizer,
                ))
                (ground (
                  arith,
                  lawful.remove_finalizer_lem s.object.finalizers
                      bare_metal_instance_management_finalizer
                      bare_metal_instance_management_finalizer,
                ))
                named free (freed _))
          | inr absent ↦
              rw (handle_deletion-inventory r lawful accepting s absent)
                (IsEnded-clean_up_inventory s has absent named free (freed s.world))
        ] in
      (ended.0, ground (arith, ended.1), ground (arith, ended.1), ended.2)
