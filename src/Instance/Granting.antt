-- ===== src/Instance/Granting.antt =====
-- The reconcile that assigns the host that an instance names, over an API server that accepts every
-- write.
use bare_metal_operator.Prelude.{
  String, true, false, not, ◌&&◌, some, ◌≡◌, refl, ap, ◌∙◌, arith, ◌==◌, eq_refl, ◌<>◌,
}
use bare_metal_operator.Prelude.Int.{pos}
use bare_metal_operator.Shared.{ok, runs_template}
use bare_metal_operator.Kube.{IsLawful, status_true}
use bare_metal_operator.Lock.{is_locked}
use bare_metal_operator.Api.Instance.{
  BareMetalInstance, BareMetalInstanceStatus, set_status_condition, get_status_condition,
  get_pool_id, is_status_condition_true, host_condition_allocated, progressing,
}
use bare_metal_operator.Inventory.{Host}
use bare_metal_operator.Instance.State.{Reconciler, State, unlock, primitives}
use bare_metal_operator.Instance.Allocate.{combined_labels, mark_allocated, reconcile_inventory}
use bare_metal_operator.Instance.Reconcile.{write_status, reconcile}
use bare_metal_operator.Instance.Served.{
  IsStore, IsApart, unlock-kept, loaded, updated, write_status-held,
}
use bare_metal_operator.Instance.Progress.{
  IsStage, begun, run-begun, allocate-assign, classed, assign_locked-classed, locking,
  assign_host-locking,
}
use bare_metal_operator.Instance.Allocation.{stage-inventory, write_status-world}

-- What an allocation leaves at the server.
pub record IsAllocated {W : Type 0} (r : Reconciler W) (host_id : String) (host : Host)
    (p : BareMetalInstance) : Type 0 where
  pub external_host : p.spec.external_host_id ≡ host_id
  pub class : p.spec.host_class ≡ host.host_class
  pub network : p.spec.network_class ≡ host.network_class
  pub phase : p.status.phase ≡ progressing
  pub condition : is_status_condition_true r.kube host_condition_allocated p ≡ true

module _ {W : Type 0} (r : Reconciler W) (lawful : IsLawful r.kube) (held : W → BareMetalInstance)
    (store : IsStore r.client held) (apart : IsApart r.inventory held) where
  marked :
      (host_class : String) (t : State W)
      → is_status_condition_true r.kube host_condition_allocated
          (mark_allocated r host_class t).1.object
        ≡ true
  unfolding mark_allocated primitives set_status_condition is_status_condition_true
      get_status_condition
  marked host_class t = ground (
    arith,
    eq_refl host_condition_allocated,
    lawful.find-set t.object.status.conditions
        (record {
          kind = host_condition_allocated;
          status = status_true;
          observed_generation = pos 0;
          reason = "Allocated";
          message =
              "BareMetalInstance allocated a host (" <> t.object.spec.external_host_id <> ") from "
              <> host_class;
        })
        host_condition_allocated,
  )

  -- An object that names a host, and a lock of that host that is free.
  module _ (o : BareMetalInstance) (alive : o.deleting ≡ false)
      (runnable : (runs_template o.spec.template_id && not r.has_provider) ≡ false)
      (unclassed : (o.spec.host_class == "") ≡ true) (name host_id : String) (s : State W)
      (host : Host) (named : (host_id == "") ≡ false) (free : is_locked host_id s.locks ≡ false)
      (stage : IsStage r o host_id true (held s.world))
      (given : (r.inventory.assign_host host_id o.uid (combined_labels r o) s.world).0
        ≡ ok (some host)) where
    abbrev begun_named : State W
    begun_named = locking r lawful held store host_id (begun r lawful held store s)

    abbrev granted : State W
    granted = updated r held store (classed r lawful held store host_id host begun_named)

    begun-external_host : (begun r lawful held store s).object.spec.external_host_id ≡ host_id
    unfolding primitives set_status_condition
    begun-external_host = ap (λ x. x.external_host_id) stage.spec

    begun-given :
        (r.inventory.assign_host host_id begun_named.object.uid
          (combined_labels r begun_named.object)
          begun_named.world).0
        ≡ ok (some host)
    unfolding primitives set_status_condition combined_labels get_pool_id
    begun-given = rw (stage.uid, stage.spec, stage.owners) given

    begun-free : is_locked host_id (begun r lawful held store s).locks ≡ false
    unfolding primitives set_status_condition
    begun-free = free

    run-granted : reconcile_inventory r (loaded r held store s) ≡ (
        let last = mark_allocated r host.host_class granted in (last.0, (unlock host_id last.1).1))
    run-granted =
        run-begun r lawful held store s stage.finalizer
        ∙ allocate-assign r lawful held store (begun r lawful held store s)
            (rw begun-external_host named)
        ∙ assign_host-locking r lawful held store host_id (begun r lawful held store s)
            begun-external_host begun-free
        ∙ ap (λ last. (last.0, (unlock host_id last.1).1))
            (assign_locked-classed r lawful held store host_id begun_named host begun-given)

    -- The state that the reconcile leaves, but for its last write.
    abbrev ended : State W
    ended = (unlock host_id (mark_allocated r host.host_class granted).1).1

    reconcile-granted :
        reconcile r name s
        ≡ write_status r (held s.world).status (mark_allocated r host.host_class granted).0 ended
    reconcile-granted =
        stage-inventory r lawful held store apart o alive runnable unclassed name host_id true s
          stage
        ∙ ap (λ x. write_status r (held s.world).status x.0 x.1) run-granted

    ended-world : ended.world ≡ granted.world
    unfolding mark_allocated primitives
    ended-world = (unlock-kept host_id (mark_allocated r host.host_class granted).1).1

    ended-status : ended.object.status ≡ (mark_allocated r host.host_class granted).1.object.status
    ended-status =
        ap (λ x. x.status) (unlock-kept host_id (mark_allocated r host.host_class granted).1).0

    granted-held :
        held granted.world ≡ record (classed r lawful held store host_id host begun_named).object {
          status = (held s.world).status;
        }
    unfolding primitives set_status_condition
    granted-held =
        (store.writes _ _).1
        ∙ ap
            (λ x. record (classed r lawful held store host_id host begun_named).object {
              status = x;
            })
            (ap (λ x. x.status) (apart.assigns host_id _ _ s.world))

    -- The last write leaves the status of the allocation.
    held-granted : held (reconcile r name s).1.world ≡ record (held granted.world) {
      status = (mark_allocated r host.host_class granted).1.object.status;
    }
    held-granted =
        ap (λ x. held x.1.world) reconcile-granted
        ∙ write_status-held r held store (held s.world).status
            (mark_allocated r host.host_class granted).0 ended
            (ap (λ w. (held w).status) ended-world ∙ ap (λ x. x.status) granted-held)
        ∙ ap {A = W × BareMetalInstanceStatus} {B = BareMetalInstance}
            (λ x. record (held x.0) { status = x.1 }) {x = (ended.world, ended.object.status)}
            {y = (granted.world, (mark_allocated r host.host_class granted).1.object.status)}
            (λ i. (ended-world i, ended-status i))

    pub IsAllocated-granted : IsAllocated r host_id host (held (reconcile r name s).1.world)
    unfolding mark_allocated primitives set_status_condition is_status_condition_true
        get_status_condition
    IsAllocated-granted = rw held-granted (record {
      external_host = ap (λ x. x.spec.external_host_id) granted-held ∙ begun-external_host;
      class = ap (λ x. x.spec.host_class) granted-held;
      network = ap (λ x. x.spec.network_class) granted-held;
      phase = refl;
      condition = marked host.host_class granted;
    })

    pub world-granted :
        (Q : W → Type 0)
        → ((o : BareMetalInstance) (w : W) → Q w → Q (r.client.update o w).1)
        → ((o : BareMetalInstance) (w : W) → Q w → Q (r.client.update_status o w).1)
        → Q (r.inventory.assign_host host_id o.uid (combined_labels r o) s.world).1
        → Q (reconcile r name s).1.world
    unfolding primitives set_status_condition combined_labels get_pool_id
    world-granted Q quiet quiet_status h = rw (reconcile-granted) (
        write_status-world r lawful held store apart Q quiet_status (held s.world).status
          (mark_allocated r host.host_class granted).0 ended
          (rw (ended-world) (quiet _ _ (rw (stage.uid, stage.spec, stage.owners) h))))
