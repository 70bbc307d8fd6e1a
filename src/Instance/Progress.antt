-- ===== src/Instance/Progress.antt =====
-- The three reconciles that allocate a host, over an API server that accepts every write.
use bare_metal_operator.Prelude.{String, Bool, true, false, none, some, ◌∷◌, ◌≡◌, refl, arith, ◌==◌}
use bare_metal_operator.Shared.{ok, done, bare_metal_instance_inventory_finalizer}
use bare_metal_operator.Effect.{◌>>=◌}
use bare_metal_operator.Kube.{IsLawful, status_false}
use bare_metal_operator.Lock
use bare_metal_operator.Lock.{is_locked, try_lock_lem}
use bare_metal_operator.Api.Instance.{
  BareMetalInstance, set_status_condition, host_condition_allocated, allocating,
  host_condition_reason_progressing,
}
use bare_metal_operator.Inventory.{Host}
use bare_metal_operator.Instance.State.{
  Reconciler, State, finds, assigns, locked, object, try_lock, unlock, set_phase, set_condition,
  add_finalizer, primitives,
}
use bare_metal_operator.Instance.Allocate.{
  match_expressions, combined_labels, keep_host, find_host, accept_host, mark_allocated,
  assign_locked, assign_host, allocate, reconcile_inventory,
}
use bare_metal_operator.Instance.Finalizers.{has_inventory_finalizer}
use bare_metal_operator.Instance.Served.{IsStore, loaded, updated}

-- The object is `o` but for its status, its finalizers and the host that it names.
pub record IsStage {W : Type 0} (r : Reconciler W) (o : BareMetalInstance) (host_id : String)
    (finalized : Bool) (p : BareMetalInstance) : Type 0 where
  pub uid : p.uid ≡ o.uid
  pub deleting : p.deleting ≡ o.deleting
  pub owners : p.owner_references ≡ o.owner_references
  pub spec : p.spec ≡ record o.spec { external_host_id = host_id }
  pub finalizer : has_inventory_finalizer r p ≡ finalized

module _ {W : Type 0} (r : Reconciler W) (lawful : IsLawful r.kube) (held : W → BareMetalInstance)
    (store : IsStore r.client held) where
  -- The state once reconcileInventory has seen to the finalizer.
  abbrev pub begun : State W → State W
  begun s =
      (add_finalizer r bare_metal_instance_inventory_finalizer
        (set_condition r host_condition_allocated status_false host_condition_reason_progressing
          "Allocating BareMetalInstance" (set_phase r allocating (loaded r held store s)).1).1).1

  pub run-begun :
      (s : State W)
      → has_inventory_finalizer r (held s.world) ≡ true
      → reconcile_inventory r (loaded r held store s) ≡ allocate r (begun s)
  unfolding reconcile_inventory primitives set_status_condition
  run-begun s finalized =
      let present : (r.kube.add_finalizer (held s.world).finalizers
            bare_metal_instance_inventory_finalizer).0
          ≡ false =
        ground (
          arith,
          finalized,
          lawful.add_finalizer_lem (held s.world).finalizers bare_metal_instance_inventory_finalizer
              bare_metal_instance_inventory_finalizer,
        ) in
      rw present refl

  pub run-added :
      (s : State W)
      → has_inventory_finalizer r (held s.world) ≡ false
      → reconcile_inventory r (loaded r held store s)
        ≡ ((done, none), updated r held store (begun s))
  unfolding reconcile_inventory primitives set_status_condition
  run-added s bare =
      let absent : (r.kube.add_finalizer (held s.world).finalizers
            bare_metal_instance_inventory_finalizer).0
          ≡ true =
        ground (
          arith,
          bare,
          lawful.add_finalizer_lem (held s.world).finalizers bare_metal_instance_inventory_finalizer
              bare_metal_instance_inventory_finalizer,
        ) in
      rw absent (rw (store.writes (begun s).object s.world).0 refl)

  pub allocate-find :
      (t : State W) → (t.object.spec.external_host_id == "") ≡ true → allocate r t ≡ find_host r t
  unfolding allocate object ◌>>=◌
  allocate-find t bare = rw bare refl

  pub allocate-assign :
      (t : State W)
      → (t.object.spec.external_host_id == "") ≡ false
      → allocate r t ≡ assign_host r t
  unfolding allocate object ◌>>=◌
  allocate-assign t named = rw named refl

  -- The state in which the host that was found is written.
  abbrev pub chosen : Host → State W → State W
  chosen host t = record t {
    object = record t.object {
      spec = record t.object.spec { external_host_id = host.inventory_host_id };
    };
    calls = finds (match_expressions t.object) ∷ t.calls;
    world = (r.inventory.find_free_host (match_expressions t.object) t.world).1;
  }

  pub find_host-chosen :
      (t : State W) (host : Host)
      → (r.inventory.find_free_host (match_expressions t.object) t.world).0 ≡ ok (some host)
      → find_host r t ≡ ((done, none), updated r held store (chosen host t))
  unfolding find_host keep_host primitives
  find_host-chosen t host found =
      rw (found, (store.writes (chosen host t).object (chosen host t).world).0) refl

  -- The state in which the classes of the assigned host are written.
  abbrev pub classed : String → Host → State W → State W
  classed host_id host t = record t {
    object = record t.object {
      spec = record t.object.spec {
        host_class = host.host_class;
        network_class = host.network_class;
      };
    };
    calls = assigns host_id t.object.uid (combined_labels r t.object) ∷ t.calls;
    world = (r.inventory.assign_host host_id t.object.uid (combined_labels r t.object) t.world).1;
  }

  pub assign_locked-classed :
      (host_id : String) (t : State W) (host : Host)
      → (r.inventory.assign_host host_id t.object.uid (combined_labels r t.object) t.world).0
        ≡ ok (some host)
      → assign_locked r host_id t
        ≡ mark_allocated r host.host_class (updated r held store (classed host_id host t))
  unfolding assign_locked accept_host primitives
  assign_locked-classed host_id t host given =
      rw (given, (store.writes (classed host_id host t).object (classed host_id host t).world).0)
        refl

  -- The state in which the lock of the host is held.
  abbrev pub locking : String → State W → State W
  locking host_id t = record t {
    calls = locked host_id ∷ t.calls;
    locks = (Lock.try_lock host_id t.locks).1;
  }

  pub assign_host-locking :
      (host_id : String) (t : State W)
      → t.object.spec.external_host_id ≡ host_id
      → is_locked host_id t.locks ≡ false
      → let last = assign_locked r host_id (locking host_id t) in
        assign_host r t ≡ (last.0, (unlock host_id last.1).1)
  unfolding assign_host object try_lock ◌>>=◌
  assign_host-locking host_id t named free =
      let got : (Lock.try_lock host_id t.locks).0 ≡ true =
        ground (arith, try_lock_lem host_id host_id t.locks, free) in
      rw (named, got) refl
