-- ===== src/Instance/Allocation.antt =====
-- What each of the three reconciles that allocate a host leaves at the API server.
use bare_metal_operator.Prelude.{
  String, Bool, true, false, not, ◌&&◌, none, some, ◌≡◌, refl, ap, ◌∙◌, arith, ◌==◌, eq_refl, inl,
  inr, Bool-cases,
}
use bare_metal_operator.Prelude.Dict.{Dict}
use bare_metal_operator.Shared.{
  Outcome, ok, done, runs_template, bare_metal_instance_inventory_finalizer,
}
use bare_metal_operator.Kube.{IsLawful}
use bare_metal_operator.Api.Instance.{
  BareMetalInstance, BareMetalInstanceSpec, BareMetalInstanceStatus, set_status_condition,
}
use bare_metal_operator.Inventory.{Host}
use bare_metal_operator.Instance.State.{Reconciler, State, primitives}
use bare_metal_operator.Instance.Allocate.{match_expressions, reconcile_inventory}
use bare_metal_operator.Instance.Reconcile.{write_status, reconcile}
use bare_metal_operator.Instance.Served.{
  IsStore, IsApart, loaded, updated, reconcile-inventory, write_status-held, write_status-locks,
}
use bare_metal_operator.Instance.Progress.{
  IsStage, begun, run-begun, run-added, chosen, find_host-chosen, allocate-find,
}

module _ {W : Type 0} (r : Reconciler W) (lawful : IsLawful r.kube) (held : W → BareMetalInstance)
    (store : IsStore r.client held) (apart : IsApart r.inventory held) where
  -- After an update that answers a reconcile, the server holds the object of the update, with the
  -- status that it had.
  updated-held :
      (old : BareMetalInstanceStatus) (outcome : Outcome) (t : State W)
      → (held t.world).status ≡ old
      → held (write_status r old outcome (updated r held store t)).1.world
        ≡ record t.object { status = (held t.world).status }
  updated-held old outcome t kept =
      let written = (store.writes t.object t.world).1 in
      write_status-held r held store old outcome (updated r held store t)
        (ap (λ x. x.status) written ∙ kept)
      ∙ written

  -- What the writes of the object keep of the world, the last write keeps too.
  pub write_status-world :
      (Q : W → Type 0)
      → ((o : BareMetalInstance) (w : W) → Q w → Q (r.client.update_status o w).1)
      → (old : BareMetalInstanceStatus) (outcome : Outcome) (t : State W) → Q t.world
      → Q (write_status r old outcome t).1.world
  unfolding write_status primitives
  write_status-world Q quiet old outcome t h =
      elim (Bool-cases (r.client.same_status t.object.status old)) [
        | inl same ↦ rw same h
        | inr changed ↦
            rw (changed, (store.writes_status t.object t.world).0) (quiet t.object t.world h)
      ]

  module _ (o : BareMetalInstance) (alive : o.deleting ≡ false)
      (runnable : (runs_template o.spec.template_id && not r.has_provider) ≡ false)
      (unclassed : (o.spec.host_class == "") ≡ true) where
    -- A reconcile in any of the stages runs reconcileInventory.
    pub stage-inventory :
        (name host_id : String) (finalized : Bool) (s : State W)
        → IsStage r o host_id finalized (held s.world)
        → let run = reconcile_inventory r (loaded r held store s) in
          reconcile r name s ≡ write_status r (held s.world).status run.0 run.1
    stage-inventory name host_id finalized s stage =
        reconcile-inventory r held store name s (stage.deleting ∙ alive) (rw stage.spec runnable)
          (rw stage.spec unclassed)

    reconcile-finalizer :
        (name : String) (s : State W)
        → IsStage r o "" false (held s.world)
        → reconcile r name s
          ≡ write_status r
              (held s.world).status
              (done, none)
              (updated r held store (begun r lawful held store s))
    reconcile-finalizer name s stage =
        let run = run-added r lawful held store s stage.finalizer in
        stage-inventory name "" false s stage
        ∙ ap (λ x. write_status r (held s.world).status x.0 x.1) run

    -- The first reconcile writes the finalizer, and nothing else.
    pub IsStage-finalizer :
        (name : String) (s : State W)
        → IsStage r o "" false (held s.world)
        → IsStage r o "" true (held (reconcile r name s).1.world)
    unfolding primitives set_status_condition
    IsStage-finalizer name s stage =
        rw
          (
            reconcile-finalizer name s stage,
            updated-held (held s.world).status (done, none) (begun r lawful held store s) refl,
          )
          (record {
            uid = stage.uid;
            deleting = stage.deleting;
            owners = stage.owners;
            spec = stage.spec;
            finalizer = ground (
              arith,
              eq_refl bare_metal_instance_inventory_finalizer,
              lawful.add_finalizer_lem (held s.world).finalizers
                  bare_metal_instance_inventory_finalizer bare_metal_instance_inventory_finalizer,
            );
          })

    pub locks-finalizer :
        (name : String) (s : State W)
        → IsStage r o "" false (held s.world)
        → (reconcile r name s).1.locks ≡ s.locks
    unfolding primitives set_status_condition
    locks-finalizer name s stage = rw (reconcile-finalizer name s stage) (
        write_status-locks r held store (held s.world).status (done, none)
          (updated r held store (begun r lawful held store s)))

    pub world-finalizer :
        (Q : W → Type 0)
        → ((o : BareMetalInstance) (w : W) → Q w → Q (r.client.update o w).1)
        → ((o : BareMetalInstance) (w : W) → Q w → Q (r.client.update_status o w).1)
        → (name : String) (s : State W) → IsStage r o "" false (held s.world)
        → Q s.world
        → Q (reconcile r name s).1.world
    unfolding primitives set_status_condition
    world-finalizer Q quiet quiet_status name s stage h = rw (reconcile-finalizer name s stage) (
        write_status-world Q quiet_status (held s.world).status (done, none)
          (updated r held store (begun r lawful held store s)) (quiet _ _ h))

    -- With the finalizer, and without a host.
    module _ (name : String) (s : State W) (host : Host)
        (stage : IsStage r o "" true (held s.world))
        (found : (r.inventory.find_free_host (match_expressions o) s.world).0
          ≡ ok (some host)) where
      abbrev begun_bare : State W
      begun_bare = begun r lawful held store s

      begun-bare : begun_bare.object.spec ≡ record o.spec { external_host_id = "" }
      unfolding primitives set_status_condition
      begun-bare = stage.spec

      begun-found :
          (r.inventory.find_free_host (match_expressions begun_bare.object) begun_bare.world).0
          ≡ ok (some host)
      unfolding match_expressions primitives set_status_condition
      begun-found = rw stage.spec found

      run-found :
          reconcile_inventory r (loaded r held store s)
          ≡ ((done, none), updated r held store (chosen r lawful held store host begun_bare))
      run-found =
          run-begun r lawful held store s stage.finalizer
          ∙ allocate-find r lawful held store begun_bare (rw begun-bare refl)
          ∙ find_host-chosen r lawful held store begun_bare host begun-found

      reconcile-found :
          reconcile r name s
          ≡ write_status r
              (held s.world).status
              (done, none)
              (updated r held store (chosen r lawful held store host begun_bare))
      reconcile-found =
          stage-inventory name "" true s stage
          ∙ ap (λ x. write_status r (held s.world).status x.0 x.1) run-found

      -- The second reconcile writes the host that was found, and nothing else.
      pub IsStage-found :
          IsStage r o host.inventory_host_id true (held (reconcile r name s).1.world)
      unfolding primitives set_status_condition
      IsStage-found =
          rw
            (
              reconcile-found,
              updated-held (held s.world).status (done, none)
                  (chosen r lawful held store host begun_bare)
                  (ap (λ x. x.status) (apart.finds _ s.world)),
            )
            (record {
              uid = stage.uid;
              deleting = stage.deleting;
              owners = stage.owners;
              spec =
                  ap {A = BareMetalInstanceSpec}
                    (λ x. record x { external_host_id = host.inventory_host_id }) stage.spec;
              finalizer = ground (
                arith,
                eq_refl bare_metal_instance_inventory_finalizer,
                lawful.add_finalizer_lem (held s.world).finalizers
                    bare_metal_instance_inventory_finalizer bare_metal_instance_inventory_finalizer,
              );
            })

      pub locks-found : (reconcile r name s).1.locks ≡ s.locks
      unfolding primitives set_status_condition
      locks-found = rw reconcile-found (
          write_status-locks r held store (held s.world).status (done, none)
            (updated r held store (chosen r lawful held store host begun_bare)))

      pub world-found :
          (Q : W → Type 0)
          → ((o : BareMetalInstance) (w : W) → Q w → Q (r.client.update o w).1)
          → ((o : BareMetalInstance) (w : W) → Q w → Q (r.client.update_status o w).1)
          → ((m : Dict String) (w : W) → Q w → Q (r.inventory.find_free_host m w).1)
          → Q s.world
          → Q (reconcile r name s).1.world
      unfolding primitives set_status_condition
      world-found Q quiet quiet_status quiet_find h = rw reconcile-found (
          write_status-world Q quiet_status (held s.world).status (done, none)
            (updated r held store (chosen r lawful held store host begun_bare))
            (quiet _ _ (quiet_find _ _ h)))
