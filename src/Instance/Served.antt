-- ===== src/Instance/Served.antt =====
-- One reconcile of an instance over an API server that accepts every write: what it reads first, and
-- what its last write leaves.
use bare_metal_operator.Prelude.{
  String, List, true, false, not, ◌&&◌, none, ◌≡◌, refl, sym, ap, ◌∙◌, ◌∷◌, arith, ◌==◌, inl, inr,
  Bool-cases, Option-cases,
}
use bare_metal_operator.Prelude.Dict.{Dict}
use bare_metal_operator.Inventory
use bare_metal_operator.Shared.{ok, Outcome, runs_template}
use bare_metal_operator.Lock
use bare_metal_operator.Lock.{HostLocks}
use bare_metal_operator.Api.Instance.{BareMetalInstance, BareMetalInstanceStatus}
use bare_metal_operator.Instance.State.{
  Reconciler, ObjectClient, State, updates, update, unlock, primitives,
}
use bare_metal_operator.Instance.Allocate.{reconcile_inventory}
use bare_metal_operator.Instance.Delete.{handle_deletion}
use bare_metal_operator.Instance.Reconcile.{
  handle_update, write_status, reconcile_object, read, reconcile,
}

-- The API server holds the object, with the status as a subresource: an update leaves the status
-- that the server has, and an update of the status leaves all else. The comparison of statuses is
-- sound.
pub record IsStore {W : Type 0} (client : ObjectClient W) (held : W → BareMetalInstance)
    : Type 0 where
  pub gets : (name : String) (w : W) → client.get name w ≡ (ok (held w), w)
  pub writes :
      (o : BareMetalInstance) (w : W)
      → ((client.update o w).0 ≡ ok (held (client.update o w).1))
        × (held (client.update o w).1 ≡ record o { status = (held w).status })
  pub writes_status :
      (o : BareMetalInstance) (w : W)
      → ((client.update_status o w).0 ≡ ok (held (client.update_status o w).1))
        × (held (client.update_status o w).1 ≡ record (held w) { status = o.status })
  pub compares : (new old : BareMetalInstanceStatus) → client.same_status new old ≡ true → new ≡ old

-- No call of the inventory writes the object.
pub record IsApart {W : Type 0} (inventory : Inventory.Client W) (held : W → BareMetalInstance)
    : Type 0 where
  pub finds :
      (match_expressions : Dict String) (w : W)
      → held (inventory.find_free_host match_expressions w).1 ≡ held w
  pub assigns :
      (host_id instance_id : String) (labels : Dict String) (w : W)
      → held (inventory.assign_host host_id instance_id labels w).1 ≡ held w
  pub unassigns :
      (host_id : String) (labels : List String) (w : W)
      → held (inventory.unassign_host host_id labels w).1 ≡ held w

module _ {W : Type 0} where
  -- The unlocking changes neither the object nor the world.
  pub unlock-kept :
      (host_id : String) (t : State W)
      → ((unlock host_id t).1.object ≡ t.object) × ((unlock host_id t).1.world ≡ t.world)
  unfolding unlock
  unlock-kept host_id t = elim (Option-cases (Lock.unlock host_id t.locks)) [
    | inl panics ↦ rw panics (refl, refl)
    | inr (locks, unlocked) ↦ rw unlocked (refl, refl)
  ]

module _ {W : Type 0} (r : Reconciler W) (held : W → BareMetalInstance)
    (store : IsStore r.client held) where
  -- The state with the object that the server holds.
  abbrev pub loaded : State W → State W
  loaded s = record s { object = held s.world }

  pub reconcile-inventory :
      (name : String) (s : State W)
      → (held s.world).deleting ≡ false
      → (runs_template (held s.world).spec.template_id && not r.has_provider) ≡ false
      → ((held s.world).spec.host_class == "") ≡ true
      → let run = reconcile_inventory r (loaded s) in
        reconcile r name s ≡ write_status r (held s.world).status run.0 run.1
  unfolding reconcile read reconcile_object handle_update primitives
  reconcile-inventory name s alive runnable bare =
      rw (store.gets name s.world, alive, runnable, bare) refl

  pub reconcile-deletion :
      (name : String) (s : State W)
      → (held s.world).deleting ≡ true
      → let run = handle_deletion r (loaded s) in
        reconcile r name s ≡ write_status r (held s.world).status run.0 run.1
  unfolding reconcile read reconcile_object primitives
  reconcile-deletion name s deleted = rw (store.gets name s.world, deleted) refl

  -- The state after an update: the server's answer is the object in memory.
  abbrev pub updated : State W → State W
  updated t = record t {
    object = held (r.client.update t.object t.world).1;
    calls = updates t.object ∷ t.calls;
    world = (r.client.update t.object t.world).1;
  }

  pub update-updated : (t : State W) → update r t ≡ (none, updated t)
  unfolding primitives
  update-updated t = rw (store.writes t.object t.world).0 refl

  -- The last write leaves the status that the handlers made.
  pub write_status-held :
      (old : BareMetalInstanceStatus) (outcome : Outcome) (t : State W)
      → (held t.world).status ≡ old
      → held (write_status r old outcome t).1.world
        ≡ record (held t.world) { status = t.object.status }
  unfolding write_status primitives
  write_status-held old outcome t kept =
      elim (Bool-cases (r.client.same_status t.object.status old)) [
        | inl same ↦ rw same (
            ap (λ x. record (held t.world) { status = x })
              (kept ∙ sym (store.compares t.object.status old same)))
        | inr changed ↦
            rw (changed, (store.writes_status t.object t.world).0)
              (store.writes_status t.object t.world).1
      ]

  pub write_status-locks :
      (old : BareMetalInstanceStatus) (outcome : Outcome) (t : State W)
      → (write_status r old outcome t).1.locks ≡ t.locks
  unfolding write_status primitives
  write_status-locks old outcome t = ground arith
