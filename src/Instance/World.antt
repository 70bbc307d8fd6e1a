-- ===== src/Instance/World.antt =====
-- A property of the world behind the clients, through the allocation and the release of a host:
-- reconcileInventory and the inventory part of handleDeletion.
use bare_metal_operator.Prelude.{
  String, Option, none, some, ◌≡◌, arith, ◌==◌, inl, inr, Bool-cases, Option-cases,
}
use bare_metal_operator.Prelude.Dict.{Dict}
use bare_metal_operator.Shared.{Outcome, Res, done, bare_metal_instance_inventory_finalizer}
use bare_metal_operator.Effect.{Keeps, keeps_rules, ◌>>=◌, ◌>>◌, pure, on_res, on_option}
use bare_metal_operator.Kube.{status_false, ConditionStatus}
use bare_metal_operator.Lock
use bare_metal_operator.Lock.{is_locked, try_lock_lem}
use bare_metal_operator.Api.Instance.{
  allocating, host_condition_allocated, host_condition_reason_progressing, get_pool_id,
  BareMetalInstance, Phase, set_status_condition,
}
use bare_metal_operator.Inventory.{Host}
use bare_metal_operator.Instance.State.{
  Reconciler, State, Handler, Call, object, change, perform, update, set_condition, set_phase,
  try_lock, unlock, add_finalizer, remove_finalizer, primitives,
}
use bare_metal_operator.Instance.Allocate.{
  combined_labels, no_matching_hosts, keep_host, find_host, lose_host, mark_allocated, accept_host,
  assign_locked, assign_host, allocate, reconcile_inventory,
}
use bare_metal_operator.Instance.Delete.{labels_to_remove, release_inventory, unassign_locked}

-- What holds of the world behind the clients, kept by the writes of the object and by a search.
module _ {W : Type 0} (r : Reconciler W) (Q : W → Type 0)
    (quiet : (o : BareMetalInstance) (w : W) → Q w → Q (r.client.update o w).1)
    (finds : (m : Dict String) (w : W) → Q w → Q (r.inventory.find_free_host m w).1) where
  abbrev pub AtWorld : State W → Type 0
  AtWorld s = Q s.world

  object-Keeps : Keeps AtWorld object
  unfolding object
  object-Keeps = record { at = λ s h. h }

  change-Keeps : (f : BareMetalInstance → BareMetalInstance) → Keeps AtWorld (change f)
  unfolding change
  change-Keeps f = record { at = λ s h. h }

  update-Keeps : Keeps AtWorld (update r)
  unfolding primitives
  update-Keeps = record { at = λ s h. quiet s.object s.world h }

  find-Keeps :
      (c : Call) (m : Dict String) → Keeps AtWorld (perform c (r.inventory.find_free_host m))
  unfolding perform
  find-Keeps c m = record { at = λ s h. finds m s.world h }

  set_condition-Keeps :
      (kind : String) (status : ConditionStatus) (reason message : String)
      → Keeps AtWorld (set_condition r kind status reason message)
  unfolding set_condition
  set_condition-Keeps kind status reason message = search (keeps_rules, change-Keeps)

  set_phase-Keeps : (phase : Phase) → Keeps AtWorld (set_phase r phase)
  unfolding set_phase
  set_phase-Keeps phase = search (keeps_rules, change-Keeps)

  ruleset writes = (
    keeps_rules, object-Keeps, change-Keeps, update-Keeps, find-Keeps, set_condition-Keeps,
    set_phase-Keeps,
  )

  find_host-Keeps : Keeps AtWorld (find_host r)
  unfolding find_host no_matching_hosts keep_host
  find_host-Keeps = search writes depth 9

  lose_host-Keeps : Keeps AtWorld (lose_host r)
  unfolding lose_host
  lose_host-Keeps = search writes depth 9

  accept_host-Keeps : (host : Host) → Keeps AtWorld (accept_host r host)
  unfolding accept_host mark_allocated
  accept_host-Keeps host = search writes depth 9

  answered-Keeps :
      (x : Res (Option Host))
      → Keeps AtWorld (
          on_res x
            (λ e. pure (done, some e))
            (λ host. on_option host (lose_host r) (accept_host r)))
  answered-Keeps x = search (keeps_rules, lose_host-Keeps, accept_host-Keeps) depth 9

  -- The part under the lock, once the assignment itself keeps the property.
  assign_locked-world :
      (host_id : String) (s : State W)
      → Q (r.inventory.assign_host host_id s.object.uid (combined_labels r s.object) s.world).1
      → Q (assign_locked r host_id s).1.world
  unfolding assign_locked primitives
  assign_locked-world host_id s h =
      (answered-Keeps
          (r.inventory.assign_host host_id s.object.uid (combined_labels r s.object) s.world).0).at
        _ h

  -- No assignment for the object's instance, with its labels, loses the property.
  abbrev Safe : BareMetalInstance → W → Type 0
  Safe o w =
      (host_id : String) → Q (r.inventory.assign_host host_id o.uid (combined_labels r o) w).1

  unlock-Keeps : (host_id : String) → Keeps AtWorld (unlock host_id)
  unfolding unlock
  unlock-Keeps host_id = record {
    at = λ s h. elim (Option-cases (Lock.unlock host_id s.locks)) [
      | inl panics ↦ rw panics h
      | inr (locks, unlocked) ↦ rw unlocked h
    ];
  }

  remove_finalizer-Keeps : (f : String) → Keeps AtWorld (remove_finalizer r f)
  unfolding remove_finalizer
  remove_finalizer-Keeps f = record { at = λ s h. h }

  release_inventory-Keeps : Keeps AtWorld (release_inventory r)
  unfolding release_inventory
  release_inventory-Keeps = search (keeps_rules, remove_finalizer-Keeps, update-Keeps) depth 9

  -- The part under the lock that gives a host up, where no error comes back.
  pub unassign_locked-world :
      (host_id : String) (s : State W)
      → ((r.inventory.unassign_host host_id (labels_to_remove r.kube s.object) s.world).0 ≡ none
          → Q (r.inventory.unassign_host host_id (labels_to_remove r.kube s.object) s.world).1)
      → (unassign_locked r host_id s).0.1 ≡ none
      → Q (unassign_locked r host_id s).1.world
  unfolding unassign_locked primitives
  unassign_locked-world host_id s freed silent =
      elim (Option-cases
        (r.inventory.unassign_host host_id (labels_to_remove r.kube s.object) s.world).0) [
          | inl accepted ↦ rw accepted (release_inventory-Keeps.at _ (freed accepted))
          | inr (e, denied) ↦ absurd (ground (arith, rw denied at silent))
        ]

  pub unlocking-world :
      (host_id : String) (locked : Handler W Outcome) (s : State W)
      → Q (locked s).1.world
      → Q ((do outcome ← locked; unlock host_id; pure outcome) s).1.world
  unfolding ◌>>=◌
  unlocking-world host_id locked s h = (unlock-Keeps host_id).at (locked s).1 h

  assign_host-world :
      (s : State W) → Safe s.object s.world → Q s.world → Q (assign_host r s).1.world
  unfolding assign_host object try_lock ◌>>=◌
  assign_host-world s safe h =
      elim (Bool-cases (Lock.try_lock s.object.spec.external_host_id s.locks).0) [
        | inl got ↦ rw got (
            unlocking-world s.object.spec.external_host_id
              (assign_locked r s.object.spec.external_host_id) _
              (assign_locked-world s.object.spec.external_host_id _
                (safe s.object.spec.external_host_id)))
        | inr busy ↦ rw busy h
      ]

  allocate-world : (s : State W) → Safe s.object s.world → Q s.world → Q (allocate r s).1.world
  unfolding allocate object ◌>>=◌
  allocate-world s safe h = elim (Bool-cases (s.object.spec.external_host_id == "")) [
    | inl bare ↦ rw bare (find_host-Keeps.at s h)
    | inr named ↦ rw named (assign_host-world s safe h)
  ]

  pub reconcile_inventory-world :
      (s : State W) → Safe s.object s.world → Q s.world → Q (reconcile_inventory r s).1.world
  unfolding reconcile_inventory primitives set_status_condition combined_labels get_pool_id
  reconcile_inventory-world s safe h =
      elim (Bool-cases
        (r.kube.add_finalizer s.object.finalizers bare_metal_instance_inventory_finalizer).0) [
          | inl added ↦ rw added (quiet _ s.world h)
          | inr present ↦ rw present (
              allocate-world
                (add_finalizer r bare_metal_instance_inventory_finalizer
                  (set_condition r host_condition_allocated status_false
                    host_condition_reason_progressing "Allocating BareMetalInstance"
                    (set_phase r allocating s).1).1).1
                safe h)
        ]
