-- ===== src/Pool/Teardown.antt =====
-- handleDeletion of a pool that still has instances.
use bare_metal_operator.Prelude.{
  false, none, List, [], ◌∷◌, ◌≡◌, refl, ap, arith, is_empty, if◌then◌else◌,
}
use bare_metal_operator.Shared.{ok, after}
use bare_metal_operator.Api.Instance.{BareMetalInstance}
use bare_metal_operator.Kube.{status_false}
use bare_metal_operator.Api.Pool
use bare_metal_operator.Api.Pool.{
  BareMetalPool, set_status_condition, deleting, bare_metal_pool_condition_type_ready,
  bare_metal_pool_reason_deleting,
}
use bare_metal_operator.Pool.State.{Reconciler, State, Call, lists, deletes, primitives}
use bare_metal_operator.Pool.Delete.{delete_instances, delete_listed, handle_deletion}

-- One deletion for each instance that is not being deleted, newest first, before earlier calls.
abbrev pub deletions : List BareMetalInstance → List Call → List Call
deletions [] calls = calls
deletions (o ∷ items) calls = deletions items (if o.deleting then calls else deletes o ∷ calls)

module _ {W : Type 0} (r : Reconciler W) where
  delete_instances-pool :
      (items : List BareMetalInstance) (s : State W) → (delete_instances r items s).1.pool ≡ s.pool
  unfolding delete_instances primitives
  delete_instances-pool [] s = refl
  delete_instances-pool (o ∷ items) s =
      let answer = r.client.delete_instance o s.world in
      let deleted = record s { calls = deletes o ∷ s.calls; world = answer.1 } in
      ground (arith, delete_instances-pool items s, delete_instances-pool items deleted)

  delete_instances-calls :
      (items : List BareMetalInstance) (s : State W)
      → (delete_instances r items s).0 ≡ none
      → (delete_instances r items s).1.calls ≡ deletions items s.calls
  unfolding delete_instances primitives
  delete_instances-calls [] s h = refl
  delete_instances-calls (o ∷ items) s h =
      let answer = r.client.delete_instance o s.world in
      let deleted = record s { calls = deletes o ∷ s.calls; world = answer.1 } in
      ground (arith, delete_instances-calls items s, delete_instances-calls items deleted)

  delete_listed_waits :
      (s : State W) (items : List BareMetalInstance)
      → is_empty items ≡ false
      → ((delete_listed r items s).1.pool ≡ s.pool)
        × ((delete_listed r items s).0.1 ≡ none
            → ((delete_listed r items s).1.calls ≡ deletions items s.calls)
              × ((delete_listed r items s).0.0 ≡ after r.host_deletion_poll_interval))
  unfolding delete_listed primitives
  delete_listed_waits s items some_left =
      ground (arith, delete_instances-pool items s, delete_instances-calls items s, some_left)

  abbrev started : State W → State W
  started s = record s {
    pool =
        set_status_condition r.kube bare_metal_pool_condition_type_ready status_false
          "BareMetalPool is being torn down" bare_metal_pool_reason_deleting
          (Pool.set_phase deleting s.pool);
    calls = lists ∷ s.calls;
    world = (r.client.list_instances s.pool.namespace s.pool.uid s.world).1;
  }

  -- While the pool still has instances, handleDeletion leaves the pool's finalizers as they are,
  -- whether or not the deletions of its instances succeed.
  pub handle_deletion_keeps :
      (s : State W) (items : List BareMetalInstance)
      → (r.client.list_instances s.pool.namespace s.pool.uid s.world).0 ≡ ok items
      → is_empty items ≡ false
      → (handle_deletion r s).1.pool.finalizers ≡ s.pool.finalizers
  unfolding handle_deletion set_status_condition primitives
  handle_deletion_keeps s items listed some_left =
      rw listed (ap (λ p. p.finalizers) (delete_listed_waits (started s) items some_left).0)

  -- Where the pool still has instances and handleDeletion returns no error, it has asked for the
  -- deletion of exactly the listed instances that are not being deleted, has made no other call
  -- but the listing, and comes back after the poll interval.
  pub handle_deletion_waits :
      (s : State W) (items : List BareMetalInstance)
      → (r.client.list_instances s.pool.namespace s.pool.uid s.world).0 ≡ ok items
      → is_empty items ≡ false
      → (handle_deletion r s).0.1 ≡ none
      → ((handle_deletion r s).1.calls ≡ deletions items (lists ∷ s.calls))
        × ((handle_deletion r s).0.0 ≡ after r.host_deletion_poll_interval)
  unfolding handle_deletion set_status_condition primitives
  handle_deletion_waits s items listed some_left no_error =
      let waits = (delete_listed_waits (started s) items some_left).1 in
      rw listed (waits (rw listed at no_error))
