-- ===== src/Instance/Locking.antt =====
-- The host locks over a whole reconcile: handler by handler, what holds outside the locked parts.
use bare_metal_operator.Prelude.{String, Bool, true, false, Option, List, [], ◌≡◌, refl, sym, subst}
use bare_metal_operator.Prelude.Dict.{Dict}
use bare_metal_operator.Shared.{Outcome, Error, CtrlResult}
use bare_metal_operator.Inventory.{Host}
use bare_metal_operator.Effect.{Keeps, keeps_rules, Keeps-bind}
use bare_metal_operator.Lock.{HostLocks}
use bare_metal_operator.Kube.{ConditionStatus}
use bare_metal_operator.Api.Instance.{BareMetalInstance, BareMetalInstanceStatus, Phase}
use bare_metal_operator.Instance.State.{
  Reconciler, State, Call, assigns, unassigns, object, perform, change, update, update_status,
  set_condition, set_phase, add_finalizer, remove_finalizer,
}
use bare_metal_operator.Instance.Frame.{
  At, Pushes, is_plain, perform-Keeps, object-Keeps, change-Keeps, find_host-Keeps, lose_host-Keeps,
  accept_host-Keeps, add_finalizer-Keeps, remove_finalizer-Keeps, update-Keeps, update_status-Keeps,
  set_condition-Keeps, set_phase-Keeps, reconcile_management-Keeps, reconcile_deprovisioning-Keeps,
  release_inventory-Keeps, no_provider-Keeps, unconfigured-Keeps,
}
use bare_metal_operator.Instance.Allocate.{
  lose_host, accept_host, find_host, assign_locked, assign_host, allocate, reconcile_inventory,
}
use bare_metal_operator.Instance.Delete.{
  release_inventory, no_provider, unassign_locked, unassign_host, clean_up_inventory,
  release_management, deprovisioned, clean_up_management, handle_deletion,
}
use bare_metal_operator.Instance.Provision.{reconcile_deprovisioning}
use bare_metal_operator.Instance.Manage.{reconcile_management}
use bare_metal_operator.Instance.Reconcile.{
  unconfigured, handle_update, write_status, reconcile_object, read, reconcile,
}
use bare_metal_operator.Instance.Guarding.{
  Guarded, Outside, Inside, Outside-plain, Inside-plain, bracket,
}

module _ {W : Type 0} (r : Reconciler W) where
  assigns-Inside :
      (table : HostLocks) (host uid : String) (labels : Dict String)
      → Pushes (Inside table host) (assigns host uid labels)
  assigns-Inside table host uid labels cs ls p h = record {
    held = h.held;
    guarded = (h.held, h.guarded);
    quiet = h.quiet;
  }

  unassigns-Inside :
      (table : HostLocks) (host : String) (labels : List String)
      → Pushes (Inside table host) (unassigns host labels)
  unassigns-Inside table host labels cs ls p h = record {
    held = h.held;
    guarded = (h.held, h.guarded);
    quiet = h.quiet;
  }

  module _ (table : HostLocks) (host : String) where
    assigned-Inside :
        {A : Type 0} (uid : String) (labels : Dict String) (f : W → A × W)
        → Keeps (At (Inside table host)) (perform (assigns host uid labels) f)
    assigned-Inside uid labels f = perform-Keeps _ _ f (assigns-Inside table host uid labels)

    unassigned-Inside :
        {A : Type 0} (labels : List String) (f : W → A × W)
        → Keeps (At (Inside table host)) (perform (unassigns host labels) f)
    unassigned-Inside labels f = perform-Keeps _ _ f (unassigns-Inside table host labels)

    kept_object : Keeps (At (Inside table host)) (object {W = W})
    kept_object = object-Keeps (Inside table host)

    kept_lose : Keeps (At (Inside table host)) (lose_host r)
    kept_lose = lose_host-Keeps r (Inside table host) (Inside-plain table host)

    kept_accept : (h : Host) → Keeps (At (Inside table host)) (accept_host r h)
    kept_accept = accept_host-Keeps r (Inside table host) (Inside-plain table host)

    kept_release : Keeps (At (Inside table host)) (release_inventory r)
    kept_release = release_inventory-Keeps r (Inside table host) (Inside-plain table host)

    assign_locked-Inside : Keeps (At (Inside table host)) (assign_locked r host)
    unfolding assign_locked
    assign_locked-Inside =
        search (keeps_rules, kept_object, assigned-Inside, kept_lose, kept_accept) depth 9

    unassign_locked-Inside : Keeps (At (Inside table host)) (unassign_locked r host)
    unfolding unassign_locked
    unassign_locked-Inside =
        search (keeps_rules, kept_object, unassigned-Inside, kept_release) depth 9

  module _ (table : HostLocks) where
    abbrev push : (c : Call) → is_plain c ≡ true → Pushes (Outside table) c
    push = Outside-plain table

    outside_object : Keeps (At (Outside table)) (object {W = W})
    outside_object = object-Keeps (Outside table)

    assign_host-Outside : Keeps (At (Outside table)) (assign_host r)
    unfolding assign_host
    assign_host-Outside =
        Keeps-bind _ _ outside_object
          (λ o. bracket o.spec.external_host_id _ _ table (λ t. assign_locked-Inside t _))

    unassign_host-Outside : (host : String) → Keeps (At (Outside table)) (unassign_host r host)
    unfolding unassign_host
    unassign_host-Outside host = bracket host _ _ table (λ t. unassign_locked-Inside t host)

    find_host_out : Keeps (At (Outside table)) (find_host r)
    find_host_out = find_host-Keeps r (Outside table) push

    add_finalizer_out : (f : String) → Keeps (At (Outside table)) (add_finalizer r f)
    add_finalizer_out = add_finalizer-Keeps r (Outside table) push

    remove_finalizer_out : (f : String) → Keeps (At (Outside table)) (remove_finalizer r f)
    remove_finalizer_out = remove_finalizer-Keeps r (Outside table) push

    update_out : Keeps (At (Outside table)) (update r)
    update_out = update-Keeps r (Outside table) push

    update_status_out : Keeps (At (Outside table)) (update_status r)
    update_status_out = update_status-Keeps r (Outside table) push

    set_condition_out :
        (kind : String) (status : ConditionStatus) (reason message : String)
        → Keeps (At (Outside table)) (set_condition r kind status reason message)
    set_condition_out = set_condition-Keeps r (Outside table) push

    set_phase_out : (phase : Phase) → Keeps (At (Outside table)) (set_phase r phase)
    set_phase_out = set_phase-Keeps r (Outside table) push

    reconcile_management_out : Keeps (At (Outside table)) (reconcile_management r)
    reconcile_management_out = reconcile_management-Keeps r (Outside table) push

    reconcile_deprovisioning_out : Keeps (At (Outside table)) (reconcile_deprovisioning r)
    reconcile_deprovisioning_out = reconcile_deprovisioning-Keeps r (Outside table) push

    release_inventory_out : Keeps (At (Outside table)) (release_inventory r)
    release_inventory_out = release_inventory-Keeps r (Outside table) push

    no_provider_out : Keeps (At (Outside table)) (no_provider r)
    no_provider_out = no_provider-Keeps r (Outside table) push

    unconfigured_out : Keeps (At (Outside table)) (unconfigured r)
    unconfigured_out = unconfigured-Keeps r (Outside table) push

    ruleset outside = (
      keeps_rules, outside_object, add_finalizer_out, remove_finalizer_out, update_out,
      update_status_out, set_condition_out, set_phase_out,
    )

    allocate-Outside : Keeps (At (Outside table)) (allocate r)
    unfolding allocate
    allocate-Outside = search (outside, find_host_out, assign_host-Outside) depth 9

    reconcile_inventory-Outside : Keeps (At (Outside table)) (reconcile_inventory r)
    unfolding reconcile_inventory
    reconcile_inventory-Outside = search (outside, allocate-Outside) depth 9

    handle_update-Outside : Keeps (At (Outside table)) (handle_update r)
    unfolding handle_update
    handle_update-Outside =
        search (outside, unconfigured_out, reconcile_inventory-Outside, reconcile_management_out)
          depth 9

    clean_up_inventory-Outside : Keeps (At (Outside table)) (clean_up_inventory r)
    unfolding clean_up_inventory
    clean_up_inventory-Outside =
        search (outside, release_inventory_out, unassign_host-Outside) depth 9

    release_management-Outside : Keeps (At (Outside table)) (release_management r)
    unfolding release_management
    release_management-Outside = search (outside, clean_up_inventory-Outside) depth 9

    deprovisioned-Outside :
        (d : CtrlResult × Bool × Option Error) → Keeps (At (Outside table)) (deprovisioned r d)
    unfolding deprovisioned
    deprovisioned-Outside (result, is_done, e) =
        search (outside, release_management-Outside) depth 9

    clean_up_management-Outside : Keeps (At (Outside table)) (clean_up_management r)
    unfolding clean_up_management
    clean_up_management-Outside =
        search
          (
            outside, no_provider_out, reconcile_deprovisioning_out, deprovisioned-Outside,
            release_management-Outside,
          )
          depth 9

    handle_deletion-Outside : Keeps (At (Outside table)) (handle_deletion r)
    unfolding handle_deletion
    handle_deletion-Outside =
        search (outside, clean_up_management-Outside, clean_up_inventory-Outside) depth 9

    write_status-Outside :
        (old : BareMetalInstanceStatus) (outcome : Outcome)
        → Keeps (At (Outside table)) (write_status r old outcome)
    unfolding write_status
    write_status-Outside old outcome = search outside depth 9

    change_out :
        (f : BareMetalInstance → BareMetalInstance) → Keeps (At (Outside table)) (change {W = W} f)
    change_out f = change-Keeps (Outside table) f

    reconcile_object-Outside :
        (o : BareMetalInstance) → Keeps (At (Outside table)) (reconcile_object r o)
    unfolding reconcile_object
    reconcile_object-Outside o =
        search
          (
            outside, change_out, handle_deletion-Outside, handle_update-Outside,
            write_status-Outside,
          )
          depth 9

    read-Outside : (name : String) → Keeps (At (Outside table)) (read r name)
    unfolding read
    read-Outside name = record { at = λ s h. h }

    reconcile-Outside : (name : String) → Keeps (At (Outside table)) (reconcile r name)
    unfolding reconcile
    reconcile-Outside name = search (outside, read-Outside, reconcile_object-Outside) depth 9

  -- A reconcile of any object that starts without a panic, whatever the API server, the inventory,
  -- the management backend and the provisioning library answer, does not panic, leaves every host
  -- lock as it was, and makes each call that assigns or unassigns a host under the lock of that
  -- host.
  pub reconcile_locks :
      (name : String) (s : State W)
      → s.calls ≡ []
      → s.panicked ≡ false
      → Outside s.locks
          (reconcile r name s).1.calls
          (reconcile r name s).1.locks
          (reconcile r name s).1.panicked
  reconcile_locks name s fresh calm = (reconcile-Outside s.locks name).at s (record {
    guarded = subst Guarded (sym fresh) tt;
    quiet = record { same = λ j. refl; calm = calm };
  })
