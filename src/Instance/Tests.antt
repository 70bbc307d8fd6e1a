-- ===== src/Instance/Tests.antt =====
-- The theorems on instances at a sample instance whose host is assigned, with servers that answer
-- every call with success, and with an inventory that refuses to unassign.
use bare_metal_operator.Prelude.{
  true, false, Option, none, some, [], ◌∷◌, ◌≡◌, refl, arith, contains,
}
use bare_metal_operator.Prelude.Dict.{lookup, insert, copy}
use bare_metal_operator.Prelude.Int.{pos}
use bare_metal_operator.Shared.{Error, new, ok, done}
use bare_metal_operator.Lock.{is_locked}
use bare_metal_operator.Api.Instance.{
  BareMetalInstance, always, same_strategy, host_condition_power_synced, is_status_condition_true,
  get_status_condition, set_status_condition, get_pool_id, pool_id_of,
}
use bare_metal_operator.Inventory.{Host}
use bare_metal_operator.Management.{PowerStatus, power_on, power_off, is_on}
use bare_metal_operator.Instance.State.{
  Reconciler, State, updates, unassigns, locked, unlocked, restarts, checks_restart, primitives,
}
use bare_metal_operator.Instance.Allocate.{combined_labels}
use bare_metal_operator.Instance.Power.{sync_status, settled}
use bare_metal_operator.Instance.Restart.{reconcile_restart_trigger}
use bare_metal_operator.Instance.Manage.{settle}
use bare_metal_operator.Instance.Delete.{clean_up_inventory, labels_to_remove}
use bare_metal_operator.Instance.Reconcile.{reconcile, handle_update}
use bare_metal_operator.Instance.Locking
use bare_metal_operator.Instance.Guarding.{Outside}
use bare_metal_operator.Instance.Labels
use bare_metal_operator.Instance.Labels.{text_or}
use bare_metal_operator.Instance.Finalizers
use bare_metal_operator.Instance.Finalizers.{
  assigns_host, has_inventory_finalizer, without_inventory_finalizer,
}
use bare_metal_operator.Instance.Settling
use bare_metal_operator.Instance.Settling.{put_trigger}
use bare_metal_operator.Instance.Samples.{instance, reconciler_over}
use bare_metal_operator.Samples.{kube, kube-IsLawful, find_in}

abbrev bare_instance : BareMetalInstance
bare_instance = record instance { finalizers = [] }

abbrev host : Host
host = record {
  bare_metal_pool_id = "";
  bare_metal_instance_id = "uid-1";
  inventory_host_id = "host-1";
  name = "rack-1";
  host_type = "fc430";
  host_class = "metal3";
  network_class = "flat";
  provision_state = "available";
  managed_by = "baremetal";
}

-- An inventory whose answer to an unassignment is given.
abbrev reconciler_of : Option Error → Reconciler (Unit {0})
reconciler_of unassign_answer = reconciler_over (record {
  find_free_host = λ m w. (ok (some host), w);
  assign_host = λ h uid m w. (ok (some host), w);
  unassign_host = λ h labels w. (unassign_answer, w);
})

abbrev reconciler : Reconciler (Unit {0})
reconciler = reconciler_of none

abbrev refusing : Reconciler (Unit {0})
refusing = reconciler_of (some (new "refused"))

abbrev state_of : BareMetalInstance → State (Unit {0})
state_of o = record { object = o; calls = []; locks = []; panicked = false; world = tt }

abbrev at_rest : PowerStatus
at_rest = record { state = power_on; is_transitioning = false }

abbrev moving : PowerStatus
moving = record { state = power_off; is_transitioning = true }

reconcile_locks_example :
    Outside []
      (reconcile reconciler "node" (state_of instance)).1.calls
      (reconcile reconciler "node" (state_of instance)).1.locks
      (reconcile reconciler "node" (state_of instance)).1.panicked
reconcile_locks_example = Locking.reconcile_locks reconciler "node" (state_of instance) refl refl

assigns_host-handle_update_example :
    assigns_host (handle_update reconciler (state_of bare_instance)).1.calls ≡ false
assigns_host-handle_update_example =
    Finalizers.assigns_host-handle_update reconciler kube-IsLawful (state_of bare_instance) refl
      refl

clean_up_inventory_refused_example :
    ((clean_up_inventory refusing (state_of instance)).0 ≡ (done, some (new "refused")))
    × ((clean_up_inventory refusing (state_of instance)).1.object ≡ instance)
    × ((clean_up_inventory refusing (state_of instance)).1.calls
        ≡ unlocked "host-1"
          ∷ unassigns "host-1" (labels_to_remove kube instance)
          ∷ locked "host-1"
          ∷ [])
unfolding is_locked
clean_up_inventory_refused_example =
    Finalizers.clean_up_inventory_refused refusing (state_of instance) (new "refused") refl refl
      refl refl

clean_up_inventory_released_example :
    (has_inventory_finalizer reconciler (without_inventory_finalizer reconciler instance) ≡ false)
    × ((clean_up_inventory reconciler (state_of instance)).0.1 ≡ none)
    × ((clean_up_inventory reconciler (state_of instance)).1.calls
        ≡ unlocked "host-1"
          ∷ updates (without_inventory_finalizer reconciler instance)
          ∷ unassigns "host-1" (labels_to_remove kube instance)
          ∷ locked "host-1"
          ∷ [])
unfolding is_locked
clean_up_inventory_released_example =
    Finalizers.clean_up_inventory_released reconciler kube-IsLawful (state_of instance) refl refl
      refl refl

lookup-combined_labels_example : lookup "os" (combined_labels reconciler instance) ≡ some "rhcos"
unfolding get_pool_id pool_id_of lookup
lookup-combined_labels_example =
    Labels.lookup-combined_labels reconciler instance "os" (refl, (refl, tt)) (refl, tt)

labels_to_remove_complete_example : contains (labels_to_remove kube instance) "site" ≡ true
unfolding combined_labels copy insert get_pool_id pool_id_of lookup
labels_to_remove_complete_example =
    Labels.labels_to_remove_complete reconciler instance "site" "a" (refl, (refl, tt)) (refl, tt)
      refl refl

persistent_label_removed_example :
    (lookup "os" (combined_labels reconciler instance) ≡ some "rhcos")
    × (contains (labels_to_remove kube instance) "os" ≡ true)
unfolding lookup
persistent_label_removed_example =
    Labels.persistent_label_removed reconciler instance "os" "rhcos" "rhel" (refl, (refl, tt))
      (refl, tt) refl refl refl

settle_ready_example :
    (at_rest.is_transitioning ≡ false)
    × (is_on at_rest.state ≡ same_strategy always always)
    × ((settle reconciler at_rest (state_of instance)).1.object.status.run_strategy ≡ always)
    × (is_status_condition_true kube host_condition_power_synced
          (settle reconciler at_rest (state_of instance)).1.object
        ≡ true)
unfolding settle sync_status settled set_status_condition primitives
settle_ready_example =
    Settling.settle_ready reconciler kube-IsLawful at_rest (state_of instance)
      (λ e. absurd (ground (arith, e))) refl

restart_once_example :
    let next = (reconcile_restart_trigger reconciler (state_of instance)).1 in
    (next.object.status.restart_trigger ≡ pos 1)
    × ((reconcile_restart_trigger reconciler next).1.calls
        ≡ checks_restart "host-1" ∷ restarts "host-1" ∷ [])
unfolding get_status_condition find_in
restart_once_example =
    Settling.restart_once reconciler kube-IsLawful (state_of instance) refl refl refl refl refl

restart_lost_example :
    let waiting = (settle reconciler moving (state_of instance)).1 in
    let asked = record waiting { object = put_trigger (pos 5) waiting.object } in
    ((reconcile_restart_trigger reconciler asked).1.object.status.restart_trigger ≡ pos 5)
    × ((reconcile_restart_trigger reconciler asked).1.calls ≡ checks_restart "host-1" ∷ [])
restart_lost_example =
    Settling.restart_lost reconciler kube-IsLawful moving (state_of instance) (pos 5) refl refl refl
      refl
