-- ===== src/Instance/Backed.antt =====
-- The theorems on instances and the owners of hosts, at the Metal3 inventory with one host.
use bare_metal_operator.Prelude.{true, false, none, some, [], ◌≡◌, refl}
use bare_metal_operator.Lock.{is_locked}
use bare_metal_operator.Api.Instance.{BareMetalInstance}
use bare_metal_operator.Metal3.{BareMetalHost}
use bare_metal_operator.Metal3.HostId.{parse_host_id, split_once}
use bare_metal_operator.Metal3
use bare_metal_operator.Metal3.Inventory.{inventory_client, claimed_by, release}
use bare_metal_operator.Metal3.Ownership.{owners}
use bare_metal_operator.Metal3.Refinement.{metal3-IsInventory}
use bare_metal_operator.Metal3.Samples.{host, held, server-IsServer, server-IsExact, inventory}
use bare_metal_operator.Instance.State.{Reconciler, State, primitives}
use bare_metal_operator.Instance.Allocate.{reconcile_inventory}
use bare_metal_operator.Instance.Delete.{
  clean_up_inventory, release_inventory, unassign_host, unassign_locked,
}
use bare_metal_operator.Instance.Owners.{owners-clean_up_inventory}
use bare_metal_operator.Instance.Tenure.{rests, runs, owners-Others}
use bare_metal_operator.Instance.Samples.{instance, reconciler_over}

-- The instance names the host, which another instance owns.
abbrev late : BareMetalInstance
late = record instance { spec = record instance.spec { external_host_id = "metal/node-1" } }

abbrev state : State BareMetalHost
state = record {
  object = late;
  calls = [];
  locks = [];
  panicked = false;
  world = claimed_by "uid-2" [] host;
}

abbrev reconciler : Reconciler BareMetalHost
reconciler = reconciler_over (inventory_client inventory)

-- Two runs of the instance, the second with the lock table of the first.
abbrev later : State BareMetalHost
later = (reconcile_inventory reconciler state).1

owners-Others_example :
    owners held
      (reconcile_inventory reconciler (record later { object = late })).1.world
      "metal/node-1"
    ≡ some "uid-2"
unfolding parse_host_id split_once
owners-Others_example =
    owners-Others reconciler (λ labels. true) (owners held)
      (metal3-IsInventory inventory held server-IsServer server-IsExact) (λ o w j. refl) "uid-2"
      "metal/node-1" state.world _
      (runs _ (record later { object = late }) refl refl (runs _ state refl refl (rests _))) refl

-- The host of the other instance has no owner afterwards.
owners-clean_up_inventory_example :
    owners held (clean_up_inventory reconciler state).1.world "metal/node-1" ≡ none
unfolding clean_up_inventory unassign_host unassign_locked primitives is_locked parse_host_id
    split_once Metal3.Inventory.unassign_host release release_inventory
owners-clean_up_inventory_example =
    owners-clean_up_inventory reconciler (λ labels. true) (owners held)
      (metal3-IsInventory inventory held server-IsServer server-IsExact) (λ o w j. refl) state refl
      refl refl refl
