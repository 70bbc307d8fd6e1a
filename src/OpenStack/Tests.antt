-- ===== src/OpenStack/Tests.antt =====
-- The theorems on the OpenStack backends at a server with one node.
use bare_metal_operator.Prelude.{◌≤◌, false, not, [], ◌∷◌, ◌≡◌}
use bare_metal_operator.Prelude.Dict.{lookup}
use bare_metal_operator.Profile.{is_some}
use bare_metal_operator.Inventory.Contract.{IsInventory}
use bare_metal_operator.Management.{power_on}
use bare_metal_operator.Metal3.HostId.{has_slash}
use bare_metal_operator.OpenStack.Pointer.{
  escape_json_pointer_token, unescape, escape_json_pointer_token_lem,
}
use bare_metal_operator.OpenStack.Inventory.{
  bare_metal_instance_id_label, assign_host, unassign_host, inventory_client,
}
use bare_metal_operator.OpenStack.Management.{
  get_power_state, set_power_state, trigger_restart, is_restart_complete,
}
use bare_metal_operator.OpenStack.Retries.{cost-management, cost-inventory}
use bare_metal_operator.OpenStack.Owners.{owners}
use bare_metal_operator.OpenStack.Backend.{openstack-IsInventory}
use bare_metal_operator.OpenStack.Samples.{
  held, ironic, ironic-IsMetered, ironic-IsIronic, backend, session,
}

escape_json_pointer_token_example :
    (unescape (escape_json_pointer_token "a/b~1") ≡ "a/b~1")
    × (has_slash (escape_json_pointer_token "a/b~1") ≡ false)
escape_json_pointer_token_example = escape_json_pointer_token_lem "a/b~1"

-- The reads and the writes of the power state with the client that has expired: two requests and a
-- new client, which counts as ten.
cost-management_example :
    ((get_power_state ironic "node-1" session).1.world.spent ≤ 12)
    × ((set_power_state ironic "node-1" power_on session).1.world.spent ≤ 12)
    × ((trigger_restart ironic "node-1" session).1.world.spent ≤ 12)
    × ((is_restart_complete ironic "node-1" session).1.world.spent ≤ 12)
cost-management_example =
    cost-management ironic (λ w. w.spent) 1 10 ironic-IsMetered "node-1" power_on session

cost-inventory_example :
    ((assign_host backend "node-1" "uid-1" (("os", "rhel") ∷ []) session).1.world.spent ≤ 16)
    × ((unassign_host backend "node-1" ("os" ∷ []) session).1.world.spent ≤ 14)
cost-inventory_example =
    cost-inventory backend (λ w. w.spent) 1 10 ironic-IsMetered "node-1" "uid-1"
      (("os", "rhel") ∷ []) ("os" ∷ []) session

openstack-IsInventory_example :
    IsInventory
      (inventory_client backend)
      (λ added. not (is_some (lookup bare_metal_instance_id_label added)))
      (λ s. owners held s.world)
openstack-IsInventory_example = openstack-IsInventory backend held ironic-IsIronic
