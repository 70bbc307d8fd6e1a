-- ===== src/Metal3/Tests.antt =====
-- The theorems on the Metal3 backend at a server that holds one host.
use mathlib.Core.List.{Memᴰ}
use bare_metal_operator.Prelude.{true, false, none, some, List, [], ◌∷◌, ◌≡◌, refl}
use bare_metal_operator.Prelude.Dict.{lookup}
use bare_metal_operator.Shared.{wrap, transitioning, ok}
use bare_metal_operator.Effect.{◌>>=◌}
use bare_metal_operator.Inventory.Contract.{IsInventory}
use bare_metal_operator.Inventory.{Host}
use bare_metal_operator.Management.{power_on, power_off}
use bare_metal_operator.Metal3.{BareMetalHost}
use bare_metal_operator.Metal3.HostId
use bare_metal_operator.Metal3.HostId.{parse_host_id, split_once, host_id_of, has_slash}
use bare_metal_operator.Metal3.Inventory.{
  bmh_to_host, claim, assign_host, unassign_host, release, claimed_by, find_free_host,
  inventory_client, candidates, is_candidate, choose,
}
use bare_metal_operator.Metal3.Management
use bare_metal_operator.Metal3.Management.{
  set_power_state, get_power_state, trigger_restart, is_restart_complete, get_bmh, move_to,
  patch_online, reboot,
}
use bare_metal_operator.Metal3.Claims
use bare_metal_operator.Metal3.Ownership
use bare_metal_operator.Metal3.Refinement
use bare_metal_operator.Metal3.Samples.{
  host, held, server, server-IsServer, server-IsExact, inventory,
}
use bare_metal_operator.Metal3.Free
use bare_metal_operator.Metal3.Reboots

abbrev management : Management.Metal3Client BareMetalHost
management = record { server = server; namespace = "metal" }

host_id-parsed : parse_host_id "metal/node-1" ≡ ok ("metal", "node-1")
unfolding parse_host_id split_once
host_id-parsed = refl

claim-Names : Claims.Names inventory held server-IsServer "metal/node-1" host host
claim-Names = record { nonempty = refl; parsed = host_id-parsed; found = refl }

reboot-Names : Reboots.Names management held server-IsServer "metal/node-1" host host
reboot-Names = record { parsed = host_id-parsed; inside = refl; found = refl }

abbrev given : Host
given = bmh_to_host (claimed_by "uid-1" (("os", "rhel") ∷ []) host) "metal3" "flat"

assign_host_exclusive_example :
    assign_host inventory "metal/node-1" "uid-2" []
      (assign_host inventory "metal/node-1" "uid-1" (("os", "rhel") ∷ []) host).1
    ≡ (ok none, (assign_host inventory "metal/node-1" "uid-1" (("os", "rhel") ∷ []) host).1)
unfolding assign_host claim parse_host_id split_once ◌>>=◌
assign_host_exclusive_example =
    Claims.assign_host_exclusive inventory held server-IsServer "metal/node-1" "uid-1" "uid-2"
      (("os", "rhel") ∷ []) [] host host given claim-Names refl refl refl refl

-- A host of an instance, with two labels.
abbrev held_host : BareMetalHost
held_host = claimed_by "uid-1" (("os", "rhel") ∷ ("site", "a") ∷ []) host

unassign_host_frees_example :
    (c : BareMetalHost) × (held "metal" "node-1"
        (unassign_host inventory "metal/node-1" ("os" ∷ []) held_host).1
      ≡ ok c)
    × Claims.IsFreed inventory held server-IsServer ("os" ∷ []) held_host c
unfolding unassign_host release parse_host_id split_once ◌>>=◌
unassign_host_frees_example =
    Claims.unassign_host_frees inventory held server-IsServer "metal/node-1" ("os" ∷ []) held_host
      held_host (record { nonempty = refl; parsed = host_id-parsed; found = refl }) refl

-- A host that is on, to be switched off.
abbrev running : BareMetalHost
running = record host { online = true; powered_on = true }

get_power_state-set_power_state_example :
    let next = (set_power_state management "metal/node-1" power_off running).1 in
    ((get_power_state management "metal/node-1" next).0
      ≡ ok (some (record { state = power_on; is_transitioning = true })))
    × (held "metal" "node-1" next ≡ ok (record running { online = false }))
unfolding set_power_state move_to patch_online get_bmh parse_host_id split_once ◌>>=◌
get_power_state-set_power_state_example =
    Reboots.get_power_state-set_power_state management held server-IsServer "metal/node-1" false
      running running (record { parsed = host_id-parsed; inside = refl; found = refl }) refl refl

is_restart_complete-trigger_restart_example :
    let next = (trigger_restart management "metal/node-1" host).1 in
    ((is_restart_complete management "metal/node-1" next).0 ≡ ok false)
    × (trigger_restart management "metal/node-1" next
        ≡ (some (wrap "host metal/node-1" transitioning), next))
unfolding trigger_restart reboot get_bmh parse_host_id split_once lookup ◌>>=◌
is_restart_complete-trigger_restart_example =
    Reboots.is_restart_complete-trigger_restart management held server-IsServer "metal/node-1" host
      host reboot-Names refl

parse_host_id-host_id_of_example :
    parse_host_id (host_id_of "metal" "node-1") ≡ ok ("metal", "node-1")
unfolding has_slash
parse_host_id-host_id_of_example = HostId.parse_host_id-host_id_of "metal" "node-1" refl refl refl

kept_by_shuffle :
    (xs : List BareMetalHost) (v b : BareMetalHost) → Memᴰ b (server.shuffle xs v).0 → Memᴰ b xs
kept_by_shuffle xs v b among = among

find_free_host-IsFree_example :
    (b : BareMetalHost) × Memᴰ b (host ∷ [])
    × Free.IsFree inventory "baremetal" b
    × (bmh_to_host host "metal3" "flat" ≡ bmh_to_host b "metal3" "flat")
unfolding find_free_host candidates is_candidate choose lookup ◌>>=◌
find_free_host-IsFree_example =
    Free.find_free_host-IsFree inventory [] host (host ∷ []) (bmh_to_host host "metal3" "flat")
      kept_by_shuffle refl refl

metal3-IsInventory_example :
    IsInventory (inventory_client inventory) (λ labels. true) (Ownership.owners held)
metal3-IsInventory_example =
    Refinement.metal3-IsInventory inventory held server-IsServer server-IsExact
