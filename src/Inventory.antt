-- ===== src/Inventory.antt =====
-- internal/inventory/client.go: what the instance controller asks of an inventory. `W` is the
-- world behind the calls: the backend's servers.
pub mod Contract
pub mod Attempts
use bare_metal_operator.Prelude.{String, Option, List}
use bare_metal_operator.Prelude.Dict.{Dict}
use bare_metal_operator.Shared.{Error, Res}

pub record Host : Type 0 where
  pub bare_metal_pool_id : String
  pub bare_metal_instance_id : String
  pub inventory_host_id : String
  pub name : String
  pub host_type : String
  pub host_class : String
  pub network_class : String
  pub provision_state : String
  pub managed_by : String

pub record Client (W : Type 0) : Type 0 where
  pub find_free_host : Dict String → W → Res (Option Host) × W
  pub assign_host : String → String → Dict String → W → Res (Option Host) × W
  pub unassign_host : String → List String → W → Option Error × W
