-- ===== src/OpenStack.antt =====
-- internal/inventory/openstack.go and internal/management/openstack.go: the backends that keep hosts
-- as nodes of an Ironic server. The server and its client library are not part of the repository:
-- a record of operations on a world `W`, for service clients of a type `C`.
pub mod Pointer
pub mod Reconnect
pub mod Inventory
pub mod Management
pub mod Patch
pub mod Costs
pub mod Retries
pub mod Owners
pub mod Twice
pub mod Release
pub mod Backend
pub mod Refinement
pub mod Samples
mod Tests
use bare_metal_operator.Prelude.{String, Bool, Option, some, none, List, [], ◌∷◌}
use bare_metal_operator.Prelude.Dict.{Dict, lookup}
use bare_metal_operator.Shared.{Error, Res}

-- A value of node.Extra["osac_labels"]: a text, or anything else in its serialised form.
pub data Value : Type 0 where
  text other : String → Value

-- node.Extra["osac_labels"]: missing, a map, or a value of another kind.
pub data Extra : Type 0 where
  missing : Extra
  labels : Dict Value → Extra
  unreadable : String → Extra

-- nodes.Node: the fields that the program reads.
pub record Node : Type 0 where
  pub uuid : String
  pub name : String
  pub resource_class : String
  pub provision_state : String
  pub power_state : String
  pub target_power_state : String
  pub osac_labels : Extra

-- nodes.UpdateOperation: an operation of a JSON patch.
pub data UpdateOperation : Type 0 where
  add : String → Value → UpdateOperation
  -- The value is an empty map.
  add_map : String → UpdateOperation
  remove : String → UpdateOperation

-- The pages of a listing: a failure to fetch or to read one ends it. The next page is fetched, by
-- a request to the server, only if the reader asks for it.
pub data Pages (W : Type 0) : Type 0 where
  last : Pages W
  broken : Error → Pages W
  page : List Node → (W → W) → (W → Pages W) → Pages W

pub record Ironic (C W : Type 0) : Type 0 where
  -- by resource class and provision state
  pub list : C → String → String → W → Pages W × W
  pub get : C → String → W → Res Node × W
  pub update : C → String → List UpdateOperation → W → Res Node × W
  pub change_power_state : C → String → String → W → Option Error × W
  -- The factory of service clients that each of the two backends has; the management backend
  -- tests for a nil client, which is `none`.
  pub new_service_client : W → Res C × W
  pub new_management_client : W → Res (Option C) × W
  pub endpoint : C → String
  pub shuffle : List Node → W → List Node × W

-- The client in use, and the world behind it.
pub record Session (C W : Type 0) : Type 0 where
  pub client : C
  pub world : W
