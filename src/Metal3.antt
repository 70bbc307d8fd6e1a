-- ===== src/Metal3.antt =====
-- internal/inventory/metal3.go and internal/management/metal3.go: the backends that keep hosts as
-- BareMetalHost resources of an API server. The server, whose resource type is not part of the
-- repository, is a record of operations on a world `W`.
pub mod HostId
pub mod Inventory
pub mod Claims
pub mod Ownership
pub mod Refinement
pub mod Samples
pub mod Free
pub mod Management
pub mod Reboots
mod Tests
use bare_metal_operator.Prelude.{String, Bool, Option, some, List, ◌≡◌, ◌==◌, ◌&&◌, if◌then◌else◌}
use bare_metal_operator.Prelude.Dict.{Dict, insert}
use bare_metal_operator.Shared.{Error, Res, ok}

-- corev1.ObjectReference
pub record ObjectReference : Type 0 where
  pub api_version : String
  pub kind : String
  pub name : String

-- metal3api.BareMetalHost: the fields that the program reads or writes.
pub record BareMetalHost : Type 0 where
  pub namespace : String
  pub name : String
  pub labels : Dict String
  pub annotations : Dict String
  pub consumer_ref : Option ObjectReference
  pub online : Bool
  pub powered_on : Bool
  pub operational_status : String
  pub provisioning_state : String

-- The API server, by namespace and name; `shuffle` is rand.Shuffle. A write that succeeds returns
-- the object that the server then holds.
pub record Server (W : Type 0) : Type 0 where
  pub list : String → Dict String → W → Res (List BareMetalHost) × W
  pub get : String → String → W → Res BareMetalHost × W
  pub update : BareMetalHost → W → Res BareMetalHost × W
  -- A merge patch of spec.online, and of one annotation.
  pub patch_online : BareMetalHost → Bool → W → Option Error × W
  pub patch_annotation : BareMetalHost → String → String → W → Option Error × W
  pub shuffle : List BareMetalHost → W → List BareMetalHost × W
  -- constants of the resource's package
  pub operational_status_ok : String
  pub state_available : String
  pub reboot_annotation : String

-- Is the host the one of that namespace and name?
abbrev pub is_host : String → String → BareMetalHost → Bool
is_host namespace name b = b.namespace == namespace && b.name == name

-- What the API server promises: a read answers with what it holds and changes nothing, and an
-- update that succeeds leaves the object that was sent.
pub record IsServer {W : Type 0} (server : Server W)
    (held : String → String → W → Res BareMetalHost) : Type 0 where
  pub reads :
      (namespace name : String) (w : W) → server.get namespace name w ≡ (held namespace name w, w)
  pub keyed :
      (namespace name : String) (w : W) (b : BareMetalHost)
      → held namespace name w ≡ ok b
      → (b.namespace ≡ namespace) × (b.name ≡ name)
  pub writes :
      (b stored : BareMetalHost) (w : W)
      → (server.update b w).0 ≡ ok stored
      → (stored ≡ b) × (held b.namespace b.name (server.update b w).1 ≡ ok b)
  pub sets_online :
      (b : BareMetalHost) (on : Bool) (w : W)
      → held b.namespace b.name w ≡ ok b
      → (server.patch_online b on w).0 ≡ Option.none
      → held b.namespace b.name (server.patch_online b on w).1 ≡ ok (record b { online = on })
  pub annotates :
      (b : BareMetalHost) (key value : String) (w : W)
      → held b.namespace b.name w ≡ ok b
      → (server.patch_annotation b key value w).0 ≡ Option.none
      → held b.namespace b.name (server.patch_annotation b key value w).1
        ≡ ok (record b { annotations = insert key value b.annotations })
