-- ===== src/Lib.antt =====
-- Verification of the bare metal fulfillment operator: a Kubernetes operator that gives hosts of an
-- inventory to BareMetalInstance resources, provisions and powers them, and keeps pools of them.
--
-- The program has two controllers. The instance controller (internal/controller/
-- baremetalinstance_controller.go) finds and assigns a host through an inventory client
-- (internal/inventory/client.go) under the host's lock (internal/inventory/lock.go), runs
-- provisioning jobs, drives the power state through a management client
-- (internal/management/client.go), and undoes all of it on deletion. The pool controller
-- (internal/controller/baremetalpool_controller.go) creates and deletes instances until each host
-- type has the number that the pool's spec asks for, with the templates and labels of a profile
-- (internal/profile/profile.go). The resources are those of api/v1alpha1.
--
-- Which file models what:
--   Prelude      tests on numbers, lists, dictionaries (Go maps) and int32 bit patterns
--   Shared       internal/shared/shared.go, the constants of internal/controller/*_names.go, errors
--                and results of handlers
--   Effect       handlers as programs of a state monad, and the rules by which a property is kept
--   Kube         what is used of the Kubernetes libraries: conditions and finalizers
--   Lock         internal/inventory/lock.go: TryLock is try_lock, Unlock is unlock; a panic is none
--   Profile      internal/profile/profile.go: LoadProfiles, Get, ValidateParameters
--   Api          api/v1alpha1: the two resources and their conditions
--   Inventory, Management, Provisioning
--                the interfaces to the backends and to the provisioning library. Inventory/Contract
--                is what the instance controller relies on: a table of owners, and how each call may
--                change it; Inventory/Attempts is that of a call made twice
--   Instance     internal/controller/baremetalinstance_controller.go. State holds the reconciler,
--                the state of one reconcile and the calls; Allocate is reconcileInventory, Provision
--                reconcileProvisioning and reconcileDeprovisioning, Restart reconcileRestartTrigger
--                and triggerRestart, Power reconcilePower and syncBareMetalInstanceStatus, Manage
--                reconcileManagement, Delete handleDeletion, Reconcile handleUpdate and Reconcile
--   Pool         internal/controller/baremetalpool_controller.go, in the same way: Create is
--                createBareMetalInstanceCR, Scale reconcileBareMetalInstances with scaling up and
--                down and the counts of the status, Update handleUpdate, Delete handleDeletion. Ledger
--                is a record of what the server has created and deleted
--   Metal3       the backends that keep hosts as BareMetalHost resources: HostId and Inventory are
--                internal/inventory/metal3.go, Management is internal/management/metal3.go
--   OpenStack    the backends that keep hosts as nodes of an Ironic server: Inventory and Pointer are
--                internal/inventory/openstack.go, Management is internal/management/openstack.go, and
--                Reconnect the second attempts of both. Patch reads JSON patches as RFC 6902 does
--   Startup      Environment is internal/helpers/getenvwithdefault.go, Backends the NewClient of both
--                interfaces and the constructors of the Metal3 clients, Clouds those of the OpenStack
--                clients, Setup the set-up of the two controllers in cmd/main.go, Options its flags
--                and the options of the manager, Entry its main, and Registration SetupWithManager of
--                both controllers
--   Samples      concrete libraries and profiles for the tests, which stand in the modules Tests,
--                and in Instance/Backed and Instance/Reached
--
-- How it is modelled. A handler takes the state of its reconcile and returns a result and the next
-- state: the object in memory, the calls made so far (newest first), for an instance the lock table,
-- whether the process has panicked, and the world behind the clients, a type of any kind. Each
-- client is a record of functions on that world, so that a theorem holds for every answer of every
-- server. A write that succeeds leaves the object as the server answers it. The functions of Go that
-- are one long body are several definitions here, one for each stretch between two early returns.
-- The provisioning library is a tree of what it does in turn, with its callbacks run on the state.
-- A range over a map goes through the entries in the list's order, or in that of the parameter
-- range_order. int32 is the bit pattern, with its wrap-around written out; other numbers of the
-- program are only compared.
--
-- Bounds and fuel. scaleDownBareMetalInstances is a loop on fuel; its caller gives one more than the
-- length of the slice, and the slice loses an element in each round (Pool/Ending). Counts below 2^31
-- are a hypothesis where they are needed: the resource's schema wants int32 replicas that are not
-- negative.
--
-- Liveness is stated for an API server that accepts every write and holds the status as a subresource
-- (Instance/Served), so that nothing is claimed of a server that refuses for ever.
--
-- What is assumed of the servers behind an inventory is their documented behaviour: an API server
-- that changes one object at most in an update, and an Ironic server that applies the whole of a
-- patch to one node or nothing of it. Either may fail after the write. The ids of Ironic nodes are
-- taken as keys, so that no host is also named by its node's name.
--
-- Not modelled: the logger, the signal handler and the scheme of cmd/main.go; the mutex around the
-- service client of the OpenStack management backend; the case float64 of GetEnvWithDefault, which has
-- no caller; logs, timestamps of conditions, and generated code.
pub mod Prelude
pub mod Shared
pub mod Effect
pub mod Kube
pub mod Lock
pub mod Profile
pub mod Api
pub mod Inventory
pub mod Management
pub mod Provisioning
pub mod Instance
pub mod Pool
pub mod Metal3
pub mod OpenStack
pub mod Startup
pub mod Samples
