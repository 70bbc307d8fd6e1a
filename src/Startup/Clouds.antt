-- ===== src/Startup/Clouds.antt =====
-- The constructors of the OpenStack clients: NewOpenStackClient and newServiceClientFactory of
-- internal/inventory/openstack.go, and NewOpenStackClient of internal/management/openstack.go.
use bare_metal_operator.Prelude.{String, Option, none, some}
use bare_metal_operator.Prelude.Dict.{lookup}
use bare_metal_operator.Shared.{new, Res, ok, err}
use bare_metal_operator.Effect.{M, ◌>>=◌, pure, on_res}
use bare_metal_operator.OpenStack.{Ironic}
use bare_metal_operator.OpenStack.Inventory.{OpenStackClient}
use bare_metal_operator.Startup.Backends.{InventoryConfig, ManagementConfig}

-- What the constructors use of encoding/json and of gophercloud: `L` is clientconfig.Cloud, `P` a
-- provider client and `C` a service client.
pub record CloudLibraries (J L P C W : Type 0) : Type 0 where
  pub marshal : J → Res String
  pub unmarshal : String → Res L
  pub no_cloud : L
  -- AuthInfo, an empty one if there is none, with AllowReauth
  pub allow_reauth : L → L
  pub authenticated_client : L → W → Res P × W
  pub new_bare_metal : P → Res C
  -- with the region and the availability of the cloud
  pub new_regional_bare_metal : L → P → Res C
  -- Microversion = "latest"
  pub with_latest_version : C → C

module _ {J L P C W : Type 0} (lib : CloudLibraries J L P C W) where
  -- The options are read again for every new client.
  abbrev read_cloud : Option J → Res L
  read_cloud none = ok lib.no_cloud
  read_cloud (some options) = elim (lib.marshal options) [
    | err e ↦ err e
    | ok text ↦ lib.unmarshal text
  ]

  abbrev latest_client : Res C → Res C
  latest_client (err e) = err e
  latest_client (ok c) = ok (lib.with_latest_version c)

  unfoldable pub new_service_client_factory : InventoryConfig J → M W (Res C)
  new_service_client_factory config =
      on_res (read_cloud (lookup "openstack" config.options)) (λ e. pure (err e))
        (λ cloud. do
          provider ← lib.authenticated_client (lib.allow_reauth cloud)
          on_res provider (λ e. pure (err e)) (λ p. pure (latest_client (lib.new_bare_metal p))))

  -- The client, with the service client that it uses first.
  unfoldable pub new_openstack_client :
      Ironic C W → InventoryConfig J → M W (Res (OpenStackClient C W × C))
  new_openstack_client ironic config = do
    answer ← new_service_client_factory config
    on_res answer (λ e. pure (err e))
        (λ c. pure (
          ok (
            record {
              ironic = record ironic { new_service_client = new_service_client_factory config };
              host_class = config.host_class;
              network_class = config.network_class;
            },
            c,
          )))

  -- The options are read once, and the errors of the libraries are not shown.
  abbrev checked_cloud : Option J → Res L
  checked_cloud none = ok lib.no_cloud
  checked_cloud (some options) = elim (lib.marshal options) [
    | err e ↦ err (new "failed to marshal openstack options (check cloud configuration)")
    | ok text ↦ elim (lib.unmarshal text) [
      | err e ↦ err (new "failed to unmarshal openstack options (check cloud configuration)")
      | ok cloud ↦ ok cloud
    ]
  ]

  abbrev options_of : Option (ManagementConfig J) → Option J
  options_of none = none
  options_of (some config) = lookup "openstack" config.options

  abbrev some_client : Res C → Res (Option C)
  some_client (ok c) = ok (some c)
  some_client (err e) =
      err (new "failed to create baremetal client (check endpoint configuration and region)")

  unfoldable pub management_factory : L → M W (Res (Option C))
  management_factory cloud = do
    provider ← lib.authenticated_client cloud
    on_res provider
        (λ e. pure (
          err (
            new
              "failed to create authenticated client (check cloud credentials and endpoint configuration)")))
        (λ p. pure (some_client (lib.new_regional_bare_metal cloud p)))

  unfoldable pub new_openstack_management_client :
      Ironic C W → Option (ManagementConfig J) → M W (Res (Ironic C W × Option C))
  new_openstack_management_client ironic config =
      on_res (checked_cloud (options_of config)) (λ e. pure (err e))
        (λ cloud. do
          answer ← management_factory cloud
          on_res answer (λ e. pure (err e))
              (λ c.
                pure (ok (record ironic { new_management_client = management_factory cloud }, c))))
