-- ===== src/Startup/Backends.antt =====
-- NewClient of internal/inventory/client.go and internal/management/client.go, and the constructors
-- of the Metal3 clients. The options of a configuration are values of a type `J`, which only
-- encoding/json reads.
use bare_metal_operator.Prelude.{String, Option, none, some, ◌==◌, ◌<>◌, if◌then◌else◌}
use bare_metal_operator.Prelude.Dict.{Dict, lookup}
use bare_metal_operator.Shared.{Error, new, wrap, Res, ok, err}
use bare_metal_operator.Effect.{M, ◌>>=◌, pure, on_error, on_res, on_option}
use bare_metal_operator.Inventory
use bare_metal_operator.Management
use bare_metal_operator.Metal3
use bare_metal_operator.Metal3.{Server}

-- inventory.Config and management.Config; `Type` is the field `kind`.
pub record InventoryConfig (J : Type 0) : Type 0 where
  pub name : String
  pub kind : String
  pub options : Dict J
  pub host_class : String
  pub network_class : String

pub record ManagementConfig (J : Type 0) : Type 0 where
  pub name : String
  pub kind : String
  pub options : Dict J

-- newClientFuncs: the constructors by the type of the backend, which the init functions of the
-- package fill; a nil client is `none`.
module _ {J W : Type 0} where
  -- No client and no error for a type that is not registered.
  unfoldable pub new_inventory_client :
      Dict (InventoryConfig J → M W (Res (Option (Inventory.Client W))))
      → InventoryConfig J
      → M W (Res (Option (Inventory.Client W)))
  new_inventory_client constructors config =
      on_option (lookup config.kind constructors) (pure (ok none)) (λ construct. construct config)

  -- A configuration that is not there is refused, and so is a type that is not registered.
  unfoldable pub new_management_client :
      Dict (ManagementConfig J → M W (Res (Option (Management.Client W))))
      → Option (ManagementConfig J)
      → M W (Res (Option (Management.Client W)))
  new_management_client constructors config =
      on_option config (pure (err (new "management backend configuration is required"))) (λ c.
        on_option (lookup c.kind constructors)
          (pure (err (new ("unsupported management backend type: " <> c.kind))))
          (λ construct. construct c))

-- What the constructors of the Metal3 clients use of encoding/json and of the Kubernetes libraries.
pub record Metal3Libraries (J K W : Type 0) : Type 0 where
  pub marshal : J → Res String
  -- The field "namespace" of the object.
  pub unmarshal_namespace : String → Res String
  pub add_to_scheme : Option Error
  pub get_config : W → Res K × W
  -- The discovery client, and its question for the resources of "metal3.io/v1alpha1".
  pub new_discovery_client : K → Option Error
  pub server_resources : K → W → Option Error × W
  pub new_client : K → Res (Server W)

module _ {J K W : Type 0} (lib : Metal3Libraries J K W) where
  abbrev named_namespace : String → Res String → Res String
  named_namespace suffix (err e) = err (wrap "failed to unmarshal metal3 options" e)
  named_namespace suffix (ok namespace) =
      if namespace == ""
      then err (new ("metal3 namespace is required in " <> suffix))
      else ok namespace

  abbrev marshalled_namespace : String → Res String → Res String
  marshalled_namespace suffix (err e) = err (wrap "failed to marshal metal3 options" e)
  marshalled_namespace suffix (ok text) = named_namespace suffix (lib.unmarshal_namespace text)

  abbrev option_namespace : String → Option J → Res String
  option_namespace suffix none = err (new ("metal3 options not found in " <> suffix))
  option_namespace suffix (some options) = marshalled_namespace suffix (lib.marshal options)

  -- parseMetal3Namespace and parseMetal3ManagementNamespace
  unfoldable pub parse_metal3_namespace : InventoryConfig J → Res String
  parse_metal3_namespace config = option_namespace "config" (lookup "metal3" config.options)

  unfoldable pub parse_metal3_management_namespace : ManagementConfig J → Res String
  parse_metal3_management_namespace config =
      option_namespace "management config" (lookup "metal3" config.options)

  unfoldable pub validate_bare_metal_host_crd : K → M W (Option Error)
  validate_bare_metal_host_crd rest_config =
      on_error (lib.new_discovery_client rest_config)
        (λ e. pure (some (wrap "failed to create discovery client" e)))
        (do
          e ← lib.server_resources rest_config
          on_error e
              (λ x.
                pure (
                  some (wrap "metal3 backend configured but BareMetalHost CRD is not installed" x)))
              (pure none))

  abbrev built : InventoryConfig J → String → Res (Server W) → Res (Metal3.Inventory.Metal3Client W)
  built config namespace (err e) = err (wrap "failed to create kubernetes client" e)
  built config namespace (ok server) = ok (record {
    server = server;
    namespace = namespace;
    host_class = config.host_class;
    network_class = config.network_class;
  })

  unfoldable pub new_metal3_client : InventoryConfig J → M W (Res (Metal3.Inventory.Metal3Client W))
  new_metal3_client config =
      on_res (parse_metal3_namespace config) (λ e. pure (err e))
        (λ namespace.
          on_error lib.add_to_scheme
            (λ e. pure (err (wrap "failed to add metal3 types to scheme" e)))
            (do
              rest_config ← lib.get_config
              on_res rest_config (λ e. pure (err (wrap "failed to load kubernetes config" e)))
                  (λ k. do
                    invalid ← validate_bare_metal_host_crd k
                    on_error invalid (λ e. pure (err e))
                        (pure (built config namespace (lib.new_client k))))))

  abbrev built_management : String → Res (Server W) → Res (Metal3.Management.Metal3Client W)
  built_management namespace (err e) = err (wrap "failed to create kubernetes client" e)
  built_management namespace (ok server) = ok (record { server = server; namespace = namespace })

  unfoldable pub new_metal3_management_client :
      ManagementConfig J → M W (Res (Metal3.Management.Metal3Client W))
  new_metal3_management_client config =
      on_res (parse_metal3_management_namespace config) (λ e. pure (err e))
        (λ namespace.
          on_error lib.add_to_scheme
            (λ e. pure (err (wrap "failed to add metal3 types to scheme" e)))
            (do
              rest_config ← lib.get_config
              on_res rest_config (λ e. pure (err (wrap "failed to load kubernetes config" e)))
                  (λ k. pure (built_management namespace (lib.new_client k)))))
