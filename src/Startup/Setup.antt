-- ===== src/Startup/Setup.antt =====
-- setupBareMetalPoolController and setupBareMetalInstanceController of cmd/main.go.
use bare_metal_operator.Prelude.{
  ℕ, zero, String, Option, none, some, List, [], ◌∷◌, ◌<>◌, if◌then◌else◌,
}
use bare_metal_operator.Prelude.Dict.{Dict}
use bare_metal_operator.Prelude.Int.{ℤ, pos, negsuc, is_positive}
use bare_metal_operator.Shared.{
  Error, new, wrap, Res, default_no_free_hosts_poll_interval_duration,
  default_try_lock_fail_poll_interval_duration, default_management_recheck_interval_duration,
  default_host_ready_poll_interval_duration, default_host_deletion_poll_interval_duration,
}
use bare_metal_operator.Effect.{M, ◌>>=◌, ◌>>◌, pure, modify, on_error, on_res, on_option}
use bare_metal_operator.Profile.{Profile, Registry, Formats, load_profiles}
use bare_metal_operator.Inventory
use bare_metal_operator.Management
use bare_metal_operator.Instance
use bare_metal_operator.Pool
use bare_metal_operator.Startup.{System}
use bare_metal_operator.Startup.Environment.{
  string_with_default, int_with_default, duration_with_default,
}
use bare_metal_operator.Startup.Registration.{
  Registration, pool_registration, instance_registration,
}
use bare_metal_operator.Startup.Backends.{
  InventoryConfig, ManagementConfig, new_inventory_client, new_management_client,
}

-- The package variable of the profiles, the controllers that run, and the world.
pub record Program (W : Type 0) : Type 0 where
  pub profiles : Registry
  pub pools : Option (Pool.State.Reconciler W)
  -- with the greatest number of concurrent reconciles
  pub instances : Option (Instance.State.Reconciler W × ℤ)
  pub world : W

-- The parsers of the configuration files, the constructors of the backends, and the registration of
-- a controller with the manager. `pool` and `instance` hold what the manager gives the controllers.
pub record Parts (J W : Type 0) : Type 0 where
  pub system : System
  pub formats : Formats
  pub unmarshal_profiles : String → Res (List Profile)
  pub unmarshal_inventory : String → Res (InventoryConfig J)
  pub unmarshal_management : String → Res (ManagementConfig J)
  pub inventory_clients : Dict (InventoryConfig J → M W (Res (Option (Inventory.Client W))))
  pub management_clients : Dict (ManagementConfig J → M W (Res (Option (Management.Client W))))
  pub pool : Pool.State.Reconciler W
  pub instance : Instance.State.Reconciler W
  pub setup_with_manager : Registration → W → Option Error × W

-- An int as a job history: a negative one counts as none given.
abbrev count_of : ℤ → ℕ
count_of (pos n) = n
count_of (negsuc n) = zero

module _ {J W : Type 0} (p : Parts J W) where
  abbrev pub Starting : Type 0 → Type 0
  Starting A = M (Program W) A

  unfoldable pub on_world : {A : Type 0} → M W A → Starting A
  on_world f s = let (a, w) = f s.world in (a, record s { world = w })

  unfoldable pub load : List Profile → Starting (Option Error)
  load profiles s =
      let (e, registry) = load_profiles p.formats s.profiles profiles in
      (e, record s { profiles = registry })

  -- A file that is not there leaves the program without profiles.
  unfoldable pub load_profile_config : Starting (Option Error)
  load_profile_config =
      on_res
        (p.system.read_file (
          string_with_default p.system "OSAC_PROFILE_CONFIG_PATH" "/etc/osac/profile/profile.yaml"))
        (λ e. if p.system.is_not_exist e then pure none else pure (some e))
        (λ text. on_res (p.unmarshal_profiles text) (λ e. pure (some e)) load)

  -- What the environment says.
  unfoldable pub pool_settings : Pool.State.Reconciler W
  pool_settings = record p.pool {
    host_ready_poll_interval =
        duration_with_default p.system "OSAC_HOST_READY_POLL_INTERVAL"
          default_host_ready_poll_interval_duration;
    host_deletion_poll_interval =
        duration_with_default p.system "OSAC_HOST_DELETION_POLL_INTERVAL"
          default_host_deletion_poll_interval_duration;
    provision_job_poll_interval =
        duration_with_default p.system "OSAC_AAP_STATUS_POLL_INTERVAL"
          p.pool.provisioning.default_status_poll_interval;
    max_job_history = count_of (
        int_with_default p.system "OSAC_MAX_JOB_HISTORY"
          (pos p.pool.provisioning.default_max_job_history) []);
  }

  unfoldable pub pool_reconciler : Pool.State.Reconciler W
  unfolding Pool.State.new_reconciler
  pool_reconciler = Pool.State.new_reconciler pool_settings

  unfoldable pub register_pools : Pool.State.Reconciler W → Starting (Option Error)
  register_pools r = do
    e ← on_world (p.setup_with_manager pool_registration)
    on_error e (λ x. pure (some (wrap "unable to create controller" x)))
        (do modify (λ s. record s { pools = some (record r { profiles = s.profiles }) }); pure none)

  unfoldable pub setup_bare_metal_pool_controller : Starting (Option Error)
  setup_bare_metal_pool_controller = do
    e ← load_profile_config
    on_error e (λ x. pure (some x)) (register_pools pool_reconciler)

  unfoldable pub instance_settings :
      Inventory.Client W → Management.Client W → Instance.State.Reconciler W
  instance_settings inventory management = record p.instance {
    inventory = inventory;
    management = management;
    no_free_hosts_poll_interval =
        duration_with_default p.system "OSAC_NO_FREE_HOSTS_POLL_INTERVAL"
          default_no_free_hosts_poll_interval_duration;
    try_lock_fail_poll_interval =
        duration_with_default p.system "OSAC_TRY_LOCK_FAIL_POLL_INTERVAL"
          default_try_lock_fail_poll_interval_duration;
    management_recheck_interval =
        duration_with_default p.system "OSAC_MANAGEMENT_RECHECK_INTERVAL"
          default_management_recheck_interval_duration;
    provision_poll_interval =
        duration_with_default p.system "OSAC_PROVISION_POLL_INTERVAL"
          p.instance.provisioning.default_status_poll_interval;
  }

  unfoldable pub instance_reconciler :
      Inventory.Client W → Management.Client W → Instance.State.Reconciler W
  unfolding Instance.State.new_reconciler
  instance_reconciler inventory management =
      Instance.State.new_reconciler (instance_settings inventory management)

  abbrev pub max_concurrent_reconciles : ℤ
  max_concurrent_reconciles =
      int_with_default p.system "OSAC_BAREMETALINSTANCE_MAX_CONCURRENT_RECONCILES" (pos 1)
        (is_positive ∷ [])

  unfoldable pub register_instances : Instance.State.Reconciler W → Starting (Option Error)
  register_instances r = do
    e ← on_world (p.setup_with_manager (instance_registration max_concurrent_reconciles))
    on_error e (λ x. pure (some (wrap "baremetalinstance controller" x)))
        (do modify (λ s. record s { instances = some (r, max_concurrent_reconciles) }); pure none)

  unfoldable pub with_management : Inventory.Client W → ManagementConfig J → Starting (Option Error)
  with_management inventory config = do
    answer ← on_world (new_management_client p.management_clients (some config))
    on_res answer (λ e. pure (some (wrap "failed to create management client" e)))
        (λ client.
          on_option client (pure (some (new ("unsupported management type " <> config.kind))))
            (λ management. register_instances (instance_reconciler inventory management)))

  unfoldable pub with_inventory : Inventory.Client W → Starting (Option Error)
  with_inventory inventory =
      on_res
        (p.system.read_file (
          string_with_default p.system "OSAC_MANAGEMENT_CONFIG_PATH"
            "/etc/osac/management/management.yaml"))
        (λ e. pure (some (wrap "failed to read management config file" e)))
        (λ text.
          on_res (p.unmarshal_management text)
            (λ e. pure (some (wrap "failed to parse management config" e)))
            (with_management inventory))

  unfoldable pub with_inventory_config : InventoryConfig J → Starting (Option Error)
  with_inventory_config config = do
    answer ← on_world (new_inventory_client p.inventory_clients config)
    on_res answer (λ e. pure (some (wrap "failed to create inventory client" e)))
        (λ client.
          on_option client (pure (some (new ("unsupported inventory type " <> config.kind))))
            with_inventory)

  unfoldable pub setup_bare_metal_instance_controller : Starting (Option Error)
  setup_bare_metal_instance_controller =
      on_res
        (p.system.read_file (
          string_with_default p.system "OSAC_INVENTORY_CONFIG_PATH"
            "/etc/osac/inventory/inventory.yaml"))
        (λ e. pure (some (wrap "failed to read inventory config file" e)))
        (λ text.
          on_res (p.unmarshal_inventory text)
            (λ e. pure (some (wrap "failed to parse inventory config" e))) with_inventory_config)
