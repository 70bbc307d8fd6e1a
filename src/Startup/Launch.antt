-- ===== src/Startup/Launch.antt =====
-- When main of cmd/main.go starts the manager.
use bare_metal_operator.Prelude.{
  Bool, true, false, not, Option, none, some, ◌≡◌, arith, if◌then◌else◌,
}
use bare_metal_operator.Prelude.Int.{ℤ}
use bare_metal_operator.Effect.{
  M, ◌>>=◌, ◌>>◌, pure, modify, Keeps, keeps_rules, Yields, yields_rules,
}
use bare_metal_operator.Inventory
use bare_metal_operator.Management
use bare_metal_operator.Instance
use bare_metal_operator.Pool
use bare_metal_operator.Startup.Setup.{
  Program, Parts, on_world, pool_settings, pool_reconciler, register_pools,
  setup_bare_metal_pool_controller, instance_settings, instance_reconciler,
  max_concurrent_reconciles, register_instances, with_management, with_inventory,
  with_inventory_config, setup_bare_metal_instance_controller,
}

-- Does the controller run, with the provider or without it?
abbrev pub runs_pools : {W : Type 0} → Bool → Option (Pool.State.Reconciler W) → Bool
runs_pools provider none = false
runs_pools provider (some r) = if provider then r.has_provider else not r.has_provider

abbrev pub runs_instances : {W : Type 0} → Bool → Option (Instance.State.Reconciler W × ℤ) → Bool
runs_instances provider none = false
runs_instances provider (some (r, limit)) = if provider then r.has_provider else not r.has_provider

abbrev pub PoolsRun : {W : Type 0} → Bool → Program W → Type 0
PoolsRun provider s = runs_pools provider s.pools ≡ true

abbrev pub InstancesRun : {W : Type 0} → Bool → Program W → Type 0
InstancesRun provider s = runs_instances provider s.instances ≡ true

module _ {J W : Type 0} (p : Parts J W) where
  set_pools-Yields :
      (r : Pool.State.Reconciler W)
      → Yields (PoolsRun r.has_provider) (do
        modify (λ (s : Program W). record s { pools = some (record r { profiles = s.profiles }) })
        pure none)
  unfolding ◌>>=◌
  set_pools-Yields r = record { at = λ s silent. ground arith }

  register_pools-Yields :
      (r : Pool.State.Reconciler W) → Yields (PoolsRun r.has_provider) (register_pools p r)
  unfolding register_pools
  register_pools-Yields r = search (yields_rules, set_pools-Yields) depth 9

  pool_reconciler-Yields :
      Yields (PoolsRun p.pool.has_provider) (register_pools p (pool_reconciler p))
  unfolding pool_reconciler pool_settings Pool.State.new_reconciler
  pool_reconciler-Yields = register_pools-Yields (pool_reconciler p)

  pub setup_pools-Yields :
      Yields (PoolsRun p.pool.has_provider) (setup_bare_metal_pool_controller p)
  unfolding setup_bare_metal_pool_controller
  setup_pools-Yields = search (yields_rules, pool_reconciler-Yields) depth 9

  set_instances-Yields :
      (r : Instance.State.Reconciler W)
      → Yields (InstancesRun r.has_provider) (do
        modify (λ (s : Program W). record s { instances = some (r, max_concurrent_reconciles p) })
        pure none)
  unfolding ◌>>=◌
  set_instances-Yields r = record { at = λ s silent. ground arith }

  register_instances-Yields :
      (r : Instance.State.Reconciler W)
      → Yields (InstancesRun r.has_provider) (register_instances p r)
  unfolding register_instances
  register_instances-Yields r = search (yields_rules, set_instances-Yields) depth 9

  instance_reconciler-Yields :
      (inventory : Inventory.Client W) (management : Management.Client W)
      → Yields
          (InstancesRun p.instance.has_provider)
          (register_instances p (instance_reconciler p inventory management))
  unfolding instance_reconciler instance_settings Instance.State.new_reconciler
  instance_reconciler-Yields inventory management =
      register_instances-Yields (instance_reconciler p inventory management)

  pub setup_instances-Yields :
      Yields (InstancesRun p.instance.has_provider) (setup_bare_metal_instance_controller p)
  unfolding setup_bare_metal_instance_controller with_inventory_config with_inventory
      with_management
  setup_instances-Yields = search (yields_rules, instance_reconciler-Yields) depth 15

  on_world-Keeps :
      {A : Type 0} (provider : Bool) (f : M W A) → Keeps (PoolsRun provider) (on_world p f)
  unfolding on_world
  on_world-Keeps provider f = record { at = λ s h. h }

  set_instances-Keeps :
      (provider : Bool) (r : Instance.State.Reconciler W) (limit : ℤ)
      → Keeps
          (PoolsRun provider)
          (modify (λ (s : Program W). record s { instances = some (r, limit) }))
  unfolding modify
  set_instances-Keeps provider r limit = record { at = λ s h. h }

  register_instances-Keeps :
      (provider : Bool) (r : Instance.State.Reconciler W)
      → Keeps (PoolsRun provider) (register_instances p r)
  unfolding register_instances
  register_instances-Keeps provider r =
      search (keeps_rules, on_world-Keeps, set_instances-Keeps) depth 9

  pub setup_instances-Keeps :
      (provider : Bool) → Keeps (PoolsRun provider) (setup_bare_metal_instance_controller p)
  unfolding setup_bare_metal_instance_controller with_inventory_config with_inventory
      with_management
  setup_instances-Keeps provider =
      search (keeps_rules, on_world-Keeps, register_instances-Keeps) depth 15
