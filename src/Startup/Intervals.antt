-- ===== src/Startup/Intervals.antt =====
-- The poll intervals and limits of the controllers that cmd/main.go sets up, for any environment.
use bare_metal_operator.Prelude.{
  ℕ, zero, suc, String, Bool, true, ◌&&◌, Option, none, some, List, [], ◌∷◌, ◌≡◌, refl, arith, ◌==◌,
  ltb, inl, inr, Bool-cases,
}
use bare_metal_operator.Prelude.Int.{ℤ, pos, is_positive}
use bare_metal_operator.Shared.{Res, ok, err}
use bare_metal_operator.Effect.{
  M, Keeps, Keeps-pure, Keeps-bind, Keeps-on_error, keeps_rules, modify,
}
use bare_metal_operator.Profile.{Profile}
use bare_metal_operator.Inventory
use bare_metal_operator.Management
use bare_metal_operator.Instance
use bare_metal_operator.Pool
use bare_metal_operator.Pool.State.{or_default_count}
use bare_metal_operator.Startup.Environment.{
  is_valid, validated, value_or_default, int_with_default,
}
use bare_metal_operator.Startup.Registration.{pool_registration, instance_registration}
use bare_metal_operator.Startup.Setup.{
  Program, Parts, on_world, load, load_profile_config, pool_settings, instance_settings,
  pool_reconciler, register_pools, setup_bare_metal_pool_controller, instance_reconciler,
  max_concurrent_reconciles, register_instances, with_management, with_inventory,
  with_inventory_config, setup_bare_metal_instance_controller,
}

abbrev pub sound_pools : {W : Type 0} → Option (Pool.State.Reconciler W) → Bool
sound_pools none = true
sound_pools (some r) =
    is_positive r.host_ready_poll_interval
    && (is_positive r.host_deletion_poll_interval
        && (is_positive r.provision_job_poll_interval && ltb 0 r.max_job_history))

abbrev pub sound_instances : {W : Type 0} → Option (Instance.State.Reconciler W × ℤ) → Bool
sound_instances none = true
sound_instances (some (r, limit)) =
    is_positive r.no_free_hosts_poll_interval
    && (is_positive r.try_lock_fail_poll_interval
        && (is_positive r.management_recheck_interval
            && (is_positive r.provision_poll_interval && is_positive limit)))

-- The controllers that run have positive intervals and limits.
pub record IsSound {W : Type 0} (s : Program W) : Type 0 where
  pub pools : sound_pools s.pools ≡ true
  pub instances : sound_instances s.instances ≡ true

or_default_count-positive :
    (n default : ℕ) → ltb 0 default ≡ true → ltb 0 (or_default_count n default) ≡ true
or_default_count-positive zero default h = h
or_default_count-positive (suc n) default h = ground arith

validated-valid :
    (tests : List (ℤ → Bool)) (default : ℤ) (answer : Res ℤ)
    → is_valid tests default ≡ true
    → is_valid tests (validated tests default answer) ≡ true
validated-valid tests default (err e) h = h
validated-valid tests default (ok value) h = elim (Bool-cases (is_valid tests value)) [
  | inl valid ↦ rw valid valid
  | inr bad ↦ rw bad h
]

-- A default that is valid makes every value valid.
value_or_default-valid :
    (parse : String → Res ℤ) (tests : List (ℤ → Bool)) (default : ℤ) (text : String)
    → is_valid tests default ≡ true
    → is_valid tests (value_or_default parse tests default text) ≡ true
unfolding value_or_default
value_or_default-valid parse tests default text h = elim (Bool-cases (text == "")) [
  | inl unset ↦ rw unset h
  | inr set ↦ rw set (validated-valid tests default (parse text) h)
]

-- The constructors of the two reconcilers.
new_reconciler-sound_pools :
    {W : Type 0} (r : Pool.State.Reconciler W)
    → is_positive r.provisioning.default_status_poll_interval ≡ true
    → ltb 0 r.provisioning.default_max_job_history ≡ true
    → sound_pools (some (Pool.State.new_reconciler r)) ≡ true
unfolding Pool.State.new_reconciler
new_reconciler-sound_pools r interval history = ground (
  arith,
  or_default_count-positive r.max_job_history r.provisioning.default_max_job_history history,
  interval,
)

new_reconciler-sound_instances :
    {W : Type 0} (r : Instance.State.Reconciler W)
    → is_positive r.provisioning.default_status_poll_interval ≡ true
    → sound_instances (some (Instance.State.new_reconciler r, pos 1)) ≡ true
unfolding Instance.State.new_reconciler
new_reconciler-sound_instances r interval = ground (arith, interval)

module _ {J W : Type 0} (p : Parts J W) where
  limit-positive : is_positive (max_concurrent_reconciles p) ≡ true
  unfolding int_with_default is_valid
  limit-positive = ground (
    arith,
    value_or_default-valid p.system.atoi (is_positive ∷ []) (pos 1)
        (p.system.getenv "OSAC_BAREMETALINSTANCE_MAX_CONCURRENT_RECONCILES") refl,
  )

  on_world-Keeps : {A : Type 0} (f : M W A) → Keeps IsSound (on_world p f)
  unfolding on_world
  on_world-Keeps f = record { at = λ s h. record { pools = h.pools; instances = h.instances } }

  load-Keeps : (profiles : List Profile) → Keeps IsSound (load p profiles)
  unfolding load
  load-Keeps profiles = record { at = λ s h. record { pools = h.pools; instances = h.instances } }

  pools-Keeps :
      (r : Pool.State.Reconciler W)
      → sound_pools (some r) ≡ true
      → Keeps IsSound (
          modify
            (λ (s : Program W). record s { pools = some (record r { profiles = s.profiles }) }))
  unfolding modify
  pools-Keeps r sound = record { at = λ s h. record { pools = sound; instances = h.instances } }

  instances-Keeps :
      (r : Instance.State.Reconciler W)
      → sound_instances (some (r, pos 1)) ≡ true
      → Keeps IsSound (
          modify
            (λ (s : Program W). record s { instances = some (r, max_concurrent_reconciles p) }))
  unfolding modify
  instances-Keeps r sound = record {
    at = λ s h. record { pools = h.pools; instances = ground (arith, sound, limit-positive) };
  }

  module _ (pool_interval : is_positive p.pool.provisioning.default_status_poll_interval ≡ true)
      (pool_history : ltb 0 p.pool.provisioning.default_max_job_history ≡ true)
      (interval : is_positive p.instance.provisioning.default_status_poll_interval ≡ true) where
    pool_reconciler_sound : sound_pools (some (pool_reconciler p)) ≡ true
    unfolding pool_reconciler pool_settings
    pool_reconciler_sound = new_reconciler-sound_pools (pool_settings p) pool_interval pool_history

    instance_reconciler_sound :
        (inventory : Inventory.Client W) (management : Management.Client W)
        → sound_instances (some (instance_reconciler p inventory management, pos 1)) ≡ true
    unfolding instance_reconciler instance_settings
    instance_reconciler_sound inventory management =
        new_reconciler-sound_instances (instance_settings p inventory management) interval

    register_pools-Keeps : Keeps IsSound (register_pools p (pool_reconciler p))
    unfolding register_pools
    register_pools-Keeps =
        Keeps-bind _ _ (on_world-Keeps (p.setup_with_manager pool_registration)) (λ e.
          Keeps-on_error e _ _ (λ x. Keeps-pure _)
            (Keeps-bind _ _ (pools-Keeps (pool_reconciler p) pool_reconciler_sound)
              (λ u. Keeps-pure _)))

    register_instances-Keeps :
        (inventory : Inventory.Client W) (management : Management.Client W)
        → Keeps IsSound (register_instances p (instance_reconciler p inventory management))
    unfolding register_instances
    register_instances-Keeps inventory management =
        Keeps-bind _ _
          (on_world-Keeps
            (p.setup_with_manager (instance_registration (max_concurrent_reconciles p))))
          (λ e.
            Keeps-on_error e _ _ (λ x. Keeps-pure _)
              (Keeps-bind _ _
                (instances-Keeps (instance_reconciler p inventory management)
                  (instance_reconciler_sound inventory management))
                (λ u. Keeps-pure _)))

    ruleset starts =
        (keeps_rules, on_world-Keeps, load-Keeps, register_pools-Keeps, register_instances-Keeps)

    pool_controller-Keeps : Keeps IsSound (setup_bare_metal_pool_controller p)
    unfolding setup_bare_metal_pool_controller load_profile_config
    pool_controller-Keeps = search starts depth 9

    instance_controller-Keeps : Keeps IsSound (setup_bare_metal_instance_controller p)
    unfolding setup_bare_metal_instance_controller with_inventory_config with_inventory
        with_management
    instance_controller-Keeps = search starts depth 15

    -- Whatever the environment variables hold, text that does not parse, zero and negative numbers
    -- included: a controller that the set-up of pools or of instances leaves running, where those
    -- that ran before were so, has positive poll intervals, a positive job history and a positive
    -- number of concurrent reconciles. The defaults of the provisioning library are positive.
    pub setup-IsSound :
        (s : Program W)
        → IsSound s
        → IsSound (setup_bare_metal_pool_controller p s).1
          × IsSound (setup_bare_metal_instance_controller p s).1
    setup-IsSound s sound = (pool_controller-Keeps.at s sound, instance_controller-Keeps.at s sound)
