-- ===== src/Startup/Serving.antt =====
-- What holds when main of cmd/main.go starts the manager.
use bare_metal_operator.Prelude.{
  not, ◌&&◌, eq_iff, subst, String, Bool, true, false, Option, none, some, List, ◌∷◌, ◌≡◌, refl,
  arith, ◌==◌, inl, inr, Bool-cases, Option-cases,
}
use bare_metal_operator.Shared.{Error}
use bare_metal_operator.Effect.{◌>>=◌, on_option}
use bare_metal_operator.Startup.Options.{Flags, CertWatcher}
use bare_metal_operator.Startup.Setup.{
  Parts, setup_bare_metal_pool_controller, setup_bare_metal_instance_controller,
}
use bare_metal_operator.Startup.Entry.{
  Libraries, Event, Ending, returned, Launch, Main, call, attempt, start, add_checks, add_watcher,
  run_manager, with_provider, set_up_controllers, has_aap, provider_config, provision, watch,
  manage, launch, main,
}
use bare_metal_operator.Startup.Launch.{
  PoolsRun, InstancesRun, setup_pools-Yields, setup_instances-Yields, setup_instances-Keeps,
}
use bare_metal_operator.Startup.Environment.{string_with_default, value_or_default, is_valid}
use bare_metal_operator.Startup.Leading.{
  has_started, has_healthz, IsServing, Leads, Leads-exited, Leads-attempt, Leads-set_up,
}

module _ {J W : Type 0} (l : Libraries W) (p : Parts J W) (provider : Bool) where
  -- Both controllers run; and with the health check.
  abbrev Running : Launch W → Type 0
  Running s = PoolsRun provider s.program × InstancesRun provider s.program

  abbrev Healthy : Launch W → Type 0
  Healthy s = Running s × (has_healthz s.events ≡ true)

  start-Leads : Leads provider (IsServing provider) (start l p)
  unfolding start attempt call ◌>>=◌
  start-Leads = record {
    serves = λ s before started. elim (Option-cases (l.start s.program.world).0) [
      | inl silent ↦ rw silent (record {
        pools = before.holds.pools;
        instances = before.holds.instances;
        healthz = before.holds.healthz;
        readyz = before.holds.readyz;
      })
      | inr (e, failed) ↦ rw failed (record {
        pools = before.holds.pools;
        instances = before.holds.instances;
        healthz = before.holds.healthz;
        readyz = before.holds.readyz;
      })
    ];
    returns = λ s before ended. ground (arith, ended);
  }

  add_checks-Leads : Leads provider Running (add_checks l p)
  unfolding add_checks
  add_checks-Leads =
      Leads-attempt l p provider Running Healthy _ _ _
        (λ s w before. record { quiet = before.quiet; holds = (before.holds, refl) })
        (Leads-attempt l p provider Healthy (IsServing provider) _ _ _
          (λ s w before. record {
            quiet = before.quiet;
            holds = record {
              pools = before.holds.0.0;
              instances = before.holds.0.1;
              healthz = before.holds.1;
              readyz = refl;
            };
          })
          start-Leads)

  add_watcher-Leads :
      (watcher : Option CertWatcher) (next : Main W Ending)
      → Leads provider Running next
      → Leads provider Running (add_watcher l p watcher next)
  unfolding add_watcher on_option
  add_watcher-Leads none next leads = leads
  add_watcher-Leads (some w) next leads =
      Leads-attempt l p provider Running Running _ _ _
        (λ s world before. record { quiet = before.quiet; holds = before.holds }) leads

  run_manager-Leads :
      (webhook metrics : Option CertWatcher)
      → Leads provider Running (run_manager l p webhook metrics)
  unfolding run_manager
  run_manager-Leads webhook metrics =
      add_watcher-Leads metrics _ (add_watcher-Leads webhook _ add_checks-Leads)

  set_up_controllers-Leads :
      (next : Main W Ending)
      → Leads provider Running next
      → Leads provider (λ s. Unit {0}) (set_up_controllers l p provider next)
  unfolding set_up_controllers
  set_up_controllers-Leads next leads =
      let given = with_provider l p provider in
      Leads-set_up l p provider (λ s. Unit {0}) (λ s. PoolsRun provider s.program)
        (setup_bare_metal_pool_controller given) _
        (λ s u silent. (setup_pools-Yields given).at s.program silent)
        (Leads-set_up l p provider (λ s. PoolsRun provider s.program) Running
          (setup_bare_metal_instance_controller given) next
          (λ s pools silent. (
            (setup_instances-Keeps given provider).at s.program pools,
            (setup_instances-Yields given).at s.program silent,
          ))
          leads)

module _ {J W : Type 0} (l : Libraries W) (p : Parts J W) where
  abbrev Fresh : Launch W → Type 0
  Fresh s = Unit {0}

  -- A call before the controllers are set up.
  attempt-Leads :
      (provider : Bool) (event : Event) (f : W → Option Error × W) (next : Main W Ending)
      → ((es : List Event) → has_started es ≡ false → has_started (event ∷ es) ≡ false)
      → Leads provider Fresh next
      → Leads provider Fresh (attempt l p event f next)
  attempt-Leads provider event f next quiet leads =
      Leads-attempt l p provider Fresh Fresh event f next
        (λ s w before. record { quiet = quiet s.events before.quiet; holds = tt }) leads

  provision-Leads :
      (next : Bool → Main W Ending)
      → ((provider : Bool) → Leads provider Fresh (next provider))
      → Leads (has_aap l p) Fresh (provision l p next)
  unfolding provision
  provision-Leads next leads = elim (Bool-cases (has_aap l p)) [
    | inl given ↦ rw given (attempt-Leads true _ _ _ (λ es h. h) (leads true))
    | inr missing ↦ rw missing (leads false)
  ]

  watch-Leads :
      (path name key : String) (next : Option CertWatcher → Main W Ending)
      → ((watcher : Option CertWatcher) → Leads (has_aap l p) Fresh (next watcher))
      → Leads (has_aap l p) Fresh (watch l p path name key next)
  unfolding watch
  watch-Leads path name key next leads = elim (Bool-cases (path == "")) [
    | inl missing ↦ rw missing (leads none)
    | inr given ↦ rw given (attempt-Leads (has_aap l p) _ _ _ (λ es h. h) (leads _))
  ]

  launch-Leads :
      (flags : Flags) (webhook metrics : Option CertWatcher)
      → Leads (has_aap l p) Fresh (launch l p flags webhook metrics)
  unfolding launch manage
  launch-Leads flags webhook metrics =
      elim (Bool-cases (p.system.getenv "OSAC_BARE_METAL_FULFILLMENT_NAMESPACE" == "")) [
        | inl missing ↦ rw missing (Leads-exited l p (has_aap l p) Fresh)
        | inr given ↦ rw given (
            attempt-Leads (has_aap l p) _ _ _ (λ es h. h)
              (provision-Leads _ (λ provider.
                set_up_controllers-Leads l p provider _
                  (run_manager-Leads l p provider webhook metrics))))
      ]

  -- Do the variables of the environment name both the URL and the token of AAP?
  abbrev pub is_configured : Bool
  is_configured =
      not (p.system.getenv "OSAC_AAP_URL" == "") && not (p.system.getenv "OSAC_AAP_TOKEN" == "")

  has_aap-is_configured : has_aap l p ≡ is_configured
  unfolding has_aap provider_config string_with_default value_or_default is_valid
  has_aap-is_configured = ground (
    arith,
    eq_iff (p.system.getenv "OSAC_AAP_URL") "",
    eq_iff (p.system.getenv "OSAC_AAP_TOKEN") "",
  )

  main-Leads : (flags : Flags) → Leads (has_aap l p) Fresh (main l p flags)
  unfolding main
  main-Leads flags =
      watch-Leads flags.webhook_cert_path flags.webhook_cert_name flags.webhook_cert_key _
        (λ webhook.
          watch-Leads flags.metrics_cert_path flags.metrics_cert_name flags.metrics_cert_key _
            (λ metrics. launch-Leads flags webhook metrics))

  -- Whatever the libraries answer, and whatever the flags, the environment and the files hold:
  -- when main, which no start came before, has started the manager, both controllers are set up,
  -- with a provisioning provider exactly if the environment variables of the URL and of the token
  -- of AAP are both set and not empty, and the health check and the readiness check are added.
  pub main-IsServing :
      (flags : Flags) (s : Launch W)
      → has_started s.events ≡ false
      → has_started (main l p flags s).1.events ≡ true
      → IsServing is_configured (main l p flags s).1
  main-IsServing flags s quiet started =
      subst (λ b. IsServing b (main l p flags s).1) has_aap-is_configured
        ((main-Leads flags).serves s (record { quiet = quiet; holds = tt }) started)

  -- Where main returns, rather than exits, it has started the manager.
  pub main_returned :
      (flags : Flags) (s : Launch W)
      → has_started s.events ≡ false
      → (main l p flags s).0 ≡ returned
      → has_started (main l p flags s).1.events ≡ true
  main_returned flags s quiet ended =
      (main-Leads flags).returns s (record { quiet = quiet; holds = tt }) ended
