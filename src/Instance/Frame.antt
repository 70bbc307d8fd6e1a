-- ===== src/Instance/Frame.antt =====
-- What every handler keeps: a property of the calls, the locks and the panic flag that survives
-- one more call of a kind that the handler may make.
use bare_metal_operator.Prelude.{String, Bool, true, false, List, ◌∷◌, ◌≡◌}
use bare_metal_operator.Shared.{Error, Res, CtrlResult, Outcome}
use bare_metal_operator.Effect.{Keeps, keeps_rules, Keeps-bind}
use bare_metal_operator.Kube.{ConditionStatus}
use bare_metal_operator.Lock.{HostLocks}
use bare_metal_operator.Api.Instance.{BareMetalInstance, Phase}
use bare_metal_operator.Provisioning.{
  Lifecycle, returns, acts, stores_jobs, fails, succeeds, checks, flushes,
}
use bare_metal_operator.Instance.State.{
  Reconciler, State, Handler, Call, assigns, unassigns, locked, refused, unlocked, object, change,
  perform, store, update, update_status, set_condition, set_phase, add_finalizer, remove_finalizer,
}
use bare_metal_operator.Inventory.{Host}
use bare_metal_operator.Management.{PowerStatus}
use bare_metal_operator.Instance.Allocate.{
  no_matching_hosts, keep_host, find_host, lose_host, mark_allocated, accept_host,
}
use bare_metal_operator.Instance.Provision.{
  act, ask, on_failed, on_success, run_lifecycle, mark_in_flight, provision, reconcile_provisioning,
  deprovision_failed, deprovision_returned, reconcile_deprovisioning,
}
use bare_metal_operator.Instance.Restart.{
  restart_refused, restart_triggered, trigger_restart, complete_restart, await_restart,
  start_restart, changed_trigger, reconcile_restart_trigger,
}
use bare_metal_operator.Instance.Power.{
  power_refused, change_power, reconcile_power, sync_failed, settled, sync_status,
}
use bare_metal_operator.Instance.Manage.{
  power_failed, with_power_state, settle, act_on_power, reconcile_power_state, restart_pending,
  restart_then_power, provisioned, provision_first, added_finalizer, reconcile_management,
}
use bare_metal_operator.Instance.Delete.{release_inventory, no_provider}
use bare_metal_operator.Instance.Reconcile.{unconfigured}

-- The calls that neither take a lock nor need one.
abbrev pub is_plain : Call → Bool
is_plain (assigns host uid labels) = false
is_plain (unassigns host labels) = false
is_plain (locked host) = false
is_plain (refused host) = false
is_plain (unlocked host) = false
is_plain _ = true

module _ {W : Type 0} (Q : List Call → HostLocks → Bool → Type 0) where
  -- The property, of a state.
  abbrev pub At : State W → Type 0
  At s = Q s.calls s.locks s.panicked

  pub object-Keeps : Keeps At object
  unfolding object
  object-Keeps = record { at = λ s h. h }

  pub change-Keeps : (f : BareMetalInstance → BareMetalInstance) → Keeps At (change f)
  unfolding change
  change-Keeps f = record { at = λ s h. h }

  pub store-Keeps : (a : Res BareMetalInstance) → Keeps At (store a)
  unfolding store
  store-Keeps a = record { at = λ s h. h }

  pub perform-Keeps :
      {A : Type 0} (c : Call) (f : W → A × W)
      → ((cs : List Call) (ls : HostLocks) (p : Bool) → Q cs ls p → Q (c ∷ cs) ls p)
      → Keeps At (perform c f)
  unfolding perform
  perform-Keeps c f push = record { at = λ s h. push s.calls s.locks s.panicked h }

abbrev pub Pushes : (List Call → HostLocks → Bool → Type 0) → Call → Type 0
Pushes Q c = (cs : List Call) (ls : HostLocks) (p : Bool) → Q cs ls p → Q (c ∷ cs) ls p

module _ {W : Type 0} (r : Reconciler W) (Q : List Call → HostLocks → Bool → Type 0)
    (push : (c : Call) → is_plain c ≡ true → Pushes Q c) where
  abbrev P : State W → Type 0
  P = At Q

  plain-Keeps : {A : Type 0} (c : Call) (f : W → A × W) → is_plain c ≡ true → Keeps P (perform c f)
  plain-Keeps c f plain = perform-Keeps Q c f (push c plain)

  o-Keeps : Keeps P object
  o-Keeps = object-Keeps Q

  c-Keeps : (f : BareMetalInstance → BareMetalInstance) → Keeps P (change f)
  c-Keeps = change-Keeps Q

  s-Keeps : (a : Res BareMetalInstance) → Keeps P (store a)
  s-Keeps = store-Keeps Q

  ruleset base = (keeps_rules, plain-Keeps, o-Keeps, c-Keeps, s-Keeps)

  pub update-Keeps : Keeps P (update r)
  unfolding update
  update-Keeps = search base

  pub update_status-Keeps : Keeps P (update_status r)
  unfolding update_status
  update_status-Keeps = search base

  pub set_condition-Keeps :
      (kind : String) (status : ConditionStatus) (reason message : String)
      → Keeps P (set_condition r kind status reason message)
  unfolding set_condition
  set_condition-Keeps kind status reason message = search base

  pub set_phase-Keeps : (phase : Phase) → Keeps P (set_phase r phase)
  unfolding set_phase
  set_phase-Keeps phase = search base

  pub add_finalizer-Keeps : (f : String) → Keeps P (add_finalizer r f)
  unfolding add_finalizer
  add_finalizer-Keeps f = record { at = λ s h. h }

  pub remove_finalizer-Keeps : (f : String) → Keeps P (remove_finalizer r f)
  unfolding remove_finalizer
  remove_finalizer-Keeps f = record { at = λ s h. h }

  ruleset writes = (
    base, update-Keeps, update_status-Keeps, set_condition-Keeps, set_phase-Keeps,
    add_finalizer-Keeps, remove_finalizer-Keeps,
  )

  pub find_host-Keeps : Keeps P (find_host r)
  unfolding find_host no_matching_hosts keep_host
  find_host-Keeps = search writes depth 9

  pub lose_host-Keeps : Keeps P (lose_host r)
  unfolding lose_host
  lose_host-Keeps = search writes depth 9

  pub accept_host-Keeps : (host : Host) → Keeps P (accept_host r host)
  unfolding accept_host mark_allocated
  accept_host-Keeps host = search writes depth 9

  act-Keeps : (f : W → W) → Keeps P (act r f)
  unfolding act
  act-Keeps f = record { at = λ s h. h }

  ask-Keeps : (f : BareMetalInstance → W → Bool × W) → Keeps P (ask r f)
  unfolding ask
  ask-Keeps f = record { at = λ s h. h }

  pub on_failed-Keeps : (message : String) → Keeps P (on_failed r message)
  unfolding on_failed
  on_failed-Keeps message = search writes

  pub on_success-Keeps : Keeps P (on_success r)
  unfolding on_success
  on_success-Keeps = search writes

  pub run_lifecycle-Keeps : (l : Lifecycle W) → Keeps P (run_lifecycle r l)
  unfolding run_lifecycle
  run_lifecycle-Keeps (returns result e) = search base
  run_lifecycle-Keeps (acts f next) =
      Keeps-bind _ _ (act-Keeps f) (λ w. run_lifecycle-Keeps (next w))
  run_lifecycle-Keeps (stores_jobs jobs next) =
      Keeps-bind _ _ (c-Keeps _) (λ _. run_lifecycle-Keeps next)
  run_lifecycle-Keeps (fails message next) =
      Keeps-bind _ _ (on_failed-Keeps message) (λ _. run_lifecycle-Keeps next)
  run_lifecycle-Keeps (succeeds next) =
      Keeps-bind _ _ on_success-Keeps (λ _. run_lifecycle-Keeps next)
  run_lifecycle-Keeps (checks next) =
      Keeps-bind _ _ (ask-Keeps _) (λ b. run_lifecycle-Keeps (next b))
  run_lifecycle-Keeps (flushes next) =
      Keeps-bind _ _ update_status-Keeps (λ e. run_lifecycle-Keeps (next e))

  pub mark_in_flight-Keeps : (result : CtrlResult) → Keeps P (mark_in_flight r result)
  unfolding mark_in_flight
  mark_in_flight-Keeps result = search writes depth 9

  pub provision-Keeps : (version : String) → Keeps P (provision r version)
  unfolding provision
  provision-Keeps version = search (writes, run_lifecycle-Keeps, mark_in_flight-Keeps) depth 9

  pub reconcile_provisioning-Keeps : Keeps P (reconcile_provisioning r)
  unfolding reconcile_provisioning
  reconcile_provisioning-Keeps = search (writes, provision-Keeps)

  deprovision_returned-Keeps :
      (result : CtrlResult) (is_done : Bool) → Keeps P (deprovision_returned r result is_done)
  unfolding deprovision_returned
  deprovision_returned-Keeps result true = search writes
  deprovision_returned-Keeps result false = search writes

  pub reconcile_deprovisioning-Keeps : Keeps P (reconcile_deprovisioning r)
  unfolding reconcile_deprovisioning deprovision_failed
  reconcile_deprovisioning-Keeps = search (writes, deprovision_returned-Keeps) depth 9

  pub restart_refused-Keeps : (host : String) (e : Error) → Keeps P (restart_refused r host e)
  unfolding restart_refused
  restart_refused-Keeps host e = search writes depth 9

  pub trigger_restart-Keeps : Keeps P (trigger_restart r)
  unfolding trigger_restart restart_triggered
  trigger_restart-Keeps = search (writes, restart_refused-Keeps) depth 9

  pub complete_restart-Keeps : (message : String) → Keeps P (complete_restart r message)
  unfolding complete_restart
  complete_restart-Keeps message = search writes depth 9

  pub await_restart-Keeps : Keeps P (await_restart r)
  unfolding await_restart
  await_restart-Keeps = search (writes, complete_restart-Keeps) depth 9

  pub start_restart-Keeps : Keeps P (start_restart r)
  unfolding start_restart
  start_restart-Keeps = search (writes, trigger_restart-Keeps, complete_restart-Keeps) depth 9

  pub reconcile_restart_trigger-Keeps : Keeps P (reconcile_restart_trigger r)
  unfolding reconcile_restart_trigger changed_trigger
  reconcile_restart_trigger-Keeps =
      search (writes, complete_restart-Keeps, await_restart-Keeps, start_restart-Keeps) depth 9

  pub power_refused-Keeps : (e : Error) → Keeps P (power_refused r e)
  unfolding power_refused
  power_refused-Keeps e = search writes

  pub reconcile_power-Keeps : (status : PowerStatus) → Keeps P (reconcile_power r status)
  unfolding reconcile_power change_power
  reconcile_power-Keeps status = search (writes, power_refused-Keeps) depth 9

  pub power_failed-Keeps : (e : Error) → Keeps P (power_failed r e)
  unfolding power_failed sync_failed
  power_failed-Keeps e = search writes depth 9

  pub sync_status-Keeps : (status : PowerStatus) → Keeps P (sync_status r status)
  unfolding sync_status settled
  sync_status-Keeps status = search writes depth 9

  pub settle-Keeps : (status : PowerStatus) → Keeps P (settle r status)
  unfolding settle
  settle-Keeps status = search (writes, sync_status-Keeps) depth 9

  with_power_state-Keeps :
      (next : PowerStatus → Handler W Outcome)
      → ((status : PowerStatus) → Keeps P (next status))
      → Keeps P (with_power_state r next)
  unfolding with_power_state
  with_power_state-Keeps next keeps = search (writes, power_failed-Keeps, keeps) depth 9

  pub act_on_power-Keeps : (status : PowerStatus) → Keeps P (act_on_power r status)
  unfolding act_on_power
  act_on_power-Keeps status =
      search
        (writes, settle-Keeps, reconcile_power-Keeps, power_failed-Keeps, with_power_state-Keeps)
        depth 9

  pub restart_pending-Keeps : (outcome : Outcome) → Keeps P (restart_pending r outcome)
  unfolding restart_pending
  restart_pending-Keeps outcome = search writes depth 9

  pub restart_then_power-Keeps : Keeps P (restart_then_power r)
  unfolding restart_then_power reconcile_power_state
  restart_then_power-Keeps =
      search
        (
          writes, reconcile_restart_trigger-Keeps, restart_pending-Keeps, with_power_state-Keeps,
          act_on_power-Keeps,
        )
        depth 9

  pub provision_first-Keeps : Keeps P (provision_first r)
  unfolding provision_first provisioned
  provision_first-Keeps =
      search (writes, reconcile_provisioning-Keeps, restart_then_power-Keeps) depth 9

  pub reconcile_management-Keeps : Keeps P (reconcile_management r)
  unfolding reconcile_management added_finalizer
  reconcile_management-Keeps =
      search (writes, provision_first-Keeps, restart_then_power-Keeps) depth 9

  pub release_inventory-Keeps : Keeps P (release_inventory r)
  unfolding release_inventory
  release_inventory-Keeps = search writes depth 9

  pub no_provider-Keeps : Keeps P (no_provider r)
  unfolding no_provider
  no_provider-Keeps = search writes depth 9

  pub unconfigured-Keeps : Keeps P (unconfigured r)
  unfolding unconfigured
  unconfigured-Keeps = search writes depth 9
