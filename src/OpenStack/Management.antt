-- ===== src/OpenStack/Management.antt =====
-- internal/management/openstack.go: the power state of an Ironic node, and its restart.
use bare_metal_operator.Prelude.{
  String, Bool, true, false, not, Option, none, some, ◌==◌, ◌<>◌, if◌then◌else◌,
}
use bare_metal_operator.Shared.{Error, new, wrap, transitioning, Res, ok, err}
use bare_metal_operator.Effect.{M, ◌>>=◌, pure, on_res, on_option}
use bare_metal_operator.Management
use bare_metal_operator.Management.{
  PowerState, power_on, power_off, other, power_state_of, PowerStatus,
}
use bare_metal_operator.OpenStack.{Node, Ironic, Session}
use bare_metal_operator.OpenStack.Reconnect.{is_conflict_error, with_auth_retry}

-- The text of a target state that a request takes, if it is one of the two.
abbrev pub target_text : PowerState → Option String
target_text power_on = some "power on"
target_text power_off = some "power off"
target_text (other text) = none

abbrev pub is_named : PowerState → Bool
is_named power_on = true
is_named power_off = true
is_named (other text) = false

abbrev text_of : PowerState → String
text_of power_on = "power on"
text_of power_off = "power off"
text_of (other text) = text

unfoldable pub node_power_status : String → Node → Res (Option PowerStatus)
unfolding power_state_of
node_power_status host_id node =
    if is_named (power_state_of node.power_state)
    then ok (
        some (record {
          state = power_state_of node.power_state;
          is_transitioning = not (node.target_power_state == "");
        }))
    else err (new ("node " <> host_id <> ": unexpected power state " <> node.power_state))

abbrev to_res : Option Error → Res (Unit {0})
to_res none = ok tt
to_res (some e) = err e

module _ {C W : Type 0} (ironic : Ironic C W) where
  abbrev pub SessionHandler : Type 0 → Type 0
  SessionHandler A = M (Session C W) A

  unfoldable pub get_power_state : String → SessionHandler (Res (Option PowerStatus))
  get_power_state host_id = do
    answer ← with_auth_retry ironic (λ c. ironic.get c host_id)
    on_res answer (λ e. pure (err (wrap ("get node " <> host_id) e)))
        (λ node. pure (node_power_status host_id node))

  unfoldable pub power_request : String → String → C → W → Res (Unit {0}) × W
  power_request host_id target c w =
      let (e, v) = ironic.change_power_state c host_id target w in (to_res e, v)

  -- A conflict is a transition; any other error is wrapped.
  abbrev pub refused : String → String → Error → Error
  refused host_id text e =
      if is_conflict_error e then wrap ("node " <> host_id) transitioning else wrap text e

  unfoldable pub change_power : String → String → String → SessionHandler (Option Error)
  change_power host_id target text = do
    answer ← with_auth_retry ironic (power_request host_id target)
    on_res answer (λ e. pure (some (refused host_id text e))) (λ u. pure none)

  unfoldable pub set_power_state : String → PowerState → SessionHandler (Option Error)
  set_power_state host_id target =
      on_option (target_text target)
        (pure
          (some (new ("node " <> host_id <> ": invalid target power state " <> text_of target))))
        (λ text. change_power host_id text ("failed to set power state on node " <> host_id))

  unfoldable pub trigger_restart : String → SessionHandler (Option Error)
  trigger_restart host_id =
      change_power host_id "reboot" ("failed to trigger restart on node " <> host_id)

  unfoldable pub is_restart_complete : String → SessionHandler (Res Bool)
  is_restart_complete host_id = do
    answer ← get_power_state host_id
    on_res answer (λ e. pure (err e))
        (λ status.
          on_option status (pure (err (new ("node " <> host_id <> ": nil power status"))))
            (λ p. pure (ok (not p.is_transitioning))))

  abbrev pub management_client : Management.Client (Session C W)
  management_client = record {
    get_power_state = get_power_state;
    set_power_state = set_power_state;
    trigger_restart = trigger_restart;
    is_restart_complete = is_restart_complete;
  }
