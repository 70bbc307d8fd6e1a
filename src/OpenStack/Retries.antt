-- ===== src/OpenStack/Retries.antt =====
-- The requests and the new clients of the operations of the two backends, with their second
-- attempts.
use bare_metal_operator.Prelude.{ℕ, ◌+◌, ◌*◌, ◌≤◌, String, List, [], ◌∷◌, arith, ◌==◌, ◌<>◌}
use bare_metal_operator.Prelude.Dict.{Dict}
use bare_metal_operator.Effect.{◌>>=◌}
use bare_metal_operator.Management.{PowerState}
use bare_metal_operator.OpenStack.{Ironic, Session, Node, UpdateOperation}
use bare_metal_operator.OpenStack.Costs.{
  IsMetered, Costs, Costs-pure, Costs-bind, Costs-if, Costs-on_res, Costs-on_option, Costs-request,
  with_auth_retry-Costs, retrying-Costs,
}
use bare_metal_operator.OpenStack.Inventory.{
  OpenStackClient, ensure_labels, write_labels, claim, assign_once, assign_host, drop_labels,
  unassign_once, unassign_host,
}
use bare_metal_operator.OpenStack.Management.{
  get_power_state, power_request, change_power, set_power_state, trigger_restart,
  is_restart_complete,
}

module _ {C W : Type 0} (ironic : Ironic C W) (cost : W → ℕ) (price login : ℕ)
    (metered : IsMetered ironic cost price login) where
  get_power_state-Costs :
      (host_id : String)
      → Costs cost (price + (login + 0 + price) + 0) (get_power_state ironic host_id)
  unfolding get_power_state
  get_power_state-Costs host_id =
      Costs-bind cost _ 0 _ _
        (with_auth_retry-Costs ironic cost price login metered price _
          (λ c w. metered.gets c host_id w))
        (λ answer.
          Costs-on_res cost 0 answer _ _ (λ e. Costs-pure cost 0 _) (λ node. Costs-pure cost 0 _))

  is_restart_complete-Costs :
      (host_id : String)
      → Costs cost (price + (login + 0 + price) + 0 + 0) (is_restart_complete ironic host_id)
  unfolding is_restart_complete
  is_restart_complete-Costs host_id =
      Costs-bind cost _ 0 _ _ (get_power_state-Costs host_id) (λ answer.
        Costs-on_res cost 0 answer _ _ (λ e. Costs-pure cost 0 _)
          (λ status.
            Costs-on_option cost 0 status _ _ (Costs-pure cost 0 _) (λ p. Costs-pure cost 0 _)))

  power_request-cost :
      (host_id target : String) (c : C) (w : W)
      → cost (power_request ironic host_id target c w).1 ≤ cost w + price
  unfolding power_request
  power_request-cost host_id target c w = metered.changes c host_id target w

  change_power-Costs :
      (host_id target text : String)
      → Costs cost (price + (login + 0 + price) + 0) (change_power ironic host_id target text)
  unfolding change_power
  change_power-Costs host_id target text =
      Costs-bind cost _ 0 _ _
        (with_auth_retry-Costs ironic cost price login metered price _
          (power_request-cost host_id target))
        (λ answer.
          Costs-on_res cost 0 answer _ _ (λ e. Costs-pure cost 0 _) (λ u. Costs-pure cost 0 _))

  trigger_restart-Costs :
      (host_id : String)
      → Costs cost (price + (login + 0 + price) + 0) (trigger_restart ironic host_id)
  unfolding trigger_restart
  trigger_restart-Costs host_id = change_power-Costs host_id _ _

  set_power_state-Costs :
      (host_id : String) (target : PowerState)
      → Costs cost (price + (login + 0 + price) + 0) (set_power_state ironic host_id target)
  unfolding set_power_state
  set_power_state-Costs host_id target =
      Costs-on_option cost _ _ _ _ (Costs-pure cost _ _) (λ text. change_power-Costs host_id text _)

  -- By any measure that a request to the Ironic server raises by at most `price` and a new client
  -- by at most `login`, each operation of the OpenStack management backend costs at most two
  -- requests and one new client, whatever the server answers.
  pub cost-management :
      (host_id : String) (target : PowerState) (s : Session C W)
      → (cost (get_power_state ironic host_id s).1.world ≤ cost s.world + 2 * price + login)
        × (cost (set_power_state ironic host_id target s).1.world
            ≤ cost s.world + 2 * price + login)
        × (cost (trigger_restart ironic host_id s).1.world ≤ cost s.world + 2 * price + login)
        × (cost (is_restart_complete ironic host_id s).1.world ≤ cost s.world + 2 * price + login)
  cost-management host_id target s = (
    ground (arith, (get_power_state-Costs host_id).at s),
    ground (arith, (set_power_state-Costs host_id target).at s),
    ground (arith, (trigger_restart-Costs host_id).at s),
    ground (arith, (is_restart_complete-Costs host_id).at s),
  )

module _ {C W : Type 0} (m : OpenStackClient C W) (cost : W → ℕ) (price login : ℕ)
    (metered : IsMetered m.ironic cost price login) where
  ensure_labels-Costs :
      (host_id : String) (node : Node) → Costs cost (price + 0) (ensure_labels m host_id node)
  unfolding ensure_labels
  ensure_labels-Costs host_id node = Costs-if cost _ _ _ _ (Costs-pure cost _ _) (
      Costs-bind cost price 0 _ _
        (Costs-request cost price _ (λ c w. metered.updates c host_id _ w))
        (λ answer. Costs-pure cost 0 _))

  write_labels-Costs :
      (host_id instance_id : String) (added : Dict String)
      → Costs cost (price + 0) (write_labels m host_id instance_id added)
  unfolding write_labels
  write_labels-Costs host_id instance_id added =
      Costs-bind cost price 0 _ _
        (Costs-request cost price _ (λ c w. metered.updates c host_id _ w))
        (λ answer.
          Costs-on_res cost 0 answer _ _ (λ e. Costs-pure cost 0 _) (λ node. Costs-pure cost 0 _))

  claim-Costs :
      (host_id instance_id : String) (added : Dict String) (node : Node)
      → Costs cost (price + 0 + (price + 0)) (claim m host_id instance_id added node)
  unfolding claim
  claim-Costs host_id instance_id added node = Costs-if cost _ _ _ _ (Costs-pure cost _ _) (
      Costs-bind cost (price + 0) (price + 0) _ _ (ensure_labels-Costs host_id node) (λ e.
        Costs-on_option cost _ e _ _ (write_labels-Costs host_id instance_id added)
          (λ x. Costs-pure cost _ _)))

  assign_once-Costs :
      (host_id instance_id : String) (added : Dict String)
      → Costs cost (price + (price + 0 + (price + 0))) (assign_once m host_id instance_id added)
  unfolding assign_once
  assign_once-Costs host_id instance_id added =
      Costs-if cost _ (host_id == "") _ _ (Costs-pure cost _ _) (
        Costs-if cost _ (instance_id == "") _ _ (Costs-pure cost _ _) (
          Costs-bind cost price _ _ _ (Costs-request cost price _ (λ c w. metered.gets c host_id w))
            (λ answer.
              Costs-on_res cost _ answer _ _ (λ e. Costs-pure cost _ _)
                (claim-Costs host_id instance_id added))))

  drop_labels-Costs :
      (host_id : String) (ops : List UpdateOperation)
      → Costs cost (price + 0) (drop_labels m host_id ops)
  unfolding drop_labels
  drop_labels-Costs host_id [] = Costs-pure cost _ _
  drop_labels-Costs host_id (op ∷ ops) =
      Costs-bind cost price 0 _ _
        (Costs-request cost price _ (λ c w. metered.updates c host_id _ w))
        (λ answer. Costs-pure cost 0 _)

  unassign_once-Costs :
      (host_id : String) (keys : List String)
      → Costs cost (price + (price + 0)) (unassign_once m host_id keys)
  unfolding unassign_once
  unassign_once-Costs host_id keys =
      Costs-bind cost price _ _ _ (Costs-request cost price _ (λ c w. metered.gets c host_id w))
        (λ answer.
          Costs-on_res cost _ answer _ _ (λ e. Costs-pure cost _ _)
            (λ node. drop_labels-Costs host_id _))

  assign_host-Costs :
      (host_id instance_id : String) (added : Dict String) (s : Session C W)
      → cost (assign_host m host_id instance_id added s).1.world ≤ cost s.world + 6 * price + login
  unfolding assign_host
  assign_host-Costs host_id instance_id added s = ground (
    arith,
    (retrying-Costs m.ironic cost price login metered _ ("assign host " <> host_id) _
          (assign_once-Costs host_id instance_id added)).at
        s,
  )

  unassign_host-Costs :
      (host_id : String) (keys : List String) (s : Session C W)
      → cost (unassign_host m host_id keys s).1.world ≤ cost s.world + 4 * price + login
  unfolding unassign_host ◌>>=◌
  unassign_host-Costs host_id keys s = ground (
    arith,
    (retrying-Costs m.ironic cost price login metered _ ("unassign host " <> host_id) _
          (unassign_once-Costs host_id keys)).at
        s,
  )

  -- By any measure that a request to the Ironic server raises by at most `price` and a new client
  -- by at most `login`, an AssignHost of the OpenStack inventory costs at most six requests and
  -- one new client, and an UnassignHost at most four requests and one new client, whatever the
  -- server answers.
  pub cost-inventory :
      (host_id instance_id : String) (added : Dict String) (keys : List String) (s : Session C W)
      → (cost (assign_host m host_id instance_id added s).1.world
          ≤ cost s.world + 6 * price + login)
        × (cost (unassign_host m host_id keys s).1.world ≤ cost s.world + 4 * price + login)
  cost-inventory host_id instance_id added keys s =
      (assign_host-Costs host_id instance_id added s, unassign_host-Costs host_id keys s)
