-- ===== src/OpenStack/Backend.antt =====
-- The OpenStack inventory, second attempts included, as an implementation of the contract of the
-- inventories.
use bare_metal_operator.Prelude.{String, not, Option, none, List, ◌≡◌, ◌∙◌, ap, arith, ◌<>◌}
use bare_metal_operator.Prelude.Dict.{Dict, lookup}
use bare_metal_operator.Profile.{is_some}
use bare_metal_operator.Shared.{Res, error_of}
use bare_metal_operator.Effect.{◌>>=◌}
use bare_metal_operator.Inventory.{Host}
use bare_metal_operator.Inventory.Contract.{Same, Assigns, failed, Unassigns, kept, IsInventory}
use bare_metal_operator.Inventory.Attempts.{
  Assigns-before, Assigns-again, Assigns-error, Unassigns-before, Unassigns-again, Unassigns-error,
}
use bare_metal_operator.OpenStack.{Node, Session}
use bare_metal_operator.OpenStack.Inventory.{
  OpenStackClient, bare_metal_instance_id_label, find_once, find_free_host, assign_once,
  assign_host, unassign_once, unassign_host, inventory_client,
}
use bare_metal_operator.OpenStack.Owners.{owners, IsIronic}
use bare_metal_operator.OpenStack.Twice.{AllowsRetry, retrying-At}
use bare_metal_operator.OpenStack.Refinement.{assign_once-Assigns}
use bare_metal_operator.OpenStack.Release.{unassign_once-Unassigns, find_once-Same}

module _ {C W : Type 0} (m : OpenStackClient C W) (held : String → W → Res Node)
    (lawful : IsIronic m.ironic held) where
  assigns-AllowsRetry : (host_id instance_id : String) → AllowsRetry (Assigns host_id instance_id)
  assigns-AllowsRetry host_id instance_id = record {
    fails = λ first second e same. failed e same;
    starts = Assigns-before host_id instance_id;
    repeats = Assigns-again host_id instance_id;
    rewords = Assigns-error host_id instance_id;
  }

  unassigns-AllowsRetry :
      (host_id : String)
      → AllowsRetry {A = Unit {0}}
          (λ first second answer. Unassigns host_id first second (error_of answer))
  unassigns-AllowsRetry host_id = record {
    fails = λ first second e same. kept e same;
    starts =
        λ first second third answer. Unassigns-before host_id first second third (error_of answer);
    repeats = λ first second third failure answer e h.
        Unassigns-again host_id first second third (error_of failure) (error_of answer) e
          (ap error_of h);
    rewords = λ first second failure e x h.
        Unassigns-error host_id first second (error_of failure) e x (ap error_of h);
  }

  finds-AllowsRetry : AllowsRetry {A = Option Host} (λ first second answer. Same first second)
  finds-AllowsRetry = record {
    fails = λ first second e same. same;
    starts = λ first second third answer same rest j. rest j ∙ same j;
    repeats = λ first second third failure answer e h same rest j. rest j ∙ same j;
    rewords = λ first second failure e x h same. same;
  }

  find_free_host-Same :
      (match_expressions : Dict String) (s : Session C W)
      → Same (owners held s.world) (owners held (find_free_host m match_expressions s).1.world)
  unfolding find_free_host
  find_free_host-Same match_expressions =
      retrying-At m.ironic held lawful _ finds-AllowsRetry "find free host"
        (find_once m match_expressions) (find_once-Same m held lawful match_expressions)

  assign_host-Assigns :
      (host_id instance_id : String) (added : Dict String) (s : Session C W)
      → lookup bare_metal_instance_id_label added ≡ none
      → Assigns host_id instance_id
          (owners held s.world)
          (owners held (assign_host m host_id instance_id added s).1.world)
          (assign_host m host_id instance_id added s).0
  unfolding assign_host
  assign_host-Assigns host_id instance_id added s fresh =
      retrying-At m.ironic held lawful _ (assigns-AllowsRetry host_id instance_id)
        ("assign host " <> host_id) (assign_once m host_id instance_id added)
        (λ t. assign_once-Assigns m held lawful host_id instance_id added t fresh) s

  unassign_host-Unassigns :
      (host_id : String) (keys : List String) (s : Session C W)
      → Unassigns host_id
          (owners held s.world)
          (owners held (unassign_host m host_id keys s).1.world)
          (unassign_host m host_id keys s).0
  unfolding unassign_host ◌>>=◌
  unassign_host-Unassigns host_id keys s =
      retrying-At m.ironic held lawful _ (unassigns-AllowsRetry host_id)
        ("unassign host " <> host_id) (unassign_once m host_id keys)
        (unassign_once-Unassigns m held lawful host_id keys) s

  -- The OpenStack inventory fulfils the contract of the inventories, second attempts after an
  -- authentication error included, where the Ironic server applies the JSON patches as RFC 6902
  -- says: AssignHost gives a host, or writes one and then fails, only where no other instance owns
  -- it, and answers with no host exactly where another does; an UnassignHost without an error
  -- leaves no owner; FindFreeHost changes no owner; all other hosts keep theirs. The owner is the
  -- text under the label of the instance, and the labels of an assignment do not use that key
  -- themselves.
  pub openstack-IsInventory :
      IsInventory
        (inventory_client m)
        (λ added. not (is_some (lookup bare_metal_instance_id_label added)))
        (λ s. owners held s.world)
  openstack-IsInventory = record {
    finds = find_free_host-Same;
    assigns = λ host_id instance_id added s accepted.
        assign_host-Assigns host_id instance_id added s (ground (arith, accepted));
    unassigns = unassign_host-Unassigns;
  }
