-- ===== src/Inventory/Contract.antt =====
-- What the instance controller relies on in an inventory: a table of the owners of the hosts, by
-- host id, and how each call of the Client interface of internal/inventory/client.go may change it.
use bare_metal_operator.Prelude.{
  String, Bool, true, false, Option, none, some, List, ◌==◌, ◌≡◌, refl, ◌∙◌, arith, eq_iff, eq_refl,
  inl, inr, Bool-cases, subst, if◌then◌else◌,
}
use bare_metal_operator.Prelude.Dict.{Dict}
use bare_metal_operator.Shared.{Error, Res, ok, err}
use bare_metal_operator.Inventory
use bare_metal_operator.Inventory.{Host}

-- The uid of the instance that owns a host, by host id.
abbrev pub Owners : Type 0
Owners = String → Option String

abbrev pub Same : Owners → Owners → Type 0
Same before behind = (j : String) → behind j ≡ before j

-- May the instance be given a host with that owner?
abbrev pub is_open : String → Option String → Bool
is_open instance_id none = true
is_open instance_id (some owner) = owner == instance_id

abbrev pub put_owner : String → Option String → Owners → Owners
put_owner host_id owner owners j = if j == host_id then owner else owners j

-- An answer of AssignHost, and the owners before and after it. An error may come before the write
-- or after it.
pub data Assigns (host_id instance_id : String) (before behind : Owners)
    : Res (Option Host) → Type 0 where
  given :
      (host : Host)
      → is_open instance_id (before host_id) ≡ true
      → Same (put_owner host_id (some instance_id) before) behind
      → Assigns host_id instance_id before behind (ok (some host))
  taken :
      is_open instance_id (before host_id) ≡ false
      → Same before behind
      → Assigns host_id instance_id before behind (ok none)
  failed : (e : Error) → Same before behind → Assigns host_id instance_id before behind (err e)
  written :
      (e : Error)
      → is_open instance_id (before host_id) ≡ true
      → Same (put_owner host_id (some instance_id) before) behind
      → Assigns host_id instance_id before behind (err e)

-- An answer of UnassignHost, in the same way.
pub data Unassigns (host_id : String) (before behind : Owners) : Option Error → Type 0 where
  freed : Same (put_owner host_id none before) behind → Unassigns host_id before behind none
  kept : (e : Error) → Same before behind → Unassigns host_id before behind (some e)
  cleared :
      (e : Error)
      → Same (put_owner host_id none before) behind
      → Unassigns host_id before behind (some e)

-- `accepts` are the labels that leave the backend's own mark of the owner alone.
pub record IsInventory {W : Type 0} (client : Inventory.Client W) (accepts : Dict String → Bool)
    (owners : W → Owners) : Type 0 where
  pub finds :
      (match_expressions : Dict String) (w : W)
      → Same (owners w) (owners (client.find_free_host match_expressions w).1)
  pub assigns :
      (host_id instance_id : String) (labels : Dict String) (w : W)
      → accepts labels ≡ true
      → Assigns host_id instance_id
          (owners w)
          (owners (client.assign_host host_id instance_id labels w).1)
          (client.assign_host host_id instance_id labels w).0
  pub unassigns :
      (host_id : String) (labels : List String) (w : W)
      → Unassigns host_id
          (owners w)
          (owners (client.unassign_host host_id labels w).1)
          (client.unassign_host host_id labels w).0

put_owner-others :
    (host_id instance_id : String) (before behind : Owners) (j owner : String)
    → is_open instance_id (before host_id) ≡ true
    → behind j ≡ put_owner host_id (some instance_id) before j
    → (owner == instance_id) ≡ false
    → before j ≡ some owner
    → behind j ≡ some owner
put_owner-others host_id instance_id before behind j owner vacant same other h =
    elim (Bool-cases (j == host_id)) [
      | inl here ↦
          let owned = subst (λ k. before k ≡ some owner) ((eq_iff j host_id).0 here) h in
          absurd (ground (arith, rw owned at vacant, other))
      | inr away ↦ same ∙ rw away h
    ]

-- A call for one instance leaves the hosts of the others with them, whatever it answers.
pub Assigns-others :
    (host_id instance_id : String) (before behind : Owners) (answer : Res (Option Host))
    (j owner : String)
    → Assigns host_id instance_id before behind answer
    → (owner == instance_id) ≡ false
    → before j ≡ some owner
    → behind j ≡ some owner
Assigns-others host_id instance_id before behind _ j owner (given host vacant same) other h =
    put_owner-others host_id instance_id before behind j owner vacant (same j) other h
Assigns-others host_id instance_id before behind _ j owner (taken closed same) other h = same j ∙ h
Assigns-others host_id instance_id before behind _ j owner (failed e same) other h = same j ∙ h
Assigns-others host_id instance_id before behind _ j owner (written e vacant same) other h =
    put_owner-others host_id instance_id before behind j owner vacant (same j) other h

-- The host that an assignment answers with is the instance's.
pub Assigns-given :
    (host_id instance_id : String) (before behind : Owners) (answer : Res (Option Host))
    (host : Host)
    → Assigns host_id instance_id before behind answer
    → answer ≡ ok (some host)
    → behind host_id ≡ some instance_id
Assigns-given host_id instance_id before behind _ host (given h vacant same) answered =
    ground (arith, same host_id, eq_refl host_id)
Assigns-given host_id instance_id before behind _ host (taken closed same) answered =
    absurd (ground (arith, answered))
Assigns-given host_id instance_id before behind _ host (failed e same) answered =
    absurd (ground (arith, answered))
Assigns-given host_id instance_id before behind _ host (written e vacant same) answered =
    absurd (ground (arith, answered))

pub Unassigns-freed :
    (host_id : String) (before behind : Owners) (answer : Option Error)
    → Unassigns host_id before behind answer
    → answer ≡ none
    → behind host_id ≡ none
Unassigns-freed host_id before behind _ (freed same) answered =
    ground (arith, same host_id, eq_refl host_id)
Unassigns-freed host_id before behind _ (kept e same) answered = absurd (ground (arith, answered))
Unassigns-freed host_id before behind _ (cleared e same) answered =
    absurd (ground (arith, answered))

pub Unassigns-others :
    (host_id : String) (before behind : Owners) (answer : Option Error) (j : String)
    → Unassigns host_id before behind answer
    → (j == host_id) ≡ false
    → behind j ≡ before j
Unassigns-others host_id before behind _ j (freed same) other = same j ∙ rw other refl
Unassigns-others host_id before behind _ j (kept e same) other = same j
Unassigns-others host_id before behind _ j (cleared e same) other = same j ∙ rw other refl

-- A host that the instance may have is given to it, unless the call errs.
pub Assigns-vacant :
    (host_id instance_id : String) (before behind : Owners) (answer : Res (Option Host))
    (x : Option Host)
    → Assigns host_id instance_id before behind answer
    → answer ≡ ok x
    → is_open instance_id (before host_id) ≡ true
    → (host : Host) × answer ≡ ok (some host)
Assigns-vacant host_id instance_id before behind _ x (given h vacant same) answered opened =
    (h, refl)
Assigns-vacant host_id instance_id before behind _ x (taken closed same) answered opened =
    absurd (ground (arith, closed, opened))
Assigns-vacant host_id instance_id before behind _ x (failed e same) answered opened =
    absurd (ground (arith, answered))
Assigns-vacant host_id instance_id before behind _ x (written e vacant same) answered opened =
    absurd (ground (arith, answered))
