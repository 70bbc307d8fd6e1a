-- ===== src/OpenStack/Samples.antt =====
-- An Ironic server with one node. The client in use at first has expired, so that every operation
-- starts with an authentication failure and a new client.
use bare_metal_operator.Prelude.{
  ℕ, ◌+◌, String, Bool, true, false, Option, none, some, List, [], ◌∷◌, ◌≡◌, refl, ◌⊎◌, arith, ◌==◌,
  eq_iff, inl, inr, Bool-cases, Option-cases, if◌then◌else◌,
}
use bare_metal_operator.Shared.{Error, api, unauthorized, not_found, failure, Res, ok, err}
use bare_metal_operator.OpenStack.{
  Extra, missing, Node, UpdateOperation, last, page, Ironic, Session,
}
use bare_metal_operator.OpenStack.Inventory.{OpenStackClient}
use bare_metal_operator.OpenStack.Costs.{IsMetered}
use bare_metal_operator.OpenStack.Patch.{patch}
use bare_metal_operator.OpenStack.Owners.{Unchanged, IsPatched, IsIronic}

-- The labels of the node, and the requests and new clients so far, a new client counted as ten.
pub record World : Type 0 where
  pub osac_labels : Extra
  pub spent : ℕ

abbrev node : World → Node
node w = record {
  uuid = "node-1";
  name = "rack-7";
  resource_class = "large";
  provision_state = "available";
  power_state = "power off";
  target_power_state = "";
  osac_labels = w.osac_labels;
}

abbrev pub held : String → World → Res Node
held id w = if id == "node-1" then ok (node w) else err (api not_found)

abbrev pub spend : ℕ → World → World
spend n w = record w { spent = w.spent + n }

-- `false` is a client that has expired.
abbrev checked : {A : Type 0} → Bool → Res A → Res A
checked true answer = answer
checked false answer = err (api unauthorized)

abbrev stored : Option Extra → World → Res Node × World
stored none w = (err (api (failure "400")), spend 1 w)
stored (some e) w =
    (ok (node (record w { osac_labels = e })), record { osac_labels = e; spent = w.spent + 1 })

abbrev write : Bool → String → List UpdateOperation → World → Res Node × World
write c id ops w =
    if c
    then (if id == "node-1"
        then stored (patch ops w.osac_labels) w
        else (err (api not_found), spend 1 w))
    else (err (api unauthorized), spend 1 w)

abbrev to_error : Res Node → Option Error
to_error (ok n) = none
to_error (err e) = some e

abbrev pub ironic : Ironic Bool World
ironic = record {
  list = λ c class state w. (page (node w ∷ []) (λ v. v) (λ v. last), spend 1 w);
  get = λ c id w. (checked c (held id w), spend 1 w);
  update = write;
  change_power_state = λ c id target w. (to_error (checked c (held id w)), spend 1 w);
  new_service_client = λ w. (ok true, spend 10 w);
  new_management_client = λ w. (ok (some true), spend 10 w);
  endpoint = λ c. "http://ironic";
  shuffle = λ nodes w. (nodes, w);
}

write-spent :
    (c : Bool) (id : String) (ops : List UpdateOperation) (w : World)
    → (write c id ops w).1.spent ≡ w.spent + 1
write-spent c id ops w = elim (Option-cases (patch ops w.osac_labels)) [
  | inl refused ↦ ground (arith, refused)
  | inr (e, accepted) ↦ ground (arith, accepted)
]

pub ironic-IsMetered : IsMetered ironic (λ w. w.spent) 1 10
ironic-IsMetered = record {
  gets = λ c id w. ground arith;
  updates = λ c id ops w. ground (arith, write-spent c id ops w);
  changes = λ c id target w. ground arith;
  logs_in = λ w. ground arith;
  renews = λ w. ground arith;
}

write-cases :
    (c : Bool) (id : String) (ops : List UpdateOperation) (w : World)
    → ((e : Error) × ((write c id ops w).0 ≡ err e) × Unchanged held w (write c id ops w).1)
      ⊎ IsPatched held id ops w (write c id ops w).1
write-cases false id ops w = inl (api unauthorized, refl, λ j. refl)
write-cases true id ops w = elim (Bool-cases (id == "node-1")) [
  | inr other ↦ inl (api not_found, rw other refl, rw other (λ j. refl))
  | inl here ↦ elim (Option-cases (patch ops w.osac_labels)) [
    | inl refused ↦
        inl (api (failure "400"), rw (here, refused) refl, rw (here, refused) (λ j. refl))
    | inr (e, accepted) ↦ inr (record {
      before = node w;
      behind = node (record w { osac_labels = e });
      found = rw here refl;
      stored = rw (here, accepted) refl;
      patched = accepted;
      others = λ j away. rw (here, accepted) (ground (arith, away, eq_iff id "node-1"));
    })
  ]
]

read-cases :
    (c : Bool) (id : String) (w : World)
    → (((e : Error) × (checked c (held id w) ≡ err e))
        ⊎ ((n : Node) × (checked c (held id w) ≡ ok n) × (held id w ≡ ok n)))
      × Unchanged held w (spend 1 w)
read-cases false id w = (inl (api unauthorized, refl), λ j. refl)
read-cases true id w = elim (Bool-cases (id == "node-1")) [
  | inl here ↦ (inr (node w, rw here refl, rw here refl), λ j. refl)
  | inr other ↦ (inl (api not_found, rw other refl), λ j. refl)
]

pub ironic-IsIronic : IsIronic ironic held
ironic-IsIronic = record {
  lists = λ c class state w. (((λ v id. refl), λ v. tt), λ id. refl);
  shuffles = λ nodes w id. refl;
  reads = read-cases;
  updates = write-cases;
  logs_in = λ w id. refl;
}

abbrev pub backend : OpenStackClient Bool World
backend = record { ironic = ironic; host_class = "openstack"; network_class = "neutron" }

-- The session with the client that has expired, and a node without labels.
abbrev pub session : Session Bool World
session = record { client = false; world = record { osac_labels = missing; spent = 0 } }
