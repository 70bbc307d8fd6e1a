-- ===== src/Metal3/Ownership.antt =====
-- Who owns a host of the Metal3 inventory: the name in its consumer reference. And what a write of
-- one host changes of that.
use bare_metal_operator.Prelude.{
  String, false, not, Option, none, some, List, ◌≡◌, refl, ◌⊎◌, arith, ◌==◌, eq_iff, eq_refl, inl,
  inr, Bool-cases, if◌then◌else◌,
}
use bare_metal_operator.Prelude.Dict.{Dict}
use bare_metal_operator.Shared.{Error, Res, ok, err, Res-cases}
use bare_metal_operator.Inventory.Contract.{Owners, Same, is_open, put_owner}
use bare_metal_operator.Metal3.{ObjectReference, BareMetalHost, Server, is_host}
use bare_metal_operator.Metal3.HostId.{parse_host_id, parse_host_id-joins}
use bare_metal_operator.Metal3.Inventory.{is_taken}

abbrev pub name_of : Option ObjectReference → Option String
name_of none = none
name_of (some ref) = some ref.name

abbrev pub owner_of : Res BareMetalHost → Option String
owner_of (ok b) = name_of b.consumer_ref
owner_of (err e) = none

module _ {W : Type 0} (held : String → String → W → Res BareMetalHost) where
  abbrev pub owner_at : W → Res (String × String) → Option String
  owner_at w (ok (namespace, name)) = owner_of (held namespace name w)
  owner_at w (err e) = none

  -- A host id that names no host has no owner.
  abbrev pub owners : W → Owners
  owners w j = owner_at w (parse_host_id j)

  -- The server holds what it held, or `b` instead of the host of that name.
  abbrev pub Unchanged : W → W → Type 0
  Unchanged v w = (namespace name : String) → held namespace name w ≡ held namespace name v

  abbrev pub Stores : BareMetalHost → W → W → Type 0
  Stores b v w =
      (namespace name : String)
      → held namespace name w ≡ (if is_host namespace name b then ok b else held namespace name v)

-- An update changes one host at most, and nothing or all of it; one that fails may come through.
pub record IsExact {W : Type 0} (server : Server W) (held : String → String → W → Res BareMetalHost)
    : Type 0 where
  pub lists :
      (namespace : String) (labels : Dict String) (w : W)
      → Unchanged held w (server.list namespace labels w).1
  pub shuffles : (items : List BareMetalHost) (w : W) → Unchanged held w (server.shuffle items w).1
  pub updates :
      (b : BareMetalHost) (w : W)
      → ((e : Error) × ((server.update b w).0 ≡ err e) × Unchanged held w (server.update b w).1)
        ⊎ Stores held b w (server.update b w).1

pub is_open-is_taken :
    (instance_id : String) (ref : Option ObjectReference)
    → is_open instance_id (name_of ref) ≡ not (is_taken instance_id ref)
is_open-is_taken instance_id none = refl
is_open-is_taken instance_id (some ref) = ground arith

module _ {W : Type 0} (held : String → String → W → Res BareMetalHost) where
  pub owners-Unchanged : (v w : W) → Unchanged held v w → Same (owners held v) (owners held w)
  owners-Unchanged v w same j = elim (Res-cases (parse_host_id j)) [
    | inl ((namespace, name), parsed) ↦ rw (parsed, same namespace name) refl
    | inr (e, bad) ↦ rw bad refl
  ]

  -- Two host ids that are not the same name two hosts.
  other_parts :
      (host_id j namespace name : String) (b : BareMetalHost)
      → parse_host_id host_id ≡ ok (b.namespace, b.name)
      → parse_host_id j ≡ ok (namespace, name)
      → (j == host_id) ≡ false
      → is_host namespace name b ≡ false
  other_parts host_id j namespace name b named parsed away =
      elim (Bool-cases (is_host namespace name b)) [
        | inr other ↦ other
        | inl same ↦
            let as_j = parse_host_id-joins j namespace name parsed in
            let as_host = parse_host_id-joins host_id b.namespace b.name named in
            absurd (
              ground (
                arith,
                same,
                away,
                as_j,
                as_host,
                eq_iff b.namespace namespace,
                eq_iff b.name name,
                eq_iff j host_id,
              ))
      ]

  pub owners-Stores :
      (host_id : String) (b : BareMetalHost) (v w : W)
      → parse_host_id host_id ≡ ok (b.namespace, b.name)
      → Stores held b v w
      → Same (put_owner host_id (name_of b.consumer_ref) (owners held v)) (owners held w)
  owners-Stores host_id b v w named stores j = elim (Bool-cases (j == host_id)) [
    | inl here ↦
        rw
          (
            here,
            (eq_iff j host_id).0 here,
            named,
            stores b.namespace b.name,
            eq_refl b.namespace,
            eq_refl b.name,
          )
          refl
    | inr away ↦ elim (Res-cases (parse_host_id j)) [
      | inl ((namespace, name), parsed) ↦
          rw
            (
              away,
              parsed,
              stores namespace name,
              other_parts host_id j namespace name b named parsed away,
            )
            refl
      | inr (e, bad) ↦ rw (away, bad) refl
    ]
  ]
