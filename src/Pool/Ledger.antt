-- ===== src/Pool/Ledger.antt =====
-- The instances that the server has created and deleted: createBareMetalInstanceCR, and a deletion of
-- scaleDownBareMetalInstances.
use bare_metal_operator.Prelude.{
  ℕ, suc, ◌+◌, String, Bool, true, false, ◌&&◌, Option, none, some, List, [], ◌∷◌, ◌++◌, ◌≡◌, refl,
  ap, ◌∙◌, arith, ◌==◌, eq_iff, eq_refl, is_empty, length, if◌then◌else◌, inl, inr, Bool-cases,
}
use bare_metal_operator.Prelude.Dict.{insert}
use bare_metal_operator.Shared.{ok, Res-cases, ignore_not_found, ignore_already_exists}
use bare_metal_operator.Profile.{Profile}
use bare_metal_operator.Api.Instance.{BareMetalInstance}
use bare_metal_operator.Api.Pool.{BareMetalPool, ProfileSpec}
use bare_metal_operator.Pool.State.{Reconciler, PoolClient, State, primitives}
use bare_metal_operator.Pool.Create.{
  parameters_of, new_instance, own_instance, send_instance, create_instance,
}
use bare_metal_operator.Pool.Scale.{
  instances, last?, drop_last, put_instances, deleted, delete_last,
}
use bare_metal_operator.Pool.Panics.{can_create, create_instance-current}
use bare_metal_operator.Pool.Slices.{instances-insert, instances-put_instances}

-- `created` counts the instances of a host type that the server has created, and `gone` are those
-- whose deletion it has acknowledged, newest first. An instance that is not found counts as gone,
-- and the random names of new instances are not in use.
pub record IsLedger {W : Type 0} (client : PoolClient W) (created : String → W → ℕ)
    (gone : String → W → List BareMetalInstance) : Type 0 where
  pub suffixes :
      (j : String) (w : W)
      → (created j (client.random_suffix w).1 ≡ created j w)
        × (gone j (client.random_suffix w).1 ≡ gone j w)
  pub refers :
      (p : BareMetalPool) (o q : BareMetalInstance)
      → client.set_controller_reference p o ≡ ok q
      → q.spec.host_type ≡ o.spec.host_type
  pub fresh :
      (o : BareMetalInstance) (w : W)
      → ignore_already_exists (client.create_instance o w).0 ≡ none
      → (client.create_instance o w).0 ≡ none
  pub creates :
      (o : BareMetalInstance) (w : W) (j : String)
      → (client.create_instance o w).0 ≡ none
      → (created j (client.create_instance o w).1
          ≡ (if o.spec.host_type == j then suc (created j w) else created j w))
        × (gone j (client.create_instance o w).1 ≡ gone j w)
  pub deletes :
      (o : BareMetalInstance) (w : W) (j : String)
      → ignore_not_found (client.delete_instance o w).0 ≡ none
      → (created j (client.delete_instance o w).1 ≡ created j w)
        × (gone j (client.delete_instance o w).1
            ≡ (if o.spec.host_type == j then o ∷ gone j w else gone j w))

-- The listed instances of a slice, and the number of those that were created since.
abbrev pub listed_of : List (Option BareMetalInstance) → List BareMetalInstance
listed_of [] = []
listed_of (none ∷ xs) = listed_of xs
listed_of (some o ∷ xs) = o ∷ listed_of xs

abbrev pub blanks : List (Option BareMetalInstance) → ℕ
blanks [] = 0
blanks (none ∷ xs) = suc (blanks xs)
blanks (some o ∷ xs) = blanks xs

pub length-listed_of :
    (xs : List (Option BareMetalInstance)) → length xs ≡ blanks xs + length (listed_of xs)
length-listed_of [] = refl
length-listed_of (none ∷ xs) = omega (arith, length-listed_of xs)
length-listed_of (some o ∷ xs) = omega (arith, length-listed_of xs)

pub snoc-none :
    (xs : List (Option BareMetalInstance))
    → (listed_of (xs ++ none ∷ []) ≡ listed_of xs) × (blanks (xs ++ none ∷ []) ≡ suc (blanks xs))
snoc-none [] = (refl, refl)
snoc-none (none ∷ xs) = ((snoc-none xs).0, ap suc (snoc-none xs).1)
snoc-none (some o ∷ xs) = (ap (λ l. o ∷ l) (snoc-none xs).0, (snoc-none xs).1)

-- Are they all listed instances of the host type?
abbrev pub is_of : String → List (Option BareMetalInstance) → Bool
is_of t [] = true
is_of t (none ∷ xs) = false
is_of t (some o ∷ xs) = o.spec.host_type == t && is_of t xs

-- The last of such a slice, and what it leaves.
pub last-is_of :
    (t : String) (xs : List (Option BareMetalInstance))
    → is_of t xs ≡ true
    → is_empty xs ≡ false
    → (o : BareMetalInstance) × (last? xs ≡ some (some o))
      × ((o.spec.host_type == t) ≡ true)
      × ((g : List BareMetalInstance) → listed_of (drop_last xs) ++ o ∷ g ≡ listed_of xs ++ g)
      × (is_of t (drop_last xs) ≡ true)
unfolding last? drop_last
last-is_of t [] h more = absurd (ground (arith, more))
last-is_of t (none ∷ xs) h more = absurd (ground (arith, h))
last-is_of t (some o ∷ []) h more = (o, refl, ground (arith, h), λ g. refl, refl)
last-is_of t (some o ∷ none ∷ xs) h more = absurd (ground (arith, h))
last-is_of t (some o ∷ some q ∷ xs) h more =
    let (z, last, typed, same, rest) = last-is_of t (some q ∷ xs) (ground (arith, h)) refl in
    (z, last, typed, λ g. ap (λ l. o ∷ l) (same g), ground (arith, rest, h))

pub blanks-is_of :
    (t : String) (xs : List (Option BareMetalInstance)) → is_of t xs ≡ true → blanks xs ≡ 0
blanks-is_of t [] h = refl
blanks-is_of t (none ∷ xs) h = absurd (ground (arith, h))
blanks-is_of t (some o ∷ xs) h = blanks-is_of t xs (ground (arith, h))

able-parameters :
    (profile : Option Profile) (spec : Option ProfileSpec)
    → can_create profile spec ≡ true
    → (text : String) × (parameters_of profile spec ≡ some text)
able-parameters none spec able = ("", refl)
able-parameters (some p) none able = absurd (ground (arith, able))
able-parameters (some p) (some spec) able = (spec.template_parameters, refl)

module _ {W : Type 0} (r : Reconciler W) (created : String → W → ℕ)
    (gone : String → W → List BareMetalInstance) (ledger : IsLedger r.client created gone) where
  -- An instance that is created without an error.
  pub create_instance-created :
      (t j : String) (profile : Option Profile) (s : State W)
      → can_create profile s.pool.spec.profile ≡ true
      → (create_instance r t profile s).0 ≡ none
      → (created j (create_instance r t profile s).1.world
          ≡ (if t == j then suc (created j s.world) else created j s.world))
        × (gone j (create_instance r t profile s).1.world ≡ gone j s.world)
  unfolding create_instance own_instance send_instance new_instance primitives
  create_instance-created t j profile s able silent =
      let (text, given) = able-parameters profile s.pool.spec.profile able in
      let (suffix, w) = r.client.random_suffix s.world in
      let sent = new_instance s.pool t profile text suffix in
      elim (Res-cases (r.client.set_controller_reference s.pool sent)) [
        | inl (q, owned) ↦
            let acknowledged : ignore_already_exists (r.client.create_instance q w).0 ≡ none =
              rw (given, owned) at silent in
            let made = ledger.creates q w j (ledger.fresh q w acknowledged) in
            rw (given, owned)
              (ground (arith, made, ledger.suffixes j s.world, ledger.refers s.pool sent q owned))
        | inr (e, refused) ↦ absurd (ground (arith, rw (given, refused) at silent))
      ]

  -- The last of a slice of listed instances, deleted without an error.
  delete_last-gone :
      (t j : String) (xs : List (Option BareMetalInstance)) (s : State W)
      → is_of t xs ≡ true
      → is_empty xs ≡ false
      → ignore_not_found (delete_last r xs s).0 ≡ none
      → (created j (delete_last r xs s).1.world ≡ created j s.world)
        × ((t ≡ j)
            → listed_of (drop_last xs) ++ gone j (delete_last r xs s).1.world
              ≡ listed_of xs ++ gone j s.world)
        × ((t == j) ≡ false → gone j (delete_last r xs s).1.world ≡ gone j s.world)
  unfolding delete_last deleted primitives
  delete_last-gone t j xs s whole more silent =
      let (o, last, typed, same, rest) = last-is_of t xs whole more in
      let removed = ledger.deletes o s.world j (rw last at silent) in
      let its_type : o.spec.host_type ≡ t = (eq_iff o.spec.host_type t).0 typed in
      rw last (
        removed.0,
        (λ here.
            ap (λ l. listed_of (drop_last xs) ++ l)
              (removed.1 ∙ ground (arith, its_type, here, eq_refl j))
            ∙ same (gone j s.world)),
        (λ other. removed.1 ∙ rw its_type (rw other refl)),
      )

  -- Between two states: what is listed for a host type has stayed listed or is gone, in its order,
  -- and what was created is what the map has counted as created.
  abbrev pub IsBalanced : String → State W → State W → Type 0
  IsBalanced j s z =
      (listed_of (instances j z.current) ++ gone j z.world
        ≡ listed_of (instances j s.current) ++ gone j s.world)
      × (created j z.world + blanks (instances j s.current)
          ≡ created j s.world + blanks (instances j z.current))

  pub IsBalanced-trans :
      (j : String) (s z y : State W) → IsBalanced j s z → IsBalanced j z y → IsBalanced j s y
  IsBalanced-trans j s z y (listed, counted) (listed2, counted2) =
      (listed2 ∙ listed, omega (arith, counted, counted2))

  pub created-grown :
      (t j : String) (profile : Option Profile) (s : State W)
      → can_create profile s.pool.spec.profile ≡ true
      → (create_instance r t profile s).0 ≡ none
      → (let after_create = (create_instance r t profile s).1 in
          IsBalanced j s (record after_create {
            current = insert t (instances t after_create.current ++ none ∷ []) after_create.current;
          }))
  created-grown t j profile s able silent =
      let made = create_instance-created t j profile s able silent in
      let xs = instances t s.current in
      let put = instances-insert t j (xs ++ none ∷ []) s.current in
      rw (create_instance-current r t profile s) (elim (Bool-cases (t == j)) [
        | inl here ↦
            let same : t ≡ j = (eq_iff t j).0 here in
            (
              rw (put, here, made.1, (snoc-none xs).0)
                  (ap (λ i. listed_of (instances i s.current) ++ gone j s.world) same),
              rw (put, made.0, here, (snoc-none xs).1)
                  (omega (arith, ap (λ i. blanks (instances i s.current)) same)),
            )
        | inr other ↦ (rw (put, other, made.1) refl, rw (put, made.0, other) refl)
      ])

  pub gone-dropped :
      (t j : String) (s : State W)
      → is_of t (instances t s.current) ≡ true
      → is_empty (instances t s.current) ≡ false
      → ignore_not_found (delete_last r (instances t s.current) s).0 ≡ none
      → (let after_delete = (delete_last r (instances t s.current) s).1 in
          IsBalanced j s (record after_delete {
            current = put_instances t (drop_last (instances t s.current)) s.current;
          }))
  gone-dropped t j s whole more silent =
      let xs = instances t s.current in
      let (made, its, others) = delete_last-gone t j xs s whole more silent in
      let (o, last, typed, left, rest) = last-is_of t xs whole more in
      let put = instances-put_instances t j (drop_last xs) s.current in
      elim (Bool-cases (t == j)) [
        | inl here ↦
            let same : t ≡ j = (eq_iff t j).0 here in
            (
              rw (put, here)
                  (its same ∙ ap (λ i. listed_of (instances i s.current) ++ gone j s.world) same),
              rw (put, here)
                  (omega (
                    arith,
                    made,
                    blanks-is_of t xs whole,
                    blanks-is_of t (drop_last xs) rest,
                    ap (λ i. blanks (instances i s.current)) same,
                  )),
            )
        | inr other ↦ (rw (put, other, others other) refl, rw (put, other, made) refl)
      ]
