-- ===== src/Pool/Slices.antt =====
-- The slices of the map of instances: what one write, one append and one removal do to the counts.
use bare_metal_operator.Prelude.{
  suc, String, true, false, Option, List, [], ◌∷◌, ◌++◌, ◌≡◌, ◌≢◌, refl, arith, ◌==◌, length,
  is_empty, if◌then◌else◌,
}
use bare_metal_operator.Prelude.Dict.{insert, lookup-insert, lookup-erase}
use bare_metal_operator.Api.Instance.{BareMetalInstance}
use bare_metal_operator.Pool.State.{Current}
use bare_metal_operator.Pool.Scale.{instances, put_instances, drop_last}

pub instances-insert :
    (t j : String) (xs : List (Option BareMetalInstance)) (m : Current)
    → instances j (insert t xs m) ≡ (if t == j then xs else instances j m)
instances-insert t j xs m = ground (arith, lookup-insert t j xs m)

pub instances-put_instances :
    (t j : String) (xs : List (Option BareMetalInstance)) (m : Current)
    → instances j (put_instances t xs m) ≡ (if t == j then xs else instances j m)
instances-put_instances t j [] m = ground (arith, lookup-erase t j m)
instances-put_instances t j (x ∷ xs) m = ground (arith, lookup-insert t j (x ∷ xs) m)

pub length-drop_last :
    {A : Type 0} (xs : List A) → is_empty xs ≡ false → length xs ≡ suc (length (drop_last xs))
unfolding drop_last
length-drop_last [] h = absurd (ground arith)
length-drop_last (x ∷ []) h = refl
length-drop_last (x ∷ y ∷ xs) h = omega (arith, length-drop_last (y ∷ xs) refl)

pub is_empty-length : {A : Type 0} (xs : List A) → is_empty xs ≡ true → length xs ≡ 0
is_empty-length [] h = refl
is_empty-length (x ∷ xs) h = absurd (ground arith)

pub length-is_empty : {A : Type 0} (xs : List A) → length xs ≢ 0 → is_empty xs ≡ false
length-is_empty [] h = absurd (h refl)
length-is_empty (x ∷ xs) h = refl

pub length-snoc : {A : Type 0} (xs : List A) (x : A) → length (xs ++ x ∷ []) ≡ suc (length xs)
length-snoc [] x = refl
length-snoc (y ∷ xs) x = omega (arith, length-snoc xs x)
