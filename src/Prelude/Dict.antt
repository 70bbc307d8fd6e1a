-- ===== src/Prelude/Dict.antt =====
-- Go's `map[string]V`, an association list. A range over a map goes through the list, and the
-- lemmas hold for every list, whatever the order of its entries.
use Prim.Native.String.{String}
use mathlib.Core.Path.{◌≡◌, refl}
use mathlib.Core.Bool.{Bool, true, false}
use mathlib.Core.Option.{Option, none, some}
use mathlib.Core.List.{List, [], ◌∷◌}
use native.Mathlib.Omega.{arith}
use text.Mathlib.Text.{◌==◌}
use text.Mathlib.TextEquality.{eq_iff}
use bare_metal_operator.Prelude.Tests.{if◌then◌else◌}
use bare_metal_operator.Prelude.Lists.{contains}

abbrev pub Dict {ℓ} : Type ℓ → Type ℓ
Dict V = List (String × V)

module _ {ℓ} {V : Type ℓ} where
  unfoldable pub lookup : String → Dict V → Option V
  lookup key [] = none
  lookup key ((x, a) ∷ d) = if x == key then some a else lookup key d

  -- m[k] = v
  unfoldable pub insert : String → V → Dict V → Dict V
  insert key new [] = (key, new) ∷ []
  insert key new ((x, a) ∷ d) = if x == key then (key, new) ∷ d else (x, a) ∷ insert key new d

  -- delete(m, k)
  unfoldable pub erase : String → Dict V → Dict V
  erase k [] = []
  erase k ((j, w) ∷ m) = let rest = erase k m in if j == k then rest else (j, w) ∷ rest

  unfoldable pub keys : Dict V → List String
  keys [] = []
  keys ((k, v) ∷ m) = k ∷ keys m

  -- maps.Copy(dst, src)
  unfoldable pub copy : Dict V → Dict V → Dict V
  copy dst [] = dst
  copy dst ((k, v) ∷ src) = copy (insert k v dst) src

  pub lookup-nil : (k : String) → lookup k [] ≡ none
  unfolding lookup
  lookup-nil k = refl

  pub lookup-insert :
      (key x : String) (new : V) (d : Dict V)
      → lookup x (insert key new d) ≡ (if key == x then some new else lookup x d)
  unfolding lookup insert
  lookup-insert key x new [] = refl
  lookup-insert key x new ((y, a) ∷ d) =
      ground (arith, lookup-insert key x new d, eq_iff y key, eq_iff key x, eq_iff y x)

  pub lookup-erase :
      (k j : String) (m : Dict V) → lookup j (erase k m) ≡ (if k == j then none else lookup j m)
  unfolding lookup erase
  lookup-erase k j [] = ground arith
  lookup-erase k j ((x, a) ∷ m) =
      ground (arith, lookup-erase k j m, eq_iff x k, eq_iff k j, eq_iff x j)

  pub contains-keys : (k : String) (m : Dict V) → contains (keys m) k ≡ false → lookup k m ≡ none
  unfolding lookup keys
  contains-keys k [] h = refl
  contains-keys k ((j, v) ∷ m) h = ground (arith, contains-keys k m)

  -- A key that no entry of the source has keeps its value.
  pub lookup-copy_absent :
      (k : String) (dst src : Dict V) → lookup k src ≡ none → lookup k (copy dst src) ≡ lookup k dst
  unfolding lookup copy
  lookup-copy_absent k dst [] h = refl
  lookup-copy_absent k dst ((j, v) ∷ src) h =
      ground (arith, lookup-copy_absent k (insert j v dst) src, lookup-insert j k v dst)

  -- No key twice, as in any Go map.
  abbrev pub Distinct : Dict V → Type ℓ
  Distinct [] = Unit
  Distinct ((k, v) ∷ m) = (lookup k m ≡ none) × Distinct m

  abbrev pub or_else : Option V → Option V → Option V
  or_else none o = o
  or_else (some v) o = some v

  -- maps.Copy: the source's entries win.
  pub lookup-copy :
      (k : String) (dst src : Dict V)
      → Distinct src
      → lookup k (copy dst src) ≡ or_else (lookup k src) (lookup k dst)
  unfolding lookup copy
  lookup-copy k dst [] d = refl
  lookup-copy k dst ((j, v) ∷ src) (fresh, d) =
      ground
        (arith, lookup-copy k (insert j v dst) src d, lookup-insert j k v dst, eq_iff j k, fresh)

  pub lookup-keys :
      (k : String) (m : Dict V) (v : V) → lookup k m ≡ some v → contains (keys m) k ≡ true
  unfolding lookup keys
  lookup-keys k [] v h = absurd (ground arith)
  lookup-keys k ((j, w) ∷ m) v h = ground (arith, lookup-keys k m v)

  -- A conditional keeps the keys distinct where both its ways do.
  pub Distinct-if :
      (b : Bool) (x y : Dict V)
      → (b ≡ true → Distinct x)
      → (b ≡ false → Distinct y)
      → Distinct (if b then x else y)
  Distinct-if true x y f g = f refl
  Distinct-if false x y f g = g refl

  -- An assignment keeps the keys distinct.
  pub Distinct-insert : (k : String) (v : V) (m : Dict V) → Distinct m → Distinct (insert k v m)
  unfolding lookup insert
  Distinct-insert k v [] d = (refl, tt)
  Distinct-insert k v ((j, w) ∷ m) (fresh, d) =
      Distinct-if (j == k) ((k, v) ∷ m) ((j, w) ∷ insert k v m)
        (λ q. (ground (arith, eq_iff j k, fresh), d))
        (λ q. (
          ground (arith, lookup-insert k j v m, fresh, eq_iff k j, eq_iff j k),
          Distinct-insert k v m d,
        ))

abbrev pub get_or_empty : Option String → String
get_or_empty none = ""
get_or_empty (some s) = s

-- m[k] on a map of texts: a missing key reads as the empty text.
abbrev pub index : Dict String → String → String
index m k = get_or_empty (lookup k m)
