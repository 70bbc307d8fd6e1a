-- ===== src/Prelude/Text.antt =====
-- Texts by their characters.
use Prim.Native.String.{String, [], ◌∷◌, ◌++◌}
use Prim.Native.String.append
use Prim.Native.Char.{Char, code}
use mathlib.Core.Path.{◌≡◌}
use mathlib.Core.Bool.{true}
use native.Mathlib.Omega.{arith}
use text.Mathlib.TextEquality.{Char-path}
use bare_metal_operator.Prelude.Tests.{eqb}

pub append-nil : (t : String) → [] ++ t ≡ t
append-nil t = λ i. append.nil t i

pub append-cons : (c : Char) (s t : String) → (c ∷ s) ++ t ≡ c ∷ (s ++ t)
append-cons c s t = λ i. append.cons c s t i

-- Characters with the same number are the same.
pub eqb-code : (c d : Char) → eqb (code c) (code d) ≡ true → c ≡ d
eqb-code c d h = Char-path c d (ground (arith, h))
