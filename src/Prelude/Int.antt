-- ===== src/Prelude/Int.antt =====
-- Go's signed numbers: `ℤ` for int64 and time.Duration, which the program only compares, and the
-- bit patterns of int32, where the wrap-around is written out.
use Prim.Native.Nat.{ℕ, ◌+◌, ◌-◌, ◌%◌, ◌≤◌, ◌<◌}
use mathlib.Core.Bool.{Bool, true, false, ◌&&◌}
use mathlib.Core.Path.{◌≡◌}
use native.Mathlib.Omega.{arith}
use bare_metal_operator.Prelude.Tests.{ltb, leb, eqb}

-- `negsuc n` is -(n + 1).
pub data ℤ : Type 0 where
  pos : ℕ → ℤ
  negsuc : ℕ → ℤ

abbrev pub int_eq : ℤ → ℤ → Bool
int_eq (pos m) (pos n) = eqb m n
int_eq (negsuc m) (negsuc n) = eqb m n
int_eq _ _ = false

abbrev pub is_positive : ℤ → Bool
is_positive (pos n) = ltb 0 n
is_positive (negsuc n) = false

-- An int32 is its bit pattern, a number below 2^32; the upper half is negative.
abbrev pub wrap32 : ℕ → ℕ
wrap32 n = n % 4294967296

abbrev pub sub32 : ℕ → ℕ → ℕ
sub32 a b = (a + 4294967296 - b) % 4294967296

abbrev pub is_positive32 : ℕ → Bool
is_positive32 n = ltb 0 n && ltb n 2147483648

abbrev pub is_negative32 : ℕ → Bool
is_negative32 n = leb 2147483648 n

-- Signed order: shift both by 2^31.
abbrev pub lt32 : ℕ → ℕ → Bool
lt32 a b = ltb (wrap32 (a + 2147483648)) (wrap32 (b + 2147483648))

pub wrap32_small : (n : ℕ) → n < 4294967296 → wrap32 n ≡ n
wrap32_small n h = omega arith

pub lt32_small : (a b : ℕ) → a < 2147483648 → b < 2147483648 → lt32 a b ≡ ltb a b
lt32_small a b ha hb =
    rw (wrap32_small (a + 2147483648) (omega arith), wrap32_small (b + 2147483648) (omega arith))
      (ground arith)

pub sub32_small : (a b : ℕ) → b ≤ a → a < 2147483648 → sub32 a b ≡ a - b
sub32_small a b h ha = omega arith

pub sub32_negative : (a b : ℕ) → a < b → b < 2147483648 → is_negative32 (sub32 a b) ≡ true
sub32_negative a b h hb = ground arith
