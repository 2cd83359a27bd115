-- ===== src/Base/Int.antt =====
-- Go's `int` where it can be negative, by the sign and a native number.
use Prim.Native.Nat.{ℕ, suc, ◌+◌, ◌-◌, ◌%◌}
use mathlib.Core.Path.{◌≡◌}
use mathlib.Core.Bool.{Bool, true}
use native.Mathlib.Omega.{arith}
use anix_ops_sd_wan.Base.Tests.{ltb, leb, eqb, if◌then◌else◌}

-- `negsuc n` is -(n + 1).
pub data ℤ : Type 0 where
  pos : ℕ → ℤ
  negsuc : ℕ → ℤ

abbrev pub pos_part : ℤ → ℕ
pos_part (pos n) = n
pos_part (negsuc n) = 0

abbrev pub neg_part : ℤ → ℕ
neg_part (pos n) = 0
neg_part (negsuc n) = suc n

-- a < b
abbrev pub ltbℤ : ℤ → ℤ → Bool
ltbℤ a b = ltb (pos_part a + neg_part b) (pos_part b + neg_part a)

-- a <= b
abbrev pub lebℤ : ℤ → ℤ → Bool
lebℤ a b = leb (pos_part a + neg_part b) (pos_part b + neg_part a)

-- a == b
abbrev pub eqbℤ : ℤ → ℤ → Bool
eqbℤ a b = eqb (pos_part a + neg_part b) (pos_part b + neg_part a)

pub eqbℤ-eq : (a b : ℤ) → eqbℤ a b ≡ true → a ≡ b
eqbℤ-eq a b h = ground arith

-- The int64 that a natural number wraps to.
unfoldable pub wrap_int : ℕ → ℤ
wrap_int n =
    let m = n % 0x10000000000000000 in
    if ltb m 0x8000000000000000 then pos m else negsuc (0xFFFFFFFFFFFFFFFF - m)
