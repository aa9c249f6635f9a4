-- ===== src/Prelude/Int.antt =====
-- Signed integers over the native numbers: Python's `int` where the code meets negative values.
use Prim.Native.Nat.{ℕ, zero, suc, ◌+◌, ◌*◌}
use mathlib.Core.Path.{◌≡◌}
use mathlib.Core.Logic.{◌↔◌}
use mathlib.Core.Bool.{Bool, true, false}
use native.Mathlib.Omega.{arith}
use irish_rail_nabber.Prelude.Tests.{nat_beq, ltb}
use irish_rail_nabber.Prelude.Equality.{Eq}

-- `negsuc n` is -(n + 1).
pub data ℤ : Type 0 where
  pos : ℕ → ℤ
  negsuc : ℕ → ℤ

abbrev pub pos_part : ℤ → ℕ
pos_part (pos n) = n
pos_part (negsuc n) = 0

abbrev pub neg_part : ℤ → ℕ
neg_part (pos n) = 0
neg_part (negsuc n) = suc n

abbrev pub ltb_ℤ : ℤ → ℤ → Bool
ltb_ℤ a b = ltb (pos_part a + neg_part b) (pos_part b + neg_part a)

abbrev pub int_beq : ℤ → ℤ → Bool
int_beq (pos m) (pos n) = nat_beq m n
int_beq (negsuc m) (negsuc n) = nat_beq m n
int_beq _ _ = false

pub int_beq_iff : (a b : ℤ) → (int_beq a b ≡ true) ↔ (a ≡ b)
int_beq_iff a b = ground arith

instance abbrev pub int_eq : Eq ℤ
int_eq = record { beq = int_beq; beq_iff = int_beq_iff }

-- `a - b` of natural numbers, sums, and multiples.
abbrev pub diff : ℕ → ℕ → ℤ
diff a zero = pos a
diff zero (suc b) = negsuc b
diff (suc a) (suc b) = diff a b

abbrev pub add_ℤ : ℤ → ℤ → ℤ
add_ℤ a b = diff (pos_part a + pos_part b) (neg_part a + neg_part b)

abbrev pub scale_ℤ : ℕ → ℤ → ℤ
scale_ℤ n a = diff (n * pos_part a) (n * neg_part a)

-- `abs(a)`
abbrev pub abs_ℤ : ℤ → ℕ
abs_ℤ a = pos_part a + neg_part a
