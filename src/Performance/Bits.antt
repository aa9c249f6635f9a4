-- ===== src/Performance/Bits.antt =====
-- Bit masks as natural numbers, read from the lowest bit.
use mathlib.Core.List.{List, [], ◌∷◌}
use irish_rail_nabber.Prelude.{
  ℕ, zero, suc, ◌+◌, ◌*◌, ◌/◌, ◌%◌, ◌<◌, ◌≡◌, Bool, true, false, ◌&&◌, ◌||◌, nat_beq, length, arith,
}

-- `mask & 1`, and `mask >> 1`.
abbrev pub is_odd : ℕ → Bool
is_odd mask = nat_beq (mask % 2) 1

abbrev pub half : ℕ → ℕ
half mask = mask / 2

-- `2 ** n`
abbrev pub power : ℕ → ℕ
power zero = 1
power (suc n) = 2 * power n

-- `a & b`, of masks of `n` bits.
abbrev pub shares_bit : ℕ → ℕ → ℕ → Bool
shares_bit zero a b = false
shares_bit (suc n) a b = (is_odd a && is_odd b) || shares_bit n (half a) (half b)

abbrev pub bit : Bool → ℕ
bit true = 1
bit false = 0

-- The mask with the given bits, the lowest first.
abbrev pub mask_of : List Bool → ℕ
mask_of [] = 0
mask_of (b ∷ bs) = bit b + 2 * mask_of bs

pub is_odd-bit : (b : Bool) (n : ℕ) → is_odd (bit b + 2 * n) ≡ b
is_odd-bit true n = ground arith
is_odd-bit false n = ground arith

pub half-bit : (b : Bool) (n : ℕ) → half (bit b + 2 * n) ≡ n
half-bit true n = omega arith
half-bit false n = omega arith

pub mask_of_bound : (bs : List Bool) → mask_of bs < power (length bs)
mask_of_bound [] = omega arith
mask_of_bound (true ∷ bs) = omega (arith, mask_of_bound bs)
mask_of_bound (false ∷ bs) = omega (arith, mask_of_bound bs)
