-- ===== src/Prelude/Dict/Counter.antt =====
-- `collections.Counter`: `counts[key] += 1`, and what it does to the counts.
use Prim.Native.Nat.{ℕ, ◌+◌, ◌≤◌, ◌<◌}
use irish_rail_nabber.Prelude.Tests.{if◌then◌else◌, get_or}
use irish_rail_nabber.Prelude.Lists.{All}
use irish_rail_nabber.Prelude.Equality.{Eq, ◌==◌}
use irish_rail_nabber.Prelude.Sort.{total}
use irish_rail_nabber.Prelude.Dict.{Dict, lookup, has_key, insert}
use mathlib.Core.Path.{◌≡◌, refl}
use mathlib.Core.Bool.{false}
use mathlib.Core.List.{List, [], ◌∷◌, ◌++◌}
use native.Mathlib.Omega.{arith}

module _ {ℓ} {K : Type ℓ} ⦃e : Eq K⦄ where
  unfoldable pub bump : K → Dict K ℕ → Dict K ℕ
  bump k d = insert k (get_or (lookup k d) 0 + 1) d

  -- How often `k` stands in a list.
  abbrev pub count : K → List K → ℕ
  count k [] = 0
  count k (x ∷ xs) = (if x == k then 1 else 0) + count k xs

  -- The sum of the counts of the entries for `k`, and their number.
  abbrev pub count_for : K → K × ℕ → ℕ
  count_for k x = if x.0 == k then x.1 else 0

  abbrev pub entry_for : K → K × ℕ → ℕ
  entry_for k x = if x.0 == k then 1 else 0

  abbrev pub IsPositive : K × ℕ → Type 0
  IsPositive x = 0 < x.1

  pub count-append : (k : K) (xs ys : List K) → count k (xs ++ ys) ≡ count k xs + count k ys
  count-append k [] ys = omega arith
  count-append k (x ∷ xs) ys = omega (arith, count-append k xs ys)

  pub total-bump :
      (k j : K) (d : Dict K ℕ)
      → total (count_for k) (bump j d) ≡ total (count_for k) d + (if j == k then 1 else 0)
  unfolding bump
  total-bump k j [] = ground arith
  total-bump k j (x ∷ d) =
      ground (arith, total-bump k j d, e.beq_iff x.0 j, e.beq_iff x.0 k, e.beq_iff j k)

  -- An assignment adds an entry only for a key that has none.
  pub total-entry-bump :
      (k j : K) (d : Dict K ℕ)
      → total (entry_for k) (bump j d)
        ≡ total (entry_for k) d + (if j == k then (if has_key j d then 0 else 1) else 0)
  unfolding bump
  total-entry-bump k j [] = ground arith
  total-entry-bump k j (x ∷ d) =
      ground (arith, total-entry-bump k j d, e.beq_iff x.0 j, e.beq_iff x.0 k, e.beq_iff j k)

  no_entry : (k : K) (d : Dict K ℕ) → has_key k d ≡ false → total (entry_for k) d ≡ 0
  no_entry k [] h = refl
  no_entry k (x ∷ d) h = ground (arith, no_entry k d)

  pub total-entry-bump-le :
      (k j : K) (d : Dict K ℕ) → total (entry_for k) d ≤ 1 → total (entry_for k) (bump j d) ≤ 1
  total-entry-bump-le k j d h = ground (arith, total-entry-bump k j d, no_entry j d, e.beq_iff j k)

  pub bump-IsPositive : (j : K) (d : Dict K ℕ) → All IsPositive d → All IsPositive (bump j d)
  unfolding bump
  bump-IsPositive j [] h = ground arith
  bump-IsPositive j (x ∷ d) h = ground (arith, bump-IsPositive j d h.1)
