-- ===== src/Prelude/Sort.antt =====
-- Python's `sorted`, as a stable insertion sort by a test `before`, and what every ordering keeps.
pub mod Order
use irish_rail_nabber.Prelude.Tests.{if◌then◌else◌, Bool-cases}
use irish_rail_nabber.Prelude.Lists.{All}
use Prim.Native.Nat.{ℕ, ◌+◌}
use mathlib.Core.Path.{◌≡◌, refl}
use mathlib.Core.Bool.{Bool, ◌||◌}
use mathlib.Core.Logic.{inl, inr}
use mathlib.Core.List.{List, [], ◌∷◌, map}
use irish_rail_nabber.Prelude.Equality.{Eq, ◌==◌, contains}
use native.Mathlib.Omega.{arith}

-- The sum of a weight over a list.
abbrev pub total {ℓ} : {A : Type ℓ} → (A → ℕ) → List A → ℕ
total w [] = 0
total w (x ∷ xs) = w x + total w xs

module _ {ℓ} {A : Type ℓ} (before : A → A → Bool) where
  -- `x` goes in front of the first element that does not come before it.
  unfoldable pub insert_sorted : A → List A → List A
  insert_sorted x [] = x ∷ []
  insert_sorted x (y ∷ ys) =
      let later = y ∷ insert_sorted x ys in if before y x then later else x ∷ y ∷ ys

  unfoldable pub sort : List A → List A
  unfolding insert_sorted
  sort [] = []
  sort (x ∷ xs) = insert_sorted x (sort xs)

  total-insert_sorted :
      (w : A → ℕ) (x : A) (xs : List A) → total w (insert_sorted x xs) ≡ w x + total w xs
  unfolding insert_sorted
  total-insert_sorted w x [] = refl
  total-insert_sorted w x (y ∷ ys) = ground (arith, total-insert_sorted w x ys)

  -- Sorting loses and invents nothing: every weight has the same sum.
  pub total-sort : (w : A → ℕ) (xs : List A) → total w (sort xs) ≡ total w xs
  unfolding sort
  total-sort w [] = refl
  total-sort w (x ∷ xs) = omega (arith, total-insert_sorted w x (sort xs), total-sort w xs)

  All-insert_sorted {κ} :
      (P : A → Type κ) (x : A) (xs : List A) → P x → All P xs → All P (insert_sorted x xs)
  unfolding insert_sorted
  All-insert_sorted P x [] px h = (px, tt)
  All-insert_sorted P x (y ∷ ys) px h = elim (Bool-cases (before y x)) [
    | inl e ↦ rw e (h.0, All-insert_sorted P x ys px h.1)
    | inr e ↦ rw e (px, h)
  ]

  pub All-sort {κ} : (P : A → Type κ) (xs : List A) → All P xs → All P (sort xs)
  unfolding sort
  All-sort P [] h = tt
  All-sort P (x ∷ xs) h = All-insert_sorted P x (sort xs) h.0 (All-sort P xs h.1)

module _ {ℓ κ} {A : Type ℓ} {B : Type κ} ⦃e : Eq B⦄ (before : A → A → Bool) (f : A → B) where
  contains-map-insert_sorted :
      (b : B) (x : A) (xs : List A)
      → contains b (map f (insert_sorted before x xs)) ≡ ((f x == b) || contains b (map f xs))
  unfolding insert_sorted
  contains-map-insert_sorted b x [] = refl
  contains-map-insert_sorted b x (y ∷ ys) = ground (arith, contains-map-insert_sorted b x ys)

  -- Sorting keeps the members.
  pub contains-map-sort :
      (b : B) (xs : List A) → contains b (map f (sort before xs)) ≡ contains b (map f xs)
  unfolding sort
  contains-map-sort b [] = refl
  contains-map-sort b (x ∷ xs) =
      ground (arith, contains-map-insert_sorted b x (sort before xs), contains-map-sort b xs)

module _ {ℓ} {A : Type ℓ} ⦃e : Eq A⦄ (before : A → A → Bool) where
  contains-insert_sorted :
      (b x : A) (xs : List A) → contains b (insert_sorted before x xs) ≡ ((x == b) || contains b xs)
  unfolding insert_sorted
  contains-insert_sorted b x [] = refl
  contains-insert_sorted b x (y ∷ ys) = ground (arith, contains-insert_sorted b x ys)

  pub contains-sort : (b : A) (xs : List A) → contains b (sort before xs) ≡ contains b xs
  unfolding sort
  contains-sort b [] = refl
  contains-sort b (x ∷ xs) =
      ground (arith, contains-insert_sorted b x (sort before xs), contains-sort b xs)
