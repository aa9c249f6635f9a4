-- ===== src/Prelude/Sort/Order.antt =====
-- Sorting by a strict total order: the order of the members does not matter.
use irish_rail_nabber.Prelude.Sort.{insert_sorted, sort}
use mathlib.Core.Path.{◌≡◌, refl, ap, ◌∙◌}
use mathlib.Core.Bool.{Bool, true, false}
use mathlib.Core.List.{List, [], ◌∷◌}
use mathlib.Core.List.{Permᴰ}
use native.Mathlib.Omega.{arith}

-- A strict total order, as a test.
pub record IsOrder {ℓ} {A : Type ℓ} (before : A → A → Bool) : Type ℓ where
  pub asym : (a b : A) → before a b ≡ true → before b a ≡ false
  pub connex : (a b : A) → before a b ≡ false → before b a ≡ false → a ≡ b
  pub transitive : (a b c : A) → before a b ≡ true → before b c ≡ true → before a c ≡ true

module _ {ℓ} {A : Type ℓ} (before : A → A → Bool) (order : IsOrder before) where
  insert_sorted-swap :
      (x y : A) (zs : List A)
      → insert_sorted before x (insert_sorted before y zs)
        ≡ insert_sorted before y (insert_sorted before x zs)
  unfolding insert_sorted
  insert_sorted-swap x y [] = ground (arith, order.asym x y, order.connex x y, order.asym y x)
  insert_sorted-swap x y (z ∷ zs) = ground (
    arith,
    insert_sorted-swap x y zs,
    order.asym x y,
    order.asym y x,
    order.connex x y,
    order.asym x z,
    order.asym z x,
    order.connex x z,
    order.asym y z,
    order.asym z y,
    order.connex y z,
    order.transitive x y z,
    order.transitive y x z,
    order.transitive z x y,
    order.transitive z y x,
    order.transitive x z y,
    order.transitive y z x,
  )

  pub sort-Permᴰ : (xs ys : List A) → Permᴰ xs ys → sort before xs ≡ sort before ys
  unfolding sort
  sort-Permᴰ _ _ Permᴰ.nil = refl
  sort-Permᴰ _ _ (Permᴰ.cons {a = a} {l₁ = l₁} {l₂ = l₂} e p) =
      ap (insert_sorted before a) (sort-Permᴰ l₁ l₂ p)
      ∙ ap (λ x. insert_sorted before x (sort before l₂)) e
  sort-Permᴰ _ _ (Permᴰ.swap {a = a} {b = b} {a' = c} {b' = d} {l = l} e f) =
      insert_sorted-swap a b (sort before l)
      ∙ ap (λ x. insert_sorted before x (insert_sorted before a (sort before l))) f
      ∙ ap (λ x. insert_sorted before c (insert_sorted before x (sort before l))) e
  sort-Permᴰ _ _ (Permᴰ.trans {l₁ = l₁} {l₂ = l₂} {l₃ = l₃} p q) =
      sort-Permᴰ l₁ l₂ p ∙ sort-Permᴰ l₂ l₃ q
