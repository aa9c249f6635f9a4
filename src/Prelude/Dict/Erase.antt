-- ===== src/Prelude/Dict/Erase.antt =====
-- Deletions from a dictionary, and what is left.
use irish_rail_nabber.Prelude.Tests.{if◌then◌else◌, Bool-cases}
use irish_rail_nabber.Prelude.Lists.{select}
use irish_rail_nabber.Prelude.Equality.{Eq, ◌==◌, contains}
use irish_rail_nabber.Prelude.Dict.{Dict, lookup, erase, keys}
use irish_rail_nabber.Prelude.Dict.Keys.{Distinct, lookup-absent}
use mathlib.Core.Option.{none}
use mathlib.Core.Path.{◌≡◌, refl, ap, ◌∙◌}
use mathlib.Core.Bool.{Bool, false, ◌&&◌}
use mathlib.Core.Logic.{inl, inr}
use mathlib.Core.List.{List, [], ◌∷◌}
use native.Mathlib.Omega.{arith}

module _ {ℓ} {K : Type ℓ} ⦃e : Eq K⦄ where
  contains-select :
      (test : K → Bool) (j : K) (ks : List K)
      → contains j (select test ks) ≡ (contains j ks && test j)
  contains-select test j [] = refl
  contains-select test j (k ∷ ks) = elim (Bool-cases (k == j)) [
    | inl same ↦ ground (arith, contains-select test j ks, ap test ((e.beq_iff k j).0 same))
    | inr other ↦ ground (arith, contains-select test j ks)
  ]

module _ {ℓ κ} {K : Type ℓ} {V : Type κ} ⦃e : Eq K⦄ where
  -- `for key in ks: del d[key]`
  abbrev pub erase_all : List K → Dict K V → Dict K V
  erase_all [] d = d
  erase_all (k ∷ ks) d = erase_all ks (erase k d)

  contains-keys-erase :
      (k j : K) (d : Dict K V) → contains j (keys d) ≡ false → contains j (keys (erase k d)) ≡ false
  contains-keys-erase k j [] h = refl
  contains-keys-erase k j (x ∷ d) h = ground (arith, contains-keys-erase k j d)

  Distinct-keys-erase : (k : K) (d : Dict K V) → Distinct (keys d) → Distinct (keys (erase k d))
  Distinct-keys-erase k [] h = tt
  Distinct-keys-erase k (x ∷ d) h = elim (Bool-cases (x.0 == k)) [
    | inl same ↦ rw same h.1
    | inr other ↦ rw other (contains-keys-erase k x.0 d h.0, Distinct-keys-erase k d h.1)
  ]

  lookup-erase :
      (k j : K) (d : Dict K V)
      → Distinct (keys d)
      → lookup j (erase k d) ≡ (if k == j then none else lookup j d)
  lookup-erase k j [] h = ground arith
  lookup-erase k j (x ∷ d) h = ground (
    arith,
    e.beq_iff x.0 k,
    e.beq_iff x.0 j,
    e.beq_iff k j,
    lookup-erase k j d,
    lookup-absent x.0 d h.0,
  )

  lookup-erase_all :
      (ks : List K) (j : K) (d : Dict K V)
      → Distinct (keys d)
      → lookup j (erase_all ks d) ≡ (if contains j ks then none else lookup j d)
  lookup-erase_all [] j d h = refl
  lookup-erase_all (k ∷ ks) j d h =
      lookup-erase_all ks j (erase k d) (Distinct-keys-erase k d h)
      ∙ ground (arith, lookup-erase k j d h)

  -- Every key that passes the test is deleted, and no other.
  pub lookup-erase_selected :
      (test : K → Bool) (j : K) (d : Dict K V)
      → Distinct (keys d)
      → lookup j (erase_all (select test (keys d)) d) ≡ (if test j then none else lookup j d)
  lookup-erase_selected test j d h =
      lookup-erase_all (select test (keys d)) j d h
      ∙ ground (arith, contains-select test j (keys d), lookup-absent j d)
