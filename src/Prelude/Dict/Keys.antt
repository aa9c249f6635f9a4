-- ===== src/Prelude/Dict/Keys.antt =====
-- What an assignment does to the keys of a dictionary and to facts about its entries.
use irish_rail_nabber.Prelude.Tests.{if◌then◌else◌, Bool-cases, or_else}
use irish_rail_nabber.Prelude.Lists.{All}
use irish_rail_nabber.Prelude.Equality.{Eq, ◌==◌, contains}
use irish_rail_nabber.Prelude.Dict.{Dict, lookup, has_key, insert, keys, lookup-insert}
use mathlib.Core.Option.{none, some}
use mathlib.Core.Path.{◌≡◌, refl, sym, ap, ◌∙◌}
use mathlib.Core.Bool.{true, false}
use mathlib.Core.Logic.{inl, inr}
use mathlib.Core.List.{List, [], ◌∷◌, ◌++◌}
use native.Mathlib.Omega.{arith}

module _ {ℓ} {A : Type ℓ} ⦃e : Eq A⦄ where
  -- No member of the list stands in it twice.
  abbrev pub Distinct : List A → Type 0
  Distinct [] = Unit
  Distinct (x ∷ xs) = (contains x xs ≡ false) × Distinct xs

module _ {ℓ κ} {K : Type ℓ} {V : Type κ} ⦃e : Eq K⦄ where
  pub contains-keys-insert :
      (k j : K) (v : V) (d : Dict K V)
      → contains j (keys (insert k v d)) ≡ (if k == j then true else contains j (keys d))
  contains-keys-insert k j v [] = ground (arith, e.beq_iff k j)
  contains-keys-insert k j v (x ∷ d) =
      ground (arith, e.beq_iff x.0 k, e.beq_iff x.0 j, e.beq_iff k j, contains-keys-insert k j v d)

  pub Distinct-keys-insert :
      (k : K) (v : V) (d : Dict K V) → Distinct (keys d) → Distinct (keys (insert k v d))
  Distinct-keys-insert k v [] h = (refl, tt)
  Distinct-keys-insert k v (x ∷ d) h = ground (
    arith,
    e.beq_iff x.0 k,
    e.beq_iff k x.0,
    contains-keys-insert k x.0 v d,
    Distinct-keys-insert k v d h.1,
  )

  -- A fact about entries holds after an assignment if the new value satisfies it at its key.
  pub All-insert {ι} :
      (P : K × V → Type ι) (k : K) (v : V) (d : Dict K V)
      → ((j : K) → j ≡ k → P (j, v))
      → All P d
      → All P (insert k v d)
  All-insert P k v [] new h = (new k refl, tt)
  All-insert P k v (x ∷ d) new h = elim (Bool-cases (x.0 == k)) [
    | inl same ↦ rw same (new x.0 ((e.beq_iff x.0 k).0 same), h.1)
    | inr other ↦ rw other (h.0, All-insert P k v d new h.1)
  ]

  pub has_key-eq-contains : (k : K) (d : Dict K V) → has_key k d ≡ contains k (keys d)
  has_key-eq-contains k [] = refl
  has_key-eq-contains k (x ∷ d) = ground (arith, has_key-eq-contains k d)

  -- A key that is in none of the entries finds nothing, and with distinct keys each entry is found.
  pub lookup-absent : (k : K) (d : Dict K V) → contains k (keys d) ≡ false → lookup k d ≡ none
  lookup-absent k [] h = refl
  lookup-absent k (x ∷ d) h = ground (arith, lookup-absent k d)

  found_later :
      (x : K × V) (d f : Dict K V)
      → contains x.0 (keys f) ≡ false
      → All (λ y. lookup y.0 d ≡ some y.1) f
      → All (λ y. lookup y.0 (x ∷ d) ≡ some y.1) f
  found_later x d [] new h = tt
  found_later x d (y ∷ f) new h =
      (ground (arith, e.beq_iff x.0 y.0, e.beq_iff y.0 x.0), found_later x d f (ground arith) h.1)

  pub Distinct-found : (d : Dict K V) → Distinct (keys d) → All (λ y. lookup y.0 d ≡ some y.1) d
  Distinct-found [] h = tt
  Distinct-found (x ∷ d) h =
      (ground (arith, e.beq_iff x.0 x.0), found_later x d d h.0 (Distinct-found d h.1))

  -- `d.update(p)`
  abbrev pub update_all : Dict K V → Dict K V → Dict K V
  update_all d [] = d
  update_all d (x ∷ p) = update_all (insert x.0 x.1 d) p

  pub lookup-update_all :
      (k : K) (d p : Dict K V)
      → Distinct (keys p)
      → lookup k (update_all d p) ≡ or_else (lookup k p) (lookup k d)
  lookup-update_all k d [] h = refl
  lookup-update_all k d (x ∷ p) h = elim (Bool-cases (x.0 == k)) [
    | inl same ↦
        lookup-update_all k (insert x.0 x.1 d) p h.1
        ∙ rw (lookup-insert x.0 k x.1 d, same)
            (ap (λ o. or_else o (some x.1))
              (ap (λ i. lookup i p) (sym ((e.beq_iff x.0 k).0 same)) ∙ lookup-absent x.0 p h.0))
    | inr other ↦
        lookup-update_all k (insert x.0 x.1 d) p h.1 ∙ rw (lookup-insert x.0 k x.1 d, other) refl
  ]

  -- A key that is new is the last one.
  pub keys-insert-new :
      (k : K) (v : V) (d : Dict K V)
      → contains k (keys d) ≡ false
      → keys (insert k v d) ≡ keys d ++ k ∷ []
  keys-insert-new k v [] h = refl
  keys-insert-new k v (x ∷ d) h = elim (Bool-cases (x.0 == k)) [
    | inl same ↦ absurd (ground (arith, same, h))
    | inr other ↦ rw other (ap (λ ks. x.0 ∷ ks) (keys-insert-new k v d (ground (arith, h))))
  ]
