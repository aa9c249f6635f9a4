-- ===== src/Prelude/Dict.antt =====
-- Python's `dict`, in insertion order: an assignment to a key that is there keeps its place.
pub mod Keys
pub mod Counter
pub mod Erase
use irish_rail_nabber.Prelude.Tests.{if◌then◌else◌, is_some}
use irish_rail_nabber.Prelude.Equality.{Eq, ◌==◌}
use mathlib.Core.Path.{◌≡◌, refl}
use mathlib.Core.Bool.{Bool}
use mathlib.Core.Option.{Option, none, some}
use mathlib.Core.List.{List, [], ◌∷◌}
use native.Mathlib.Omega.{arith}

abbrev pub Dict {ℓ κ} : Type ℓ → Type κ → Type (ℓ ⊔ κ)
Dict K V = List (K × V)

module _ {ℓ κ} {K : Type ℓ} {V : Type κ} where
  abbrev pub values : Dict K V → List V
  values [] = []
  values (e ∷ d) = e.1 ∷ values d

  abbrev pub keys : Dict K V → List K
  keys [] = []
  keys (e ∷ d) = e.0 ∷ keys d

module _ {ℓ κ} {K : Type ℓ} {V : Type κ} ⦃e : Eq K⦄ where
  -- `d.get(k)`
  abbrev pub lookup : K → Dict K V → Option V
  lookup k [] = none
  lookup k (x ∷ d) = if x.0 == k then some x.1 else lookup k d

  -- `k in d`
  abbrev pub has_key : K → Dict K V → Bool
  has_key k d = is_some (lookup k d)

  -- `d[k] = v`
  abbrev pub insert : K → V → Dict K V → Dict K V
  insert k v [] = (k, v) ∷ []
  insert k v (x ∷ d) = if x.0 == k then (x.0, v) ∷ d else x ∷ insert k v d

  -- `del d[k]`
  abbrev pub erase : K → Dict K V → Dict K V
  erase k [] = []
  erase k (x ∷ d) = if x.0 == k then d else x ∷ erase k d

  pub lookup-insert :
      (k j : K) (v : V) (d : Dict K V)
      → lookup j (insert k v d) ≡ (if k == j then some v else lookup j d)
  lookup-insert k j v [] = refl
  lookup-insert k j v (x ∷ d) =
      ground (arith, e.beq_iff x.0 k, e.beq_iff x.0 j, e.beq_iff k j, lookup-insert k j v d)
