-- ===== src/Bus/Vehicles/Latest.antt =====
-- The positions that `_upsert_vehicle_positions` of bus_daemon.py keeps of a poll.
use mathlib.Core.List.{List, [], ◌∷◌}
use irish_rail_nabber.Prelude.{
  ℕ, ◌≡◌, refl, ap, ◌∙◌, Bool, true, false, Option, none, some, nat_eq, string_eq, pair_eq, All,
  ◌==◌, if◌then◌else◌, or_else,
}
use irish_rail_nabber.Prelude.Dict.{Dict, lookup, insert, keys, lookup-insert}
use irish_rail_nabber.Prelude.Dict.Keys.{Distinct, Distinct-keys-insert, All-insert}
use irish_rail_nabber.Python.Runtime.{Runtime}
use irish_rail_nabber.Bus.Records.{ParsedVehiclePosition}
use irish_rail_nabber.Bus.Tables.{VersionKey}
use irish_rail_nabber.Bus.Vehicles.{current_positions}

pub or_else-none : {A : Type 0} (o : Option A) → or_else o none ≡ o
or_else-none none = refl
or_else-none (some x) = refl

or_else-if :
    {A : Type 0} (o : Option A) (b : Bool) (x : A) (rest : Option A)
    → or_else o (if b then some x else rest) ≡ or_else (or_else o (if b then some x else none)) rest
or_else-if none true x rest = refl
or_else-if none false x rest = refl
or_else-if (some y) b x rest = refl

module _ (R : Runtime) (version : ℕ) where
  abbrev pub IsKeyed : VersionKey × ParsedVehiclePosition R → Type 0
  IsKeyed e = e.0 ≡ (version, e.1.vehicle_instance_key)

  abbrev pub IsCurrent : Dict VersionKey (ParsedVehiclePosition R) → Type 0
  IsCurrent current = Distinct (keys current) × All IsKeyed current

  pub current_positions-IsCurrent :
      (ps : List (ParsedVehiclePosition R)) (current : Dict VersionKey (ParsedVehiclePosition R))
      → IsCurrent current
      → IsCurrent (current_positions R version ps current)
  unfolding current_positions
  current_positions-IsCurrent [] current h = h
  current_positions-IsCurrent (p ∷ ps) current h =
      current_positions-IsCurrent ps (insert (version, p.vehicle_instance_key) p current) (
        Distinct-keys-insert (version, p.vehicle_instance_key) p current h.0,
        All-insert IsKeyed (version, p.vehicle_instance_key) p current (λ j e. e) h.1,
      )

  -- The last position that the poll brings for a key.
  abbrev pub last_position :
      VersionKey → List (ParsedVehiclePosition R) → Option (ParsedVehiclePosition R)
  last_position k [] = none
  last_position k (p ∷ ps) =
      or_else (last_position k ps) (if (version, p.vehicle_instance_key) == k then some p else none)

  pub lookup-current_positions :
      (k : VersionKey) (ps : List (ParsedVehiclePosition R))
      (current : Dict VersionKey (ParsedVehiclePosition R))
      → lookup k (current_positions R version ps current)
        ≡ or_else (last_position k ps) (lookup k current)
  unfolding current_positions
  lookup-current_positions k [] current = refl
  lookup-current_positions k (p ∷ ps) current =
      let j : VersionKey = (version, p.vehicle_instance_key) in
      lookup-current_positions k ps (insert j p current)
      ∙ ap (or_else (last_position k ps)) (lookup-insert j k p current)
      ∙ or_else-if (last_position k ps) (j == k) p (lookup k current)
