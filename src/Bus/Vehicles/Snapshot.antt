-- ===== src/Bus/Vehicles/Snapshot.antt =====
-- The rows of `bus_vehicle_positions` after `_upsert_vehicle_positions` of bus_daemon.py.
use mathlib.Core.Option
use mathlib.Core.List.{List, [], ◌∷◌}
use irish_rail_nabber.Prelude.{
  ℕ, ◌≡◌, refl, sym, ap, ◌∙◌, false, Option, none, some, inl, inr, arith, nat_eq, string_eq,
  pair_eq, All, Bool-cases, ◌==◌, if◌then◌else◌, contains, nat_beq, is_some, or_else,
}
use irish_rail_nabber.Prelude.Dict.{Dict, lookup, insert, keys, values, lookup-insert}
use irish_rail_nabber.Prelude.Dict.Keys.{has_key-eq-contains}
use irish_rail_nabber.Python.Runtime.{Runtime}
use irish_rail_nabber.Bus.Records.{ParsedVehiclePosition}
use irish_rail_nabber.Bus.Batches.{execute_many}
use irish_rail_nabber.Bus.Batches.Whole.{write_batches_lem}
use irish_rail_nabber.Bus.Tables.{VersionKey, VehicleRow, Database, settle, replace_position}
use irish_rail_nabber.Bus.Updates.{Memory}
use irish_rail_nabber.Bus.Vehicles.{
  current_positions, vehicle_row, write_position, is_kept, delete_gone, upsert_vehicle_positions,
}
use irish_rail_nabber.Bus.Vehicles.Latest.{
  or_else-none, IsKeyed, IsCurrent, current_positions-IsCurrent, last_position,
  lookup-current_positions,
}

module _ (R : Runtime) (version fetched_at : ℕ) where
  abbrev write_all :
      Dict VersionKey (ParsedVehiclePosition R)
      → Dict VersionKey (VehicleRow R)
      → Dict VersionKey (VehicleRow R)
  write_all current table =
      execute_many (write_position R version fetched_at) (values current) table

  -- What the statement leaves of a row for a position, if the poll has one.
  abbrev refreshed :
      Option (VehicleRow R) → Option (ParsedVehiclePosition R) → Option (VehicleRow R)
  refreshed old none = old
  refreshed old (some p) = some (settle (replace_position R) old (vehicle_row R fetched_at p))

  write_at :
      (k j : VersionKey) (p : ParsedVehiclePosition R) (table : Dict VersionKey (VehicleRow R))
      → lookup k (
          insert j
            (settle (replace_position R) (lookup j table) (vehicle_row R fetched_at p))
            table)
        ≡ (if j == k then refreshed (lookup k table) (some p) else lookup k table)
  write_at k j p table = elim (Bool-cases (j == k)) [
    | inl same ↦
        lookup-insert j k
          (settle (replace_position R) (lookup j table) (vehicle_row R fetched_at p)) table
        ∙ rw same (ap (λ i. refreshed (lookup i table) (some p)) ((pair_eq.beq_iff j k).0 same))
    | inr other ↦
        lookup-insert j k
          (settle (replace_position R) (lookup j table) (vehicle_row R fetched_at p)) table
        ∙ rw other refl
  ]

  lookup-write_position :
      (k : VersionKey) (e : VersionKey × ParsedVehiclePosition R)
      (table : Dict VersionKey (VehicleRow R))
      → IsKeyed R version e
      → lookup k (write_position R version fetched_at e.1 table)
        ≡ (if e.0 == k then refreshed (lookup k table) (some e.1) else lookup k table)
  lookup-write_position k e table keyed =
      write_at k (version, e.1.vehicle_instance_key) e.1 table
      ∙ ap (λ i. if i == k then refreshed (lookup k table) (some e.1) else lookup k table)
          (sym keyed)

  lookup-write_all-absent :
      (k : VersionKey) (current : Dict VersionKey (ParsedVehiclePosition R))
      (table : Dict VersionKey (VehicleRow R))
      → All (IsKeyed R version) current
      → contains k (keys current) ≡ false
      → lookup k (write_all current table) ≡ lookup k table
  lookup-write_all-absent k [] table keyed absent = refl
  lookup-write_all-absent k (e ∷ current) table keyed absent =
      lookup-write_all-absent k current (write_position R version fetched_at e.1 table) keyed.1
        (ground arith)
      ∙ lookup-write_position k e table keyed.0
      ∙ ground arith

  lookup-write_all :
      (k : VersionKey) (current : Dict VersionKey (ParsedVehiclePosition R))
      (table : Dict VersionKey (VehicleRow R))
      → IsCurrent R version current
      → lookup k (write_all current table) ≡ refreshed (lookup k table) (lookup k current)
  lookup-write_all k [] table h = refl
  lookup-write_all k (e ∷ current) table (distinct, keyed) = elim (Bool-cases (e.0 == k)) [
    | inl same ↦
        let own = (pair_eq.beq_iff e.0 k).0 same in
        lookup-write_all-absent k current (write_position R version fetched_at e.1 table) keyed.1
          (ap (λ i. contains i (keys current)) (sym own) ∙ distinct.0)
        ∙ lookup-write_position k e table keyed.0
        ∙ rw same refl
    | inr other ↦
        lookup-write_all k current (write_position R version fetched_at e.1 table)
          (distinct.1, keyed.1)
        ∙ ap (λ row. refreshed row (lookup k current))
            (lookup-write_position k e table keyed.0
              ∙ ap (λ b. if b then refreshed (lookup k table) (some e.1) else lookup k table) other)
        ∙ rw other refl
  ]

  lookup-delete_gone :
      (k : VersionKey) (current_keys : List VersionKey) (table : Dict VersionKey (VehicleRow R))
      → lookup k (delete_gone R version current_keys table)
        ≡ (if is_kept R version current_keys k then lookup k table else none)
  unfolding delete_gone
  lookup-delete_gone k current_keys [] = ground arith
  lookup-delete_gone k current_keys (row ∷ table) = elim (Bool-cases (row.0 == k)) [
    | inl same ↦
        let own = (pair_eq.beq_iff row.0 k).0 same in
        elim (Bool-cases (is_kept R version current_keys row.0)) [
          | inl kept ↦
              rw (kept, same) (rw (ap (is_kept R version current_keys) (sym own) ∙ kept) refl)
          | inr gone ↦
              rw (gone, same)
                (lookup-delete_gone k current_keys table
                  ∙ rw (ap (is_kept R version current_keys) (sym own) ∙ gone) refl)
        ]
    | inr other ↦ elim (Bool-cases (is_kept R version current_keys row.0)) [
      | inl kept ↦ rw (kept, other) (lookup-delete_gone k current_keys table)
      | inr gone ↦ rw (gone, other) (lookup-delete_gone k current_keys table)
    ]
  ]

  -- The row of a vehicle whose last position is `p`, by its row before the poll: the position as it is,
  -- but for the source time, which stays where `p` has none; and the time of the fetch in which the hash
  -- was first seen.
  abbrev pub vehicle_after : Option (VehicleRow R) → ParsedVehiclePosition R → VehicleRow R
  vehicle_after none p = record { position = p; fetched_at = fetched_at; last_seen_at = fetched_at }
  vehicle_after (some old) p = record {
    position = record p {
      source_timestamp = or_else p.source_timestamp old.position.source_timestamp;
    };
    fetched_at = if old.position.update_hash == p.update_hash then old.fetched_at else fetched_at;
    last_seen_at = fetched_at;
  }

  -- The row that the table has for a key after the poll.
  abbrev pub snapshot_row :
      VersionKey
      → List (ParsedVehiclePosition R)
      → Dict VersionKey (VehicleRow R)
      → Option (VehicleRow R)
  snapshot_row k positions table =
      if nat_beq k.0 version
      then Option.map (vehicle_after (lookup k table)) (last_position R version k positions)
      else lookup k table

  -- The rows that the statement leaves are these.
  kept-vehicle_after :
      (old : Option (VehicleRow R)) (found : Option (ParsedVehiclePosition R))
      → (if is_some found then refreshed old found else none) ≡ Option.map (vehicle_after old) found
  kept-vehicle_after old none = refl
  kept-vehicle_after none (some p) = refl
  kept-vehicle_after (some old) (some p) = refl

  other_key :
      (k : VersionKey) (e : VersionKey × ParsedVehiclePosition R)
      → IsKeyed R version e
      → nat_beq k.0 version ≡ false
      → (e.0 == k) ≡ false
  other_key k e keyed other = elim (Bool-cases (e.0 == k)) [
    | inl same ↦
        absurd (ground (arith, ap (λ i. i.0) (sym ((pair_eq.beq_iff e.0 k).0 same) ∙ keyed)))
    | inr differ ↦ differ
  ]

  lookup-other_version :
      (k : VersionKey) (current : Dict VersionKey (ParsedVehiclePosition R))
      → All (IsKeyed R version) current
      → nat_beq k.0 version ≡ false
      → lookup k current ≡ none
  lookup-other_version k [] keyed other = refl
  lookup-other_version k (e ∷ current) keyed other =
      rw (other_key k e keyed.0 other) (lookup-other_version k current keyed.1 other)

  merge :
      (k : VersionKey) (current : Dict VersionKey (ParsedVehiclePosition R))
      (table : Dict VersionKey (VehicleRow R))
      → All (IsKeyed R version) current
      → (if is_kept R version (keys current) k
          then refreshed (lookup k table) (lookup k current)
          else none)
        ≡ (if nat_beq k.0 version
            then Option.map (vehicle_after (lookup k table)) (lookup k current)
            else lookup k table)
  merge k current table keyed = elim (Bool-cases (nat_beq k.0 version)) [
    | inl own ↦
        rw (own, ← has_key-eq-contains k current)
          (kept-vehicle_after (lookup k table) (lookup k current))
    | inr other ↦ rw (other, lookup-other_version k current keyed other) refl
  ]

-- After a poll of vehicle positions, the rows of the version are exactly those of the vehicles that the
-- poll brings: such a vehicle's row has its last position, with the source time of the row before where
-- the position has none, and the time of this fetch, or that of the row before where its hash is the
-- same; it was last seen at this fetch; a vehicle that the poll does not bring has no row; and rows of
-- other versions stay as they are.
pub upsert_vehicle_positions-snapshot :
    (R : Runtime) (version fetched_at : ℕ) (positions : List (ParsedVehiclePosition R)) (m : Memory)
    (db : Database R) (k : VersionKey)
    → lookup k
        (upsert_vehicle_positions R version fetched_at positions m db).database.vehicle_positions
      ≡ snapshot_row R version fetched_at k positions db.vehicle_positions
unfolding upsert_vehicle_positions
upsert_vehicle_positions-snapshot R version fetched_at positions m db k =
    let current = current_positions R version positions [] in
    let write = write_position R version fetched_at in
    ap (λ table. lookup k (delete_gone R version (keys current) table))
      (write_batches_lem write (values current) db.vehicle_positions)
    ∙ lookup-delete_gone R version fetched_at k (keys current)
        (write_all R version fetched_at current db.vehicle_positions)
    ∙ ap (λ row. if is_kept R version (keys current) k then row else none)
        (lookup-write_all R version fetched_at k current db.vehicle_positions
          (current_positions-IsCurrent R version positions [] (tt, tt)))
    ∙ merge R version fetched_at k current db.vehicle_positions
        (current_positions-IsCurrent R version positions [] (tt, tt)).1
    ∙ ap
        (λ found.
          if nat_beq k.0 version
          then Option.map (vehicle_after R version fetched_at (lookup k db.vehicle_positions)) found
          else lookup k db.vehicle_positions)
        (lookup-current_positions R version k positions []
          ∙ or_else-none (last_position R version k positions))
