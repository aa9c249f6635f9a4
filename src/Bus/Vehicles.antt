-- ===== src/Bus/Vehicles.antt =====
-- `_upsert_vehicle_positions` of bus_daemon.py, in its committed transaction.
pub mod Latest
pub mod Snapshot
use mathlib.Core.List.{List, [], ◌∷◌}
use irish_rail_nabber.Prelude.{
  ℕ, String, Bool, true, false, not, ◌&&◌, if◌then◌else◌, nat_eq, string_eq, pair_eq, contains,
  length, nat_beq,
}
use irish_rail_nabber.Prelude.Dict.{Dict, lookup, insert, keys, values}
use irish_rail_nabber.Python.Runtime.{Runtime}
use irish_rail_nabber.Bus.Records.{ParsedVehiclePosition}
use irish_rail_nabber.Bus.Batches.{write_batches}
use irish_rail_nabber.Bus.Tables.{
  VersionKey, TimeKey, VehicleRow, Database, upsert, insert_new, replace_position,
}
use irish_rail_nabber.Bus.Updates.{Memory, Polled, is_changed}

module _ (R : Runtime) where
  -- `current`: the last position of each vehicle.
  unfoldable pub current_positions :
      ℕ
      → List (ParsedVehiclePosition R)
      → Dict VersionKey (ParsedVehiclePosition R)
      → Dict VersionKey (ParsedVehiclePosition R)
  current_positions version [] current = current
  current_positions version (p ∷ ps) current =
      current_positions version ps (insert (version, p.vehicle_instance_key) p current)

  unfoldable pub changed_positions :
      Dict VersionKey String
      → Dict VersionKey (ParsedVehiclePosition R)
      → List (ParsedVehiclePosition R)
  changed_positions previous [] = []
  changed_positions previous (e ∷ current) =
      let rest = changed_positions previous current in
      if is_changed (lookup e.0 previous) e.1.update_hash then e.1 ∷ rest else rest

  unfoldable pub position_hashes :
      Dict VersionKey (ParsedVehiclePosition R) → Dict VersionKey String
  position_hashes [] = []
  position_hashes (e ∷ current) = (e.0, e.1.update_hash) ∷ position_hashes current

  -- `position.database_row(...)`
  abbrev pub vehicle_row : ℕ → ParsedVehiclePosition R → VehicleRow R
  vehicle_row fetched_at p = record {
    position = p;
    fetched_at = fetched_at;
    last_seen_at = fetched_at;
  }

  module _ (version fetched_at : ℕ) where
    abbrev pub write_position :
        ParsedVehiclePosition R → Dict VersionKey (VehicleRow R) → Dict VersionKey (VehicleRow R)
    write_position p table =
        upsert (replace_position R) (version, p.vehicle_instance_key) (vehicle_row fetched_at p)
          table

    abbrev pub write_vehicle_observation :
        ParsedVehiclePosition R → Dict TimeKey (VehicleRow R) → Dict TimeKey (VehicleRow R)
    write_vehicle_observation p table =
        insert_new (fetched_at, (version, p.vehicle_instance_key)) (vehicle_row fetched_at p) table

  -- A row of another version stays, and a row of a vehicle in the poll; with no vehicle in the poll
  -- the second statement deletes the rows of the version.
  abbrev pub is_kept : ℕ → List VersionKey → VersionKey → Bool
  is_kept version current_keys k = if nat_beq k.0 version then contains k current_keys else true

  -- The two `DELETE` statements.
  unfoldable pub delete_gone :
      ℕ → List VersionKey → Dict VersionKey (VehicleRow R) → Dict VersionKey (VehicleRow R)
  delete_gone version current_keys [] = []
  delete_gone version current_keys (row ∷ table) =
      let rest = delete_gone version current_keys table in
      if is_kept version current_keys row.0 then row ∷ rest else rest

  -- `_upsert_vehicle_positions`
  unfoldable pub upsert_vehicle_positions :
      ℕ → ℕ → List (ParsedVehiclePosition R) → Memory → Database R → Polled R
  unfolding delete_gone
  upsert_vehicle_positions version fetched_at positions memory db =
      let current = current_positions version positions [] in
      let changed = changed_positions memory.previous_vehicle_hashes current in
      let rows = values current in
      record {
        memory = record memory { previous_vehicle_hashes = position_hashes current };
        database = record db {
          vehicle_positions =
              delete_gone version (keys current)
                (write_batches (write_position version fetched_at) rows db.vehicle_positions);
          vehicle_observations =
              write_batches (write_vehicle_observation version fetched_at) rows
                db.vehicle_observations;
        };
        changed = length changed;
      }
