-- ===== src/Bus/Refresh.antt =====
-- `refresh_static_feed` of bus_daemon.py, with a database that accepts what is written to it.
pub mod Remembered
use mathlib.Core.List.{List, [], ◌∷◌, ◌++◌}
use irish_rail_nabber.Prelude.{
  ℕ, String, Bool, true, false, Option, none, some, nat_beq, nat_eq, if◌then◌else◌,
}
use irish_rail_nabber.Prelude.Dict.{Dict}
use irish_rail_nabber.Prelude.Result.{Result, ok, err, ◌>>=◌}
use irish_rail_nabber.Python.Runtime.{Runtime}
use irish_rail_nabber.Bus.Error.{Error}
use irish_rail_nabber.Bus.Static.Csv.{Archive}
use irish_rail_nabber.Bus.Filter.{ActiveBusIds}
use irish_rail_nabber.Bus.Updates.{Memory}
use irish_rail_nabber.Bus.Import.{StaticTables, StaticImportResult, import_static_feed}

-- The status of a refresh in `fetch_history`.
pub data Status : Type 0 where
  success : Status
  skipped : Status
  failed : Status

-- A row of `fetch_history` for `nta_static_gtfs`.
pub record StaticFetch : Type 0 where
  pub record_count : ℕ
  pub status : Status

-- The daemon's memory with the tables that a refresh writes.
pub record StaticState (R : Runtime) : Type 0 where
  pub memory : Memory
  pub active_bus_ids_cache : Option ActiveBusIds
  pub tables : StaticTables R
  pub history : List StaticFetch

-- What one refresh meets: the archive that is downloaded and its digest, or the error of the download;
-- the time of the import; and whether the archive can be kept on the disk.
pub record Download : Type 0 where
  pub feed : Result Error (Archive × String)
  pub now : ℕ
  pub is_archived : Bool

-- `{key: value ... if key[0] == result.feed_version_id}`
unfoldable pub keep_version {ℓ κ} : {K : Type ℓ} {V : Type κ} → ℕ → Dict (ℕ × K) V → Dict (ℕ × K) V
keep_version version [] = []
keep_version version (e ∷ d) =
    let rest = keep_version version d in if nat_beq e.0.0 version then e ∷ rest else rest

unfoldable pub keep_cache : ℕ → Option ActiveBusIds → Option ActiveBusIds
keep_cache version none = none
keep_cache version (some ids) = if nat_beq ids.feed_version_id version then some ids else none

abbrev pub status_of : StaticImportResult → Status
status_of result = if result.imported then success else skipped

unfoldable pub remember_version : ℕ → Memory → Memory
unfolding keep_version
remember_version version m = record {
  previous_update_hashes = keep_version version m.previous_update_hashes;
  previous_update_feed = m.previous_update_feed;
  previous_vehicle_hashes = keep_version version m.previous_vehicle_hashes;
}

module _ (R : Runtime) where
  -- `record_fetch`
  abbrev pub record_static : ℕ → Status → StaticState R → StaticState R
  record_static record_count status s = record s {
    history = s.history ++ record { record_count = record_count; status = status } ∷ [];
  }

  -- From the archive on the disk, which comes after the import is committed.
  unfoldable pub after_import : Bool → StaticImportResult → StaticState R → StaticState R
  unfolding remember_version keep_cache
  after_import false result s = record_static 0 failed s
  after_import true result s = record_static result.row_count (status_of result) (record s {
    memory = remember_version result.feed_version_id s.memory;
    active_bus_ids_cache = keep_cache result.feed_version_id s.active_bus_ids_cache;
  })

  unfoldable pub after_refresh :
      Bool → StaticState R → Result Error (StaticImportResult × StaticTables R) → StaticState R
  unfolding after_import
  after_refresh is_archived s (err e) = record_static 0 failed s
  after_refresh is_archived s (ok (result, tables)) =
      after_import is_archived result (record s { tables = tables })

  unfoldable pub refresh_static_feed : Download → StaticState R → StaticState R
  unfolding after_refresh import_static_feed
  refresh_static_feed d s =
      after_refresh d.is_archived s (d.feed >>= λ f. import_static_feed R f.0 f.1 d.now s.tables)
