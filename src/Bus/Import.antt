-- ===== src/Bus/Import.antt =====
-- `_import_static_feed` of bus_daemon.py, as committed transactions that no other import comes between.
pub mod Imported
pub mod Active
use mathlib.Core.List.{List, [], ◌∷◌, ◌++◌, map}
use irish_rail_nabber.Prelude.{
  ℕ, suc, ◌+◌, String, Bool, true, false, not, ◌&&◌, Option, none, some, nat_beq, nat_eq,
  if◌then◌else◌, length, is_some, any_of,
}
use irish_rail_nabber.Prelude.Result.{Result, ok, err, ◌>>=◌, ◌>>◌, raise_if}
use irish_rail_nabber.Python.Runtime.{Runtime}
use irish_rail_nabber.Bus.Error.{Error, runtime_error}
use irish_rail_nabber.Bus.Static.Csv.{Archive}
use irish_rail_nabber.Bus.Static.Tables.{Agency, Route, Trip, Stop, StopTime, ShapePoint}
use irish_rail_nabber.Bus.Static.Trips.{iter_bus_stop_times, iter_bus_shape_points}
use irish_rail_nabber.Bus.Static.Select.{StaticFeedSelection, select_static_feed}
use irish_rail_nabber.Bus.Versions.{
  feed_source, FeedVersion, Catalogue, delete_versions, existing_version,
  activate_version_and_prune_stop_times, has_stop_times, activate_existing_version,
}

-- The tables, and the identifier that the next version gets.
pub record StaticTables (R : Runtime) : Type 0 where
  pub catalogue : Catalogue R
  pub agencies : List (ℕ × Agency)
  pub routes : List (ℕ × Route)
  pub stops : List (ℕ × Stop R)
  pub trips : List (ℕ × Trip)
  pub next_id : ℕ

-- `StaticImportResult`, without the count of pruned stop times.
pub record StaticImportResult : Type 0 where
  pub feed_version_id : ℕ
  pub imported : Bool
  pub row_count : ℕ
  pub agencies : ℕ
  pub routes : ℕ
  pub stops : ℕ
  pub trips : ℕ
  pub stop_times : ℕ
  pub shape_points : ℕ

abbrev pub unchanged : ℕ → StaticImportResult
unchanged version = record {
  feed_version_id = version;
  imported = false;
  row_count = 0;
  agencies = 0;
  routes = 0;
  stops = 0;
  trips = 0;
  stop_times = 0;
  shape_points = 0;
}

-- `_prefixed_rows`
abbrev pub prefixed_rows {ℓ} : {A : Type ℓ} → ℕ → List A → List (ℕ × A)
prefixed_rows version [] = []
prefixed_rows version (row ∷ rows) = (version, row) ∷ prefixed_rows version rows

-- `UPDATE transit_feed_versions SET shapes_imported = TRUE WHERE id = %s`
abbrev pub mark_shapes : ℕ → FeedVersion → FeedVersion
mark_shapes version v = if nat_beq v.id version then record v { shapes_imported = true } else v

module _ (R : Runtime) where
  -- The stop times of a version, copied again where it has none; with their number.
  unfoldable pub restore_stop_times :
      Archive → StaticFeedSelection R → ℕ → Catalogue R → Result Error (ℕ × Catalogue R)
  unfolding iter_bus_stop_times delete_versions
  restore_stop_times archive selection version c = do
    rows ← iter_bus_stop_times R archive selection.trip_ids
    raise_if (not (nat_beq (length rows) selection.stop_time_count)) runtime_error
    ok (
      length rows,
      record {
        versions = c.versions;
        stop_times = delete_versions (version ∷ []) c.stop_times ++ prefixed_rows version rows;
        shape_points = c.shape_points;
      },
    )

  unfoldable pub restore_shape_points :
      Archive → StaticFeedSelection R → ℕ → Catalogue R → Result Error (ℕ × Catalogue R)
  unfolding iter_bus_shape_points delete_versions
  restore_shape_points archive selection version c = do
    rows ← iter_bus_shape_points R archive selection.shape_ids
    raise_if (not (nat_beq (length rows) selection.shape_point_count)) runtime_error
    ok (
      length rows,
      record {
        versions = map (mark_shapes version) c.versions;
        stop_times = c.stop_times;
        shape_points = delete_versions (version ∷ []) c.shape_points ++ prefixed_rows version rows;
      },
    )

  abbrev pub unless {ℓ} : {A : Type ℓ} → Bool → A → Result Error (ℕ × A) → Result Error (ℕ × A)
  unless true a m = ok (0, a)
  unless false a m = m

  abbrev pub with_catalogue : StaticTables R → Catalogue R → StaticTables R
  with_catalogue s c = record s { catalogue = c }

  -- The rows that are missing from a version that was imported before.
  unfoldable pub restore_version :
      Archive
      → StaticFeedSelection R
      → FeedVersion
      → StaticTables R
      → Result Error (StaticImportResult × StaticTables R)
  unfolding restore_stop_times restore_shape_points activate_version_and_prune_stop_times
  restore_version archive selection v s = do
    raise_if (not (is_some v.imported_at)) runtime_error
    times ←
        unless (has_stop_times R v s.catalogue) s.catalogue
          (restore_stop_times archive selection v.id s.catalogue)
    points ← unless v.shapes_imported times.1 (restore_shape_points archive selection v.id times.1)
    ok (
      (if has_stop_times R v s.catalogue && v.shapes_imported then unchanged v.id else record {
        feed_version_id = v.id;
        imported = true;
        row_count = times.0 + points.0;
        agencies = 0;
        routes = 0;
        stops = 0;
        trips = 0;
        stop_times = times.0;
        shape_points = points.0;
      }),
      with_catalogue s (activate_version_and_prune_stop_times R v.id points.1),
    )

  -- The row of a new version, after its import.
  abbrev pub new_row : ℕ → String → ℕ → FeedVersion
  new_row version digest now = record {
    id = version;
    source = feed_source;
    content_sha256 = digest;
    imported_at = some now;
    is_active = false;
    shapes_imported = true;
  }

  -- A version with its stop times and shape points.
  abbrev pub with_version :
      FeedVersion → List StopTime → List (ShapePoint R) → Catalogue R → Catalogue R
  with_version v times points c = record {
    versions = v ∷ c.versions;
    stop_times = c.stop_times ++ prefixed_rows v.id times;
    shape_points = c.shape_points ++ prefixed_rows v.id points;
  }

  unfoldable pub import_version :
      Archive
      → StaticFeedSelection R
      → String
      → ℕ
      → StaticTables R
      → Result Error (StaticImportResult × StaticTables R)
  unfolding iter_bus_stop_times iter_bus_shape_points activate_version_and_prune_stop_times
  import_version archive selection digest now s = do
    points ← iter_bus_shape_points R archive selection.shape_ids
    raise_if (not (nat_beq (length points) selection.shape_point_count)) runtime_error
    times ← iter_bus_stop_times R archive selection.trip_ids
    raise_if (not (nat_beq (length times) selection.stop_time_count)) runtime_error
    ok (
      record {
        feed_version_id = s.next_id;
        imported = true;
        row_count =
            length selection.agencies
            + length selection.routes
            + length selection.stops
            + length selection.trips
            + length times
            + length points;
        agencies = length selection.agencies;
        routes = length selection.routes;
        stops = length selection.stops;
        trips = length selection.trips;
        stop_times = length times;
        shape_points = length points;
      },
      record {
        catalogue =
            activate_version_and_prune_stop_times R s.next_id
              (with_version (new_row s.next_id digest now) times points s.catalogue);
        agencies = s.agencies ++ prefixed_rows s.next_id selection.agencies;
        routes = s.routes ++ prefixed_rows s.next_id selection.routes;
        stops = s.stops ++ prefixed_rows s.next_id selection.stops;
        trips = s.trips ++ prefixed_rows s.next_id selection.trips;
        next_id = suc s.next_id;
      },
    )

  -- The second transaction, with the version that has the digest by then.
  abbrev pub store_selection :
      Archive
      → StaticFeedSelection R
      → String
      → ℕ
      → Option FeedVersion
      → StaticTables R
      → Result Error (StaticImportResult × StaticTables R)
  store_selection archive selection digest now none s =
      import_version archive selection digest now s
  store_selection archive selection digest now (some v) s = restore_version archive selection v s

  abbrev pub unless_active :
      Archive
      → String
      → ℕ
      → StaticTables R
      → Option (ℕ × Catalogue R)
      → Result Error (StaticImportResult × StaticTables R)
  unless_active archive digest now s (some (version, c)) =
      ok (unchanged version, with_catalogue s c)
  unless_active archive digest now s none = select_static_feed R archive >>= λ selection.
      store_selection archive selection digest now (existing_version digest s.catalogue.versions) s

  -- `_import_static_feed`, with the archive of the file, its digest and the time of the import.
  unfoldable pub import_static_feed :
      Archive → String → ℕ → StaticTables R → Result Error (StaticImportResult × StaticTables R)
  unfolding activate_existing_version select_static_feed existing_version import_version
      restore_version
  import_static_feed archive digest now s =
      activate_existing_version R digest s.catalogue >>= unless_active archive digest now s
