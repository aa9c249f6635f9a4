-- ===== src/Bus/Static/Trips.antt =====
-- The loops of `_select_static_feed` over trips.txt and stop_times.txt, and the iterators
-- `_iter_bus_stop_times` and `_iter_bus_shape_points` (bus_daemon.py).
pub mod Kept
pub mod Passes
use mathlib.Core.List.{List, [], ◌∷◌, ◌++◌}
use irish_rail_nabber.Prelude.{
  ℕ, ◌+◌, String, Bool, true, false, not, ◌&&◌, ◌||◌, Option, none, some, if◌then◌else◌, get_or,
  string_eq, contains, add,
}
use irish_rail_nabber.Prelude.Dict.{lookup}
use irish_rail_nabber.Prelude.Int.{ℤ, pos, negsuc, ltb_ℤ}
use irish_rail_nabber.Prelude.Result.{Result, ok, err, ◌>>=◌, ◌>>◌, raise_if}
use irish_rail_nabber.Python.Runtime.{Runtime}
use irish_rail_nabber.Bus.Error.{
  Error, feed_format, invalid_time, negative_sequence, invalid_latitude, invalid_longitude,
  invalid_distance,
}
use irish_rail_nabber.Bus.Time.{parse_gtfs_time}
use irish_rail_nabber.Bus.Static.Csv.{
  Row, Archive, optional_field, gtfs_rows, required_field, csv_int, csv_float,
}
use irish_rail_nabber.Bus.Static.Tables.{Trip, StopTime, ShapePoint}

-- The variables of the loop over trips.txt.
pub record Trips : Type 0 where
  pub trips : List Trip
  pub trip_ids : List String
  pub shape_ids : List String

abbrev pub add_shape : Option String → List String → List String
add_shape none ids = ids
add_shape (some s) ids = add s ids

-- The variables of the loop over stop_times.txt.
pub record Usage : Type 0 where
  pub used_stop_ids : List String
  pub stop_time_count : ℕ

-- `except ValueError as error: raise FeedFormatError(...)`
abbrev time_or_error : Result Error (Option ℕ) → Result Error (Option ℕ)
time_or_error (ok t) = ok t
time_or_error (err e) = err (feed_format invalid_time)

module _ (R : Runtime) where
  unfoldable pub add_trip : Row → Trips → Result Error Trips
  add_trip row s = do
    trip_id ← required_field R row "trip_id"
    service_id ← required_field R row "service_id"
    direction_id ← csv_int R row "direction_id" false
    ok (record {
      trip_ids = add trip_id s.trip_ids;
      shape_ids = add_shape (optional_field "shape_id" row) s.shape_ids;
      trips =
          s.trips
          ++ record {
            trip_id = trip_id;
            route_id = get_or (lookup "route_id" row) "";
            service_id = service_id;
            trip_headsign = optional_field "trip_headsign" row;
            direction_id = direction_id;
            shape_id = optional_field "shape_id" row;
          }
            ∷ [];
    })

  unfoldable pub read_trip : List String → Row → Trips → Result Error Trips
  unfolding add_trip
  read_trip route_ids row s =
      if contains (get_or (lookup "route_id" row) "") route_ids then add_trip row s else ok s

  unfoldable pub read_trips : List String → List Row → Trips → Result Error Trips
  unfolding read_trip
  read_trips route_ids [] s = ok s
  read_trips route_ids (row ∷ rows) s = read_trip route_ids row s >>= read_trips route_ids rows

  abbrev gtfs_time : Row → String → Result Error (Option ℕ)
  gtfs_time row field = time_or_error (parse_gtfs_time R (lookup field row))

  -- A trip's row of stop_times.txt as `_select_static_feed` checks it: it keeps the stop alone.
  unfoldable pub check_stop_time : Row → Result Error String
  check_stop_time row = do
    stop_id ← required_field R row "stop_id"
    _ ← csv_int R row "stop_sequence" true
    _ ← gtfs_time row "arrival_time"
    _ ← gtfs_time row "departure_time"
    ok stop_id

  -- `row.get("trip_id") not in trip_ids`: a row without the field is of no trip.
  abbrev pub has_trip : List String → Option String → Bool
  has_trip trip_ids none = false
  has_trip trip_ids (some t) = contains t trip_ids

  unfoldable pub use_stop : Row → Usage → Result Error Usage
  unfolding check_stop_time
  use_stop row s = do
    stop_id ← check_stop_time row
    ok (record {
      used_stop_ids = add stop_id s.used_stop_ids;
      stop_time_count = s.stop_time_count + 1;
    })

  unfoldable pub read_stop_times : List String → List Row → Usage → Result Error Usage
  unfolding use_stop
  read_stop_times trip_ids [] s = ok s
  read_stop_times trip_ids (row ∷ rows) s =
      (if has_trip trip_ids (lookup "trip_id" row) then use_stop row s else ok s)
      >>= read_stop_times trip_ids rows

  -- A row of stop_times.txt as `_iter_bus_stop_times` reads it.
  unfoldable pub stop_time_of : Row → Result Error StopTime
  stop_time_of row = do
    stop_id ← required_field R row "stop_id"
    stop_sequence ← csv_int R row "stop_sequence" true
    arrival_seconds ← gtfs_time row "arrival_time"
    departure_seconds ← gtfs_time row "departure_time"
    ok (record {
      trip_id = get_or (lookup "trip_id" row) "";
      stop_sequence = stop_sequence;
      stop_id = stop_id;
      arrival_seconds = arrival_seconds;
      departure_seconds = departure_seconds;
    })

  unfoldable pub stop_times_of : List String → List Row → Result Error (List StopTime)
  unfolding stop_time_of
  stop_times_of trip_ids [] = ok []
  stop_times_of trip_ids (row ∷ rows) =
      let later = stop_times_of trip_ids rows in
      let here = (do point ← stop_time_of row; rest ← later; ok (point ∷ rest)) in
      if contains (get_or (lookup "trip_id" row) "") trip_ids then here else later

  -- `_iter_bus_stop_times`, run to its end.
  unfoldable pub iter_bus_stop_times : Archive → List String → Result Error (List StopTime)
  unfolding stop_times_of gtfs_rows
  iter_bus_stop_times archive trip_ids = do
    rows ← gtfs_rows R archive "stop_times.txt"
    stop_times_of trip_ids rows

  abbrev outside : ℤ → ℤ → Option R.Float → Bool
  outside low high none = true
  outside low high (some x) = not (R.is_finite x) || not (R.is_between low x high)

  abbrev bad_distance : Option R.Float → Bool
  bad_distance none = false
  bad_distance (some x) = not (R.is_finite x) || R.is_negative x

  abbrev bad_sequence : Option ℤ → Bool
  bad_sequence none = true
  bad_sequence (some n) = ltb_ℤ n (pos 0)

  unfoldable pub shape_point_of : Row → Result Error (ShapePoint R)
  shape_point_of row = do
    sequence ← csv_int R row "shape_pt_sequence" true
    latitude ← csv_float R row "shape_pt_lat" true
    longitude ← csv_float R row "shape_pt_lon" true
    distance ← csv_float R row "shape_dist_traveled" false
    raise_if (bad_sequence sequence) (feed_format negative_sequence)
    raise_if (outside (negsuc 89) (pos 90) latitude) (feed_format invalid_latitude)
    raise_if (outside (negsuc 179) (pos 180) longitude) (feed_format invalid_longitude)
    raise_if (bad_distance distance) (feed_format invalid_distance)
    ok (record {
      shape_id = get_or (lookup "shape_id" row) "";
      sequence = sequence;
      latitude = latitude;
      longitude = longitude;
      distance = distance;
    })

  unfoldable pub shape_points_of : List String → List Row → Result Error (List (ShapePoint R))
  unfolding shape_point_of
  shape_points_of shape_ids [] = ok []
  shape_points_of shape_ids (row ∷ rows) =
      let later = shape_points_of shape_ids rows in
      let here = (do point ← shape_point_of row; rest ← later; ok (point ∷ rest)) in
      if contains (get_or (lookup "shape_id" row) "") shape_ids then here else later

  -- `_iter_bus_shape_points`, run to its end: with no shapes the file is not opened.
  unfoldable pub iter_bus_shape_points : Archive → List String → Result Error (List (ShapePoint R))
  unfolding shape_points_of gtfs_rows
  iter_bus_shape_points archive [] = ok []
  iter_bus_shape_points archive (s ∷ shape_ids) = do
    rows ← gtfs_rows R archive "shapes.txt"
    shape_points_of (s ∷ shape_ids) rows
