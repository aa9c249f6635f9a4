-- ===== src/Bus/Static/Select.antt =====
-- `_select_static_feed` of bus_daemon.py.
use mathlib.Core.List.{List, [], ◌∷◌, map}
use Prim.Native.Nat.{Ordering}
use Prim.Native.String.{compare}
use irish_rail_nabber.Prelude.{
  ℕ, String, Bool, true, false, not, ◌&&◌, Option, none, some, string_eq, contains, any_of, is_some,
  length, nat_beq,
}
use irish_rail_nabber.Prelude.Dict.{Dict, lookup, keys}
use irish_rail_nabber.Prelude.Result.{Result, ok, err, ◌>>=◌, ◌>>◌, raise_if}
use irish_rail_nabber.Prelude.Sort.{sort}
use irish_rail_nabber.Python.Runtime.{Runtime}
use irish_rail_nabber.Bus.Error.{
  Error, feed_format, no_agencies, agency_id_required, no_routes, missing_agencies, no_trips,
  no_stop_times, missing_shapes, missing_stops, key_error,
}
use irish_rail_nabber.Bus.Static.Csv.{Archive, gtfs_rows}
use irish_rail_nabber.Bus.Static.Tables.{
  RawAgency, Agency, Route, Trip, Stop, ShapePoint, Routes, read_agencies, index_agencies,
  read_routes,
}
use irish_rail_nabber.Bus.Static.Trips.{
  Trips, Usage, read_trips, read_stop_times, iter_bus_shape_points,
}
use irish_rail_nabber.Bus.Static.Stops.{read_stops, close_over_parents, closing_fuel}

pub record StaticFeedSelection (R : Runtime) : Type 0 where
  pub agencies : List Agency
  pub routes : List Route
  pub stops : List (Stop R)
  pub trips : List Trip
  pub trip_ids : List String
  pub shape_ids : List String
  pub stop_time_count : ℕ
  pub shape_point_count : ℕ

-- The order of Python's texts.
abbrev pub text_before : String → String → Bool
text_before a b = elim (compare a b) [ Ordering.lt ↦ true | _ ↦ false ]

abbrev pub route_before : Route → Route → Bool
route_before a b = text_before a.route_id b.route_id

abbrev pub trip_before : Trip → Trip → Bool
trip_before a b = text_before a.trip_id b.trip_id

-- `not text_ids <= known_ids`: some identifier is missing.
abbrev pub has_missing : List String → List String → Bool
has_missing ids known = any_of (λ k. not (contains k known)) ids

abbrev pub key_or_error {ℓ} : {A : Type ℓ} → Option A → Result Error A
key_or_error none = err key_error
key_or_error (some a) = ok a

-- `[table[key] for key in ids]`
unfoldable pub pick_all {ℓ} : {A : Type ℓ} → List String → Dict String A → Result Error (List A)
pick_all [] table = ok []
pick_all (k ∷ ks) table = do
  a ← key_or_error (lookup k table)
  rest ← pick_all ks table
  ok (a ∷ rest)

abbrev pub lacks_id : RawAgency → Bool
lacks_id a = not (is_some a.agency_id)

abbrev pub is_nil {ℓ} : {A : Type ℓ} → List A → Bool
is_nil [] = true
is_nil (x ∷ xs) = false

-- The only key of a dictionary that has one.
abbrev pub sole_key {ℓ} : {A : Type ℓ} → Dict String A → Option String
sole_key [] = none
sole_key (e ∷ []) = some e.0
sole_key (e ∷ f ∷ d) = none

module _ (R : Runtime) where
  -- Down to `all_agencies`.
  unfoldable pub select_agencies : Archive → Result Error (Dict String Agency)
  select_agencies archive = do
    rows ← gtfs_rows R archive "agency.txt"
    raw_agencies ← read_agencies R rows
    raise_if (is_nil raw_agencies) (feed_format no_agencies)
    raise_if (any_of lacks_id raw_agencies && not (nat_beq (length raw_agencies) 1))
        (feed_format agency_id_required)
    index_agencies raw_agencies []

  abbrev no_routes_yet : Routes
  no_routes_yet = record { routes = []; route_ids = []; agency_ids = [] }

  -- Down to the check that every agency of a bus route is there.
  unfoldable pub select_routes : Archive → Dict String Agency → Result Error Routes
  select_routes archive all_agencies = do
    rows ← gtfs_rows R archive "routes.txt"
    s ← read_routes R (sole_key all_agencies) rows no_routes_yet
    raise_if (is_nil s.routes) (feed_format no_routes)
    raise_if (has_missing s.agency_ids (keys all_agencies)) (feed_format missing_agencies)
    ok s

  abbrev no_trips_yet : Trips
  no_trips_yet = record { trips = []; trip_ids = []; shape_ids = [] }

  unfoldable pub select_trips : Archive → List String → Result Error Trips
  select_trips archive route_ids = do
    rows ← gtfs_rows R archive "trips.txt"
    s ← read_trips R route_ids rows no_trips_yet
    raise_if (is_nil s.trips) (feed_format no_trips)
    ok s

  abbrev nothing_used : Usage
  nothing_used = record { used_stop_ids = []; stop_time_count = 0 }

  unfoldable pub select_usage : Archive → List String → Result Error Usage
  select_usage archive trip_ids = do
    rows ← gtfs_rows R archive "stop_times.txt"
    s ← read_stop_times R trip_ids rows nothing_used
    raise_if (nat_beq s.stop_time_count 0) (feed_format no_stop_times)
    ok s

  abbrev pub shape_id_of : ShapePoint R → String
  shape_id_of point = point.shape_id

  -- The number of shape points; every shape of a trip has one.
  unfoldable pub select_shapes : Archive → List String → Result Error ℕ
  select_shapes archive shape_ids = do
    points ← iter_bus_shape_points R archive shape_ids
    raise_if (has_missing shape_ids (map shape_id_of points)) (feed_format missing_shapes)
    ok (length points)

  -- The stops in use, their parents, and the parents of these.
  unfoldable pub select_stops : Archive → List String → Result Error (List (Stop R))
  select_stops archive used_stop_ids = do
    rows ← gtfs_rows R archive "stops.txt"
    all_stops ← read_stops R rows []
    raise_if (has_missing used_stop_ids (keys all_stops)) (feed_format missing_stops)
    selected_stop_ids ←
        close_over_parents R (closing_fuel R all_stops used_stop_ids) all_stops used_stop_ids
          used_stop_ids
    pick_all (sort text_before selected_stop_ids) all_stops

  -- From trips.txt to the end.
  unfoldable pub select_rest : Archive → List Agency → Routes → Result Error (StaticFeedSelection R)
  select_rest archive agencies r = do
    t ← select_trips archive r.route_ids
    u ← select_usage archive t.trip_ids
    shape_point_count ← select_shapes archive t.shape_ids
    stops ← select_stops archive u.used_stop_ids
    ok (record {
      agencies = agencies;
      routes = sort route_before r.routes;
      stops = stops;
      trips = sort trip_before t.trips;
      trip_ids = t.trip_ids;
      shape_ids = t.shape_ids;
      stop_time_count = u.stop_time_count;
      shape_point_count = shape_point_count;
    })

  -- `_select_static_feed`
  unfoldable pub select_static_feed : Archive → Result Error (StaticFeedSelection R)
  select_static_feed archive = do
    all_agencies ← select_agencies archive
    r ← select_routes archive all_agencies
    agencies ← pick_all (sort text_before r.agency_ids) all_agencies
    select_rest archive agencies r
