-- ===== src/Tests/Static.antt =====
-- The selection of the static feed.
use mathlib.Core.List.{List, [], ◌∷◌}
use irish_rail_nabber.Prelude.{
  ℕ, String, ◌≡◌, refl, Bool, true, false, Option, none, some, contains, string_eq, arith,
}
use irish_rail_nabber.Prelude.Dict.{Dict, has_key}
use irish_rail_nabber.Prelude.Result.{ok, err, OnOk}
use irish_rail_nabber.Python.Runtime.{Runtime}
use irish_rail_nabber.Bus.Static.Csv.{Archive, RawRow}
use irish_rail_nabber.Bus.Static.Tables.{Stop}
use irish_rail_nabber.Bus.Static.Stops.{close_over_parents, closing_fuel}
use irish_rail_nabber.Bus.Static.Stops.Closure.{
  IsClosed, IsOrphaned, OnErr, close_over_parents-IsClosed,
}
use irish_rail_nabber.Bus.Static.Select.{StaticFeedSelection, select_static_feed}
use irish_rail_nabber.Bus.Static.Complete.{IsComplete, select_static_feed-IsComplete}
use irish_rail_nabber.Bus.Import.{StaticTables, import_static_feed}
use irish_rail_nabber.Bus.Import.Active.{IsActivated, import_static_feed-IsActivated}
use irish_rail_nabber.Tests.Ascii.{ascii}

abbrev pub R : Runtime
R = ascii none

abbrev cells : List String → List String → RawRow
cells (k ∷ ks) (v ∷ vs) = (some k, some v) ∷ cells ks vs
cells _ _ = []

abbrev rows : List String → List (List String) → List RawRow
rows header [] = []
rows header (r ∷ rs) = cells header r ∷ rows header rs

-- One bus route of two stops, the second inside a station, and a tram.
abbrev pub archive : Archive
archive =
    ("agency.txt", some (rows ("agency_name" ∷ []) (("Bus" ∷ []) ∷ [])))
    ∷ (
      "feed/routes.txt",
      some (rows ("route_id" ∷ "route_type" ∷ []) (("r1" ∷ "3" ∷ []) ∷ ("r2" ∷ "0" ∷ []) ∷ [])),
    )
    ∷ (
      "trips.txt",
      some (
          rows ("trip_id" ∷ "route_id" ∷ "service_id" ∷ "shape_id" ∷ [])
            (("t1" ∷ "r1" ∷ "d" ∷ "h" ∷ []) ∷ ("t2" ∷ "r2" ∷ "d" ∷ "g" ∷ []) ∷ [])),
    )
    ∷ (
      "stop_times.txt",
      some (
          rows ("trip_id" ∷ "stop_id" ∷ "stop_sequence" ∷ "arrival_time" ∷ [])
            (("t1" ∷ "a" ∷ "1" ∷ "24:10:00" ∷ []) ∷ ("t1" ∷ "b" ∷ "2" ∷ "" ∷ []) ∷ [])),
    )
    ∷ (
      "shapes.txt",
      some (
          rows ("shape_id" ∷ "shape_pt_lat" ∷ "shape_pt_lon" ∷ "shape_pt_sequence" ∷ [])
            (("h" ∷ "53" ∷ "-6" ∷ "1" ∷ []) ∷ [])),
    )
    ∷ (
      "stops.txt",
      some (
          rows ("stop_id" ∷ "parent_station" ∷ [])
            (("b" ∷ "p" ∷ []) ∷ ("p" ∷ "" ∷ []) ∷ ("a" ∷ "" ∷ []) ∷ ("z" ∷ "" ∷ []) ∷ [])),
    )
    ∷ []

abbrev selection : StaticFeedSelection R
selection = elim (select_static_feed R archive) [
  | ok sel ↦ sel
  | err e ↦ record {
    agencies = [];
    routes = [];
    stops = [];
    trips = [];
    trip_ids = [];
    shape_ids = [];
    stop_time_count = 0;
    shape_point_count = 0;
  }
]

archive-selected : select_static_feed R archive ≡ ok selection
unfolding irish_rail_nabber.Bus.Static.Select.select_static_feed
    irish_rail_nabber.Bus.Static.Select.select_agencies irish_rail_nabber.Bus.Static.Csv.gtfs_rows
    irish_rail_nabber.Bus.Static.Tables.read_agencies
    irish_rail_nabber.Bus.Static.Tables.index_agencies
    irish_rail_nabber.Bus.Static.Select.select_routes
    irish_rail_nabber.Bus.Static.Tables.read_routes irish_rail_nabber.Bus.Static.Csv.csv_int
    irish_rail_nabber.Bus.Static.Tables.is_bus_route_type
    irish_rail_nabber.Bus.Static.Select.pick_all irish_rail_nabber.Bus.Static.Select.select_rest
    irish_rail_nabber.Bus.Static.Select.select_trips irish_rail_nabber.Bus.Static.Trips.read_trips
    irish_rail_nabber.Bus.Static.Select.select_usage
    irish_rail_nabber.Bus.Static.Trips.read_stop_times
    irish_rail_nabber.Bus.Static.Select.select_shapes irish_rail_nabber.Bus.Static.Csv.clean_csv_row
    irish_rail_nabber.Bus.Static.Csv.clean_csv_row_from irish_rail_nabber.Bus.Static.Csv.csv_float
    irish_rail_nabber.Bus.Static.Csv.find_zip_member
    irish_rail_nabber.Bus.Static.Csv.matching_members
    irish_rail_nabber.Bus.Static.Csv.required_field irish_rail_nabber.Bus.Static.Select.select_stops
    irish_rail_nabber.Bus.Static.Stops.read_stops irish_rail_nabber.Bus.Static.Stops.stop_of
    irish_rail_nabber.Bus.Static.Tables.add_route irish_rail_nabber.Bus.Static.Tables.read_route
    irish_rail_nabber.Bus.Static.Trips.add_trip irish_rail_nabber.Bus.Static.Trips.check_stop_time
    irish_rail_nabber.Bus.Static.Trips.iter_bus_shape_points
    irish_rail_nabber.Bus.Static.Trips.read_trip irish_rail_nabber.Bus.Static.Trips.shape_point_of
    irish_rail_nabber.Bus.Static.Trips.shape_points_of irish_rail_nabber.Bus.Static.Trips.use_stop
    irish_rail_nabber.Bus.Static.Stops.close_over_parents irish_rail_nabber.Bus.Time.parse_gtfs_time
    irish_rail_nabber.Bus.Time.clock_seconds irish_rail_nabber.Bus.Time.is_digits
    irish_rail_nabber.Bus.Time.parse_parts irish_rail_nabber.Prelude.Sort.sort
    irish_rail_nabber.Prelude.Sort.insert_sorted irish_rail_nabber.Python.Text.int_body
    irish_rail_nabber.Python.Text.int_digits irish_rail_nabber.Python.Text.int_of_text
    irish_rail_nabber.Python.Text.is_space irish_rail_nabber.Python.Text.lstrip
    irish_rail_nabber.Python.Text.rstrip irish_rail_nabber.Python.Text.split_on
    irish_rail_nabber.Python.Text.strip
archive-selected = refl

select_static_feed-IsComplete_example : IsComplete R archive selection
select_static_feed-IsComplete_example =
    select_static_feed-IsComplete R archive selection archive-selected

abbrev stop : String → Option String → String × Stop R
stop id parent = (
  id,
  record {
    stop_id = id;
    stop_code = none;
    stop_name = none;
    stop_lat = none;
    stop_lon = none;
    parent_station = parent;
  },
)

abbrev all_stops : Dict String (Stop R)
all_stops = stop "b" (some "p") ∷ stop "p" none ∷ []

abbrev used : List String
used = "b" ∷ []

used-known : (k : String) → contains k used ≡ true → has_key k all_stops ≡ true
used-known k h = ground arith

close_over_parents-IsClosed_example :
    let result = close_over_parents R (closing_fuel R all_stops used) all_stops used used in
    OnOk (IsClosed R all_stops used) result × OnErr (IsOrphaned R all_stops) result
close_over_parents-IsClosed_example = close_over_parents-IsClosed R all_stops used used-known

abbrev pub no_tables : StaticTables R
no_tables = record {
  catalogue = record { versions = []; stop_times = []; shape_points = [] };
  agencies = [];
  routes = [];
  stops = [];
  trips = [];
  next_id = 1;
}

import_static_feed-IsActivated_example :
    OnOk (IsActivated R) (import_static_feed R archive "digest" 7 no_tables)
import_static_feed-IsActivated_example =
    import_static_feed-IsActivated R archive "digest" 7 no_tables
