-- ===== src/Bus/Static/Tables.antt =====
-- The rows that the static import writes, and the loops of `_select_static_feed` over agency.txt and
-- routes.txt (bus_daemon.py).
pub mod Kept
use mathlib.Core.List.{List, [], ◌∷◌, ◌++◌}
use irish_rail_nabber.Prelude.{
  ℕ, suc, ◌+◌, String, Bool, true, false, not, ◌&&◌, ◌||◌, Option, none, some, if◌then◌else◌,
  or_else, get_or, string_eq, ◌==◌, contains, add, nat_beq, leb, is_some,
}
use irish_rail_nabber.Prelude.Dict.{Dict, lookup, insert, has_key}
use irish_rail_nabber.Prelude.Int.{ℤ, pos, negsuc, ltb_ℤ}
use irish_rail_nabber.Prelude.Result.{Result, ok, err, ◌>>=◌, ◌>>◌, raise_if}
use irish_rail_nabber.Python.Runtime.{Runtime}
use irish_rail_nabber.Bus.Error.{
  Error, feed_format, no_route_agency, repeated_agency, invalid_time, invalid_coordinates,
  negative_sequence, invalid_latitude, invalid_longitude, invalid_distance, invalid_integer,
}
use irish_rail_nabber.Bus.Time.{parse_gtfs_time}
use irish_rail_nabber.Bus.Static.Csv.{
  Row, Archive, optional_field, gtfs_rows, required_field, csv_int, csv_float,
}

-- The rows that go to the database.
pub record RawAgency : Type 0 where
  pub agency_id : Option String
  pub agency_name : String
  pub agency_url : Option String
  pub agency_timezone : Option String

pub record Agency : Type 0 where
  pub agency_id : String
  pub agency_name : String
  pub agency_url : Option String
  pub agency_timezone : Option String

pub record Route : Type 0 where
  pub route_id : String
  pub agency_id : String
  pub route_short_name : Option String
  pub route_long_name : Option String
  pub route_type : ℤ
  pub route_color : Option String
  pub route_text_color : Option String

pub record Trip : Type 0 where
  pub trip_id : String
  pub route_id : String
  pub service_id : String
  pub trip_headsign : Option String
  pub direction_id : Option ℤ
  pub shape_id : Option String

pub record Stop (R : Runtime) : Type 0 where
  pub stop_id : String
  pub stop_code : Option String
  pub stop_name : Option String
  pub stop_lat : Option R.Float
  pub stop_lon : Option R.Float
  pub parent_station : Option String

pub record StopTime : Type 0 where
  pub trip_id : String
  pub stop_sequence : Option ℤ
  pub stop_id : String
  pub arrival_seconds : Option ℕ
  pub departure_seconds : Option ℕ

pub record ShapePoint (R : Runtime) : Type 0 where
  pub shape_id : String
  pub sequence : Option ℤ
  pub latitude : Option R.Float
  pub longitude : Option R.Float
  pub distance : Option R.Float

-- `BUS_ROUTE_TYPES`
unfoldable pub is_bus_route_type : Option ℤ → Bool
is_bus_route_type (some (pos n)) =
    nat_beq n 3
    || nat_beq n 11
    || nat_beq n 800
    || (leb 200 n && leb n 209)
    || (leb 700 n && leb n 716)
is_bus_route_type _ = false

abbrev pub default_agency_id : String
default_agency_id = "__default_agency__"

module _ (R : Runtime) where
  unfoldable pub read_agencies : List Row → Result Error (List RawAgency)
  unfolding required_field
  read_agencies [] = ok []
  read_agencies (row ∷ rows) = do
    name ← required_field R row "agency_name"
    rest ← read_agencies rows
    ok (
        record {
          agency_id = optional_field "agency_id" row;
          agency_name = name;
          agency_url = optional_field "agency_url" row;
          agency_timezone = optional_field "agency_timezone" row;
        }
        ∷ rest)

-- `all_agencies`: no identifier may come twice.
unfoldable pub index_agencies :
    List RawAgency → Dict String Agency → Result Error (Dict String Agency)
index_agencies [] d = ok d
index_agencies (a ∷ rest) d =
    let normalized_id = get_or a.agency_id default_agency_id in
    let next = index_agencies rest (
      insert normalized_id
        (record {
          agency_id = normalized_id;
          agency_name = a.agency_name;
          agency_url = a.agency_url;
          agency_timezone = a.agency_timezone;
        })
        d) in
    if has_key normalized_id d then err (feed_format repeated_agency) else next

-- The variables of the loop over routes.txt.
pub record Routes : Type 0 where
  pub routes : List Route
  pub route_ids : List String
  pub agency_ids : List String

abbrev require_agency : Option String → Result Error String
require_agency none = err (feed_format no_route_agency)
require_agency (some a) = ok a

abbrev int_value : Option ℤ → ℤ
int_value o = get_or o (pos 0)

module _ (R : Runtime) where
  -- One bus route. `sole` is the identifier of the only agency, if there is one.
  unfoldable pub add_route : Option String → Option ℤ → Row → Routes → Result Error Routes
  add_route sole route_type row s = do
    route_id ← required_field R row "route_id"
    agency_id ← require_agency (or_else (optional_field "agency_id" row) sole)
    ok (record {
      agency_ids = add agency_id s.agency_ids;
      route_ids = add route_id s.route_ids;
      routes =
          s.routes
          ++ record {
            route_id = route_id;
            agency_id = agency_id;
            route_short_name = optional_field "route_short_name" row;
            route_long_name = optional_field "route_long_name" row;
            route_type = int_value route_type;
            route_color = optional_field "route_color" row;
            route_text_color = optional_field "route_text_color" row;
          }
            ∷ [];
    })

  -- Routes of another type are passed over.
  unfoldable pub read_route : Option String → Row → Routes → Result Error Routes
  unfolding add_route
  read_route sole row s = do
    route_type ← csv_int R row "route_type" true
    if is_bus_route_type route_type then add_route sole route_type row s else ok s

  unfoldable pub read_routes : Option String → List Row → Routes → Result Error Routes
  unfolding read_route
  read_routes sole [] s = ok s
  read_routes sole (row ∷ rows) s = read_route sole row s >>= read_routes sole rows
