-- ===== src/Rail/Stations.antt =====
-- `fetch_stations` and `load_canonical_station_coords` of daemon.py. The rows of `stations` are a
-- dictionary by the station's code; the codes come in its order.
pub mod Places
use mathlib.Core.List.{List, [], ◌∷◌}
use irish_rail_nabber.Prelude.{
  ℕ, zero, suc, String, Bool, true, false, not, ◌&&◌, Option, none, some, if◌then◌else◌, string_eq,
  get_or, or_else,
}
use irish_rail_nabber.Prelude.Dict.{Dict, lookup, insert, keys}
use irish_rail_nabber.Python.Text.{is_empty, strip}
use irish_rail_nabber.Python.Runtime.{Runtime}
use irish_rail_nabber.Rail.Fields.{
  Element, extract_text, text_of, parse_float_or_none, is_valid_irish_coordinate,
  to_irish_coordinate_pair,
}
use irish_rail_nabber.Rail.Movements.{elements_of}
use irish_rail_nabber.Rail.Hacon.{FetchResult, failed, success}
use irish_rail_nabber.Rail.Types.{codes_in, codes_or_none}

-- A row of `stations`; `station_type` and `is_dart` are null until the classification.
pub record Station (F : Type 0) : Type 0 where
  pub station_id : String
  pub station_desc : String
  pub station_alias : String
  pub latitude : Option F
  pub longitude : Option F
  pub station_type : Option String
  pub is_dart : Option Bool

-- A record of the file of canonical stations: the texts of its three fields, "" where one is missing.
pub record CanonicalStation : Type 0 where
  pub code : String
  pub latitude_text : String
  pub longitude_text : String

-- What the database does in the loop, in the classification, and when the codes are read, with its order
-- of the codes.
pub record StationSession (F : Type 0) : Type 0 where
  pub opens : Bool
  pub accepts : String → Station F → Bool
  pub commits : Bool
  pub classifies : Bool
  pub reads : Bool
  pub order_codes : List String → List String

pub record StationState (F : Type 0) : Type 0 where
  pub stations : Dict String (Station F)
  pub station_codes : List String

-- The transaction: whether it is aborted, and the rows as it sees them.
pub record StationTransaction (F : Type 0) : Type 0 where
  pub is_aborted : Bool
  pub rows : Dict String (Station F)
  pub count : ℕ

module _ (R : Runtime) where
  abbrev pub Coordinates : Type 0
  Coordinates = Dict String (Option R.Float × Option R.Float)

  -- `load_canonical_station_coords`, with the records of the file.
  unfoldable pub load_canonical_station_coords : List CanonicalStation → Coordinates → Coordinates
  unfolding parse_float_or_none is_valid_irish_coordinate strip
  load_canonical_station_coords [] coords = coords
  load_canonical_station_coords (s ∷ stations) coords =
      let code = R.upper (strip s.code) in
      let lat = parse_float_or_none R s.latitude_text in
      let lon = parse_float_or_none R s.longitude_text in
      load_canonical_station_coords stations (
        if not (is_empty code) && is_valid_irish_coordinate R lat lon
        then insert code (lat, lon) coords
        else coords)

  -- The coordinates of a station: those of the API, or else the canonical ones, where both are missing.
  abbrev pub coordinates_or :
      Option R.Float × Option R.Float
      → Option (Option R.Float × Option R.Float)
      → Option R.Float × Option R.Float
  coordinates_or (some lat, some lon) fallback = (some lat, some lon)
  coordinates_or (none, lon) fallback = get_or fallback (none, lon)
  coordinates_or (some lat, none) fallback = get_or fallback (some lat, none)

  unfoldable pub station_coordinates :
      Coordinates → String → Element → Option R.Float × Option R.Float
  unfolding to_irish_coordinate_pair
  station_coordinates canonical code station =
      coordinates_or
        (to_irish_coordinate_pair R (extract_text (some station) "StationLatitude" "0")
          (extract_text (some station) "StationLongitude" "0"))
        (lookup code canonical)

  abbrev old_type : Option (Station R.Float) → Option String
  old_type none = none
  old_type (some s) = s.station_type

  abbrev old_is_dart : Option (Station R.Float) → Option Bool
  old_is_dart none = none
  old_is_dart (some s) = s.is_dart

  -- The row that the upsert leaves, over the one before.
  abbrev pub station_row :
      Coordinates → String → Element → Option (Station R.Float) → Station R.Float
  station_row canonical code station old = record {
    station_id = text_of station "StationId";
    station_desc = text_of station "StationDesc";
    station_alias = text_of station "StationAlias";
    latitude = (station_coordinates canonical code station).0;
    longitude = (station_coordinates canonical code station).1;
    station_type = old_type old;
    is_dart = old_is_dart old;
  }

  module _ (session : StationSession R.Float) (canonical : Coordinates) where
    abbrev upsert :
        String → Station R.Float → StationTransaction R.Float → StationTransaction R.Float
    upsert code row t =
        if t.is_aborted
        then t
        else if session.accepts code row
        then record { is_aborted = false; rows = insert code row t.rows; count = suc t.count }
        else record { is_aborted = true; rows = t.rows; count = t.count }

    -- One round of the loop.
    unfoldable pub insert_station :
        Element → StationTransaction R.Float → StationTransaction R.Float
    unfolding station_coordinates strip
    insert_station station t =
        if is_empty (text_of station "StationCode")
        then t
        else let code = R.upper (strip (text_of station "StationCode")) in
          upsert code (station_row canonical code station (lookup code t.rows)) t

    unfoldable pub insert_stations :
        List Element → StationTransaction R.Float → StationTransaction R.Float
    unfolding insert_station
    insert_stations [] t = t
    insert_stations (station ∷ stations) t = insert_stations stations (insert_station station t)

  -- `UPDATE stations SET station_type = ..., is_dart = ... WHERE station_code = ...`
  abbrev pub classified : String → Bool → Station R.Float → Station R.Float
  classified kind dart s = record {
    station_id = s.station_id;
    station_desc = s.station_desc;
    station_alias = s.station_alias;
    latitude = s.latitude;
    longitude = s.longitude;
    station_type = some kind;
    is_dart = some dart;
  }

  abbrev pub update_row :
      String
      → Bool
      → String
      → Option (Station R.Float)
      → Dict String (Station R.Float)
      → Dict String (Station R.Float)
  update_row kind dart code none rows = rows
  update_row kind dart code (some s) rows = insert code (classified kind dart s) rows

  unfoldable pub classify :
      String → Bool → List String → Dict String (Station R.Float) → Dict String (Station R.Float)
  classify kind dart [] rows = rows
  classify kind dart (code ∷ codes) rows =
      classify kind dart codes (update_row kind dart code (lookup code rows) rows)

  -- `_fetch_stations_of_type`, with the response.
  unfoldable pub fetch_stations_of_type : Option String → List String
  unfolding codes_in
  fetch_stations_of_type response = codes_or_none "StationCode" (elements_of R response)

  unfoldable pub classify_all :
      Option String
      → Option String
      → Option String
      → Dict String (Station R.Float)
      → Dict String (Station R.Float)
  unfolding classify fetch_stations_of_type
  classify_all dart mainline suburban rows = classify "S" false (fetch_stations_of_type suburban) (
      classify "M" false (fetch_stations_of_type mainline)
        (classify "D" true (fetch_stations_of_type dart) rows))

  module _ (session : StationSession R.Float) (canonical : Coordinates)
      (dart mainline suburban : Option String) where
    abbrev pub inserted : List Element → Dict String (Station R.Float) → StationTransaction R.Float
    inserted es rows =
        insert_stations session canonical es (record { is_aborted = false; rows = rows; count = 0 })

    -- The rows after the commit and the classification, which is one transaction as well.
    unfoldable pub stored_stations :
        List Element → Dict String (Station R.Float) → Dict String (Station R.Float)
    unfolding insert_stations classify_all
    stored_stations es rows =
        let committed = if (inserted es rows).is_aborted then rows else (inserted es rows).rows in
        if session.classifies then classify_all dart mainline suburban committed else committed

    abbrev pub store_stations :
        Option (List Element) → StationState R.Float → FetchResult × StationState R.Float
    store_stations none s = (failed, s)
    store_stations (some es) s =
        let rows = stored_stations es s.stations in
        if session.opens && session.commits
        then if session.reads
          then (
            success (inserted es s.stations).count,
            record { stations = rows; station_codes = session.order_codes (keys rows) },
          )
          else (failed, record { stations = rows; station_codes = s.station_codes })
        else (failed, s)

    -- `fetch_stations`, with the responses.
    unfoldable pub fetch_stations :
        Option String → StationState R.Float → FetchResult × StationState R.Float
    unfolding stored_stations
    fetch_stations response s = store_stations (elements_of R response) s
