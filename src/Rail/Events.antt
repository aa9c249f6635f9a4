-- ===== src/Rail/Events.antt =====
-- `_insert_station_events` and `fetch_all_station_boards` of daemon.py.
pub mod Boards
pub mod Stored
use mathlib.Core.List.{List, [], ◌∷◌}
use Prim.Native.String.{◌++◌}
use irish_rail_nabber.Prelude.{ℕ, String, Option, none, some, if◌then◌else◌}
use irish_rail_nabber.Prelude.Int.{ℤ}
use irish_rail_nabber.Python.Text.{is_empty, strip}
use irish_rail_nabber.Python.Runtime.{Runtime}
use irish_rail_nabber.Rail.Fields.{
  Element, text_of, some_text, to_time_or_none, to_int_or_none, Value, text, text_value,
  number_value, parse_xml, stable_hash,
}
use irish_rail_nabber.Rail.Late.{normalize_late_minutes}
use irish_rail_nabber.Rail.Writes.{Connection, Change, Store, write_changes}

-- A row of `station_events`.
pub record StationEvent : Type 0 where
  pub train_code : String
  pub station_code : String
  pub train_date : Option String
  pub origin : String
  pub destination : String
  pub train_type : String
  pub direction : String
  pub status : String
  pub scheduled_arrival : Option String
  pub scheduled_departure : Option String
  pub expected_arrival : Option String
  pub expected_departure : Option String
  pub late_minutes : Option ℤ
  pub last_location : String
  pub due_in : Option ℤ
  pub location_type : Option String
  pub origin_time : Option String
  pub destination_time : Option String
  pub query_time : Option String

module _ (R : Runtime) where
  abbrev late_minutes_of : Element → Option ℤ
  late_minutes_of board =
      normalize_late_minutes R (to_int_or_none R (text_of board "Late"))
        (to_time_or_none (text_of board "Scharrival")) (to_time_or_none (text_of board "Schdepart"))
        (to_time_or_none (text_of board "Exparrival")) (to_time_or_none (text_of board "Expdepart"))

  abbrev event_row : String → Element → StationEvent
  event_row station_code board = record {
    train_code = strip (text_of board "Traincode");
    station_code = station_code;
    train_date = some_text (text_of board "Traindate");
    origin = text_of board "Origin";
    destination = text_of board "Destination";
    train_type = text_of board "Traintype";
    direction = text_of board "Direction";
    status = text_of board "Status";
    scheduled_arrival = to_time_or_none (text_of board "Scharrival");
    scheduled_departure = to_time_or_none (text_of board "Schdepart");
    expected_arrival = to_time_or_none (text_of board "Exparrival");
    expected_departure = to_time_or_none (text_of board "Expdepart");
    late_minutes = late_minutes_of board;
    last_location = text_of board "Lastlocation";
    due_in = to_int_or_none R (text_of board "Duein");
    location_type = some_text (text_of board "Locationtype");
    origin_time = to_time_or_none (text_of board "Origintime");
    destination_time = to_time_or_none (text_of board "Destinationtime");
    query_time = to_time_or_none (text_of board "Querytime");
  }

  -- The values that count as a change.
  abbrev pub event_values : StationEvent → List Value
  event_values e =
      text e.status
      ∷ number_value e.late_minutes
      ∷ text e.last_location
      ∷ text_value e.expected_arrival
      ∷ text_value e.expected_departure
      ∷ []

  unfoldable pub event_key : String → Element → String
  unfolding strip
  event_key station_code board =
      strip (text_of board "Traincode") ++ ":" ++ station_code ++ ":" ++ text_of board "Traindate"

  -- An element of a board; `none` where it names no train.
  unfoldable pub parse_event : String → Element → Option (Change StationEvent)
  unfolding event_key stable_hash normalize_late_minutes to_int_or_none
  parse_event station_code board =
      if is_empty (text_of board "Traincode")
      then none
      else some (record {
        cache_key = event_key station_code board;
        fingerprint = stable_hash R (event_values (event_row station_code board));
        row = event_row station_code board;
      })

  abbrev keep_change :
      Option (Change StationEvent) → List (Change StationEvent) → List (Change StationEvent)
  keep_change none cs = cs
  keep_change (some c) cs = c ∷ cs

  unfoldable pub parse_events : String → List Element → List (Change StationEvent)
  unfolding parse_event
  parse_events station_code [] = []
  parse_events station_code (board ∷ boards) =
      keep_change (parse_event station_code board) (parse_events station_code boards)

  -- The changes of a response, none where it is no XML.
  abbrev changes_of : String → Option (List Element) → Option (List (Change StationEvent))
  changes_of station_code none = none
  changes_of station_code (some es) = some (parse_events station_code es)

  unfoldable pub board_changes : String → String → Option (List (Change StationEvent))
  unfolding parse_events parse_xml
  board_changes station_code xml =
      if is_empty xml then none else changes_of station_code (parse_xml R xml)

  abbrev count_of : Option ℕ → ℕ
  count_of none = 0
  count_of (some n) = n

  abbrev pub store_changes :
      Connection StationEvent
      → Option (List (Change StationEvent))
      → Store StationEvent
      → ℕ × Store StationEvent
  store_changes connection none s = (0, s)
  store_changes connection (some cs) s =
      let result = write_changes connection cs s in (count_of result.0, result.1)

  -- `_insert_station_events`
  unfoldable pub insert_station_events :
      Connection StationEvent → String → String → Store StationEvent → ℕ × Store StationEvent
  unfolding board_changes write_changes
  insert_station_events connection station_code xml s =
      store_changes connection (board_changes station_code xml) s
