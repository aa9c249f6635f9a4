-- ===== src/Rail/Events/Boards.antt =====
-- `fetch_all_station_boards` of daemon.py.
pub mod Quiet
use mathlib.Core.List.{List, [], ◌∷◌}
use irish_rail_nabber.Prelude.{
  ℕ, zero, suc, ◌+◌, String, Option, none, some, if◌then◌else◌, string_eq,
}
use irish_rail_nabber.Prelude.Dict.{Dict, lookup, insert}
use irish_rail_nabber.Python.Text.{is_empty}
use irish_rail_nabber.Python.Runtime.{Runtime}
use irish_rail_nabber.Rail.Fields.{text, without_timestamps, stable_hash}
use irish_rail_nabber.Rail.Movements.{is_same}
use irish_rail_nabber.Rail.Writes.{Connection, Store}
use irish_rail_nabber.Rail.Events.{StationEvent, insert_station_events}

-- `prev_boards_hashes`, `station_codes` and the events.
pub record BoardState : Type 0 where
  pub boards_hashes : Dict String String
  pub station_codes : List String
  pub events : Store StationEvent

-- How a cycle ends: no station is known, or the count of records and whether a board changed.
pub data BoardResult : Type 0 where
  no_stations : BoardResult
  success : ℕ → BoardResult
  skipped : ℕ → BoardResult

-- What the loop has counted.
pub record BoardLoop : Type 0 where
  pub changed_count : ℕ
  pub total_records : ℕ
  pub state : BoardState

module _ (R : Runtime) where
  unfoldable pub board_hash : String → String
  unfolding stable_hash without_timestamps
  board_hash xml = stable_hash R (text (without_timestamps xml) ∷ [])

  abbrev insert_board : Connection StationEvent → String → String → BoardLoop → BoardLoop
  insert_board connection station_code xml l =
      let result = insert_station_events R connection station_code xml l.state.events in
      record {
        changed_count = suc l.changed_count;
        total_records = l.total_records + result.0;
        state = record {
          boards_hashes = insert station_code (board_hash xml) l.state.boards_hashes;
          station_codes = l.state.station_codes;
          events = result.1;
        };
      }

  -- One result of `gather`: the response of a station, none where the request failed or raised.
  unfoldable pub process_board :
      Connection StationEvent → String → Option String → BoardLoop → BoardLoop
  unfolding board_hash insert_station_events
  process_board connection station_code none l = l
  process_board connection station_code (some xml) l =
      if is_empty xml
      then l
      else if is_same (lookup station_code l.state.boards_hashes) (board_hash xml)
      then l
      else insert_board connection station_code xml l

  unfoldable pub process_boards :
      (String → Connection StationEvent)
      → (String → Option String)
      → List String
      → BoardLoop
      → BoardLoop
  unfolding process_board
  process_boards connect fetch [] l = l
  process_boards connect fetch (station_code ∷ codes) l =
      process_boards connect fetch codes
        (process_board (connect station_code) station_code (fetch station_code) l)

  abbrev pub result_of : ℕ → ℕ → BoardResult
  result_of zero total_records = skipped total_records
  result_of (suc n) total_records = success total_records

  -- The codes in memory, or those that the database has.
  abbrev pub codes_of : List String → List String → List String
  codes_of [] stations = stations
  codes_of (code ∷ codes) stations = code ∷ codes

  abbrev pub load_codes : List String → BoardState → BoardState
  load_codes stations s = record {
    boards_hashes = s.boards_hashes;
    station_codes = codes_of s.station_codes stations;
    events = s.events;
  }

  abbrev pub process_codes :
      (String → Connection StationEvent)
      → (String → Option String)
      → List String
      → BoardState
      → BoardResult × BoardState
  process_codes connect fetch [] s = (no_stations, s)
  process_codes connect fetch (code ∷ codes) s =
      let l =
        process_boards connect fetch (code ∷ codes)
          (record { changed_count = 0; total_records = 0; state = s }) in
      (result_of l.changed_count l.total_records, l.state)

  -- `fetch_all_station_boards`, with the connection that each board gets, the stations of the database
  -- and the responses.
  unfoldable pub fetch_all_station_boards :
      (String → Connection StationEvent)
      → List String
      → (String → Option String)
      → BoardState
      → BoardResult × BoardState
  unfolding process_boards
  fetch_all_station_boards connect stations fetch s =
      let loaded = load_codes stations s in process_codes connect fetch loaded.station_codes loaded
