-- ===== src/Tests/Boards.antt =====
-- Station boards and the structured feed: runs and examples.
use mathlib.Core.List.{List, [], ◌∷◌}
use irish_rail_nabber.Prelude.{
  String, ◌≡◌, refl, not, ◌&&◌, Option, none, some, inl, if◌then◌else◌, select, any_of, string_eq,
}
use irish_rail_nabber.Prelude.Dict.{lookup}
use irish_rail_nabber.Python.Text.{is_space, lstrip, rstrip, strip}
use irish_rail_nabber.Python.Replace.{replace_matches, replace_text}
use irish_rail_nabber.Rail.Fields.{
  Element, parse_xml, extract_text, without_timestamps, match_timestamp,
}
use irish_rail_nabber.Rail.Writes.{Change, Store}
use irish_rail_nabber.Rail.Writes.Backed.{IsStored, last_fingerprint}
use irish_rail_nabber.Rail.Writes.Sent.{is_changed, is_refused, prepend_all}
use irish_rail_nabber.Rail.Events.{
  StationEvent, event_key, parse_event, parse_events, board_changes, insert_station_events,
}
use irish_rail_nabber.Rail.Events.Stored.{
  insert_station_events-table, insert_station_events-IsStored, insert_station_events-lost,
}
use irish_rail_nabber.Rail.Events.Boards.{BoardState, fetch_all_station_boards}
use irish_rail_nabber.Rail.Events.Boards.Quiet.{same, quiet_result, fetch_all_station_boards-quiet}
use irish_rail_nabber.Rail.Hacon.{Hacon, failed, skipped, HaconState, fetch_hacon}
use irish_rail_nabber.Rail.Hacon.Stored.{fetch_hacon-lost, fetch_hacon-IsStored}
use irish_rail_nabber.Tests.Feed.{R, board, train, train, willing, broken}

abbrev empty : {A : Type 0} → Store A
empty = record { hashes = []; table = [] }

-- The changes of the board, by their text.
abbrev change_of : Option (Change StationEvent) → List (Change StationEvent)
change_of none = []
change_of (some c) = c ∷ []

abbrev changes : List (Change StationEvent)
changes = parse_events R "CORK" (board "A1" "late" ∷ board "" "" ∷ board "A2" "early" ∷ [])

boards_parsed : board_changes R "CORK" "boards" ≡ some changes
unfolding board_changes parse_xml replace_text replace_matches
boards_parsed = refl

insert_station_events-table_example :
    (insert_station_events R willing "CORK" "boards" empty).1.table ≡ (
      if (willing {A = StationEvent}).commits
        && not (any_of (is_refused willing) (select (is_changed []) changes))
      then prepend_all (select (is_changed []) changes) []
      else [])
unfolding parse_events parse_event extract_text strip lstrip rstrip is_space event_key
insert_station_events-table_example =
    insert_station_events-table R willing "CORK" "boards" changes empty boards_parsed refl
      (refl, (refl, tt))

insert_station_events-IsStored_example :
    let s' = (insert_station_events R willing "CORK" "boards" empty).1 in
    IsStored s' × ((k : String) → lookup k s'.hashes ≡ last_fingerprint k changes none)
insert_station_events-IsStored_example =
    insert_station_events-IsStored R willing "CORK" "boards" changes empty boards_parsed (λ e. refl)
      refl refl (λ k. tt)

-- The commit fails, and the same response comes again.
insert_station_events-lost_example :
    let s' = (insert_station_events R broken "CORK" "boards" empty).1 in
    (s'.table ≡ []) × ((insert_station_events R willing "CORK" "boards" s').1 ≡ s')
unfolding parse_events parse_event extract_text strip lstrip rstrip is_space event_key
insert_station_events-lost_example =
    insert_station_events-lost R broken willing "CORK" "boards" changes empty boards_parsed refl
      (refl, (refl, tt)) (inl refl)

abbrev no_boards : BoardState
no_boards = record { boards_hashes = []; station_codes = []; events = empty }

timestamps : without_timestamps "boards<Servertime>9</Servertime>" ≡ without_timestamps "boards"
unfolding without_timestamps match_timestamp replace_matches
timestamps = refl

fetch_all_station_boards-quiet_example :
    let s' =
      (fetch_all_station_boards R
        (λ code. broken)
        ("CORK" ∷ "KENT" ∷ [])
        (λ code. some "boards")
        no_boards).1 in
    fetch_all_station_boards R
      (λ code. willing)
      ("CORK" ∷ "KENT" ∷ [])
      (λ code. some "boards<Servertime>9</Servertime>")
      s'
    ≡ (quiet_result ("CORK" ∷ "KENT" ∷ []), s')
fetch_all_station_boards-quiet_example =
    fetch_all_station_boards-quiet R (λ code. broken) (λ code. willing) ("CORK" ∷ "KENT" ∷ [])
      (λ code. some "boards") (λ code. some "boards<Servertime>9</Servertime>") no_boards
      (λ code. same "boards" "boards<Servertime>9</Servertime>" refl timestamps) (refl, (refl, tt))

abbrev no_hacon : HaconState (Hacon R)
no_hacon = record { prev_hacon_hash = none; trains = empty }

abbrev trains : List Element
trains = train "A1" "1 May" "52" ∷ train "A2" "1 May" "53" ∷ []

trains_parsed : parse_xml R "trains" ≡ some trains
unfolding parse_xml replace_text replace_matches
trains_parsed = refl

fetch_hacon-lost_example :
    let result = fetch_hacon R broken (some "trains") no_hacon in
    (result.0 ≡ failed)
    × (result.1.trains.table ≡ [])
    × (fetch_hacon R willing (some "trains") result.1 ≡ (skipped, result.1))
fetch_hacon-lost_example =
    fetch_hacon-lost R broken willing "trains" trains no_hacon refl trains_parsed refl refl

fetch_hacon-IsStored_example : IsStored (fetch_hacon R willing (some "trains") no_hacon).1.trains
fetch_hacon-IsStored_example =
    fetch_hacon-IsStored R willing (some "trains") no_hacon (λ train. refl) refl refl (λ k. tt)
