-- ===== src/Tests/Trains.antt =====
-- Trains, types, stations and the cleanup: runs and examples.
use mathlib.Core.List.{List, [], ◌∷◌, Permᴰ, map}
use irish_rail_nabber.Prelude.{
  ◌≡◌, refl, true, false, not, none, some, if◌then◌else◌, any_of, select, string_eq, pair_eq,
}
use irish_rail_nabber.Prelude.Dict.{lookup}
use irish_rail_nabber.Prelude.Int.{ℤ, pos, int_eq}
use irish_rail_nabber.Python.Text.{is_space, lstrip, rstrip, strip}
use irish_rail_nabber.Python.Replace.{replace_matches, replace_text}
use irish_rail_nabber.Rail.Fields.{Element, parse_xml, extract_text}
use irish_rail_nabber.Rail.Movements.{elements_of}
use irish_rail_nabber.Rail.Writes.Sent.{is_refused, prepend_all}
use irish_rail_nabber.Rail.Hacon.{skipped}
use irish_rail_nabber.Rail.Types.{TypeState, refresh_type_map}
use irish_rail_nabber.Rail.Types.Precedence.{names_train, type_of, refresh_type_map-lookup}
use irish_rail_nabber.Rail.Trains.{Snapshot, TrainState, fetch_trains}
use irish_rail_nabber.Rail.Trains.Coded.{places, has_code, stored_train}
use irish_rail_nabber.Rail.Trains.Snapshot.{fetch_trains-order, fetch_trains-table}
use irish_rail_nabber.Rail.Cleanup.{Hashes, cleanup_stale_hashes}
use irish_rail_nabber.Rail.Cleanup.Active.{IsCleaned, cleanup_stale_hashes-IsCleaned}
use irish_rail_nabber.Rail.Stations.{
  CanonicalStation, StationSession, StationState, load_canonical_station_coords, fetch_stations,
}
use irish_rail_nabber.Rail.Stations.Places.{HavePlaces, fetch_stations-HavePlaces}
use irish_rail_nabber.Tests.Feed.{R, train, willing, broken}

abbrev trains : List Element
trains = train "A1" "1 May" "52" ∷ train "A2" "1 May" "53" ∷ []

abbrev again : List Element
again = train "A2" "2 May" "53" ∷ train "A1" "1 May" "52" ∷ []

trains_parsed : elements_of R (some "trains") ≡ some trains
unfolding parse_xml replace_text replace_matches
trains_parsed = refl

again_parsed : elements_of R (some "again") ≡ some again
unfolding parse_xml replace_text replace_matches
again_parsed = refl

abbrev no_types : TypeState
no_types = record { type_map = []; type_map_updated = none }

refresh_type_map-lookup_example :
    lookup "A1" (refresh_type_map R 5 (some "trains") none (some "again") no_types).type_map
    ≡ type_of
        (names_train (elements_of R (some "trains")) "A1")
        false
        (names_train (elements_of R (some "again")) "A1")
refresh_type_map-lookup_example =
    refresh_type_map-lookup R 5 (some "trains") none (some "again") no_types "A1" refl

abbrev no_trains : TrainState (Snapshot R)
no_trains = record { prev_trains_hash = none; types = no_types; table = [] }

again_places-Permᴰ : Permᴰ (places again) (places trains)
unfolding extract_text strip lstrip rstrip is_space
again_places-Permᴰ = Permᴰ.swap refl refl

fetch_trains-order_example :
    let s' = (fetch_trains R broken 5 (some "trains") none none (some "trains") no_trains).1 in
    fetch_trains R willing 9 none none none (some "again") s' ≡ (skipped, s')
fetch_trains-order_example =
    fetch_trains-order R broken willing 5 9 (some "trains") none none none none none (some "trains")
      (some "again") trains again no_trains trains_parsed again_parsed again_places-Permᴰ

fetch_trains-table_example :
    let types = refresh_type_map R 5 (some "trains") none none no_types in
    let rows = map (stored_train R types.type_map) (select has_code trains) in
    (fetch_trains R willing 5 (some "trains") none none (some "trains") no_trains).1.table
    ≡ (if not (any_of (is_refused willing) rows) then prepend_all rows [] else [])
fetch_trains-table_example =
    fetch_trains-table R willing 5 (some "trains") none none (some "trains") trains no_trains
      trains_parsed refl refl

-- The hashes of a train that runs, and of one that does not.
abbrev hashes : Hashes
hashes = record {
  movements =
      (("A1", ("1 May", ("CORK", pos 1))), "h1") ∷ (("B7", ("1 May", ("CORK", pos 1))), "h2") ∷ [];
  hacon = ("A1", "h3") ∷ [];
  at_station = ("A1:CORK:1 May", "h4") ∷ ("B7:CORK:1 May", "h5") ∷ [];
}

cleanup_stale_hashes-IsCleaned_example :
    IsCleaned trains hashes
      (cleanup_stale_hashes R (some "trains") hashes)
      "B7"
      "CORK"
      "1 May"
      (pos 1)
cleanup_stale_hashes-IsCleaned_example =
    cleanup_stale_hashes-IsCleaned R (some "trains") trains hashes "B7" "CORK" "1 May" (pos 1)
      trains_parsed ((refl, (refl, tt)), (refl, tt), (refl, (refl, tt))) refl refl refl

abbrev session : StationSession ℤ
session = record {
  opens = true;
  accepts = λ code row. true;
  commits = true;
  classifies = true;
  reads = true;
  order_codes = λ codes. codes;
}

abbrev no_stations : StationState ℤ
no_stations = record { stations = []; station_codes = [] }

-- One station of the file is in Ireland, and one is not.
abbrev file : List CanonicalStation
file =
    record { code = "mayo"; latitude_text = "53"; longitude_text = "-9" }
    ∷ record { code = "kent"; latitude_text = "20"; longitude_text = "-9" }
    ∷ []

fetch_stations-HavePlaces_example :
    HavePlaces R
      (fetch_stations R session
        (load_canonical_station_coords R file [])
        none
        none
        none
        (some "stations")
        no_stations).1.stations
fetch_stations-HavePlaces_example =
    fetch_stations-HavePlaces R session file none none none (some "stations") no_stations tt
