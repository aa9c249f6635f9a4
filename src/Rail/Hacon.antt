-- ===== src/Rail/Hacon.antt =====
-- `fetch_hacon` of daemon.py.
pub mod Stored
use mathlib.Core.List.{List, [], ◌∷◌}
use irish_rail_nabber.Prelude.{ℕ, String, Option, none, some, if◌then◌else◌}
use irish_rail_nabber.Prelude.Int.{ℤ}
use irish_rail_nabber.Python.Text.{is_empty, strip}
use irish_rail_nabber.Python.Runtime.{Runtime}
use irish_rail_nabber.Rail.Fields.{
  Element, extract_text, text_of, some_text, to_int_or_none, to_irish_coordinate_pair,
  parse_hacon_datetime, Value, text, parse_xml, stable_hash,
}
use irish_rail_nabber.Rail.Movements.{is_same}
use irish_rail_nabber.Rail.Writes.{Connection, Change, Store, write_changes}

-- A row of `train_snapshots_hacon`, over the floats and the instants of the interpreter.
pub record HaconTrain (F D : Type 0) : Type 0 where
  pub train_code : String
  pub train_status : Option String
  pub latitude : Option F
  pub longitude : Option F
  pub train_date : Option String
  pub direction : Option String
  pub last_location_type : Option String
  pub last_location : Option String
  pub next_location : Option String
  pub difference_seconds : Option ℤ
  pub train_origin : Option String
  pub train_destination : Option String
  pub train_origin_time : Option D
  pub train_destination_time : Option D
  pub scheduled_departure : Option D
  pub scheduled_arrival : Option D

-- What `record_fetch` is told.
pub data FetchResult : Type 0 where
  failed : FetchResult
  skipped : FetchResult
  success : ℕ → FetchResult

-- `prev_hacon_hash`; `prev_hacon_train_hashes` and the table.
pub record HaconState (A : Type 0) : Type 0 where
  pub prev_hacon_hash : Option String
  pub trains : Store A

abbrev pub hacon_values : Element → List Value
hacon_values train =
    text (text_of train "TrainStatus")
    ∷ text (text_of train "TrainLatitude")
    ∷ text (text_of train "TrainLongitude")
    ∷ text (text_of train "LastLocation")
    ∷ text (text_of train "LastLocationType")
    ∷ text (text_of train "NextLocation")
    ∷ text (text_of train "Difference")
    ∷ []

module _ (R : Runtime) where
  abbrev pub Hacon : Type 0
  Hacon = HaconTrain R.Float R.DateTime

  abbrev pub hacon_coordinates : Element → Option R.Float × Option R.Float
  hacon_coordinates train =
      to_irish_coordinate_pair R (extract_text (some train) "TrainLatitude" "0")
        (extract_text (some train) "TrainLongitude" "0")

  unfoldable pub hacon_row : Element → Hacon
  unfolding strip to_irish_coordinate_pair to_int_or_none parse_hacon_datetime
  hacon_row train = record {
    train_code = strip (text_of train "TrainCode");
    train_status = some_text (text_of train "TrainStatus");
    latitude = (hacon_coordinates train).0;
    longitude = (hacon_coordinates train).1;
    train_date = some_text (text_of train "TrainDate");
    direction = some_text (text_of train "Direction");
    last_location_type = some_text (text_of train "LastLocationType");
    last_location = some_text (text_of train "LastLocation");
    next_location = some_text (text_of train "NextLocation");
    difference_seconds = to_int_or_none R (text_of train "Difference");
    train_origin = some_text (text_of train "TrainOrigin");
    train_destination = some_text (text_of train "TrainDestination");
    train_origin_time = parse_hacon_datetime R (text_of train "TrainOriginTime");
    train_destination_time = parse_hacon_datetime R (text_of train "TrainDestinationTime");
    scheduled_departure = parse_hacon_datetime R (text_of train "ScheduledDeparture");
    scheduled_arrival = parse_hacon_datetime R (text_of train "ScheduledArrival");
  }

  abbrev hacon_change : Element → Change Hacon
  hacon_change train = record {
    cache_key = strip (text_of train "TrainCode");
    fingerprint = stable_hash R (hacon_values train);
    row = hacon_row train;
  }

  -- The trains of a response that have a code.
  unfoldable pub parse_trains : List Element → List (Change Hacon)
  unfolding strip stable_hash hacon_row
  parse_trains [] = []
  parse_trains (train ∷ trains) =
      let rest = parse_trains trains in
      if is_empty (strip (text_of train "TrainCode")) then rest else hacon_change train ∷ rest

  abbrev pub result_of_count : Option ℕ → FetchResult
  result_of_count none = failed
  result_of_count (some n) = success n

  abbrev pub store_trains :
      Connection Hacon → List Element → String → HaconState Hacon → FetchResult × HaconState Hacon
  store_trains connection es content_hash s =
      let result = write_changes connection (parse_trains es) s.trains in
      (result_of_count result.0, record { prev_hacon_hash = some content_hash; trains = result.1 })

  abbrev pub store_response :
      Connection Hacon
      → Option (List Element)
      → String
      → HaconState Hacon
      → FetchResult × HaconState Hacon
  store_response connection none content_hash s = (failed, s)
  store_response connection (some es) content_hash s =
      if is_same s.prev_hacon_hash content_hash
      then (skipped, s)
      else store_trains connection es content_hash s

  abbrev pub response_hash : String → String
  response_hash xml = stable_hash R (text xml ∷ [])

  -- `fetch_hacon`, with the response.
  unfoldable pub fetch_hacon :
      Connection Hacon → Option String → HaconState Hacon → FetchResult × HaconState Hacon
  unfolding parse_xml parse_trains write_changes stable_hash
  fetch_hacon connection none s = (failed, s)
  fetch_hacon connection (some xml) s =
      if is_empty xml
      then (failed, s)
      else store_response connection (parse_xml R xml) (response_hash xml) s
