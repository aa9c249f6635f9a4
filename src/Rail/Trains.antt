-- ===== src/Rail/Trains.antt =====
-- `fetch_trains` of daemon.py.
pub mod Coded
pub mod Snapshot
use mathlib.Core.List.{List, [], ◌∷◌, map}
use Prim.Native.String.{◌++◌}
use irish_rail_nabber.Prelude.{
  ℕ, zero, suc, String, Bool, true, false, ◌||◌, ◌&&◌, Option, none, some, ltb, nat_beq,
  code as char_code, if◌then◌else◌, string_eq,
}
use irish_rail_nabber.Prelude.Sort.{sort}
use irish_rail_nabber.Prelude.Dict.{Dict, lookup}
use irish_rail_nabber.Python.Text.{is_empty}
use irish_rail_nabber.Python.Order.{text_before}
use irish_rail_nabber.Python.Runtime.{Runtime}
use irish_rail_nabber.Rail.Fields.{
  Element, extract_text, text_of, to_irish_coordinate_pair, Value, text, stable_hash,
}
use irish_rail_nabber.Rail.Movements.{is_same, elements_of}
use irish_rail_nabber.Rail.Writes.{Connection, Change, Transaction, execute, commit}
use irish_rail_nabber.Rail.Hacon.{FetchResult, failed, skipped, success}
use irish_rail_nabber.Rail.Types.{TypeState, refresh_type_map}

-- A row of `train_snapshots`.
pub record TrainSnapshot (F : Type 0) : Type 0 where
  pub train_code : String
  pub train_status : String
  pub latitude : Option F
  pub longitude : Option F
  pub train_date : String
  pub direction : String
  pub public_message : String
  pub train_type : Option String

-- `prev_trains_hash`, the type map, and the table.
pub record TrainState (A : Type 0) : Type 0 where
  pub prev_trains_hash : Option String
  pub types : TypeState
  pub table : List (Change A)

abbrev pub position_text : Element → String
position_text train =
    text_of train "TrainCode"
    ++ ":"
    ++ extract_text (some train) "TrainLatitude" "0"
    ++ ":"
    ++ extract_text (some train) "TrainLongitude" "0"

-- `trains_data`
unfoldable pub trains_data : List Element → List String
trains_data [] = []
trains_data (train ∷ trains) =
    let rest = trains_data trains in
    if is_empty (text_of train "TrainCode") then rest else position_text train ∷ rest

module _ {A : Type 0} (connection : Connection A) where
  -- The rows in one transaction, and how many of them the database took.
  unfoldable pub send_rows : List (Change A) → Transaction A → ℕ → Transaction A × ℕ
  unfolding execute
  send_rows [] t count = (t, count)
  send_rows (c ∷ cs) t count =
      let result = execute connection c t in
      send_rows cs result.1 (if result.0 then suc count else count)

module _ (R : Runtime) where
  unfoldable pub trains_hash : List Element → String
  unfolding sort text_before trains_data stable_hash
  trains_hash es = stable_hash R (map text (sort text_before (trains_data es)))

  abbrev pub Snapshot : Type 0
  Snapshot = TrainSnapshot R.Float

  abbrev pub train_coordinates : Element → Option R.Float × Option R.Float
  train_coordinates train =
      to_irish_coordinate_pair R (extract_text (some train) "TrainLatitude" "0")
        (extract_text (some train) "TrainLongitude" "0")

  unfoldable pub train_row : Dict String String → Element → Snapshot
  unfolding to_irish_coordinate_pair
  train_row type_map train = record {
    train_code = text_of train "TrainCode";
    train_status = text_of train "TrainStatus";
    latitude = (train_coordinates train).0;
    longitude = (train_coordinates train).1;
    train_date = text_of train "TrainDate";
    direction = text_of train "Direction";
    public_message = text_of train "PublicMessage";
    train_type = lookup (text_of train "TrainCode") type_map;
  }

  abbrev pub train_change : Dict String String → Element → Change Snapshot
  train_change type_map train = record {
    cache_key = text_of train "TrainCode";
    fingerprint = position_text train;
    row = train_row type_map train;
  }

  unfoldable pub train_rows : Dict String String → List Element → List (Change Snapshot)
  unfolding train_row
  train_rows type_map [] = []
  train_rows type_map (train ∷ trains) =
      let rest = train_rows type_map trains in
      if is_empty (text_of train "TrainCode") then rest else train_change type_map train ∷ rest

  abbrev stored :
      String
      → TypeState
      → List (Change Snapshot)
      → ℕ
      → Option (List (Change Snapshot))
      → FetchResult × TrainState Snapshot
  stored content_hash types table count none =
      (failed, record { prev_trains_hash = some content_hash; types = types; table = table })
  stored content_hash types table count (some after) =
      (success count, record { prev_trains_hash = some content_hash; types = types; table = after })

  module _ (connection : Connection Snapshot) (now : ℕ)
      (dart mainline suburban : Option String) where
    unfoldable pub store_snapshot :
        List Element → TypeState → List (Change Snapshot) → FetchResult × TrainState Snapshot
    unfolding send_rows commit train_rows trains_hash
    store_snapshot es types table =
        let sent =
          send_rows connection (train_rows types.type_map es)
            (record { is_aborted = false; rows = [] }) 0 in
        if connection.opens
        then stored (trains_hash es) types table sent.1 (commit connection sent.0 table)
        else stored (trains_hash es) types table 0 none

    abbrev pub store_elements :
        Option (List Element) → TrainState Snapshot → FetchResult × TrainState Snapshot
    store_elements none s = (failed, s)
    store_elements (some es) s =
        if is_same s.prev_trains_hash (trains_hash es)
        then (skipped, s)
        else store_snapshot es (refresh_type_map R now dart mainline suburban s.types) s.table

    -- `fetch_trains`, with the response, the time, and the responses of `_refresh_type_map`.
    unfoldable pub fetch_trains :
        Option String → TrainState Snapshot → FetchResult × TrainState Snapshot
    unfolding store_snapshot refresh_type_map
    fetch_trains response s = store_elements (elements_of R response) s
