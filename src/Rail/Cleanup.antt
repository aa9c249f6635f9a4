-- ===== src/Rail/Cleanup.antt =====
-- `cleanup_stale_hashes` of daemon.py.
pub mod Active
use mathlib.Core.List.{List, [], ◌∷◌}
use Prim.Native.String.{◌++◌}
use irish_rail_nabber.Prelude.{
  String, Bool, true, false, not, ◌&&◌, Option, none, some, if◌then◌else◌, string_eq, pair_eq, Eq,
  ◌==◌, contains, add, select,
}
use irish_rail_nabber.Prelude.Dict.{Dict, keys}
use irish_rail_nabber.Prelude.Dict.Erase.{erase_all}
use irish_rail_nabber.Prelude.Int.{int_eq}
use irish_rail_nabber.Python.Text.{is_empty, strip, split_on}
use irish_rail_nabber.Python.Runtime.{Runtime}
use irish_rail_nabber.Rail.Fields.{Element, text_of}
use irish_rail_nabber.Rail.Movements.{MovementKey, elements_of}

-- `prev_movement_hashes`, `prev_hacon_train_hashes` and `prev_train_at_station_hashes`.
pub record Hashes : Type 0 where
  pub movements : Dict MovementKey String
  pub hacon : Dict String String
  pub at_station : Dict String String

-- The key of a train that has a code and a date.
unfoldable pub train_key : Element → Option String
unfolding strip
train_key train =
    if is_empty (text_of train "TrainCode")
    then none
    else if is_empty (text_of train "TrainDate")
    then none
    else some (strip (text_of train "TrainCode") ++ ":" ++ strip (text_of train "TrainDate"))

abbrev add_key : Option String → List String → List String
add_key none active = active
add_key (some key) active = add key active

-- A set, as a list without repetition.
unfoldable pub active_keys : List Element → List String
unfolding train_key
active_keys [] = []
active_keys (train ∷ trains) = add_key (train_key train) (active_keys trains)

abbrev first_part : List String → String
first_part [] = ""
first_part (part ∷ parts) = part

unfoldable pub active_codes : List String → List String
unfolding split_on
active_codes [] = []
active_codes (key ∷ active) = add (first_part (split_on b':' key)) (active_codes active)

abbrev pub is_stale_movement : List String → MovementKey → Bool
is_stale_movement active key = not (contains (key.0 ++ ":" ++ key.1.0) active)

abbrev pub is_stale_hacon : List String → String → Bool
is_stale_hacon active code = not (contains code (active_codes active))

abbrev stale_parts : List String → List String → Bool
stale_parts active (code ∷ station ∷ date ∷ []) = not (contains (code ++ ":" ++ date) active)
stale_parts active _ = false

-- A key of three parts whose train is not active.
unfoldable pub is_stale_at_station : List String → String → Bool
unfolding split_on
is_stale_at_station active key = stale_parts active (split_on b':' key)

unfoldable pub remove_stale : List String → Hashes → Hashes
unfolding active_codes is_stale_at_station
remove_stale active h = record {
  movements = erase_all (select (is_stale_movement active) (keys h.movements)) h.movements;
  hacon = erase_all (select (is_stale_hacon active) (keys h.hacon)) h.hacon;
  at_station = erase_all (select (is_stale_at_station active) (keys h.at_station)) h.at_station;
}

abbrev pub cleanup : Option (List Element) → Hashes → Hashes
cleanup none h = h
cleanup (some es) h = remove_stale (active_keys es) h

-- `cleanup_stale_hashes`, with the response.
unfoldable pub cleanup_stale_hashes : Runtime → Option String → Hashes → Hashes
unfolding active_keys remove_stale
cleanup_stale_hashes R response h = cleanup (elements_of R response) h
