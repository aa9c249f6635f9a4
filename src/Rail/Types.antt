-- ===== src/Rail/Types.antt =====
-- `_refresh_type_map` and `_fetch_train_codes_by_type` of daemon.py.
pub mod Precedence
use mathlib.Core.List.{List, [], ◌∷◌}
use irish_rail_nabber.Prelude.{
  ℕ, ◌+◌, ◌*◌, String, Bool, true, false, Option, none, some, ltb, if◌then◌else◌, string_eq, add,
}
use irish_rail_nabber.Prelude.Dict.{Dict, insert}
use irish_rail_nabber.Python.Text.{is_empty}
use irish_rail_nabber.Python.Runtime.{Runtime}
use irish_rail_nabber.Rail.Fields.{Element, text_of}
use irish_rail_nabber.Rail.Movements.{elements_of}

-- `_type_map` and `_type_map_updated`, the instant in microseconds of the local clock.
pub record TypeState : Type 0 where
  pub type_map : Dict String String
  pub type_map_updated : Option ℕ

-- The texts of one tag that are not empty, as a set.
unfoldable pub codes_in : String → List Element → List String
codes_in tag [] = []
codes_in tag (e ∷ es) =
    let rest = codes_in tag es in
    if is_empty (text_of e tag) then rest else add (text_of e tag) rest

abbrev pub codes_or_none : String → Option (List Element) → List String
codes_or_none tag none = []
codes_or_none tag (some es) = codes_in tag es

-- `_fetch_train_codes_by_type`, with the response.
unfoldable pub fetch_train_codes_by_type : Runtime → Option String → List String
unfolding codes_in
fetch_train_codes_by_type R response = codes_or_none "TrainCode" (elements_of R response)

-- `for code in codes: d[code] = kind`
unfoldable pub put_all : String → List String → Dict String String → Dict String String
put_all kind [] d = d
put_all kind (code ∷ codes) d = put_all kind codes (insert code kind d)

unfoldable pub new_type_map : List String → List String → List String → Dict String String
unfolding put_all
new_type_map dart mainline suburban =
    put_all "Suburban" suburban (put_all "Mainline" mainline (put_all "DART" dart []))

abbrev pub type_map_refresh_interval : ℕ
type_map_refresh_interval = 300

abbrev pub is_fresh : ℕ → Option ℕ → Bool
is_fresh now none = false
is_fresh now (some updated) = ltb now (updated + type_map_refresh_interval * 1000000)

-- `_refresh_type_map`, with the responses for D, M and S.
unfoldable pub refresh_type_map :
    Runtime → ℕ → Option String → Option String → Option String → TypeState → TypeState
unfolding fetch_train_codes_by_type new_type_map
refresh_type_map R now dart mainline suburban s =
    if is_fresh now s.type_map_updated then s else record {
      type_map =
          new_type_map (fetch_train_codes_by_type R dart) (fetch_train_codes_by_type R mainline)
            (fetch_train_codes_by_type R suburban);
      type_map_updated = some now;
    }
