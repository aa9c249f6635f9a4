-- ===== src/Rail/Trains/Coded.antt =====
-- What `fetch_trains` of daemon.py takes from each train that has a code.
use mathlib.Core.List.{List, [], ◌∷◌, map, Permᴰ}
use mathlib.Core.List.Permᴰ
use Prim.Native.String.{◌++◌}
use irish_rail_nabber.Prelude.{
  String, ◌≡◌, refl, ap, Bool, not, some, inl, inr, string_eq, Bool-cases, select,
}
use irish_rail_nabber.Prelude.Dict.{Dict, lookup}
use irish_rail_nabber.Python.Text.{is_empty}
use irish_rail_nabber.Python.Runtime.{Runtime}
use irish_rail_nabber.Rail.Fields.{Element, text_of, extract_text, to_irish_coordinate_pair}
use irish_rail_nabber.Rail.Writes.{Change}
use irish_rail_nabber.Rail.Trains.{Snapshot, train_row, position_text, trains_data, train_rows}

abbrev pub has_code : Element → Bool
has_code train = not (is_empty (text_of train "TrainCode"))

-- The code and the coordinates of a train, as the response has them.
abbrev pub place : Element → String × (String × String)
place train = (
  text_of train "TrainCode",
  (extract_text (some train) "TrainLatitude" "0", extract_text (some train) "TrainLongitude" "0"),
)

abbrev pub places : List Element → List (String × (String × String))
places es = map place (select has_code es)

abbrev joined : String × (String × String) → String
joined t = t.0 ++ ":" ++ t.1.0 ++ ":" ++ t.1.1

trains_data-places : (es : List Element) → trains_data es ≡ map joined (places es)
unfolding trains_data
trains_data-places [] = refl
trains_data-places (train ∷ trains) = elim (Bool-cases (is_empty (text_of train "TrainCode"))) [
  | inl unnamed ↦ rw unnamed (trains_data-places trains)
  | inr named ↦ rw named (ap (λ rest. position_text train ∷ rest) (trains_data-places trains))
]

pub trains_data-Permᴰ :
    (es fs : List Element) → Permᴰ (places es) (places fs) → Permᴰ (trains_data es) (trains_data fs)
trains_data-Permᴰ es fs p = rw (trains_data-places es, trains_data-places fs) (Permᴰ.map joined p)

module _ (R : Runtime) (type_map : Dict String String) where
  -- What is stored of a train: its fields as the response has them, the coordinates if they lie in
  -- Ireland, and the type of its code.
  abbrev pub stored_train : Element → Change (Snapshot R)
  stored_train train = record {
    cache_key = text_of train "TrainCode";
    fingerprint = joined (place train);
    row = record {
      train_code = text_of train "TrainCode";
      train_status = text_of train "TrainStatus";
      latitude = (to_irish_coordinate_pair R (place train).1.0 (place train).1.1).0;
      longitude = (to_irish_coordinate_pair R (place train).1.0 (place train).1.1).1;
      train_date = text_of train "TrainDate";
      direction = text_of train "Direction";
      public_message = text_of train "PublicMessage";
      train_type = lookup (text_of train "TrainCode") type_map;
    };
  }

  pub train_rows-stored :
      (es : List Element) → train_rows R type_map es ≡ map stored_train (select has_code es)
  unfolding train_rows train_row
  train_rows-stored [] = refl
  train_rows-stored (train ∷ trains) = elim (Bool-cases (is_empty (text_of train "TrainCode"))) [
    | inl unnamed ↦ rw unnamed (train_rows-stored trains)
    | inr named ↦ rw named (ap (λ rest. stored_train train ∷ rest) (train_rows-stored trains))
  ]
