-- ===== src/Performance/Transport.antt =====
-- `decode_rows` of import_bus_performance.py, from the results of a query to its rows.
pub mod Complete
use mathlib.Core.List.{List, [], ◌∷◌}
use irish_rail_nabber.Prelude.{
  ℕ, String, Bool, true, false, not, ◌&&◌, ◌||◌, Option, none, some, leb, string_eq, ◌==◌,
  if◌then◌else◌, option_bind, length,
}
use irish_rail_nabber.Prelude.Dict.{Dict}
use irish_rail_nabber.Python.Runtime.{Json}
use irish_rail_nabber.Performance.Decode.{Selected, SourceRow, decode_page}

abbrev pub max_rows : ℕ
max_rows = 30000

-- A dataset: whether it has an "RT" or "RestartTokens", whether "IC" is `True`, the rows of each partition,
-- none where it has other keys than "DM0", and the dictionaries.
pub record Dataset (F : Type 0) : Type 0 where
  pub restarts : Bool
  pub is_complete : Bool
  pub partitions : List (Option (List (SourceRow F)))
  pub dictionaries : Dict String (List (Json F))

pub record QueryData (F : Type 0) : Type 0 where
  pub descriptor : List Selected
  pub datasets : List (Dataset F)

-- `[field.get("Name") for field in descriptor]`
abbrev pub names : List Selected → List String
names [] = []
names (field ∷ fields) = field.name ∷ names fields

abbrev pub names_equal : List String → List String → Bool
names_equal [] [] = true
names_equal (a ∷ left) (b ∷ right) = let rest = names_equal left right in (a == b) && rest
names_equal _ _ = false

abbrev pub single {ℓ} : {A : Type ℓ} → List A → Option A
single (a ∷ []) = some a
single _ = none

module _ {F : Type 0} where
  abbrev decode_partition :
      List Selected
      → Dict String (List (Json F))
      → Option (List (SourceRow F))
      → Option (List (Dict String (Json F)))
  decode_partition descriptor dictionaries none = none
  decode_partition descriptor dictionaries (some rows) =
      if leb max_rows (length rows)
      then none
      else decode_page dictionaries descriptor none none rows

  abbrev pub decode_dataset : List Selected → Dataset F → Option (List (Dict String (Json F)))
  decode_dataset descriptor dataset =
      if dataset.restarts || not dataset.is_complete
      then none
      else option_bind (single dataset.partitions)
          (decode_partition descriptor dataset.dictionaries)

  abbrev pub decode_data : List String → Option (QueryData F) → Option (List (Dict String (Json F)))
  decode_data expected_names none = none
  decode_data expected_names (some found) =
      if names_equal (names found.descriptor) expected_names
      then option_bind (single found.datasets) (decode_dataset found.descriptor)
      else none

  -- `decode_rows`: each result has the data of its query, or none.
  unfoldable pub decode_rows :
      List (Option (QueryData F)) → List String → Option (List (Dict String (Json F)))
  unfolding decode_page
  decode_rows results expected_names = option_bind (single results) (decode_data expected_names)
