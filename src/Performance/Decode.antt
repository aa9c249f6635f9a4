-- ===== src/Performance/Decode.antt =====
-- The rows of `decode_rows` of import_bus_performance.py, once the page's layout is accepted.
pub mod Encode
pub mod Page
use mathlib.Core.List.{List, [], ◌∷◌}
use irish_rail_nabber.Prelude.{
  ℕ, zero, suc, String, Bool, true, false, not, ◌&&◌, ◌||◌, Option, none, some, leb, nat_beq, ◌==◌,
  if◌then◌else◌, string_eq, option_bind, length,
}
use irish_rail_nabber.Prelude.Dict.{Dict, lookup, insert}
use irish_rail_nabber.Prelude.Int.{ℤ, pos, negsuc}
use irish_rail_nabber.Python.Runtime.{Json, null, bool, int, float, text, array, object}
use irish_rail_nabber.Performance.Bits.{is_odd, half, power, shares_bit}

-- A column of the transport: its name, that of its dictionary, and what else it says, as a text.
pub record Column : Type 0 where
  pub transport_name : String
  pub dictionary_name : Option String
  pub properties : String

-- A row of the transport: whether it has other keys, and its "S", "C", "R" and "Ø", where a missing "C" is
-- empty and a missing mask is 0.
pub record SourceRow (F : Type 0) : Type 0 where
  pub has_other_keys : Bool
  pub row_schema : Option (List Column)
  pub cells : List (Json F)
  pub repeat_mask : Json F
  pub null_mask : Json F

-- The name of a column, and the name of its value in the transport.
pub record Selected : Type 0 where
  pub name : String
  pub value_name : String

abbrev pub is_bad_mask : ℕ → ℕ → ℕ → Bool
is_bad_mask n repeat nulls =
    leb (power n) repeat || (leb (power n) nulls || shares_bit n repeat nulls)

abbrev same_name : Option String → Option String → Bool
same_name none none = true
same_name (some a) (some b) = a == b
same_name _ _ = false

-- `schema != row["S"]` is the negation.
abbrev pub schemas_equal : List Column → List Column → Bool
schemas_equal [] [] = true
schemas_equal (a ∷ left) (b ∷ right) =
    let rest = schemas_equal left right in
    (a.transport_name == b.transport_name)
    && (same_name a.dictionary_name b.dictionary_name && ((a.properties == b.properties) && rest))
schemas_equal _ _ = false

abbrev pub next_schema : Option (List Column) → Option (List Column) → Option (List Column)
next_schema none sent = sent
next_schema (some schema) none = some schema
next_schema (some schema) (some sent) = if schemas_equal schema sent then some sent else none

abbrev pub checked_schema : ℕ → Option (List Column) → Option (List Column)
checked_schema n none = none
checked_schema n (some schema) = if nat_beq (length schema) n then some schema else none

module _ {F : Type 0} where
  -- A number that is an `int` and not negative; a `bool` is an `int`.
  abbrev pub mask_value : Json F → Option ℕ
  mask_value (int (pos n)) = some n
  mask_value (bool true) = some 1
  mask_value (bool false) = some 0
  mask_value _ = none

  abbrev pub rest_of : Option (List (Json F)) → Option (List (Json F))
  rest_of none = none
  rest_of (some []) = some []
  rest_of (some (v ∷ vs)) = some vs

  abbrev pub head_of : Option (List (Json F)) → Option (Json F)
  head_of none = none
  head_of (some []) = none
  head_of (some (v ∷ vs)) = some v

  abbrev pub take_cell : List (Json F) → Option (Json F × List (Json F))
  take_cell [] = none
  take_cell (v ∷ vs) = some (v, vs)

  -- The value of one column with the cells that are left, from the lowest bits of the masks; `none` where
  -- the code raises.
  abbrev pub read_cell :
      ℕ → ℕ → Option (List (Json F)) → List (Json F) → Option (Json F × List (Json F))
  read_cell repeat nulls previous cells =
      if is_odd repeat
      then option_bind (head_of previous) (λ v. some (v, cells))
      else if is_odd nulls
      then some (null, cells)
      else take_cell cells

  abbrev no_cells : List (Json F) → Option (List (Json F))
  no_cells [] = some []
  no_cells (v ∷ vs) = none

  -- The loop over the schema, for as many columns as it has. The masks lose their lowest bit with each.
  unfoldable pub read_cells :
      ℕ → ℕ → ℕ → Option (List (Json F)) → List (Json F) → Option (List (Json F))
  read_cells zero repeat nulls previous cells = no_cells cells
  read_cells (suc n) repeat nulls previous cells =
      option_bind (read_cell repeat nulls previous cells) λ found.
        option_bind (read_cells n (half repeat) (half nulls) (rest_of previous) found.1)
          λ raw. some (found.0 ∷ raw)

  -- The raw values of a row of `n` columns.
  unfoldable pub read_row : ℕ → SourceRow F → Option (List (Json F)) → Option (List (Json F))
  unfolding read_cells
  read_row n row previous = option_bind (mask_value row.repeat_mask) λ repeat.
      option_bind (mask_value row.null_mask) λ nulls.
        if is_bad_mask n repeat nulls then none else read_cells n repeat nulls previous row.cells

  -- Whether the value is looked up in a dictionary: it is neither null nor a text.
  abbrev is_reference : Json F → Bool
  is_reference null = false
  is_reference (text s) = false
  is_reference _ = true

  abbrev pub item_at : ℕ → List (Json F) → Option (Json F)
  item_at n [] = none
  item_at zero (v ∷ vs) = some v
  item_at (suc n) (v ∷ vs) = item_at n vs

  -- `dictionary[value]` for an `int` in its range, and no `bool`.
  abbrev dictionary_item : Json F → List (Json F) → Option (Json F)
  dictionary_item (int (pos n)) dictionary = item_at n dictionary
  dictionary_item _ dictionary = none

  abbrev resolve_in : Dict String (List (Json F)) → Json F → Option String → Option (Json F)
  resolve_in dictionaries value none = some value
  resolve_in dictionaries value (some name) =
      if is_reference value
      then option_bind (lookup name dictionaries) (dictionary_item value)
      else some value

  unfoldable pub resolve : Dict String (List (Json F)) → Column → Json F → Option (Json F)
  resolve dictionaries column value = resolve_in dictionaries value column.dictionary_name

  -- `by_transport_name`
  unfoldable pub by_transport_name :
      Dict String (List (Json F))
      → List Column
      → List (Json F)
      → Dict String (Json F)
      → Option (Dict String (Json F))
  unfolding resolve
  by_transport_name dictionaries (column ∷ columns) (value ∷ raw) d =
      option_bind (resolve dictionaries column value)
        λ v. by_transport_name dictionaries columns raw (insert column.transport_name v d)
  by_transport_name dictionaries columns raw d = some d

  -- The dictionary that is appended to `decoded`, by its assignments in the order of the fields.
  unfoldable pub select_values :
      List Selected → Dict String (Json F) → Dict String (Json F) → Option (Dict String (Json F))
  select_values [] d selected = some selected
  select_values (field ∷ fields) d selected =
      option_bind (lookup field.value_name d)
        λ v. select_values fields d (insert field.name v selected)

  unfoldable pub decode_values :
      Dict String (List (Json F))
      → List Selected
      → List Column
      → List (Json F)
      → Option (Dict String (Json F))
  unfolding by_transport_name select_values
  decode_values dictionaries descriptor schema raw =
      option_bind (by_transport_name dictionaries schema raw []) λ d. select_values descriptor d []

  -- The loop over the rows of a page, with the schema and the raw values of the row before.
  unfoldable pub decode_page :
      Dict String (List (Json F))
      → List Selected
      → Option (List Column)
      → Option (List (Json F))
      → List (SourceRow F)
      → Option (List (Dict String (Json F)))
  unfolding read_row decode_values
  decode_page dictionaries descriptor schema previous [] = some []
  decode_page dictionaries descriptor schema previous (row ∷ rows) =
      if row.has_other_keys
      then none
      else (option_bind (checked_schema (length descriptor) (next_schema schema row.row_schema))
          λ columns. option_bind (read_row (length columns) row previous) λ raw.
            option_bind (decode_values dictionaries descriptor columns raw) λ decoded.
              option_bind (decode_page dictionaries descriptor (some columns) (some raw) rows)
                λ rest. some (decoded ∷ rest))
