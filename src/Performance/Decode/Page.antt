-- ===== src/Performance/Decode/Page.antt =====
-- A whole page of rows, written and read (import_bus_performance.py).
use mathlib.Core.List.{List, [], ◌∷◌}
use irish_rail_nabber.Prelude.{
  ℕ, ◌≡◌, refl, ◌∙◌, sym, Option, none, some, nat_beq_iff, option_bind, String, length,
}
use irish_rail_nabber.Prelude.Dict.{Dict}
use irish_rail_nabber.Python.Runtime.{Json}
use irish_rail_nabber.Performance.Decode.{
  Column, SourceRow, Selected, next_schema, decode_values, decode_page,
}
use irish_rail_nabber.Performance.Decode.Encode.{Form, AreFormsOf, write_row, read_row-write_row}

module _ {F : Type 0} where
  -- The rows of a page: the schema stands in the first one. A row is its forms and its values.
  abbrev pub write_page :
      Option (List Column) → List (List Form × List (Json F)) → List (SourceRow F)
  write_page schema [] = []
  write_page schema (row ∷ rows) = write_row row.0 schema row.1 ∷ write_page none rows

  -- The forms fit the values and the number of columns, each row against the one before.
  abbrev pub IsPage : ℕ → Option (List (Json F)) → List (List Form × List (Json F)) → Type 0
  IsPage n previous [] = Unit
  IsPage n previous (row ∷ rows) =
      (length row.0 ≡ n) × AreFormsOf row.0 previous row.1 × IsPage n (some row.1) rows

  -- The rows decoded one by one from their own values.
  abbrev pub decode_all :
      Dict String (List (Json F))
      → List Selected
      → List Column
      → List (List Form × List (Json F))
      → Option (List (Dict String (Json F)))
  decode_all dictionaries descriptor columns [] = some []
  decode_all dictionaries descriptor columns (row ∷ rows) =
      option_bind (decode_values dictionaries descriptor columns row.1) λ decoded.
        option_bind (decode_all dictionaries descriptor columns rows) λ rest. some (decoded ∷ rest)

  module _ (dictionaries : Dict String (List (Json F))) (descriptor : List Selected)
      (columns : List Column) (fits : length columns ≡ length descriptor) where
    decode_row-write_row :
        (schema own : Option (List Column)) (previous : Option (List (Json F)))
        (row : List Form × List (Json F)) (rows : List (SourceRow F))
        → next_schema schema own ≡ some columns
        → length row.0 ≡ length columns
        → AreFormsOf row.0 previous row.1
        → decode_page dictionaries descriptor schema previous (write_row row.0 own row.1 ∷ rows)
          ≡ option_bind (decode_values dictionaries descriptor columns row.1) (λ decoded.
            option_bind
              (decode_page dictionaries descriptor (some columns) (some row.1) rows)
              (λ rest. some (decoded ∷ rest)))
    unfolding decode_page
    decode_row-write_row schema own previous row rows known sized forms =
        rw
          (
            known,
            (nat_beq_iff (length columns) (length descriptor)).1 fits,
            sym sized,
            read_row-write_row row.0 own previous row.1 forms,
          )
          refl

    decode_rest-write_page :
        (previous : List (Json F)) (rows : List (List Form × List (Json F)))
        → IsPage (length columns) (some previous) rows
        → decode_page dictionaries descriptor (some columns) (some previous) (write_page none rows)
          ≡ decode_all dictionaries descriptor columns rows
    unfolding decode_page
    decode_rest-write_page previous [] h = refl
    decode_rest-write_page previous (row ∷ rows) h =
        decode_row-write_row (some columns) none (some previous) row (write_page none rows) refl h.0
          h.1
        ∙ rw (decode_rest-write_page row.1 rows h.2) refl

-- A page that is written with the schema in its first row, in which every value stands as a repetition of
-- the row before, as a null or in a cell, is read back: the loop of `decode_rows` returns what its rows
-- are decoded to one by one from their own values, and raises exactly if one of these raises. The schema
-- has as many columns as the query selects, and each form fits its value.
pub decode_page-write_page :
    {F : Type 0} (dictionaries : Dict String (List (Json F))) (descriptor : List Selected)
    (columns : List Column) (rows : List (List Form × List (Json F)))
    → length columns ≡ length descriptor
    → IsPage (length columns) none rows
    → decode_page dictionaries descriptor none none (write_page (some columns) rows)
      ≡ decode_all dictionaries descriptor columns rows
unfolding decode_page
decode_page-write_page dictionaries descriptor columns [] fits h = refl
decode_page-write_page dictionaries descriptor columns (row ∷ rows) fits h =
    decode_row-write_row dictionaries descriptor columns fits none (some columns) none row
      (write_page none rows) refl h.0 h.1
    ∙ rw (decode_rest-write_page dictionaries descriptor columns fits row.1 rows h.2) refl
