-- ===== src/Performance/Decode/Encode.antt =====
-- A writer of the transport's rows, and what the reader of import_bus_performance.py makes of them.
use mathlib.Core.List.{List, [], ◌∷◌}
use irish_rail_nabber.Prelude.{
  ℕ, suc, ◌<◌, ◌≡◌, refl, ap, Bool, true, false, ◌&&◌, ◌||◌, Option, some, leb, if◌then◌else◌,
  option_bind, length, arith,
}
use irish_rail_nabber.Prelude.Int.{pos}
use irish_rail_nabber.Python.Runtime.{Json, null, int}
use irish_rail_nabber.Performance.Bits.{
  power, shares_bit, mask_of, is_odd-bit, half-bit, mask_of_bound,
}
use irish_rail_nabber.Performance.Decode.{
  Column, SourceRow, rest_of, head_of, take_cell, read_cell, read_cells, is_bad_mask, read_row,
}

-- How a value is written: again as in the row before, as null, or in a cell.
pub data Form : Type 0 where
  repeated : Form
  absent : Form
  sent : Form

abbrev is_repeated : Form → Bool
is_repeated repeated = true
is_repeated _ = false

abbrev is_absent : Form → Bool
is_absent absent = true
is_absent _ = false

abbrev pub repeat_bits : List Form → List Bool
repeat_bits [] = []
repeat_bits (f ∷ fs) = is_repeated f ∷ repeat_bits fs

abbrev pub null_bits : List Form → List Bool
null_bits [] = []
null_bits (f ∷ fs) = is_absent f ∷ null_bits fs

length-repeat_bits : (fs : List Form) → length (repeat_bits fs) ≡ length fs
length-repeat_bits [] = refl
length-repeat_bits (f ∷ fs) = ap suc (length-repeat_bits fs)

length-null_bits : (fs : List Form) → length (null_bits fs) ≡ length fs
length-null_bits [] = refl
length-null_bits (f ∷ fs) = ap suc (length-null_bits fs)

shares_bit-forms :
    (fs : List Form)
    → shares_bit (length fs) (mask_of (repeat_bits fs)) (mask_of (null_bits fs)) ≡ false
shares_bit-forms [] = refl
shares_bit-forms (f ∷ fs) =
    rw
      (
        is_odd-bit (is_repeated f) (mask_of (repeat_bits fs)),
        is_odd-bit (is_absent f) (mask_of (null_bits fs)),
        half-bit (is_repeated f) (mask_of (repeat_bits fs)),
        half-bit (is_absent f) (mask_of (null_bits fs)),
        shares_bit-forms fs,
      )
      (both_forms f)
  where
    both_forms : (f : Form) → ((is_repeated f && is_absent f) || false) ≡ false
    both_forms repeated = refl
    both_forms absent = refl
    both_forms sent = refl

in_range : (n m : ℕ) → m < n → leb n m ≡ false
in_range n m h = ground arith

is_bad_mask-forms :
    (fs : List Form)
    → is_bad_mask (length fs) (mask_of (repeat_bits fs)) (mask_of (null_bits fs)) ≡ false
is_bad_mask-forms fs =
    rw
      (
        in_range (power (length fs)) (mask_of (repeat_bits fs))
            (rw (length-repeat_bits fs) at (mask_of_bound (repeat_bits fs))),
        in_range (power (length fs)) (mask_of (null_bits fs))
            (rw (length-null_bits fs) at (mask_of_bound (null_bits fs))),
        shares_bit-forms fs,
      )
      refl

module _ {F : Type 0} where
  -- The cells that are sent.
  abbrev pub sent_cells : List Form → List (Json F) → List (Json F)
  sent_cells (sent ∷ fs) (v ∷ raw) = v ∷ sent_cells fs raw
  sent_cells (f ∷ fs) (v ∷ raw) = sent_cells fs raw
  sent_cells fs raw = []

  -- A form may be used for a value: the row before has it, or it is null.
  abbrev pub IsFormOf : Form → Option (Json F) → Json F → Type 0
  IsFormOf repeated previous v = previous ≡ some v
  IsFormOf absent previous v = v ≡ null
  IsFormOf sent previous v = Unit

  -- A form for each value.
  abbrev pub AreFormsOf : List Form → Option (List (Json F)) → List (Json F) → Type 0
  AreFormsOf [] previous [] = Unit
  AreFormsOf (f ∷ fs) previous (v ∷ raw) =
      IsFormOf f (head_of previous) v × AreFormsOf fs (rest_of previous) raw
  AreFormsOf _ _ _ = ⊥

  form_value :
      (f : Form) (fs : List Form) (previous : Option (List (Json F))) (v : Json F)
      (raw : List (Json F))
      → IsFormOf f (head_of previous) v
      → (if is_repeated f
          then option_bind (head_of previous) (λ w. some (w, sent_cells (f ∷ fs) (v ∷ raw)))
          else if is_absent f
          then some (null, sent_cells (f ∷ fs) (v ∷ raw))
          else take_cell (sent_cells (f ∷ fs) (v ∷ raw)))
        ≡ some (v, sent_cells fs raw)
  form_value repeated fs previous v raw h = rw h refl
  form_value absent fs previous v raw h = rw h refl
  form_value sent fs previous v raw h = refl

  read_cell-form :
      (f : Form) (fs : List Form) (previous : Option (List (Json F))) (v : Json F)
      (raw : List (Json F))
      → IsFormOf f (head_of previous) v
      → read_cell
          (mask_of (repeat_bits (f ∷ fs)))
          (mask_of (null_bits (f ∷ fs)))
          previous
          (sent_cells (f ∷ fs) (v ∷ raw))
        ≡ some (v, sent_cells fs raw)
  read_cell-form f fs previous v raw h =
      rw
        (
          is_odd-bit (is_repeated f) (mask_of (repeat_bits fs)),
          is_odd-bit (is_absent f) (mask_of (null_bits fs)),
        )
        (form_value f fs previous v raw h)

  read_cells-forms :
      (fs : List Form) (previous : Option (List (Json F))) (raw : List (Json F))
      → AreFormsOf fs previous raw
      → read_cells
          (length fs)
          (mask_of (repeat_bits fs))
          (mask_of (null_bits fs))
          previous
          (sent_cells fs raw)
        ≡ some raw
  unfolding read_cells
  read_cells-forms [] previous [] h = refl
  read_cells-forms (f ∷ fs) previous (v ∷ raw) h =
      rw
        (
          read_cell-form f fs previous v raw h.0,
          half-bit (is_repeated f) (mask_of (repeat_bits fs)),
          half-bit (is_absent f) (mask_of (null_bits fs)),
          read_cells-forms fs (rest_of previous) raw h.1,
        )
        refl
  read_cells-forms [] previous (v ∷ raw) h = elim h [ ]
  read_cells-forms (f ∷ fs) previous [] h = elim h [ ]

  -- The row that the forms make of the values.
  abbrev pub write_row : List Form → Option (List Column) → List (Json F) → SourceRow F
  write_row fs schema raw = record {
    has_other_keys = false;
    row_schema = schema;
    cells = sent_cells fs raw;
    repeat_mask = int (pos (mask_of (repeat_bits fs)));
    null_mask = int (pos (mask_of (null_bits fs)));
  }

  pub read_row-write_row :
      (fs : List Form) (schema : Option (List Column)) (previous : Option (List (Json F)))
      (raw : List (Json F))
      → AreFormsOf fs previous raw
      → read_row (length fs) (write_row fs schema raw) previous ≡ some raw
  unfolding read_row
  read_row-write_row fs schema previous raw h =
      rw (is_bad_mask-forms fs) (read_cells-forms fs previous raw h)
