-- ===== src/Bus/Static/Csv.antt =====
-- `_clean_csv_row` to `_csv_float` of bus_daemon.py. `zipfile` and `csv.DictReader` stand outside: an
-- archive is the list of its members, each with the rows that the reader yields. Line numbers only
-- go into messages and are left out.
use mathlib.Core.List.{List, [], ◌∷◌}
use irish_rail_nabber.Prelude.{
  String, Bool, Option, none, some, if◌then◌else◌, get_or, string_eq, ◌==◌,
}
use irish_rail_nabber.Prelude.Dict.{Dict, lookup, insert}
use irish_rail_nabber.Prelude.Int.{ℤ}
use irish_rail_nabber.Prelude.Result.{Result, ok, err, ◌>>=◌}
use irish_rail_nabber.Python.Text.{is_empty, strip, split_on, int_of_text}
use irish_rail_nabber.Python.Runtime.{Runtime}
use irish_rail_nabber.Bus.Error.{
  Error, feed_format, missing_member, no_header, missing_field, invalid_integer, invalid_number,
}

-- A row of `csv.DictReader`: a field too many has no key, a field too few no value.
abbrev pub RawRow : Type 0
RawRow = List (Option String × Option String)

-- A member of the archive; `none` is a file without a header line.
abbrev pub Archive : Type 0
Archive = List (String × Option (List RawRow))

abbrev pub Row : Type 0
Row = Dict String String

-- `text or None`
abbrev pub or_none : Option String → Option String
or_none none = none
or_none (some s) = if is_empty s then none else some s

-- `row.get(field) or None`
abbrev pub optional_field : String → Row → Option String
optional_field field row = or_none (lookup field row)

abbrev last_part : List String → String
last_part [] = ""
last_part (p ∷ []) = p
last_part (p ∷ q ∷ ps) = last_part (q ∷ ps)

module _ (R : Runtime) where
  abbrev set_field : Option String → Option String → Row → Row
  set_field none value row = row
  set_field (some key) value row = insert (R.lower (strip key)) (strip (get_or value "")) row

  unfoldable pub clean_csv_row_from : RawRow → Row → Row
  clean_csv_row_from [] row = row
  clean_csv_row_from (e ∷ raw) row = clean_csv_row_from raw (set_field e.0 e.1 row)

  -- `_clean_csv_row`
  unfoldable pub clean_csv_row : RawRow → Row
  unfolding clean_csv_row_from strip
  clean_csv_row raw = clean_csv_row_from raw []

  -- `name.rsplit("/", 1)[-1].lower() == filename.lower()`
  abbrev is_member_name : String → String → Bool
  is_member_name filename name = R.lower (last_part (split_on b'/' name)) == R.lower filename

  unfoldable pub matching_members : String → Archive → List (Option (List RawRow))
  unfolding split_on
  matching_members filename [] = []
  matching_members filename (m ∷ archive) =
      let rest = matching_members filename archive in
      if is_member_name filename m.0 then m.1 ∷ rest else rest

  -- `_find_zip_member`: exactly one member has the name.
  unfoldable pub find_zip_member : Archive → String → Result Error (Option (List RawRow))
  unfolding matching_members
  find_zip_member archive filename = elim (matching_members filename archive) [
    | [] ↦ err (feed_format missing_member)
    | m ∷ ms ↦ elim ms [ [] ↦ ok m | n ∷ ns ↦ err (feed_format missing_member) ]
  ]

  abbrev clean_rows : List RawRow → List Row
  clean_rows [] = []
  clean_rows (raw ∷ raws) = clean_csv_row raw ∷ clean_rows raws

  abbrev rows_of : Option (List RawRow) → Result Error (List Row)
  rows_of none = err (feed_format no_header)
  rows_of (some raws) = ok (clean_rows raws)

  -- `_gtfs_rows`
  unfoldable pub gtfs_rows : Archive → String → Result Error (List Row)
  unfolding find_zip_member clean_csv_row
  gtfs_rows archive filename = find_zip_member archive filename >>= rows_of

  -- `_required_field`
  unfoldable pub required_field : Row → String → Result Error String
  unfolding strip
  required_field row field =
      let value = strip (get_or (lookup field row) "") in
      if is_empty value then err (feed_format missing_field) else ok value

  abbrev int_or_error : Option ℤ → Result Error (Option ℤ)
  int_or_error none = err (feed_format invalid_integer)
  int_or_error (some n) = ok (some n)

  -- `_csv_int` of `row.get(field, "")`
  unfoldable pub csv_int : Row → String → Bool → Result Error (Option ℤ)
  unfolding strip int_of_text
  csv_int row field required =
      let cleaned = strip (get_or (lookup field row) "") in
      if is_empty cleaned
      then (if required then err (feed_format invalid_integer) else ok none)
      else int_or_error (int_of_text R.digit cleaned)

  abbrev float_or_error : Option R.Float → Result Error (Option R.Float)
  float_or_error none = err (feed_format invalid_number)
  float_or_error (some x) = ok (some x)

  -- `_csv_float` of `row.get(field, "")`
  unfoldable pub csv_float : Row → String → Bool → Result Error (Option R.Float)
  unfolding strip
  csv_float row field required =
      let cleaned = strip (get_or (lookup field row) "") in
      if is_empty cleaned
      then (if required then err (feed_format invalid_number) else ok none)
      else float_or_error (R.float_of_text cleaned)
