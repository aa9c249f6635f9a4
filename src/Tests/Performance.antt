-- ===== src/Tests/Performance.antt =====
-- The published performance and the copies of the storage: runs and examples.
use mathlib.Core.List.{List, [], ◌∷◌}
use irish_rail_nabber.Prelude.{
  ℕ, String, ◌≡◌, refl, Bool, true, false, nat_beq, none, some, if◌then◌else◌, nat_eq, All, arith,
}
use irish_rail_nabber.Prelude.Dict.{Dict}
use irish_rail_nabber.Prelude.Int.{ℤ, pos}
use irish_rail_nabber.Prelude.Sort.{sort}
use irish_rail_nabber.Python.Order.{text_before}
use irish_rail_nabber.Python.Text.{is_space, lstrip, rstrip, strip, int_digits}
use irish_rail_nabber.Python.Runtime.{Json, null, int, text}
use irish_rail_nabber.Performance.Decode.{
  Column, Selected, read_cells, read_row, resolve, by_transport_name, select_values, decode_values,
  decode_page,
}
use irish_rail_nabber.Performance.Decode.Encode.{Form, repeated, absent, sent}
use irish_rail_nabber.Performance.Decode.Page.{write_page, decode_all, decode_page-write_page}
use irish_rail_nabber.Performance.Transport.{QueryData, decode_rows}
use irish_rail_nabber.Performance.Transport.Complete.{Decoded, IsAnswer, decode_rows-IsAnswer}
use irish_rail_nabber.Performance.Normalize.{
  RouteKey, missing, real, count, Record, number, period_of, key_of, metric_value, put_metric,
  put_metrics, add_row, add_rows, add_families, clear_percentages, records_of, normalize,
}
use irish_rail_nabber.Performance.Normalize.Published.{IsPublished, normalize-IsPublished}
use irish_rail_nabber.Storage.{Progress, stopped, in_range, archive}
use irish_rail_nabber.Storage.Resumed.{occurrences, IsCopied, started-IsCopied, archive-IsCopied}
use irish_rail_nabber.Storage.Finished.{is_out_of_fuel, archive-ends, archive_complete}
use irish_rail_nabber.Tests.Feed.{R}

abbrev columns : List Column
columns =
    record { transport_name = "G0"; dictionary_name = some "D0"; properties = "" }
    ∷ record { transport_name = "G1"; dictionary_name = none; properties = "" }
    ∷ []

abbrev descriptor : List Selected
descriptor =
    record { name = "Operator"; value_name = "G0" }
    ∷ record { name = "Line"; value_name = "G1" }
    ∷ []

abbrev dictionaries : Dict String (List (Json ℤ))
dictionaries = ("D0", text "Dublin Bus" ∷ text "Bus Éireann" ∷ []) ∷ []

-- The second row repeats the operator.
abbrev page : List (List Form × List (Json ℤ))
page =
    (sent ∷ absent ∷ [], int (pos 1) ∷ null ∷ [])
    ∷ (repeated ∷ sent ∷ [], int (pos 1) ∷ text "46A" ∷ [])
    ∷ []

decode_page-write_page_example :
    decode_page dictionaries descriptor none none (write_page (some columns) page)
    ≡ decode_all dictionaries descriptor columns page
decode_page-write_page_example =
    decode_page-write_page dictionaries descriptor columns page refl
      (refl, (tt, (refl, tt)), (refl, (refl, (tt, tt)), tt))

abbrev answer : QueryData ℤ
answer = record {
  descriptor = descriptor;
  datasets =
      record {
        restarts = false;
        is_complete = true;
        partitions = some (write_page (some columns) page) ∷ [];
        dictionaries = dictionaries;
      }
      ∷ [];
}

abbrev decoded : List (Decoded ℤ)
decoded =
    (("Operator", text "Bus Éireann") ∷ ("Line", null) ∷ [])
    ∷ (("Operator", text "Bus Éireann") ∷ ("Line", text "46A") ∷ [])
    ∷ []

answer-decoded : decode_rows (some answer ∷ []) ("Operator" ∷ "Line" ∷ []) ≡ some decoded
unfolding decode_rows decode_page read_row read_cells resolve by_transport_name select_values
    decode_values
answer-decoded = refl

decode_rows-IsAnswer_example : IsAnswer ("Operator" ∷ "Line" ∷ []) (some answer ∷ []) decoded
decode_rows-IsAnswer_example =
    decode_rows-IsAnswer (some answer ∷ []) ("Operator" ∷ "Line" ∷ []) decoded (refl, (refl, tt))
      answer-decoded

-- A route with departures, and one without.
abbrev row : String → ℕ → Dict String (Json ℤ)
row route n =
    ("Operator", text "Dublin Bus")
    ∷ ("Line", text route)
    ∷ ("Year", int (pos 2024))
    ∷ ("Period", text "Period 1")
    ∷ ("on_time_pct", int (pos 1))
    ∷ ("actual_departures", int (pos n))
    ∷ []

abbrev families : List (String × List (Dict String (Json ℤ)))
families = ("lf", row "46A" 7 ∷ row "1" 0 ∷ []) ∷ []

abbrev records : List (RouteKey × Record R)
records =
    (
      ("Dublin Bus", ("1", (pos 2024, 1))),
      ("on_time_pct", missing)
          ∷ ("actual_departures", count (pos 0))
          ∷ ("early_pct", missing)
          ∷ ("late_pct", missing)
          ∷ [],
    )
    ∷ (
      ("Dublin Bus", ("46A", (pos 2024, 1))),
      ("on_time_pct", real (pos 100)) ∷ ("actual_departures", count (pos 7)) ∷ [],
    )
    ∷ []

families-normalized : normalize R (pos 2026) families ≡ some records
unfolding normalize add_families add_rows add_row key_of number period_of put_metrics put_metric
    metric_value records_of clear_percentages sort text_before strip lstrip rstrip is_space
    int_digits
families-normalized = refl

normalize-IsPublished_example : All (λ r. IsPublished R r.1) records
normalize-IsPublished_example =
    normalize-IsPublished R (pos 2026) families records families-normalized

-- Ids with a gap, and room for one batch of two only.
abbrev ids : List ℕ
ids = 4 ∷ 5 ∷ 9 ∷ []

abbrev has_room : ℕ → Bool
has_room n = nat_beq n 0

abbrev halfway : Progress
halfway = (archive 2 none ids has_room none).1

archive-IsCopied_example : IsCopied ids 3 halfway
archive-IsCopied_example = archive-IsCopied 2 none ids has_room 3 none (started-IsCopied ids 0)

halfway-IsCopied : IsCopied ids 3 halfway
halfway-IsCopied = archive-IsCopied 2 none ids has_room 3 none (started-IsCopied ids 0)

archive-ends_example : is_out_of_fuel (archive 2 (some 1) ids has_room none).0 ≡ false
archive-ends_example = archive-ends 2 (some 1) ids has_room (omega arith) none

-- The run that goes on from there.
archive_complete_example :
    let r = archive 2 none ids (λ n. true) (some halfway) in
    (r.0 ≡ stopped)
    × ((k : ℕ)
        → occurrences k r.1.copied
          ≡ (if in_range 3 halfway.target_id k then occurrences k ids else 0))
archive_complete_example =
    archive_complete 2 ids (λ n. true) (omega arith) (λ n. refl) 3 (some halfway) halfway-IsCopied
