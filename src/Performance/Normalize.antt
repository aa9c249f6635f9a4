-- ===== src/Performance/Normalize.antt =====
-- `number` and `normalize` of import_bus_performance.py. Where the code raises, the result is `none`.
pub mod Published
use mathlib.Core.List.{List, [], ◌∷◌}
use irish_rail_nabber.Prelude.{
  ℕ, zero, suc, String, Bool, true, false, not, ◌&&◌, ◌||◌, Option, none, some, nat_beq, leb, ltb,
  if◌then◌else◌, string_eq, pair_eq, nat_eq, Eq, ◌==◌, contains, option_bind, get_or,
}
use irish_rail_nabber.Prelude.Dict.{Dict, lookup, insert, keys}
use irish_rail_nabber.Prelude.Int.{ℤ, pos, int_eq, ltb_ℤ}
use irish_rail_nabber.Prelude.Sort.{sort}
use irish_rail_nabber.Python.Text.{is_empty, strip, int_digits, text_length, text_drop}
use irish_rail_nabber.Python.Replace.{starts_with}
use irish_rail_nabber.Python.Order.{text_before}
use irish_rail_nabber.Python.Runtime.{Runtime, Json, null, bool, int, float, text, array, object}

-- An operator, a route, a year and a period.
abbrev pub RouteKey : Type 0
RouteKey = String × (String × (ℤ × ℕ))

-- The value of a metric: missing, a number, or a count.
pub data Metric (F : Type 0) : Type 0 where
  missing : Metric F
  real : F → Metric F
  count : ℤ → Metric F

abbrev pub metrics : List String
metrics =
    "on_time_pct" ∷ "early_pct" ∷ "late_pct" ∷ "actual_departures" ∷ "excess_wait_minutes"
    ∷ "planned_km" ∷ "actual_km" ∷ "lost_km" ∷ "contractual_lost_km" ∷ []

-- `metric.endswith("_pct")`, for the metrics there are.
abbrev pub is_percentage : String → Bool
is_percentage metric = contains metric ("on_time_pct" ∷ "early_pct" ∷ "late_pct" ∷ [])

-- `a < b` of two keys.
abbrev pub key_before : RouteKey → RouteKey → Bool
key_before (operator, (route, (year, period))) (operator', (route', (year', period'))) =
    text_before operator operator'
    || ((operator == operator')
        && (text_before route route'
            || ((route == route')
                && (ltb_ℤ year year' || ((year == year') && ltb period period')))))

module _ (R : Runtime) where
  abbrev pub Record : Type 0
  Record = Dict String (Metric R.Float)

  abbrev finite : R.Float → Option (Option R.Float)
  finite x = if R.is_finite x then some (some x) else none

  -- `number`, with `some none` for `None`.
  unfoldable pub number : Json R.Float → Option (Option R.Float)
  number null = some none
  number (int n) = option_bind (R.float_of_int n) finite
  number (float x) = finite x
  number (text s) = option_bind (R.float_of_text s) finite
  number _ = none

  -- One or two digits, whose number is from 1 to 13.
  abbrev period_number : String → Option ℕ
  period_number digits =
      if leb 1 (text_length digits) && leb (text_length digits) 2
      then option_bind (int_digits R.digit 0 digits)
          (λ n. if leb 1 n && leb n 13 then some n else none)
      else none

  -- The period that `re.fullmatch(r"(?:Period |P)(\d{1,2})", period or "")` finds.
  unfoldable pub period_of : Json R.Float → Option ℕ
  period_of (text s) =
      if starts_with "Period " s
      then period_number (text_drop 7 s)
      else if starts_with "P" s
      then period_number (text_drop 1 s)
      else none
  period_of _ = none

  -- A text that is not blank.
  abbrev identity_of : Json R.Float → Option String
  identity_of (text s) = if is_empty (strip s) then none else some s
  identity_of _ = none

  abbrev year_of : ℤ → Option R.Float → Option ℤ
  year_of this_year none = none
  year_of this_year (some x) =
      if R.is_integer x && R.is_between (pos 2000) x this_year then R.int_of_float x else none

  -- The operator that a family means.
  abbrev operator_of : String → String → String
  operator_of family operator =
      if (family == "ewt") && (operator == "Bus Éireann") then "Bus Éireann DAC" else operator

  unfoldable pub key_of : ℤ → String → Dict String (Json R.Float) → Option RouteKey
  unfolding number period_of strip
  key_of this_year family raw =
      option_bind (option_bind (lookup "Operator" raw) identity_of) λ operator.
        option_bind (option_bind (lookup "Line" raw) identity_of) λ route.
          option_bind (option_bind (option_bind (lookup "Year" raw) number) (year_of this_year))
            λ year.
              option_bind (option_bind (lookup "Period" raw) period_of)
                λ period. some (strip (operator_of family operator), (strip route, (year, period)))

  abbrev departures : R.Float → Option (Metric R.Float)
  departures x =
      if R.is_negative x || not (R.is_integer x)
      then none
      else option_bind (R.int_of_float x) (λ n. some (count n))

  -- The value that a metric is recorded with.
  unfoldable pub metric_value : String → Option R.Float → Option (Metric R.Float)
  metric_value metric none = some missing
  metric_value metric (some x) =
      if is_percentage metric
      then if R.is_between (pos 0) x (pos 1) then some (real (R.percent x)) else none
      else if metric == "actual_departures"
      then departures x
      else some (real x)

  abbrev pub put_value : String → Record → Option (Metric R.Float) → Option Record
  put_value metric row none = none
  put_value metric row (some v) = some (insert metric v row)

  unfoldable pub put_metric : String → Option (Json R.Float) → Record → Option Record
  unfolding metric_value number
  put_metric metric none row = some row
  put_metric metric (some json) row =
      option_bind (number json) λ value. put_value metric row (metric_value metric value)

  -- The loop over the metrics.
  unfoldable pub put_metrics : List String → Dict String (Json R.Float) → Record → Option Record
  unfolding put_metric
  put_metrics [] raw row = some row
  put_metrics (metric ∷ ms) raw row =
      option_bind (put_metric metric (lookup metric raw) row) (put_metrics ms raw)

  abbrev pub Combined : Type 0
  Combined = Dict RouteKey Record

  -- A row whose key the family has not had, with the keys it has had since.
  unfoldable pub add_row :
      RouteKey
      → Dict String (Json R.Float)
      → List RouteKey
      → Combined
      → Option (List RouteKey × Combined)
  unfolding put_metrics
  add_row key raw seen combined =
      if contains key seen
      then none
      else (option_bind (put_metrics metrics raw (get_or (lookup key combined) []))
          λ row. some (key ∷ seen, insert key row combined))

  unfoldable pub add_rows :
      ℤ → String → List (Dict String (Json R.Float)) → List RouteKey → Combined → Option Combined
  unfolding add_row key_of
  add_rows this_year family [] seen combined = some combined
  add_rows this_year family (raw ∷ rows) seen combined =
      option_bind (key_of this_year family raw) λ key.
        option_bind (add_row key raw seen combined)
          λ next. add_rows this_year family rows next.0 next.1

  unfoldable pub add_families :
      ℤ → List (String × List (Dict String (Json R.Float))) → Combined → Option Combined
  unfolding add_rows
  add_families this_year [] combined = some combined
  add_families this_year (family ∷ families) combined =
      option_bind (add_rows this_year family.0 family.1 [] combined)
        (add_families this_year families)

  -- `row.get("actual_departures") in (None, 0)`
  abbrev pub has_no_departures : Option (Metric R.Float) → Bool
  has_no_departures none = true
  has_no_departures (some missing) = true
  has_no_departures (some (count n)) = n == pos 0
  has_no_departures (some (real x)) = R.float_is_zero x

  unfoldable pub clear_percentages : Record → Record
  clear_percentages row =
      if has_no_departures (lookup "actual_departures" row)
      then insert "late_pct" missing (insert "early_pct" missing (insert "on_time_pct" missing row))
      else row

  -- The keys in order, each with its record.
  unfoldable pub records_of : List RouteKey → Combined → List (RouteKey × Record)
  unfolding clear_percentages
  records_of [] combined = []
  records_of (key ∷ ks) combined =
      (key, clear_percentages (get_or (lookup key combined) [])) ∷ records_of ks combined

  -- `normalize`, with the year of the clock.
  unfoldable pub normalize :
      ℤ → List (String × List (Dict String (Json R.Float))) → Option (List (RouteKey × Record))
  unfolding add_families records_of sort text_before
  normalize this_year families =
      option_bind (add_families this_year families [])
        λ combined. some (records_of (sort key_before (keys combined)) combined)
