-- ===== src/Bus/Scalars.antt =====
-- The readers of single JSON values in bus_daemon.py, from `_canonical_key` to
-- `_normalized_incrementality`.
use mathlib.Core.List.{List, [], ◌∷◌, map}
use irish_rail_nabber.Prelude.{
  ℕ, String, Bool, true, false, not, ◌&&◌, Option, none, some, ◌==◌, string_eq, contains, nat_beq,
  if◌then◌else◌, option_bind,
}
use irish_rail_nabber.Prelude.Int.{ℤ, pos, int_eq}
use irish_rail_nabber.Prelude.Result.{Result, ok, err}
use irish_rail_nabber.Python.Text.{
  is_empty, strip, keep_chars, int_of_text, int_digits, text_length, text_take, text_drop,
  replace_z,
}
use irish_rail_nabber.Python.Date.{Date, make_date}
use irish_rail_nabber.Python.Runtime.{
  Runtime, Json, null, bool, int, float, text, array, object, Items, nil, cons, Fields, end, field,
  Stamp, instant, value_error, overflow_error,
}
use irish_rail_nabber.Bus.Error.{Error}
use irish_rail_nabber.Bus.Enums.{
  named, trip_relationships, stop_relationships, stop_statuses, congestion_levels,
  occupancy_statuses,
}
use irish_rail_nabber.Bus.Time.{is_digits, parse_gtfs_time}

-- `datetime.fromtimestamp` where every failure is caught.
abbrev pub instant? : {D : Type 0} → Stamp D → Option D
instant? (instant d) = some d
instant? value_error = none
instant? overflow_error = none

module _ (R : Runtime) where
  -- `str(value)`
  unfoldable pub str_of : Json R.Float → String
  str_of null = "None"
  str_of (bool true) = "True"
  str_of (bool false) = "False"
  str_of (int n) = R.int_text n
  str_of (float x) = R.float_text x
  str_of (text s) = s
  str_of (array xs) = R.repr (array xs)
  str_of (object fs) = R.repr (object fs)

  -- The keys of an object are texts.
  unfoldable pub canonical_key : String → String
  canonical_key value = keep_chars R.is_alnum (R.lower value)

  unfoldable pub find_field : List String → Fields R.Float → Json R.Float
  unfolding canonical_key
  find_field wanted end = null
  find_field wanted (field key value rest) =
      if contains (canonical_key key) wanted then value else find_field wanted rest

  -- `_get`
  unfoldable pub get : Option (Fields R.Float) → List String → Json R.Float
  unfolding find_field canonical_key
  get none names = null
  get (some mapping) names = find_field (map canonical_key names) mapping

  -- `_optional_text`
  unfoldable pub optional_text : Json R.Float → Option String
  unfolding str_of strip
  optional_text null = none
  optional_text value =
      let cleaned = strip (str_of value) in if is_empty cleaned then none else some cleaned

  -- `_optional_int`: `none` also for texts and floats that `int` refuses.
  unfoldable pub optional_int : Json R.Float → Option ℤ
  unfolding int_of_text
  optional_int (int n) = some n
  optional_int (float x) = R.int_of_float x
  optional_int (text s) = if is_empty s then none else int_of_text R.digit s
  optional_int _ = none

  -- `_optional_float`
  unfoldable pub optional_float : Json R.Float → Option R.Float
  optional_float (int n) = R.float_of_int n
  optional_float (float x) = some x
  optional_float (text s) = if is_empty s then none else R.float_of_text s
  optional_float _ = none

  -- `_enum_text`
  unfoldable pub enum_text : Json R.Float → Option String
  unfolding optional_text
  enum_text value = option_bind (optional_text value) λ cleaned. some (R.upper cleaned)

  -- `_trip_schedule_relationship`
  unfoldable pub trip_schedule_relationship : Json R.Float → String
  unfolding enum_text
  trip_schedule_relationship value = elim (enum_text value) [
    | none ↦ "SCHEDULED"
    | some r ↦ named trip_relationships r
  ]

  -- `_stop_schedule_relationship`
  unfoldable pub stop_schedule_relationship : Json R.Float → Option String
  unfolding enum_text
  stop_schedule_relationship value =
      option_bind (enum_text value) λ r. some (named stop_relationships r)

  -- `_vehicle_stop_status`
  unfoldable pub vehicle_stop_status : Json R.Float → Option String
  unfolding enum_text
  vehicle_stop_status value = option_bind (enum_text value) λ s. some (named stop_statuses s)

  -- `_congestion_level`
  unfoldable pub congestion_level : Json R.Float → Option String
  unfolding enum_text
  congestion_level value = option_bind (enum_text value) λ l. some (named congestion_levels l)

  -- `_occupancy_status`
  unfoldable pub occupancy_status : Json R.Float → Option String
  unfolding enum_text
  occupancy_status value = option_bind (enum_text value) λ s. some (named occupancy_statuses s)

  -- A text is first read as a number of seconds: only a `ValueError` there, of `float` or of
  -- `fromtimestamp`, leads on to ISO 8601.
  unfoldable pub text_timestamp : String → Option R.DateTime
  text_timestamp cleaned = elim (R.float_of_text cleaned) [
    | none ↦ R.utc_of_iso (replace_z cleaned)
    | some x ↦ elim (R.timestamp_of_float x) [
      | instant d ↦ some d
      | value_error ↦ R.utc_of_iso (replace_z cleaned)
      | overflow_error ↦ none
    ]
  ]

  -- `_parse_timestamp`
  unfoldable pub parse_timestamp : Json R.Float → Option R.DateTime
  unfolding str_of strip text_timestamp
  parse_timestamp null = none
  parse_timestamp (bool b) = none
  parse_timestamp (int n) = instant? (R.timestamp_of_int n)
  parse_timestamp (float x) = instant? (R.timestamp_of_float x)
  parse_timestamp value =
      let cleaned = strip (str_of value) in
      if is_empty cleaned then none else text_timestamp cleaned

  -- `date(int(text[:4]), int(text[4:6]), int(text[6:]))`
  unfoldable pub compact_date : String → Option Date
  unfolding int_digits make_date
  compact_date s = option_bind (int_digits R.digit 0 (text_take 4 s)) λ year.
      option_bind (int_digits R.digit 0 (text_take 2 (text_drop 4 s)))
        λ month. option_bind (int_digits R.digit 0 (text_drop 6 s)) λ day. make_date year month day

  unfoldable pub text_date : String → Option Date
  unfolding compact_date is_digits
  text_date cleaned =
      if nat_beq (text_length cleaned) 8 && is_digits R cleaned
      then compact_date cleaned
      else R.date_of_iso cleaned

  -- `_parse_service_date`
  unfoldable pub parse_service_date : Json R.Float → Option Date
  unfolding optional_text text_date
  parse_service_date value = option_bind (optional_text value) text_date

  -- `_as_mapping`
  unfoldable pub as_mapping : Json R.Float → Option (Fields R.Float)
  as_mapping (object fs) = some fs
  as_mapping _ = none

  -- `_as_items`
  unfoldable pub as_items : Json R.Float → Items R.Float
  as_items (array xs) = xs
  as_items (object fs) = cons (object fs) nil
  as_items _ = nil

  -- `_is_true`
  unfoldable pub is_true : Json R.Float → Bool
  unfolding str_of strip
  is_true (bool b) = b
  is_true (int n) = not (n == pos 0)
  is_true (float x) = not (R.float_is_zero x)
  is_true value = contains (R.lower (strip (str_of value))) ("1" ∷ "true" ∷ "yes" ∷ [])

-- `_normalized_start_time` returns seconds, or the text itself where it is no GTFS time.
pub data StartTime : Type 0 where
  seconds : ℕ → StartTime
  raw : String → StartTime

abbrev start_time_of : String → Result Error (Option ℕ) → Option StartTime
start_time_of cleaned (ok (some n)) = some (seconds n)
start_time_of cleaned (ok none) = none
start_time_of cleaned (err e) = some (raw cleaned)

module _ (R : Runtime) where
  -- `_normalized_start_time`
  unfoldable pub normalized_start_time : Json R.Float → Option StartTime
  unfolding optional_text parse_gtfs_time
  normalized_start_time value =
      option_bind (optional_text R value)
        λ cleaned. start_time_of cleaned (parse_gtfs_time R (some cleaned))

  -- `_normalized_incrementality`
  unfoldable pub normalized_incrementality : Json R.Float → String
  unfolding enum_text
  normalized_incrementality value = elim (enum_text R value) [
    | none ↦ "FULL_DATASET"
    | some i ↦
        if contains i ("0" ∷ "FULL_DATASET" ∷ [])
        then "FULL_DATASET"
        else if contains i ("1" ∷ "DIFFERENTIAL" ∷ [])
        then "DIFFERENTIAL"
        else i
  ]
