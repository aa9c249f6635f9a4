-- ===== src/Rail/Late.antt =====
-- `_time_to_minutes` and `normalize_late_minutes` of daemon.py.
pub mod Bounds
use mathlib.Core.List.{List, [], ◌∷◌}
use irish_rail_nabber.Prelude.{
  ℕ, String, Bool, true, false, not, ◌&&◌, Option, none, some, ltb, if◌then◌else◌, string_eq, ◌==◌,
  option_bind,
}
use irish_rail_nabber.Prelude.Int.{ℤ, pos, negsuc, ltb_ℤ, int_eq, add_ℤ, scale_ℤ, abs_ℤ}
use irish_rail_nabber.Python.Text.{is_empty, strip, split_on, int_of_text}
use irish_rail_nabber.Python.Runtime.{Runtime}

-- `a or b`, where `None` and 0 are false.
abbrev pub or_minutes : Option ℤ → Option ℤ → Option ℤ
or_minutes none b = b
or_minutes (some n) b = if n == pos 0 then b else some n

-- `value if value != "00:00" else None`
abbrev pub unless_midnight : Option String → Option String
unless_midnight none = none
unless_midnight (some s) = if s == "00:00" then none else some s

-- `expected < scheduled`, where both are known.
abbrev pub is_wrapped : Option ℤ → Option ℤ → Bool
is_wrapped (some scheduled) (some expected) = ltb_ℤ expected scheduled
is_wrapped _ _ = false

module _ (R : Runtime) where
  abbrev minutes_of_parts : List String → Option ℤ
  minutes_of_parts (h ∷ m ∷ rest) = option_bind (int_of_text R.digit h) λ hours.
      option_bind (int_of_text R.digit m) λ minutes. some (add_ℤ (scale_ℤ 60 hours) minutes)
  minutes_of_parts _ = none

  -- `_time_to_minutes`
  unfoldable pub time_to_minutes : Option String → Option ℤ
  time_to_minutes none = none
  time_to_minutes (some s) = if is_empty s then none else minutes_of_parts (split_on b':' (strip s))

  unfoldable pub scheduled_minutes : Option String → Option String → Option ℤ
  scheduled_minutes arrival departure = or_minutes (time_to_minutes (unless_midnight arrival)) (
      or_minutes (time_to_minutes (unless_midnight departure))
        (or_minutes (time_to_minutes arrival) (time_to_minutes departure)))

  unfoldable pub expected_minutes : Option String → Option String → Option ℤ
  expected_minutes arrival departure =
      or_minutes (time_to_minutes arrival) (time_to_minutes departure)

  -- `normalize_late_minutes`
  unfoldable pub normalize_late_minutes :
      Option ℤ → Option String → Option String → Option String → Option String → Option ℤ
  normalize_late_minutes none scheduled_arrival scheduled_departure expected_arrival
        expected_departure =
      none
  normalize_late_minutes (some late) scheduled_arrival scheduled_departure expected_arrival
        expected_departure =
      let scheduled = scheduled_minutes scheduled_arrival scheduled_departure in
      let expected = expected_minutes expected_arrival expected_departure in
      if ltb 720 (abs_ℤ late)
      then none
      else if ltb_ℤ late (negsuc 59) && is_wrapped scheduled expected
      then none
      else some late
