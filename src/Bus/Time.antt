-- ===== src/Bus/Time.antt =====
-- `parse_gtfs_time` of bus_daemon.py.
pub mod Clock
use mathlib.Core.List.{List, [], ◌∷◌}
use irish_rail_nabber.Prelude.{
  ℕ, ◌+◌, ◌*◌, String, Bool, ◌&&◌, ◌||◌, not, Option, none, some, ltb, if◌then◌else◌,
}
use irish_rail_nabber.Prelude.Result.{Result, ok, err}
use irish_rail_nabber.Python.Text.{is_empty, strip, split_on, all_chars, int_digits}
use irish_rail_nabber.Python.Runtime.{Runtime}
use irish_rail_nabber.Bus.Error.{Error, value_error}

module _ (R : Runtime) where
  -- `part.isdigit()`
  unfoldable pub is_digits : String → Bool
  is_digits part = not (is_empty part) && all_chars R.is_digit part

  -- The checks on the three numbers; `none` is a part that `int` refuses.
  unfoldable pub clock_seconds : Option ℕ → Option ℕ → Option ℕ → Result Error (Option ℕ)
  clock_seconds (some hours) (some minutes) (some seconds) =
      if ltb 59 minutes || ltb 59 seconds
      then err value_error
      else ok (some (hours * 3600 + minutes * 60 + seconds))
  clock_seconds _ _ _ = err value_error

  unfoldable pub parse_parts : List String → Result Error (Option ℕ)
  unfolding is_digits clock_seconds int_digits
  parse_parts (h ∷ m ∷ s ∷ []) =
      if is_digits h && is_digits m && is_digits s
      then clock_seconds (int_digits R.digit 0 h) (int_digits R.digit 0 m) (int_digits R.digit 0 s)
      else err value_error
  parse_parts _ = err value_error

  unfoldable pub parse_gtfs_time : Option String → Result Error (Option ℕ)
  unfolding parse_parts strip split_on
  parse_gtfs_time none = ok none
  parse_gtfs_time (some value) =
      let cleaned = strip value in
      if is_empty cleaned then ok none else parse_parts (split_on b':' cleaned)
