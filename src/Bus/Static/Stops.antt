-- ===== src/Bus/Static/Stops.antt =====
-- The end of `_select_static_feed` in bus_daemon.py: stops.txt, and the stops that are selected.
pub mod Closure
use mathlib.Core.List.{List, [], ◌∷◌}
use irish_rail_nabber.Prelude.{
  ℕ, zero, suc, ◌+◌, String, Bool, true, false, Option, none, some, if◌then◌else◌, string_eq,
  contains, add, length,
}
use irish_rail_nabber.Prelude.Dict.{Dict, lookup, insert, keys, has_key}
use irish_rail_nabber.Prelude.Result.{Result, ok, err, ◌>>=◌}
use irish_rail_nabber.Python.Runtime.{Runtime}
use irish_rail_nabber.Bus.Error.{
  Error, feed_format, invalid_coordinates, missing_parent, key_error, out_of_fuel,
}
use irish_rail_nabber.Bus.Static.Csv.{Row, optional_field, required_field}
use irish_rail_nabber.Bus.Static.Tables.{Stop}

module _ (R : Runtime) where
  -- `float(row[field]) if row.get(field) else None`
  abbrev coordinate : Option String → Result Error (Option R.Float)
  coordinate none = ok none
  coordinate (some s) = elim (R.float_of_text s) [
    | none ↦ err (feed_format invalid_coordinates)
    | some x ↦ ok (some x)
  ]

  unfoldable pub stop_of : Row → Result Error (Stop R)
  stop_of row = do
    stop_id ← required_field R row "stop_id"
    stop_lat ← coordinate (optional_field "stop_lat" row)
    stop_lon ← coordinate (optional_field "stop_lon" row)
    ok (record {
      stop_id = stop_id;
      stop_code = optional_field "stop_code" row;
      stop_name = optional_field "stop_name" row;
      stop_lat = stop_lat;
      stop_lon = stop_lon;
      parent_station = optional_field "parent_station" row;
    })

  -- `all_stops`: a later row replaces an earlier one.
  unfoldable pub read_stops : List Row → Dict String (Stop R) → Result Error (Dict String (Stop R))
  unfolding stop_of
  read_stops [] d = ok d
  read_stops (row ∷ rows) d = do stop ← stop_of row; read_stops rows (insert stop.stop_id stop d)

  -- The parent of a stop; a stop that is not there is a `KeyError`.
  abbrev parent_of : Option (Stop R) → Result Error (Option String)
  parent_of none = err key_error
  parent_of (some stop) = ok stop.parent_station

  -- The `while` loop over `pending_stop_ids`. Which end of the list it takes from does not matter to
  -- the set that it builds; the model takes from the front.
  unfoldable pub close_over_parents :
      ℕ → Dict String (Stop R) → List String → List String → Result Error (List String)
  close_over_parents fuel all_stops [] selected = ok selected
  close_over_parents zero all_stops (stop_id ∷ pending) selected = err out_of_fuel
  close_over_parents (suc fuel) all_stops (stop_id ∷ pending) selected =
      parent_of (lookup stop_id all_stops) >>= elim [
        | none ↦ close_over_parents fuel all_stops pending selected
        | some parent ↦
            let new = close_over_parents fuel all_stops (parent ∷ pending) (parent ∷ selected) in
            let old = close_over_parents fuel all_stops pending selected in
            if has_key parent all_stops
            then (if contains parent selected then old else new)
            else err (feed_format missing_parent)
      ]

  -- Every round takes one stop, and every stop is added once.
  abbrev pub closing_fuel : Dict String (Stop R) → List String → ℕ
  closing_fuel all_stops pending = length pending + length (keys all_stops)
