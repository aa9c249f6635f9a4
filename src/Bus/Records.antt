-- ===== src/Bus/Records.antt =====
-- The dataclasses of the realtime feed in bus_daemon.py, their hashes and their keys.
use mathlib.Core.List.{List, [], ◌∷◌}
use Prim.Native.String.{◌++◌}
use irish_rail_nabber.Prelude.{
  String, Bool, true, false, not, ◌||◌, Option, none, some, nat_beq, if◌then◌else◌, or_else,
}
use irish_rail_nabber.Prelude.Int.{ℤ, pos}
use irish_rail_nabber.Python.Text.{is_empty}
use irish_rail_nabber.Python.Date.{Date}
use irish_rail_nabber.Python.Runtime.{Runtime, Scalar, absent, str, num, real, day, moment}
use irish_rail_nabber.Bus.Scalars.{StartTime, seconds, raw}

pub record ParsedTripFreshness (R : Runtime) : Type 0 where
  pub trip_instance_key : String
  pub trip_id : Option String
  pub route_id : Option String
  pub source_timestamp : Option R.DateTime
  pub schedule_relationship : String

pub record ParsedStopUpdate (R : Runtime) : Type 0 where
  pub entity_id : Option String
  pub trip_id : Option String
  pub route_id : Option String
  pub service_date : Option Date
  pub vehicle_id : Option String
  pub trip_instance_key : String
  pub stop_id : Option String
  pub stop_sequence : Option ℤ
  pub schedule_relationship : Option String
  pub arrival_time : Option R.DateTime
  pub departure_time : Option R.DateTime
  pub arrival_delay_seconds : Option ℤ
  pub departure_delay_seconds : Option ℤ
  pub update_hash : String
  pub source_timestamp : Option R.DateTime

pub record ParsedVehiclePosition (R : Runtime) : Type 0 where
  pub entity_id : Option String
  pub vehicle_instance_key : String
  pub vehicle_id : Option String
  pub vehicle_label : Option String
  pub license_plate : Option String
  pub trip_instance_key : String
  pub trip_id : Option String
  pub route_id : Option String
  pub service_date : Option Date
  pub schedule_relationship : String
  pub latitude : Option R.Float
  pub longitude : Option R.Float
  pub bearing : Option R.Float
  pub speed : Option R.Float
  pub current_stop_sequence : Option ℤ
  pub stop_id : Option String
  pub current_status : Option String
  pub congestion_level : Option String
  pub occupancy_status : Option String
  pub occupancy_percentage : Option ℤ
  pub update_hash : String
  pub source_timestamp : Option R.DateTime

pub record ParsedRealtimeFeed (R : Runtime) : Type 0 where
  pub incrementality : String
  pub stop_updates : List (ParsedStopUpdate R)
  pub trip_freshness : List (ParsedTripFreshness R)
  pub vehicle_positions : List (ParsedVehiclePosition R)

module _ {F D : Type 0} where
  abbrev opt_str : Option String → Scalar F D
  opt_str none = absent
  opt_str (some s) = str s

  abbrev opt_num : Option ℤ → Scalar F D
  opt_num none = absent
  opt_num (some n) = num n

  abbrev opt_real : Option F → Scalar F D
  opt_real none = absent
  opt_real (some x) = real x

  abbrev opt_day : Option Date → Scalar F D
  opt_day none = absent
  opt_day (some d) = day d

  abbrev opt_moment : Option D → Scalar F D
  opt_moment none = absent
  opt_moment (some d) = moment d

  abbrev opt_start : Option StartTime → Scalar F D
  opt_start none = absent
  opt_start (some (seconds n)) = num (pos n)
  opt_start (some (raw s)) = str s

-- `text or other`, where the text may be `None` or empty.
abbrev pub or_text : Option String → String → String
or_text none other = other
or_text (some s) other = if is_empty s then other else s

-- Python's truth of a text, a date and a start time that may be `None`.
abbrev truthy_text : Option String → Bool
truthy_text none = false
truthy_text (some s) = not (is_empty s)

abbrev truthy_date : Option Date → Bool
truthy_date none = false
truthy_date (some d) = true

abbrev truthy_start : Option StartTime → Bool
truthy_start none = false
truthy_start (some (seconds n)) = not (nat_beq n 0)
truthy_start (some (raw s)) = not (is_empty s)

module _ (R : Runtime) where
  abbrev key_of : Option ℤ → Option String → String
  key_of (some n) s = "sequence:" ++ R.int_text n
  key_of none (some s) = "stop_id:" ++ s
  key_of none none = "unknown"

  -- `ParsedStopUpdate.stop_key`
  unfoldable pub stop_key : ParsedStopUpdate R → String
  stop_key update = key_of update.stop_sequence update.stop_id

  -- `ParsedStopUpdate.state_key`
  unfoldable pub state_key : ParsedStopUpdate R → String × String
  unfolding stop_key
  state_key update = (update.trip_instance_key, stop_key update)

  -- `ParsedStopUpdate.delay_seconds`
  unfoldable pub delay_seconds : ParsedStopUpdate R → Option ℤ
  delay_seconds update = or_else update.departure_delay_seconds update.arrival_delay_seconds

  -- `_stop_update_state_hash`
  unfoldable pub stop_update_state_hash : ParsedStopUpdate R → String
  stop_update_state_hash u = R.payload_digest (
      ("entity_id", opt_str u.entity_id)
      ∷ ("trip_id", opt_str u.trip_id)
      ∷ ("route_id", opt_str u.route_id)
      ∷ ("service_date", opt_day u.service_date)
      ∷ ("vehicle_id", opt_str u.vehicle_id)
      ∷ ("trip_instance_key", str u.trip_instance_key)
      ∷ ("stop_id", opt_str u.stop_id)
      ∷ ("stop_sequence", opt_num u.stop_sequence)
      ∷ ("schedule_relationship", opt_str u.schedule_relationship)
      ∷ ("arrival_time", opt_moment u.arrival_time)
      ∷ ("departure_time", opt_moment u.departure_time)
      ∷ ("arrival_delay_seconds", opt_num u.arrival_delay_seconds)
      ∷ ("departure_delay_seconds", opt_num u.departure_delay_seconds)
      ∷ [])

  -- `_vehicle_position_state_hash`
  unfoldable pub vehicle_position_state_hash : ParsedVehiclePosition R → String
  vehicle_position_state_hash p = R.payload_digest (
      ("entity_id", opt_str p.entity_id)
      ∷ ("vehicle_instance_key", str p.vehicle_instance_key)
      ∷ ("vehicle_id", opt_str p.vehicle_id)
      ∷ ("vehicle_label", opt_str p.vehicle_label)
      ∷ ("license_plate", opt_str p.license_plate)
      ∷ ("trip_instance_key", str p.trip_instance_key)
      ∷ ("trip_id", opt_str p.trip_id)
      ∷ ("route_id", opt_str p.route_id)
      ∷ ("service_date", opt_day p.service_date)
      ∷ ("schedule_relationship", str p.schedule_relationship)
      ∷ ("latitude", opt_real p.latitude)
      ∷ ("longitude", opt_real p.longitude)
      ∷ ("bearing", opt_real p.bearing)
      ∷ ("speed", opt_real p.speed)
      ∷ ("current_stop_sequence", opt_num p.current_stop_sequence)
      ∷ ("stop_id", opt_str p.stop_id)
      ∷ ("current_status", opt_str p.current_status)
      ∷ ("congestion_level", opt_str p.congestion_level)
      ∷ ("occupancy_status", opt_str p.occupancy_status)
      ∷ ("occupancy_percentage", opt_num p.occupancy_percentage)
      ∷ [])

  -- The dictionary that `_trip_instance_key` hashes.
  unfoldable pub trip_instance_fields :
      Option String
      → Option String
      → Option String
      → Option Date
      → Option StartTime
      → Option String
      → List (String × Scalar R.Float R.DateTime)
  trip_instance_fields (some e) trip_id route_id service_date start_time vehicle_id =
      ("entity_id", str e)
      ∷ ("service_date", opt_day service_date)
      ∷ ("start_time", opt_start start_time)
      ∷ []
  trip_instance_fields none trip_id route_id service_date start_time vehicle_id =
      if truthy_text trip_id
        || truthy_text route_id
        || truthy_date service_date
        || truthy_start start_time
      then ("trip_id", opt_str trip_id)
        ∷ ("route_id", opt_str route_id)
        ∷ ("service_date", opt_day service_date)
        ∷ ("start_time", opt_start start_time)
        ∷ []
      else ("vehicle_id", opt_str vehicle_id) ∷ []

  -- `_trip_instance_key`
  unfoldable pub trip_instance_key :
      Option String
      → Option String
      → Option String
      → Option Date
      → Option StartTime
      → Option String
      → String
  unfolding trip_instance_fields
  trip_instance_key e t r d s v = R.payload_digest (trip_instance_fields e t r d s v)

  -- `_vehicle_instance_key`
  unfoldable pub vehicle_instance_key :
      Option String → Option String → Option String → String → String
  vehicle_instance_key (some v) label e key = R.payload_digest (("vehicle_id", str v) ∷ [])
  vehicle_instance_key none (some l) e key = R.payload_digest (("vehicle_label", str l) ∷ [])
  vehicle_instance_key none none (some e) key = R.payload_digest (("entity_id", str e) ∷ [])
  vehicle_instance_key none none none key = R.payload_digest (("trip_instance_key", str key) ∷ [])
