-- ===== src/Bus/Feed.antt =====
-- `parse_realtime_feed` of bus_daemon.py: the loop over the entities of a feed.
pub mod Consistent
use mathlib.Core.List.{List, [], ◌∷◌, ◌++◌}
use irish_rail_nabber.Prelude.{String, Option, none, some, if◌then◌else◌, string_eq}
use irish_rail_nabber.Prelude.Dict.{Dict, insert, values}
use irish_rail_nabber.Prelude.Result.{Result, ok, err}
use irish_rail_nabber.Python.Runtime.{Runtime, Json, object, Items, nil, cons, Fields}
use irish_rail_nabber.Bus.Error.{Error, value_error}
use irish_rail_nabber.Bus.Scalars.{
  get, parse_timestamp, as_mapping, as_items, is_true, normalized_incrementality,
}
use irish_rail_nabber.Bus.Records.{
  ParsedTripFreshness, ParsedStopUpdate, ParsedVehiclePosition, ParsedRealtimeFeed,
}
use irish_rail_nabber.Bus.Entity.{parse_trip_update_entity, parse_vehicle_position_entity}

module _ (R : Runtime) where
  -- The variables of the loop over the entities.
  pub record Parsed : Type 0 where
    pub updates : List (ParsedStopUpdate R)
    pub trip_freshness : Dict String (ParsedTripFreshness R)
    pub vehicle_positions : List (ParsedVehiclePosition R)

  unfoldable pub add_trip_update :
      Fields R.Float → Option (Fields R.Float) → Option R.DateTime → Parsed → Parsed
  add_trip_update entity none header_timestamp s = s
  add_trip_update entity (some trip_update) header_timestamp s =
      let (freshness, entity_updates) =
        parse_trip_update_entity R entity trip_update header_timestamp in
      record s {
        updates = s.updates ++ entity_updates;
        trip_freshness = insert freshness.trip_instance_key freshness s.trip_freshness;
      }

  unfoldable pub add_vehicle :
      Fields R.Float → Option (Fields R.Float) → Option R.DateTime → Parsed → Parsed
  add_vehicle entity none header_timestamp s = s
  add_vehicle entity (some vehicle_position) header_timestamp s = record s {
    vehicle_positions =
        s.vehicle_positions
        ++ parse_vehicle_position_entity R entity vehicle_position header_timestamp ∷ [];
  }

  unfoldable pub add_entity : Fields R.Float → Option R.DateTime → Parsed → Parsed
  unfolding add_trip_update add_vehicle
  add_entity entity header_timestamp s =
      if is_true R (get R (some entity) ("isDeleted" ∷ []))
      then s
      else add_vehicle entity (as_mapping R (get R (some entity) ("vehicle" ∷ []))) header_timestamp
          (add_trip_update entity (as_mapping R (get R (some entity) ("tripUpdate" ∷ [])))
            header_timestamp s)

  unfoldable pub add_entities : Items R.Float → Option R.DateTime → Parsed → Parsed
  add_entities nil header_timestamp s = s
  add_entities (cons (object fs) rest) header_timestamp s =
      add_entities rest header_timestamp (add_entity fs header_timestamp s)
  add_entities (cons _ rest) header_timestamp s = add_entities rest header_timestamp s

  abbrev pub nothing_parsed : Parsed
  nothing_parsed = record { updates = []; trip_freshness = []; vehicle_positions = [] }

  unfoldable pub parse_feed_mapping : Fields R.Float → ParsedRealtimeFeed R
  unfolding add_entities
  parse_feed_mapping decoded =
      let header = as_mapping R (get R (some decoded) ("header" ∷ [])) in
      let header_timestamp = parse_timestamp R (get R header ("timestamp" ∷ [])) in
      let s =
        add_entities (as_items R (get R (some decoded) ("entity" ∷ "entities" ∷ [])))
          header_timestamp nothing_parsed in
      record {
        incrementality = normalized_incrementality R (get R header ("incrementality" ∷ []));
        stop_updates = s.updates;
        trip_freshness = values s.trip_freshness;
        vehicle_positions = s.vehicle_positions;
      }

  unfoldable pub parse_decoded : Json R.Float → Result Error (ParsedRealtimeFeed R)
  unfolding parse_feed_mapping
  parse_decoded (object fs) = ok (parse_feed_mapping fs)
  parse_decoded _ = err value_error

  -- `parse_realtime_feed` of the text of a response: the text is decoded first.
  unfoldable pub decode_loaded : Option (Json R.Float) → Result Error (ParsedRealtimeFeed R)
  unfolding parse_decoded
  decode_loaded none = err value_error
  decode_loaded (some decoded) = parse_decoded decoded

  unfoldable pub parse_realtime_feed : String → Result Error (ParsedRealtimeFeed R)
  unfolding decode_loaded
  parse_realtime_feed payload = decode_loaded (R.json_loads payload)
