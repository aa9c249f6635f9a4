-- ===== src/Bus/Entity.antt =====
-- What `parse_realtime_feed` of bus_daemon.py reads of one entity.
use mathlib.Core.List.{List, [], ◌∷◌}
use irish_rail_nabber.Prelude.{String, Option, some, or_else, string_eq}
use irish_rail_nabber.Python.Date.{Date}
use irish_rail_nabber.Python.Runtime.{Runtime, object, Items, nil, cons, Fields}
use irish_rail_nabber.Bus.Scalars.{
  get, optional_text, optional_int, optional_float, trip_schedule_relationship,
  stop_schedule_relationship, vehicle_stop_status, congestion_level, occupancy_status,
  parse_timestamp, parse_service_date, as_mapping, as_items, normalized_start_time,
}
use irish_rail_nabber.Bus.Records.{
  ParsedTripFreshness, ParsedStopUpdate, ParsedVehiclePosition, or_text, stop_update_state_hash,
  vehicle_position_state_hash, trip_instance_key, vehicle_instance_key,
}

module _ (R : Runtime) where
  -- `replace(update, update_hash=_stop_update_state_hash(update))`
  unfoldable pub hash_stop_update : ParsedStopUpdate R → ParsedStopUpdate R
  hash_stop_update u = record u { update_hash = stop_update_state_hash R u }

  -- `replace(position, update_hash=_vehicle_position_state_hash(position))`
  unfoldable pub hash_vehicle_position : ParsedVehiclePosition R → ParsedVehiclePosition R
  hash_vehicle_position p = record p { update_hash = vehicle_position_state_hash R p }

  -- The part of `_parse_trip_update_entity` above its loop: what every stop of the trip shares.
  pub record TripContext : Type 0 where
    pub entity_id : Option String
    pub service_date : Option Date
    pub vehicle_id : Option String
    pub freshness : ParsedTripFreshness R

  unfoldable pub trip_context : Fields R.Float → Fields R.Float → Option R.DateTime → TripContext
  trip_context entity trip_update header_timestamp =
      let trip = as_mapping R (get R (some trip_update) ("trip" ∷ [])) in
      let vehicle = as_mapping R (get R (some trip_update) ("vehicle" ∷ [])) in
      let entity_id = optional_text R (get R (some entity) ("id" ∷ [])) in
      let trip_id = optional_text R (get R trip ("tripId" ∷ [])) in
      let route_id = optional_text R (get R trip ("routeId" ∷ [])) in
      let service_date = parse_service_date R (get R trip ("startDate" ∷ [])) in
      let start_time = normalized_start_time R (get R trip ("startTime" ∷ [])) in
      let vehicle_id = optional_text R (get R vehicle ("id" ∷ [])) in
      record {
        entity_id = entity_id;
        service_date = service_date;
        vehicle_id = vehicle_id;
        freshness = record {
          trip_instance_key =
              trip_instance_key R entity_id trip_id route_id service_date start_time vehicle_id;
          trip_id = trip_id;
          route_id = route_id;
          source_timestamp =
              or_else (parse_timestamp R (get R (some trip_update) ("timestamp" ∷ [])))
                header_timestamp;
          schedule_relationship =
              trip_schedule_relationship R (get R trip ("scheduleRelationship" ∷ []));
        };
      }

  -- One round of the loop over `stopTimeUpdate`.
  unfoldable pub parse_stop_update : TripContext → Fields R.Float → ParsedStopUpdate R
  unfolding hash_stop_update
  parse_stop_update c stop_update =
      let arrival = as_mapping R (get R (some stop_update) ("arrival" ∷ [])) in
      let departure = as_mapping R (get R (some stop_update) ("departure" ∷ [])) in
      hash_stop_update (record {
        entity_id = c.entity_id;
        trip_id = c.freshness.trip_id;
        route_id = c.freshness.route_id;
        service_date = c.service_date;
        vehicle_id = c.vehicle_id;
        trip_instance_key = c.freshness.trip_instance_key;
        stop_id = optional_text R (get R (some stop_update) ("stopId" ∷ []));
        stop_sequence = optional_int R (get R (some stop_update) ("stopSequence" ∷ []));
        schedule_relationship = some (
            or_text
              (stop_schedule_relationship R
                (get R (some stop_update) ("scheduleRelationship" ∷ [])))
              c.freshness.schedule_relationship);
        arrival_time = parse_timestamp R (get R arrival ("time" ∷ []));
        departure_time = parse_timestamp R (get R departure ("time" ∷ []));
        arrival_delay_seconds = optional_int R (get R arrival ("delay" ∷ []));
        departure_delay_seconds = optional_int R (get R departure ("delay" ∷ []));
        update_hash = "";
        source_timestamp = c.freshness.source_timestamp;
      })

  -- An item that is no mapping is passed over.
  unfoldable pub parse_stop_updates : TripContext → Items R.Float → List (ParsedStopUpdate R)
  parse_stop_updates c nil = []
  parse_stop_updates c (cons (object fs) rest) = parse_stop_update c fs ∷ parse_stop_updates c rest
  parse_stop_updates c (cons _ rest) = parse_stop_updates c rest

  -- `_parse_trip_update_entity`
  unfoldable pub parse_trip_update_entity :
      Fields R.Float
      → Fields R.Float
      → Option R.DateTime
      → ParsedTripFreshness R × List (ParsedStopUpdate R)
  unfolding trip_context parse_stop_updates
  parse_trip_update_entity entity trip_update header_timestamp =
      let c = trip_context entity trip_update header_timestamp in
      (
        c.freshness,
        parse_stop_updates c (as_items R (get R (some trip_update) ("stopTimeUpdate" ∷ []))),
      )

  -- `_parse_vehicle_position_entity`
  unfoldable pub parse_vehicle_position_entity :
      Fields R.Float → Fields R.Float → Option R.DateTime → ParsedVehiclePosition R
  unfolding hash_vehicle_position
  parse_vehicle_position_entity entity vehicle_position header_timestamp =
      let trip = as_mapping R (get R (some vehicle_position) ("trip" ∷ [])) in
      let vehicle = as_mapping R (get R (some vehicle_position) ("vehicle" ∷ [])) in
      let position = as_mapping R (get R (some vehicle_position) ("position" ∷ [])) in
      let entity_id = optional_text R (get R (some entity) ("id" ∷ [])) in
      let trip_id = optional_text R (get R trip ("tripId" ∷ [])) in
      let route_id = optional_text R (get R trip ("routeId" ∷ [])) in
      let service_date = parse_service_date R (get R trip ("startDate" ∷ [])) in
      let start_time = normalized_start_time R (get R trip ("startTime" ∷ [])) in
      let vehicle_id = optional_text R (get R vehicle ("id" ∷ [])) in
      let vehicle_label = optional_text R (get R vehicle ("label" ∷ [])) in
      let trip_key =
        trip_instance_key R entity_id trip_id route_id service_date start_time vehicle_id in
      hash_vehicle_position (record {
        entity_id = entity_id;
        vehicle_instance_key = vehicle_instance_key R vehicle_id vehicle_label entity_id trip_key;
        vehicle_id = vehicle_id;
        vehicle_label = vehicle_label;
        license_plate = optional_text R (get R vehicle ("licensePlate" ∷ []));
        trip_instance_key = trip_key;
        trip_id = trip_id;
        route_id = route_id;
        service_date = service_date;
        schedule_relationship =
            trip_schedule_relationship R (get R trip ("scheduleRelationship" ∷ []));
        latitude = optional_float R (get R position ("latitude" ∷ []));
        longitude = optional_float R (get R position ("longitude" ∷ []));
        bearing = optional_float R (get R position ("bearing" ∷ []));
        speed = optional_float R (get R position ("speed" ∷ []));
        current_stop_sequence =
            optional_int R (get R (some vehicle_position) ("currentStopSequence" ∷ []));
        stop_id = optional_text R (get R (some vehicle_position) ("stopId" ∷ []));
        current_status =
            vehicle_stop_status R (get R (some vehicle_position) ("currentStatus" ∷ []));
        congestion_level =
            congestion_level R (get R (some vehicle_position) ("congestionLevel" ∷ []));
        occupancy_status =
            occupancy_status R (get R (some vehicle_position) ("occupancyStatus" ∷ []));
        occupancy_percentage =
            optional_int R (get R (some vehicle_position) ("occupancyPercentage" ∷ []));
        update_hash = "";
        source_timestamp =
            or_else (parse_timestamp R (get R (some vehicle_position) ("timestamp" ∷ [])))
              header_timestamp;
      })
