-- ===== src/Bus/Error.antt =====
-- The exceptions of bus_daemon.py. `FeedFormatError` is a `ValueError`; its texts are not modelled,
-- only which check raised it.
pub data Reason : Type 0 where
  missing_member no_header missing_field invalid_integer invalid_number : Reason
  no_agencies agency_id_required repeated_agency : Reason
  no_route_agency no_routes missing_agencies : Reason
  no_trips no_stop_times invalid_time : Reason
  negative_sequence invalid_latitude invalid_longitude invalid_distance missing_shapes : Reason
  invalid_coordinates missing_stops missing_parent : Reason
  not_full_dataset : Reason

pub data Error : Type 0 where
  value_error : Error
  feed_format : Reason → Error
  runtime_error : Error
  -- `KeyError`, and a loop of the model without fuel: see Bus/Static/Stops/Closure.antt.
  key_error : Error
  out_of_fuel : Error
