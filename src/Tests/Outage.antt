-- ===== src/Tests/Outage.antt =====
-- A pruning between two polls with the same stop updates.
use mathlib.Core.List.{[], ◌∷◌}
use irish_rail_nabber.Prelude.{◌≡◌, refl, false, none, some, nat_eq, string_eq, pair_eq}
use irish_rail_nabber.Prelude.Dict.{lookup}
use irish_rail_nabber.Bus.Tables.{StateKey}
use irish_rail_nabber.Bus.Updates.{
  insert_trip_updates, Polled, current_from, load_states, write_poll,
}
use irish_rail_nabber.Bus.Prune.{is_seen, prune_working_tables}
use irish_rail_nabber.Bus.Prune.Outage.{prune_working_tables-outage}
use irish_rail_nabber.Bus.Records.{ParsedStopUpdate, ParsedTripFreshness, delay_seconds}
use irish_rail_nabber.Bus.Histogram.{
  bus_poll_delay_histogram, trip_relationships, count_delays, count_delay,
}
use irish_rail_nabber.Bus.Batches.{chunks, chunks_from, execute_all, write_batches}
use irish_rail_nabber.Prelude.Sort.{sort}
use irish_rail_nabber.Tests.Realtime.{R}
use irish_rail_nabber.Tests.Polls.{no_memory, no_rows}

abbrev update : ParsedStopUpdate R
update = record {
  entity_id = none;
  trip_id = none;
  route_id = some "r1";
  service_date = none;
  vehicle_id = none;
  trip_instance_key = "trip";
  stop_id = some "s1";
  stop_sequence = none;
  schedule_relationship = none;
  arrival_time = none;
  departure_time = none;
  arrival_delay_seconds = none;
  departure_delay_seconds = none;
  update_hash = "hash";
  source_timestamp = none;
}

abbrev trip : ParsedTripFreshness R
trip = record {
  trip_instance_key = "trip";
  trip_id = none;
  route_id = some "r1";
  source_timestamp = none;
  schedule_relationship = "ADDED";
}

-- The stop, whose trip was last seen at 5.
abbrev key : StateKey
key = (1, ("trip", "stop_id:s1"))

abbrev first : Polled R
first = insert_trip_updates R false 1 0 5 (update ∷ []) (trip ∷ []) no_memory no_rows

key-not_seen : is_seen R 1800000006 first.database.trip_freshness key ≡ false
unfolding insert_trip_updates current_from bus_poll_delay_histogram trip_relationships count_delays
    count_delay delay_seconds sort load_states write_poll chunks chunks_from execute_all
    write_batches
key-not_seen = refl

prune_working_tables-outage_example :
    lookup key
      (insert_trip_updates R false 1 7 9
        (update ∷ [])
        []
        first.memory
        (prune_working_tables R false 1800000006 first.database)).database.stop_live
    ≡ none
prune_working_tables-outage_example =
    prune_working_tables-outage R 1 0 7 5 9 1800000006 (update ∷ []) (trip ∷ []) [] no_memory
      no_rows key key-not_seen
