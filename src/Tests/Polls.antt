-- ===== src/Tests/Polls.antt =====
-- The polls, the shared slot and the versions.
use mathlib.Core.List.{List, [], ◌∷◌, ◌++◌}
use irish_rail_nabber.Prelude.{
  ℕ, ◌+◌, ◌≡◌, refl, Bool, true, false, none, some, arith, nat_eq, string_eq, pair_eq, All,
}
use irish_rail_nabber.Prelude.Dict.{lookup}
use irish_rail_nabber.Prelude.Int.{pos}
use irish_rail_nabber.Bus.Records.{ParsedVehiclePosition}
use irish_rail_nabber.Bus.Static.Tables.{StopTime}
use irish_rail_nabber.Bus.Batches.{chunks}
use irish_rail_nabber.Bus.Batches.Whole.{concat, IsBatch, chunks-whole}
use irish_rail_nabber.Bus.Tables.{StateKey, Database}
use irish_rail_nabber.Bus.Updates.{Memory, current_updates, insert_trip_updates}
use irish_rail_nabber.Bus.Updates.Current.{hash_of}
use irish_rail_nabber.Bus.Updates.Repeat.{insert_trip_updates_repeat}
use irish_rail_nabber.Bus.Updates.Written.{live_hash}
use irish_rail_nabber.Bus.Updates.Synced.{IsShown, IsSynced, insert_trip_updates-IsSynced}
use irish_rail_nabber.Bus.Vehicles.{upsert_vehicle_positions}
use irish_rail_nabber.Bus.Vehicles.Snapshot.{snapshot_row, upsert_vehicle_positions-snapshot}
use irish_rail_nabber.Bus.Schedule.{
  Attempt, granted_attempts, Fetch, fetch_of, choose_feed, trip_updates, vehicles,
}
use irish_rail_nabber.Bus.Schedule.Spacing.{IsSpaced, granted_attempts-IsSpaced}
use irish_rail_nabber.Bus.Schedule.Alternation.{choose_feed-alternates}
use irish_rail_nabber.Bus.Versions.{FeedVersion, Catalogue}
use irish_rail_nabber.Bus.Poll.{System, Circumstances, poll_realtime}
use irish_rail_nabber.Bus.Poll.Outcome.{IsPolled, poll_realtime-IsPolled}
use irish_rail_nabber.Tests.Realtime.{R, feed}

abbrev numbers : List ℕ
numbers = 1 ∷ 2 ∷ 3 ∷ []

chunks-whole_example : (concat (chunks numbers 2) ≡ numbers) × All (IsBatch 2) (chunks numbers 2)
chunks-whole_example = chunks-whole numbers 2 (omega arith)

abbrev pub no_memory : Memory
no_memory = record {
  previous_update_hashes = [];
  previous_update_feed = none;
  previous_vehicle_hashes = [];
}

abbrev pub no_rows : Database R
no_rows = record {
  trip_routes = [];
  stop_updates = [];
  stop_live = [];
  delay_samples = [];
  trip_freshness = [];
  stop_observations = [];
  trip_observations = [];
  histogram_polls = [];
  delay_histogram = [];
  vehicle_positions = [];
  vehicle_observations = [];
}

insert_trip_updates_repeat_example :
    let first =
      insert_trip_updates R true 1 0 5 feed.stop_updates feed.trip_freshness no_memory no_rows in
    let second = insert_trip_updates R true 1 7 9 feed.stop_updates [] first.memory no_rows in
    (second.changed ≡ 0) × (second.database.stop_live ≡ []) × (second.memory ≡ first.memory)
insert_trip_updates_repeat_example =
    insert_trip_updates_repeat R true 1 0 7 5 9 feed.stop_updates feed.trip_freshness [] no_memory
      no_rows no_rows

synced : IsSynced R no_memory no_rows
synced = record { distinct = tt; shown = λ k. tt }

insert_trip_updates-IsSynced_example :
    let polled =
      insert_trip_updates R false 1 0 5 feed.stop_updates feed.trip_freshness no_memory no_rows in
    IsSynced R polled.memory polled.database
    × ((k : StateKey)
        → IsShown
            (hash_of (lookup k (current_updates R 1 feed.stop_updates)))
            (live_hash R k polled.database.stop_live))
    × ((k : StateKey)
        → lookup k polled.memory.previous_update_hashes
          ≡ hash_of (lookup k (current_updates R 1 feed.stop_updates)))
insert_trip_updates-IsSynced_example =
    insert_trip_updates-IsSynced R false 1 0 5 feed.stop_updates feed.trip_freshness no_memory
      no_rows synced

abbrev position : ParsedVehiclePosition R
position = record {
  entity_id = none;
  vehicle_instance_key = "v";
  vehicle_id = some "v";
  vehicle_label = none;
  license_plate = none;
  trip_instance_key = "t";
  trip_id = none;
  route_id = some "r1";
  service_date = none;
  schedule_relationship = "ADDED";
  latitude = none;
  longitude = none;
  bearing = none;
  speed = none;
  current_stop_sequence = none;
  stop_id = none;
  current_status = none;
  congestion_level = none;
  occupancy_status = none;
  occupancy_percentage = none;
  update_hash = "h";
  source_timestamp = none;
}

-- A row of the vehicle with the same hash, from an earlier poll, that has a source time.
abbrev old_rows : Database R
old_rows = record no_rows {
  vehicle_positions =
      (
        (1, "v"),
        record {
          position = record position { source_timestamp = some (pos 2) };
          fetched_at = 3;
          last_seen_at = 4;
        },
      )
      ∷ [];
}

upsert_vehicle_positions-snapshot_example :
    lookup
      (1, "v")
      (upsert_vehicle_positions R 1 5 (position ∷ []) no_memory old_rows).database.vehicle_positions
    ≡ snapshot_row R 1 5 (1, "v") (position ∷ []) old_rows.vehicle_positions
upsert_vehicle_positions-snapshot_example =
    upsert_vehicle_positions-snapshot R 1 5 (position ∷ []) no_memory old_rows (1, "v")

abbrev attempt : ℕ → Attempt
attempt now = record {
  configured_seconds = 30;
  read_last = now;
  read_next = now + 1;
  read_due = now + 2;
}

-- The second attempt is too early, the third one gets the next slot.
abbrev attempts : List Attempt
attempts = attempt 0 ∷ attempt 60000000 ∷ attempt 61000000 ∷ []

attempts-granted : granted_attempts attempts none ≡ attempt 0 ∷ attempt 61000000 ∷ []
unfolding granted_attempts
attempts-granted = refl

granted_attempts-IsSpaced_example : IsSpaced (granted_attempts attempts none)
granted_attempts-IsSpaced_example = granted_attempts-IsSpaced attempts none

abbrev history : List Fetch
history = fetch_of 1 vehicles 10 ∷ []

choose_feed-alternates_example : choose_feed (history ++ fetch_of 2 trip_updates 10 ∷ []) ≡ vehicles
choose_feed-alternates_example = choose_feed-alternates history trip_updates 2 10 (refl, tt)

abbrev version : ℕ → Bool → FeedVersion
version id is_active = record {
  id = id;
  source = "nta_gtfs";
  content_sha256 = "digest";
  imported_at = some id;
  is_active = is_active;
  shapes_imported = true;
}

abbrev stop_time : StopTime
stop_time = record {
  trip_id = "t1";
  stop_sequence = none;
  stop_id = "a";
  arrival_seconds = none;
  departure_seconds = none;
}

abbrev catalogue : Catalogue R
catalogue = record {
  versions = version 1 true ∷ version 2 false ∷ [];
  stop_times = (1, stop_time) ∷ (2, stop_time) ∷ [];
  shape_points = [];
}

abbrev system : System R
system = record {
  memory = no_memory;
  active_bus_ids_cache = none;
  database = no_rows;
  catalogue = catalogue;
  route_types = [];
  schedule = none;
  history = [];
}

-- A poll whose request is answered by two stops of a bus.
abbrev circumstances : Circumstances
circumstances = record {
  has_api_key = true;
  attempt = attempt 10;
  now = 20;
  fetched_at = 30;
  recorded_at = 40;
  next_id = 1;
  payload = some "{}";
}

poll_realtime-IsPolled_example : IsPolled R system (poll_realtime R true circumstances system)
poll_realtime-IsPolled_example = poll_realtime-IsPolled R true circumstances system synced
