-- ===== src/Bus/Poll.antt =====
-- `poll_realtime` and `_load_active_bus_ids` of bus_daemon.py, with a database that accepts what is
-- written to it.
pub mod Outcome
use mathlib.Core.List.{List, [], ◌∷◌, ◌++◌, map}
use irish_rail_nabber.Prelude.{
  ℕ, String, Bool, true, false, Option, none, some, nat_beq, if◌then◌else◌, nat_eq, string_eq,
  pair_eq, ◌==◌,
}
use irish_rail_nabber.Prelude.Dict.{Dict, lookup}
use irish_rail_nabber.Prelude.Int.{ℤ}
use irish_rail_nabber.Prelude.Result.{Result, ok, err, ◌>>=◌, ◌>>◌, raise_if}
use irish_rail_nabber.Python.Runtime.{Runtime}
use irish_rail_nabber.Bus.Error.{Error, feed_format, not_full_dataset, runtime_error}
use irish_rail_nabber.Bus.Records.{ParsedRealtimeFeed}
use irish_rail_nabber.Bus.Feed.{parse_realtime_feed}
use irish_rail_nabber.Bus.Filter.{ActiveBusIds, filter_bus_realtime_feed}
use irish_rail_nabber.Bus.Static.Tables.{is_bus_route_type}
use irish_rail_nabber.Bus.Tables.{VersionKey, Database}
use irish_rail_nabber.Bus.Updates.{Memory, Polled, insert_trip_updates}
use irish_rail_nabber.Bus.Vehicles.{upsert_vehicle_positions}
use irish_rail_nabber.Bus.Schedule.{
  Attempt, FetchSchedule, Feed, trip_updates, vehicles, Fetch, endpoint_of,
  reserve_realtime_request,
}
use irish_rail_nabber.Bus.Versions.{Catalogue, active_feed_version_id}

-- A row of `fetch_history` with what it records.
pub record Log : Type 0 where
  pub fetch : Fetch
  pub record_count : ℕ
  pub is_success : Bool

-- The daemon and the tables that it shares with others.
pub record System (R : Runtime) : Type 0 where
  pub memory : Memory
  pub active_bus_ids_cache : Option ActiveBusIds
  pub database : Database R
  pub catalogue : Catalogue R
  -- `bus_routes`, the type of each route
  pub route_types : Dict VersionKey ℤ
  pub schedule : Option FetchSchedule
  pub history : List Log

-- What one poll meets: whether there is a key, the readings of the clocks, the identifier of the next
-- row of the history, and the response, which is `none` where the request fails.
pub record Circumstances : Type 0 where
  pub has_api_key : Bool
  pub attempt : Attempt
  pub now : ℕ
  pub fetched_at : ℕ
  pub recorded_at : ℕ
  pub next_id : ℕ
  pub payload : Option String

abbrev is_bus_route : ℕ → Dict VersionKey ℤ → String → Bool
is_bus_route version route_types route_id =
    is_bus_route_type (lookup (version, route_id) route_types)

unfoldable pub bus_route_ids : ℕ → Dict VersionKey ℤ → List String
bus_route_ids version [] = []
bus_route_ids version (e ∷ rows) =
    let rest = bus_route_ids version rows in
    if nat_beq e.0.0 version
    then (if is_bus_route_type (some e.1) then e.0.1 ∷ rest else rest)
    else rest

unfoldable pub bus_trip_routes : ℕ → Dict VersionKey ℤ → Dict VersionKey String → Dict String String
bus_trip_routes version route_types [] = []
bus_trip_routes version route_types (e ∷ trips) =
    let rest = bus_trip_routes version route_types trips in
    if nat_beq e.0.0 version
    then (if is_bus_route version route_types e.1 then (e.0.1, e.1) ∷ rest else rest)
    else rest

abbrev cached_ids : ℕ → Option ActiveBusIds → Option ActiveBusIds
cached_ids version none = none
cached_ids version (some ids) = if nat_beq ids.feed_version_id version then some ids else none

abbrev ids_or : ActiveBusIds → Option ActiveBusIds → ActiveBusIds
ids_or loaded none = loaded
ids_or loaded (some ids) = ids

module _ (R : Runtime) where
  -- `_load_active_bus_ids`
  unfoldable pub load_active_bus_ids : ℕ → System R → ActiveBusIds
  unfolding bus_route_ids bus_trip_routes
  load_active_bus_ids version s =
      ids_or
        (record {
          feed_version_id = version;
          route_ids = bus_route_ids version s.route_types;
          trip_routes = bus_trip_routes version s.route_types s.database.trip_routes;
        })
        (cached_ids version s.active_bus_ids_cache)

  -- `record_fetch`
  unfoldable pub record_fetch : Circumstances → String → ℕ → Bool → System R → System R
  record_fetch c endpoint record_count is_success s = record s {
    history =
        s.history
        ++ record {
          fetch = record { id = c.next_id; endpoint = endpoint; fetched_at = c.recorded_at };
          record_count = record_count;
          is_success = is_success;
        }
          ∷ [];
  }

  abbrev response_of : Option String → Result Error String
  response_of none = err runtime_error
  response_of (some payload) = ok payload

  -- From the request to the filter.
  unfoldable pub fetch_bus_feed : Option String → ActiveBusIds → Result Error (ParsedRealtimeFeed R)
  fetch_bus_feed payload ids = do
    text ← response_of payload
    parsed_feed ← parse_realtime_feed R text
    raise_if (if parsed_feed.incrementality == "FULL_DATASET" then false else true)
        (feed_format not_full_dataset)
    ok (filter_bus_realtime_feed R parsed_feed ids)

  unfoldable pub write_feed :
      Bool → Circumstances → ℕ → Feed → ParsedRealtimeFeed R → System R → Polled R
  write_feed legacy c version trip_updates feed s =
      insert_trip_updates R legacy version c.now c.fetched_at feed.stop_updates feed.trip_freshness
        s.memory s.database
  write_feed legacy c version vehicles feed s =
      upsert_vehicle_positions R version c.fetched_at feed.vehicle_positions s.memory s.database

  unfoldable pub finish :
      Bool → Circumstances → ℕ → Feed → Result Error (ParsedRealtimeFeed R) → System R → System R
  unfolding write_feed record_fetch
  finish legacy c version feed (err e) s = record_fetch c (endpoint_of feed) 0 false s
  finish legacy c version feed (ok bus_feed) s =
      let polled = write_feed legacy c version feed bus_feed s in
      record_fetch c (endpoint_of feed) polled.changed true
        (record s { memory = polled.memory; database = polled.database })

  -- With the slot, or without it.
  unfoldable pub use_slot :
      Bool → Circumstances → ℕ → ActiveBusIds → Option (FetchSchedule × Feed) → System R → System R
  unfolding finish
  use_slot legacy c version ids none s = s
  use_slot legacy c version ids (some slot) s =
      finish legacy c version slot.1 (fetch_bus_feed c.payload ids)
        (record s { schedule = some slot.0 })

  abbrev pub fetches : List Log → List Fetch
  fetches history = map (λ row. row.fetch) history

  unfoldable pub poll_version : Bool → Circumstances → Option ℕ → System R → System R
  unfolding use_slot record_fetch
  poll_version legacy c none s = record_fetch c "nta_realtime" 0 false s
  poll_version legacy c (some version) s =
      let ids = load_active_bus_ids version s in
      use_slot legacy c version ids
        (reserve_realtime_request c.attempt s.schedule (fetches s.history))
        (record s { active_bus_ids_cache = some ids })

  -- `poll_realtime`
  unfoldable pub poll_realtime : Bool → Circumstances → System R → System R
  unfolding poll_version
  poll_realtime legacy c s =
      if c.has_api_key then poll_version legacy c (active_feed_version_id R s.catalogue) s else s
