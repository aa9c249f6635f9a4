-- ===== src/Bus/Updates.antt =====
-- `_insert_trip_updates` of bus_daemon.py. The transaction is the committed one; database
-- errors are not modelled.
pub mod Current
pub mod Repeat
pub mod Written
pub mod Synced
use mathlib.Core.List.{List, [], ◌∷◌, map}
use irish_rail_nabber.Prelude.{
  ℕ, ◌+◌, String, Bool, true, false, not, Option, none, some, get_or, ltb, if◌then◌else◌, nat_eq,
  string_eq, pair_eq, ◌==◌, ◌&&◌, length, or_else, nat_beq,
}
use irish_rail_nabber.Prelude.Dict.{Dict, lookup, insert, has_key, values}
use irish_rail_nabber.Prelude.Int.{ℤ, int_eq}
use irish_rail_nabber.Python.Runtime.{Runtime}
use irish_rail_nabber.Bus.Records.{ParsedTripFreshness, ParsedStopUpdate, state_key, delay_seconds}
use irish_rail_nabber.Bus.Histogram.{Scope, bus_poll_delay_histogram}
use irish_rail_nabber.Bus.Batches.{write_batches}
use irish_rail_nabber.Bus.Tables.{
  VersionKey, StateKey, TimeKey, BucketKey, StopRow, TripRow, DelaySample, BucketRow, Database,
  upsert, insert_new, keep_legacy, replace_live, refresh_trip, add_samples,
}

-- What the daemon keeps in memory between polls.
pub record Memory : Type 0 where
  pub previous_update_hashes : Dict StateKey String
  pub previous_update_feed : Option ℕ
  pub previous_vehicle_hashes : Dict VersionKey String

-- Thirty minutes, in microseconds.
abbrev pub fresh_for : ℕ
fresh_for = 1800000000

abbrev is_nil {ℓ} : {A : Type ℓ} → List A → Bool
is_nil [] = true
is_nil (x ∷ xs) = false

-- `previous.get(key) != update_hash`
abbrev pub is_changed : Option String → String → Bool
is_changed none h = true
is_changed (some old) h = not (old == h)

module _ (R : Runtime) where
  -- `freshness.last_seen_at > NOW() - INTERVAL '30 minutes'`
  abbrev is_seen_since : ℕ → Option (TripRow R) → Bool
  is_seen_since now none = false
  is_seen_since now (some row) = ltb now (row.last_seen_at + fresh_for)

  -- A live row of the version whose trip has been seen lately.
  abbrev pub is_saved : ℕ → ℕ → Dict VersionKey (TripRow R) → StateKey → Bool
  is_saved version now freshness k =
      if nat_beq k.0 version then is_seen_since now (lookup (version, k.1.0) freshness) else false

  -- The hashes that are read back from `bus_stop_live`.
  unfoldable pub saved_states :
      ℕ → ℕ → Dict VersionKey (TripRow R) → Dict StateKey (StopRow R) → Dict StateKey String
  saved_states version now freshness [] = []
  saved_states version now freshness (row ∷ live) =
      let rest = saved_states version now freshness live in
      if is_saved version now freshness row.0
      then (row.0, row.1.update.update_hash) ∷ rest
      else rest

  abbrev pub is_version : ℕ → Option ℕ → Bool
  is_version version none = false
  is_version version (some v) = nat_beq v version

  unfoldable pub load_states : ℕ → ℕ → Database R → Memory → Memory
  unfolding saved_states
  load_states version now db m = if is_version version m.previous_update_feed then m else record m {
    previous_update_hashes = saved_states version now db.trip_freshness db.stop_live;
    previous_update_feed = some version;
  }

  -- `current`: the last update of each key.
  unfoldable pub current_from :
      ℕ
      → List (ParsedStopUpdate R)
      → Dict StateKey (ParsedStopUpdate R)
      → Dict StateKey (ParsedStopUpdate R)
  current_from version [] current = current
  current_from version (u ∷ us) current =
      current_from version us (insert (version, state_key R u) u current)

  abbrev pub current_updates : ℕ → List (ParsedStopUpdate R) → Dict StateKey (ParsedStopUpdate R)
  current_updates version updates = current_from version updates []

  -- `changed`
  unfoldable pub changed_updates :
      Dict StateKey String → Dict StateKey (ParsedStopUpdate R) → List (ParsedStopUpdate R)
  changed_updates previous [] = []
  changed_updates previous (e ∷ current) =
      let rest = changed_updates previous current in
      if is_changed (lookup e.0 previous) e.1.update_hash then e.1 ∷ rest else rest

  unfoldable pub update_hashes : Dict StateKey (ParsedStopUpdate R) → Dict StateKey String
  update_hashes [] = []
  update_hashes (e ∷ current) = (e.0, e.1.update_hash) ∷ update_hashes current

  -- `update.database_row(...)`
  abbrev pub stop_row : ℕ → ParsedStopUpdate R → StopRow R
  stop_row fetched_at u = record { update = u; fetched_at = fetched_at; last_seen_at = fetched_at }

  abbrev pub trip_row : ℕ → ParsedTripFreshness R → TripRow R
  trip_row fetched_at t = record { trip = t; last_seen_at = fetched_at }

  -- The relationship of the last trip with each key.
  unfoldable pub relationships_from :
      List (ParsedTripFreshness R) → Dict String String → Dict String String
  relationships_from [] d = d
  relationships_from (t ∷ ts) d =
      relationships_from ts (insert t.trip_instance_key t.schedule_relationship d)

  module _ (version fetched_at : ℕ) where
    abbrev pub write_legacy :
        ParsedStopUpdate R → Dict VersionKey (StopRow R) → Dict VersionKey (StopRow R)
    write_legacy u table =
        upsert (keep_legacy R) (version, u.update_hash) (stop_row fetched_at u) table

    abbrev pub write_live :
        ParsedStopUpdate R → Dict StateKey (StopRow R) → Dict StateKey (StopRow R)
    write_live u table =
        upsert (replace_live R) (version, state_key R u) (stop_row fetched_at u) table

    -- The route of the update, or else of its trip: `COALESCE(incoming.route_id, trip.route_id)`.
    abbrev static_trip_route : Dict VersionKey String → Option String → Option String
    static_trip_route trips none = none
    static_trip_route trips (some t) = lookup (version, t) trips

    abbrev put_sample :
        StateKey → Option String → Option ℤ → Dict StateKey DelaySample → Dict StateKey DelaySample
    put_sample key (some route) (some delay) table =
        insert key (record { route_id = route; delay_seconds = delay; last_seen_at = fetched_at })
          table
    put_sample key _ _ table = table

    -- `delay_statement`: an update without a delay has no row, one without a route is not inserted.
    abbrev pub write_delay :
        Dict VersionKey String
        → ParsedStopUpdate R
        → Dict StateKey DelaySample
        → Dict StateKey DelaySample
    write_delay trips u table =
        put_sample (version, state_key R u) (or_else u.route_id (static_trip_route trips u.trip_id))
          (delay_seconds R u) table

    abbrev pub write_freshness :
        ParsedTripFreshness R → Dict VersionKey (TripRow R) → Dict VersionKey (TripRow R)
    write_freshness t table =
        upsert (refresh_trip R) (version, t.trip_instance_key) (trip_row fetched_at t) table

    abbrev pub write_observation :
        Dict String String
        → ParsedStopUpdate R
        → Dict TimeKey (StopRow R × String)
        → Dict TimeKey (StopRow R × String)
    write_observation relationships u table =
        insert_new (fetched_at, (version, u.update_hash))
          (stop_row fetched_at u, get_or (lookup u.trip_instance_key relationships) "SCHEDULED")
          table

    abbrev pub write_trip_observation :
        ParsedTripFreshness R → Dict TimeKey (TripRow R) → Dict TimeKey (TripRow R)
    write_trip_observation t table =
        insert_new (fetched_at, (version, t.trip_instance_key)) (trip_row fetched_at t) table

    abbrev pub write_bucket : Scope × ℕ → Dict BucketKey BucketRow → Dict BucketKey BucketRow
    write_bucket (scope, count) table =
        upsert add_samples (R.hour_bucket fetched_at, (scope.0, (version, scope.1)))
          (record { sample_count = count; last_updated = fetched_at }) table

  -- The statements of one poll, in their order.
  module _ (legacy : Bool) (version fetched_at : ℕ) where
    abbrev pub write_stops :
        List (ParsedStopUpdate R) → List (ParsedTripFreshness R) → Database R → Database R
    write_stops changed trips db = record db {
      stop_updates =
          if legacy
          then write_batches (write_legacy version fetched_at) changed db.stop_updates
          else db.stop_updates;
      stop_live = write_batches (write_live version fetched_at) changed db.stop_live;
      delay_samples =
          write_batches (write_delay version fetched_at db.trip_routes) changed db.delay_samples;
      trip_freshness = write_batches (write_freshness version fetched_at) trips db.trip_freshness;
      stop_observations =
          write_batches (write_observation version fetched_at (relationships_from trips [])) changed
            db.stop_observations;
      trip_observations =
          write_batches (write_trip_observation version fetched_at) trips db.trip_observations;
    }

    -- The marker of the poll goes in once; with it go the counts of the poll.
    abbrev pub write_histogram : List (Scope × ℕ) → Database R → Database R
    write_histogram [] db = db
    write_histogram histogram db =
        if has_key (fetched_at, version) db.histogram_polls then db else record db {
          histogram_polls = insert (fetched_at, version) tt db.histogram_polls;
          delay_histogram =
              write_batches (write_bucket version fetched_at) histogram db.delay_histogram;
        }

    unfoldable pub write_poll :
        Dict StateKey (ParsedStopUpdate R)
        → List (ParsedStopUpdate R)
        → List (ParsedTripFreshness R)
        → Database R
        → Database R
    write_poll current changed trips db =
        if is_nil current && is_nil trips
        then db
        else write_histogram (bus_poll_delay_histogram R (values current) trips)
            (write_stops changed trips db)

  -- What a poll leaves: the memory, the tables, and the number of changes that it reports.
  pub record Polled : Type 0 where
    pub memory : Memory
    pub database : Database R
    pub changed : ℕ

  -- `_insert_trip_updates`; `now` is the database's clock.
  unfoldable pub insert_trip_updates :
      Bool
      → ℕ
      → ℕ
      → ℕ
      → List (ParsedStopUpdate R)
      → List (ParsedTripFreshness R)
      → Memory
      → Database R
      → Polled
  unfolding load_states write_poll
  insert_trip_updates legacy version now fetched_at updates trips memory db =
      let loaded = load_states version now db memory in
      let current = current_updates version updates in
      let changed = changed_updates loaded.previous_update_hashes current in
      record {
        memory = record loaded { previous_update_hashes = update_hashes current };
        database = write_poll legacy version fetched_at current changed trips db;
        changed = length changed;
      }
