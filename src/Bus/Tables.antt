-- ===== src/Bus/Tables.antt =====
-- The tables that the realtime polls of bus_daemon.py write, with the statements that write them. A
-- table is a dictionary from its conflict key to a row; an instant of the clock is a number of
-- microseconds since the epoch. A row holds the parsed record that `database_row` writes out.
use irish_rail_nabber.Prelude.{
  ℕ, ◌+◌, String, Option, none, some, or_else, leb, if◌then◌else◌, nat_eq, string_eq, pair_eq, Eq,
  ◌==◌,
}
use irish_rail_nabber.Prelude.Dict.{Dict, lookup, insert}
use irish_rail_nabber.Prelude.Int.{ℤ, int_eq}
use irish_rail_nabber.Python.Runtime.{Runtime}
use irish_rail_nabber.Bus.Records.{ParsedTripFreshness, ParsedStopUpdate, ParsedVehiclePosition}

-- A feed version and an identifier in it; the key of a stop of a trip; the key of an observation.
abbrev pub VersionKey : Type 0
VersionKey = ℕ × String

abbrev pub StateKey : Type 0
StateKey = ℕ × (String × String)

abbrev pub TimeKey : Type 0
TimeKey = ℕ × (ℕ × String)

-- A bucket, a kind of scope, a feed version, an identifier and a delay.
abbrev pub BucketKey : Type 0
BucketKey = ℕ × (String × (ℕ × (String × ℤ)))

pub record StopRow (R : Runtime) : Type 0 where
  pub update : ParsedStopUpdate R
  pub fetched_at : ℕ
  pub last_seen_at : ℕ

pub record TripRow (R : Runtime) : Type 0 where
  pub trip : ParsedTripFreshness R
  pub last_seen_at : ℕ

pub record VehicleRow (R : Runtime) : Type 0 where
  pub position : ParsedVehiclePosition R
  pub fetched_at : ℕ
  pub last_seen_at : ℕ

pub record DelaySample : Type 0 where
  pub route_id : String
  pub delay_seconds : ℤ
  pub last_seen_at : ℕ

pub record BucketRow : Type 0 where
  pub sample_count : ℕ
  pub last_updated : ℕ

pub record Database (R : Runtime) : Type 0 where
  -- `bus_trips`, the route of each trip
  pub trip_routes : Dict VersionKey String
  -- `bus_stop_updates`, by version and hash
  pub stop_updates : Dict VersionKey (StopRow R)
  pub stop_live : Dict StateKey (StopRow R)
  pub delay_samples : Dict StateKey DelaySample
  -- `bus_trip_update_freshness`
  pub trip_freshness : Dict VersionKey (TripRow R)
  -- `bus_stop_observations`, with the relationship of the trip
  pub stop_observations : Dict TimeKey (StopRow R × String)
  pub trip_observations : Dict TimeKey (TripRow R)
  pub histogram_polls : Dict (ℕ × ℕ) (Unit {0})
  pub delay_histogram : Dict BucketKey BucketRow
  pub vehicle_positions : Dict VersionKey (VehicleRow R)
  pub vehicle_observations : Dict TimeKey (VehicleRow R)

-- The row after a conflict, if there is one.
abbrev pub settle : {V : Type 0} → (V → V → V) → Option V → V → V
settle conflict none new = new
settle conflict (some old) new = conflict old new

module _ {K V : Type 0} ⦃e : Eq K⦄ where
  -- `INSERT ... ON CONFLICT (key) DO UPDATE SET ...`: `conflict old new` is the row that is left.
  abbrev pub upsert : (V → V → V) → K → V → Dict K V → Dict K V
  upsert conflict key new table = insert key (settle conflict (lookup key table) new) table

  -- `INSERT ... ON CONFLICT (key) DO NOTHING`
  abbrev pub insert_new : K → V → Dict K V → Dict K V
  insert_new key new table = upsert (λ old fresh. old) key new table

module _ (R : Runtime) where
  -- `update_statement`
  abbrev pub keep_legacy : StopRow R → StopRow R → StopRow R
  keep_legacy old new = record old {
    update = record old.update {
      source_timestamp = or_else new.update.source_timestamp old.update.source_timestamp;
    };
    last_seen_at = new.last_seen_at;
  }

  -- `live_statement`: a row with the hash that is there keeps when it was fetched.
  abbrev pub replace_live : StopRow R → StopRow R → StopRow R
  replace_live old new =
      let same = old.update.update_hash == new.update.update_hash in
      record {
        update = record new.update {
          source_timestamp =
              if same
              then or_else new.update.source_timestamp old.update.source_timestamp
              else new.update.source_timestamp;
        };
        fetched_at = if same then old.fetched_at else new.fetched_at;
        last_seen_at = new.last_seen_at;
      }

  -- `freshness_statement`
  abbrev pub refresh_trip : TripRow R → TripRow R → TripRow R
  refresh_trip old new = record old {
    trip = record old.trip {
      source_timestamp = or_else new.trip.source_timestamp old.trip.source_timestamp;
      schedule_relationship = new.trip.schedule_relationship;
    };
    last_seen_at = new.last_seen_at;
  }

  -- The statement of `_upsert_vehicle_positions`
  abbrev pub replace_position : VehicleRow R → VehicleRow R → VehicleRow R
  replace_position old new =
      let same = old.position.update_hash == new.position.update_hash in
      record {
        position = record new.position {
          source_timestamp = or_else new.position.source_timestamp old.position.source_timestamp;
        };
        fetched_at = if same then old.fetched_at else new.fetched_at;
        last_seen_at = new.last_seen_at;
      }

-- `histogram_statement`
abbrev pub add_samples : BucketRow → BucketRow → BucketRow
add_samples old new = record {
  sample_count = old.sample_count + new.sample_count;
  last_updated =
      if leb old.last_updated new.last_updated then new.last_updated else old.last_updated;
}
