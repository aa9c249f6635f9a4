-- ===== src/Bus/Prune.antt =====
-- `prune_working_tables` of bus_daemon.py, in its committed transaction.
pub mod Outage
use mathlib.Core.List.{List, [], ◌∷◌}
use irish_rail_nabber.Prelude.{
  ℕ, ◌+◌, String, Bool, true, false, ◌&&◌, Option, none, some, leb, ltb, if◌then◌else◌, nat_eq,
  string_eq, pair_eq, contains, take,
}
use irish_rail_nabber.Prelude.Dict.{Dict, lookup, has_key, keys}
use irish_rail_nabber.Prelude.Sort.{sort}
use irish_rail_nabber.Python.Runtime.{Runtime}
use irish_rail_nabber.Bus.Tables.{VersionKey, StateKey, TimeKey, TripRow, Database}
use irish_rail_nabber.Bus.Updates.{fresh_for}

-- 168 hours, in microseconds.
abbrev pub kept_for : ℕ
kept_for = 604800000000

abbrev pub trip_of : StateKey → VersionKey
trip_of k = (k.0, k.1.0)

-- The rows whose key passes a test.
unfoldable pub keep_keys : {K V : Type 0} → (K → Bool) → Dict K V → Dict K V
keep_keys keep [] = []
keep_keys keep (row ∷ rows) =
    let rest = keep_keys keep rows in if keep row.0 then row ∷ rest else rest

module _ (R : Runtime) where
  abbrev is_recent : ℕ → Option (TripRow R) → Bool
  is_recent now none = false
  is_recent now (some row) = leb now (row.last_seen_at + fresh_for)

  -- Whether the trip of a live row has been seen in the last thirty minutes.
  abbrev pub is_seen : ℕ → Dict VersionKey (TripRow R) → StateKey → Bool
  is_seen now freshness k = is_recent now (lookup (trip_of k) freshness)

  -- Whether a trip has not been seen for 168 hours, and its last sight is archived.
  abbrev is_expired : ℕ → Dict TimeKey (TripRow R) → VersionKey × TripRow R → Bool
  is_expired now archive row =
      ltb (row.1.last_seen_at + kept_for) now && has_key (row.1.last_seen_at, row.0) archive

  unfoldable pub expired_rows :
      ℕ → Dict TimeKey (TripRow R) → Dict VersionKey (TripRow R) → Dict VersionKey (TripRow R)
  expired_rows now archive [] = []
  expired_rows now archive (row ∷ rows) =
      let rest = expired_rows now archive rows in
      if is_expired now archive row then row ∷ rest else rest

  abbrev seen_before : VersionKey × TripRow R → VersionKey × TripRow R → Bool
  seen_before a b = ltb a.1.last_seen_at b.1.last_seen_at

  -- `expired_bus_trips`: at most 5000, those seen longest ago.
  unfoldable pub expired_bus_trips : ℕ → Database R → List VersionKey
  unfolding expired_rows sort
  expired_bus_trips now db =
      keys (take 5000 (sort seen_before (expired_rows now db.trip_observations db.trip_freshness)))

  abbrev is_left : List VersionKey → VersionKey → Bool
  is_left expired k = if contains k expired then false else true

  -- `prune_working_tables`; `has_legacy` says whether the table `bus_stop_updates` is there.
  unfoldable pub prune_working_tables : Bool → ℕ → Database R → Database R
  unfolding keep_keys expired_bus_trips
  prune_working_tables has_legacy now db =
      let expired = expired_bus_trips now db in
      if has_legacy then db else record db {
        stop_live = keep_keys (is_seen now db.trip_freshness) db.stop_live;
        delay_samples = keep_keys (λ k. is_left expired (trip_of k)) db.delay_samples;
        trip_freshness = keep_keys (is_left expired) db.trip_freshness;
      }
