-- ===== src/Bus/Schedule.antt =====
-- `_reserve_realtime_request` of bus_daemon.py: the shared slot of the NTA token, and the feed that
-- it is spent on. Instants are microseconds since the epoch.
pub mod Spacing
pub mod Alternation
use mathlib.Core.List.{List, [], ◌∷◌, ◌++◌}
use irish_rail_nabber.Prelude.{
  ℕ, ◌+◌, ◌*◌, String, Bool, true, false, ◌&&◌, ◌||◌, Option, none, some, leb, ltb, nat_beq,
  if◌then◌else◌, string_eq, ◌==◌,
}

abbrev pub min_realtime_interval_seconds : ℕ
min_realtime_interval_seconds = 60

abbrev pub rate_limit_safety_seconds : ℕ
rate_limit_safety_seconds = 1

abbrev pub microseconds : ℕ → ℕ
microseconds seconds = seconds * 1000000

-- `self.realtime_interval_seconds`, as `NtaBusDaemon.__init__` sets it.
unfoldable pub realtime_interval_seconds : ℕ → ℕ
realtime_interval_seconds seconds =
    if leb min_realtime_interval_seconds seconds then seconds else min_realtime_interval_seconds

-- The row `nta_realtime` of `fetch_schedules`.
pub record FetchSchedule : Type 0 where
  pub interval_seconds : ℕ
  pub last_fetched : Option ℕ
  pub next_fetch : Option ℕ
  pub enabled : Bool

-- An attempt by a daemon with some configured interval: `clock_timestamp()` as it is read for
-- `last_fetched`, for `next_fetch` and in the `WHERE` clause.
pub record Attempt : Type 0 where
  pub configured_seconds : ℕ
  pub read_last : ℕ
  pub read_next : ℕ
  pub read_due : ℕ

unfoldable pub reservation_seconds : Attempt → ℕ
unfolding realtime_interval_seconds
reservation_seconds a = realtime_interval_seconds a.configured_seconds + rate_limit_safety_seconds

-- When the slot that an attempt takes is over.
unfoldable pub reserved_until : Attempt → ℕ
unfolding reservation_seconds
reserved_until a = a.read_next + microseconds (reservation_seconds a)

-- `next_fetch IS NULL OR next_fetch <= clock_timestamp()`
abbrev pub is_due : Option ℕ → ℕ → Bool
is_due none now = true
is_due (some next) now = leb next now

unfoldable pub taken : Attempt → FetchSchedule
unfolding reserved_until
taken a = record {
  interval_seconds = realtime_interval_seconds a.configured_seconds;
  last_fetched = some a.read_last;
  next_fetch = some (reserved_until a);
  enabled = true;
}

-- The `INSERT ... ON CONFLICT DO UPDATE ... WHERE ... RETURNING` statement: the row that it leaves if
-- it returns one; otherwise the table stays.
unfoldable pub reserve : Attempt → Option FetchSchedule → Option FetchSchedule
unfolding taken
reserve a none = some (taken a)
reserve a (some s) = if s.enabled && is_due s.next_fetch a.read_due then some (taken a) else none

-- The attempts that get the slot, of attempts by any number of daemons in the order of their row
-- locks.
abbrev pub go_on : Attempt → Option FetchSchedule → List Attempt → List Attempt → List Attempt
go_on a none refused granted = refused
go_on a (some s) refused granted = a ∷ granted

abbrev pub row_after : Option FetchSchedule → Option FetchSchedule → Option FetchSchedule
row_after none before = before
row_after (some s) before = some s

unfoldable pub granted_attempts : List Attempt → Option FetchSchedule → List Attempt
unfolding reserve
granted_attempts [] row = []
granted_attempts (a ∷ attempts) row =
    let outcome = reserve a row in
    let rest = granted_attempts attempts (row_after outcome row) in go_on a outcome rest rest

-- The feeds that share the token.
pub data Feed : Type 0 where
  trip_updates vehicles : Feed

-- `f"nta_{feed_name}"`
unfoldable pub endpoint_of : Feed → String
endpoint_of trip_updates = "nta_trip_updates"
endpoint_of vehicles = "nta_vehicles"

-- A row of `fetch_history`, whose identifiers grow.
pub record Fetch : Type 0 where
  pub id : ℕ
  pub endpoint : String
  pub fetched_at : ℕ

-- The row that `record_fetch` writes for a feed.
abbrev pub fetch_of : ℕ → Feed → ℕ → Fetch
fetch_of id feed fetched_at = record {
  id = id;
  endpoint = endpoint_of feed;
  fetched_at = fetched_at;
}

-- `ORDER BY fetched_at DESC, id DESC`: `a` is older than `b`.
abbrev pub is_older : Fetch → Fetch → Bool
is_older a b = ltb a.fetched_at b.fetched_at || (nat_beq a.fetched_at b.fetched_at && ltb a.id b.id)

abbrev pub is_realtime : Fetch → Bool
is_realtime f = f.endpoint == "nta_trip_updates" || f.endpoint == "nta_vehicles"

abbrev pub newer : Fetch → Option Fetch → Option Fetch
newer f none = some f
newer f (some g) = if is_older f g then some g else some f

-- The first row in that order of those of the two endpoints.
unfoldable pub latest_fetch : List Fetch → Option Fetch
latest_fetch [] = none
latest_fetch (f ∷ history) =
    let rest = latest_fetch history in if is_realtime f then newer f rest else rest

unfoldable pub feed_after : Option Fetch → Feed
feed_after none = vehicles
feed_after (some f) = if f.endpoint == "nta_trip_updates" then vehicles else trip_updates

unfoldable pub choose_feed : List Fetch → Feed
unfolding latest_fetch feed_after
choose_feed history = feed_after (latest_fetch history)

-- The whole of `_reserve_realtime_request`.
unfoldable pub reserve_realtime_request :
    Attempt → Option FetchSchedule → List Fetch → Option (FetchSchedule × Feed)
unfolding reserve choose_feed
reserve_realtime_request a row history = elim (reserve a row) [
  | none ↦ none
  | some s ↦ some (s, choose_feed history)
]
