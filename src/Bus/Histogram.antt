-- ===== src/Bus/Histogram.antt =====
-- `bus_poll_delay_histogram` of bus_daemon.py.
pub mod Counts
use mathlib.Core.List.{List, [], ◌∷◌}
use Prim.Native.Nat.{Ordering}
use Prim.Native.String.{compare}
use irish_rail_nabber.Prelude.{
  ℕ, ◌+◌, String, Bool, true, false, Option, none, some, if◌then◌else◌, contains, string_eq,
  pair_eq, get_or,
}
use irish_rail_nabber.Prelude.Dict.{Dict, lookup, insert}
use irish_rail_nabber.Prelude.Dict.Counter.{bump}
use irish_rail_nabber.Prelude.Int.{ℤ, int_eq, ltb_ℤ}
use irish_rail_nabber.Prelude.Sort.{sort}
use irish_rail_nabber.Python.Runtime.{Runtime}
use irish_rail_nabber.Bus.Records.{ParsedTripFreshness, ParsedStopUpdate, delay_seconds, or_text}

-- A kind of scope, its identifier, and a delay.
abbrev pub Scope : Type 0
Scope = String × (String × ℤ)

abbrev bump_if : String → Option String → ℤ → Dict Scope ℕ → Dict Scope ℕ
bump_if kind none delay d = d
bump_if kind (some id) delay d = bump (kind, (id, delay)) d

abbrev pub excluded : List String
excluded = "CANCELED" ∷ "CANCELLED" ∷ "DELETED" ∷ []

abbrev pub skipped : List String
skipped = "SKIPPED" ∷ "NO_DATA" ∷ excluded

-- The order of Python's tuples: by kind, then identifier, then delay.
abbrev pub scope_before : Scope × ℕ → Scope × ℕ → Bool
scope_before a b = elim (compare a.0.0 b.0.0) [
  | Ordering.lt ↦ true
  | Ordering.gt ↦ false
  | Ordering.eq ↦ elim (compare a.0.1.0 b.0.1.0) [
    | Ordering.lt ↦ true
    | Ordering.gt ↦ false
    | Ordering.eq ↦ ltb_ℤ a.0.1.1 b.0.1.1
  ]
]

module _ (R : Runtime) where
  unfoldable pub trip_relationships :
      List (ParsedTripFreshness R) → Dict String String → Dict String String
  trip_relationships [] d = d
  trip_relationships (t ∷ ts) d =
      trip_relationships ts (insert t.trip_instance_key (R.upper t.schedule_relationship) d)

  -- Neither the trip nor the stop is cancelled or without data.
  unfoldable pub is_reported : Dict String String → ParsedStopUpdate R → Bool
  is_reported relationships u =
      if contains (get_or (lookup u.trip_instance_key relationships) "SCHEDULED") excluded
      then false
      else if contains (R.upper (or_text u.schedule_relationship "SCHEDULED")) skipped
      then false
      else true

  -- One round of the loop, at the delay of the update.
  unfoldable pub count_delay :
      Dict String String → ParsedStopUpdate R → Option ℤ → Dict Scope ℕ → Dict Scope ℕ
  unfolding bump
  count_delay relationships u none counts = counts
  count_delay relationships u (some delay) counts =
      if is_reported relationships u
      then bump_if "stop" u.stop_id delay
          (bump_if "route" u.route_id delay (bump ("network", ("", delay)) counts))
      else counts

  unfoldable pub count_delays :
      Dict String String → List (ParsedStopUpdate R) → Dict Scope ℕ → Dict Scope ℕ
  unfolding count_delay
  count_delays relationships [] counts = counts
  count_delays relationships (u ∷ us) counts =
      count_delays relationships us (count_delay relationships u (delay_seconds R u) counts)

  -- `bus_poll_delay_histogram`
  unfoldable pub bus_poll_delay_histogram :
      List (ParsedStopUpdate R) → List (ParsedTripFreshness R) → List (Scope × ℕ)
  unfolding count_delays trip_relationships sort
  bus_poll_delay_histogram updates trip_freshness =
      sort scope_before (count_delays (trip_relationships trip_freshness []) updates [])
