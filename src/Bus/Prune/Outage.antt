-- ===== src/Bus/Prune/Outage.antt =====
-- A live row that is pruned in an outage of the feed, and the poll after the outage.
use mathlib.Core.List.{List, [], ◌∷◌}
use irish_rail_nabber.Prelude.{
  ℕ, ◌≡◌, refl, ap, ◌∙◌, Bool, false, none, inl, inr, arith, nat_eq, string_eq, pair_eq, Eq, ◌==◌,
  Bool-cases,
}
use irish_rail_nabber.Prelude.Dict.{Dict, lookup}
use irish_rail_nabber.Python.Runtime.{Runtime}
use irish_rail_nabber.Bus.Records.{ParsedStopUpdate, ParsedTripFreshness}
use irish_rail_nabber.Bus.Tables.{StateKey, Database}
use irish_rail_nabber.Bus.Updates.{Memory, insert_trip_updates}
use irish_rail_nabber.Bus.Updates.Repeat.{insert_trip_updates_repeat}
use irish_rail_nabber.Bus.Prune.{keep_keys, is_seen, prune_working_tables}

keep_keys-gone :
    {K V : Type 0} ⦃e : Eq K⦄ (keep : K → Bool) (k : K) (rows : Dict K V)
    → keep k ≡ false
    → lookup k (keep_keys keep rows) ≡ none
unfolding keep_keys
keep_keys-gone keep k [] h = refl
keep_keys-gone ⦃e⦄ keep k (row ∷ rows) h = elim (Bool-cases (keep row.0)) [
  | inl kept ↦ elim (Bool-cases (row.0 == k)) [
    | inl same ↦ absurd (ground (arith, ap keep ((e.beq_iff row.0 k).0 same)))
    | inr other ↦ rw (kept, other) (keep_keys-gone keep k rows h)
  ]
  | inr gone ↦ rw gone (keep_keys-gone keep k rows h)
]

-- Where the legacy table is gone: when a poll is followed, with no poll in between, by a pruning at which
-- the trip of a stop has not been seen for thirty minutes, and then by a poll that brings the same stop
-- updates, that poll leaves `bus_stop_live` without a row for the stop, whether it brings it or not.
pub prune_working_tables-outage :
    (R : Runtime) (version now now' fetched_at fetched_at' pruned_at : ℕ)
    (updates : List (ParsedStopUpdate R)) (trips trips' : List (ParsedTripFreshness R)) (m : Memory)
    (db : Database R) (k : StateKey)
    → let first = insert_trip_updates R false version now fetched_at updates trips m db in
      is_seen R pruned_at first.database.trip_freshness k ≡ false
      → lookup k
          (insert_trip_updates R false version now' fetched_at' updates trips' first.memory
            (prune_working_tables R false pruned_at first.database)).database.stop_live
        ≡ none
unfolding prune_working_tables
prune_working_tables-outage R version now now' fetched_at fetched_at' pruned_at updates trips trips'
      m db k h =
    let first = insert_trip_updates R false version now fetched_at updates trips m db in
    let pruned = prune_working_tables R false pruned_at first.database in
    ap (lookup k)
      (insert_trip_updates_repeat R false version now now' fetched_at fetched_at' updates trips
        trips' m db pruned).1
    ∙ keep_keys-gone (is_seen R pruned_at first.database.trip_freshness) k first.database.stop_live
        h
