-- ===== src/Bus/Poll/Outcome.antt =====
-- How a poll of bus_daemon.py ends, and the memory and the live rows after it.
use mathlib.Core.List.{[], ◌∷◌, ◌++◌}
use irish_rail_nabber.Prelude.{
  ℕ, ◌≡◌, refl, Bool, true, Option, none, some, ◌⊎◌, inl, inr, Bool-cases,
}
use irish_rail_nabber.Prelude.Result.{Result, ok, err}
use irish_rail_nabber.Python.Runtime.{Runtime}
use irish_rail_nabber.Bus.Error.{Error}
use irish_rail_nabber.Bus.Records.{ParsedRealtimeFeed}
use irish_rail_nabber.Bus.Filter.{ActiveBusIds}
use irish_rail_nabber.Bus.Updates.Synced.{IsSynced, insert_trip_updates-IsSynced}
use irish_rail_nabber.Bus.Vehicles.{upsert_vehicle_positions}
use irish_rail_nabber.Bus.Schedule.{
  FetchSchedule, Feed, trip_updates, vehicles, reserve_realtime_request,
}
use irish_rail_nabber.Bus.Versions.{active_feed_version_id}
use irish_rail_nabber.Bus.Poll.{
  Log, System, Circumstances, load_active_bus_ids, fetch_bus_feed, write_feed, finish, use_slot,
  poll_version, fetches, poll_realtime,
}

module _ (R : Runtime) where
  -- Nothing is written and nothing is recorded.
  abbrev pub IsIdle : System R → System R → Type 0
  IsIdle s after =
      (after.memory ≡ s.memory)
      × (after.database ≡ s.database)
      × (after.schedule ≡ s.schedule)
      × (after.history ≡ s.history)

  -- One row is added to the history. It is of a success, or it counts nothing, and memory and tables
  -- are as they were.
  abbrev pub IsRecorded : System R → System R → Type 0
  IsRecorded s after =
      (row : Log) × (after.history ≡ s.history ++ row ∷ [])
      × ((row.is_success ≡ true)
          ⊎ ((row.record_count ≡ 0) × (after.memory ≡ s.memory) × (after.database ≡ s.database)))

  -- How a poll may end, for a system in step.
  abbrev pub IsPolled : System R → System R → Type 0
  IsPolled s after = IsSynced R after.memory after.database × (IsIdle s after ⊎ IsRecorded s after)

  write_feed-IsSynced :
      (legacy : Bool) (c : Circumstances) (version : ℕ) (feed : Feed)
      (bus_feed : ParsedRealtimeFeed R) (s : System R)
      → IsSynced R s.memory s.database
      → let polled = write_feed R legacy c version feed bus_feed s in
        IsSynced R polled.memory polled.database
  unfolding write_feed upsert_vehicle_positions
  write_feed-IsSynced legacy c version trip_updates bus_feed s h =
      (insert_trip_updates-IsSynced R legacy version c.now c.fetched_at bus_feed.stop_updates
        bus_feed.trip_freshness s.memory s.database h).0
  write_feed-IsSynced legacy c version vehicles bus_feed s h = record {
    distinct = h.distinct;
    shown = h.shown;
  }

  finish-IsPolled :
      (legacy : Bool) (c : Circumstances) (version : ℕ) (feed : Feed)
      (r : Result Error (ParsedRealtimeFeed R)) (s : System R)
      → IsSynced R s.memory s.database
      → let after = finish R legacy c version feed r s in
        IsSynced R after.memory after.database × IsRecorded s after
  unfolding finish
  finish-IsPolled legacy c version feed (err e) s h = (h, (_, refl, inr (refl, refl, refl)))
  finish-IsPolled legacy c version feed (ok bus_feed) s h =
      (write_feed-IsSynced legacy c version feed bus_feed s h, (_, refl, inl refl))

  use_slot-IsPolled :
      (legacy : Bool) (c : Circumstances) (version : ℕ) (ids : ActiveBusIds)
      (slot : Option (FetchSchedule × Feed)) (s : System R)
      → IsSynced R s.memory s.database
      → IsPolled s (use_slot R legacy c version ids slot s)
  unfolding use_slot
  use_slot-IsPolled legacy c version ids none s h = (h, inl (refl, refl, refl, refl))
  use_slot-IsPolled legacy c version ids (some slot) s h =
      let done =
        finish-IsPolled legacy c version slot.1 (fetch_bus_feed R c.payload ids)
          (record s { schedule = some slot.0 }) h in
      (done.0, inr done.1)

  poll_version-IsPolled :
      (legacy : Bool) (c : Circumstances) (version : Option ℕ) (s : System R)
      → IsSynced R s.memory s.database
      → IsPolled s (poll_version R legacy c version s)
  unfolding poll_version
  poll_version-IsPolled legacy c none s h = (h, inr (_, refl, inr (refl, refl, refl)))
  poll_version-IsPolled legacy c (some version) s h =
      let ids = load_active_bus_ids R version s in
      use_slot-IsPolled legacy c version ids
        (reserve_realtime_request c.attempt s.schedule (fetches R s.history))
        (record s { active_bus_ids_cache = some ids }) h

-- A poll of a daemon whose memory is in step with the live rows leaves it so, however the poll ends. It
-- either leaves memory, tables, slot and history as they are, or adds exactly one row to the history;
-- and if this row is not of a success, it counts no change, and memory and tables are as before.
pub poll_realtime-IsPolled :
    (R : Runtime) (legacy : Bool) (c : Circumstances) (s : System R)
    → IsSynced R s.memory s.database
    → IsPolled R s (poll_realtime R legacy c s)
unfolding poll_realtime
poll_realtime-IsPolled R legacy c s h = elim (Bool-cases c.has_api_key) [
  | inl e ↦ rw e (poll_version-IsPolled R legacy c (active_feed_version_id R s.catalogue) s h)
  | inr e ↦ rw e (h, inl (refl, refl, refl, refl))
]
