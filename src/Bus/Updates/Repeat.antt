-- ===== src/Bus/Updates/Repeat.antt =====
-- What a poll does to the live rows, and a poll that brings nothing new.
use mathlib.Core.List.{List, [], ◌∷◌}
use irish_rail_nabber.Prelude.{
  ℕ, String, ◌≡◌, refl, ap, ◌∙◌, Bool, some, Option-cases, nat_eq, string_eq, pair_eq, Bool-cases,
  inl, inr, nat_beq, nat_beq_iff,
}
use irish_rail_nabber.Prelude.Dict.{Dict, has_key}
use irish_rail_nabber.Prelude.Int.{int_eq}
use irish_rail_nabber.Python.Runtime.{Runtime}
use irish_rail_nabber.Bus.Records.{ParsedStopUpdate, ParsedTripFreshness}
use irish_rail_nabber.Bus.Histogram.{Scope}
use irish_rail_nabber.Bus.Batches.{execute_many}
use irish_rail_nabber.Bus.Batches.Whole.{write_batches_lem}
use irish_rail_nabber.Bus.Tables.{StateKey, Database}
use irish_rail_nabber.Bus.Updates.{
  Memory, load_states, current_updates, changed_updates, update_hashes, write_live, write_poll,
  write_histogram, insert_trip_updates,
}
use irish_rail_nabber.Bus.Updates.Current.{current_from-IsCurrent, changed_updates-update_hashes}

module _ (R : Runtime) (legacy : Bool) (version fetched_at : ℕ) where
  -- The histogram is written to tables of its own.
  write_histogram-stop_live :
      (histogram : List (Scope × ℕ)) (db : Database R)
      → (write_histogram R legacy version fetched_at histogram db).stop_live ≡ db.stop_live
  write_histogram-stop_live [] db = refl
  write_histogram-stop_live (x ∷ xs) db =
      elim (Bool-cases (has_key (fetched_at, version) db.histogram_polls)) [
        | inl e ↦ rw e refl
        | inr e ↦ rw e refl
      ]

  -- The live rows after a poll are those before with the changed updates written one by one.
  pub write_poll-stop_live :
      (previous : Dict StateKey String) (current : Dict StateKey (ParsedStopUpdate R))
      (trips : List (ParsedTripFreshness R)) (db : Database R)
      → (write_poll R legacy version fetched_at current
          (changed_updates R previous current)
          trips
          db).stop_live
        ≡ execute_many
            (write_live R version fetched_at)
            (changed_updates R previous current)
            db.stop_live
  unfolding write_poll changed_updates
  write_poll-stop_live previous [] [] db = refl
  write_poll-stop_live previous [] (t ∷ trips) db =
      write_histogram-stop_live _ _
      ∙ write_batches_lem (write_live R version fetched_at) [] db.stop_live
  write_poll-stop_live previous (e ∷ current) trips db =
      write_histogram-stop_live _ _
      ∙ write_batches_lem (write_live R version fetched_at)
          (changed_updates R previous (e ∷ current)) db.stop_live

-- The memory of a poll is of its version, so nothing is read back at the next poll of the version.
load_states-same :
    (R : Runtime) (version now : ℕ) (db : Database R) (m : Memory)
    → m.previous_update_feed ≡ some version
    → load_states R version now db m ≡ m
unfolding load_states
load_states-same R version now db m h = rw (h, (nat_beq_iff version version).1 refl) refl

load_states-feed :
    (R : Runtime) (version now : ℕ) (db : Database R) (m : Memory)
    → (load_states R version now db m).previous_update_feed ≡ some version
unfolding load_states
load_states-feed R version now db m = elim (Option-cases m.previous_update_feed) [
  | inl e ↦ rw e refl
  | inr (v, e) ↦ elim (Bool-cases (nat_beq v version)) [
    | inl same ↦ rw (e, same) (ap some ((nat_beq_iff v version).0 same))
    | inr other ↦ rw (e, other) refl
  ]
]

-- A poll of the version that brings the same stop updates as the poll before it reports no change and
-- writes no live row, whatever rows the table holds by then; the memory stays as it is.
pub insert_trip_updates_repeat :
    (R : Runtime) (legacy : Bool) (version now now' fetched_at fetched_at' : ℕ)
    (updates : List (ParsedStopUpdate R)) (trips trips' : List (ParsedTripFreshness R)) (m : Memory)
    (db db' : Database R)
    → let first = insert_trip_updates R legacy version now fetched_at updates trips m db in
      let second =
        insert_trip_updates R legacy version now' fetched_at' updates trips' first.memory db' in
      (second.changed ≡ 0)
      × (second.database.stop_live ≡ db'.stop_live)
      × (second.memory ≡ first.memory)
unfolding insert_trip_updates
insert_trip_updates_repeat R legacy version now now' fetched_at fetched_at' updates trips trips' m
      db db' =
    let current = current_updates R version updates in
    let memory = (insert_trip_updates R legacy version now fetched_at updates trips m db).memory in
    let kept = load_states-same R version now' db' memory (load_states-feed R version now db m) in
    let none_changed =
      changed_updates-update_hashes R current
        (current_from-IsCurrent R version updates [] (tt, tt)).0 in
    (
      rw (kept, none_changed) refl,
      rw kept (
          write_poll-stop_live R legacy version fetched_at' (update_hashes R current) current trips'
            db'
          ∙ rw none_changed refl),
      rw kept refl,
    )
