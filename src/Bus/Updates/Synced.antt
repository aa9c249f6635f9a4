-- ===== src/Bus/Updates/Synced.antt =====
-- The memory of the daemon and the rows of `bus_stop_live`, before and after a poll (bus_daemon.py).
use mathlib.Core.List.{List, [], ◌∷◌}
use mathlib.Core.Path.{subst}
use irish_rail_nabber.Prelude.{
  ℕ, String, ◌≡◌, refl, sym, ap, ◌∙◌, Bool, false, Option, none, some, inl, inr, arith, nat_eq,
  string_eq, pair_eq, Bool-cases, ◌==◌,
}
use irish_rail_nabber.Prelude.Dict.{Dict, lookup, keys}
use irish_rail_nabber.Prelude.Dict.Keys.{Distinct, Distinct-keys-insert, lookup-absent}
use irish_rail_nabber.Prelude.Int.{int_eq}
use irish_rail_nabber.Python.Runtime.{Runtime}
use irish_rail_nabber.Bus.Records.{ParsedStopUpdate, ParsedTripFreshness, state_key}
use irish_rail_nabber.Bus.Batches.{execute_many}
use irish_rail_nabber.Bus.Tables.{StateKey, VersionKey, StopRow, TripRow, Database}
use irish_rail_nabber.Bus.Updates.{
  Memory, is_changed, is_saved, is_version, saved_states, load_states, current_updates,
  changed_updates, write_live, insert_trip_updates,
}
use irish_rail_nabber.Bus.Updates.Current.{hash_of, current_from-IsCurrent, lookup-update_hashes}
use irish_rail_nabber.Bus.Updates.Repeat.{write_poll-stop_live}
use irish_rail_nabber.Bus.Updates.Written.{row_hash, live_hash, key_same, written-present}

-- A hash that is expected, if there is one, is the one that is found.
abbrev pub IsShown : Option String → Option String → Type 0
IsShown none found = Unit
IsShown (some h) found = found ≡ some h

IsShown-hash :
    (o found : Option String) (h : String) → IsShown o found → o ≡ some h → found ≡ some h
IsShown-hash none found h shown e = cc
IsShown-hash (some g) found h shown e = shown ∙ e

IsShown-of :
    (o found : Option String) → ((h : String) → o ≡ some h → found ≡ some h) → IsShown o found
IsShown-of none found f = tt
IsShown-of (some h) found f = f h refl

module _ (R : Runtime) where
  -- The table has one row per key, and shows every hash that the memory holds.
  pub record IsSynced (m : Memory) (db : Database R) : Type 0 where
    pub distinct : Distinct (keys db.stop_live)
    pub shown :
        (k : StateKey) → IsShown (lookup k m.previous_update_hashes) (live_hash R k db.stop_live)

  not_shown :
      {A : Type 0} {h : String} (o : Option (StopRow R)) → o ≡ none → row_hash o ≡ some h → A
  not_shown none e h = cc
  not_shown (some row) e h = cc

  -- What is read back from the table is what it shows.
  saved_states-shown :
      (version now : ℕ) (freshness : Dict VersionKey (TripRow R)) (live : Dict StateKey (StopRow R))
      (k : StateKey) (h : String)
      → Distinct (keys live)
      → lookup k (saved_states R version now freshness live) ≡ some h
      → live_hash R k live ≡ some h
  unfolding saved_states
  saved_states-shown version now freshness [] k h distinct found = cc
  saved_states-shown version now freshness (row ∷ live) k h distinct found =
      elim (Bool-cases (row.0 == k)) [
        | inl same ↦ elim (Bool-cases (is_saved R version now freshness row.0)) [
          | inl saved ↦ rw same (rw (saved, same) at found)
          | inr unsaved ↦
              let absent = lookup-absent row.0 live distinct.0 in
              let later =
                saved_states-shown version now freshness live k h distinct.1
                  (rw unsaved at found) in
              not_shown (lookup k live)
                (ap (λ i. lookup i live) (sym (key_same R row.0 k same)) ∙ absent) later
        ]
        | inr other ↦ elim (Bool-cases (is_saved R version now freshness row.0)) [
          | inl saved ↦ rw other (
              saved_states-shown version now freshness live k h distinct.1
                (rw (saved, other) at found))
          | inr unsaved ↦
              rw other
                (saved_states-shown version now freshness live k h distinct.1 (rw unsaved at found))
        ]
      ]

  load_states-IsSynced :
      (version now : ℕ) (db : Database R) (m : Memory)
      → IsSynced m db
      → IsSynced (load_states R version now db m) db
  unfolding load_states
  load_states-IsSynced version now db m h =
      elim (Bool-cases (is_version R version m.previous_update_feed)) [
        | inl same ↦ rw same h
        | inr other ↦ rw other (record {
          distinct = h.distinct;
          shown = λ k. IsShown-of _ _ λ hash found.
              saved_states-shown version now db.trip_freshness db.stop_live k hash h.distinct found;
        })
      ]

  -- Writing keeps one row per key.
  Distinct-written :
      (version fetched_at : ℕ) (us : List (ParsedStopUpdate R)) (live : Dict StateKey (StopRow R))
      → Distinct (keys live)
      → Distinct (keys (execute_many (write_live R version fetched_at) us live))
  Distinct-written version fetched_at [] live h = h
  Distinct-written version fetched_at (u ∷ us) live h =
      Distinct-written version fetched_at us (write_live R version fetched_at u live)
        (Distinct-keys-insert (version, state_key R u) _ live h)

  is_changed-same : (o : Option String) (h : String) → is_changed o h ≡ false → o ≡ some h
  is_changed-same none h e = cc
  is_changed-same (some old) h e = ap some ((string_eq.beq_iff old h).0 (ground arith))

  module _ (legacy : Bool) (version now fetched_at : ℕ) (updates : List (ParsedStopUpdate R))
      (trips : List (ParsedTripFreshness R)) (m : Memory) (db : Database R)
      (h : IsSynced m db) where
    abbrev after : Database R
    after = (insert_trip_updates R legacy version now fetched_at updates trips m db).database

    abbrev current : Dict StateKey (ParsedStopUpdate R)
    current = current_updates R version updates

    abbrev previous : Dict StateKey String
    previous = (load_states R version now db m).previous_update_hashes

    after-stop_live :
        after.stop_live
        ≡ execute_many
            (write_live R version fetched_at)
            (changed_updates R previous current)
            db.stop_live
    unfolding insert_trip_updates
    after-stop_live = write_poll-stop_live R legacy version fetched_at previous current trips db

    after-shown :
        (k : StateKey) (u : ParsedStopUpdate R)
        → lookup k current ≡ some u
        → live_hash R k after.stop_live ≡ some u.update_hash
    after-shown k u found =
        ap (live_hash R k) after-stop_live
        ∙ written-present R version fetched_at previous k current db.stop_live u
            (current_from-IsCurrent R version updates [] (tt, tt)) found
            (λ same.
              IsShown-hash (lookup k previous) (live_hash R k db.stop_live) u.update_hash
                ((load_states-IsSynced version now db m h).shown k)
                (is_changed-same (lookup k previous) u.update_hash same))

    hash-shown :
        (k : StateKey) (o : Option (ParsedStopUpdate R)) (hash : String)
        → lookup k current ≡ o
        → hash_of o ≡ some hash
        → live_hash R k after.stop_live ≡ some hash
    hash-shown k none hash found e = cc
    hash-shown k (some u) hash found e = after-shown k u found ∙ e

    after-IsSynced :
        IsSynced
          (insert_trip_updates R legacy version now fetched_at updates trips m db).memory
          after
    unfolding insert_trip_updates
    after-IsSynced = record {
      distinct =
          subst (λ live. Distinct (keys live)) (sym after-stop_live)
            (Distinct-written version fetched_at (changed_updates R previous current) db.stop_live
              h.distinct);
      shown = λ k. IsShown-of _ _ λ hash found.
          hash-shown k (lookup k current) hash refl
            (sym (lookup-update_hashes R k current) ∙ found);
    }

-- A poll keeps the memory in step with the live rows: there is one row per key, and each hash in the
-- memory is the hash of the row with its key. After the poll, the live row of each key has the hash of
-- the last update that the poll brings for it, and the memory holds exactly these hashes.
pub insert_trip_updates-IsSynced :
    (R : Runtime) (legacy : Bool) (version now fetched_at : ℕ) (updates : List (ParsedStopUpdate R))
    (trips : List (ParsedTripFreshness R)) (m : Memory) (db : Database R)
    → IsSynced R m db
    → let polled = insert_trip_updates R legacy version now fetched_at updates trips m db in
      IsSynced R polled.memory polled.database
      × ((k : StateKey)
          → IsShown
              (hash_of (lookup k (current_updates R version updates)))
              (live_hash R k polled.database.stop_live))
      × ((k : StateKey)
          → lookup k polled.memory.previous_update_hashes
            ≡ hash_of (lookup k (current_updates R version updates)))
unfolding insert_trip_updates
insert_trip_updates-IsSynced R legacy version now fetched_at updates trips m db h = (
  after-IsSynced R legacy version now fetched_at updates trips m db h,
  λ k. IsShown-of _ _ (λ hash.
      hash-shown R legacy version now fetched_at updates trips m db h k
        (lookup k (current_updates R version updates)) hash refl),
  λ k. lookup-update_hashes R k (current_updates R version updates),
)
