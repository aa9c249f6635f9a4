-- ===== src/Bus/Updates/Written.antt =====
-- What writing the changed updates does to the hash that a live row shows.
use mathlib.Core.List.{[], ◌∷◌}
use irish_rail_nabber.Prelude.{
  ℕ, String, ◌≡◌, refl, sym, ap, ◌∙◌, true, false, Option, none, some, inl, inr, arith, nat_eq,
  string_eq, pair_eq, All, Bool-cases, ◌==◌, if◌then◌else◌, contains,
}
use irish_rail_nabber.Prelude.Dict.{Dict, lookup, keys, lookup-insert}
use irish_rail_nabber.Prelude.Int.{int_eq}
use irish_rail_nabber.Python.Runtime.{Runtime}
use irish_rail_nabber.Bus.Records.{ParsedStopUpdate, state_key}
use irish_rail_nabber.Bus.Batches.{execute_many}
use irish_rail_nabber.Bus.Tables.{StateKey, StopRow, settle, replace_live}
use irish_rail_nabber.Bus.Updates.{stop_row, is_changed, changed_updates, write_live}
use irish_rail_nabber.Bus.Updates.Current.{IsKeyed, IsCurrent}

abbrev pub row_hash : {R : Runtime} → Option (StopRow R) → Option String
row_hash none = none
row_hash (some row) = some row.update.update_hash

module _ (R : Runtime) where
  -- The hash that `bus_stop_live` shows for a key.
  abbrev pub live_hash : StateKey → Dict StateKey (StopRow R) → Option String
  live_hash k live = row_hash (lookup k live)

  settle-hash :
      (old : Option (StopRow R)) (new : StopRow R)
      → (settle (replace_live R) old new).update.update_hash ≡ new.update.update_hash
  settle-hash none new = refl
  settle-hash (some old) new = refl

  live_hash-write_live :
      (version fetched_at : ℕ) (k : StateKey) (u : ParsedStopUpdate R)
      (live : Dict StateKey (StopRow R))
      → live_hash k (write_live R version fetched_at u live)
        ≡ (if (version, state_key R u) == k then some u.update_hash else live_hash k live)
  live_hash-write_live version fetched_at k u live =
      elim (Bool-cases ((version, state_key R u) == k)) [
        | inl same ↦
            rw
              (
                lookup-insert (version, state_key R u) k
                    (settle (replace_live R) (lookup (version, state_key R u) live)
                      (stop_row R fetched_at u))
                    live,
                same,
              )
              (ap some
                (settle-hash (lookup (version, state_key R u) live) (stop_row R fetched_at u)))
        | inr other ↦
            rw
              (
                lookup-insert (version, state_key R u) k
                    (settle (replace_live R) (lookup (version, state_key R u) live)
                      (stop_row R fetched_at u))
                    live,
                other,
              )
              refl
      ]

  same_hash : (a b : ParsedStopUpdate R) → some a ≡ some b → a.update_hash ≡ b.update_hash
  same_hash a b h = cc

  pub key_same : (a b : StateKey) → (a == b) ≡ true → a ≡ b
  key_same a b h = (pair_eq.beq_iff a b).0 h

  module _ (version fetched_at : ℕ) (previous : Dict StateKey String) (k : StateKey) where
    abbrev written : Dict StateKey (ParsedStopUpdate R) → Dict StateKey (StopRow R) → Option String
    written current live =
        live_hash k
          (execute_many (write_live R version fetched_at) (changed_updates R previous current) live)

    -- One entry of the current updates, written if it has changed.
    abbrev step :
        StateKey × ParsedStopUpdate R → Dict StateKey (StopRow R) → Dict StateKey (StopRow R)
    step e live =
        if is_changed (lookup e.0 previous) e.1.update_hash
        then write_live R version fetched_at e.1 live
        else live

    written-step :
        (e : StateKey × ParsedStopUpdate R) (current : Dict StateKey (ParsedStopUpdate R))
        (live : Dict StateKey (StopRow R))
        → written (e ∷ current) live ≡ written current (step e live)
    unfolding changed_updates
    written-step e current live =
        elim (Bool-cases (is_changed (lookup e.0 previous) e.1.update_hash)) [
          | inl c ↦ rw c refl
          | inr c ↦ rw c refl
        ]

    step-other :
        (e : StateKey × ParsedStopUpdate R) (live : Dict StateKey (StopRow R))
        → IsKeyed R version e
        → (e.0 == k) ≡ false
        → live_hash k (step e live) ≡ live_hash k live
    step-other e live keyed other =
        elim (Bool-cases (is_changed (lookup e.0 previous) e.1.update_hash)) [
          | inl c ↦ rw c (
              live_hash-write_live version fetched_at k e.1 live
              ∙ ap (λ i. if i == k then some e.1.update_hash else live_hash k live) (sym keyed)
              ∙ rw other refl)
          | inr c ↦ rw c refl
        ]

    written-absent :
        (current : Dict StateKey (ParsedStopUpdate R)) (live : Dict StateKey (StopRow R))
        → All (IsKeyed R version) current
        → contains k (keys current) ≡ false
        → written current live ≡ live_hash k live
    unfolding changed_updates
    written-absent [] live keyed absent = refl
    written-absent (e ∷ current) live keyed absent =
        written-step e current live
        ∙ written-absent current (step e live) keyed.1 (ground arith)
        ∙ step-other e live keyed.0 (ground arith)

    step-own :
        (e : StateKey × ParsedStopUpdate R) (live : Dict StateKey (StopRow R))
        → IsKeyed R version e
        → (e.0 == k) ≡ true
        → (is_changed (lookup e.0 previous) e.1.update_hash ≡ false
            → live_hash k live ≡ some e.1.update_hash)
        → live_hash k (step e live) ≡ some e.1.update_hash
    step-own e live keyed same shown =
        elim (Bool-cases (is_changed (lookup e.0 previous) e.1.update_hash)) [
          | inl c ↦ rw c (
              live_hash-write_live version fetched_at k e.1 live
              ∙ ap (λ i. if i == k then some e.1.update_hash else live_hash k live) (sym keyed)
              ∙ rw same refl)
          | inr c ↦ rw c (shown c)
        ]

    pub written-present :
        (current : Dict StateKey (ParsedStopUpdate R)) (live : Dict StateKey (StopRow R))
        (u : ParsedStopUpdate R)
        → IsCurrent R version current
        → lookup k current ≡ some u
        → (is_changed (lookup k previous) u.update_hash ≡ false
            → live_hash k live ≡ some u.update_hash)
        → written current live ≡ some u.update_hash
    written-present [] live u h found shown = cc
    written-present (e ∷ current) live u (distinct, keyed) found shown =
        elim (Bool-cases (e.0 == k)) [
          | inl same ↦
              let own = key_same e.0 k same in
              let hash = same_hash e.1 u (rw same at found) in
              written-step e current live
              ∙ written-absent current (step e live) keyed.1
                  (ap (λ i. contains i (keys current)) (sym own) ∙ distinct.0)
              ∙ step-own e live keyed.0 same (λ c.
                shown (
                  ap (λ i. is_changed (lookup i previous) u.update_hash) (sym own)
                  ∙ ap (is_changed (lookup e.0 previous)) (sym hash)
                  ∙ c)
                ∙ ap some (sym hash))
              ∙ ap some hash
          | inr other ↦
              written-step e current live
              ∙ written-present current (step e live) u (distinct.1, keyed.1) (rw other at found)
                  (λ c. step-other e live keyed.0 other ∙ shown c)
        ]
