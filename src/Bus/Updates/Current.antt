-- ===== src/Bus/Updates/Current.antt =====
-- The updates of one poll by key: what `_insert_trip_updates` compares with the previous poll.
use mathlib.Core.List.{List, [], ◌∷◌}
use irish_rail_nabber.Prelude.{
  ℕ, String, ◌≡◌, refl, ap, ◌∙◌, Option, none, some, inl, inr, nat_eq, string_eq, pair_eq, All,
  All-map, Bool-cases, ◌==◌,
}
use irish_rail_nabber.Prelude.Dict.{Dict, lookup, insert, keys}
use irish_rail_nabber.Prelude.Dict.Keys.{Distinct, Distinct-keys-insert, Distinct-found, All-insert}
use irish_rail_nabber.Python.Runtime.{Runtime}
use irish_rail_nabber.Bus.Records.{ParsedStopUpdate, state_key}
use irish_rail_nabber.Bus.Tables.{StateKey}
use irish_rail_nabber.Bus.Updates.{current_from, changed_updates, update_hashes}

-- The hash that a found update has.
abbrev pub hash_of : {R : Runtime} → Option (ParsedStopUpdate R) → Option String
hash_of none = none
hash_of (some u) = some u.update_hash

module _ (R : Runtime) where
  -- Every entry stands under the key of its update.
  abbrev pub IsKeyed : ℕ → StateKey × ParsedStopUpdate R → Type 0
  IsKeyed version e = e.0 ≡ (version, state_key R e.1)

  abbrev pub IsCurrent : ℕ → Dict StateKey (ParsedStopUpdate R) → Type 0
  IsCurrent version current = Distinct (keys current) × All (IsKeyed version) current

  pub current_from-IsCurrent :
      (version : ℕ) (us : List (ParsedStopUpdate R)) (current : Dict StateKey (ParsedStopUpdate R))
      → IsCurrent version current
      → IsCurrent version (current_from R version us current)
  unfolding current_from
  current_from-IsCurrent version [] current h = h
  current_from-IsCurrent version (u ∷ us) current h =
      current_from-IsCurrent version us (insert (version, state_key R u) u current) (
        Distinct-keys-insert (version, state_key R u) u current h.0,
        All-insert (IsKeyed version) (version, state_key R u) u current (λ j e. e) h.1,
      )

  pub lookup-update_hashes :
      (k : StateKey) (current : Dict StateKey (ParsedStopUpdate R))
      → lookup k (update_hashes R current) ≡ hash_of (lookup k current)
  unfolding update_hashes
  lookup-update_hashes k [] = refl
  lookup-update_hashes k (e ∷ current) = elim (Bool-cases (e.0 == k)) [
    | inl same ↦ rw same refl
    | inr other ↦ rw other (lookup-update_hashes k current)
  ]

  changed_updates-none :
      (previous : Dict StateKey String) (current : Dict StateKey (ParsedStopUpdate R))
      → All (λ e. lookup e.0 previous ≡ some e.1.update_hash) current
      → changed_updates R previous current ≡ []
  unfolding changed_updates
  changed_updates-none previous [] h = refl
  changed_updates-none previous (e ∷ current) h =
      rw (h.0, (string_eq.beq_iff e.1.update_hash e.1.update_hash).1 refl)
        (changed_updates-none previous current h.1)

  -- Against its own hashes, no update has changed.
  pub changed_updates-update_hashes :
      (current : Dict StateKey (ParsedStopUpdate R))
      → Distinct (keys current)
      → changed_updates R (update_hashes R current) current ≡ []
  changed_updates-update_hashes current h = changed_updates-none (update_hashes R current) current (
      All-map (λ e. lookup e.0 current ≡ some e.1)
        (λ e. lookup e.0 (update_hashes R current) ≡ some e.1.update_hash)
        (λ e found. lookup-update_hashes e.0 current ∙ ap hash_of found) current
        (Distinct-found current h))
