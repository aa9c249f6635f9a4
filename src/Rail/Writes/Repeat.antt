-- ===== src/Rail/Writes/Repeat.antt =====
-- The shared loop of daemon.py, given the same changes again.
use mathlib.Core.List.{List, [], ◌∷◌}
use irish_rail_nabber.Prelude.{
  String, ◌≡◌, refl, ap, ◌∙◌, true, some, inl, inr, string_eq, Bool-cases, All, All-map,
}
use irish_rail_nabber.Prelude.Dict.{lookup}
use irish_rail_nabber.Prelude.Dict.Keys.{Distinct}
use irish_rail_nabber.Rail.Writes.{
  Connection, Change, Writer, Store, insert_changes, start, commit, keep, write_changes,
}
use irish_rail_nabber.Rail.Writes.Backed.{lookup-insert_changes}
use irish_rail_nabber.Rail.Writes.Sent.{cache_keys, Distinct-last, insert_change-same}

module _ {A : Type 0} where
  lookup-kept :
      (connection : Connection A) (w : Writer A) (table : List (Change A)) (k : String)
      → lookup k (keep connection w (commit connection w.transaction table) table).1.hashes
        ≡ lookup k w.known
  unfolding commit
  lookup-kept connection w table k = elim (Bool-cases connection.commits) [
    | inl e ↦ rw e refl
    | inr e ↦ rw e refl
  ]

  -- After a cycle the hash of each change is known, whether or not it was stored.
  pub write_changes-known :
      (connection : Connection A) (cs : List (Change A)) (s : Store A)
      → connection.opens ≡ true
      → Distinct (cache_keys cs)
      → All
          (λ c. lookup c.cache_key (write_changes connection cs s).1.hashes ≡ some c.fingerprint)
          cs
  unfolding write_changes
  write_changes-known connection cs s opens distinct =
      All-map _ _
        (λ c last. rw opens (
          lookup-kept connection (insert_changes connection cs (start connection s)) s.table
            c.cache_key
          ∙ lookup-insert_changes connection cs (start connection s) c.cache_key
          ∙ last (lookup c.cache_key s.hashes)))
        cs (Distinct-last cs distinct)

  insert_changes-same :
      (connection : Connection A) (cs : List (Change A)) (w : Writer A)
      → All (λ c. lookup c.cache_key w.known ≡ some c.fingerprint) cs
      → insert_changes connection cs w ≡ w
  unfolding insert_changes
  insert_changes-same connection [] w known = refl
  insert_changes-same connection (c ∷ cs) w known =
      ap (insert_changes connection cs) (
        insert_change-same connection c w
          (rw known.0 ((string_eq.beq_iff c.fingerprint c.fingerprint).1 refl)))
      ∙ insert_changes-same connection cs w known.1

  keep-start :
      (connection : Connection A) (s : Store A)
      → (keep connection
          (start connection s)
          (commit connection (start connection s).transaction s.table)
          s.table).1
        ≡ s
  unfolding commit
  keep-start connection s = elim (Bool-cases connection.commits) [
    | inl e ↦ rw e refl
    | inr e ↦ rw e refl
  ]

  -- Changes whose hashes are known write nothing.
  pub write_changes-same :
      (connection : Connection A) (cs : List (Change A)) (s : Store A)
      → All (λ c. lookup c.cache_key s.hashes ≡ some c.fingerprint) cs
      → (write_changes connection cs s).1 ≡ s
  unfolding write_changes
  write_changes-same connection cs s known = elim (Bool-cases connection.opens) [
    | inl e ↦
        rw (e, insert_changes-same connection cs (start connection s) known)
          (keep-start connection s)
    | inr e ↦ rw e refl
  ]
