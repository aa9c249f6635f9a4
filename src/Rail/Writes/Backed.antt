-- ===== src/Rail/Writes/Backed.antt =====
-- The hashes that the shared loop of daemon.py keeps, and the rows of its table.
use mathlib.Core.List.{List, [], ◌∷◌, ◌++◌}
use irish_rail_nabber.Prelude.{
  String, ◌≡◌, refl, sym, ap, ◌∙◌, true, false, Option, none, some, inl, inr, if◌then◌else◌,
  string_eq, ◌==◌, Bool-cases,
}
use irish_rail_nabber.Prelude.Dict.{lookup, lookup-insert}
use irish_rail_nabber.Rail.Movements.{is_same}
use irish_rail_nabber.Rail.Movements.Backed.{is_same-some, IsKnown}
use irish_rail_nabber.Rail.Writes.{
  Connection, Change, Writer, Store, execute, insert_row, insert_change, insert_changes, start,
  commit, write_changes,
}

module _ {A : Type 0} where
  -- The hash of the newest row with a key.
  abbrev pub latest_fingerprint : String → List (Change A) → Option String
  latest_fingerprint k [] = none
  latest_fingerprint k (c ∷ table) =
      if c.cache_key == k then some c.fingerprint else latest_fingerprint k table

  -- The hash of the last change of a list with a key, or else `o`.
  abbrev pub last_fingerprint : String → List (Change A) → Option String → Option String
  last_fingerprint k [] o = o
  last_fingerprint k (c ∷ cs) o =
      last_fingerprint k cs (if c.cache_key == k then some c.fingerprint else o)

  -- Every hash in memory is the one of the newest row with its key.
  abbrev pub IsStored : Store A → Type 0
  IsStored s = (k : String) → IsKnown (lookup k s.hashes) (latest_fingerprint k s.table)

  module _ (connection : Connection A) where
    lookup-insert_change :
        (c : Change A) (w : Writer A) (k : String)
        → lookup k (insert_change connection c w).known
          ≡ (if c.cache_key == k then some c.fingerprint else lookup k w.known)
    unfolding insert_change insert_row
    lookup-insert_change c w k =
        elim (Bool-cases (is_same (lookup c.cache_key w.known) c.fingerprint)) [
          | inr other ↦ rw other (lookup-insert c.cache_key k c.fingerprint w.known)
          | inl same ↦ rw same (elim (Bool-cases (c.cache_key == k)) [
            | inr elsewhere ↦ rw elsewhere refl
            | inl here ↦ rw here (
                ap (λ j. lookup j w.known) (sym ((string_eq.beq_iff c.cache_key k).0 here))
                ∙ is_same-some _ _ same)
          ])
        ]

    pub lookup-insert_changes :
        (cs : List (Change A)) (w : Writer A) (k : String)
        → lookup k (insert_changes connection cs w).known ≡ last_fingerprint k cs (lookup k w.known)
    unfolding insert_changes
    lookup-insert_changes [] w k = refl
    lookup-insert_changes (c ∷ cs) w k =
        lookup-insert_changes cs (insert_change connection c w) k
        ∙ ap (last_fingerprint k cs) (lookup-insert_change c w k)

    module _ (accepts_all : (a : A) → connection.accepts a ≡ true) (table : List (Change A)) where
      -- The transaction is not aborted, and every hash is the one of the newest row.
      abbrev IsOpen : Writer A → Type 0
      IsOpen w =
          (w.transaction.is_aborted ≡ false)
          × ((k : String)
              → IsKnown (lookup k w.known) (latest_fingerprint k (w.transaction.rows ++ table)))

      insert_row-IsOpen :
          (c : Change A) (w : Writer A) → IsOpen w → IsOpen (insert_row connection c w)
      unfolding insert_row execute
      insert_row-IsOpen c w (active, known) =
          rw (active, accepts_all c.row)
            (
              refl,
              λ k. elim (Bool-cases (c.cache_key == k)) [
                | inl here ↦ rw (lookup-insert c.cache_key k c.fingerprint w.known, here) refl
                | inr other ↦
                    rw (lookup-insert c.cache_key k c.fingerprint w.known, other) (known k)
              ],
            )

      insert_change-IsOpen :
          (c : Change A) (w : Writer A) → IsOpen w → IsOpen (insert_change connection c w)
      unfolding insert_change
      insert_change-IsOpen c w h =
          elim (Bool-cases (is_same (lookup c.cache_key w.known) c.fingerprint)) [
            | inl same ↦ rw same h
            | inr other ↦ rw other (insert_row-IsOpen c w h)
          ]

      insert_changes-IsOpen :
          (cs : List (Change A)) (w : Writer A) → IsOpen w → IsOpen (insert_changes connection cs w)
      unfolding insert_changes
      insert_changes-IsOpen [] w h = h
      insert_changes-IsOpen (c ∷ cs) w h =
          insert_changes-IsOpen cs (insert_change connection c w) (insert_change-IsOpen c w h)

    -- A cycle in which nothing fails keeps the hashes those of the newest rows, and each key of the
    -- response has the hash of its last change.
    pub write_changes-IsStored :
        ((a : A) → connection.accepts a ≡ true)
        → connection.opens ≡ true
        → connection.commits ≡ true
        → (cs : List (Change A)) (s : Store A) → IsStored s
        → let s' = (write_changes connection cs s).1 in
          IsStored s'
          × ((k : String) → lookup k s'.hashes ≡ last_fingerprint k cs (lookup k s.hashes))
    unfolding write_changes commit
    write_changes-IsStored accepts_all opens commits cs s stored =
        let w = insert_changes-IsOpen accepts_all s.table cs (start connection s) (refl, stored) in
        rw (opens, commits, w.0) (w.1, lookup-insert_changes cs (start connection s))
