-- ===== src/Rail/Writes.antt =====
-- The loop that `_insert_station_events` and `fetch_hacon` of daemon.py share: rows that changed are
-- inserted in one transaction, an error of a row is caught, and the hash is kept before the row is
-- sent. After an error the database refuses every statement of the transaction, and its commit stores
-- nothing. A table is the list of its rows, the newest first, each with its key and hash.
pub mod Backed
pub mod Sent
pub mod Repeat
use mathlib.Core.List.{List, [], ◌∷◌, ◌++◌}
use irish_rail_nabber.Prelude.{
  ℕ, zero, suc, String, Bool, true, false, Option, none, some, if◌then◌else◌, string_eq,
}
use irish_rail_nabber.Prelude.Dict.{Dict, lookup, insert}
use irish_rail_nabber.Rail.Movements.{is_same}

-- What the connection does: whether the pool gives one, the rows the table takes, and whether the
-- commit arrives.
pub record Connection (A : Type 0) : Type 0 where
  pub opens : Bool
  pub accepts : A → Bool
  pub commits : Bool

-- A row with the key and the hash under which it is remembered.
pub record Change (A : Type 0) : Type 0 where
  pub cache_key : String
  pub fingerprint : String
  pub row : A

pub record Transaction (A : Type 0) : Type 0 where
  pub is_aborted : Bool
  pub rows : List (Change A)

-- The hashes in memory, the transaction, and the rows counted.
pub record Writer (A : Type 0) : Type 0 where
  pub known : Dict String String
  pub transaction : Transaction A
  pub count : ℕ

-- The hashes in memory, and the table.
pub record Store (A : Type 0) : Type 0 where
  pub hashes : Dict String String
  pub table : List (Change A)

module _ {A : Type 0} (connection : Connection A) where
  -- `conn.execute`; `false` where it raises.
  unfoldable pub execute : Change A → Transaction A → Bool × Transaction A
  execute c t =
      if t.is_aborted
      then (false, t)
      else if connection.accepts c.row
      then (true, record { is_aborted = false; rows = c ∷ t.rows })
      else (false, record { is_aborted = true; rows = t.rows })

  unfoldable pub insert_row : Change A → Writer A → Writer A
  unfolding execute
  insert_row c w =
      let result = execute c w.transaction in
      record {
        known = insert c.cache_key c.fingerprint w.known;
        transaction = result.1;
        count = if result.0 then suc w.count else w.count;
      }

  -- One round of the loop.
  unfoldable pub insert_change : Change A → Writer A → Writer A
  unfolding insert_row
  insert_change c w =
      if is_same (lookup c.cache_key w.known) c.fingerprint then w else insert_row c w

  unfoldable pub insert_changes : List (Change A) → Writer A → Writer A
  unfolding insert_change
  insert_changes [] w = w
  insert_changes (c ∷ cs) w = insert_changes cs (insert_change c w)

  abbrev pub start : Store A → Writer A
  start s = record {
    known = s.hashes;
    transaction = record { is_aborted = false; rows = [] };
    count = 0;
  }

  -- `conn.commit()`: the table after it; `none` where it raises.
  unfoldable pub commit : Transaction A → List (Change A) → Option (List (Change A))
  commit t table =
      if connection.commits then some (if t.is_aborted then table else t.rows ++ table) else none

  abbrev pub keep : Writer A → Option (List (Change A)) → List (Change A) → Option ℕ × Store A
  keep w none table = (none, record { hashes = w.known; table = table })
  keep w (some after) table = (some w.count, record { hashes = w.known; table = after })

  -- The count of the rows; `none` where an error leaves the loop or the commit.
  unfoldable pub write_changes : List (Change A) → Store A → Option ℕ × Store A
  unfolding insert_changes commit
  write_changes cs s =
      let w = insert_changes cs (start s) in
      if connection.opens then keep w (commit w.transaction s.table) s.table else (none, s)
