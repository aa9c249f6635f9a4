-- ===== src/Bus/Batches.antt =====
-- `_chunks` of bus_daemon.py, and the loops that pass its batches to `executemany`.
pub mod Whole
use mathlib.Core.List.{List, [], ◌∷◌}
use irish_rail_nabber.Prelude.{ℕ, zero, suc, length, take, drop}

module _ {ℓ} {A : Type ℓ} where
  -- The slices `rows[start : start + size]` for the starts `0, size, ...` below `len(rows)`.
  unfoldable pub chunks_from : ℕ → ℕ → List A → List (List A)
  chunks_from fuel size [] = []
  chunks_from zero size (x ∷ rows) = []
  chunks_from (suc fuel) size (x ∷ rows) =
      take size (x ∷ rows) ∷ chunks_from fuel size (drop size (x ∷ rows))

  -- `_chunks`: every slice takes a row, so that there are at most as many as rows.
  unfoldable pub chunks : List A → ℕ → List (List A)
  unfolding chunks_from
  chunks rows size = chunks_from (length rows) size rows

-- `INSERT_BATCH_ROWS`
abbrev pub insert_batch_rows : ℕ
insert_batch_rows = 1000

module _ {ℓ κ} {A : Type ℓ} {S : Type κ} where
  -- `cursor.executemany(statement, rows)`, one row after the other.
  abbrev pub execute_many : (A → S → S) → List A → S → S
  execute_many statement [] s = s
  execute_many statement (x ∷ rows) s = execute_many statement rows (statement x s)

  unfoldable pub execute_all : (A → S → S) → List (List A) → S → S
  execute_all statement [] s = s
  execute_all statement (batch ∷ batches) s =
      execute_all statement batches (execute_many statement batch s)

  -- `for batch in _chunks(rows, INSERT_BATCH_ROWS): await cursor.executemany(statement, batch)`
  unfoldable pub write_batches : (A → S → S) → List A → S → S
  unfolding execute_all chunks
  write_batches statement rows s = execute_all statement (chunks rows insert_batch_rows) s
