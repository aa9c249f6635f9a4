-- ===== src/Bus/Batches/Whole.antt =====
-- The batches of `_chunks` of bus_daemon.py and their rows.
use mathlib.Core.List.{List, [], ◌∷◌, ◌++◌}
use irish_rail_nabber.Prelude.{
  ℕ, zero, suc, ◌≤◌, ◌≡◌, refl, sym, ap, ◌∙◌, arith, length, take, drop, length-take, length-drop,
  take-append-drop, All,
}
use irish_rail_nabber.Bus.Batches.{
  chunks_from, chunks, execute_many, execute_all, write_batches, insert_batch_rows,
}

module _ {ℓ} {A : Type ℓ} where
  abbrev pub concat : List (List A) → List A
  concat [] = []
  concat (batch ∷ batches) = batch ++ concat batches

  -- A batch has a row, and at most `size`.
  abbrev pub IsBatch : ℕ → List A → Type 0
  IsBatch size batch = (1 ≤ length batch) × (length batch ≤ size)

  chunks_from-whole :
      (fuel size : ℕ) (rows : List A)
      → length rows ≤ fuel
      → 1 ≤ size
      → (concat (chunks_from fuel size rows) ≡ rows)
        × All (IsBatch size) (chunks_from fuel size rows)
  unfolding chunks_from
  chunks_from-whole fuel size [] enough h = (refl, tt)
  chunks_from-whole zero size (x ∷ rows) enough h = absurd (omega arith)
  chunks_from-whole (suc fuel) size (x ∷ rows) enough h =
      let later =
        chunks_from-whole fuel size (drop size (x ∷ rows))
          (omega (arith, length-drop size (x ∷ rows))) h in
      (
        ap (λ rest. take size (x ∷ rows) ++ rest) later.0 ∙ take-append-drop size (x ∷ rows),
        (
          (omega (arith, length-take size (x ∷ rows)), omega (arith, length-take size (x ∷ rows))),
          later.1,
        ),
      )

  -- For a size of at least 1, the batches of `_chunks` put together are the rows in their order, and every
  -- batch has at least one row and at most that size.
  pub chunks-whole :
      (rows : List A) (size : ℕ)
      → 1 ≤ size
      → (concat (chunks rows size) ≡ rows) × All (IsBatch size) (chunks rows size)
  unfolding chunks
  chunks-whole rows size h = chunks_from-whole (length rows) size rows (omega arith) h

module _ {ℓ κ} {A : Type ℓ} {S : Type κ} (statement : A → S → S) where
  execute_many-append :
      (xs ys : List A) (s : S)
      → execute_many statement (xs ++ ys) s
        ≡ execute_many statement ys (execute_many statement xs s)
  execute_many-append [] ys s = refl
  execute_many-append (x ∷ xs) ys s = execute_many-append xs ys (statement x s)

  execute_all-concat :
      (batches : List (List A)) (s : S)
      → execute_all statement batches s ≡ execute_many statement (concat batches) s
  unfolding execute_all
  execute_all-concat [] s = refl
  execute_all-concat (b ∷ bs) s =
      execute_all-concat bs (execute_many statement b s) ∙ sym (execute_many-append b (concat bs) s)

  -- Writing in batches does what writing all rows one after the other does.
  pub write_batches_lem :
      (rows : List A) (s : S) → write_batches statement rows s ≡ execute_many statement rows s
  unfolding write_batches
  write_batches_lem rows s =
      execute_all-concat (chunks rows insert_batch_rows) s
      ∙ ap (λ r. execute_many statement r s) (chunks-whole rows insert_batch_rows (omega arith)).0
