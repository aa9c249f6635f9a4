-- ===== src/Storage/Resumed.antt =====
-- What the runs of backfill_bus_storage.py have copied, however often they stop and go on.
use mathlib.Core.List.{List, [], ◌∷◌, ◌++◌}
use irish_rail_nabber.Prelude.{
  ℕ, zero, suc, ◌+◌, ◌≤◌, ◌≡◌, ◌∙◌, Bool, ◌||◌, Option, none, inl, inr, leb, nat_beq, nat_eq,
  if◌then◌else◌, select, Bool-cases, arith,
}
use irish_rail_nabber.Storage.{
  lowest, highest, before_first, last_of, Progress, started, in_range, is_limited, upper_id,
  copy_batch, copy_batches, fuel_of, archive,
}

-- How often an id stands in a list.
abbrev pub occurrences : ℕ → List ℕ → ℕ
occurrences k [] = 0
occurrences k (id ∷ ids) = let rest = occurrences k ids in if nat_beq id k then suc rest else rest

occurrences-append :
    (k : ℕ) (xs ys : List ℕ) → occurrences k (xs ++ ys) ≡ occurrences k xs + occurrences k ys
occurrences-append k [] ys = omega arith
occurrences-append k (x ∷ xs) ys = ground (arith, occurrences-append k xs ys)

occurrences-select :
    (a b k : ℕ) (ids : List ℕ)
    → occurrences k (select (in_range a b) ids) ≡ (if in_range a b k then occurrences k ids else 0)
occurrences-select a b k [] = ground arith
occurrences-select a b k (id ∷ ids) = ground (arith, occurrences-select a b k ids)

-- From the id `first` on, each id up to the last one is in the copy as often as in the source, and no
-- other is.
pub record IsCopied (source : List ℕ) (first : ℕ) (p : Progress) : Type 0 where
  pub ordered : first ≤ p.last_id
  pub within : p.last_id ≤ p.target_id
  pub exact :
      (k : ℕ)
      → occurrences k p.copied ≡ (if in_range first p.last_id k then occurrences k source else 0)

module _ (batch_size : ℕ) (limit : Option ℕ) (source : List ℕ) (has_space : ℕ → Bool)
    (first : ℕ) where
  copy_batch-IsCopied :
      (p : Progress)
      → IsCopied source first p
      → IsCopied source first (copy_batch batch_size limit source has_space p)
  unfolding copy_batch
  copy_batch-IsCopied p h = record {
    ordered = ground (arith, h.ordered, h.within);
    within = ground (arith, h.within);
    exact = λ k.
        occurrences-append k p.copied
          (select (in_range p.last_id (upper_id batch_size limit source has_space p)) source)
        ∙ ground (
          arith,
          h.exact k,
          h.ordered,
          h.within,
          occurrences-select p.last_id (upper_id batch_size limit source has_space p) k source,
        );
  }

  copy_batches-IsCopied :
      (fuel batches : ℕ) (p : Progress)
      → IsCopied source first p
      → IsCopied source first (copy_batches batch_size limit source has_space fuel batches p).1
  unfolding copy_batches
  copy_batches-IsCopied zero batches p h = h
  copy_batches-IsCopied (suc fuel) batches p h =
      elim (Bool-cases (leb p.target_id p.last_id || is_limited limit batches)) [
        | inl done ↦ rw done h
        | inr open_range ↦ elim (Bool-cases (has_space batches)) [
          | inr full ↦ rw (open_range, full) h
          | inl free ↦
              rw (open_range, free)
                (copy_batches-IsCopied fuel (suc batches)
                  (copy_batch batch_size limit source has_space p) (copy_batch-IsCopied p h))
        ]
      ]

  -- A run of `archive`, from a new progress row or from the one that an earlier run left, keeps this: each
  -- id from the first on up to the last one of the progress row is in the copy as often as in the source,
  -- and no other id is. It does so whatever the batch size and the limit are, and wherever the free space
  -- ends.
  pub archive-IsCopied :
      (progress : Option Progress)
      → IsCopied source first (started source 0 progress)
      → IsCopied source first (archive batch_size limit source has_space progress).1
  unfolding archive
  archive-IsCopied progress h =
      copy_batches-IsCopied (fuel_of batch_size limit source has_space (started source 0 progress))
        0 (started source 0 progress) h

lowest_bound : (a : ℕ) (ids : List ℕ) → lowest a ids ≤ a
lowest_bound a [] = omega arith
lowest_bound a (id ∷ ids) = ground arith

highest_bound : (a : ℕ) (ids : List ℕ) → a ≤ highest a ids
highest_bound a [] = omega arith
highest_bound a (id ∷ ids) = ground (arith, highest_bound a ids)

before_last : (source : List ℕ) → before_first source ≤ last_of source
before_last [] = omega arith
before_last (id ∷ ids) = omega (arith, lowest_bound id ids, highest_bound id ids)

-- A new progress row has copied nothing.
pub started-IsCopied :
    (source : List ℕ) (as_of : ℕ)
    → IsCopied source (before_first source) (started source as_of none)
started-IsCopied source as_of = record {
  ordered = omega arith;
  within = before_last source;
  exact = λ k. ground arith;
}
