-- ===== src/Storage.antt =====
-- `archive` and `samples` of backfill_bus_storage.py, which copy the rows of `bus_stop_updates` in batches
-- of their ids. A source is the list of its ids; a copy is the list of the ids that were handed on.
pub mod Resumed
pub mod Finished
use mathlib.Core.List.{List, [], ◌∷◌, ◌++◌}
use irish_rail_nabber.Prelude.{
  ℕ, zero, suc, ◌+◌, ◌-◌, Bool, true, false, not, ◌&&◌, ◌||◌, Option, none, some, leb, ltb, nat_beq,
  if◌then◌else◌, select,
}

-- A row of `bus_storage_backfill_progress`, with the instant that the samples are taken at, and the copy.
pub record Progress : Type 0 where
  pub last_id : ℕ
  pub target_id : ℕ
  pub as_of : ℕ
  pub copied : List ℕ

-- How a run ends: at the target or its limit, without free space, with another instant, or, in the model
-- alone, without fuel.
pub data Ended : Type 0 where
  stopped : Ended
  no_space : Ended
  other_as_of : Ended
  out_of_fuel : Ended

abbrev pub min_of : ℕ → ℕ → ℕ
min_of a b = if leb a b then a else b

abbrev pub lowest : ℕ → List ℕ → ℕ
lowest a [] = a
lowest a (id ∷ ids) = min_of a (lowest id ids)

abbrev pub highest : ℕ → List ℕ → ℕ
highest a [] = a
highest a (id ∷ ids) = if leb (highest id ids) a then a else highest id ids

-- `COALESCE(MIN(id) - 1, 0)`, and `COALESCE(MAX(id), 0)`
abbrev pub before_first : List ℕ → ℕ
before_first [] = 0
before_first (id ∷ ids) = lowest id ids - 1

abbrev pub last_of : List ℕ → ℕ
last_of [] = 0
last_of (id ∷ ids) = highest id ids

-- The row that a run starts with: the one that is there, or a new one.
abbrev pub started : List ℕ → ℕ → Option Progress → Progress
started source as_of (some p) = p
started source as_of none = record {
  last_id = before_first source;
  target_id = last_of source;
  as_of = as_of;
  copied = [];
}

-- `limit_batches is not None and batches >= limit_batches`
abbrev pub is_limited : Option ℕ → ℕ → Bool
is_limited none batches = false
is_limited (some limit) batches = leb limit batches

-- `WHERE u.id > last AND u.id <= upper`
abbrev pub in_range : ℕ → ℕ → ℕ → Bool
in_range last upper id = ltb last id && leb id upper

module _ (batch_size : ℕ) (limit : Option ℕ) (source : List ℕ) (has_space : ℕ → Bool) where
  abbrev pub upper_id : Progress → ℕ
  upper_id p = min_of (p.last_id + batch_size) p.target_id

  -- The transaction of one batch.
  unfoldable pub copy_batch : Progress → Progress
  copy_batch p = record {
    last_id = upper_id p;
    target_id = p.target_id;
    as_of = p.as_of;
    copied = p.copied ++ select (in_range p.last_id (upper_id p)) source;
  }

  -- The loop. `has_space batches` says whether there is free space before a batch.
  unfoldable pub copy_batches : ℕ → ℕ → Progress → Ended × Progress
  unfolding copy_batch
  copy_batches zero batches p = (out_of_fuel, p)
  copy_batches (suc fuel) batches p =
      let rest = copy_batches fuel (suc batches) (copy_batch p) in
      if leb p.target_id p.last_id || is_limited limit batches
      then (stopped, p)
      else if has_space batches
      then rest
      else (no_space, p)

  abbrev pub fuel_of : Progress → ℕ
  fuel_of p = suc (p.target_id - p.last_id)

  -- `archive`
  unfoldable pub archive : Option Progress → Ended × Progress
  unfolding copy_batches
  archive progress = let p = started source 0 progress in copy_batches (fuel_of p) 0 p

  -- `samples`, which goes on with the instant of its progress row only.
  unfoldable pub samples : ℕ → Option Progress → Ended × Progress
  unfolding copy_batches
  samples as_of progress =
      let p = started source as_of progress in
      if nat_beq p.as_of as_of then copy_batches (fuel_of p) 0 p else (other_as_of, p)
