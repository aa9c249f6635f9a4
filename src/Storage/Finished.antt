-- ===== src/Storage/Finished.antt =====
-- A run of backfill_bus_storage.py ends, and without limit it reaches the target.
use mathlib.Core.List.{List}
use irish_rail_nabber.Prelude.{
  ℕ, zero, suc, ◌-◌, ◌≤◌, ◌≡◌, refl, ap, ◌∙◌, Bool, true, false, ◌||◌, Option, none, inl, inr, leb,
  if◌then◌else◌, Bool-cases, arith,
}
use irish_rail_nabber.Storage.{
  Progress, Ended, stopped, out_of_fuel, started, in_range, is_limited, copy_batch, copy_batches,
  fuel_of, archive,
}
use irish_rail_nabber.Storage.Resumed.{occurrences, IsCopied, archive-IsCopied}

abbrev pub is_out_of_fuel : Ended → Bool
is_out_of_fuel out_of_fuel = true
is_out_of_fuel _ = false

module _ (batch_size : ℕ) (limit : Option ℕ) (source : List ℕ) (has_space : ℕ → Bool)
    (positive : 1 ≤ batch_size) where
  nearer :
      (p : Progress)
      → leb p.target_id p.last_id ≡ false
      → suc (
          (copy_batch batch_size limit source has_space p).target_id
          - (copy_batch batch_size limit source has_space p).last_id)
        ≤ p.target_id - p.last_id
  unfolding copy_batch
  nearer p h = ground arith

  open_of : (a b : Bool) → (a || b) ≡ false → a ≡ false
  open_of a b h = ground arith

  copy_batches-ends :
      (fuel batches : ℕ) (p : Progress)
      → suc (p.target_id - p.last_id) ≤ fuel
      → is_out_of_fuel (copy_batches batch_size limit source has_space fuel batches p).0 ≡ false
  unfolding copy_batches
  copy_batches-ends zero batches p h = elim (absurd_le h) [ ]
    where
      absurd_le : {n : ℕ} → suc n ≤ 0 → ⊥
      absurd_le e = omega arith
  copy_batches-ends (suc fuel) batches p h =
      elim (Bool-cases (leb p.target_id p.last_id || is_limited limit batches)) [
        | inl done ↦ rw done refl
        | inr more ↦ elim (Bool-cases (has_space batches)) [
          | inr full ↦ rw (more, full) refl
          | inl free ↦
              rw (more, free)
                (copy_batches-ends fuel (suc batches)
                  (copy_batch batch_size limit source has_space p)
                  (omega (arith, nearer p (open_of _ _ more))))
        ]
      ]

  -- With a batch size of at least 1 the fuel is enough: `archive` ends at its limit, at the target or for
  -- want of free space, from whatever progress row.
  pub archive-ends :
      (progress : Option Progress)
      → is_out_of_fuel (archive batch_size limit source has_space progress).0 ≡ false
  unfolding archive
  archive-ends progress =
      copy_batches-ends (fuel_of batch_size limit source has_space (started source 0 progress)) 0
        (started source 0 progress) (omega arith)

module _ (batch_size : ℕ) (source : List ℕ) (has_space : ℕ → Bool) (positive : 1 ≤ batch_size)
    (free : (n : ℕ) → has_space n ≡ true) where
  -- The run ends at the target.
  abbrev IsAtTarget : Progress → Ended × Progress → Type 0
  IsAtTarget p r = (r.0 ≡ stopped) × (p.target_id ≤ r.1.last_id) × (r.1.target_id ≡ p.target_id)

  target-copy_batch :
      (p : Progress) → (copy_batch batch_size none source has_space p).target_id ≡ p.target_id
  unfolding copy_batch
  target-copy_batch p = refl

  at_target :
      (p q : Progress) (r : Ended × Progress)
      → q.target_id ≡ p.target_id
      → IsAtTarget q r
      → IsAtTarget p r
  at_target p q r same h = (h.0, omega (arith, h.1, same), h.2 ∙ same)

  copy_batches-IsAtTarget :
      (fuel batches : ℕ) (p : Progress)
      → suc (p.target_id - p.last_id) ≤ fuel
      → IsAtTarget p (copy_batches batch_size none source has_space fuel batches p)
  unfolding copy_batches
  copy_batches-IsAtTarget zero batches p h = elim (no_fuel h) [ ]
    where
      no_fuel : {n : ℕ} → suc n ≤ 0 → ⊥
      no_fuel e = omega arith
  copy_batches-IsAtTarget (suc fuel) batches p h = elim (Bool-cases (leb p.target_id p.last_id)) [
    | inl done ↦ rw done (refl, ground arith, refl)
    | inr more ↦
        rw (more, free batches)
          (at_target p (copy_batch batch_size none source has_space p)
            (copy_batches batch_size none source has_space fuel (suc batches)
              (copy_batch batch_size none source has_space p))
            (target-copy_batch p)
            (copy_batches-IsAtTarget fuel (suc batches)
              (copy_batch batch_size none source has_space p)
              (omega (arith, nearer batch_size none source has_space positive p more))))
  ]

  archive-IsAtTarget :
      (progress : Option Progress)
      → IsAtTarget (started source 0 progress) (archive batch_size none source has_space progress)
  unfolding archive
  archive-IsAtTarget progress =
      copy_batches-IsAtTarget (fuel_of batch_size none source has_space (started source 0 progress))
        0 (started source 0 progress) (omega arith)

  -- Whatever runs came before, a run of `archive` without a limit and with enough free space stops at the
  -- target, and then each id from the first on up to the target is in the copy as often as in the source,
  -- and no other id is. The batch size is at least 1.
  pub archive_complete :
      (first : ℕ) (progress : Option Progress)
      → IsCopied source first (started source 0 progress)
      → let r = archive batch_size none source has_space progress in
        (r.0 ≡ stopped)
        × ((k : ℕ)
            → occurrences k r.1.copied ≡ (
                if in_range first (started source 0 progress).target_id k
                then occurrences k source
                else 0))
  archive_complete first progress h =
      let p = started source 0 progress in
      let copied = archive-IsCopied batch_size none source has_space first progress h in
      let ended = archive-IsAtTarget progress in
      (
        ended.0,
        λ k.
            copied.exact k
            ∙ ap (λ n. if in_range first n k then occurrences k source else 0)
                (between ended.1 copied.within ended.2),
      )
    where
      between : {a b c : ℕ} → a ≤ b → b ≤ c → c ≡ a → b ≡ a
      between h k e = omega arith
