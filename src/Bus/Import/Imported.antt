-- ===== src/Bus/Import/Imported.antt =====
-- That an import of bus_daemon.py keeps the version that it is about.
use mathlib.Core.Path.{subst}
use mathlib.Core.List.{List, [], ◌∷◌, map}
use irish_rail_nabber.Prelude.{
  ℕ, String, ◌≡◌, refl, sym, ◌∙◌, Bool, true, false, Option, none, some, ◌⊎◌, inl, inr, arith, ltb,
  nat_beq, nat_beq_iff, nat_eq, string_eq, length, is_some, any_of, Bool-cases, some-eq, none-some,
}
use irish_rail_nabber.Prelude.Result.{OnOk-ok, Result-cases, Result, ok, OnOk}
use irish_rail_nabber.Python.Runtime.{Runtime}
use irish_rail_nabber.Bus.Error.{Error}
use irish_rail_nabber.Bus.Static.Csv.{Archive}
use irish_rail_nabber.Bus.Static.Trips.{iter_bus_stop_times, iter_bus_shape_points}
use irish_rail_nabber.Bus.Static.Select.{StaticFeedSelection}
use irish_rail_nabber.Bus.Versions.{FeedVersion, Catalogue, is_match, higher, existing_version}
use irish_rail_nabber.Bus.Versions.Active.{is_imported}
use irish_rail_nabber.Bus.Import.{
  mark_shapes, restore_stop_times, restore_shape_points, unless, new_row,
}

-- A version with the identifier is imported.
abbrev pub has_imported : ℕ → List FeedVersion → Bool
has_imported version versions = any_of (is_imported version) versions

higher-cases : (v : FeedVersion) (o : Option FeedVersion) → (higher v o ≡ some v) ⊎ (higher v o ≡ o)
higher-cases v none = inl refl
higher-cases v (some w) = elim (Bool-cases (ltb v.id w.id)) [
  | inl below ↦ inr (rw below refl)
  | inr above ↦ inl (rw above refl)
]

match_imported :
    (digest : String) (v : FeedVersion)
    → is_match digest v ≡ true
    → is_some v.imported_at ≡ true
    → is_imported v.id v ≡ true
match_imported digest v h k = ground (arith, nat_beq_iff v.id v.id)

pub existing_version_imported :
    (digest : String) (vs : List FeedVersion) (v : FeedVersion)
    → existing_version digest vs ≡ some v
    → is_some v.imported_at ≡ true
    → has_imported v.id vs ≡ true
unfolding existing_version
existing_version_imported digest [] v h k = none-some h
existing_version_imported digest (w ∷ vs) v h k = elim (Bool-cases (is_match digest w)) [
  | inr other ↦ later w v vs (existing_version_imported digest vs v (rw other at h) k)
  | inl found ↦ elim (higher-cases w (existing_version digest vs)) [
    | inl itself ↦ here w v vs found k (some-eq (sym itself ∙ rw found at h))
    | inr rest ↦ later w v vs (existing_version_imported digest vs v (sym rest ∙ rw found at h) k)
  ]
]
  where
    later :
        (w v : FeedVersion) (vs : List FeedVersion)
        → has_imported v.id vs ≡ true
        → has_imported v.id (w ∷ vs) ≡ true
    later w v vs e = ground (arith, e)

    here :
        (w v : FeedVersion) (vs : List FeedVersion)
        → is_match digest w ≡ true
        → is_some v.imported_at ≡ true
        → w ≡ v
        → has_imported v.id (w ∷ vs) ≡ true
    here w v vs found k e =
        rw
          (subst (λ u. is_imported u.id w ≡ true) e
            (match_imported digest w found (subst (λ u. is_some u.imported_at ≡ true) (sym e) k)))
          refl

pub has_imported-mark_shapes :
    (version k : ℕ) (vs : List FeedVersion)
    → has_imported version (map (mark_shapes k) vs) ≡ has_imported version vs
has_imported-mark_shapes version k [] = refl
has_imported-mark_shapes version k (v ∷ vs) = elim (Bool-cases (nat_beq v.id k)) [
  | inl same ↦ rw (same, has_imported-mark_shapes version k vs) refl
  | inr other ↦ rw (other, has_imported-mark_shapes version k vs) refl
]

module _ (R : Runtime) where
  pub new_row-has_imported :
      (version : ℕ) (digest : String) (now : ℕ) (vs : List FeedVersion)
      → has_imported version (new_row R version digest now ∷ vs) ≡ true
  new_row-has_imported version digest now vs = rw ((nat_beq_iff version version).1 refl) refl

  abbrev pub Has : ℕ → ℕ × Catalogue R → Type 0
  Has version t = has_imported version t.1.versions ≡ true

  pub restore_stop_times-Has :
      (archive : Archive) (selection : StaticFeedSelection R) (version : ℕ) (c : Catalogue R)
      → has_imported version c.versions ≡ true
      → OnOk (Has version) (restore_stop_times R archive selection version c)
  unfolding restore_stop_times
  restore_stop_times-Has archive selection version c h =
      elim (Result-cases (iter_bus_stop_times R archive selection.trip_ids)) [
        | inl (x, e) ↦ rw e tt
        | inr (rows, e) ↦ elim (Bool-cases (nat_beq (length rows) selection.stop_time_count)) [
          | inl same ↦ rw (e, same) h
          | inr other ↦ rw (e, other) tt
        ]
      ]

  pub restore_shape_points-Has :
      (archive : Archive) (selection : StaticFeedSelection R) (version : ℕ) (c : Catalogue R)
      → has_imported version c.versions ≡ true
      → OnOk (Has version) (restore_shape_points R archive selection version c)
  unfolding restore_shape_points
  restore_shape_points-Has archive selection version c h =
      elim (Result-cases (iter_bus_shape_points R archive selection.shape_ids)) [
        | inl (x, e) ↦ rw e tt
        | inr (rows, e) ↦ elim (Bool-cases (nat_beq (length rows) selection.shape_point_count)) [
          | inl same ↦ rw (e, same) (has_imported-mark_shapes version version c.versions ∙ h)
          | inr other ↦ rw (e, other) tt
        ]
      ]

  pub unless-Has :
      (version : ℕ) (b : Bool) (c : Catalogue R) (m : Result Error (ℕ × Catalogue R))
      → has_imported version c.versions ≡ true
      → OnOk (Has version) m
      → OnOk (Has version) (unless R b c m)
  unless-Has version true c m h k = h
  unless-Has version false c m h k = k

  -- What the two results of a repeated import have in common.
  pub unless_kept :
      (version : ℕ) (b : Bool) (c : Catalogue R) (m : Result Error (ℕ × Catalogue R))
      (t : ℕ × Catalogue R)
      → OnOk (Has version) (unless R b c m)
      → unless R b c m ≡ ok t
      → Has version t
  unless_kept version b c m t h e = OnOk-ok (Has version) h e
