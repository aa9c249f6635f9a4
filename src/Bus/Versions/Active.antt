-- ===== src/Bus/Versions/Active.antt =====
-- The versions and their large tables after an activation (bus_daemon.py).
use mathlib.Core.List.{List, [], ◌∷◌}
use mathlib.Core.Path.{subst}
use irish_rail_nabber.Prelude.{
  ℕ, ◌≡◌, refl, sym, ap, ◌∙◌, Bool, true, false, not, ◌&&◌, ◌||◌, Option, none, some, inl, inr,
  arith, ltb, nat_beq, nat_beq_iff, if◌then◌else◌, nat_eq, string_eq, contains, is_some, any_of,
  All, Bool-cases,
}
use irish_rail_nabber.Python.Runtime.{Runtime}
use irish_rail_nabber.Bus.Versions.{
  FeedVersion, Catalogue, is_source, deactivate, set_active, forget_shapes, activated_versions,
  replaced_ids, delete_versions, is_candidate, later_import, active_version, id_of,
  activate_version_and_prune_stop_times, active_feed_version_id, imported_before, imported_together,
}

-- Of the source, the version is active and no other.
abbrev pub IsOnlyActive : ℕ → FeedVersion → Type 0
IsOnlyActive version v = is_source v ≡ true → v.is_active ≡ nat_beq v.id version

-- An imported version of the source with the identifier.
abbrev pub is_imported : ℕ → FeedVersion → Bool
is_imported version v = is_source v && nat_beq v.id version && is_some v.imported_at

-- What the updates make of one row.
abbrev activated : ℕ → FeedVersion → FeedVersion
activated version v = forget_shapes version (set_active version (deactivate v))

-- The row with its flags computed from the source and the identifier.
abbrev expected : ℕ → FeedVersion → FeedVersion
expected version v = record v {
  is_active = nat_beq v.id version || (not (is_source v) && v.is_active);
  shapes_imported = not (is_source v && not (nat_beq v.id version)) && v.shapes_imported;
}

activated-expected : (version : ℕ) (v : FeedVersion) → activated version v ≡ expected version v
activated-expected version v = elim (Bool-cases (is_source v)) [
  | inl s ↦ elim (Bool-cases (nat_beq v.id version)) [
    | inl i ↦ rw (s, i, s, i) refl
    | inr i ↦ rw (s, i, s, i) refl
  ]
  | inr s ↦ elim (Bool-cases (nat_beq v.id version)) [
    | inl i ↦ rw (s, i, s) refl
    | inr i ↦ rw (s, i, s) refl
  ]
]

expected-IsOnlyActive : (version : ℕ) (v : FeedVersion) → IsOnlyActive version (expected version v)
expected-IsOnlyActive version v own = rw own (ground arith)

expected-is_candidate :
    (version : ℕ) (v : FeedVersion)
    → is_imported version v ≡ true
    → is_candidate (expected version v) ≡ true
expected-is_candidate version v h = ground arith

activated_versions-IsOnlyActive :
    (version : ℕ) (vs : List FeedVersion)
    → All (IsOnlyActive version) (activated_versions version vs)
unfolding activated_versions
activated_versions-IsOnlyActive version [] = tt
activated_versions-IsOnlyActive version (v ∷ vs) = (
  subst (IsOnlyActive version) (sym (activated-expected version v))
      (expected-IsOnlyActive version v),
  activated_versions-IsOnlyActive version vs,
)

activated_versions-is_candidate :
    (version : ℕ) (vs : List FeedVersion)
    → any_of (is_imported version) vs ≡ true
    → any_of is_candidate (activated_versions version vs) ≡ true
unfolding activated_versions
activated_versions-is_candidate version [] h = h
activated_versions-is_candidate version (v ∷ vs) h = ground (
  arith,
  ap is_candidate (activated-expected version v),
  expected-is_candidate version v,
  activated_versions-is_candidate version vs,
)

abbrev IsNamed : ℕ → Option FeedVersion → Type 0
IsNamed version none = Unit
IsNamed version (some v) = v.id ≡ version

later_import-IsNamed :
    (version : ℕ) (v : FeedVersion) (o : Option FeedVersion)
    → v.id ≡ version
    → IsNamed version o
    → IsNamed version (later_import v o)
later_import-IsNamed version v none h named = h
later_import-IsNamed version v (some w) h named =
    elim (Bool-cases (
      imported_before v.imported_at w.imported_at
      || (imported_together v.imported_at w.imported_at && ltb v.id w.id))) [
        | inl e ↦ rw e named
        | inr e ↦ rw e h
      ]

is_candidate-id :
    (version : ℕ) (v : FeedVersion)
    → IsOnlyActive version v
    → is_candidate v ≡ true
    → v.id ≡ version
is_candidate-id version v only c =
    (nat_beq_iff v.id version).0 (sym (only (ground arith)) ∙ ground arith)

-- Whichever candidate comes first, it has the identifier.
active_version-IsNamed :
    (version : ℕ) (vs : List FeedVersion)
    → All (IsOnlyActive version) vs
    → IsNamed version (active_version vs)
unfolding active_version
active_version-IsNamed version [] h = tt
active_version-IsNamed version (v ∷ vs) h = elim (Bool-cases (is_candidate v)) [
  | inl c ↦ rw c (
      later_import-IsNamed version v (active_version vs) (is_candidate-id version v h.0 c)
        (active_version-IsNamed version vs h.1))
  | inr c ↦ rw c (active_version-IsNamed version vs h.1)
]

later_import-some : (v : FeedVersion) (o : Option FeedVersion) → is_some (later_import v o) ≡ true
later_import-some v none = refl
later_import-some v (some w) =
    elim (Bool-cases (
      imported_before v.imported_at w.imported_at
      || (imported_together v.imported_at w.imported_at && ltb v.id w.id))) [
        | inl e ↦ rw e refl
        | inr e ↦ rw e refl
      ]

active_version-some :
    (vs : List FeedVersion) → any_of is_candidate vs ≡ true → is_some (active_version vs) ≡ true
unfolding active_version
active_version-some [] h = h
active_version-some (v ∷ vs) h = elim (Bool-cases (is_candidate v)) [
  | inl c ↦ rw c (later_import-some v (active_version vs))
  | inr c ↦ rw c (active_version-some vs (rw c at h))
]

named-id :
    (version : ℕ) (o : Option FeedVersion)
    → IsNamed version o
    → is_some o ≡ true
    → id_of o ≡ some version
named-id version none named h = cc
named-id version (some v) named h = ap some named

-- No row is of one of the identifiers; the other rows are those before.
abbrev pub IsPruned {ℓ} : {A : Type ℓ} → List ℕ → ℕ × A → Type 0
IsPruned ids row = contains row.0 ids ≡ false

delete_versions-IsPruned {ℓ} :
    {A : Type ℓ} (ids : List ℕ) (rows : List (ℕ × A))
    → All (IsPruned ids) (delete_versions ids rows)
unfolding delete_versions
delete_versions-IsPruned ids [] = tt
delete_versions-IsPruned ids (row ∷ rows) = elim (Bool-cases (contains row.0 ids)) [
  | inl gone ↦ rw gone (delete_versions-IsPruned ids rows)
  | inr kept ↦ rw kept (kept, delete_versions-IsPruned ids rows)
]

-- The rows of one version.
abbrev pub rows_of {ℓ} : {A : Type ℓ} → ℕ → List (ℕ × A) → List (ℕ × A)
rows_of version [] = []
rows_of version (row ∷ rows) =
    let rest = rows_of version rows in if nat_beq row.0 version then row ∷ rest else rest

replaced_ids-other :
    (version : ℕ) (vs : List FeedVersion) → contains version (replaced_ids version vs) ≡ false
unfolding replaced_ids
replaced_ids-other version [] = refl
replaced_ids-other version (v ∷ vs) =
    ground (arith, replaced_ids-other version vs, nat_beq_iff v.id version)

rows_of-delete_versions {ℓ} :
    {A : Type ℓ} (version : ℕ) (ids : List ℕ) (rows : List (ℕ × A))
    → contains version ids ≡ false
    → rows_of version (delete_versions ids rows) ≡ rows_of version rows
unfolding delete_versions
rows_of-delete_versions version ids [] h = refl
rows_of-delete_versions version ids (row ∷ rows) h =
    ground (arith, rows_of-delete_versions version ids rows h, nat_beq_iff row.0 version)

pub activate_version_and_prune_stop_times-active :
    (R : Runtime) (version : ℕ) (c : Catalogue R)
    → any_of (is_imported version) c.versions ≡ true
    → let after = activate_version_and_prune_stop_times R version c in
      let replaced = replaced_ids version after.versions in
      (active_feed_version_id R after ≡ some version)
      × All (IsOnlyActive version) after.versions
      × All (IsPruned replaced) after.stop_times
      × All (IsPruned replaced) after.shape_points
      × (rows_of version after.stop_times ≡ rows_of version c.stop_times)
      × (rows_of version after.shape_points ≡ rows_of version c.shape_points)
unfolding activate_version_and_prune_stop_times active_feed_version_id
activate_version_and_prune_stop_times-active R version c h =
    let vs = activated_versions version c.versions in
    let only = activated_versions-IsOnlyActive version c.versions in
    let replaced = replaced_ids version vs in
    (
      named-id version (active_version vs) (active_version-IsNamed version vs only)
          (active_version-some vs (activated_versions-is_candidate version c.versions h)),
      only,
      delete_versions-IsPruned replaced c.stop_times,
      delete_versions-IsPruned replaced c.shape_points,
      rows_of-delete_versions version replaced c.stop_times (replaced_ids-other version vs),
      rows_of-delete_versions version replaced c.shape_points (replaced_ids-other version vs),
    )
