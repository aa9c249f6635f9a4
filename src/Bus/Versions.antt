-- ===== src/Bus/Versions.antt =====
-- Which static feed version is active: `_activate_existing_version`,
-- `_activate_version_and_prune_stop_times` and `_active_feed_version_id` of bus_daemon.py.
pub mod Active
use mathlib.Core.List.{List, [], ◌∷◌, map}
use irish_rail_nabber.Prelude.{
  ℕ, String, Bool, true, false, not, ◌&&◌, ◌||◌, Option, none, some, ltb, nat_beq, if◌then◌else◌,
  nat_eq, string_eq, ◌==◌, contains, length, is_some, any_of,
}
use irish_rail_nabber.Prelude.Result.{Result, ok, err}
use irish_rail_nabber.Python.Runtime.{Runtime}
use irish_rail_nabber.Bus.Error.{Error, runtime_error}
use irish_rail_nabber.Bus.Static.Tables.{StopTime, ShapePoint}

abbrev pub feed_source : String
feed_source = "nta_gtfs"

-- A row of `transit_feed_versions`.
pub record FeedVersion : Type 0 where
  pub id : ℕ
  pub source : String
  pub content_sha256 : String
  pub imported_at : Option ℕ
  pub is_active : Bool
  pub shapes_imported : Bool

-- The versions, and the large tables whose rows name a version.
pub record Catalogue (R : Runtime) : Type 0 where
  pub versions : List FeedVersion
  pub stop_times : List (ℕ × StopTime)
  pub shape_points : List (ℕ × ShapePoint R)

abbrev pub is_source : FeedVersion → Bool
is_source v = v.source == feed_source

-- The three `UPDATE` statements on one row.
abbrev pub deactivate : FeedVersion → FeedVersion
deactivate v = if is_source v then record v { is_active = false } else v

abbrev pub set_active : ℕ → FeedVersion → FeedVersion
set_active version v = if nat_beq v.id version then record v { is_active = true } else v

-- `source = %s AND id <> %s`
abbrev pub is_replaced : ℕ → FeedVersion → Bool
is_replaced version v = is_source v && not (nat_beq v.id version)

abbrev pub forget_shapes : ℕ → FeedVersion → FeedVersion
forget_shapes version v = if is_replaced version v then record v { shapes_imported = false } else v

unfoldable pub activated_versions : ℕ → List FeedVersion → List FeedVersion
activated_versions version versions =
    map (forget_shapes version) (map (set_active version) (map deactivate versions))

-- `SELECT id ... WHERE source = %s AND id <> %s`
unfoldable pub replaced_ids : ℕ → List FeedVersion → List ℕ
replaced_ids version [] = []
replaced_ids version (v ∷ versions) =
    let rest = replaced_ids version versions in if is_replaced version v then v.id ∷ rest else rest

-- `DELETE ... WHERE feed_version_id IN (...)`
unfoldable pub delete_versions {ℓ} : {A : Type ℓ} → List ℕ → List (ℕ × A) → List (ℕ × A)
delete_versions ids [] = []
delete_versions ids (row ∷ rows) =
    let rest = delete_versions ids rows in if contains row.0 ids then rest else row ∷ rest

-- `ORDER BY id DESC LIMIT 1` of the rows with the digest.
abbrev pub is_match : String → FeedVersion → Bool
is_match digest v = is_source v && v.content_sha256 == digest

abbrev pub higher : FeedVersion → Option FeedVersion → Option FeedVersion
higher v none = some v
higher v (some w) = if ltb v.id w.id then some w else some v

unfoldable pub existing_version : String → List FeedVersion → Option FeedVersion
existing_version digest [] = none
existing_version digest (v ∷ versions) =
    let rest = existing_version digest versions in if is_match digest v then higher v rest else rest

-- `source = %s AND is_active = TRUE AND imported_at IS NOT NULL`
abbrev pub is_candidate : FeedVersion → Bool
is_candidate v = is_source v && v.is_active && is_some v.imported_at

abbrev pub imported_before : Option ℕ → Option ℕ → Bool
imported_before (some a) (some b) = ltb a b
imported_before _ _ = false

abbrev pub imported_together : Option ℕ → Option ℕ → Bool
imported_together (some a) (some b) = nat_beq a b
imported_together _ _ = false

-- `ORDER BY imported_at DESC, id DESC LIMIT 1`
abbrev pub later_import : FeedVersion → Option FeedVersion → Option FeedVersion
later_import v none = some v
later_import v (some w) =
    if imported_before v.imported_at w.imported_at
      || (imported_together v.imported_at w.imported_at && ltb v.id w.id)
    then some w
    else some v

unfoldable pub active_version : List FeedVersion → Option FeedVersion
active_version [] = none
active_version (v ∷ versions) =
    let rest = active_version versions in if is_candidate v then later_import v rest else rest

abbrev pub id_of : Option FeedVersion → Option ℕ
id_of none = none
id_of (some v) = some v.id

module _ (R : Runtime) where
  -- `_activate_version_and_prune_stop_times`; the number of deleted stop times is `cursor.rowcount`.
  unfoldable pub activate_version_and_prune_stop_times : ℕ → Catalogue R → Catalogue R
  unfolding activated_versions replaced_ids delete_versions
  activate_version_and_prune_stop_times version c =
      let versions = activated_versions version c.versions in
      record {
        versions = versions;
        shape_points = delete_versions (replaced_ids version versions) c.shape_points;
        stop_times = delete_versions (replaced_ids version versions) c.stop_times;
      }

  -- `_active_feed_version_id`
  unfoldable pub active_feed_version_id : Catalogue R → Option ℕ
  unfolding active_version
  active_feed_version_id c = id_of (active_version c.versions)

  abbrev pub has_stop_times : FeedVersion → Catalogue R → Bool
  has_stop_times v c = any_of (λ row. nat_beq row.0 v.id) c.stop_times

  -- A row of the digest that was found: `some` is the version that is activated, with the tables after.
  unfoldable pub reactivate :
      Option FeedVersion → Catalogue R → Result Error (Option (ℕ × Catalogue R))
  unfolding activate_version_and_prune_stop_times
  reactivate none c = ok none
  reactivate (some v) c =
      if not (is_some v.imported_at)
      then err runtime_error
      else if not (has_stop_times v c) || not v.shapes_imported
      then ok none
      else ok (some (v.id, activate_version_and_prune_stop_times v.id c))

  -- `_activate_existing_version`
  unfoldable pub activate_existing_version :
      String → Catalogue R → Result Error (Option (ℕ × Catalogue R))
  unfolding existing_version reactivate
  activate_existing_version digest c = reactivate (existing_version digest c.versions) c
