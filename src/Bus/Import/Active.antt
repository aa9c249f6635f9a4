-- ===== src/Bus/Import/Active.antt =====
-- The version that is active after `_import_static_feed` of bus_daemon.py.
use irish_rail_nabber.Prelude.{
  ℕ, String, ◌≡◌, refl, ◌+◌, Bool, true, false, not, ◌&&◌, ◌||◌, Option, none, some, inl, inr,
  nat_beq, nat_eq, string_eq, if◌then◌else◌, length, is_some, All, Bool-cases,
}
use irish_rail_nabber.Prelude.Result.{OnOk-ok, Result-cases, OnOk}
use irish_rail_nabber.Python.Runtime.{Runtime}
use irish_rail_nabber.Bus.Static.Csv.{Archive}
use irish_rail_nabber.Bus.Static.Trips.{iter_bus_stop_times, iter_bus_shape_points}
use irish_rail_nabber.Bus.Static.Select.{StaticFeedSelection, select_static_feed}
use irish_rail_nabber.Bus.Versions.{
  FeedVersion, Catalogue, existing_version, active_feed_version_id,
  activate_version_and_prune_stop_times, has_stop_times, reactivate, activate_existing_version,
}
use irish_rail_nabber.Bus.Versions.Active.{
  IsOnlyActive, activate_version_and_prune_stop_times-active,
}
use irish_rail_nabber.Bus.Import.{
  StaticTables, StaticImportResult, restore_stop_times, restore_shape_points, unless,
  restore_version, import_version, store_selection, unless_active, import_static_feed, unchanged,
  new_row, with_version,
}
use irish_rail_nabber.Bus.Import.Imported.{
  has_imported, existing_version_imported, new_row-has_imported, restore_stop_times-Has,
  restore_shape_points-Has, unless-Has, unless_kept,
}

module _ (R : Runtime) where
  -- The version of the result is the active one, and no other of the source is active.
  abbrev pub IsActivated : StaticImportResult × StaticTables R → Type 0
  IsActivated r =
      (active_feed_version_id R r.1.catalogue ≡ some r.0.feed_version_id)
      × All (IsOnlyActive r.0.feed_version_id) r.1.catalogue.versions

  activated_active :
      (version : ℕ) (c : Catalogue R)
      → has_imported version c.versions ≡ true
      → let after = activate_version_and_prune_stop_times R version c in
        (active_feed_version_id R after ≡ some version) × All (IsOnlyActive version) after.versions
  activated_active version c h =
      let done = activate_version_and_prune_stop_times-active R version c h in (done.0, done.1)

  version_of :
      (b : Bool) (n : ℕ) (r : StaticImportResult)
      → r.feed_version_id ≡ n
      → (if b then unchanged n else r).feed_version_id ≡ n
  version_of true n r h = refl
  version_of false n r h = h

  restore_version-IsActivated :
      (archive : Archive) (selection : StaticFeedSelection R) (v : FeedVersion) (s : StaticTables R)
      → (is_some v.imported_at ≡ true → has_imported v.id s.catalogue.versions ≡ true)
      → OnOk IsActivated (restore_version R archive selection v s)
  unfolding restore_version
  restore_version-IsActivated archive selection v s found =
      elim (Bool-cases (is_some v.imported_at)) [
        | inr never ↦ rw never tt
        | inl once ↦
            let b = has_stop_times R v s.catalogue in
            let m = restore_stop_times R archive selection v.id s.catalogue in
            let first =
              unless-Has R v.id b s.catalogue m (found once)
                (restore_stop_times-Has R archive selection v.id s.catalogue (found once)) in
            elim (Result-cases (unless R b s.catalogue m)) [
              | inl (x, e) ↦ rw (once, e) tt
              | inr (times, e) ↦
                  let k = restore_shape_points R archive selection v.id times.1 in
                  let kept = unless_kept R v.id b s.catalogue m times first e in
                  let second =
                    unless-Has R v.id v.shapes_imported times.1 k kept
                      (restore_shape_points-Has R archive selection v.id times.1 kept) in
                  elim (Result-cases (unless R v.shapes_imported times.1 k)) [
                    | inl (x, f) ↦ rw (once, e, f) tt
                    | inr (points, f) ↦
                        let done =
                          activated_active v.id points.1
                            (unless_kept R v.id v.shapes_imported times.1 k points second f) in
                        let r : StaticImportResult = record {
                          feed_version_id = v.id;
                          imported = true;
                          row_count = times.0 + points.0;
                          agencies = 0;
                          routes = 0;
                          stops = 0;
                          trips = 0;
                          stop_times = times.0;
                          shape_points = points.0;
                        } in
                        rw (once, e, f, version_of (b && v.shapes_imported) v.id r refl) done
                  ]
            ]
      ]

  import_version-IsActivated :
      (archive : Archive) (selection : StaticFeedSelection R) (digest : String) (now : ℕ)
      (s : StaticTables R)
      → OnOk IsActivated (import_version R archive selection digest now s)
  unfolding import_version
  import_version-IsActivated archive selection digest now s =
      elim (Result-cases (iter_bus_shape_points R archive selection.shape_ids)) [
        | inl (x, e) ↦ rw e tt
        | inr (points, e) ↦
            elim (Bool-cases (nat_beq (length points) selection.shape_point_count)) [
              | inr other ↦ rw (e, other) tt
              | inl same ↦ elim (Result-cases (iter_bus_stop_times R archive selection.trip_ids)) [
                | inl (x, f) ↦ rw (e, same, f) tt
                | inr (times, f) ↦
                    elim (Bool-cases (nat_beq (length times) selection.stop_time_count)) [
                      | inr other ↦ rw (e, same, f, other) tt
                      | inl equal ↦
                          rw (e, same, f, equal)
                            (activated_active s.next_id
                              (with_version R (new_row R s.next_id digest now) times points
                                s.catalogue)
                              (new_row-has_imported R s.next_id digest now s.catalogue.versions))
                    ]
              ]
            ]
      ]

  store_selection-IsActivated :
      (archive : Archive) (selection : StaticFeedSelection R) (digest : String) (now : ℕ)
      (o : Option FeedVersion) (s : StaticTables R)
      → existing_version digest s.catalogue.versions ≡ o
      → OnOk IsActivated (store_selection R archive selection digest now o s)
  store_selection-IsActivated archive selection digest now none s e =
      import_version-IsActivated archive selection digest now s
  store_selection-IsActivated archive selection digest now (some v) s e =
      restore_version-IsActivated archive selection v s
        (existing_version_imported digest s.catalogue.versions v e)

  -- What the first transaction returns is activated as well.
  abbrev IsFirst : Option (ℕ × Catalogue R) → Type 0
  IsFirst none = Unit
  IsFirst (some (version, c)) =
      (active_feed_version_id R c ≡ some version) × All (IsOnlyActive version) c.versions

  reactivate-IsFirst :
      (digest : String) (c : Catalogue R) (o : Option FeedVersion)
      → existing_version digest c.versions ≡ o
      → OnOk IsFirst (reactivate R o c)
  unfolding reactivate
  reactivate-IsFirst digest c none e = tt
  reactivate-IsFirst digest c (some v) e = elim (Bool-cases (is_some v.imported_at)) [
    | inr never ↦ rw never tt
    | inl once ↦ elim (Bool-cases (not (has_stop_times R v c) || not v.shapes_imported)) [
      | inl incomplete ↦ rw (once, incomplete) tt
      | inr complete ↦
          rw (once, complete)
            (activated_active v.id c (existing_version_imported digest c.versions v e once))
    ]
  ]

  unless_active-IsActivated :
      (archive : Archive) (digest : String) (now : ℕ) (s : StaticTables R)
      (o : Option (ℕ × Catalogue R))
      → IsFirst o
      → OnOk IsActivated (unless_active R archive digest now s o)
  unless_active-IsActivated archive digest now s (some (version, c)) h = h
  unless_active-IsActivated archive digest now s none h =
      elim (Result-cases (select_static_feed R archive)) [
        | inl (x, e) ↦ rw e tt
        | inr (selection, e) ↦
            rw e (store_selection-IsActivated archive selection digest now _ s refl)
      ]

  -- Where `_import_static_feed` does not raise, the version that it returns is the active one that the
  -- daemon then finds, and no other version of the source is active: for a digest that is known and
  -- complete, for one whose stop times or shape points are missing, and for a new one. The transactions
  -- commit, and no other import comes between them.
  pub import_static_feed-IsActivated :
      (archive : Archive) (digest : String) (now : ℕ) (s : StaticTables R)
      → OnOk IsActivated (import_static_feed R archive digest now s)
  unfolding import_static_feed activate_existing_version
  import_static_feed-IsActivated archive digest now s =
      elim (Result-cases
        (reactivate R (existing_version digest s.catalogue.versions) s.catalogue)) [
          | inl (x, e) ↦ rw e tt
          | inr (o, e) ↦ rw e (
              unless_active-IsActivated archive digest now s o
                (OnOk-ok IsFirst (reactivate-IsFirst digest s.catalogue _ refl) e))
        ]
