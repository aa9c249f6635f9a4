-- ===== src/Bus/Refresh/Remembered.antt =====
-- What the daemon remembers after `refresh_static_feed` of bus_daemon.py.
use mathlib.Core.List.{[], ◌∷◌, ◌++◌}
use irish_rail_nabber.Prelude.{
  ℕ, String, ◌≡◌, refl, ap, Bool, true, false, Option, none, some, nat_beq, nat_beq_iff, nat_eq,
  string_eq, pair_eq, Eq, ◌==◌, if◌then◌else◌, Bool-cases, arith, inl, inr,
}
use irish_rail_nabber.Prelude.Dict.{Dict, lookup}
use irish_rail_nabber.Prelude.Result.{OnOk, Result, ok, err, ◌>>=◌}
use irish_rail_nabber.Python.Runtime.{Runtime}
use irish_rail_nabber.Bus.Error.{Error}
use irish_rail_nabber.Bus.Static.Csv.{Archive}
use irish_rail_nabber.Bus.Filter.{ActiveBusIds}
use irish_rail_nabber.Bus.Versions.{active_feed_version_id}
use irish_rail_nabber.Bus.Import.{StaticTables, StaticImportResult, import_static_feed}
use irish_rail_nabber.Bus.Import.Active.{IsActivated, import_static_feed-IsActivated}
use irish_rail_nabber.Bus.Refresh.{
  Status, success, skipped, failed, StaticFetch, StaticState, Download, keep_version, keep_cache,
  remember_version, after_import, after_refresh, refresh_static_feed,
}

lookup-keep_version {ℓ κ} :
    {K : Type ℓ} {V : Type κ} ⦃e : Eq (ℕ × K)⦄ (version : ℕ) (k : ℕ × K) (d : Dict (ℕ × K) V)
    → lookup k (keep_version version d) ≡ (if nat_beq k.0 version then lookup k d else none)
unfolding keep_version
lookup-keep_version ⦃e⦄ version k [] = ground arith
lookup-keep_version ⦃e⦄ version k (x ∷ d) = elim (Bool-cases (x.0 == k)) [
  | inl same ↦ ground (
    arith,
    lookup-keep_version version k d,
    ap (λ j. nat_beq j.0 version) ((e.beq_iff x.0 k).0 same),
  )
  | inr other ↦ ground (arith, lookup-keep_version version k d)
]

abbrev HasVersion : ℕ → Option ActiveBusIds → Type 0
HasVersion version none = Unit
HasVersion version (some ids) = ids.feed_version_id ≡ version

keep_cache-HasVersion :
    (version : ℕ) (o : Option ActiveBusIds) → HasVersion version (keep_cache version o)
unfolding keep_cache
keep_cache-HasVersion version none = tt
keep_cache-HasVersion version (some ids) = elim (Bool-cases (nat_beq ids.feed_version_id version)) [
  | inl same ↦ rw same ((nat_beq_iff ids.feed_version_id version).0 same)
  | inr other ↦ rw other tt
]

-- Of the hashes, those of the version are left and no others.
abbrev pub IsKept {ℓ} :
    {K : Type ℓ} ⦃e : Eq (ℕ × K)⦄ → ℕ → Dict (ℕ × K) String → Dict (ℕ × K) String → Type ℓ
IsKept {K = K} version before after =
    (k : ℕ × K) → lookup k after ≡ (if nat_beq k.0 version then lookup k before else none)

module _ (R : Runtime) where
  -- What a refresh does under the status that it records.
  abbrev pub IsRemembered : Status → StaticState R → StaticState R → Type 0
  IsRemembered failed s after =
      (after.memory ≡ s.memory) × (after.active_bus_ids_cache ≡ s.active_bus_ids_cache)
  IsRemembered _ s after =
      (version : ℕ) × (active_feed_version_id R after.tables.catalogue ≡ some version)
      × IsKept version s.memory.previous_update_hashes after.memory.previous_update_hashes
      × IsKept version s.memory.previous_vehicle_hashes after.memory.previous_vehicle_hashes
      × HasVersion version after.active_bus_ids_cache

  abbrev pub IsRefreshed : StaticState R → StaticState R → Type 0
  IsRefreshed s after =
      (row : StaticFetch) × (after.history ≡ s.history ++ row ∷ [])
      × IsRemembered row.status s after

  Kept-IsRemembered :
      (result : StaticImportResult) (tables : StaticTables R) (s : StaticState R)
      → IsActivated R (result, tables)
      → IsRefreshed s (after_import R true result (record s { tables = tables }))
  unfolding after_import remember_version
  Kept-IsRemembered result tables s h = elim (Bool-cases result.imported) [
    | inl new ↦ rw new (record { record_count = result.row_count; status = success }, refl, kept)
    | inr known ↦
        rw known (record { record_count = result.row_count; status = skipped }, refl, kept)
  ]
    where
      kept :
          (v : ℕ) × (active_feed_version_id R tables.catalogue ≡ some v)
          × IsKept v s.memory.previous_update_hashes
              (keep_version result.feed_version_id s.memory.previous_update_hashes)
          × IsKept v s.memory.previous_vehicle_hashes
              (keep_version result.feed_version_id s.memory.previous_vehicle_hashes)
          × HasVersion v (keep_cache result.feed_version_id s.active_bus_ids_cache)
      kept = (
        result.feed_version_id,
        h.0,
        (λ k. lookup-keep_version result.feed_version_id k s.memory.previous_update_hashes),
        (λ k. lookup-keep_version result.feed_version_id k s.memory.previous_vehicle_hashes),
        keep_cache-HasVersion result.feed_version_id s.active_bus_ids_cache,
      )

  after_refresh-IsRefreshed :
      (is_archived : Bool) (s : StaticState R)
      (r : Result Error (StaticImportResult × StaticTables R))
      → OnOk (IsActivated R) r
      → IsRefreshed s (after_refresh R is_archived s r)
  unfolding after_refresh after_import
  after_refresh-IsRefreshed is_archived s (err e) h =
      (record { record_count = 0; status = failed }, refl, (refl, refl))
  after_refresh-IsRefreshed false s (ok (result, tables)) h =
      (record { record_count = 0; status = failed }, refl, (refl, refl))
  after_refresh-IsRefreshed true s (ok (result, tables)) h = Kept-IsRemembered result tables s h

  imported-IsActivated :
      (d : Result Error (Archive × String)) (now : ℕ) (tables : StaticTables R)
      → OnOk (IsActivated R) (d >>= λ f. import_static_feed R f.0 f.1 now tables)
  imported-IsActivated (err e) now tables = tt
  imported-IsActivated (ok f) now tables = import_static_feed-IsActivated R f.0 f.1 now tables

  -- A refresh of the static feed adds one row to the history. Under the status failed, which is also
  -- that of an import whose archive is not kept, the memory and the cached identifiers are as before.
  -- Under the status success or skipped, a version is active, of the hashes of trip updates and of
  -- vehicles exactly those of that version are remembered, and cached identifiers are of that version.
  pub refresh_static_feed-IsRefreshed :
      (d : Download) (s : StaticState R) → IsRefreshed s (refresh_static_feed R d s)
  unfolding refresh_static_feed
  refresh_static_feed-IsRefreshed d s =
      after_refresh-IsRefreshed d.is_archived s _ (imported-IsActivated d.feed d.now s.tables)
