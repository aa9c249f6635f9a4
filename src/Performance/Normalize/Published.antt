-- ===== src/Performance/Normalize/Published.antt =====
-- The percentages that `normalize` of import_bus_performance.py publishes.
use mathlib.Core.Path.{subst}
use mathlib.Core.List.{List, [], ◌∷◌}
use irish_rail_nabber.Prelude.{
  String, ◌≡◌, refl, ap, ◌∙◌, true, false, Option, none, some, ◌⊎◌, inl, inr, if◌then◌else◌,
  string_eq, pair_eq, nat_eq, ◌==◌, contains, get_or, Bool-cases, Option-cases, All, some-eq,
  none-some,
}
use irish_rail_nabber.Prelude.Dict.{Dict, lookup, insert, keys, lookup-insert}
use irish_rail_nabber.Prelude.Dict.Keys.{All-insert}
use irish_rail_nabber.Prelude.Sort.{sort}
use irish_rail_nabber.Prelude.Int.{ℤ, pos, int_eq}
use irish_rail_nabber.Python.Runtime.{Runtime, Json}
use irish_rail_nabber.Performance.Normalize.{
  RouteKey, Metric, missing, real, count, metrics, is_percentage, key_before, Record, number,
  metric_value, put_value, put_metric, put_metrics, Combined, add_row, key_of, add_rows,
  add_families, has_no_departures, clear_percentages, records_of, normalize,
}

module _ (R : Runtime) where
  -- A percentage is missing, or a hundred times a fraction of at most 1.
  abbrev pub IsShare : Option (Metric R.Float) → Type 0
  IsShare none = Unit
  IsShare (some missing) = Unit
  IsShare (some (real y)) =
      (x : R.Float) × (y ≡ R.percent x) × (R.is_between (pos 0) x (pos 1) ≡ true)
  IsShare (some (count n)) = ⊥

  abbrev pub HasShares : Record R → Type 0
  HasShares row =
      (metric : String) → IsShare (if is_percentage metric then lookup metric row else none)

  metric_value-IsShare :
      (metric : String) (value : Option R.Float) (v : Metric R.Float)
      → is_percentage metric ≡ true
      → metric_value R metric value ≡ some v
      → IsShare (some v)
  unfolding metric_value
  metric_value-IsShare metric none v p h = subst IsShare h tt
  metric_value-IsShare metric (some x) v p h = elim (Bool-cases (R.is_between (pos 0) x (pos 1))) [
    | inl inside ↦ subst IsShare (rw (p, inside) at h) (x, refl, inside)
    | inr outside ↦ none-some (rw (p, outside) at h)
  ]

  insert-HasShares :
      (metric : String) (v : Metric R.Float) (row : Record R)
      → (is_percentage metric ≡ true → IsShare (some v))
      → HasShares row
      → HasShares (insert metric v row)
  insert-HasShares metric v row new h j = elim (Bool-cases (is_percentage j)) [
    | inr other ↦ rw other tt
    | inl share ↦ elim (Bool-cases (metric == j)) [
      | inr elsewhere ↦ rw (share, lookup-insert metric j v row, elsewhere) (rw share at (h j))
      | inl here ↦
          rw (share, lookup-insert metric j v row, here)
            (new (ap is_percentage ((string_eq.beq_iff metric j).0 here) ∙ share))
    ]
  ]

  put_value-HasShares :
      (metric : String) (row row' : Record R) (value : Option R.Float) (v : Option (Metric R.Float))
      → metric_value R metric value ≡ v
      → put_value R metric row v ≡ some row'
      → HasShares row
      → HasShares row'
  put_value-HasShares metric row row' value none e h shares = none-some h
  put_value-HasShares metric row row' value (some v) e h shares =
      subst HasShares (some-eq h)
        (insert-HasShares metric v row (λ p. metric_value-IsShare metric value v p e) shares)

  put_metric-HasShares :
      (metric : String) (json : Option (Json R.Float)) (row row' : Record R)
      → put_metric R metric json row ≡ some row'
      → HasShares row
      → HasShares row'
  unfolding put_metric
  put_metric-HasShares metric none row row' h shares = subst HasShares (some-eq h) shares
  put_metric-HasShares metric (some json) row row' h shares = elim (Option-cases (number R json)) [
    | inl bad ↦ none-some (rw bad at h)
    | inr (value, e) ↦ put_value-HasShares metric row row' value _ refl (rw e at h) shares
  ]

  put_metrics-HasShares :
      (ms : List String) (raw : Dict String (Json R.Float)) (row row' : Record R)
      → put_metrics R ms raw row ≡ some row'
      → HasShares row
      → HasShares row'
  unfolding put_metrics
  put_metrics-HasShares [] raw row row' h shares = subst HasShares (some-eq h) shares
  put_metrics-HasShares (metric ∷ ms) raw row row' h shares =
      elim (Option-cases (put_metric R metric (lookup metric raw) row)) [
        | inl bad ↦ none-some (rw bad at h)
        | inr (next, e) ↦
            put_metrics-HasShares ms raw next row' (rw e at h)
              (put_metric-HasShares metric (lookup metric raw) row next e shares)
      ]

  abbrev AllShares : Combined R → Type 0
  AllShares combined = All (λ e. HasShares e.1) combined

  found-HasShares :
      (key : RouteKey) (combined : Combined R)
      → AllShares combined
      → HasShares (get_or (lookup key combined) [])
  found-HasShares key [] h j = elim (Bool-cases (is_percentage j)) [
    | inl share ↦ rw share tt
    | inr other ↦ rw other tt
  ]
  found-HasShares key (x ∷ combined) h j = elim (Bool-cases (x.0 == key)) [
    | inl same ↦ rw same (h.0 j)
    | inr other ↦ rw other (found-HasShares key combined h.1 j)
  ]

  add_row-AllShares :
      (key : RouteKey) (raw : Dict String (Json R.Float)) (seen : List RouteKey)
      (combined : Combined R) (next : List RouteKey × Combined R)
      → add_row R key raw seen combined ≡ some next
      → AllShares combined
      → AllShares next.1
  unfolding add_row
  add_row-AllShares key raw seen combined next h shares = elim (Bool-cases (contains key seen)) [
    | inl again ↦ none-some (rw again at h)
    | inr new ↦ elim (Option-cases (put_metrics R metrics raw (get_or (lookup key combined) []))) [
      | inl bad ↦ none-some (rw (new, bad) at h)
      | inr (row, e) ↦
          subst (λ n. AllShares n.1) (some-eq (rw (new, e) at h))
            (All-insert (λ e. HasShares e.1) key row combined
              (λ j same.
                put_metrics-HasShares metrics raw _ row e (found-HasShares key combined shares))
              shares)
    ]
  ]

  add_rows-AllShares :
      (year : ℤ) (family : String) (rows : List (Dict String (Json R.Float))) (seen : List RouteKey)
      (combined after : Combined R)
      → add_rows R year family rows seen combined ≡ some after
      → AllShares combined
      → AllShares after
  unfolding add_rows
  add_rows-AllShares year family [] seen combined after h shares =
      subst AllShares (some-eq h) shares
  add_rows-AllShares year family (raw ∷ rows) seen combined after h shares =
      elim (Option-cases (key_of R year family raw)) [
        | inl bad ↦ none-some (rw bad at h)
        | inr (key, e) ↦ elim (Option-cases (add_row R key raw seen combined)) [
          | inl again ↦ none-some (rw (e, again) at h)
          | inr (next, f) ↦
              add_rows-AllShares year family rows next.0 next.1 after (rw (e, f) at h)
                (add_row-AllShares key raw seen combined next f shares)
        ]
      ]

  add_families-AllShares :
      (year : ℤ) (families : List (String × List (Dict String (Json R.Float))))
      (combined after : Combined R)
      → add_families R year families combined ≡ some after
      → AllShares combined
      → AllShares after
  unfolding add_families
  add_families-AllShares year [] combined after h shares = subst AllShares (some-eq h) shares
  add_families-AllShares year (family ∷ families) combined after h shares =
      elim (Option-cases (add_rows R year family.0 family.1 [] combined)) [
        | inl bad ↦ none-some (rw bad at h)
        | inr (next, e) ↦
            add_families-AllShares year families next after (rw e at h)
              (add_rows-AllShares year family.0 family.1 [] combined next e shares)
      ]

  -- No percentage is known.
  abbrev pub IsCleared : Record R → Type 0
  IsCleared row =
      (lookup "on_time_pct" row ≡ some missing)
      × (lookup "early_pct" row ≡ some missing)
      × (lookup "late_pct" row ≡ some missing)

  abbrev pub IsPublished : Record R → Type 0
  IsPublished row =
      HasShares row
      × ((has_no_departures R (lookup "actual_departures" row) ≡ false) ⊎ IsCleared row)

  module _ (row : Record R) where
    abbrev first : Record R
    first = insert "on_time_pct" missing row

    abbrev second : Record R
    second = insert "early_pct" missing first

    abbrev third : Record R
    third = insert "late_pct" missing second

    third-IsCleared : IsCleared third
    third-IsCleared = (
      lookup-insert "late_pct" "on_time_pct" missing second
          ∙ lookup-insert "early_pct" "on_time_pct" missing first
          ∙ lookup-insert "on_time_pct" "on_time_pct" missing row,
      lookup-insert "late_pct" "early_pct" missing second
          ∙ lookup-insert "early_pct" "early_pct" missing first,
      lookup-insert "late_pct" "late_pct" missing second,
    )

    third-HasShares : HasShares row → HasShares third
    third-HasShares h =
        insert-HasShares "late_pct" missing second (λ p. tt)
          (insert-HasShares "early_pct" missing first (λ p. tt)
            (insert-HasShares "on_time_pct" missing row (λ p. tt) h))

    clear_percentages-IsPublished : HasShares row → IsPublished (clear_percentages R row)
    unfolding clear_percentages
    clear_percentages-IsPublished h =
        elim (Bool-cases (has_no_departures R (lookup "actual_departures" row))) [
          | inl idle ↦ rw idle (third-HasShares h, inr third-IsCleared)
          | inr running ↦ rw running (h, inl running)
        ]

  records_of-IsPublished :
      (ks : List RouteKey) (combined : Combined R)
      → AllShares combined
      → All (λ r. IsPublished r.1) (records_of R ks combined)
  unfolding records_of
  records_of-IsPublished [] combined h = tt
  records_of-IsPublished (key ∷ ks) combined h = (
    clear_percentages-IsPublished (get_or (lookup key combined) [])
        (found-HasShares key combined h),
    records_of-IsPublished ks combined h,
  )

  -- In every record that `normalize` returns, each of the three percentages is missing or a hundred times
  -- a fraction from 0 to 1, and where the departures are missing or 0 all three are missing.
  pub normalize-IsPublished :
      (year : ℤ) (families : List (String × List (Dict String (Json R.Float))))
      (records : List (RouteKey × Record R))
      → normalize R year families ≡ some records
      → All (λ r. IsPublished r.1) records
  unfolding normalize
  normalize-IsPublished year families records h =
      elim (Option-cases (add_families R year families [])) [
        | inl bad ↦ none-some (rw bad at h)
        | inr (combined, e) ↦ subst (All (λ r. IsPublished r.1)) (some-eq (rw e at h)) (
            records_of-IsPublished (sort key_before (keys combined)) combined
              (add_families-AllShares year families [] combined e tt))
      ]
