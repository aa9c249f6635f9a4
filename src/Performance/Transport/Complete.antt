-- ===== src/Performance/Transport/Complete.antt =====
-- What `decode_rows` of import_bus_performance.py returns, if it does.
use mathlib.Core.Path.{subst}
use mathlib.Core.List.{List, [], ◌∷◌, ◌++◌, append-nil, append_assoc}
use irish_rail_nabber.Prelude.{
  ℕ, suc, ◌<◌, String, ◌≡◌, refl, sym, ap, ◌∙◌, contains, true, false, Option, none, some, inl, inr,
  leb, string_eq, ◌==◌, length, All, Bool-cases, Option-cases, some-eq, none-some, arith,
}
use irish_rail_nabber.Prelude.Dict.{Dict, keys, lookup, insert}
use irish_rail_nabber.Prelude.Dict.Keys.{Distinct, keys-insert-new}
use irish_rail_nabber.Python.Runtime.{Json}
use irish_rail_nabber.Performance.Decode.{
  Column, Selected, SourceRow, select_values, by_transport_name, decode_values, read_row,
  next_schema, checked_schema, decode_page,
}
use irish_rail_nabber.Performance.Transport.{
  max_rows, Dataset, QueryData, names, names_equal, single, decode_partition, decode_dataset,
  decode_data, decode_rows,
}

names_equal-eq : (a b : List String) → names_equal a b ≡ true → a ≡ b
names_equal-eq [] [] h = refl
names_equal-eq [] (y ∷ ys) h = cc
names_equal-eq (x ∷ xs) [] h = cc
names_equal-eq (x ∷ xs) (y ∷ ys) h = elim (Bool-cases (x == y)) [
  | inl same ↦
      ap (λ z. z ∷ xs) ((string_eq.beq_iff x y).0 same)
      ∙ ap (λ zs. y ∷ zs) (names_equal-eq xs ys (rw same at h))
  | inr other ↦ absurd_bool (rw other at h)
]
  where
    absurd_bool : {A : Type 0} → false ≡ true → A
    absurd_bool e = cc

single-eq {ℓ} : {A : Type ℓ} (xs : List A) (a : A) → single xs ≡ some a → xs ≡ a ∷ []
single-eq [] a h = none-some h
single-eq (x ∷ []) a h = ap (λ b. b ∷ []) (some-eq h)
single-eq (x ∷ y ∷ xs) a h = none-some h

abbrev pub Decoded : Type 0 → Type 0
Decoded F = Dict String (Json F)

contains-middle : (x : String) (xs ys : List String) → contains x (xs ++ x ∷ ys) ≡ true
contains-middle x [] ys = ground (arith, string_eq.beq_iff x x)
contains-middle x (y ∷ xs) ys = ground (arith, contains-middle x xs ys)

absent-append : (x : String) (xs ys : List String) → Distinct (xs ++ x ∷ ys) → contains x xs ≡ false
absent-append x [] ys h = refl
absent-append x (y ∷ xs) ys h = elim (Bool-cases (y == x)) [
  | inl same ↦
      let own = (string_eq.beq_iff y x).0 same in
      absurd (
        ground
          (arith, contains-middle x xs ys, ap (λ z. contains z (xs ++ x ∷ ys)) (sym own) ∙ h.0))
  | inr other ↦ rw other (absent-append x xs ys h.1)
]

module _ {F : Type 0} where
  keys-select_values :
      (fields : List Selected) (d selected out : Decoded F)
      → Distinct (keys selected ++ names fields)
      → select_values fields d selected ≡ some out
      → keys out ≡ keys selected ++ names fields
  unfolding select_values
  keys-select_values [] d selected out new h =
      subst (λ o. keys o ≡ keys selected ++ []) (some-eq h) (sym (append-nil (keys selected)))
  keys-select_values (field ∷ fields) d selected out new h =
      elim (Option-cases (lookup field.value_name d)) [
        | inl unknown ↦ none-some (rw unknown at h)
        | inr (v, e) ↦
            let moved =
              ap (λ ks. ks ++ names fields)
                (keys-insert-new field.name v selected
                  (absent-append field.name (keys selected) (names fields) new))
              ∙ append_assoc (keys selected) (field.name ∷ []) (names fields) in
            keys-select_values fields d (insert field.name v selected) out
              (subst Distinct (sym moved) new) (rw e at h)
            ∙ moved
      ]

  keys-decode_values :
      (dictionaries : Dict String (List (Json F))) (descriptor : List Selected)
      (columns : List Column) (raw : List (Json F)) (out : Decoded F)
      → Distinct (names descriptor)
      → decode_values dictionaries descriptor columns raw ≡ some out
      → keys out ≡ names descriptor
  unfolding decode_values
  keys-decode_values dictionaries descriptor columns raw out new h =
      elim (Option-cases (by_transport_name dictionaries columns raw [])) [
        | inl bad ↦ none-some (rw bad at h)
        | inr (d, e) ↦ keys-select_values descriptor d [] out new (rw e at h)
      ]

  -- One decoded row for each row of the page, each with the names.
  abbrev pub IsTable : List String → ℕ → List (Decoded F) → Type 0
  IsTable ns n decoded = (length decoded ≡ n) × All (λ d. keys d ≡ ns) decoded

  cons-IsTable :
      (ns : List String) (n : ℕ) (d : Decoded F) (ds : List (Decoded F))
      → keys d ≡ ns
      → IsTable ns n ds
      → IsTable ns (suc n) (d ∷ ds)
  cons-IsTable ns n d ds named h = (ap suc h.0, (named, h.1))

  module _ (dictionaries : Dict String (List (Json F))) (descriptor : List Selected)
      (new : Distinct (names descriptor)) where
    decode_page-IsTable :
        (schema : Option (List Column)) (previous : Option (List (Json F)))
        (rows : List (SourceRow F)) (decoded : List (Decoded F))
        → decode_page dictionaries descriptor schema previous rows ≡ some decoded
        → IsTable (names descriptor) (length rows) decoded
    unfolding decode_page
    decode_page-IsTable schema previous [] decoded h =
        subst (IsTable (names descriptor) 0) (some-eq h) (refl, tt)
    decode_page-IsTable schema previous (row ∷ rows) decoded h =
        elim (Bool-cases row.has_other_keys) [
          | inl others ↦ none-some (rw others at h)
          | inr none_other ↦
              elim (Option-cases
                (checked_schema (length descriptor) (next_schema schema row.row_schema))) [
                  | inl bad ↦ none-some (rw (none_other, bad) at h)
                  | inr (columns, e) ↦
                      elim (Option-cases (read_row (length columns) row previous)) [
                        | inl bad ↦ none-some (rw (none_other, e, bad) at h)
                        | inr (raw, f) ↦
                            elim (Option-cases
                              (decode_values dictionaries descriptor columns raw)) [
                                | inl bad ↦ none-some (rw (none_other, e, f, bad) at h)
                                | inr (d, g) ↦
                                    elim (Option-cases (
                                      decode_page dictionaries descriptor (some columns) (some raw)
                                        rows)) [
                                          | inl bad ↦ none-some (rw (none_other, e, f, g, bad) at h)
                                          | inr (ds, k) ↦
                                              subst
                                                (IsTable (names descriptor) (length (row ∷ rows)))
                                                (some-eq (rw (none_other, e, f, g, k) at h))
                                                (cons-IsTable (names descriptor) (length rows) d ds
                                                  (keys-decode_values dictionaries descriptor
                                                    columns raw d new g)
                                                  (decode_page-IsTable (some columns) (some raw)
                                                    rows ds k))
                                        ]
                              ]
                      ]
                ]
        ]

  -- The rows of the one partition of a dataset that is complete, and what they are decoded to.
  abbrev pub IsWhole : List String → Dataset F → List (Decoded F) → Type 0
  IsWhole expected dataset decoded =
      (dataset.restarts ≡ false)
      × (dataset.is_complete ≡ true)
      × ((rows : List (SourceRow F)) × (dataset.partitions ≡ some rows ∷ [])
          × (length rows < max_rows)
          × IsTable expected (length rows) decoded)

  decode_partition-IsWhole :
      (descriptor : List Selected) (dataset : Dataset F) (partition : Option (List (SourceRow F)))
      (decoded : List (Decoded F))
      → Distinct (names descriptor)
      → dataset.restarts ≡ false
      → dataset.is_complete ≡ true
      → dataset.partitions ≡ partition ∷ []
      → decode_partition descriptor dataset.dictionaries partition ≡ some decoded
      → IsWhole (names descriptor) dataset decoded
  decode_partition-IsWhole descriptor dataset none decoded new a b c h = none-some h
  decode_partition-IsWhole descriptor dataset (some rows) decoded new a b c h =
      elim (Bool-cases (leb max_rows (length rows))) [
        | inl full ↦ none-some (rw full at h)
        | inr fits ↦ (
          a,
          b,
          (
            rows,
            c,
            below fits,
            decode_page-IsTable dataset.dictionaries descriptor new none none rows decoded
                (rw fits at h),
          ),
        )
      ]
    where
      below : {n m : ℕ} → leb n m ≡ false → m < n
      below e = ground arith

  decode_dataset-IsWhole :
      (descriptor : List Selected) (dataset : Dataset F) (decoded : List (Decoded F))
      → Distinct (names descriptor)
      → decode_dataset descriptor dataset ≡ some decoded
      → IsWhole (names descriptor) dataset decoded
  decode_dataset-IsWhole descriptor dataset decoded new h = elim (Bool-cases dataset.restarts) [
    | inl more ↦ none-some (rw more at h)
    | inr last ↦ elim (Bool-cases dataset.is_complete) [
      | inr cut ↦ none-some (rw (last, cut) at h)
      | inl complete ↦ elim (Option-cases (single dataset.partitions)) [
        | inl bad ↦ none-some (rw (last, complete, bad) at h)
        | inr (partition, e) ↦
            decode_partition-IsWhole descriptor dataset partition decoded new last complete
              (single-eq dataset.partitions partition e) (rw (last, complete, e) at h)
      ]
    ]
  ]

  -- A result is the one result of a query with the expected columns and one dataset, which is whole.
  abbrev pub IsAnswer : List String → List (Option (QueryData F)) → List (Decoded F) → Type 0
  IsAnswer expected results decoded =
      (answer : QueryData F) × (dataset : Dataset F) × ((results ≡ some answer ∷ [])
        × (names answer.descriptor ≡ expected)
        × (answer.datasets ≡ dataset ∷ [])
        × IsWhole expected dataset decoded)

  decode_data-IsAnswer :
      (results : List (Option (QueryData F))) (expected : List String)
      (found : Option (QueryData F)) (decoded : List (Decoded F))
      → Distinct expected
      → results ≡ found ∷ []
      → decode_data expected found ≡ some decoded
      → IsAnswer expected results decoded
  decode_data-IsAnswer results expected none decoded new e h = none-some h
  decode_data-IsAnswer results expected (some answer) decoded new e h =
      elim (Bool-cases (names_equal (names answer.descriptor) expected)) [
        | inr changed ↦ none-some (rw changed at h)
        | inl same ↦ elim (Option-cases (single answer.datasets)) [
          | inl bad ↦ none-some (rw (same, bad) at h)
          | inr (dataset, f) ↦
              let named = names_equal-eq (names answer.descriptor) expected same in
              (
                answer,
                dataset,
                (
                  e,
                  named,
                  single-eq answer.datasets dataset f,
                  subst (λ ns. IsWhole ns dataset decoded) named
                      (decode_dataset-IsWhole answer.descriptor dataset decoded
                        (subst Distinct (sym named) new) (rw (same, f) at h)),
                ),
              )
        ]
      ]

  -- For expected columns of which none stands twice, if `decode_rows` returns, the payload has one result, with the expected columns in their order and one
  -- dataset, which is neither restarted nor cut, in one partition of fewer rows than the limit; and it
  -- returns as many rows as the partition has, each with the expected columns in their order.
  pub decode_rows-IsAnswer :
      (results : List (Option (QueryData F))) (expected : List String) (decoded : List (Decoded F))
      → Distinct expected
      → decode_rows results expected ≡ some decoded
      → IsAnswer expected results decoded
  unfolding decode_rows
  decode_rows-IsAnswer results expected decoded new h = elim (Option-cases (single results)) [
    | inl bad ↦ none-some (rw bad at h)
    | inr (found, e) ↦
        decode_data-IsAnswer results expected found decoded new (single-eq results found e)
          (rw e at h)
  ]
