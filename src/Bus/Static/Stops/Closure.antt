-- ===== src/Bus/Static/Stops/Closure.antt =====
-- The loop of `_select_static_feed` (bus_daemon.py) over pending stops: its fuel and its result.
use mathlib.Core.List.{List, [], ◌∷◌}
use irish_rail_nabber.Prelude.{
  ℕ, zero, suc, ◌+◌, ◌≤◌, ◌<◌, String, ◌≡◌, refl, true, false, ◌⊎◌, inl, inr, some, arith,
  if◌then◌else◌, string_eq, contains, length, Bool-cases, Option-cases,
}
use irish_rail_nabber.Prelude.Dict.{Dict, lookup, keys, has_key}
use irish_rail_nabber.Prelude.Result.{Result, ok, err, OnOk}
use irish_rail_nabber.Prelude.Sort.{total}
use irish_rail_nabber.Python.Runtime.{Runtime}
use irish_rail_nabber.Bus.Error.{Error, feed_format, missing_parent}
use irish_rail_nabber.Bus.Static.Tables.{Stop}
use irish_rail_nabber.Bus.Static.Stops.{close_over_parents, closing_fuel}

abbrev pub OnErr {ℓ} : {A : Type ℓ} → (Error → Type 0) → Result Error A → Type 0
OnErr P (ok a) = Unit
OnErr P (err e) = P e

module _ (R : Runtime) (all_stops : Dict String (Stop R)) where
  -- The parent of `k`, if it has one, is in the set.
  abbrev pub HasParentIn : List String → String → Type 0
  HasParentIn selected k =
      (s : Stop R) (p : String)
      → lookup k all_stops ≡ some s
      → s.parent_station ≡ some p
      → contains p selected ≡ true

  -- The invariant: whatever is selected is a stop, and waits, or has its parent selected.
  record IsClosing (pending selected : List String) : Type 0 where
    waiting : (k : String) → contains k pending ≡ true → contains k selected ≡ true
    known : (k : String) → contains k selected ≡ true → has_key k all_stops ≡ true
    closed :
        (k : String)
        → contains k selected ≡ true
        → (contains k pending ≡ true) ⊎ HasParentIn selected k

  -- What the loop returns.
  pub record IsClosed (selected result : List String) : Type 0 where
    pub extends : (k : String) → contains k selected ≡ true → contains k result ≡ true
    pub known : (k : String) → contains k result ≡ true → has_key k all_stops ≡ true
    pub closed : (k : String) → contains k result ≡ true → HasParentIn result k

  -- The error of a stop in the file whose parent is not there.
  abbrev pub IsOrphaned : Error → Type 0
  IsOrphaned e =
      (e ≡ feed_format missing_parent)
      × ((k : String) × (s : Stop R) × (p : String) × ((lookup k all_stops ≡ some s)
            × (s.parent_station ≡ some p)
            × (has_key p all_stops ≡ false)))

  unselected : List String → ℕ
  unselected selected = total (λ x. if contains x.0 selected then 0 else 1) all_stops

  pending-cases :
      (k j : String) (pending : List String)
      → contains j (k ∷ pending) ≡ true
      → (k ≡ j) ⊎ (contains j pending ≡ true)
  pending-cases k j pending h = ground (arith, string_eq.beq_iff k j)

  -- The stop that was taken needs to wait no longer once its parent is selected.
  IsClosing-drop :
      (k : String) (pending selected : List String)
      → HasParentIn selected k
      → IsClosing (k ∷ pending) selected
      → IsClosing pending selected
  IsClosing-drop k pending selected q h = record {
    waiting = λ j w. h.waiting j (ground arith);
    known = h.known;
    closed = λ j c. elim (h.closed j c) [
      | inl w ↦ elim (pending-cases k j pending w) [
        | inl same ↦ inr (λ s p e. q s p (rw (← same) at e))
        | inr waits ↦ inl waits
      ]
      | inr done ↦ inr done
    ];
  }

  -- A parent that is selected now waits itself.
  IsClosing-add :
      (p : String) (pending selected : List String)
      → has_key p all_stops ≡ true
      → IsClosing pending selected
      → IsClosing (p ∷ pending) (p ∷ selected)
  IsClosing-add p pending selected known h = record {
    waiting = λ j w. ground (arith, h.waiting j);
    known = λ j c. elim (pending-cases p j selected c) [
      | inl same ↦ rw (← same) known
      | inr old ↦ h.known j old
    ];
    closed = λ j c. elim (pending-cases p j selected c) [
      | inl same ↦ inl (ground (arith, string_eq.beq_iff p j))
      | inr old ↦ elim (h.closed j old) [
        | inl w ↦ inl (ground arith)
        | inr done ↦ inr (λ s q e f. ground (arith, done s q e f))
      ]
    ];
  }

  IsClosing-swap :
      (p k : String) (pending selected : List String)
      → IsClosing (p ∷ k ∷ pending) selected
      → IsClosing (k ∷ p ∷ pending) selected
  IsClosing-swap p k pending selected h = record {
    waiting = λ j w. ground (arith, h.waiting j);
    known = h.known;
    closed = λ j c. elim (h.closed j c) [ inl w ↦ inl (ground arith) | inr done ↦ inr done ];
  }

  unselected-cons-le :
      (p : String) (selected : List String) (d : Dict String (Stop R))
      → total (λ x. if contains x.0 (p ∷ selected) then 0 else 1) d
        ≤ total (λ x. if contains x.0 selected then 0 else 1) d
  unselected-cons-le p selected [] = omega arith
  unselected-cons-le p selected (x ∷ d) = ground (arith, unselected-cons-le p selected d)

  unselected-cons-lt :
      (p : String) (selected : List String) (d : Dict String (Stop R))
      → has_key p d ≡ true
      → contains p selected ≡ false
      → total (λ x. if contains x.0 (p ∷ selected) then 0 else 1) d
        < total (λ x. if contains x.0 selected then 0 else 1) d
  unselected-cons-lt p selected [] k c = cc
  unselected-cons-lt p selected (x ∷ d) k c = ground (
    arith,
    unselected-cons-lt p selected d,
    unselected-cons-le p selected d,
    string_eq.beq_iff x.0 p,
    string_eq.beq_iff p x.0,
  )

  unselected-le :
      (selected : List String) (d : Dict String (Stop R))
      → total (λ x. if contains x.0 selected then 0 else 1) d ≤ length (keys d)
  unselected-le selected [] = omega arith
  unselected-le selected (x ∷ d) = ground (arith, unselected-le selected d)

  abbrev IsGood : List String → Result Error (List String) → Type 0
  IsGood selected r = OnOk (IsClosed selected) r × OnErr IsOrphaned r

  IsGood-cons :
      (p : String) (selected : List String) (r : Result Error (List String))
      → IsGood (p ∷ selected) r
      → IsGood selected r
  IsGood-cons p selected (ok res) h = (
    record {
      extends = λ j c. h.0.extends j (ground arith);
      known = h.0.known;
      closed = h.0.closed;
    },
    tt,
  )
  IsGood-cons p selected (err e) h = (tt, h.1)

  close_over_parents-IsGood :
      (fuel : ℕ) (pending selected : List String)
      → IsClosing pending selected
      → length pending + unselected selected ≤ fuel
      → IsGood selected (close_over_parents R fuel all_stops pending selected)
  unfolding close_over_parents unselected
  close_over_parents-IsGood fuel [] selected h m = (
    record {
      extends = λ k c. c;
      known = h.known;
      closed = λ k c. elim (h.closed k c) [ inl w ↦ cc | inr done ↦ done ];
    },
    tt,
  )
  close_over_parents-IsGood zero (k ∷ pending) selected h m = absurd (omega arith)
  close_over_parents-IsGood (suc fuel) (k ∷ pending) selected h m =
      elim (Option-cases (lookup k all_stops)) [
        | inl missing ↦ absurd (ground (arith, h.known k, h.waiting k, string_eq.beq_iff k k))
        | inr (s, found) ↦ elim (Option-cases s.parent_station) [
          | inl root ↦
              rw (found, root)
                (close_over_parents-IsGood fuel pending selected
                  (IsClosing-drop k pending selected (λ s' p' e' f'. cc) h) (omega arith))
          | inr (p, e) ↦ elim (Bool-cases (has_key p all_stops)) [
            | inr absent ↦ rw (found, e, absent) (tt, (refl, (k, s, p, (found, e, absent))))
            | inl known ↦ elim (Bool-cases (contains p selected)) [
              | inl old ↦
                  rw (found, e, known, old)
                    (close_over_parents-IsGood fuel pending selected
                      (IsClosing-drop k pending selected (λ s' p' e' f'. cc) h) (omega arith))
              | inr new ↦
                  rw (found, e, known, new)
                    (IsGood-cons p selected _ (
                      close_over_parents-IsGood fuel (p ∷ pending) (p ∷ selected)
                        (IsClosing-drop k (p ∷ pending) (p ∷ selected)
                          (λ s' p' e' f'. ground (arith, string_eq.beq_iff p p'))
                          (IsClosing-swap p k pending (p ∷ selected)
                            (IsClosing-add p (k ∷ pending) selected known h)))
                        (omega (arith, unselected-cons-lt p selected all_stops known new))))
            ]
          ]
        ]
      ]

  -- Where every stop in use is a stop of the file, the loop over the stops in use never runs out of the
  -- fuel that the model gives it and finds every stop that it looks up. It returns a set of stops of the
  -- file, with the stops in use, that is closed under parents, or it raises the error of a missing
  -- parent, and then some stop of the file has a parent that is not in the file.
  pub close_over_parents-IsClosed :
      (used : List String)
      → ((k : String) → contains k used ≡ true → has_key k all_stops ≡ true)
      → let result = close_over_parents R (closing_fuel R all_stops used) all_stops used used in
        OnOk (IsClosed used) result × OnErr IsOrphaned result
  unfolding unselected
  close_over_parents-IsClosed used known =
      close_over_parents-IsGood (closing_fuel R all_stops used) used used
        (record { waiting = λ k c. c; known = known; closed = λ k c. inl c })
        (omega (arith, unselected-le used all_stops))
