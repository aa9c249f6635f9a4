-- ===== src/Bus/Histogram/Counts.antt =====
-- What the rows of `bus_poll_delay_histogram` count.
use mathlib.Core.List.{List, [], ◌∷◌, ◌++◌}
use irish_rail_nabber.Prelude.{
  ℕ, ◌+◌, ◌≤◌, String, ◌≡◌, Option, none, some, inl, inr, arith, string_eq, pair_eq, All,
  Bool-cases, if◌then◌else◌,
}
use irish_rail_nabber.Prelude.Dict.{Dict}
use irish_rail_nabber.Prelude.Dict.Counter.{
  bump, count, count_for, entry_for, IsPositive, count-append, total-bump, total-entry-bump-le,
  bump-IsPositive,
}
use irish_rail_nabber.Prelude.Int.{ℤ, int_eq}
use irish_rail_nabber.Prelude.Sort.{total, total-sort, All-sort}
use irish_rail_nabber.Python.Runtime.{Runtime}
use irish_rail_nabber.Bus.Records.{ParsedTripFreshness, ParsedStopUpdate, delay_seconds}
use irish_rail_nabber.Bus.Histogram.{
  Scope, scope_before, bump_if, is_reported, count_delay, count_delays, trip_relationships,
  bus_poll_delay_histogram,
}

-- A scope of one kind, if the update names one.
abbrev pub scope_of : String → Option String → ℤ → List Scope
scope_of kind none delay = []
scope_of kind (some id) delay = (kind, (id, delay)) ∷ []

abbrev pub scopes_at : {R : Runtime} → ParsedStopUpdate R → Option ℤ → List Scope
scopes_at u none = []
scopes_at u (some delay) =
    ("network", ("", delay))
    ∷ (scope_of "route" u.route_id delay ++ scope_of "stop" u.stop_id delay)

module _ (R : Runtime) where
  -- The scopes for which one update reports its delay: none, if it has no delay or is cancelled.
  abbrev pub reported_scopes : Dict String String → ParsedStopUpdate R → List Scope
  reported_scopes rels u = if is_reported R rels u then scopes_at u (delay_seconds R u) else []

  abbrev pub all_reported_scopes : Dict String String → List (ParsedStopUpdate R) → List Scope
  all_reported_scopes rels [] = []
  all_reported_scopes rels (u ∷ us) = reported_scopes rels u ++ all_reported_scopes rels us

  total-bump_if :
      (k : Scope) (kind : String) (id : Option String) (delay : ℤ) (d : Dict Scope ℕ)
      → total (count_for k) (bump_if kind id delay d)
        ≡ total (count_for k) d + count k (scope_of kind id delay)
  total-bump_if k kind none delay d = omega arith
  total-bump_if k kind (some id) delay d = omega (arith, total-bump k (kind, (id, delay)) d)

  total-count_delay :
      (k : Scope) (rels : Dict String String) (u : ParsedStopUpdate R) (delay : Option ℤ)
      (d : Dict Scope ℕ)
      → total (count_for k) (count_delay R rels u delay d)
        ≡ total (count_for k) d + count k (if is_reported R rels u then scopes_at u delay else [])
  unfolding count_delay
  total-count_delay k rels u none d = elim (Bool-cases (is_reported R rels u)) [
    | inl e ↦ rw e (omega arith)
    | inr e ↦ rw e (omega arith)
  ]
  total-count_delay k rels u (some delay) d = elim (Bool-cases (is_reported R rels u)) [
    | inl e ↦ rw e (
        omega (
          arith,
          total-bump_if k "stop" u.stop_id delay
              (bump_if "route" u.route_id delay (bump ("network", ("", delay)) d)),
          total-bump_if k "route" u.route_id delay (bump ("network", ("", delay)) d),
          total-bump k ("network", ("", delay)) d,
          count-append k (scope_of "route" u.route_id delay) (scope_of "stop" u.stop_id delay),
        ))
    | inr e ↦ rw e (omega arith)
  ]

  total-count_delays :
      (k : Scope) (rels : Dict String String) (us : List (ParsedStopUpdate R)) (d : Dict Scope ℕ)
      → total (count_for k) (count_delays R rels us d)
        ≡ total (count_for k) d + count k (all_reported_scopes rels us)
  unfolding count_delays
  total-count_delays k rels [] d = omega arith
  total-count_delays k rels (u ∷ us) d = omega (
    arith,
    total-count_delays k rels us (count_delay R rels u (delay_seconds R u) d),
    total-count_delay k rels u (delay_seconds R u) d,
    count-append k (reported_scopes rels u) (all_reported_scopes rels us),
  )

  -- What every step of the loop keeps: one entry for a scope at most, and no entry with a count of 0.
  abbrev IsCounter : Dict Scope ℕ → Type 0
  IsCounter d = ((k : Scope) → total (entry_for k) d ≤ 1) × All IsPositive d

  bump-IsCounter : (j : Scope) (d : Dict Scope ℕ) → IsCounter d → IsCounter (bump j d)
  bump-IsCounter j d h = (λ k. total-entry-bump-le k j d (h.0 k), bump-IsPositive j d h.1)

  bump_if-IsCounter :
      (kind : String) (id : Option String) (delay : ℤ) (d : Dict Scope ℕ)
      → IsCounter d
      → IsCounter (bump_if kind id delay d)
  bump_if-IsCounter kind none delay d h = h
  bump_if-IsCounter kind (some id) delay d h = bump-IsCounter (kind, (id, delay)) d h

  count_delay-IsCounter :
      (rels : Dict String String) (u : ParsedStopUpdate R) (delay : Option ℤ) (d : Dict Scope ℕ)
      → IsCounter d
      → IsCounter (count_delay R rels u delay d)
  unfolding count_delay
  count_delay-IsCounter rels u none d h = h
  count_delay-IsCounter rels u (some delay) d h = elim (Bool-cases (is_reported R rels u)) [
    | inl e ↦ rw e (
        bump_if-IsCounter "stop" u.stop_id delay _ (
          bump_if-IsCounter "route" u.route_id delay _
            (bump-IsCounter ("network", ("", delay)) d h)))
    | inr e ↦ rw e h
  ]

  count_delays-IsCounter :
      (rels : Dict String String) (us : List (ParsedStopUpdate R)) (d : Dict Scope ℕ)
      → IsCounter d
      → IsCounter (count_delays R rels us d)
  unfolding count_delays
  count_delays-IsCounter rels [] d h = h
  count_delays-IsCounter rels (u ∷ us) d h =
      count_delays-IsCounter rels us _ (count_delay-IsCounter rels u (delay_seconds R u) d h)

-- For every scope (the network, a route or a stop, at a delay) the histogram's rows for it add up to the
-- number of times the updates of the poll report it; there is one row for it at most; and no row counts 0.
pub bus_poll_delay_histogram_counts :
    (R : Runtime) (updates : List (ParsedStopUpdate R)) (trips : List (ParsedTripFreshness R))
    → let rows = bus_poll_delay_histogram R updates trips in
      ((k : Scope)
        → (total (count_for k) rows
            ≡ count k (all_reported_scopes R (trip_relationships R trips []) updates))
          × (total (entry_for k) rows ≤ 1))
      × All IsPositive rows
unfolding bus_poll_delay_histogram
bus_poll_delay_histogram_counts R updates trips =
    let counts = count_delays R (trip_relationships R trips []) updates [] in
    let kept =
      count_delays-IsCounter R (trip_relationships R trips []) updates []
        ((λ k. omega arith), tt) in
    (
      λ k. (
        rw total-sort
            (omega (arith, total-count_delays R k (trip_relationships R trips []) updates [])),
        rw total-sort (kept.0 k),
      ),
      All-sort scope_before IsPositive counts kept.1,
    )
