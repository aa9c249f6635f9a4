-- ===== src/Bus/Static/Trips/Passes.antt =====
-- The two passes over stop_times.txt.
use mathlib.Core.List.{List, [], ◌∷◌}
use irish_rail_nabber.Prelude.{
  ◌+◌, String, ◌≡◌, refl, ◌∙◌, true, false, inl, inr, Option, none, some, arith, string_eq,
  contains, contains-add, add, All, Bool-cases, get_or, length,
}
use irish_rail_nabber.Prelude.Dict.{lookup}
use irish_rail_nabber.Prelude.Result.{ok, OnOk, OnOk->>=, OnOk-bind, OnOk-map}
use irish_rail_nabber.Python.Runtime.{Runtime}
use irish_rail_nabber.Bus.Static.Csv.{Row, required_field, csv_int}
use irish_rail_nabber.Bus.Static.Tables.{StopTime}
use irish_rail_nabber.Bus.Static.Trips.{
  Usage, check_stop_time, use_stop, read_stop_times, has_trip, stop_time_of, stop_times_of,
  gtfs_time,
}

-- A stop time of a selected trip at a stop in use.
abbrev pub IsStopTimeOf : List String → List String → StopTime → Type 0
IsStopTimeOf trip_ids used st =
    (contains st.trip_id trip_ids ≡ true) × (contains st.stop_id used ≡ true)

-- How the second pass over some rows follows from the first, which took `u` to `u'`.
pub record Pass (R : Runtime) (trip_ids : List String) (rows : List Row) (u u' : Usage)
    : Type 0 where
  pub stop_times : List StopTime
  pub returned : stop_times_of R trip_ids rows ≡ ok stop_times
  pub counted : length stop_times + u.stop_time_count ≡ u'.stop_time_count
  pub used : All (IsStopTimeOf trip_ids u'.used_stop_ids) stop_times
  pub grows : (k : String) → contains k u.used_stop_ids ≡ true → contains k u'.used_stop_ids ≡ true

-- What a checked row is in the second pass.
abbrev Reads : Runtime → Row → String → Type 0
Reads R row stop_id =
    (st : StopTime) × (stop_time_of R row ≡ ok st)
    × (st.stop_id ≡ stop_id)
    × (st.trip_id ≡ get_or (lookup "trip_id" row) "")

module _ (R : Runtime) (trip_ids : List String) (filled : contains "" trip_ids ≡ false) where
  contains-eq-has_trip :
      (o : Option String) → contains (get_or o "") trip_ids ≡ has_trip R trip_ids o
  contains-eq-has_trip none = filled
  contains-eq-has_trip (some t) = refl

  check_stop_time-Reads : (row : Row) → OnOk (Reads R row) (check_stop_time R row)
  unfolding check_stop_time stop_time_of
  check_stop_time-Reads row = OnOk->>= (Reads R row) (required_field R row "stop_id") _ λ stop_id e.
      OnOk->>= (Reads R row) (csv_int R row "stop_sequence" true) _ λ seq f.
        OnOk->>= (Reads R row) (gtfs_time R row "arrival_time") _ λ arrival g.
          OnOk->>= (Reads R row) (gtfs_time R row "departure_time") _ λ departure h. (
            record {
              trip_id = get_or (lookup "trip_id" row) "";
              stop_sequence = seq;
              stop_id = stop_id;
              arrival_seconds = arrival;
              departure_seconds = departure;
            },
            rw (e, f, g, h),
            refl,
            refl,
          )

  Pass-skip :
      (row : Row) (rows : List Row) (u u' : Usage)
      → has_trip R trip_ids (lookup "trip_id" row) ≡ false
      → Pass R trip_ids rows u u'
      → Pass R trip_ids (row ∷ rows) u u'
  unfolding stop_times_of
  Pass-skip row rows u u' other p = record {
    stop_times = p.stop_times;
    returned = rw (contains-eq-has_trip (lookup "trip_id" row), other) p.returned;
    counted = p.counted;
    used = p.used;
    grows = p.grows;
  }

  -- The usage after one more row at a stop.
  abbrev pub used_once : String → Usage → Usage
  used_once stop_id u = record {
    used_stop_ids = add stop_id u.used_stop_ids;
    stop_time_count = u.stop_time_count + 1;
  }

  Pass-use :
      (row : Row) (rows : List Row) (stop_id : String) (u u' : Usage)
      → has_trip R trip_ids (lookup "trip_id" row) ≡ true
      → Reads R row stop_id
      → Pass R trip_ids rows (used_once stop_id u) u'
      → Pass R trip_ids (row ∷ rows) u u'
  unfolding stop_times_of
  Pass-use row rows stop_id u u' bus (st, read, at, of) p = record {
    stop_times = st ∷ p.stop_times;
    returned = rw (contains-eq-has_trip (lookup "trip_id" row), bus, read, p.returned);
    counted = omega (arith, p.counted);
    used = (
      (
        rw of (contains-eq-has_trip (lookup "trip_id" row) ∙ bus),
        rw at (
            p.grows stop_id (
              ground (
                arith,
                contains-add stop_id stop_id u.used_stop_ids,
                string_eq.beq_iff stop_id stop_id,
              ))),
      ),
      p.used,
    );
    grows = λ k c. p.grows k (ground (arith, contains-add stop_id k u.used_stop_ids));
  }

  abbrev Used : Row → Usage → Usage → Type 0
  Used row u v = (stop_id : String) × Reads R row stop_id × (v ≡ used_once stop_id u)

  use_stop-Used : (row : Row) (u : Usage) → OnOk (Used row u) (use_stop R row u)
  unfolding use_stop
  use_stop-Used row u =
      OnOk-bind (Reads R row) (Used row u) (check_stop_time R row) _ (check_stop_time-Reads row)
        (λ stop_id reads. (stop_id, reads, refl))

  pub read_stop_times-Pass :
      (rows : List Row) (u : Usage)
      → OnOk (Pass R trip_ids rows u) (read_stop_times R trip_ids rows u)
  unfolding read_stop_times
  read_stop_times-Pass [] u = record {
    stop_times = [];
    returned = unfold stop_times_of in refl;
    counted = omega arith;
    used = tt;
    grows = λ k c. c;
  }
  read_stop_times-Pass (row ∷ rows) u =
      elim (Bool-cases (has_trip R trip_ids (lookup "trip_id" row))) [
        | inr other ↦ rw other (
            OnOk-map (Pass R trip_ids rows u) (Pass R trip_ids (row ∷ rows) u)
              (read_stop_times R trip_ids rows u) (λ u'. Pass-skip row rows u u' other)
              (read_stop_times-Pass rows u))
        | inl bus ↦ rw bus (
            OnOk-bind (Used row u) (Pass R trip_ids (row ∷ rows) u) (use_stop R row u)
              (read_stop_times R trip_ids rows) (use_stop-Used row u)
              (λ v (stop_id, reads, e). rw e (
                OnOk-map (Pass R trip_ids rows (used_once stop_id u))
                  (Pass R trip_ids (row ∷ rows) u)
                  (read_stop_times R trip_ids rows (used_once stop_id u))
                  (λ u'. Pass-use row rows stop_id u u' bus reads)
                  (read_stop_times-Pass rows (used_once stop_id u)))))
      ]
