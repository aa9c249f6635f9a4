-- ===== src/Bus/Static/Trips/Kept.antt =====
-- What the loop over trips.txt leaves behind.
use mathlib.Core.List.{List, [], ◌∷◌, ◌++◌}
use irish_rail_nabber.Prelude.{
  String, ◌≡◌, ap, true, false, inl, inr, Option, none, some, arith, string_eq, contains,
  contains-add, add, All, All-append, All-map, Bool-cases, get_or,
}
use irish_rail_nabber.Prelude.Dict.{lookup}
use irish_rail_nabber.Prelude.Result.{OnOk, OnOk->>=, OnOk-bind}
use irish_rail_nabber.Python.Text.{is_empty, strip}
use irish_rail_nabber.Python.Runtime.{Runtime}
use irish_rail_nabber.Bus.Static.Csv.{Row, required_field, csv_int}
use irish_rail_nabber.Bus.Static.Tables.{Trip}
use irish_rail_nabber.Bus.Static.Trips.{Trips, add_shape, add_trip, read_trip, read_trips}

abbrev pub HasShapeIn : List String → Option String → Type 0
HasShapeIn ids none = Unit
HasShapeIn ids (some s) = contains s ids ≡ true

-- A trip of a selected route, listed with its shape.
abbrev pub IsTripOf : List String → List String → List String → Trip → Type 0
IsTripOf route_ids trip_ids shape_ids t =
    (contains t.route_id route_ids ≡ true)
    × (contains t.trip_id trip_ids ≡ true)
    × HasShapeIn shape_ids t.shape_id

abbrev pub IsTrips : List String → Trips → Type 0
IsTrips route_ids s = All (IsTripOf route_ids s.trip_ids s.shape_ids) s.trips

HasShapeIn-add :
    (new old : Option String) (ids : List String)
    → HasShapeIn ids old
    → HasShapeIn (add_shape new ids) old
HasShapeIn-add none old ids h = h
HasShapeIn-add (some n) none ids h = tt
HasShapeIn-add (some n) (some o) ids h = ground (arith, contains-add n o ids)

HasShapeIn-own : (new : Option String) (ids : List String) → HasShapeIn (add_shape new ids) new
HasShapeIn-own none ids = tt
HasShapeIn-own (some n) ids = ground (arith, contains-add n n ids, string_eq.beq_iff n n)

module _ (R : Runtime) (route_ids : List String) where
  IsTrips-add :
      (t : Trip) (s : Trips)
      → contains t.route_id route_ids ≡ true
      → IsTrips route_ids s
      → IsTrips route_ids (record {
        trip_ids = add t.trip_id s.trip_ids;
        shape_ids = add_shape t.shape_id s.shape_ids;
        trips = s.trips ++ t ∷ [];
      })
  IsTrips-add t s c h =
      All-append (IsTripOf route_ids (add t.trip_id s.trip_ids) (add_shape t.shape_id s.shape_ids))
        s.trips (t ∷ [])
        (All-map (IsTripOf route_ids s.trip_ids s.shape_ids)
          (IsTripOf route_ids (add t.trip_id s.trip_ids) (add_shape t.shape_id s.shape_ids))
          (λ o p. (
            p.0,
            ground (arith, p.1, contains-add t.trip_id o.trip_id s.trip_ids),
            HasShapeIn-add t.shape_id o.shape_id s.shape_ids p.2,
          ))
          s.trips h)
        (
          (
            c,
            ground (
              arith,
              contains-add t.trip_id t.trip_id s.trip_ids,
              string_eq.beq_iff t.trip_id t.trip_id,
            ),
            HasShapeIn-own t.shape_id s.shape_ids,
          ),
          tt,
        )

  read_trip-IsTrips :
      (row : Row) (s : Trips)
      → IsTrips route_ids s
      → OnOk (IsTrips route_ids) (read_trip R route_ids row s)
  unfolding read_trip add_trip
  read_trip-IsTrips row s h =
      elim (Bool-cases (contains (get_or (lookup "route_id" row) "") route_ids)) [
        | inr other ↦ rw other h
        | inl bus ↦ rw bus (
            OnOk->>= (IsTrips route_ids) (required_field R row "trip_id") _ λ trip_id _.
              OnOk->>= (IsTrips route_ids) (required_field R row "service_id") _ λ service_id _.
                OnOk->>= (IsTrips route_ids) (csv_int R row "direction_id" false) _
                  λ direction_id _. IsTrips-add _ s bus h)
      ]

  pub read_trips-IsTrips :
      (rows : List Row) (s : Trips)
      → IsTrips route_ids s
      → OnOk (IsTrips route_ids) (read_trips R route_ids rows s)
  unfolding read_trips
  read_trips-IsTrips [] s h = h
  read_trips-IsTrips (row ∷ rows) s h =
      OnOk-bind (IsTrips route_ids) (IsTrips route_ids) (read_trip R route_ids row s)
        (read_trips R route_ids rows) (read_trip-IsTrips row s h) (read_trips-IsTrips rows)

-- A required field is no empty text, so no trip has the empty identifier.
abbrev IsFilled : String → Type 0
IsFilled s = is_empty s ≡ false

abbrev pub HasNoEmptyTrip : Trips → Type 0
HasNoEmptyTrip s = contains "" s.trip_ids ≡ false

module _ (R : Runtime) (route_ids : List String) where
  required_field-IsFilled :
      (row : Row) (field : String) → OnOk IsFilled (required_field R row field)
  unfolding required_field
  required_field-IsFilled row field =
      elim (Bool-cases (is_empty (strip (get_or (lookup field row) "")))) [
        | inl e ↦ rw e tt
        | inr e ↦ rw e e
      ]

  read_trip-HasNoEmptyTrip :
      (row : Row) (s : Trips) → HasNoEmptyTrip s → OnOk HasNoEmptyTrip (read_trip R route_ids row s)
  unfolding read_trip add_trip
  read_trip-HasNoEmptyTrip row s h =
      elim (Bool-cases (contains (get_or (lookup "route_id" row) "") route_ids)) [
        | inr other ↦ rw other h
        | inl bus ↦ rw bus (
            OnOk-bind IsFilled HasNoEmptyTrip (required_field R row "trip_id") _
              (required_field-IsFilled row "trip_id")
              λ trip_id filled.
                OnOk->>= HasNoEmptyTrip (required_field R row "service_id") _ λ service_id _.
                  OnOk->>= HasNoEmptyTrip (csv_int R row "direction_id" false) _ λ direction_id _.
                    ground (
                      arith,
                      contains-add trip_id "" s.trip_ids,
                      string_eq.beq_iff trip_id "",
                      λ (e : trip_id ≡ ""). ap is_empty e,
                    ))
      ]

  pub read_trips-HasNoEmptyTrip :
      (rows : List Row) (s : Trips)
      → HasNoEmptyTrip s
      → OnOk HasNoEmptyTrip (read_trips R route_ids rows s)
  unfolding read_trips
  read_trips-HasNoEmptyTrip [] s h = h
  read_trips-HasNoEmptyTrip (row ∷ rows) s h =
      OnOk-bind HasNoEmptyTrip HasNoEmptyTrip (read_trip R route_ids row s)
        (read_trips R route_ids rows) (read_trip-HasNoEmptyTrip row s h)
        (read_trips-HasNoEmptyTrip rows)
