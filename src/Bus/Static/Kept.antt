-- ===== src/Bus/Static/Kept.antt =====
-- What each step of `_select_static_feed` returns.
use mathlib.Core.List.{List, [], ◌∷◌, map}
use irish_rail_nabber.Prelude.{
  String, ◌≡◌, refl, ◌∙◌, sym, true, false, not, ◌&&◌, nat_beq, Option, none, some, arith,
  string_eq, contains, any_of, All, All-map, length,
}
use irish_rail_nabber.Prelude.Dict.{Dict, lookup, insert, keys}
use irish_rail_nabber.Prelude.Dict.Keys.{All-insert, has_key-eq-contains}
use irish_rail_nabber.Prelude.Result.{
  ok, OnOk, OnOk-ok, OnOk->>=, OnOk-bind, OnOk-map, raise_if, raise_if-ok,
}
use irish_rail_nabber.Prelude.Sort.{sort, contains-sort}
use irish_rail_nabber.Python.Runtime.{Runtime}
use irish_rail_nabber.Bus.Error.{
  feed_format, no_agencies, agency_id_required, no_routes, missing_agencies, no_trips,
  missing_stops,
}
use irish_rail_nabber.Bus.Static.Csv.{Row, Archive, gtfs_rows}
use irish_rail_nabber.Bus.Static.Tables.{Agency, Stop, read_agencies, read_routes}
use irish_rail_nabber.Bus.Static.Tables.Kept.{
  IsOwnAgency, index_agencies-IsOwnAgency, IsRoutes, read_routes-IsRoutes,
}
use irish_rail_nabber.Bus.Static.Trips.{Trips, read_trips}
use irish_rail_nabber.Bus.Static.Trips.Kept.{
  IsTrips, read_trips-IsTrips, HasNoEmptyTrip, read_trips-HasNoEmptyTrip,
}
use irish_rail_nabber.Bus.Static.Stops.{read_stops, close_over_parents, closing_fuel, stop_of}
use irish_rail_nabber.Bus.Static.Stops.Closure.{IsClosed, close_over_parents-IsClosed}
use irish_rail_nabber.Bus.Static.Select.{
  is_nil, lacks_id, text_before, has_missing, pick_all, key_or_error, select_agencies,
  select_routes, select_trips, select_stops,
}

pub has_missing-none :
    (ids known : List String) (k : String)
    → has_missing ids known ≡ false
    → contains k ids ≡ true
    → contains k known ≡ true
has_missing-none [] known k h c = cc
has_missing-none (i ∷ ids) known k h c =
    ground (arith, has_missing-none ids known k, string_eq.beq_iff i k)

abbrev pub IsRowOf : {A : Type 0} → (A → String) → Dict String A → List String → A → Type 0
IsRowOf key table ks a = (lookup (key a) table ≡ some a) × (contains (key a) ks ≡ true)

-- What `pick_all` returns: the rows of the keys, in the order of the keys.
abbrev pub Picked : {A : Type 0} → (A → String) → Dict String A → List String → List A → Type 0
Picked key table ks xs = (map key xs ≡ ks) × All (IsRowOf key table ks) xs

-- The rows of a table that stand under their own keys.
module _ {A : Type 0} (key : A → String) (table : Dict String A)
    (own : All (λ e. key e.1 ≡ e.0) table) where
  lookup-own :
      (k : String) (a : A) (d : Dict String A)
      → All (λ e. key e.1 ≡ e.0) d
      → lookup k d ≡ some a
      → key a ≡ k
  lookup-own k a [] h e = cc
  lookup-own k a (x ∷ d) h e = ground (arith, lookup-own k a d h.1, string_eq.beq_iff x.0 k)

  found-own : (k : String) (a : A) → key_or_error (lookup k table) ≡ ok a → lookup k table ≡ some a
  found-own k a e = ground arith

  pub pick_all-Picked : (ks : List String) → OnOk (Picked key table ks) (pick_all ks table)
  unfolding pick_all
  pick_all-Picked [] = (refl, tt)
  pick_all-Picked (k ∷ ks) =
      OnOk->>= (Picked key table (k ∷ ks)) (key_or_error (lookup k table)) _ λ a e.
        OnOk-bind (Picked key table ks) (Picked key table (k ∷ ks)) (pick_all ks table) _
          (pick_all-Picked ks)
          λ rest p.
            let found = found-own k a e in
            let same = lookup-own k a table own found in
            (
              cc (same, p.0),
              (
                (rw same found, ground (arith, same, string_eq.beq_iff k (key a))),
                All-map (IsRowOf key table ks) (IsRowOf key table (k ∷ ks))
                    (λ x q. (q.0, ground (arith, q.1))) rest p.1,
              ),
            )

abbrev pub stop_key : {R : Runtime} → Stop R → String
stop_key s = s.stop_id

abbrev pub HasListedParent : List String → Option String → Type 0
HasListedParent ids none = Unit
HasListedParent ids (some p) = contains p ids ≡ true

module _ (R : Runtime) where
  abbrev IsOwnStop : String × Stop R → Type 0
  IsOwnStop e = e.1.stop_id ≡ e.0

  read_stops-IsOwnStop :
      (rows : List Row) (d : Dict String (Stop R))
      → All IsOwnStop d
      → OnOk (All IsOwnStop) (read_stops R rows d)
  unfolding read_stops
  read_stops-IsOwnStop [] d h = h
  read_stops-IsOwnStop (row ∷ rows) d h = OnOk->>= (All IsOwnStop) (stop_of R row) _ λ stop _.
      read_stops-IsOwnStop rows (insert stop.stop_id stop d)
        (All-insert IsOwnStop stop.stop_id stop d (λ j e. cc) h)

  -- The stops in use are selected, and with each stop its parent.
  abbrev pub IsStops : List String → List (Stop R) → Type 0
  IsStops used stops =
      ((k : String) → contains k used ≡ true → contains k (map stop_key stops) ≡ true)
      × All (λ s. HasListedParent (map stop_key stops) s.parent_station) stops

  listed-parents :
      (d : Dict String (Stop R)) (used sel : List String) (stops : List (Stop R))
      → IsClosed R d used sel
      → Picked stop_key d (sort text_before sel) stops
      → IsStops used stops
  listed-parents d used sel stops closed picked = (
    λ k c. member k (closed.extends k c),
    All-map (IsRowOf stop_key d (sort text_before sel))
        (λ s. HasListedParent (map stop_key stops) s.parent_station)
        (λ s found.
          listed s.parent_station s found.0
            (sym (contains-sort text_before s.stop_id sel) ∙ found.1) refl)
        stops picked.1,
  )
    where
      member : (k : String) → contains k sel ≡ true → contains k (map stop_key stops) ≡ true
      member k c = rw picked.0 (contains-sort text_before k sel ∙ c)

      listed :
          (o : Option String) (s : Stop R)
          → lookup s.stop_id d ≡ some s
          → contains s.stop_id sel ≡ true
          → s.parent_station ≡ o
          → HasListedParent (map stop_key stops) o
      listed none s found c e = tt
      listed (some p) s found c e = member p (closed.closed s.stop_id c s p found e)

  pub select_stops-IsStops :
      (archive : Archive) (used : List String) → OnOk (IsStops used) (select_stops R archive used)
  unfolding select_stops
  select_stops-IsStops archive used =
      OnOk->>= (IsStops used) (gtfs_rows R archive "stops.txt") _ λ rows _.
        OnOk-bind (All IsOwnStop) (IsStops used) (read_stops R rows []) _
          (read_stops-IsOwnStop rows [] tt)
          λ d own.
            OnOk->>= (IsStops used)
              (raise_if (has_missing used (keys d)) (feed_format missing_stops)) _
              λ _ passed.
                OnOk-bind (IsClosed R d used) (IsStops used)
                  (close_over_parents R (closing_fuel R d used) d used used) _
                  (close_over_parents-IsClosed R d used (λ k c.
                    has_key-eq-contains k d
                    ∙ has_missing-none used (keys d) k
                        (raise_if-ok (has_missing used (keys d)) (feed_format missing_stops) passed)
                        c)).0
                  λ sel closed.
                    OnOk-map (Picked stop_key d (sort text_before sel)) (IsStops used)
                      (pick_all (sort text_before sel) d)
                      (λ stops. listed-parents d used sel stops closed)
                      (pick_all-Picked stop_key d own (sort text_before sel))

  pub select_routes-IsRoutes :
      (archive : Archive) (all_agencies : Dict String Agency)
      → OnOk IsRoutes (select_routes R archive all_agencies)
  unfolding select_routes
  select_routes-IsRoutes archive all_agencies =
      OnOk->>= IsRoutes (gtfs_rows R archive "routes.txt") _ λ rows _.
        OnOk-bind IsRoutes IsRoutes (read_routes R _ rows _) _
          (read_routes-IsRoutes R _ rows _ (record { each = tt; found = λ k c. cc }))
          λ s h. OnOk->>= IsRoutes (raise_if (is_nil s.routes) (feed_format no_routes)) _ λ _ _.
            OnOk->>= IsRoutes
              (raise_if (has_missing s.agency_ids (keys all_agencies))
                (feed_format missing_agencies))
              _ λ _ _. h

  pub select_agencies-IsOwnAgency :
      (archive : Archive) → OnOk (All IsOwnAgency) (select_agencies R archive)
  unfolding select_agencies
  select_agencies-IsOwnAgency archive =
      OnOk->>= (All IsOwnAgency) (gtfs_rows R archive "agency.txt") _ λ rows _.
        OnOk->>= (All IsOwnAgency) (read_agencies R rows) _ λ raws _.
          OnOk->>= (All IsOwnAgency) (raise_if (is_nil raws) (feed_format no_agencies)) _ λ _ _.
            OnOk->>= (All IsOwnAgency)
              (raise_if (any_of lacks_id raws && not (nat_beq (length raws) 1))
                (feed_format agency_id_required))
              _ λ _ _. index_agencies-IsOwnAgency raws [] tt

  abbrev pub IsTripsOf : List String → Trips → Type 0
  IsTripsOf route_ids t = IsTrips route_ids t × HasNoEmptyTrip t

  pub select_trips-IsTripsOf :
      (archive : Archive) (route_ids : List String)
      → OnOk (IsTripsOf route_ids) (select_trips R archive route_ids)
  unfolding select_trips
  select_trips-IsTripsOf archive route_ids =
      OnOk->>= (IsTripsOf route_ids) (gtfs_rows R archive "trips.txt") _ λ rows _.
        OnOk->>= (IsTripsOf route_ids) (read_trips R route_ids rows _) _ λ t e.
          OnOk->>= (IsTripsOf route_ids) (raise_if (is_nil t.trips) (feed_format no_trips)) _ λ _ _.
            (
              OnOk-ok (IsTrips route_ids) (read_trips-IsTrips R route_ids rows _ tt) e,
              OnOk-ok HasNoEmptyTrip (read_trips-HasNoEmptyTrip R route_ids rows _ refl) e,
            )
