-- ===== src/Bus/Static/Tables/Kept.antt =====
-- What the loops over agency.txt and routes.txt leave behind.
use mathlib.Core.List.{List, [], ◌∷◌, ◌++◌, map}
use irish_rail_nabber.Prelude.{
  String, ◌≡◌, true, inl, inr, Option, none, some, arith, string_eq, contains, contains-add,
  contains-map-snoc, add, All, All-append, All-map, Bool-cases, get_or, or_else,
}
use irish_rail_nabber.Prelude.Dict.{Dict, has_key}
use irish_rail_nabber.Prelude.Dict.Keys.{All-insert}
use irish_rail_nabber.Prelude.Int.{ℤ}
use irish_rail_nabber.Prelude.Result.{OnOk, OnOk->>=, OnOk-bind}
use irish_rail_nabber.Python.Runtime.{Runtime}
use irish_rail_nabber.Bus.Static.Csv.{Row, required_field, csv_int, optional_field}
use irish_rail_nabber.Bus.Static.Tables.{
  RawAgency, Agency, Route, Routes, is_bus_route_type, index_agencies, add_route, read_route,
  read_routes, default_agency_id, require_agency,
}

abbrev pub agency_key : Agency → String
agency_key a = a.agency_id

abbrev pub route_key : Route → String
route_key r = r.route_id

-- The agencies stand under their own identifiers.
abbrev pub IsOwnAgency : String × Agency → Type 0
IsOwnAgency e = e.1.agency_id ≡ e.0

pub index_agencies-IsOwnAgency :
    (raws : List RawAgency) (d : Dict String Agency)
    → All IsOwnAgency d
    → OnOk (All IsOwnAgency) (index_agencies raws d)
unfolding index_agencies
index_agencies-IsOwnAgency [] d h = h
index_agencies-IsOwnAgency (a ∷ raws) d h =
    elim (Bool-cases (has_key (get_or a.agency_id default_agency_id) d)) [
      | inl twice ↦ rw twice tt
      | inr fresh ↦
          rw fresh (index_agencies-IsOwnAgency raws _ (All-insert IsOwnAgency _ _ d (λ j e. cc) h))
    ]

-- A bus route whose agency is in the set.
abbrev pub IsBusRouteOf : List String → Route → Type 0
IsBusRouteOf agency_ids r =
    (is_bus_route_type (some r.route_type) ≡ true) × (contains r.agency_id agency_ids ≡ true)

pub record IsRoutes (s : Routes) : Type 0 where
  pub each : All (IsBusRouteOf s.agency_ids) s.routes
  pub found :
      (k : String) → contains k s.route_ids ≡ true → contains k (map route_key s.routes) ≡ true

module _ (R : Runtime) where
  IsBusRouteOf-add :
      (a : String) (ids : List String) (rs : List Route)
      → All (IsBusRouteOf ids) rs
      → All (IsBusRouteOf (add a ids)) rs
  IsBusRouteOf-add a ids =
      All-map (IsBusRouteOf ids) (IsBusRouteOf (add a ids))
        (λ r h. (h.0, ground (arith, h.1, contains-add a r.agency_id ids)))

  IsRoutes-add :
      (r : Route) (s : Routes)
      → is_bus_route_type (some r.route_type) ≡ true
      → IsRoutes s
      → IsRoutes (record {
        agency_ids = add r.agency_id s.agency_ids;
        route_ids = add r.route_id s.route_ids;
        routes = s.routes ++ r ∷ [];
      })
  IsRoutes-add r s bus h = record {
    each =
        All-append (IsBusRouteOf (add r.agency_id s.agency_ids)) s.routes (r ∷ [])
          (IsBusRouteOf-add r.agency_id s.agency_ids s.routes h.each)
          (
            (
              bus,
              ground (
                arith,
                contains-add r.agency_id r.agency_id s.agency_ids,
                string_eq.beq_iff r.agency_id r.agency_id,
              ),
            ),
            tt,
          );
    found = λ k c. ground (
      arith,
      h.found k,
      contains-add r.route_id k s.route_ids,
      contains-map-snoc route_key k s.routes r,
    );
  }

  add_route-IsRoutes :
      (sole : Option String) (route_type : Option ℤ) (row : Row) (s : Routes)
      → is_bus_route_type route_type ≡ true
      → IsRoutes s
      → OnOk IsRoutes (add_route R sole route_type row s)
  unfolding add_route
  add_route-IsRoutes sole none row s bus h = absurd (unfold is_bus_route_type in ground arith)
  add_route-IsRoutes sole (some t) row s bus h =
      OnOk->>= IsRoutes (required_field R row "route_id") _ λ route_id _.
        OnOk->>= IsRoutes (require_agency (or_else (optional_field "agency_id" row) sole)) _
          λ agency_id _. IsRoutes-add _ s bus h

  read_route-IsRoutes :
      (sole : Option String) (row : Row) (s : Routes)
      → IsRoutes s
      → OnOk IsRoutes (read_route R sole row s)
  unfolding read_route
  read_route-IsRoutes sole row s h =
      OnOk->>= IsRoutes (csv_int R row "route_type" true) _ λ route_type _.
        elim (Bool-cases (is_bus_route_type route_type)) [
          | inl bus ↦ rw bus (add_route-IsRoutes sole route_type row s bus h)
          | inr other ↦ rw other h
        ]

  pub read_routes-IsRoutes :
      (sole : Option String) (rows : List Row) (s : Routes)
      → IsRoutes s
      → OnOk IsRoutes (read_routes R sole rows s)
  unfolding read_routes
  read_routes-IsRoutes sole [] s h = h
  read_routes-IsRoutes sole (row ∷ rows) s h =
      OnOk-bind IsRoutes IsRoutes (read_route R sole row s) (read_routes R sole rows)
        (read_route-IsRoutes sole row s h) (read_routes-IsRoutes sole rows)
