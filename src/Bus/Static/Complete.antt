-- ===== src/Bus/Static/Complete.antt =====
-- What the rows of a selection of `_select_static_feed` (bus_daemon.py) refer to.
use mathlib.Core.List.{List, map}
use irish_rail_nabber.Prelude.{
  ℕ, String, ◌≡◌, refl, ◌∙◌, false, nat_beq, arith, string_eq, contains, All, All-map, length,
}
use irish_rail_nabber.Prelude.Dict.{Dict}
use irish_rail_nabber.Prelude.Result.{ok, OnOk, OnOk-ok, OnOk->>=, OnOk-bind, raise_if}
use irish_rail_nabber.Prelude.Sort.{sort, All-sort, contains-map-sort, contains-sort}
use irish_rail_nabber.Python.Runtime.{Runtime}
use irish_rail_nabber.Bus.Error.{feed_format, no_stop_times, missing_shapes}
use irish_rail_nabber.Bus.Static.Csv.{Archive, gtfs_rows}
use irish_rail_nabber.Bus.Static.Tables.{Agency, ShapePoint, Routes, StopTime}
use irish_rail_nabber.Bus.Static.Tables.Kept.{
  agency_key, route_key, IsOwnAgency, IsBusRouteOf, IsRoutes,
}
use irish_rail_nabber.Bus.Static.Trips.{
  Trips, Usage, read_stop_times, iter_bus_stop_times, iter_bus_shape_points,
}
use irish_rail_nabber.Bus.Static.Trips.Kept.{IsTripOf, IsTrips}
use irish_rail_nabber.Bus.Static.Trips.Passes.{IsStopTimeOf, Pass, read_stop_times-Pass}
use irish_rail_nabber.Bus.Static.Select.{
  StaticFeedSelection, route_before, trip_before, text_before, has_missing, pick_all,
  select_agencies, select_routes, select_trips, select_usage, select_shapes, select_stops,
  select_static_feed, select_rest, shape_id_of,
}
use irish_rail_nabber.Bus.Static.Kept.{
  Picked, pick_all-Picked, IsStops, select_stops-IsStops, select_routes-IsRoutes,
  select_agencies-IsOwnAgency, IsTripsOf, select_trips-IsTripsOf, stop_key, HasListedParent,
}

-- Whatever the rows of a selection refer to is in the selection, and the import's second pass over
-- the archive finds as many stop times and shape points as were counted.
pub record IsComplete (R : Runtime) (archive : Archive) (sel : StaticFeedSelection R) : Type 0 where
  pub routes : All (IsBusRouteOf (map agency_key sel.agencies)) sel.routes
  pub trips : All (IsTripOf (map route_key sel.routes) sel.trip_ids sel.shape_ids) sel.trips
  pub stop_times : List StopTime
  pub second_pass : iter_bus_stop_times R archive sel.trip_ids ≡ ok stop_times
  pub counted : length stop_times ≡ sel.stop_time_count
  pub stops : All (IsStopTimeOf sel.trip_ids (map stop_key sel.stops)) stop_times
  pub parents : All (λ s. HasListedParent (map stop_key sel.stops) s.parent_station) sel.stops
  pub shape_points : List (ShapePoint R)
  pub shapes_read : iter_bus_shape_points R archive sel.shape_ids ≡ ok shape_points
  pub shapes_counted : length shape_points ≡ sel.shape_point_count

module _ (R : Runtime) (archive : Archive) where
  -- What the two passes over stop_times.txt have in common.
  abbrev IsUsage : List String → Usage → Type 0
  IsUsage trip_ids u =
      (sts : List StopTime) × (iter_bus_stop_times R archive trip_ids ≡ ok sts)
      × (length sts ≡ u.stop_time_count)
      × All (IsStopTimeOf trip_ids u.used_stop_ids) sts

  select_usage-IsUsage :
      (trip_ids : List String)
      → contains "" trip_ids ≡ false
      → OnOk (IsUsage trip_ids) (select_usage R archive trip_ids)
  unfolding select_usage iter_bus_stop_times
  select_usage-IsUsage trip_ids filled =
      OnOk->>= (IsUsage trip_ids) (gtfs_rows R archive "stop_times.txt") _ λ rows e.
        OnOk-bind (Pass R trip_ids rows _) (IsUsage trip_ids) (read_stop_times R trip_ids rows _) _
          (read_stop_times-Pass R trip_ids filled rows _)
          λ u p.
            OnOk->>= (IsUsage trip_ids)
              (raise_if (nat_beq u.stop_time_count 0) (feed_format no_stop_times)) _
              λ _ _. (p.stop_times, rw e p.returned, omega (arith, p.counted), p.used)

  abbrev IsShapes : List String → ℕ → Type 0
  IsShapes shape_ids n =
      (points : List (ShapePoint R)) × (iter_bus_shape_points R archive shape_ids ≡ ok points)
      × (length points ≡ n)

  select_shapes-IsShapes :
      (shape_ids : List String) → OnOk (IsShapes shape_ids) (select_shapes R archive shape_ids)
  unfolding select_shapes
  select_shapes-IsShapes shape_ids =
      OnOk->>= (IsShapes shape_ids) (iter_bus_shape_points R archive shape_ids) _ λ points e.
        OnOk->>= (IsShapes shape_ids)
          (raise_if (has_missing shape_ids (map (shape_id_of R) points))
            (feed_format missing_shapes))
          _ λ _ _. (points, e, refl)

  -- The agencies of the routes are those that were picked.
  routes-listed :
      (all_agencies : Dict String Agency) (r : Routes) (agencies : List Agency)
      → IsRoutes r
      → Picked agency_key all_agencies (sort text_before r.agency_ids) agencies
      → All (IsBusRouteOf (map agency_key agencies)) (sort route_before r.routes)
  routes-listed all_agencies r agencies h picked =
      All-sort route_before (IsBusRouteOf (map agency_key agencies)) r.routes (
        All-map (IsBusRouteOf r.agency_ids) (IsBusRouteOf (map agency_key agencies))
          (λ x p. (p.0, rw picked.0 (contains-sort text_before x.agency_id r.agency_ids ∙ p.1)))
          r.routes h.each)

  trips-listed :
      (r : Routes) (t : Trips)
      → IsRoutes r
      → IsTrips r.route_ids t
      → All
          (IsTripOf (map route_key (sort route_before r.routes)) t.trip_ids t.shape_ids)
          (sort trip_before t.trips)
  trips-listed r t hr ht =
      All-sort trip_before
        (IsTripOf (map route_key (sort route_before r.routes)) t.trip_ids t.shape_ids) t.trips
        (All-map (IsTripOf r.route_ids t.trip_ids t.shape_ids)
          (IsTripOf (map route_key (sort route_before r.routes)) t.trip_ids t.shape_ids)
          (λ x p. (
            contains-map-sort route_before route_key x.route_id r.routes ∙ hr.found x.route_id p.0,
            p.1,
            p.2,
          ))
          t.trips ht)

  -- The rest of the function, from trips.txt on.
  select_rest-IsComplete :
      (all_agencies : Dict String Agency) (r : Routes) (agencies : List Agency)
      → IsRoutes r
      → Picked agency_key all_agencies (sort text_before r.agency_ids) agencies
      → OnOk (IsComplete R archive) (select_rest R archive agencies r)
  unfolding select_rest
  select_rest-IsComplete all_agencies r agencies hr picked =
      OnOk-bind (IsTripsOf R r.route_ids) (IsComplete R archive)
        (select_trips R archive r.route_ids) _ (select_trips-IsTripsOf R archive r.route_ids)
        λ t ht.
          OnOk-bind (IsUsage t.trip_ids) (IsComplete R archive) (select_usage R archive t.trip_ids)
            _ (select_usage-IsUsage t.trip_ids ht.1)
            λ u (sts, pass, counted, used).
              OnOk-bind (IsShapes t.shape_ids) (IsComplete R archive)
                (select_shapes R archive t.shape_ids) _ (select_shapes-IsShapes t.shape_ids)
                λ n (points, shapes_read, shapes_counted).
                  OnOk-bind (IsStops R u.used_stop_ids) (IsComplete R archive)
                    (select_stops R archive u.used_stop_ids) _
                    (select_stops-IsStops R archive u.used_stop_ids)
                    λ stops hs. record {
                      routes = routes-listed all_agencies r agencies hr picked;
                      trips = trips-listed r t hr ht.0;
                      stop_times = sts;
                      second_pass = pass;
                      counted = counted;
                      stops =
                          All-map (IsStopTimeOf t.trip_ids u.used_stop_ids)
                            (IsStopTimeOf t.trip_ids (map stop_key stops))
                            (λ x p. (p.0, hs.0 x.stop_id p.1)) sts used;
                      parents = hs.1;
                      shape_points = points;
                      shapes_read = shapes_read;
                      shapes_counted = shapes_counted;
                    }

  select-IsComplete : OnOk (IsComplete R archive) (select_static_feed R archive)
  unfolding select_static_feed
  select-IsComplete =
      OnOk-bind (All IsOwnAgency) (IsComplete R archive) (select_agencies R archive) _
        (select_agencies-IsOwnAgency R archive)
        λ all_agencies own.
          OnOk-bind IsRoutes (IsComplete R archive) (select_routes R archive all_agencies) _
            (select_routes-IsRoutes R archive all_agencies)
            λ r hr.
              OnOk-bind (Picked agency_key all_agencies (sort text_before r.agency_ids))
                (IsComplete R archive) (pick_all (sort text_before r.agency_ids) all_agencies) _
                (pick_all-Picked agency_key all_agencies own (sort text_before r.agency_ids))
                λ agencies picked. select_rest-IsComplete all_agencies r agencies hr picked

-- A selection that `_select_static_feed` returns is complete: its routes are bus routes of its agencies;
-- its trips are of its routes, and their identifiers and shapes are listed; reading stop_times.txt and
-- shapes.txt a second time succeeds with exactly the numbers of rows that were counted; every stop time
-- is at a selected stop; and the parent of a selected stop is selected.
pub select_static_feed-IsComplete :
    (R : Runtime) (archive : Archive) (sel : StaticFeedSelection R)
    → select_static_feed R archive ≡ ok sel
    → IsComplete R archive sel
select_static_feed-IsComplete R archive sel e =
    OnOk-ok (IsComplete R archive) (select-IsComplete R archive) e
