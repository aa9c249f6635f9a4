-- ===== src/Bus/Filter/Stable.antt =====
-- `filter_bus_realtime_feed` of bus_daemon.py, applied to a feed that it has filtered.
use mathlib.Core.List.{List, [], ◌∷◌}
use irish_rail_nabber.Prelude.{
  String, ◌≡◌, refl, ap, ◌∙◌, Option, none, some, inl, inr, arith, string_eq, Option-cases,
}
use irish_rail_nabber.Prelude.Dict.{Dict, lookup, insert}
use irish_rail_nabber.Python.Runtime.{Runtime}
use irish_rail_nabber.Bus.Records.{
  ParsedTripFreshness, ParsedStopUpdate, ParsedVehiclePosition, ParsedRealtimeFeed,
  stop_update_state_hash, vehicle_position_state_hash,
}
use irish_rail_nabber.Bus.Entity.{hash_stop_update, hash_vehicle_position}
use irish_rail_nabber.Bus.Filter.{
  ActiveBusIds, resolve_bus_route, resolve_trip, resolve_position, accepted_trip_keys, assign_route,
  accepted_freshness, accepted_updates, accepted_positions, filter_bus_realtime_feed,
}

-- The route that was found is found again from the record that carries it.
pub resolve_bus_route-resolved :
    (trip_id route_id : Option String) (rel r : String) (ids : ActiveBusIds)
    → resolve_bus_route trip_id route_id rel ids ≡ some r
    → resolve_bus_route trip_id (some r) rel ids ≡ some r
unfolding resolve_bus_route
resolve_bus_route-resolved none route_id rel r ids h = ground arith
resolve_bus_route-resolved (some t) route_id rel r ids h = ground arith

module _ (R : Runtime) (ids : ActiveBusIds) where
  accepted_freshness_idem :
      (ts : List (ParsedTripFreshness R))
      → accepted_freshness R ids (accepted_freshness R ids ts) ≡ accepted_freshness R ids ts
  unfolding accepted_freshness
  accepted_freshness_idem [] = refl
  accepted_freshness_idem (t ∷ ts) = elim (Option-cases (resolve_trip R ids t)) [
    | inl e ↦ rw e (accepted_freshness_idem ts)
    | inr (r, e) ↦
        rw (e, resolve_bus_route-resolved t.trip_id t.route_id t.schedule_relationship r ids e)
          (ap (λ rest. record t { route_id = some r } ∷ rest) (accepted_freshness_idem ts))
  ]

  accepted_trip_keys-accepted_freshness :
      (ts : List (ParsedTripFreshness R)) (d : Dict String String)
      → accepted_trip_keys R ids (accepted_freshness R ids ts) d ≡ accepted_trip_keys R ids ts d
  unfolding accepted_freshness accepted_trip_keys
  accepted_trip_keys-accepted_freshness [] d = refl
  accepted_trip_keys-accepted_freshness (t ∷ ts) d = elim (Option-cases (resolve_trip R ids t)) [
    | inl e ↦ rw e (accepted_trip_keys-accepted_freshness ts d)
    | inr (r, e) ↦ rw e (
        ap
          (λ o.
            accepted_trip_keys R ids (accepted_freshness R ids ts)
              (assign_route R t.trip_instance_key o d))
          (resolve_bus_route-resolved t.trip_id t.route_id t.schedule_relationship r ids e)
        ∙ accepted_trip_keys-accepted_freshness ts (insert t.trip_instance_key r d))
  ]

  accepted_positions_idem :
      (ps : List (ParsedVehiclePosition R))
      → accepted_positions R ids (accepted_positions R ids ps) ≡ accepted_positions R ids ps
  unfolding accepted_positions hash_vehicle_position vehicle_position_state_hash
  accepted_positions_idem [] = refl
  accepted_positions_idem (p ∷ ps) = elim (Option-cases (resolve_position R ids p)) [
    | inl e ↦ rw e (accepted_positions_idem ps)
    | inr (r, e) ↦
        rw (e, resolve_bus_route-resolved p.trip_id p.route_id p.schedule_relationship r ids e)
          (ap (λ rest. hash_vehicle_position R (record p { route_id = some r }) ∷ rest)
            (accepted_positions_idem ps))
  ]

module _ (R : Runtime) (accepted : Dict String String) where
  accepted_updates_idem :
      (us : List (ParsedStopUpdate R))
      → accepted_updates R accepted (accepted_updates R accepted us)
        ≡ accepted_updates R accepted us
  unfolding accepted_updates hash_stop_update stop_update_state_hash
  accepted_updates_idem [] = refl
  accepted_updates_idem (u ∷ us) = elim (Option-cases (lookup u.trip_instance_key accepted)) [
    | inl e ↦ rw e (accepted_updates_idem us)
    | inr (r, e) ↦
        rw (e, e)
          (ap (λ rest. hash_stop_update R (record u { route_id = some r }) ∷ rest)
            (accepted_updates_idem us))
  ]

-- Filtering a feed by the bus routes and trips a second time gives the same feed, with the same routes
-- and hashes: the filter is idempotent, whatever the feed.
pub filter_bus_realtime_feed_idem :
    (R : Runtime) (feed : ParsedRealtimeFeed R) (ids : ActiveBusIds)
    → filter_bus_realtime_feed R (filter_bus_realtime_feed R feed ids) ids
      ≡ filter_bus_realtime_feed R feed ids
unfolding filter_bus_realtime_feed
filter_bus_realtime_feed_idem R feed ids = simp (
  accepted_freshness_idem, accepted_trip_keys-accepted_freshness, accepted_positions_idem,
  accepted_updates_idem,
)
