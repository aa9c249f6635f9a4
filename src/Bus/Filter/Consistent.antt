-- ===== src/Bus/Filter/Consistent.antt =====
-- What survives `filter_bus_realtime_feed`: consistency, and routes that are buses'.
use mathlib.Core.List.{List, [], ◌∷◌}
use irish_rail_nabber.Prelude.{
  String, ◌≡◌, refl, true, false, ◌⊎◌, Option, none, some, inl, inr, arith, contains, string_eq,
  All, All-map, Option-cases, if◌then◌else◌, or_else, ◌==◌,
}
use irish_rail_nabber.Prelude.Dict.{Dict, lookup, insert, keys, lookup-insert}
use irish_rail_nabber.Prelude.Dict.Keys.{Distinct, contains-keys-insert, has_key-eq-contains}
use irish_rail_nabber.Python.Runtime.{Runtime}
use irish_rail_nabber.Bus.Records.{
  ParsedTripFreshness, ParsedStopUpdate, ParsedVehiclePosition, ParsedRealtimeFeed,
  stop_update_state_hash, vehicle_position_state_hash,
}
use irish_rail_nabber.Bus.Entity.{hash_stop_update, hash_vehicle_position}
use irish_rail_nabber.Bus.Feed.Consistent.{
  IsConsistent, HasHash, PositionHasHash, IsKnownIn, trip_keys,
}
use irish_rail_nabber.Bus.Filter.{
  ActiveBusIds, dynamic_trip_relationships, static_route, resolve_bus_route, resolve_trip,
  resolve_position, accepted_trip_keys, accepted_freshness, accepted_updates, accepted_positions,
  filter_bus_realtime_feed,
}

module _ (R : Runtime) (ids : ActiveBusIds) where
  -- The keys of the dictionary are those of the kept trips, beside those it began with.
  contains-keys-accepted_trip_keys :
      (ts : List (ParsedTripFreshness R)) (d : Dict String String) (k : String)
      → contains k (keys (accepted_trip_keys R ids ts d)) ≡ true
      → (contains k (keys d) ≡ true) ⊎ (contains k (trip_keys (accepted_freshness R ids ts)) ≡ true)
  unfolding accepted_trip_keys accepted_freshness
  contains-keys-accepted_trip_keys [] d k h = inl h
  contains-keys-accepted_trip_keys (t ∷ ts) d k h = elim (Option-cases (resolve_trip R ids t)) [
    | inl e ↦ rw e (contains-keys-accepted_trip_keys ts d k (rw e at h))
    | inr (r, e) ↦ rw e (
        ground (
          arith,
          contains-keys-accepted_trip_keys ts (insert t.trip_instance_key r d) k (rw e at h),
          contains-keys-insert t.trip_instance_key k r d,
        ))
  ]

  not_contains-accepted_freshness :
      (ts : List (ParsedTripFreshness R)) (k : String)
      → contains k (trip_keys ts) ≡ false
      → contains k (trip_keys (accepted_freshness R ids ts)) ≡ false
  unfolding accepted_freshness
  not_contains-accepted_freshness [] k h = refl
  not_contains-accepted_freshness (t ∷ ts) k h = elim (Option-cases (resolve_trip R ids t)) [
    | inl e ↦ rw e (not_contains-accepted_freshness ts k (ground arith))
    | inr (r, e) ↦ rw e (ground (arith, not_contains-accepted_freshness ts k))
  ]

  accepted_freshness-Distinct :
      (ts : List (ParsedTripFreshness R))
      → Distinct (trip_keys ts)
      → Distinct (trip_keys (accepted_freshness R ids ts))
  unfolding accepted_freshness
  accepted_freshness-Distinct [] h = tt
  accepted_freshness-Distinct (t ∷ ts) h = elim (Option-cases (resolve_trip R ids t)) [
    | inl e ↦ rw e (accepted_freshness-Distinct ts h.1)
    | inr (r, e) ↦ rw e (
      not_contains-accepted_freshness ts t.trip_instance_key h.0,
      accepted_freshness-Distinct ts h.1,
    )
  ]

  accepted_positions-PositionHasHash :
      (ps : List (ParsedVehiclePosition R)) → All PositionHasHash (accepted_positions R ids ps)
  unfolding accepted_positions hash_vehicle_position vehicle_position_state_hash
  accepted_positions-PositionHasHash [] = tt
  accepted_positions-PositionHasHash (p ∷ ps) = elim (Option-cases (resolve_position R ids p)) [
    | inl e ↦ rw e (accepted_positions-PositionHasHash ps)
    | inr (r, e) ↦ rw e (refl, accepted_positions-PositionHasHash ps)
  ]

-- A kept stop update has the hash of its new fields, and its route is the one its trip was given.
abbrev pub IsRouted : {R : Runtime} → Dict String String → ParsedStopUpdate R → Type 0
IsRouted {R} accepted u =
    (u.update_hash ≡ stop_update_state_hash R u)
    × (u.route_id ≡ lookup u.trip_instance_key accepted)
    × (contains u.trip_instance_key (keys accepted) ≡ true)

module _ (R : Runtime) (accepted : Dict String String) where
  accepted_updates-IsRouted :
      (us : List (ParsedStopUpdate R)) → All (IsRouted accepted) (accepted_updates R accepted us)
  unfolding accepted_updates hash_stop_update stop_update_state_hash
  accepted_updates-IsRouted [] = tt
  accepted_updates-IsRouted (u ∷ us) = elim (Option-cases (lookup u.trip_instance_key accepted)) [
    | inl e ↦ rw e (accepted_updates-IsRouted us)
    | inr (r, e) ↦ rw e (
      (refl, cc, ground (arith, has_key-eq-contains u.trip_instance_key accepted)),
      accepted_updates-IsRouted us,
    )
  ]

-- The route that a list of trips gives to a key.
abbrev pub kept_route : {R : Runtime} → String → List (ParsedTripFreshness R) → Option String
kept_route k [] = none
kept_route k (t ∷ ts) = if t.trip_instance_key == k then t.route_id else kept_route k ts

-- The route of a trip is a bus route: that of its static trip, or its own, if it is a known bus route
-- and the trip is no regular one.
abbrev pub IsBusTrip : {R : Runtime} → ActiveBusIds → ParsedTripFreshness R → Type 0
IsBusTrip ids t =
    (r : String) × (t.route_id ≡ some r)
    × ((static_route t.trip_id ids ≡ some r)
        ⊎ ((contains r ids.route_ids ≡ true)
            × (contains t.schedule_relationship dynamic_trip_relationships ≡ true)))

module _ (R : Runtime) (ids : ActiveBusIds) where
  resolved-IsBusTrip :
      (t : ParsedTripFreshness R) (r : String)
      → resolve_trip R ids t ≡ some r
      → IsBusTrip ids (record t { route_id = some r })
  unfolding resolve_bus_route
  resolved-IsBusTrip t r h = (r, refl, ground arith)

  accepted_freshness-IsBusTrip :
      (ts : List (ParsedTripFreshness R)) → All (IsBusTrip ids) (accepted_freshness R ids ts)
  unfolding accepted_freshness
  accepted_freshness-IsBusTrip [] = tt
  accepted_freshness-IsBusTrip (t ∷ ts) = elim (Option-cases (resolve_trip R ids t)) [
    | inl e ↦ rw e (accepted_freshness-IsBusTrip ts)
    | inr (r, e) ↦ rw e (resolved-IsBusTrip t r e, accepted_freshness-IsBusTrip ts)
  ]

  kept_route_absent :
      (ts : List (ParsedTripFreshness R)) (k : String)
      → contains k (trip_keys ts) ≡ false
      → kept_route k (accepted_freshness R ids ts) ≡ none
  unfolding accepted_freshness
  kept_route_absent [] k h = refl
  kept_route_absent (t ∷ ts) k h = elim (Option-cases (resolve_trip R ids t)) [
    | inl e ↦ rw e (kept_route_absent ts k (ground arith))
    | inr (r, e) ↦ rw e (ground (arith, kept_route_absent ts k))
  ]

  lookup-accepted_trip_keys :
      (ts : List (ParsedTripFreshness R)) (d : Dict String String) (k : String)
      → Distinct (trip_keys ts)
      → lookup k (accepted_trip_keys R ids ts d)
        ≡ or_else (kept_route k (accepted_freshness R ids ts)) (lookup k d)
  unfolding accepted_trip_keys accepted_freshness
  lookup-accepted_trip_keys [] d k h = refl
  lookup-accepted_trip_keys (t ∷ ts) d k h = elim (Option-cases (resolve_trip R ids t)) [
    | inl e ↦ rw e (lookup-accepted_trip_keys ts d k h.1)
    | inr (r, e) ↦ rw e (
        ground (
          arith,
          lookup-accepted_trip_keys ts (insert t.trip_instance_key r d) k h.1,
          lookup-insert t.trip_instance_key k r d,
          kept_route_absent ts k,
          string_eq.beq_iff t.trip_instance_key k,
        ))
  ]

-- A consistent feed stays consistent when it is filtered: every kept stop update still has the hash of
-- its fields, and its trip is kept. Every kept trip is on a bus route, and every kept stop update has
-- the route of its trip.
pub filter_bus_realtime_feed-IsConsistent :
    (R : Runtime) (feed : ParsedRealtimeFeed R) (ids : ActiveBusIds)
    → IsConsistent feed
    → let kept = filter_bus_realtime_feed R feed ids in
      IsConsistent kept
      × All (IsBusTrip ids) kept.trip_freshness
      × All (λ u. u.route_id ≡ kept_route u.trip_instance_key kept.trip_freshness) kept.stop_updates
unfolding filter_bus_realtime_feed
filter_bus_realtime_feed-IsConsistent R feed ids h =
    let ts = feed.trip_freshness in
    let accepted = accepted_trip_keys R ids ts [] in
    let kept = accepted_freshness R ids ts in
    let us = accepted_updates R accepted feed.stop_updates in
    let routed = accepted_updates-IsRouted R accepted feed.stop_updates in
    (
      record {
        hashes = All-map (IsRouted accepted) HasHash (λ u p. p.0) us routed;
        known =
            All-map (IsRouted accepted) (IsKnownIn (trip_keys kept))
              (λ u p.
                ground
                  (arith, contains-keys-accepted_trip_keys R ids ts [] u.trip_instance_key p.2))
              us routed;
        distinct = accepted_freshness-Distinct R ids ts h.distinct;
        positions = accepted_positions-PositionHasHash R ids feed.vehicle_positions;
      },
      accepted_freshness-IsBusTrip R ids ts,
      All-map (IsRouted accepted) (λ u. u.route_id ≡ kept_route u.trip_instance_key kept)
          (λ u p.
            ground (arith, lookup-accepted_trip_keys R ids ts [] u.trip_instance_key h.distinct))
          us routed,
    )
