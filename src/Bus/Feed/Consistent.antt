-- ===== src/Bus/Feed/Consistent.antt =====
-- How hashes, trips and keys fit together in a feed that `parse_realtime_feed` of bus_daemon.py returns.
use mathlib.Core.List.{List, [], ◌∷◌}
use irish_rail_nabber.Prelude.{
  String, ◌≡◌, refl, true, Option, none, some, inl, inr, arith, contains, string_eq, All,
  All-append, All-map, Bool-cases,
}
use irish_rail_nabber.Prelude.Dict.{Dict, insert, values, keys}
use irish_rail_nabber.Prelude.Dict.Keys.{
  Distinct, contains-keys-insert, Distinct-keys-insert, All-insert,
}
use irish_rail_nabber.Prelude.Result.{ok, OnOk, OnOk-ok}
use irish_rail_nabber.Python.Runtime.{Runtime, Json, object, Items, nil, cons, Fields}
use irish_rail_nabber.Bus.Scalars.{as_items, get, is_true}
use irish_rail_nabber.Bus.Records.{
  ParsedTripFreshness, ParsedStopUpdate, ParsedVehiclePosition, ParsedRealtimeFeed,
  stop_update_state_hash, vehicle_position_state_hash,
}
use irish_rail_nabber.Bus.Entity.{
  TripContext, parse_stop_update, parse_stop_updates, parse_trip_update_entity,
  parse_vehicle_position_entity, trip_context,
}
use irish_rail_nabber.Bus.Feed.{
  Parsed, add_trip_update, add_vehicle, add_entity, add_entities, nothing_parsed,
  parse_feed_mapping, parse_decoded, decode_loaded, parse_realtime_feed,
}

module _ {R : Runtime} where
  abbrev pub HasHash : ParsedStopUpdate R → Type 0
  HasHash u = u.update_hash ≡ stop_update_state_hash R u

  abbrev pub PositionHasHash : ParsedVehiclePosition R → Type 0
  PositionHasHash p = p.update_hash ≡ vehicle_position_state_hash R p

  abbrev pub trip_keys : List (ParsedTripFreshness R) → List String
  trip_keys [] = []
  trip_keys (t ∷ ts) = t.trip_instance_key ∷ trip_keys ts

  abbrev pub IsKnownIn : List String → ParsedStopUpdate R → Type 0
  IsKnownIn ks u = contains u.trip_instance_key ks ≡ true

  -- What the later steps rely on in a feed.
  pub record IsConsistent (feed : ParsedRealtimeFeed R) : Type 0 where
    pub hashes : All HasHash feed.stop_updates
    pub known : All (IsKnownIn (trip_keys feed.trip_freshness)) feed.stop_updates
    pub distinct : Distinct (trip_keys feed.trip_freshness)
    pub positions : All PositionHasHash feed.vehicle_positions

  abbrev IsKeyed : String × ParsedTripFreshness R → Type 0
  IsKeyed e = e.1.trip_instance_key ≡ e.0

  -- The invariant of the loop over the entities.
  record IsParsed (s : Parsed R) : Type 0 where
    hashes : All HasHash s.updates
    known : All (IsKnownIn (keys s.trip_freshness)) s.updates
    distinct : Distinct (keys s.trip_freshness)
    keyed : All IsKeyed s.trip_freshness
    positions : All PositionHasHash s.vehicle_positions

  trip_keys-values :
      (d : Dict String (ParsedTripFreshness R)) → All IsKeyed d → trip_keys (values d) ≡ keys d
  trip_keys-values [] h = refl
  trip_keys-values (e ∷ d) h = cc (h.0, trip_keys-values d h.1)

module _ (R : Runtime) where
  -- The updates of one trip carry its key and their own hashes.
  abbrev IsOf : String → ParsedStopUpdate R → Type 0
  IsOf key u = HasHash u × (u.trip_instance_key ≡ key)

  parse_stop_update-IsOf :
      (c : TripContext R) (fs : Fields R.Float)
      → IsOf c.freshness.trip_instance_key (parse_stop_update R c fs)
  unfolding parse_stop_update stop_update_state_hash
  parse_stop_update-IsOf c fs = (refl, refl)

  parse_stop_updates-IsOf :
      (c : TripContext R) (items : Items R.Float)
      → All (IsOf c.freshness.trip_instance_key) (parse_stop_updates R c items)
  unfolding parse_stop_updates
  parse_stop_updates-IsOf c nil = tt
  parse_stop_updates-IsOf c (cons (object fs) rest) =
      (parse_stop_update-IsOf c fs, parse_stop_updates-IsOf c rest)
  parse_stop_updates-IsOf c (cons _ rest) = parse_stop_updates-IsOf c rest

  parse_trip_update_entity-IsOf :
      (entity trip_update : Fields R.Float) (ts : Option R.DateTime)
      → All
          (IsOf (parse_trip_update_entity R entity trip_update ts).0.trip_instance_key)
          (parse_trip_update_entity R entity trip_update ts).1
  unfolding parse_trip_update_entity
  parse_trip_update_entity-IsOf entity trip_update ts =
      parse_stop_updates-IsOf (trip_context R entity trip_update ts)
        (as_items R (get R (some trip_update) ("stopTimeUpdate" ∷ [])))

  parse_vehicle_position_entity-HasHash :
      (entity vehicle : Fields R.Float) (ts : Option R.DateTime)
      → PositionHasHash (parse_vehicle_position_entity R entity vehicle ts)
  unfolding parse_vehicle_position_entity vehicle_position_state_hash
  parse_vehicle_position_entity-HasHash entity vehicle ts = refl

  known-insert :
      (k : String) (f : ParsedTripFreshness R) (d : Dict String (ParsedTripFreshness R))
      (us : List (ParsedStopUpdate R))
      → All (IsKnownIn (keys d)) us
      → All (IsKnownIn (keys (insert k f d))) us
  known-insert k f d =
      All-map (IsKnownIn (keys d)) (IsKnownIn (keys (insert k f d)))
        (λ u h. ground (arith, contains-keys-insert k u.trip_instance_key f d))

  known_own :
      (f : ParsedTripFreshness R) (d : Dict String (ParsedTripFreshness R))
      (us : List (ParsedStopUpdate R))
      → All (IsOf f.trip_instance_key) us
      → All (IsKnownIn (keys (insert f.trip_instance_key f d))) us
  known_own f d =
      All-map (IsOf f.trip_instance_key) (IsKnownIn (keys (insert f.trip_instance_key f d))) (λ u h.
        ground (
          arith,
          string_eq.beq_iff f.trip_instance_key u.trip_instance_key,
          contains-keys-insert f.trip_instance_key u.trip_instance_key f d,
        ))

  add_trip_update-IsParsed :
      (entity : Fields R.Float) (t : Option (Fields R.Float)) (ts : Option R.DateTime)
      (s : Parsed R)
      → IsParsed s
      → IsParsed (add_trip_update R entity t ts s)
  unfolding add_trip_update
  add_trip_update-IsParsed entity none ts s h = h
  add_trip_update-IsParsed entity (some u) ts s h =
      let (f, us) = parse_trip_update_entity R entity u ts in
      let own = parse_trip_update_entity-IsOf entity u ts in
      record {
        hashes =
            All-append HasHash s.updates us h.hashes
              (All-map (IsOf f.trip_instance_key) HasHash (λ x p. p.0) us own);
        known =
            All-append (IsKnownIn (keys (insert f.trip_instance_key f s.trip_freshness))) s.updates
              us (known-insert f.trip_instance_key f s.trip_freshness s.updates h.known)
              (known_own f s.trip_freshness us own);
        distinct = Distinct-keys-insert f.trip_instance_key f s.trip_freshness h.distinct;
        keyed = All-insert IsKeyed f.trip_instance_key f s.trip_freshness (λ j e. cc) h.keyed;
        positions = h.positions;
      }

  add_vehicle-IsParsed :
      (entity : Fields R.Float) (v : Option (Fields R.Float)) (ts : Option R.DateTime)
      (s : Parsed R)
      → IsParsed s
      → IsParsed (add_vehicle R entity v ts s)
  unfolding add_vehicle
  add_vehicle-IsParsed entity none ts s h = h
  add_vehicle-IsParsed entity (some v) ts s h = record {
    hashes = h.hashes;
    known = h.known;
    distinct = h.distinct;
    keyed = h.keyed;
    positions =
        All-append PositionHasHash s.vehicle_positions
          (parse_vehicle_position_entity R entity v ts ∷ []) h.positions
          (parse_vehicle_position_entity-HasHash entity v ts, tt);
  }

  add_entity-IsParsed :
      (entity : Fields R.Float) (ts : Option R.DateTime) (s : Parsed R)
      → IsParsed s
      → IsParsed (add_entity R entity ts s)
  unfolding add_entity
  add_entity-IsParsed entity ts s h =
      elim (Bool-cases (is_true R (get R (some entity) ("isDeleted" ∷ [])))) [
        | inl deleted ↦ rw deleted h
        | inr kept ↦
            rw kept (add_vehicle-IsParsed entity _ ts _ (add_trip_update-IsParsed entity _ ts s h))
      ]

  add_entities-IsParsed :
      (items : Items R.Float) (ts : Option R.DateTime) (s : Parsed R)
      → IsParsed s
      → IsParsed (add_entities R items ts s)
  unfolding add_entities
  add_entities-IsParsed nil ts s h = h
  add_entities-IsParsed (cons (object fs) rest) ts s h =
      add_entities-IsParsed rest ts (add_entity R fs ts s) (add_entity-IsParsed fs ts s h)
  add_entities-IsParsed (cons _ rest) ts s h = add_entities-IsParsed rest ts s h

  parse_feed_mapping-IsConsistent : (fs : Fields R.Float) → IsConsistent (parse_feed_mapping R fs)
  unfolding parse_feed_mapping
  parse_feed_mapping-IsConsistent fs =
      let p =
        add_entities-IsParsed (as_items R (get R (some fs) ("entity" ∷ "entities" ∷ []))) _
          (nothing_parsed R)
          (record { hashes = tt; known = tt; distinct = tt; keyed = tt; positions = tt }) in
      let same = trip_keys-values _ p.keyed in
      record {
        hashes = p.hashes;
        known = rw same p.known;
        distinct = rw same p.distinct;
        positions = p.positions;
      }

  parse_decoded-IsConsistent : (j : Json R.Float) → OnOk IsConsistent (parse_decoded R j)
  unfolding parse_decoded
  parse_decoded-IsConsistent (object fs) = parse_feed_mapping-IsConsistent fs
  parse_decoded-IsConsistent _ = tt

  loaded-IsConsistent : (o : Option (Json R.Float)) → OnOk IsConsistent (decode_loaded R o)
  unfolding decode_loaded
  loaded-IsConsistent none = tt
  loaded-IsConsistent (some j) = parse_decoded-IsConsistent j

-- A feed that is read from a response has, on every stop update and vehicle position, the hash of its
-- own fields; every stop update belongs to a trip of the feed; and no two trips have the same key.
pub parse_realtime_feed-IsConsistent :
    (R : Runtime) (payload : String) (feed : ParsedRealtimeFeed R)
    → parse_realtime_feed R payload ≡ ok feed
    → IsConsistent feed
unfolding parse_realtime_feed
parse_realtime_feed-IsConsistent R payload feed h =
    OnOk-ok IsConsistent (loaded-IsConsistent R (R.json_loads payload)) h
