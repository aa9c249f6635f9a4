-- ===== src/Bus/Filter.antt =====
-- `_resolve_bus_route` and `filter_bus_realtime_feed` of bus_daemon.py.
pub mod Stable
pub mod Consistent
use mathlib.Core.List.{List, [], ◌∷◌}
use irish_rail_nabber.Prelude.{
  ℕ, String, Bool, false, ◌&&◌, Option, none, some, if◌then◌else◌, contains, string_eq, or_else,
}
use irish_rail_nabber.Prelude.Dict.{Dict, lookup, insert}
use irish_rail_nabber.Python.Runtime.{Runtime}
use irish_rail_nabber.Bus.Records.{
  ParsedTripFreshness, ParsedStopUpdate, ParsedVehiclePosition, ParsedRealtimeFeed,
}
use irish_rail_nabber.Bus.Entity.{hash_stop_update, hash_vehicle_position}

pub record ActiveBusIds : Type 0 where
  pub feed_version_id : ℕ
  pub route_ids : List String
  pub trip_routes : Dict String String

abbrev pub dynamic_trip_relationships : List String
dynamic_trip_relationships =
    "ADDED" ∷ "UNSCHEDULED" ∷ "CANCELED" ∷ "REPLACEMENT" ∷ "DUPLICATED" ∷ "DELETED" ∷ []

-- `None` is no member of a set of texts.
abbrev pub is_member : Option String → List String → Bool
is_member none xs = false
is_member (some s) xs = contains s xs

abbrev pub static_route : Option String → ActiveBusIds → Option String
static_route none ids = none
static_route (some t) ids = lookup t ids.trip_routes

-- `_resolve_bus_route`
unfoldable pub resolve_bus_route :
    Option String → Option String → String → ActiveBusIds → Option String
resolve_bus_route trip_id route_id schedule_relationship ids = or_else (static_route trip_id ids) (
    if is_member route_id ids.route_ids && contains schedule_relationship dynamic_trip_relationships
    then route_id
    else none)

module _ (R : Runtime) where
  abbrev pub resolve_trip : ActiveBusIds → ParsedTripFreshness R → Option String
  resolve_trip ids t = resolve_bus_route t.trip_id t.route_id t.schedule_relationship ids

  abbrev pub resolve_position : ActiveBusIds → ParsedVehiclePosition R → Option String
  resolve_position ids p = resolve_bus_route p.trip_id p.route_id p.schedule_relationship ids

  abbrev assign_route : String → Option String → Dict String String → Dict String String
  assign_route key none accepted = accepted
  assign_route key (some r) accepted = insert key r accepted

  abbrev put_trip :
      ParsedTripFreshness R
      → Option String
      → List (ParsedTripFreshness R)
      → List (ParsedTripFreshness R)
  put_trip t none rest = rest
  put_trip t (some r) rest = record t { route_id = some r } ∷ rest

  -- The first loop fills a dictionary and a list: one function for each.
  unfoldable pub accepted_trip_keys :
      ActiveBusIds → List (ParsedTripFreshness R) → Dict String String → Dict String String
  accepted_trip_keys ids [] accepted = accepted
  accepted_trip_keys ids (t ∷ ts) accepted =
      accepted_trip_keys ids ts (assign_route t.trip_instance_key (resolve_trip ids t) accepted)

  unfoldable pub accepted_freshness :
      ActiveBusIds → List (ParsedTripFreshness R) → List (ParsedTripFreshness R)
  accepted_freshness ids [] = []
  accepted_freshness ids (t ∷ ts) = put_trip t (resolve_trip ids t) (accepted_freshness ids ts)

  abbrev put_update :
      ParsedStopUpdate R → Option String → List (ParsedStopUpdate R) → List (ParsedStopUpdate R)
  put_update u none rest = rest
  put_update u (some r) rest = hash_stop_update R (record u { route_id = some r }) ∷ rest

  unfoldable pub accepted_updates :
      Dict String String → List (ParsedStopUpdate R) → List (ParsedStopUpdate R)
  accepted_updates accepted [] = []
  accepted_updates accepted (u ∷ us) =
      put_update u (lookup u.trip_instance_key accepted) (accepted_updates accepted us)

  abbrev put_position :
      ParsedVehiclePosition R
      → Option String
      → List (ParsedVehiclePosition R)
      → List (ParsedVehiclePosition R)
  put_position p none rest = rest
  put_position p (some r) rest = hash_vehicle_position R (record p { route_id = some r }) ∷ rest

  unfoldable pub accepted_positions :
      ActiveBusIds → List (ParsedVehiclePosition R) → List (ParsedVehiclePosition R)
  accepted_positions ids [] = []
  accepted_positions ids (p ∷ ps) =
      put_position p (resolve_position ids p) (accepted_positions ids ps)

  -- `filter_bus_realtime_feed`
  unfoldable pub filter_bus_realtime_feed :
      ParsedRealtimeFeed R → ActiveBusIds → ParsedRealtimeFeed R
  filter_bus_realtime_feed feed ids = record {
    incrementality = feed.incrementality;
    stop_updates =
        accepted_updates (accepted_trip_keys ids feed.trip_freshness []) feed.stop_updates;
    trip_freshness = accepted_freshness ids feed.trip_freshness;
    vehicle_positions = accepted_positions ids feed.vehicle_positions;
  }
