-- ===== src/Tests/Realtime.antt =====
-- The realtime feed.
use mathlib.Core.List.{[], ◌∷◌}
use irish_rail_nabber.Prelude.{◌≤◌, ◌≡◌, refl, true, some, arith, string_eq, pair_eq, All}
use irish_rail_nabber.Prelude.Int.{ℤ, pos, int_eq}
use irish_rail_nabber.Prelude.Result.{ok}
use irish_rail_nabber.Python.Text.{is_space, int_digits}
use irish_rail_nabber.Python.Runtime.{
  Runtime, bool, int, text, array, object, nil, cons, Fields, end, field,
}
use irish_rail_nabber.Bus.Time.{parse_gtfs_time, is_digits}
use irish_rail_nabber.Bus.Time.Clock.{IsDigitTable, parse_gtfs_time-clock}
use irish_rail_nabber.Bus.Records.{ParsedRealtimeFeed}
use irish_rail_nabber.Bus.Feed.{parse_realtime_feed, parse_feed_mapping}
use irish_rail_nabber.Bus.Feed.Consistent.{IsConsistent, parse_realtime_feed-IsConsistent}
use irish_rail_nabber.Bus.Filter.{ActiveBusIds, filter_bus_realtime_feed}
use irish_rail_nabber.Bus.Filter.Stable.{filter_bus_realtime_feed_idem}
use irish_rail_nabber.Bus.Filter.Consistent.{
  IsBusTrip, kept_route, filter_bus_realtime_feed-IsConsistent,
}
use irish_rail_nabber.Bus.Histogram.{bus_poll_delay_histogram, trip_relationships, Scope}
use irish_rail_nabber.Bus.Histogram.Counts.{all_reported_scopes, bus_poll_delay_histogram_counts}
use irish_rail_nabber.Prelude.Dict.Counter.{count, count_for, entry_for, IsPositive}
use irish_rail_nabber.Prelude.Sort.{total}
use irish_rail_nabber.Tests.Ascii.{ascii}

-- Two stops of one bus, and a deleted entity.
abbrev message : Fields ℤ
message = field "header" (object (field "timestamp" (int (pos 2)) end)) (
    field "entity"
      (array (
        cons
          (object (
            field "id" (text "e1") (
              field "trip_update"
                (object (
                  field "trip"
                    (object (field "tripId" (text "t1") (field "routeId" (text "r9") end)))
                    (field "stopTimeUpdate"
                      (array (
                        cons
                          (object (
                            field "stopId" (text "s1")
                              (field "departure" (object (field "delay" (int (pos 1)) end)) end)))
                          (cons (object (field "stopSequence" (int (pos 2)) end)) nil)))
                      end)))
                end)))
          (cons (object (field "isDeleted" (bool true) end)) nil)))
      end)

abbrev pub R : Runtime
R = ascii (some (object message))

abbrev pub feed : ParsedRealtimeFeed R
feed = parse_feed_mapping R message

message-parsed : parse_realtime_feed R "{}" ≡ ok feed
unfolding parse_realtime_feed
message-parsed = refl

parse_realtime_feed-IsConsistent_example : IsConsistent feed
parse_realtime_feed-IsConsistent_example =
    parse_realtime_feed-IsConsistent R "{}" feed message-parsed

abbrev ids : ActiveBusIds
ids = record { feed_version_id = 1; route_ids = "r1" ∷ []; trip_routes = ("t1", "r1") ∷ [] }

filter_bus_realtime_feed-IsConsistent_example :
    let kept = filter_bus_realtime_feed R feed ids in
    IsConsistent kept
    × All (IsBusTrip ids) kept.trip_freshness
    × All (λ u. u.route_id ≡ kept_route u.trip_instance_key kept.trip_freshness) kept.stop_updates
filter_bus_realtime_feed-IsConsistent_example =
    filter_bus_realtime_feed-IsConsistent R feed ids
      (parse_realtime_feed-IsConsistent R "{}" feed message-parsed)

filter_bus_realtime_feed_idem_example :
    filter_bus_realtime_feed R (filter_bus_realtime_feed R feed ids) ids
    ≡ filter_bus_realtime_feed R feed ids
filter_bus_realtime_feed_idem_example = filter_bus_realtime_feed_idem R feed ids

table : IsDigitTable R
unfolding is_space
table c h = ground arith

parse_gtfs_time-clock_example : parse_gtfs_time R (some "25:10:05") ≡ ok (some 90605)
unfolding is_digits int_digits
parse_gtfs_time-clock_example =
    parse_gtfs_time-clock R "25" "10" "05" 25 10 5 table refl refl refl refl refl refl

bus_poll_delay_histogram_counts_example :
    let rows = bus_poll_delay_histogram R feed.stop_updates feed.trip_freshness in
    ((k : Scope)
      → (total (count_for k) rows
          ≡ count k (
              all_reported_scopes R
                (trip_relationships R feed.trip_freshness [])
                feed.stop_updates))
        × (total (entry_for k) rows ≤ 1))
    × All IsPositive rows
bus_poll_delay_histogram_counts_example =
    bus_poll_delay_histogram_counts R feed.stop_updates feed.trip_freshness
