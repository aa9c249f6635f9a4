-- ===== src/Tests/Refresh.antt =====
-- A refresh of the static feed, over hashes of an older version.
use mathlib.Core.List.{[], ◌∷◌}
use irish_rail_nabber.Prelude.{true, some}
use irish_rail_nabber.Prelude.Result.{ok}
use irish_rail_nabber.Bus.Updates.{Memory}
use irish_rail_nabber.Bus.Refresh.{StaticState, Download, refresh_static_feed}
use irish_rail_nabber.Bus.Refresh.Remembered.{IsRefreshed, refresh_static_feed-IsRefreshed}
use irish_rail_nabber.Tests.Static.{R, archive, no_tables}

abbrev memory : Memory
memory = record {
  previous_update_hashes = ((9, ("t1", "1")), "a") ∷ ((1, ("t1", "1")), "b") ∷ [];
  previous_update_feed = some 9;
  previous_vehicle_hashes = ((9, "v1"), "c") ∷ [];
}

abbrev before : StaticState R
before = record {
  memory = memory;
  active_bus_ids_cache = some (record { feed_version_id = 9; route_ids = []; trip_routes = [] });
  tables = no_tables;
  history = [];
}

abbrev download : Download
download = record { feed = ok (archive, "digest"); now = 7; is_archived = true }

refresh_static_feed-IsRefreshed_example :
    IsRefreshed R before (refresh_static_feed R download before)
refresh_static_feed-IsRefreshed_example = refresh_static_feed-IsRefreshed R download before
