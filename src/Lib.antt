-- ===== src/Lib.antt =====
-- Verification of irish-rail-nabber, the daemons that collect Irish public transport data: the bus
-- daemon of bus_daemon.py and the rail daemon of daemon.py, with two of their tools.
--
-- The daemon downloads a static GTFS archive and stores the part of it that concerns buses as a feed
-- version; it then polls two GTFS-Realtime feeds in turn, keeps the entities of bus trips, and writes
-- what has changed to PostgreSQL.
--
--  * Prelude: shared types and lemmas: Boolean tests, lists, dictionaries in insertion order, counters,
--    stable sorting, computations that may raise (Prelude.Result).
--  * Python: what the code takes from Python. Text has strip, split and int(text) on native strings;
--    Date has datetime.date. Runtime is a record of what is outside: floats, instants, Unicode tables,
--    ISO 8601, json.loads, SHA-256 digests, and time_bucket of the database. Every function of the model
--    takes a runtime, so the theorems hold for all of them.
--  * Bus.Time: parse_gtfs_time. Bus.Scalars and Bus.Enums: _get to _normalized_incrementality.
--  * Bus.Records: ParsedTripFreshness, ParsedStopUpdate and ParsedVehiclePosition with their hashes and
--    keys. Bus.Entity and Bus.Feed: parse_realtime_feed with the parsers of its entities.
--  * Bus.Filter: _resolve_bus_route and filter_bus_realtime_feed. Bus.Histogram:
--    bus_poll_delay_histogram.
--  * Bus.Static: _select_static_feed with the readers of its files (Csv, Tables, Trips, Stops, Select),
--    and _iter_bus_stop_times and _iter_bus_shape_points, which the import runs over the archive again.
--    An archive is the list of its members with the rows that csv.DictReader yields.
--  * Bus.Batches: _chunks and the loops that pass batches to executemany.
--  * Bus.Tables: the tables that the polls write, as dictionaries by conflict key, and the conflict
--    clauses of the SQL statements. Bus.Updates: _insert_trip_updates. Bus.Vehicles:
--    _upsert_vehicle_positions. A state is the daemon's memory with the tables; a poll is a function on
--    it, for the case that the transaction commits.
--  * Bus.Schedule: _reserve_realtime_request: the row of fetch_schedules that any number of daemons share,
--    over a list of attempts in the order of their row locks, and the choice of the feed.
--  * Bus.Versions: _activate_existing_version, _activate_version_and_prune_stop_times and
--    _active_feed_version_id. Bus.Import: _import_static_feed, on the tables with the archive, its digest,
--    and the time of the import. Bus.Refresh: refresh_static_feed, with what its download yields and
--    whether the archive can be kept.
--  * Bus.Prune: prune_working_tables, and what it does to the live rows between two polls.
--  * Bus.Poll: poll_realtime and _load_active_bus_ids, which compose the parts above on the state of the
--    whole system.
--  * Rail: daemon.py. Fields has parse_xml to stable_hash, Late has _time_to_minutes and
--    normalize_late_minutes, Api has fetch_api. Movements has _fetch_train_movements, and Movements.All
--    fetch_all_train_movements. Writes is the loop that _insert_station_events (Events) and fetch_hacon
--    (Hacon) share; Events.Boards has fetch_all_station_boards. Types has _refresh_type_map, Trains has
--    fetch_trains, Stations has fetch_stations, Cleanup has cleanup_stale_hashes. An XML document is the
--    list of its elements, each the list of its children's tags and texts. A state is what the daemon
--    remembers with the table; a connection says which rows are refused and whether the commit arrives.
--  * Performance: import_bus_performance.py. Bits and Decode have the rows of decode_rows, Transport the
--    checks of the page, Normalize has number and normalize. Decode.Encode is a writer of such rows, which
--    the code does not have.
--  * Storage: the batch loops of archive and samples of backfill_bus_storage.py.
--  * Tests: an interpreter for concrete runs (Ascii), and an example of each theorem.
--
-- Loops are structural recursion, with three exceptions on fuel: the search for parent stations
-- (close_over_parents) has one round for each stop in use and each stop of the file, _chunks has one
-- batch for each row, and the batches of Storage have one round for each id up to the target and one to
-- stop. These are enough, since a round takes a stop that was added once, and a batch takes a row or an
-- id.
--
-- Not modelled: downloads, sessions, signals and the scheduling of tasks (input and output); failing
-- writes of the bus daemon; an import of another daemon between the two transactions of
-- _import_static_feed, and its count of pruned stop times; of
-- daemon.py the log of fetches and the hourly rollups, which are SQL; of import_bus_performance.py the
-- query, the files and the SQL text; of backfill_bus_storage.py the compression of chunks, the bucket
-- loop of refresh_samples, and the SQL of the copies; the reports, the API server (api) and the
-- dashboard (dashboard).
pub mod Prelude
pub mod Python
pub mod Bus
pub mod Performance
pub mod Rail
pub mod Storage
mod Tests
