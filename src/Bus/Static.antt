-- ===== src/Bus/Static.antt =====
-- The static feed of bus_daemon.py, from the CSV rows to `_select_static_feed`.
pub mod Csv
pub mod Tables
pub mod Trips
pub mod Stops
pub mod Select
pub mod Kept
pub mod Complete
