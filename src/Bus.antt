-- ===== src/Bus.antt =====
-- bus_daemon.py: the NTA GTFS and GTFS-Realtime ingestion.
pub mod Error
pub mod Time
pub mod Enums
pub mod Scalars
pub mod Records
pub mod Entity
pub mod Feed
pub mod Filter
pub mod Histogram
pub mod Static
pub mod Batches
pub mod Tables
pub mod Updates
pub mod Vehicles
pub mod Schedule
pub mod Versions
pub mod Poll
pub mod Prune
pub mod Import
pub mod Refresh
