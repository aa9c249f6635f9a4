-- ===== src/Rail.antt =====
-- daemon.py: the ingestion of the Irish Rail API.
pub mod Late
pub mod Fields
pub mod Movements
pub mod Api
pub mod Writes
pub mod Events
pub mod Hacon
pub mod Stations
pub mod Trains
pub mod Types
pub mod Cleanup
