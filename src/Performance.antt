-- ===== src/Performance.antt =====
-- import_bus_performance.py: the published performance of the bus routes.
pub mod Bits
pub mod Decode
pub mod Transport
pub mod Normalize
