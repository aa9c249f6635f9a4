-- ===== src/Python.antt =====
-- The parts of Python's language and standard library that the ingestion code relies on.
pub mod Text
pub mod Date
pub mod Replace
pub mod Order
pub mod Runtime
