-- ===== src/Tests.antt =====
-- Witnesses and tests.
mod Ascii
mod Realtime
mod Static
mod Refresh
mod Polls
mod Outage
mod Rail
mod Feed
mod Movements
mod Boards
mod Trains
mod Performance
