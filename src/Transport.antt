-- ===== src/Transport.antt =====
-- guardian/transport: the agent's store of events on their way to the backend.
pub mod Queue
pub mod Sync
mod Tests
