-- ===== src/Actions.antt =====
-- guardian/actions: the response actions, their lifecycle and their rollback.
pub mod Registry
pub mod Lifecycle
pub mod Legality
pub mod Rollback
mod Tests
