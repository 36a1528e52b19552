-- ===== src/Automation.antt =====
-- guardian/automation: which automated runs a policy lets through, and how far.
pub mod Policy
pub mod PolicyLaws
pub mod Runner
pub mod RunnerLaws
pub mod V5
pub mod Conflicts
pub mod Envelope
mod Tests
