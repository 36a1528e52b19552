-- ===== src/Automation/Conflicts.antt =====
-- guardian/automation/conflicts.py: overlapping, conflicting and shadowed rules.
pub mod Overlap
pub mod Subset
pub mod Analysis
pub mod Common
pub mod Sharing
pub mod Overlapping
pub mod Containing
pub mod Covering
pub mod Shadowed
pub mod Picked
pub mod Complete
mod Tests
