-- ===== src/Automation/V5.antt =====
-- guardian/automation/policy_v5.py, conflicts.py and preauth.py: the versioned policies.
pub mod Rules
pub mod Scope
pub mod Validation
pub mod Precedence
pub mod Collecting
pub mod Evaluation
pub mod Candidates
pub mod Verdicts
pub mod Denials
pub mod Unordered
pub mod Normal
pub mod Accepted
mod Tests
