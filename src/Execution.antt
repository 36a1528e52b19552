-- ===== src/Execution.antt =====
-- The execution of an approved action: the safety gates of guardian/automation/envelope.py and the
-- handler of backend/api_guardian_phase3.py, over the approval manager and the safety devices.
pub mod Gates
pub mod State
pub mod Handler
pub mod Laws
pub mod Approved
pub mod Once
pub mod Routes
pub mod Statuses
pub mod Order
mod Tests
