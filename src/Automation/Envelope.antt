-- ===== src/Automation/Envelope.antt =====
-- guardian/automation/envelope.py: the gates before an action of a versioned policy is executed,
-- with the pre-authorisations of guardian/automation/preauth.py and preauth_store.py.
pub mod Grants
pub mod State
pub mod Checks
pub mod Authority
pub mod Gates
pub mod Report
pub mod Granting
pub mod Granted
pub mod Activated
pub mod Requirements
pub mod Passing
pub mod Authorized
pub mod Revoked
mod Samples
mod Tests
mod GrantTests
