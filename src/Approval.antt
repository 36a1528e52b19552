-- ===== src/Approval.antt =====
-- guardian/approval: the requests that an operator must approve before an action may execute.
pub mod Tables
pub mod Creation
pub mod Manager
pub mod Status
pub mod Explicit
pub mod Execution
pub mod Requests
mod Tests
