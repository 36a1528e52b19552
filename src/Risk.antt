-- ===== src/Risk.antt =====
-- guardian/risk and guardian/policy: from detections to a score, and from a score to the response
-- that is recommended.
pub mod Engine
pub mod Response
pub mod Laws
mod Tests
