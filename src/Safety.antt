-- ===== src/Safety.antt =====
-- guardian/safety: the gates that every automated action passes.
pub mod CircuitBreaker
pub mod KillSwitch
pub mod RateLimiter
mod Tests
