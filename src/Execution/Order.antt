-- ===== src/Execution/Order.antt =====
-- The order of the gates of guardian/automation/envelope.py.
use cyber_sage.Prelude.{ℕ, String, ◌≡◌, true, false, Option, none, some, arith, ◌↔◌}
use cyber_sage.Safety.CircuitBreaker.{CircuitBreaker, allow_action}
use cyber_sage.Safety.RateLimiter.{check_and_record}
use cyber_sage.Execution.Gates.{
  Session, Devices, pre_execution_safety, through_breaker, limit, get_breaker, is_blocked_combined,
}

-- For an action type that has a breaker, the gates let an action through exactly if no kill switch
-- in memory or in the database stops it, its breaker allows it, and the rate limiter grants it. The
-- kill switch comes first: where it stops the action, no breaker is asked and no quota is used; and
-- where the breaker stops it, no quota is used.
pub pre_execution_safety_lem :
    (session : Session) (action_type : String) (breaker_clock limiter_clock : Option ℕ)
    (d : Devices) (cb : CircuitBreaker)
    → get_breaker action_type d.breakers ≡ some cb
    → let after = pre_execution_safety session action_type breaker_clock limiter_clock d in
      let blocked = (is_blocked_combined session action_type d.kill_switch).0 in
      ((after.0 ≡ none) ↔ (
        (blocked ≡ false)
        × ((allow_action cb breaker_clock).0 ≡ true)
        × ((check_and_record action_type limiter_clock d.limiter).0.0 ≡ true)))
      × ((blocked ≡ true) → (after.1.breakers ≡ d.breakers) × (after.1.limiter ≡ d.limiter))
      × (((allow_action cb breaker_clock).0 ≡ false) → after.1.limiter ≡ d.limiter)
unfolding pre_execution_safety through_breaker limit
pre_execution_safety_lem session action_type breaker_clock limiter_clock d cb has =
    rw has (ground arith)
