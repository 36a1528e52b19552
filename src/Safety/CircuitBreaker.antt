-- ===== src/Safety/CircuitBreaker.antt =====
-- guardian/safety/circuit_breaker.py. Times are microseconds; a clock that raises is `none`, and
-- an exception that leaves a method is the result `none`. Log lines are left out.
pub mod Laws
use cyber_sage.Prelude.{
  ℕ, zero, suc, ◌+◌, String, Bool, true, false, Option, none, some, List, [], ◌∷◌, leb,
  if◌then◌else◌,
}

pub data CircuitBreakerState : Type 0 where
  closed open_state half_open : CircuitBreakerState

pub record CircuitBreaker : Type 0 where
  pub threshold : ℕ
  pub recovery_timeout : ℕ
  pub action_type : String
  pub state : CircuitBreakerState
  pub consecutive_failures : ℕ
  pub last_failure_at : Option ℕ
  pub trip_count : ℕ

unfoldable pub init : ℕ → ℕ → String → CircuitBreaker
init failure_threshold recovery_timeout action_type = record {
  threshold = failure_threshold;
  recovery_timeout = recovery_timeout;
  action_type = action_type;
  state = closed;
  consecutive_failures = 0;
  last_failure_at = none;
  trip_count = 0;
}

-- The inner test of `_evaluate_state`; the clock is read only where a failure time is stored.
elapsed : CircuitBreaker → Option ℕ → Option ℕ → Option Bool
elapsed cb none clock = some false
elapsed cb (some failed_at) none = none
elapsed cb (some failed_at) (some now) = some (leb (failed_at + cb.recovery_timeout) now)

probe : CircuitBreaker → Option Bool → Option CircuitBreakerState × CircuitBreaker
probe cb none = (none, cb)
probe cb (some true) = (some half_open, record cb { state = half_open })
probe cb (some false) = (some cb.state, cb)

evaluate_at :
    CircuitBreakerState → CircuitBreaker → Option ℕ → Option CircuitBreakerState × CircuitBreaker
unfolding elapsed probe
evaluate_at open_state cb clock = probe cb (elapsed cb cb.last_failure_at clock)
evaluate_at s cb clock = (some s, cb)

unfoldable pub evaluate_state :
    CircuitBreaker → Option ℕ → Option CircuitBreakerState × CircuitBreaker
unfolding evaluate_at
evaluate_state cb clock = evaluate_at cb.state cb clock

-- `except Exception` answers False.
verdict : Option CircuitBreakerState → Bool
verdict (some closed) = true
verdict (some half_open) = true
verdict (some open_state) = false
verdict none = false

unfoldable pub allow_action : CircuitBreaker → Option ℕ → Bool × CircuitBreaker
unfolding evaluate_state verdict
allow_action cb clock = let (s, cb') = evaluate_state cb clock in (verdict s, cb')

abbrev is_open_state : CircuitBreakerState → Bool
is_open_state open_state = true
is_open_state _ = false

abbrev map_result : (CircuitBreakerState → Bool) → Option CircuitBreakerState → Option Bool
map_result f none = none
map_result f (some s) = some (f s)

unfoldable pub is_open : CircuitBreaker → Option ℕ → Option Bool × CircuitBreaker
unfolding evaluate_state
is_open cb clock = let (s, cb') = evaluate_state cb clock in (map_result is_open_state s, cb')

abbrev after_success : CircuitBreakerState → CircuitBreakerState
after_success open_state = closed
after_success half_open = closed
after_success closed = closed

unfoldable pub record_success : CircuitBreaker → CircuitBreaker
record_success cb = record cb { consecutive_failures = 0; state = after_success cb.state }

-- The counter is written before the clock is read, so it stays written where the clock raises.
unfoldable pub record_failure : CircuitBreaker → Option ℕ → Option (Unit {0}) × CircuitBreaker
record_failure cb none = (none, record cb { consecutive_failures = cb.consecutive_failures + 1 })
record_failure cb (some now) =
    let failed = record cb {
      consecutive_failures = cb.consecutive_failures + 1;
      last_failure_at = some now;
    } in
    (
      some tt,
      if leb failed.threshold failed.consecutive_failures
          then record failed { state = open_state; trip_count = failed.trip_count + 1 }
          else failed,
    )

unfoldable pub reset : CircuitBreaker → CircuitBreaker
reset cb = record cb { state = closed; consecutive_failures = 0; last_failure_at = none }
