-- ===== src/Safety/Tests.antt =====
-- Runs of the gates of guardian/safety on small inputs.
use cyber_sage.Prelude.{
  ◌≤◌, ◌<◌, ◌≡◌, ◌↔◌, refl, true, false, none, some, List, [], ◌∷◌, arith, ltb, ◌&&◌,
}
use cyber_sage.Prelude.Dict
use cyber_sage.Safety.CircuitBreaker
use cyber_sage.Safety.CircuitBreaker.{
  CircuitBreaker, closed, half_open, open_state, allow_action, record_failure, record_success,
}
use cyber_sage.Safety.CircuitBreaker.Laws
use cyber_sage.Safety.CircuitBreaker.Laws.{
  Call, ask, succeed, fail, restart, run, failures_since, closed_iff_below_threshold, blocked_until,
  allow_action_iff, probed, allow_action-probed, probe_outcome, IsConsistent,
}
use cyber_sage.Safety.KillSwitch
use cyber_sage.Safety.KillSwitch.{KillSwitch, global, agent, action, is_blocked, get_all_active}
use cyber_sage.Safety.KillSwitch.View.{
  Request, activate_request, deactivate_request, check_request, serve, is_active, last_word,
  is_active-serve,
}
use cyber_sage.Safety.KillSwitch.Listing.{listed, listed-get_all_active-serve}
use cyber_sage.Safety.RateLimiter
use cyber_sage.Safety.RateLimiter.{minute, hour, check_and_record, check_only}
use cyber_sage.Safety.RateLimiter.Promise.{used}
use cyber_sage.Safety.RateLimiter.Served.{act, look, clear}
use cyber_sage.Safety.RateLimiter.Served
use cyber_sage.Safety.RateLimiter.Bounds.{verdict_exact, used-le-limit}

-- Two failures in a row trip a breaker of threshold two; ten seconds later it probes.
abbrev failing : List Call
failing = fail 5 ∷ succeed ∷ fail 20 ∷ fail 30 ∷ ask 31 ∷ []

abbrev breaker : CircuitBreaker
breaker = CircuitBreaker.init 2 10 "process"

breaker_trips :
    ((run breaker failing).state ≡ open_state)
    × ((run breaker (fail 20 ∷ fail 30 ∷ ask 40 ∷ [])).state ≡ half_open)
unfolding run Laws.apply CircuitBreaker.init
breaker_trips = (refl, refl)

closed_iff_below_threshold_example :
    ((run breaker failing).state ≡ closed) ↔ (failures_since 0 failing < 2)
closed_iff_below_threshold_example = closed_iff_below_threshold 2 10 "process" failing (omega arith)

abbrev tripping : CircuitBreaker
tripping = record {
  threshold = 2;
  recovery_timeout = 10;
  action_type = "process";
  state = closed;
  consecutive_failures = 1;
  last_failure_at = some 20;
  trip_count = 0;
}

abbrev probing : CircuitBreaker
probing = record {
  threshold = 2;
  recovery_timeout = 10;
  action_type = "process";
  state = half_open;
  consecutive_failures = 2;
  last_failure_at = some 30;
  trip_count = 1;
}

abbrev tripped : CircuitBreaker
tripped = record {
  threshold = 2;
  recovery_timeout = 10;
  action_type = "process";
  state = open_state;
  consecutive_failures = 2;
  last_failure_at = some 30;
  trip_count = 1;
}

allow_action-probed_example :
    (allow_action (probed (allow_action tripped (some 40)).1 (some 41 ∷ none ∷ [])) (some 42)).0
    ≡ true
unfolding allow_action
allow_action-probed_example =
    allow_action-probed tripped (some 40) (some 41 ∷ none ∷ []) (some 42) refl

abbrev requests : List Request
requests =
    activate_request agent "a1" "ops" "drill" 5
    ∷ check_request action "process" (some "a1") none
    ∷ activate_request global "global" "ops" "stop" 6
    ∷ deactivate_request global "global"
    ∷ []

is_active-serve_example :
    is_active (serve requests KillSwitch.init) agent "a1"
    ≡ last_word (is_active KillSwitch.init agent "a1") requests agent "a1"
is_active-serve_example = is_active-serve requests KillSwitch.init agent "a1"

listed-get_all_active-serve_example :
    listed (get_all_active (serve requests KillSwitch.init)) agent "a1"
    ≡ last_word false requests agent "a1"
listed-get_all_active-serve_example = listed-get_all_active-serve requests agent "a1"

abbrev calls : List Served.Request
calls =
    act "process" (some 100)
    ∷ act "process" (some 200)
    ∷ look "process" none
    ∷ act "process" (some 300)
    ∷ clear (some "network")
    ∷ act "network" (some 400)
    ∷ []

verdict_exact_example :
    let (rl, log) = Served.serve calls (RateLimiter.init 2 10) [] in
    ((check_and_record "process" (some 500) rl).0.0
      ≡ (ltb (used minute 500 "process" log) 2 && ltb (used hour 500 "process" log) 10))
    × ((check_only "process" (some 500) rl).0.0
        ≡ (ltb (used minute 500 "process" log) 2 && ltb (used hour 500 "process" log) 10))
verdict_exact_example = verdict_exact 2 10 calls (omega arith) 500 (omega arith) "process"

used-le-limit_example :
    let log = (Served.serve calls (RateLimiter.init 2 10) []).1 in
    (used minute 500 "process" log ≤ 2) × (used hour 500 "process" log ≤ 10)
used-le-limit_example = used-le-limit 2 10 calls (omega arith) 500 (omega arith) "process"

-- The third action within a minute is refused, and passes a minute later.
third_refused :
    let (rl, log) = Served.serve calls (RateLimiter.init 2 10) [] in
    ((check_and_record "process" (some 500) rl).0.0 ≡ false)
    × ((check_and_record "process" (some 60000201) rl).0.0 ≡ true)
unfolding Served.serve Served.handle Served.note check_and_record check_only RateLimiter.reset
    RateLimiter.init Dict.lookup Dict.insert
third_refused = (refl, refl)
