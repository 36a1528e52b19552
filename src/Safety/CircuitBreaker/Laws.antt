-- ===== src/Safety/CircuitBreaker/Laws.antt =====
-- What callers of guardian/safety/circuit_breaker.py rely on: when it trips, how long it blocks,
-- and what a probe does.
use cyber_sage.Prelude.{
  ℕ, suc, ◌+◌, ◌≤◌, ◌<◌, String, ◌≡◌, refl, ap, ◌≢◌, ◌↔◌, ◌⊎◌, true, false, Option, some, List, [],
  ◌∷◌, arith, is_some, All, map, sym, ◌∙◌,
}
use cyber_sage.Safety.CircuitBreaker.{
  CircuitBreaker, closed, open_state, half_open, init, allow_action, record_success, record_failure,
  reset,
}

-- The calls that a client makes, each with the time at which it is made.
pub data Call : Type 0 where
  ask : ℕ → Call
  succeed : Call
  fail : ℕ → Call
  restart : Call

unfoldable pub apply : CircuitBreaker → Call → CircuitBreaker
unfolding allow_action record_success record_failure reset
apply cb (ask now) = (allow_action cb (some now)).1
apply cb succeed = record_success cb
apply cb (fail now) = (record_failure cb (some now)).1
apply cb restart = reset cb

unfoldable pub run : CircuitBreaker → List Call → CircuitBreaker
run cb [] = cb
run cb (c ∷ cs) = run (apply cb c) cs

-- How many failures were recorded since the last success or reset, read off the calls alone.
abbrev pub failures_since : ℕ → List Call → ℕ
failures_since n [] = n
failures_since n (ask _ ∷ cs) = failures_since n cs
failures_since n (succeed ∷ cs) = failures_since 0 cs
failures_since n (fail _ ∷ cs) = failures_since (suc n) cs
failures_since n (restart ∷ cs) = failures_since 0 cs

pub record IsConsistent (cb : CircuitBreaker) : Type 0 where
  pub positive : 0 < cb.threshold
  pub below : cb.state ≡ closed → cb.consecutive_failures < cb.threshold
  pub reached : cb.state ≢ closed → cb.threshold ≤ cb.consecutive_failures
  pub stamped : cb.state ≢ closed → is_some cb.last_failure_at ≡ true

apply-IsConsistent : (cb : CircuitBreaker) (c : Call) → IsConsistent cb → IsConsistent (apply cb c)
unfolding apply
apply-IsConsistent cb (ask now) h = ground arith
apply-IsConsistent cb succeed h = ground arith
apply-IsConsistent cb (fail now) h = ground arith
apply-IsConsistent cb restart h = ground arith

-- An action is allowed exactly when the circuit is closed, is already probing, or is open and the
-- recovery timeout has passed since the last failure by a clock that can be read. A clock that
-- raises never opens the gate.
pub allow_action_iff :
    (cb : CircuitBreaker) (clock : Option ℕ)
    → ((allow_action cb clock).0 ≡ true) ↔ (
        (cb.state ≡ closed)
        ⊎ (cb.state ≡ half_open)
        ⊎ ((failed_at : ℕ) × (now : ℕ) × (cb.last_failure_at ≡ some failed_at)
            × (clock ≡ some now)
            × (failed_at + cb.recovery_timeout ≤ now)))
unfolding allow_action
allow_action_iff cb clock = (ground arith, ground arith)

-- The breaker after it is asked at each of the times.
unfoldable pub probed : CircuitBreaker → List (Option ℕ) → CircuitBreaker
probed cb [] = cb
probed cb (clock ∷ clocks) = probed (allow_action cb clock).1 clocks

allow_action-ready :
    (cb : CircuitBreaker) (clock : Option ℕ)
    → (allow_action cb clock).0 ≡ true
    → (allow_action cb clock).1.state ≢ open_state
unfolding allow_action
allow_action-ready cb clock h = ground (arith, h)

-- A circuit that is not open allows and stays so.
ready-allow_action :
    (cb : CircuitBreaker) (clock : Option ℕ)
    → cb.state ≢ open_state
    → ((allow_action cb clock).0 ≡ true) × ((allow_action cb clock).1.state ≢ open_state)
unfolding allow_action
ready-allow_action cb clock h = ground (arith, h)

probed-ready :
    (cb : CircuitBreaker) (clocks : List (Option ℕ))
    → cb.state ≢ open_state
    → (probed cb clocks).state ≢ open_state
unfolding probed
probed-ready cb [] h = h
probed-ready cb (clock ∷ clocks) h =
    probed-ready (allow_action cb clock).1 clocks (ready-allow_action cb clock h).1

-- Once an action was allowed, every later one is allowed too, whenever it comes and however many
-- were asked for in between, as long as no outcome is recorded and the breaker is not reset: a
-- half-open circuit lets any number of probes through.
pub allow_action-probed :
    (cb : CircuitBreaker) (clock : Option ℕ) (between : List (Option ℕ)) (later : Option ℕ)
    → (allow_action cb clock).0 ≡ true
    → (allow_action (probed (allow_action cb clock).1 between) later).0 ≡ true
allow_action-probed cb clock between later h =
    (ready-allow_action (probed (allow_action cb clock).1 between) later
      (probed-ready (allow_action cb clock).1 between (allow_action-ready cb clock h))).0

run-IsConsistent :
    (cb : CircuitBreaker) (cs : List Call) → IsConsistent cb → IsConsistent (run cb cs)
unfolding run
run-IsConsistent cb [] h = h
run-IsConsistent cb (c ∷ cs) h = run-IsConsistent (apply cb c) cs (apply-IsConsistent cb c h)

init-IsConsistent :
    (threshold timeout : ℕ) (name : String)
    → 0 < threshold
    → IsConsistent (init threshold timeout name)
unfolding init
init-IsConsistent threshold timeout name h = ground arith

failures-apply :
    (cb : CircuitBreaker) (c : Call)
    → (apply cb c).consecutive_failures ≡ failures_since cb.consecutive_failures (c ∷ [])
unfolding apply
failures-apply cb (ask now) = ground arith
failures-apply cb succeed = ground arith
failures-apply cb (fail now) = ground arith
failures-apply cb restart = ground arith

threshold-apply : (cb : CircuitBreaker) (c : Call) → (apply cb c).threshold ≡ cb.threshold
unfolding apply
threshold-apply cb (ask now) = ground arith
threshold-apply cb succeed = ground arith
threshold-apply cb (fail now) = ground arith
threshold-apply cb restart = ground arith

failures_since-step :
    (n : ℕ) (c : Call) (cs : List Call)
    → failures_since n (c ∷ cs) ≡ failures_since (failures_since n (c ∷ [])) cs
failures_since-step n (ask now) cs = refl
failures_since-step n succeed cs = refl
failures_since-step n (fail now) cs = refl
failures_since-step n restart cs = refl

failures-run :
    (cb : CircuitBreaker) (cs : List Call)
    → (run cb cs).consecutive_failures ≡ failures_since cb.consecutive_failures cs
unfolding run
failures-run cb [] = refl
failures-run cb (c ∷ cs) =
    rw (failures-run (apply cb c) cs, failures-apply cb c) (sym (failures_since-step _ c cs))

threshold-run : (cb : CircuitBreaker) (cs : List Call) → (run cb cs).threshold ≡ cb.threshold
unfolding run
threshold-run cb [] = refl
threshold-run cb (c ∷ cs) = threshold-run (apply cb c) cs ∙ threshold-apply cb c

closed_iff :
    (cb : CircuitBreaker)
    → IsConsistent cb
    → (cb.state ≡ closed) ↔ (cb.consecutive_failures < cb.threshold)
closed_iff cb h = (h.below, λ lt. ground arith)

-- From a new breaker with a positive threshold, whatever calls are made, the circuit is closed
-- exactly while fewer failures than the threshold were recorded since the last success or reset.
pub closed_iff_below_threshold :
    (threshold timeout : ℕ) (name : String) (cs : List Call)
    → 0 < threshold
    → ((run (init threshold timeout name) cs).state ≡ closed) ↔ (failures_since 0 cs < threshold)
unfolding init
closed_iff_below_threshold threshold timeout name cs h =
    let start = init threshold timeout name in
    rw (failures-run start cs) at (
      rw (threshold-run start cs) at (
        closed_iff (run start cs)
          (run-IsConsistent start cs (init-IsConsistent threshold timeout name h))))

asked_early :
    (cb : CircuitBreaker) (t now : ℕ)
    → cb.threshold ≤ cb.consecutive_failures + 1
    → now < t + cb.recovery_timeout
    → allow_action (record_failure cb (some t)).1 (some now)
      ≡ (false, (record_failure cb (some t)).1)
unfolding allow_action record_failure
asked_early cb t now h early = ground arith

run_early :
    (cb : CircuitBreaker) (t now : ℕ)
    → cb.threshold ≤ cb.consecutive_failures + 1
    → now < t + cb.recovery_timeout
    → apply (record_failure cb (some t)).1 (ask now) ≡ (record_failure cb (some t)).1
unfolding apply
run_early cb t now h early = ap (λ p. p.1) (asked_early cb t now h early)

-- A failure that reaches the threshold at time `t` opens the circuit until `t` plus the recovery
-- timeout: every question before that is answered with no, and changes nothing.
pub blocked_until :
    (cb : CircuitBreaker) (t : ℕ) (times : List ℕ)
    → cb.threshold ≤ cb.consecutive_failures + 1
    → All (λ now. now < t + cb.recovery_timeout) times
    → let tripped = (record_failure cb (some t)).1 in
      (run tripped (map ask times) ≡ tripped)
      × All (λ now. (allow_action tripped (some now)).0 ≡ false) times
unfolding run
blocked_until cb t [] h early = (refl, tt)
blocked_until cb t (now ∷ times) h early =
    let (same, refused) = blocked_until cb t times h early.1 in
    (
      ap (λ b. run b (map ask times)) (run_early cb t now h early.0) ∙ same,
      (ap (λ p. p.0) (asked_early cb t now h early.0), refused),
    )

-- In a consistent breaker the outcome of a probe decides at once: a failure opens the circuit
-- again, a success closes it and clears the failure count.
pub probe_outcome :
    (cb : CircuitBreaker) (t : ℕ)
    → IsConsistent cb
    → cb.state ≡ half_open
    → ((record_failure cb (some t)).1.state ≡ open_state)
      × ((record_failure cb (some t)).1.trip_count ≡ cb.trip_count + 1)
      × ((record_success cb).state ≡ closed)
      × ((record_success cb).consecutive_failures ≡ 0)
unfolding record_failure record_success
probe_outcome cb t h probing = ground arith
