-- ===== src/Execution/Gates.antt =====
-- `pre_execution_safety` and `record_breaker_outcome` of guardian/automation/envelope.py, with the
-- persisted kill switches of guardian/safety/kill_switch_store.py and the breakers of
-- guardian/safety/registry.py.
use cyber_sage.Prelude.{
  ◌*◌, ℕ, String, Bool, true, false, not, ◌&&◌, Option, none, some, List, [], ◌∷◌, if◌then◌else◌,
  ◌==◌, has_length_within, Result, ok, err,
}
use cyber_sage.Prelude.Dict.{Dict, lookup, insert}
use cyber_sage.Safety.KillSwitch.{KillSwitchScope, global, agent, action, KillSwitch, is_blocked}
use cyber_sage.Safety.CircuitBreaker.{CircuitBreaker, allow_action, record_success, record_failure}
use cyber_sage.Safety.CircuitBreaker
use cyber_sage.Safety.RateLimiter.{ActionRateLimiter, check_and_record}

-- A row of `guardian_kill_switches`, as far as it is read.
pub record SwitchRow : Type 0 where
  pub scope : KillSwitchScope
  pub switch_key : String
  pub active : Bool

-- What the session finds: `has_table` is `none` where the inspection of the schema raises, and the
-- rows are an error where the query raises.
pub record Session : Type 0 where
  pub has_table : Option Bool
  pub switch_rows : Result String (List SwitchRow)

-- The objects that the process keeps.
pub record Devices : Type 0 where
  pub kill_switch : KillSwitch
  pub breakers : Dict CircuitBreaker
  pub limiter : ActionRateLimiter

unfoldable pub is_valid_key : String → Bool
is_valid_key key = not (key == "") && has_length_within 128 key

unfoldable pub table_exists : Session → Bool
table_exists session = elim session.has_table [ none ↦ false | some b ↦ b ]

same_scope : KillSwitchScope → KillSwitchScope → Bool
same_scope global global = true
same_scope agent agent = true
same_scope action action = true
same_scope _ _ = false

unfoldable pub first_row : KillSwitchScope → String → List SwitchRow → Bool
unfolding same_scope
first_row scope key [] = false
first_row scope key (r ∷ rows) =
    if same_scope r.scope scope && r.switch_key == key then r.active else first_row scope key rows

unfoldable pub row_active : KillSwitchScope → String → Result String (List SwitchRow) → Bool
row_active scope key (ok rows) = first_row scope key rows
row_active scope key (err message) = true

unfoldable pub is_persisted_active : KillSwitchScope → String → Session → Bool
is_persisted_active scope key session =
    if not (is_valid_key key)
    then true
    else if not (table_exists session)
    then false
    else row_active scope key session.switch_rows

-- `is_blocked_combined` as the gate calls it: the scope is global, and an action key is given.
unfoldable pub is_blocked_combined : Session → String → KillSwitch → Bool × KillSwitch
unfolding is_persisted_active
is_blocked_combined session action_type ks =
    let ((blocked, reason), ks') = is_blocked global "global" none (some action_type) ks in
    if blocked
    then (true, ks')
    else if is_persisted_active global "global" session
    then (true, ks')
    else (
      (if action_type == "" then false else is_persisted_active action action_type session),
      ks',
    )

pub data Gate : Type 0 where
  kill_switch_gate breaker_gate breaker_error rate_gate : Gate

-- The timeout of 300 seconds is in microseconds, as the times of the breaker's clock.
unfoldable pub or_new_breaker : String → Option CircuitBreaker → CircuitBreaker
or_new_breaker action_type none = CircuitBreaker.init 5 (300 * 1000000) action_type
or_new_breaker action_type (some cb) = cb

-- `none` is the ValueError.
unfoldable pub get_breaker : String → Dict CircuitBreaker → Option CircuitBreaker
unfolding or_new_breaker
get_breaker action_type breakers =
    if action_type == ""
    then none
    else if not (has_length_within 64 action_type)
    then none
    else some (or_new_breaker action_type (lookup action_type breakers))

unfoldable pub limit : String → Option ℕ → Devices → Option Gate × Devices
limit action_type clock d =
    let ((allowed, reason), rl) = check_and_record action_type clock d.limiter in
    ((if allowed then none else some rate_gate), record d { limiter = rl })

unfoldable pub through_breaker :
    Option CircuitBreaker
    → String
    → (breaker_clock limiter_clock : Option ℕ) → Devices
    → Option Gate × Devices
unfolding limit
through_breaker none action_type breaker_clock limiter_clock d = (some breaker_error, d)
through_breaker (some cb) action_type breaker_clock limiter_clock d =
    let (allowed, cb') = allow_action cb breaker_clock in
    let d' : Devices = record d { breakers = insert action_type cb' d.breakers } in
    if allowed then limit action_type limiter_clock d' else (some breaker_gate, d')

-- The gate that stops the action, or none.
unfoldable pub pre_execution_safety :
    Session → String → (breaker_clock limiter_clock : Option ℕ) → Devices → Option Gate × Devices
unfolding is_blocked_combined through_breaker
pre_execution_safety session action_type breaker_clock limiter_clock d =
    let (blocked, ks) = is_blocked_combined session action_type d.kill_switch in
    let d' : Devices = record d { kill_switch = ks } in
    if blocked
    then (some kill_switch_gate, d')
    else through_breaker (get_breaker action_type d'.breakers) action_type breaker_clock
        limiter_clock d'

unfoldable pub feed : Option CircuitBreaker → String → Bool → Option ℕ → Devices → Devices
feed none action_type success clock d = d
feed (some cb) action_type true clock d = record d {
  breakers = insert action_type (record_success cb) d.breakers;
}
feed (some cb) action_type false clock d = record d {
  breakers = insert action_type (record_failure cb clock).1 d.breakers;
}

unfoldable pub record_breaker_outcome : String → Bool → Option ℕ → Devices → Devices
unfolding feed
record_breaker_outcome action_type success clock d =
    feed (get_breaker action_type d.breakers) action_type success clock d
