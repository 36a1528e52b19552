-- ===== src/Execution/Handler.antt =====
-- `execute_action` of backend/api_guardian_phase3.py. The registry of actions is an argument, and
-- with it what an action does; an action's `validate`, `snapshot` are taken to return. The rows
-- written for snapshots, verifications and rollbacks are left out, their identifiers are kept. A call
-- is one step, where the handler commits in between without a lock.
use cyber_sage.Prelude.{
  ℕ, String, Bool, true, false, not, Option, none, some, List, [], ◌∷◌, ◌++◌, if◌then◌else◌, Result,
  ok, err, concat, is_some,
}
use cyber_sage.Prelude.Dict.{lookup}
use cyber_sage.Actions.Lifecycle.{
  approved, executing, verifying, succeeded, execution_failed, verification_failed,
  rollback_available, stale, blocked, same_status, validate_state_transition,
}
use cyber_sage.Actions.Rollback.{is_rollback_needed}
use cyber_sage.Approval.Manager.{Invalid, validate_for_execution}
use cyber_sage.Execution.Gates.{Gate, pre_execution_safety, record_breaker_outcome}
use cyber_sage.Execution.State.{
  Attempt, ExecutionResult, Verification, RegisteredAction, Backend, Moment, Answer, no_attempt,
  already_executing, not_registered, no_transition, idempotent, wrong_status, stale_decision,
  stopped, refused, execution_raised, finished, save, assign,
}
use Prim.Native.String.{slice}

-- `"; ".join(errors)`
unfoldable pub joined : List String → String
joined [] = ""
joined (e ∷ []) = e
joined (e ∷ f ∷ es) = concat (e ∷ "; " ∷ joined (f ∷ es) ∷ [])

abbrev pub derived_id : (String → String) → String → String → String
derived_id sha256_hex prefix action_id = concat (prefix ∷ slice (sha256_hex action_id) 0 16 ∷ [])

-- An exception of the action's `verify` is a verification that failed.
unfoldable pub verify_action : Result String Verification → Verification
verify_action (ok v) = v
verify_action (err message) = record {
  passed = false;
  failure_reason = some (concat ("Verification failed with exception: " ∷ message ∷ []));
}

module _ {J : Type 0} where
  abbrev pub ended : ExecutionResult J → ℕ → Attempt J → Attempt J
  ended r now a =
      if r.success
      then record (assign verifying a) {
        execution_finished_at = some now;
        result = some r.output;
        updated_at = now;
      }
      else record (assign execution_failed a) {
        error = r.error;
        execution_finished_at = some now;
        result = some r.output;
        updated_at = now;
      }

  -- The breaker hears of the outcome, and the audit row is written.
  unfoldable pub closing : Attempt J → Bool → Moment → Backend J → Answer × Backend J
  closing a success moment b = (
    finished a.status,
    record (save a b) {
      devices = record_breaker_outcome a.action_type success moment.outcome_clock b.devices;
      audit = b.audit ++ (a.action_id, a.status) ∷ [];
    },
  )

module _ {J S : Type 0} (sha256_hex : String → String) where
  abbrev pub take_snapshot : RegisteredAction J S → Attempt J → Option S
  take_snapshot action a =
      if action.requires_snapshot then action.snapshot a.target a.action_id else none

  abbrev pub begun : Option S → ℕ → Attempt J → Attempt J
  begun snap now a = record (assign executing a) {
    execution_started_at = some now;
    updated_at = now;
    snapshot_id =
        if is_some snap then some (derived_id sha256_hex "snp-" a.action_id) else a.snapshot_id;
  }

  -- What the attempt is after the verification.
  unfoldable pub verified : RegisteredAction J S → Verification → Attempt J → Attempt J
  verified action v a =
      if v.passed
      then record (assign succeeded a) {
        verification_id = some (derived_id sha256_hex "vrf-" a.action_id);
      }
      else if is_rollback_needed v.passed action.rollback
      then record (assign rollback_available (assign verification_failed a)) {
        error = v.failure_reason;
        verification_id = some (derived_id sha256_hex "vrf-" a.action_id);
        rollback_id = some (derived_id sha256_hex "rbk-" a.action_id);
      }
      else record (assign verification_failed a) {
        error = v.failure_reason;
        verification_id = some (derived_id sha256_hex "vrf-" a.action_id);
      }

  unfoldable pub after_execution :
      RegisteredAction J S
      → Result String (ExecutionResult J)
      → Attempt J
      → Moment
      → Backend J
      → Answer × Backend J
  unfolding closing verified verify_action
  after_execution action (err message) a moment b = (execution_raised message, b)
  after_execution action (ok r) a moment b =
      let e = ended r moment.finished_at a in
      let v = verify_action (action.verify a.target r) in
      if r.success
      then closing (verified action v e) v.passed moment b
      else closing e false moment b

  -- The attempt is committed as executing before the action runs.
  unfoldable pub run_action :
      RegisteredAction J S → Attempt J → Moment → Backend J → Answer × Backend J
  unfolding after_execution
  run_action action a moment b =
      let snap = take_snapshot action a in
      let a' = begun snap moment.started_at a in
      after_execution action (action.execute a.target a.parameters snap) a' moment
        (record (save a' b) { executed = b.executed ++ (a.action_id, a.target) ∷ [] })

  unfoldable pub registered :
      Option (RegisteredAction J S) → Attempt J → Moment → Backend J → Answer × Backend J
  unfolding run_action joined
  registered none a moment b = (not_registered, b)
  registered (some action) a moment b =
      let (valid, errors) = action.validate a.target a.parameters in
      if not valid
      then (
        refused,
        save
            (record (assign blocked a) {
              error = some (joined errors);
              updated_at = moment.started_at;
            })
            b,
      )
      else if not (validate_state_transition a.status executing)
      then (no_transition, b)
      else run_action action a moment b

  unfoldable pub gated :
      Option Gate
      → Option (RegisteredAction J S)
      → Attempt J
      → Moment
      → Backend J
      → Answer × Backend J
  unfolding registered
  gated (some gate) action a moment b = (stopped gate, b)
  gated none action a moment b = registered action a moment b

  module _ (same_json : J → J → Bool)
      (get_action : String → String → Option (RegisteredAction J S)) where
    unfoldable pub past_validation :
        Bool × Option Invalid → Attempt J → Moment → Backend J → Answer × Backend J
    unfolding gated
    past_validation (false, reason) a moment b =
        (stale_decision reason, save (record (assign stale a) { updated_at = moment.checked_at }) b)
    past_validation (true, reason) a moment b =
        let (gate, d) =
          pre_execution_safety moment.session a.action_type moment.breaker_clock
            moment.limiter_clock b.devices in
        gated gate (get_action a.action_type a.action_name) a moment (record b { devices = d })

    unfoldable pub found_attempt : Option (Attempt J) → Moment → Backend J → Answer × Backend J
    unfolding past_validation
    found_attempt none moment b = (no_attempt, b)
    found_attempt (some a) moment b =
        if same_status a.status succeeded
        then (idempotent, b)
        else if same_status a.status executing
        then (already_executing, b)
        else if not (same_status a.status approved)
        then (wrong_status a.status, b)
        else let (verdict, db) =
            validate_for_execution same_json a.approval_id a.decision_id a.target a.action_type
              moment.checked_at b.database in
          past_validation verdict a moment (record b { database = db })

    unfoldable pub execute_action : String → Moment → Backend J → Answer × Backend J
    unfolding found_attempt
    execute_action action_id moment b = found_attempt (lookup action_id b.attempts) moment b
