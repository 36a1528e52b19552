-- ===== src/Execution/Laws.antt =====
-- When `execute_action` of backend/api_guardian_phase3.py runs an action.
use cyber_sage.Prelude.{
  String, ◌≡◌, refl, Bool, true, false, Option, none, some, List, [], ◌∷◌, ◌++◌, Result, ok, err,
  arith, inl, ◌⊎◌,
}
use cyber_sage.Prelude.Dict.{lookup}
use cyber_sage.Actions.Lifecycle.{ActionStatus, approved, same_status}
use cyber_sage.Approval.Tables.{Database}
use cyber_sage.Approval.Manager.{Invalid, validate_for_execution}
use cyber_sage.Execution.Gates.{Devices, Gate, pre_execution_safety}
use cyber_sage.Execution.State.{Attempt, ExecutionResult, RegisteredAction, Backend, Moment, save}
use cyber_sage.Execution.Handler.{
  closing, after_execution, take_snapshot, begun, run_action, registered, gated, past_validation,
  found_attempt, execute_action,
}

-- The call of `execute` that is made for an attempt.
abbrev pub ran : {J : Type 0} → Attempt J → Backend J → List (String × J)
ran a b = b.executed ++ (a.action_id, a.target) ∷ []

abbrev pub gate_of : {J : Type 0} → Attempt J → Moment → Backend J → Option Gate × Devices
gate_of a moment b =
    pre_execution_safety moment.session a.action_type moment.breaker_clock moment.limiter_clock
      b.devices

abbrev pub checked :
    {J : Type 0}
    → (J → J → Bool)
    → Attempt J
    → Moment
    → Backend J
    → (Bool × Option Invalid) × Database J
checked same_json a moment b =
    validate_for_execution same_json a.approval_id a.decision_id a.target a.action_type
      moment.checked_at b.database

-- Everything that stands before the execution of an attempt.
pub record IsCleared {J : Type 0} (same_json : J → J → Bool) (a : Attempt J) (moment : Moment)
    (b : Backend J) : Type 0 where
  pub status_approved : a.status ≡ approved
  pub is_validated : (checked same_json a moment b).0.0 ≡ true
  pub gates_passed : (gate_of a moment b).0 ≡ none

pub is_approved_status : (s : ActionStatus) → same_status s approved ≡ true → s ≡ approved
is_approved_status s h = ground arith

module _ {J S : Type 0} (sha256_hex : String → String) where
  executed-after_execution :
      (action : RegisteredAction J S) (o : Result String (ExecutionResult J)) (a : Attempt J)
      (moment : Moment) (b : Backend J)
      → (after_execution sha256_hex action o a moment b).1.executed ≡ b.executed
  unfolding after_execution closing
  executed-after_execution action (err m) a moment b = refl
  executed-after_execution action (ok r) a moment b = ground arith

  executed-run_action :
      (action : RegisteredAction J S) (a : Attempt J) (moment : Moment) (b : Backend J)
      → (run_action sha256_hex action a moment b).1.executed ≡ ran a b
  unfolding run_action
  executed-run_action action a moment b =
      let snap = take_snapshot sha256_hex action a in
      let a' = begun sha256_hex snap moment.started_at a in
      executed-after_execution action (action.execute a.target a.parameters snap) a' moment
        (record (save a' b) { executed = ran a b })

  executed-registered :
      (o : Option (RegisteredAction J S)) (a : Attempt J) (moment : Moment) (b : Backend J)
      → ((registered sha256_hex o a moment b).1.executed ≡ b.executed)
        ⊎ ((registered sha256_hex o a moment b).1.executed ≡ ran a b)
  unfolding registered
  executed-registered none a moment b = inl refl
  executed-registered (some action) a moment b =
      ground (arith, executed-run_action action a moment b)

  executed-gated :
      (gate : Option Gate) (o : Option (RegisteredAction J S)) (a : Attempt J) (moment : Moment)
      (b : Backend J)
      → ((gated sha256_hex gate o a moment b).1.executed ≡ b.executed)
        ⊎ ((gate ≡ none) × ((gated sha256_hex gate o a moment b).1.executed ≡ ran a b))
  unfolding gated
  executed-gated (some gate) o a moment b = inl refl
  executed-gated none o a moment b = ground (arith, executed-registered o a moment b)

  module _ (same_json : J → J → Bool)
      (get_action : String → String → Option (RegisteredAction J S)) where
    executed-past_validation :
        (v : Bool × Option Invalid) (a : Attempt J) (moment : Moment) (b : Backend J)
        → ((past_validation sha256_hex same_json get_action v a moment b).1.executed ≡ b.executed)
          ⊎ ((v.0 ≡ true)
              × ((gate_of a moment b).0 ≡ none)
              × ((past_validation sha256_hex same_json get_action v a moment b).1.executed
                  ≡ ran a b))
    unfolding past_validation
    executed-past_validation (false, reason) a moment b = inl refl
    executed-past_validation (true, reason) a moment b = ground (
      arith,
      executed-gated (gate_of a moment b).0 (get_action a.action_type a.action_name) a moment
          (record b { devices = (gate_of a moment b).1 }),
    )

    executed-found_attempt :
        (a : Attempt J) (moment : Moment) (b : Backend J)
        → ((found_attempt sha256_hex same_json get_action (some a) moment b).1.executed
            ≡ b.executed)
          ⊎ (IsCleared same_json a moment b
              × ((found_attempt sha256_hex same_json get_action (some a) moment b).1.executed
                  ≡ ran a b))
    unfolding found_attempt
    executed-found_attempt a moment b = ground (
      arith,
      is_approved_status a.status,
      executed-past_validation (checked same_json a moment b).0 a moment
          (record b { database = (checked same_json a moment b).1 }),
    )

    pub executed-execute_action :
        (action_id : String) (moment : Moment) (b : Backend J) (a : Attempt J)
        → lookup action_id b.attempts ≡ some a
        → ((execute_action sha256_hex same_json get_action action_id moment b).1.executed
            ≡ b.executed)
          ⊎ (IsCleared same_json a moment b
              × ((execute_action sha256_hex same_json get_action action_id moment b).1.executed
                  ≡ ran a b))
    unfolding execute_action
    executed-execute_action action_id moment b a here = rw here (executed-found_attempt a moment b)
