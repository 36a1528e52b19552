-- ===== src/Execution/State.antt =====
-- The state of `execute_action` of backend/api_guardian_phase3.py: attempts, registered actions,
-- the tables and devices, and its answers.
use cyber_sage.Prelude.{ℕ, String, Bool, Option, List, ◌∷◌, Result}
use cyber_sage.Prelude.Dict.{Dict, insert}
use cyber_sage.Actions.Lifecycle.{ActionStatus}
use cyber_sage.Actions.Rollback.{Action}
use cyber_sage.Approval.Tables.{Database}
use cyber_sage.Approval.Manager.{Invalid}
use cyber_sage.Execution.Gates.{Session, Devices, Gate}

-- A row of `guardian_action_attempts`, as far as the handler uses it, with the statuses that it had
-- before the present one, the last one first.
pub record Attempt (J : Type 0) : Type 0 where
  pub action_id : String
  pub approval_id : String
  pub decision_id : String
  pub action_type : String
  pub action_name : String
  pub target : J
  pub parameters : J
  pub status : ActionStatus
  pub earlier : List ActionStatus
  pub execution_started_at : Option ℕ
  pub execution_finished_at : Option ℕ
  pub result : Option J
  pub error : Option String
  pub snapshot_id : Option String
  pub verification_id : Option String
  pub rollback_id : Option String
  pub updated_at : ℕ

pub record ExecutionResult (J : Type 0) : Type 0 where
  pub success : Bool
  pub output : J
  pub error : Option String

pub record Verification : Type 0 where
  pub passed : Bool
  pub failure_reason : Option String

-- A registered action, where `S` is a snapshot.
pub record RegisteredAction (J S : Type 0) : Type 0 where
  pub validate : J → J → Bool × List String
  pub requires_snapshot : Bool
  pub snapshot : J → String → Option S
  pub execute : J → J → Option S → Result String (ExecutionResult J)
  pub verify : J → ExecutionResult J → Result String Verification
  pub rollback : Action J S J

-- `executed` are the calls of `execute` so far, and `audit` the status that each audit row has.
pub record Backend (J : Type 0) : Type 0 where
  pub attempts : Dict (Attempt J)
  pub database : Database J
  pub devices : Devices
  pub executed : List (String × J)
  pub audit : List (String × ActionStatus)

-- The readings of the clocks, and what the session finds, in one call.
pub record Moment : Type 0 where
  pub session : Session
  pub checked_at : ℕ
  pub breaker_clock : Option ℕ
  pub limiter_clock : Option ℕ
  pub started_at : ℕ
  pub finished_at : ℕ
  pub outcome_clock : Option ℕ

pub data Answer : Type 0 where
  no_attempt already_executing not_registered no_transition : Answer
  idempotent : Answer
  wrong_status : ActionStatus → Answer
  stale_decision : Option Invalid → Answer
  stopped : Gate → Answer
  refused : Answer
  execution_raised : String → Answer
  finished : ActionStatus → Answer

-- `attempt.status = status`
abbrev pub assign : {J : Type 0} → ActionStatus → Attempt J → Attempt J
assign status a = record a { status = status; earlier = a.status ∷ a.earlier }

abbrev pub history : {J : Type 0} → Attempt J → List ActionStatus
history a = a.status ∷ a.earlier

abbrev pub save : {J : Type 0} → Attempt J → Backend J → Backend J
save a b = record b { attempts = insert a.action_id a b.attempts }
