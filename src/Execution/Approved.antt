-- ===== src/Execution/Approved.antt =====
-- What must have happened before `execute_action` of backend/api_guardian_phase3.py runs an action.
use cyber_sage.Prelude.{
  String, ◌≡◌, sym, subst, Bool, true, Option, none, some, List, inl, inr, ◌≢◌,
}
use cyber_sage.Prelude.Dict.{lookup}
use cyber_sage.Actions.Lifecycle.{approved}
use cyber_sage.Approval.Tables.{ApprovalRequest, empty, find_request}
use cyber_sage.Approval.Manager.{validate_for_execution}
use cyber_sage.Approval.Explicit.{recorded}
use cyber_sage.Approval.Status.{Call, run}
use cyber_sage.Approval.Execution.{Permits, execution_needs_approval}
use cyber_sage.Execution.State.{Attempt, RegisteredAction, Backend, Moment}
use cyber_sage.Execution.Handler.{execute_action}
use cyber_sage.Execution.Laws.{ran, gate_of, IsCleared, executed-execute_action}

module _ {J S : Type 0} (sha256_hex : String → String) (same_json : J → J → Bool)
    (get_action : String → String → Option (RegisteredAction J S)) where
  pub cleared :
      (action_id : String) (moment : Moment) (b : Backend J) (a : Attempt J)
      → lookup action_id b.attempts ≡ some a
      → (execute_action sha256_hex same_json get_action action_id moment b).1.executed ≢ b.executed
      → IsCleared same_json a moment b
        × ((execute_action sha256_hex same_json get_action action_id moment b).1.executed ≡ ran a b)
  cleared action_id moment b a here changed =
      elim (executed-execute_action sha256_hex same_json get_action action_id moment b a here) [
        | inl same ↦ absurd (changed same)
        | inr done ↦ done
      ]

  -- Where approvals are only written by the manager's calls on an empty database: if executing an
  -- attempt runs its action, then the attempt was approved, every safety gate let it through, and
  -- there is a request with the attempt's approval identifier that some operator approved
  -- explicitly, that has not expired, and that is for the same decision, target and action type.
  pub executed_needs_approval :
      (render : J → String) (cs : List (Call J)) (action_id : String) (moment : Moment)
      (b : Backend J) (a : Attempt J)
      → b.database ≡ run sha256_hex render same_json cs empty
      → lookup action_id b.attempts ≡ some a
      → (execute_action sha256_hex same_json get_action action_id moment b).1.executed ≢ b.executed
      → (a.status ≡ approved)
        × ((gate_of a moment b).0 ≡ none)
        × ((r : ApprovalRequest J) × (find_request a.approval_id b.database.requests ≡ some r)
            × (recorded r.id b.database.approvals ≡ true)
            × Permits same_json r a.decision_id a.target a.action_type moment.checked_at)
  executed_needs_approval render cs action_id moment b a written here changed =
      let (c, e) = cleared action_id moment b a here changed in
      (
        c.status_approved,
        c.gates_passed,
        subst
            (λ db.
              (validate_for_execution same_json a.approval_id a.decision_id a.target a.action_type
                  moment.checked_at db).0.0
                ≡ true
              → (r : ApprovalRequest J) × (find_request a.approval_id db.requests ≡ some r)
                × (recorded r.id db.approvals ≡ true)
                × Permits same_json r a.decision_id a.target a.action_type moment.checked_at)
            (sym written)
            (execution_needs_approval sha256_hex render same_json cs a.approval_id a.decision_id
              a.target a.action_type moment.checked_at)
            c.is_validated,
      )
