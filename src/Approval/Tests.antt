-- ===== src/Approval/Tests.antt =====
-- Runs of guardian/approval/manager.py on small inputs. JSON values are texts here, and the hash is
-- the text itself, so that identifiers stay readable.
use cyber_sage.Prelude.{String, ◌≡◌, ◌↔◌, ◌⊎◌, refl, Bool, true, none, some, List, [], ◌∷◌, ◌==◌}
use cyber_sage.Approval.Tables.{
  ApprovalStatus, approved, rejected, expired, cancelled, ApprovalRequest, Database, empty,
  find_request, write_status, compute_approval_id,
}
use cyber_sage.Approval.Creation.{Proposal, create_with_id, create_approval_request}
use cyber_sage.Approval.Manager.{approve_request, validate_for_execution}
use cyber_sage.Approval.Status.{Call, propose, approve, apply, run, status_in, run-final}
use cyber_sage.Approval.Explicit.{recorded}
use cyber_sage.Approval.Execution.{Permits, validate_iff, execution_needs_approval}
use cyber_sage.Approval.Requests.{}

abbrev plain : String → String
plain s = s

abbrev same_text : String → String → Bool
same_text a b = a == b

abbrev proposal : Proposal String
proposal = record {
  incident_id = none;
  decision_id = "rd-1";
  requested_action = "terminate_process";
  action_type = "process";
  target = "pid 7";
  rationale = "";
  risk = none;
  requested_by = "system";
  ttl_minutes = 30;
}

abbrev row : ApprovalStatus → ApprovalRequest String
row s = record {
  id = 1;
  approval_id = "apr-1";
  incident_id = none;
  decision_id = "rd-1";
  requested_action = "terminate_process";
  action_type = "process";
  target = "pid 7";
  rationale = "";
  risk = none;
  status = s;
  requested_by = "system";
  expires_at = 1800;
  created_at = 0;
  updated_at = 0;
}

abbrev holding : ApprovalStatus → Database String
holding s = record { requests = row s ∷ []; approvals = []; next_id = 2 }

holding-found : (s : ApprovalStatus) → find_request "apr-1" (holding s).requests ≡ some (row s)
unfolding find_request
holding-found s = refl

abbrev the_id : String
the_id = "apr-approval|process"

abbrev script : List (Call String)
script = propose proposal 0 empty ∷ approve the_id "ann" none 60 ∷ []

script_valid :
    (validate_for_execution same_text the_id "rd-1" "pid 7" "process" 90
      (run plain plain same_text script empty)).0.0
    ≡ true
unfolding run apply create_approval_request create_with_id approve_request validate_for_execution
    find_request compute_approval_id write_status
script_valid = refl

execution_needs_approval_example :
    let db = run plain plain same_text script empty in
    (r : ApprovalRequest String) × (find_request the_id db.requests ≡ some r)
    × (recorded r.id db.approvals ≡ true)
    × Permits same_text r "rd-1" "pid 7" "process" 90
execution_needs_approval_example =
    execution_needs_approval plain plain same_text script the_id "rd-1" "pid 7" "process" 90
      script_valid

validate_iff_example :
    ((validate_for_execution same_text "apr-1" "rd-1" "pid 7" "process" 90 (holding approved)).0.0
      ≡ true)
    ↔ ((r : ApprovalRequest String) × (find_request "apr-1" (holding approved).requests ≡ some r)
        × Permits same_text r "rd-1" "pid 7" "process" 90)
validate_iff_example = validate_iff same_text "apr-1" "rd-1" "pid 7" "process" 90 (holding approved)

run-final_example :
    let db = holding rejected in
    ((status_in "apr-1" db ≡ some rejected)
      → status_in "apr-1" (run plain plain same_text script db) ≡ some rejected)
    × ((status_in "apr-1" db ≡ some expired)
        → status_in "apr-1" (run plain plain same_text script db) ≡ some expired)
    × ((status_in "apr-1" db ≡ some cancelled)
        → status_in "apr-1" (run plain plain same_text script db) ≡ some cancelled)
    × ((status_in "apr-1" db ≡ some approved)
        → (status_in "apr-1" (run plain plain same_text script db) ≡ some approved)
          ⊎ (status_in "apr-1" (run plain plain same_text script db) ≡ some expired))
run-final_example = run-final plain plain same_text script "apr-1" (holding rejected)
