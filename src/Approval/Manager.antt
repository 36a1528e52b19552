-- ===== src/Approval/Manager.antt =====
-- The methods of guardian/approval/manager.py, each with the one clock reading `now` of its call.
-- `expires_at` is a column that cannot be null, so its test for a value always passes. Log lines
-- are left out.
use cyber_sage.Prelude.{
  ℕ, String, Bool, true, false, Option, none, some, List, [], ◌∷◌, ◌++◌, ◌&&◌, ◌==◌, ltb,
  if◌then◌else◌, Result, ok, err, not,
}
use cyber_sage.Approval.Tables.{
  ApprovalStatus, pending, approved, rejected, expired, ApprovalRequest, Decision, decided_approved,
  decided_rejected, Approval, Database, compute_record_id, is_pending, is_approved, ApprovalError,
  not_found, wrong_status, has_expired, integrity_error, find_request, set_status, has_record,
}

module _ {J : Type 0} (sha256_hex : String → String) where
  -- The record of a decision and the new status go to the database in one flush, which fails
  -- as a whole where the record's identifier is taken.
  unfoldable pub decide :
      ApprovalRequest J
      → String
      → String
      → Option String
      → Decision
      → ApprovalStatus
      → String
      → ℕ
      → Database J
      → Result ApprovalError ApprovalStatus × Database J
  unfolding compute_record_id has_record
  decide r approval_id approver notes decision status verb now db =
      let record_id = compute_record_id sha256_hex approval_id approver verb in
      let a : Approval = record {
        approval_record_id = record_id;
        approval_request_id = r.id;
        approver = approver;
        decision = decision;
        notes = notes;
        created_at = now;
      } in
      if has_record record_id db.approvals then (err integrity_error, db) else (
        ok status,
        record (set_status approval_id status now db) { approvals = db.approvals ++ a ∷ [] },
      )

  unfoldable pub approve_found :
      Option (ApprovalRequest J)
      → String
      → String
      → Option String
      → ℕ
      → Database J
      → Result ApprovalError ApprovalStatus × Database J
  unfolding decide
  approve_found none approval_id approver notes now db = (err not_found, db)
  approve_found (some r) approval_id approver notes now db =
      if not (is_pending r.status)
      then (err (wrong_status r.status), db)
      else if ltb r.expires_at now
      then (err has_expired, set_status approval_id expired now db)
      else decide r approval_id approver notes decided_approved approved "approve" now db

  unfoldable pub approve_request :
      (approval_id approver : String)
      → Option String
      → ℕ
      → Database J
      → Result ApprovalError ApprovalStatus × Database J
  unfolding approve_found
  approve_request approval_id approver notes now db =
      approve_found (find_request approval_id db.requests) approval_id approver notes now db

  unfoldable pub reject_found :
      Option (ApprovalRequest J)
      → String
      → String
      → Option String
      → ℕ
      → Database J
      → Result ApprovalError ApprovalStatus × Database J
  unfolding decide
  reject_found none approval_id approver notes now db = (err not_found, db)
  reject_found (some r) approval_id approver notes now db =
      if not (is_pending r.status)
      then (err (wrong_status r.status), db)
      else decide r approval_id approver notes decided_rejected rejected "reject" now db

  unfoldable pub reject_request :
      (approval_id approver : String)
      → Option String
      → ℕ
      → Database J
      → Result ApprovalError ApprovalStatus × Database J
  unfolding reject_found
  reject_request approval_id approver notes now db =
      reject_found (find_request approval_id db.requests) approval_id approver notes now db

abbrev is_live : ApprovalStatus → Bool
is_live approved = true
is_live pending = true
is_live _ = false

module _ {J : Type 0} where
  unfoldable pub check_found :
      Option (ApprovalRequest J) → String → ℕ → Database J → Bool × Database J
  check_found none approval_id now db = (false, db)
  check_found (some r) approval_id now db =
      if is_pending r.status && ltb r.expires_at now
      then (false, set_status approval_id expired now db)
      else (is_live r.status, db)

  unfoldable pub check_expiry : String → ℕ → Database J → Bool × Database J
  unfolding check_found
  check_expiry approval_id now db =
      check_found (find_request approval_id db.requests) approval_id now db

-- The message of `validate_for_execution`.
pub data Invalid : Type 0 where
  no_request : Invalid
  not_approved : ApprovalStatus → Invalid
  approval_expired : Invalid
  decision_mismatch : Invalid
  target_mismatch : Invalid
  action_type_mismatch : Invalid

module _ {J : Type 0} (same_json : J → J → Bool) where
  unfoldable pub validate_found :
      Option (ApprovalRequest J)
      → (approval_id decision_id : String) → J
      → String
      → ℕ
      → Database J
      → (Bool × Option Invalid) × Database J
  validate_found none approval_id decision_id target action_type now db =
      ((false, some no_request), db)
  validate_found (some r) approval_id decision_id target action_type now db =
      if not (is_approved r.status)
      then ((false, some (not_approved r.status)), db)
      else if ltb r.expires_at now
      then ((false, some approval_expired), set_status approval_id expired now db)
      else if not (r.decision_id == decision_id)
      then ((false, some decision_mismatch), db)
      else if not (same_json r.target target)
      then ((false, some target_mismatch), db)
      else if not (r.action_type == action_type)
      then ((false, some action_type_mismatch), db)
      else ((true, none), db)

  unfoldable pub validate_for_execution :
      (approval_id decision_id : String)
      → J
      → String
      → ℕ
      → Database J
      → (Bool × Option Invalid) × Database J
  unfolding validate_found
  validate_for_execution approval_id decision_id target action_type now db =
      validate_found (find_request approval_id db.requests) approval_id decision_id target
        action_type now db

unfoldable pub permissions : String → List String
permissions role =
    if role == "read_only_auditor"
    then "view" ∷ []
    else if role == "security_analyst"
    then "view" ∷ "approve" ∷ "reject" ∷ []
    else if role == "incident_responder"
    then "view" ∷ "approve" ∷ "reject" ∷ "execute" ∷ []
    else if role == "administrator"
    then "view" ∷ "approve" ∷ "reject" ∷ "execute" ∷ "manage" ∷ []
    else []

abbrev member : String → List String → Bool
member k [] = false
member k (x ∷ xs) = if x == k then true else member k xs

unfoldable pub check_rbac : String → String → Bool
unfolding permissions
check_rbac role action = member action (permissions role)

-- `get_request_status` returns the row itself, rendered as a dictionary.
unfoldable pub get_request_status : {J : Type 0} → String → Database J → Option (ApprovalRequest J)
get_request_status approval_id db = find_request approval_id db.requests
