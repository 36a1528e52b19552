-- ===== src/Approval/Tables.antt =====
-- The rows of guardian/approval/manager.py and the identifiers of guardian/actions/base.py. `J`
-- stands for JSON values; times are microseconds.
use Prim.Native.String.{slice}
use cyber_sage.Prelude.{
  ℕ, String, Bool, true, false, Option, none, some, List, [], ◌∷◌, ◌==◌, if◌then◌else◌, concat,
}

pub data ApprovalStatus : Type 0 where
  pending approved rejected expired cancelled : ApprovalStatus

pub record ApprovalRequest (J : Type 0) : Type 0 where
  pub id : ℕ
  pub approval_id : String
  pub incident_id : Option ℕ
  pub decision_id : String
  pub requested_action : String
  pub action_type : String
  pub target : J
  pub rationale : String
  pub risk : Option J
  pub status : ApprovalStatus
  pub requested_by : String
  pub expires_at : ℕ
  pub created_at : ℕ
  pub updated_at : ℕ

pub data Decision : Type 0 where
  decided_approved decided_rejected : Decision

pub record Approval : Type 0 where
  pub approval_record_id : String
  pub approval_request_id : ℕ
  pub approver : String
  pub decision : Decision
  pub notes : Option String
  pub created_at : ℕ

pub record Database (J : Type 0) : Type 0 where
  pub requests : List (ApprovalRequest J)
  pub approvals : List Approval
  pub next_id : ℕ

abbrev pub empty : {J : Type 0} → Database J
empty = record { requests = []; approvals = []; next_id = 1 }

abbrev pub microseconds_per_minute : ℕ
microseconds_per_minute = 60000000

-- `sha256(text.encode()).hexdigest()` is a parameter, and so is `str(sorted(target.items()))`.
unfoldable pub compute_approval_id :
    {J : Type 0}
    → (sha256_hex : String → String) (render : J → String) → String
    → J
    → String
    → String
compute_approval_id sha256_hex render action_type target decision_id =
    let payload =
      concat ("approval|" ∷ action_type ∷ "|" ∷ render target ∷ "|" ∷ decision_id ∷ []) in
    concat ("apr-" ∷ slice (sha256_hex payload) 0 16 ∷ [])

unfoldable pub compute_record_id :
    (sha256_hex : String → String) → String → String → String → String
compute_record_id sha256_hex approval_id approver verb = concat (
    "apv-" ∷ slice (sha256_hex (concat (approval_id ∷ "|" ∷ approver ∷ "|" ∷ verb ∷ []))) 0 16 ∷ [])

abbrev pub is_pending : ApprovalStatus → Bool
is_pending pending = true
is_pending _ = false

abbrev pub is_approved : ApprovalStatus → Bool
is_approved approved = true
is_approved _ = false

module _ {J : Type 0} where
  -- `query(GuardianApprovalRequest).filter(approval_id == …).first()`
  unfoldable pub find_request : String → List (ApprovalRequest J) → Option (ApprovalRequest J)
  find_request k [] = none
  find_request k (r ∷ rs) = if r.approval_id == k then some r else find_request k rs

  -- The row that `find_request` returns, with a new status.
  unfoldable pub write_status :
      String → ApprovalStatus → ℕ → List (ApprovalRequest J) → List (ApprovalRequest J)
  write_status k status now [] = []
  write_status k status now (r ∷ rs) =
      if r.approval_id == k
      then (record r { status = status; updated_at = now }) ∷ rs
      else r ∷ write_status k status now rs

  abbrev pub set_status : String → ApprovalStatus → ℕ → Database J → Database J
  set_status k status now db = record db { requests = write_status k status now db.requests }

unfoldable pub has_record : String → List Approval → Bool
has_record k [] = false
has_record k (a ∷ as') = if a.approval_record_id == k then true else has_record k as'

pub data ApprovalError : Type 0 where
  not_found : ApprovalError
  wrong_status : ApprovalStatus → ApprovalError
  has_expired : ApprovalError
  integrity_error : ApprovalError
