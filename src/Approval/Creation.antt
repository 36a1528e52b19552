-- ===== src/Approval/Creation.antt =====
-- `create_approval_request` of guardian/approval/manager.py, called on a session that has nothing
-- uncommitted.
use cyber_sage.Prelude.{
  ℕ, suc, ◌+◌, ◌*◌, String, Option, none, some, [], ◌∷◌, ◌++◌, Result, ok, err,
}
use cyber_sage.Approval.Tables.{
  ApprovalStatus, pending, ApprovalRequest, Database, microseconds_per_minute, compute_approval_id,
  ApprovalError, integrity_error, find_request,
}

-- The answer to a creation: the row that was there, or the new row.
pub data Created : Type 0 where
  existing : (approval_id : String) (status : ApprovalStatus) (created_at : ℕ) → Created
  fresh :
      (approval_id decision_id : String) (status : ApprovalStatus) (expires_at created_at : ℕ)
      → Created

-- The arguments of `create_approval_request`.
pub record Proposal (J : Type 0) : Type 0 where
  pub incident_id : Option ℕ
  pub decision_id : String
  pub requested_action : String
  pub action_type : String
  pub target : J
  pub rationale : String
  pub risk : Option J
  pub requested_by : String
  pub ttl_minutes : ℕ

module _ {J : Type 0} where
  abbrev pub new_request : String → Proposal J → ℕ → ℕ → ApprovalRequest J
  new_request approval_id p id now = record {
    id = id;
    approval_id = approval_id;
    incident_id = p.incident_id;
    decision_id = p.decision_id;
    requested_action = p.requested_action;
    action_type = p.action_type;
    target = p.target;
    rationale = p.rationale;
    risk = p.risk;
    status = pending;
    requested_by = p.requested_by;
    expires_at = now + p.ttl_minutes * microseconds_per_minute;
    created_at = now;
    updated_at = now;
  }

  -- `session.add` and `session.flush`: the unique index on `approval_id` refuses a second row.
  flush_request : ApprovalRequest J → Database J → Option (Database J)
  flush_request r db = elim (find_request r.approval_id db.requests) [
    | some _ ↦ none
    | none ↦ some (record db { requests = db.requests ++ r ∷ []; next_id = suc db.next_id })
  ]

  describe_existing : ApprovalRequest J → Created
  describe_existing r = existing r.approval_id r.status r.created_at

  -- After an IntegrityError: roll back, look again, and raise where no row explains it. The rollback
  -- is of the whole session; what it undoes is the refused row alone where the caller has written
  -- nothing else that is uncommitted, as the handler of the backend has not.
  look_again : String → Database J → Result ApprovalError Created × Database J
  look_again approval_id db = elim (find_request approval_id db.requests) [
    | some r ↦ (ok (describe_existing r), db)
    | none ↦ (err integrity_error, db)
  ]

  flushed :
      ApprovalRequest J
      → Database J
      → Option (Database J)
      → Result ApprovalError Created × Database J
  unfolding look_again describe_existing
  flushed r db none = look_again r.approval_id db
  flushed r db (some db') =
      (ok (fresh r.approval_id r.decision_id pending r.expires_at r.created_at), db')

  -- `seen` is the database that the first query reads, `db` the one that the flush writes to:
  -- other transactions may commit in between.
  unfoldable pub create_with_id :
      String → Proposal J → ℕ → (seen db : Database J) → Result ApprovalError Created × Database J
  unfolding flush_request flushed describe_existing
  create_with_id approval_id p now seen db = elim (find_request approval_id seen.requests) [
    | some old ↦ (ok (describe_existing old), db)
    | none ↦ let r = new_request approval_id p db.next_id now in flushed r db (flush_request r db)
  ]

module _ {J : Type 0} (sha256_hex : String → String) where
  unfoldable pub create_approval_request :
      (render : J → String)
      → Proposal J
      → ℕ
      → (seen db : Database J) → Result ApprovalError Created × Database J
  create_approval_request render p now seen db =
      let approval_id =
        compute_approval_id sha256_hex render p.action_type p.target p.decision_id in
      create_with_id approval_id p now seen db
