-- ===== src/Approval/Execution.antt =====
-- What guardian/approval/manager.py guarantees of a request that `validate_for_execution` accepts.
use cyber_sage.Prelude.{
  ℕ, String, ◌≤◌, ◌≡◌, Bool, true, none, some, List, [], ◌∷◌, arith, ◌==◌, eq_iff, Bool-cases,
  Option-cases, ◌↔◌, inl, inr, All,
}
use cyber_sage.Approval.Explicit.{
  recorded, Backed, IsExplicit, create-IsExplicit, approve-IsExplicit, reject-IsExplicit,
  expire-IsExplicit, validate-IsExplicit,
}
use cyber_sage.Approval.Tables.{
  approved, ApprovalRequest, Approval, Database, empty, find_request, compute_approval_id,
}
use cyber_sage.Approval.Creation.{create_approval_request}
use cyber_sage.Approval.Manager.{validate_for_execution}
use cyber_sage.Approval.Status.{Call, propose, approve, reject, expire, validate, apply, run}

-- The request was approved, has not expired, and is for this decision, target and action type.
pub record Permits {J : Type 0} (same_json : J → J → Bool) (r : ApprovalRequest J)
    (decision_id : String) (target : J) (action_type : String) (now : ℕ) : Type 0 where
  pub granted : r.status ≡ approved
  pub in_time : now ≤ r.expires_at
  pub same_decision : r.decision_id ≡ decision_id
  pub same_target : same_json r.target target ≡ true
  pub same_action : r.action_type ≡ action_type

module _ {J : Type 0} (same_json : J → J → Bool) (k decision_id : String) (target : J)
    (action_type : String) (now : ℕ) (db : Database J) where
  Permits-validate :
      (r : ApprovalRequest J)
      → find_request k db.requests ≡ some r
      → (validate_for_execution same_json k decision_id target action_type now db).0.0 ≡ true
      → Permits same_json r decision_id target action_type now
  unfolding validate_for_execution
  Permits-validate r found valid =
      ground (arith, eq_iff r.decision_id decision_id, eq_iff r.action_type action_type)

  validate_missing :
      find_request k db.requests ≡ none
      → ¬ ((validate_for_execution same_json k decision_id target action_type now db).0.0 ≡ true)
  unfolding validate_for_execution
  validate_missing missing valid = ground arith

  validate-found :
      (validate_for_execution same_json k decision_id target action_type now db).0.0 ≡ true
      → (r : ApprovalRequest J) × (find_request k db.requests ≡ some r)
  validate-found valid = elim (Option-cases (find_request k db.requests)) [
    | inl missing ↦ absurd (validate_missing missing valid)
    | inr found ↦ found
  ]

  validate-Permits :
      (r : ApprovalRequest J)
      → find_request k db.requests ≡ some r
      → Permits same_json r decision_id target action_type now
      → (validate_for_execution same_json k decision_id target action_type now db).0.0 ≡ true
  unfolding validate_for_execution
  validate-Permits r found p =
      ground (arith, eq_iff r.decision_id decision_id, eq_iff r.action_type action_type)

  -- An action may execute exactly when its request is there, is approved, has not expired, and was
  -- made for the same decision, target and action type.
  pub validate_iff :
      ((validate_for_execution same_json k decision_id target action_type now db).0.0 ≡ true) ↔ (
        (r : ApprovalRequest J) × (find_request k db.requests ≡ some r)
        × Permits same_json r decision_id target action_type now)
  validate_iff = (
    λ valid. let (r, found) = validate-found valid in (r, found, Permits-validate r found valid),
    λ (r, found, p). validate-Permits r found p,
  )

module _ {J : Type 0} (sha256_hex : String → String) (render : J → String)
    (same_json : J → J → Bool) where
  apply-IsExplicit :
      (c : Call J) (db : Database J)
      → IsExplicit db
      → IsExplicit (apply sha256_hex render same_json c db)
  unfolding apply create_approval_request
  apply-IsExplicit (propose p now seen) db h =
      create-IsExplicit (compute_approval_id sha256_hex render p.action_type p.target p.decision_id)
        p now seen db h
  apply-IsExplicit (approve j approver notes now) db h =
      approve-IsExplicit sha256_hex j approver notes now db h
  apply-IsExplicit (reject j approver notes now) db h =
      reject-IsExplicit sha256_hex j approver notes now db h
  apply-IsExplicit (expire j now) db h = expire-IsExplicit j now db h
  apply-IsExplicit (validate j d t a now) db h = validate-IsExplicit same_json j d t a now db h

  run-IsExplicit :
      (cs : List (Call J)) (db : Database J)
      → IsExplicit db
      → IsExplicit (run sha256_hex render same_json cs db)
  unfolding run
  run-IsExplicit [] db h = h
  run-IsExplicit (c ∷ cs) db h =
      run-IsExplicit cs (apply sha256_hex render same_json c db) (apply-IsExplicit c db h)

  found-Backed :
      (as' : List Approval) (k : String) (rows : List (ApprovalRequest J)) (r : ApprovalRequest J)
      → find_request k rows ≡ some r
      → All (Backed as') rows
      → Backed as' r
  unfolding find_request
  found-Backed as' k [] r found h s = cc
  found-Backed as' k (x ∷ rows) r found h s = elim (Bool-cases (x.approval_id == k)) [
    | inl e ↦ ground (arith, h.0)
    | inr e ↦ found-Backed as' k rows r (ground arith) h.1 s
  ]

  -- Whatever calls were made on an empty database, an action may execute only on a request whose
  -- approval some operator has recorded.
  pub execution_needs_approval :
      (cs : List (Call J)) (k decision_id : String) (target : J) (action_type : String) (now : ℕ)
      → let db = run sha256_hex render same_json cs empty in
        (validate_for_execution same_json k decision_id target action_type now db).0.0 ≡ true
        → (r : ApprovalRequest J) × (find_request k db.requests ≡ some r)
          × (recorded r.id db.approvals ≡ true)
          × Permits same_json r decision_id target action_type now
  execution_needs_approval cs k d t a now valid =
      let db = run sha256_hex render same_json cs empty in
      let (r, found, p) = (validate_iff same_json k d t a now db).0 valid in
      (
        r,
        found,
        found-Backed db.approvals k db.requests r found (run-IsExplicit cs empty tt) p.granted,
        p,
      )
