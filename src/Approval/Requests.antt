-- ===== src/Approval/Requests.antt =====
-- The outcome of each method of guardian/approval/manager.py for the request that it names.
use cyber_sage.Prelude.{
  ℕ, String, ◌<◌, ◌≤◌, ◌≡◌, ◌≢◌, refl, true, false, Option, some, List, [], ◌∷◌, arith, eq_iff,
  Option-cases, inl, inr, is_some, ◌↔◌, ◌⊎◌, Result-cases, ok, err, sym, subst, ap,
}
use cyber_sage.Approval.Tables.{
  ApprovalStatus, pending, approved, expired, ApprovalRequest, Database, find_request, write_status,
  ApprovalError, wrong_status, has_expired, has_record, compute_record_id,
}
use cyber_sage.Approval.Creation.{Proposal, Created, existing, create_with_id, new_request}
use cyber_sage.Approval.Manager.{approve_request, reject_request, check_rbac}
use cyber_sage.Approval.Status.{status_in, find-append}

find-write_status_self :
    {J : Type 0} (k : String) (s : ApprovalStatus) (now : ℕ) (rows : List (ApprovalRequest J))
    (r : ApprovalRequest J)
    → find_request k rows ≡ some r
    → find_request k (write_status k s now rows) ≡ some (record r { status = s; updated_at = now })
unfolding find_request write_status
find-write_status_self k s now [] r found = cc
find-write_status_self k s now (x ∷ rows) r found =
    ground (arith, find-write_status_self k s now rows r)

module _ {J : Type 0} (sha256_hex : String → String) (k : String) (db : Database J)
    (r : ApprovalRequest J) (found : find_request k db.requests ≡ some r) where
  -- A pending request that has expired is not approved: it becomes expired. A request that is not
  -- pending is refused, with its status, and nothing is written.
  pub approve_refused :
      (approver : String) (notes : Option String) (now : ℕ)
      → let (answer, db') = approve_request sha256_hex k approver notes now db in
        (r.status ≡ pending
          → r.expires_at < now
          → (answer ≡ err has_expired) × (status_in k db' ≡ some expired))
        × (r.status ≢ pending → (answer ≡ err (wrong_status r.status)) × (db' ≡ db))
  unfolding approve_request
  approve_refused approver notes now =
      ground (arith, find-write_status_self k expired now db.requests r)

  -- A decision is taken once: whoever approves a pending request in time, every later approval or
  -- rejection of it is refused, unless the record's identifier is taken.
  pub approve_once :
      (approver second : String) (notes notes' : Option String) (now later : ℕ)
      → r.status ≡ pending
      → now ≤ r.expires_at
      → has_record (compute_record_id sha256_hex k approver "approve") db.approvals ≡ false
      → let (answer, db') = approve_request sha256_hex k approver notes now db in
        (answer ≡ ok approved)
        × (status_in k db' ≡ some approved)
        × (approve_request sha256_hex k second notes' later db'
            ≡ (err (wrong_status approved), db'))
        × (reject_request sha256_hex k second notes' later db' ≡ (err (wrong_status approved), db'))
  unfolding approve_request reject_request
  approve_once approver second notes notes' now later waiting in_time free =
      ground (arith, find-write_status_self k approved now db.requests r)

module _ {J : Type 0} (k : String) (p : Proposal J) (now : ℕ) (seen db : Database J) where
  create_seen :
      (r : ApprovalRequest J)
      → find_request k seen.requests ≡ some r
      → create_with_id k p now seen db ≡ (ok (existing r.approval_id r.status r.created_at), db)
  unfolding create_with_id
  create_seen r found = ground arith

  create_never_raises : (e : ApprovalError) → ¬ ((create_with_id k p now seen db).0 ≡ err e)
  unfolding create_with_id
  create_never_raises e raised = ground arith

  create_answers : (c : Created) × ((create_with_id k p now seen db).0 ≡ ok c)
  create_answers = elim (Result-cases (create_with_id k p now seen db).0) [
    | inl answer ↦ answer
    | inr (e, raised) ↦ absurd (create_never_raises e raised)
  ]

  create_present :
      (is_some (find_request k seen.requests) ≡ true → is_some (find_request k db.requests) ≡ true)
      → is_some (find_request k (create_with_id k p now seen db).1.requests) ≡ true
  unfolding create_with_id
  create_present kept =
      ground (arith, find-append k db.requests (new_request k p db.next_id now), eq_iff k k)

  create_found :
      (is_some (find_request k seen.requests) ≡ true → is_some (find_request k db.requests) ≡ true)
      → (r : ApprovalRequest J) × (find_request k (create_with_id k p now seen db).1.requests
          ≡ some r)
  create_found kept =
      elim (Option-cases (find_request k (create_with_id k p now seen db).1.requests)) [
        | inl missing ↦ cc (create_present kept, ap is_some missing)
        | inr found ↦ found
      ]

-- A creation always succeeds, whatever other transactions wrote between its query and its flush,
-- as long as they deleted no request: afterwards the identifier is there, and a second creation
-- with that identifier answers with the row that is there and writes nothing.
pub create_idempotent :
    {J : Type 0} (k : String) (p p' : Proposal J) (now later : ℕ) (seen db : Database J)
    → (is_some (find_request k seen.requests) ≡ true → is_some (find_request k db.requests) ≡ true)
    → let (answer, db') = create_with_id k p now seen db in
      ((c : Created) × (answer ≡ ok c))
      × ((r : ApprovalRequest J) × (find_request k db'.requests ≡ some r)
          × (create_with_id k p' later db' db'
              ≡ (ok (existing r.approval_id r.status r.created_at), db')))
create_idempotent k p p' now later seen db kept =
    let (r, found) = create_found k p now seen db kept in
    let db' = (create_with_id k p now seen db).1 in
    (create_answers k p now seen db, (r, found, create_seen k p' later db' db' r found))

-- Each role may do what the one before it may, and executing an action takes an incident
-- responder or an administrator.
pub rbac_ordered :
    (role action : String)
    → (check_rbac "read_only_auditor" action ≡ true → check_rbac "security_analyst" action ≡ true)
      × (check_rbac "security_analyst" action ≡ true
          → check_rbac "incident_responder" action ≡ true)
      × (check_rbac "incident_responder" action ≡ true → check_rbac "administrator" action ≡ true)
      × ((check_rbac role "execute" ≡ true)
          ↔ ((role ≡ "incident_responder") ⊎ (role ≡ "administrator")))
unfolding check_rbac
rbac_ordered role action = (
  ground arith,
  ground arith,
  ground arith,
  (
    ground (arith, eq_iff role "incident_responder", eq_iff role "administrator"),
    λ may. elim may [
      | inl e ↦ subst (λ name. check_rbac name "execute" ≡ true) (sym e) refl
      | inr e ↦ subst (λ name. check_rbac name "execute" ≡ true) (sym e) refl
    ],
  ),
)
