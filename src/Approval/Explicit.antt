-- ===== src/Approval/Explicit.antt =====
-- "Every approval must be explicit": what stands behind a request that guardian/approval/manager.py
-- lets an action execute on.
use cyber_sage.Prelude.{
  ℕ, suc, String, ◌≡◌, refl, Bool, true, false, Option, some, List, [], ◌∷◌, ◌++◌, arith, ◌==◌,
  if◌then◌else◌, Bool-cases, Option-cases, ltb, ◌&&◌, ◌⊎◌, sym, subst, inl, inr, nat_eq, All,
  All-append,
}
use cyber_sage.Approval.Tables.{
  ApprovalStatus, approved, rejected, expired, ApprovalRequest, decided_approved, decided_rejected,
  Approval, Database, find_request, write_status, set_status, compute_record_id, has_record,
  is_pending,
}
use cyber_sage.Approval.Creation.{Proposal, create_with_id, new_request}
use cyber_sage.Approval.Manager.{
  approve_request, reject_request, check_expiry, validate_for_execution, decide, approve_found,
  reject_found, check_found, validate_found,
}

-- Some operator's record says that the request with this primary key was approved.
abbrev pub recorded : ℕ → List Approval → Bool
recorded id [] = false
recorded id (a ∷ as') =
    if nat_eq a.approval_request_id id
    then elim a.decision [ decided_approved ↦ true | decided_rejected ↦ recorded id as' ]
    else recorded id as'

recorded-append :
    (id : ℕ) (as' : List Approval) (a : Approval)
    → recorded id as' ≡ true
    → recorded id (as' ++ a ∷ []) ≡ true
recorded-append id [] a h = cc
recorded-append id (b ∷ as') a h = ground (arith, recorded-append id as' a)

recorded-append_self :
    (as' : List Approval) (a : Approval)
    → a.decision ≡ decided_approved
    → recorded a.approval_request_id (as' ++ a ∷ []) ≡ true
recorded-append_self [] a h = ground arith
recorded-append_self (b ∷ as') a h = ground (arith, recorded-append_self as' a)

module _ {J : Type 0} where
  abbrev pub Backed : List Approval → ApprovalRequest J → Type 0
  Backed as' r = r.status ≡ approved → recorded r.id as' ≡ true

  abbrev pub IsExplicit : Database J → Type 0
  IsExplicit db = All (Backed db.approvals) db.requests

  Backed-append :
      (as' : List Approval) (a : Approval) (rows : List (ApprovalRequest J))
      → All (Backed as') rows
      → All (Backed (as' ++ a ∷ [])) rows
  Backed-append as' a [] h = tt
  Backed-append as' a (r ∷ rows) h =
      (λ e. recorded-append r.id as' a (h.0 e), Backed-append as' a rows h.1)

  -- A status other than approved needs no record.
  write_status-Backed :
      (as' : List Approval) (k : String) (s : ApprovalStatus) (now : ℕ)
      (rows : List (ApprovalRequest J))
      → (s ≡ approved → ⊥)
      → All (Backed as') rows
      → All (Backed as') (write_status k s now rows)
  unfolding write_status
  write_status-Backed as' k s now [] other h = tt
  write_status-Backed as' k s now (r ∷ rows) other h = elim (Bool-cases (r.approval_id == k)) [
    | inl e ↦ rw e (λ same. absurd (other same), h.1)
    | inr e ↦ rw e (h.0, write_status-Backed as' k s now rows other h.1)
  ]

  -- The request that is found may become approved once its record is there.
  approved-Backed :
      (as' : List Approval) (k : String) (now : ℕ) (rows : List (ApprovalRequest J))
      (r : ApprovalRequest J)
      → find_request k rows ≡ some r
      → recorded r.id as' ≡ true
      → All (Backed as') rows
      → All (Backed as') (write_status k approved now rows)
  unfolding find_request write_status
  approved-Backed as' k now [] r found rec h = tt
  approved-Backed as' k now (x ∷ rows) r found rec h = elim (Bool-cases (x.approval_id == k)) [
    | inl e ↦ rw e (λ _. ground arith, h.1)
    | inr e ↦ rw e (h.0, approved-Backed as' k now rows r (ground arith) rec h.1)
  ]

module _ {J : Type 0} (sha256_hex : String → String) where
  decide_approved-IsExplicit :
      (r : ApprovalRequest J) (k approver : String) (notes : Option String) (now : ℕ)
      (db : Database J)
      → find_request k db.requests ≡ some r
      → IsExplicit db
      → IsExplicit
          (decide sha256_hex r k approver notes decided_approved approved "approve" now db).1
  unfolding decide
  decide_approved-IsExplicit r k approver notes now db found h =
      elim (Bool-cases
        (has_record (compute_record_id sha256_hex k approver "approve") db.approvals)) [
          | inl e ↦ rw e h
          | inr e ↦ rw e (
              approved-Backed _ k now db.requests r found (recorded-append_self db.approvals _ refl)
                (Backed-append db.approvals _ db.requests h))
        ]

  decide_rejected-IsExplicit :
      (r : ApprovalRequest J) (k approver : String) (notes : Option String) (now : ℕ)
      (db : Database J)
      → IsExplicit db
      → IsExplicit
          (decide sha256_hex r k approver notes decided_rejected rejected "reject" now db).1
  unfolding decide
  decide_rejected-IsExplicit r k approver notes now db h =
      elim (Bool-cases
        (has_record (compute_record_id sha256_hex k approver "reject") db.approvals)) [
          | inl e ↦ rw e h
          | inr e ↦ rw e (
              write_status-Backed _ k rejected now db.requests (λ same. cc)
                (Backed-append db.approvals _ db.requests h))
        ]

  pub approve-IsExplicit :
      (k approver : String) (notes : Option String) (now : ℕ) (db : Database J)
      → IsExplicit db
      → IsExplicit (approve_request sha256_hex k approver notes now db).1
  unfolding approve_request
  approve-IsExplicit k approver notes now db h = elim (Option-cases (find_request k db.requests)) [
    | inl e ↦ rw e h
    | inr (r, e) ↦ rw e (found r e)
  ]
    where
      found :
          (r : ApprovalRequest J)
          → find_request k db.requests ≡ some r
          → IsExplicit (approve_found sha256_hex (some r) k approver notes now db).1
      found r e = elim (Bool-cases (is_pending r.status)) [
        | inr no_longer ↦ rw no_longer h
        | inl waiting ↦ elim (Bool-cases (ltb r.expires_at now)) [
          | inl late ↦
              rw (waiting, late)
                (write_status-Backed db.approvals k expired now db.requests (λ same. cc) h)
          | inr in_time ↦
              rw (waiting, in_time) (decide_approved-IsExplicit r k approver notes now db e h)
        ]
      ]

  pub reject-IsExplicit :
      (k approver : String) (notes : Option String) (now : ℕ) (db : Database J)
      → IsExplicit db
      → IsExplicit (reject_request sha256_hex k approver notes now db).1
  unfolding reject_request
  reject-IsExplicit k approver notes now db h = elim (Option-cases (find_request k db.requests)) [
    | inl e ↦ rw e h
    | inr (r, e) ↦ rw e (found r)
  ]
    where
      found :
          (r : ApprovalRequest J)
          → IsExplicit (reject_found sha256_hex (some r) k approver notes now db).1
      found r = elim (Bool-cases (is_pending r.status)) [
        | inr no_longer ↦ rw no_longer h
        | inl waiting ↦ rw waiting (decide_rejected-IsExplicit r k approver notes now db h)
      ]

create_write :
    {J : Type 0} (approval_id : String) (p : Proposal J) (now : ℕ) (seen db : Database J)
    → ((create_with_id approval_id p now seen db).1 ≡ db)
      ⊎ ((create_with_id approval_id p now seen db).1 ≡ record db {
        requests = db.requests ++ new_request approval_id p db.next_id now ∷ [];
        next_id = suc db.next_id;
      })
unfolding create_with_id
create_write approval_id p now seen db = ground arith

pub create-IsExplicit :
    {J : Type 0} (approval_id : String) (p : Proposal J) (now : ℕ) (seen db : Database J)
    → IsExplicit db
    → IsExplicit (create_with_id approval_id p now seen db).1
create-IsExplicit approval_id p now seen db h = elim (create_write approval_id p now seen db) [
  | inl same ↦ subst (λ db'. IsExplicit db') (sym same) h
  | inr wrote ↦
      subst (λ db'. IsExplicit db') (sym wrote)
        (All-append (Backed db.approvals) db.requests
          (new_request approval_id p db.next_id now ∷ []) h (λ same. cc, tt))
]

pub expire-IsExplicit :
    {J : Type 0} (k : String) (now : ℕ) (db : Database J)
    → IsExplicit db
    → IsExplicit (check_expiry k now db).1
unfolding check_expiry
expire-IsExplicit {J} k now db h = elim (Option-cases (find_request k db.requests)) [
  | inl e ↦ rw e h
  | inr (r, e) ↦ rw e (found r)
]
  where
    found : (r : ApprovalRequest J) → IsExplicit (check_found (some r) k now db).1
    found r = elim (Bool-cases (is_pending r.status && ltb r.expires_at now)) [
      | inl late ↦
          rw late (write_status-Backed db.approvals k expired now db.requests (λ same. cc) h)
      | inr fine ↦ rw fine h
    ]

module _ {J : Type 0} (same_json : J → J → Bool) where
  -- The rest of the checks of `validate_for_execution` write nothing.
  validate-write :
      (r : ApprovalRequest J) (k decision_id : String) (target : J) (action_type : String) (now : ℕ)
      (db : Database J)
      → ((validate_found same_json (some r) k decision_id target action_type now db).1 ≡ db)
        ⊎ ((validate_found same_json (some r) k decision_id target action_type now db).1
            ≡ set_status k expired now db)
  unfolding validate_found
  validate-write r k decision_id target action_type now db = ground arith

  pub validate-IsExplicit :
      (k decision_id : String) (target : J) (action_type : String) (now : ℕ) (db : Database J)
      → IsExplicit db
      → IsExplicit (validate_for_execution same_json k decision_id target action_type now db).1
  unfolding validate_for_execution
  validate-IsExplicit k d t a now db h = elim (Option-cases (find_request k db.requests)) [
    | inl e ↦ rw e h
    | inr (r, e) ↦ rw e (elim (validate-write r k d t a now db) [
      | inl same ↦ subst (λ db'. IsExplicit db') (sym same) h
      | inr wrote ↦
          subst (λ db'. IsExplicit db') (sym wrote)
            (write_status-Backed db.approvals k expired now db.requests (λ same. cc) h)
    ])
  ]
