-- ===== src/Approval/Status.antt =====
-- The life of a request under guardian/approval/manager.py: how its status may change.
use cyber_sage.Prelude.{
  ℕ, String, ◌≡◌, refl, Bool, true, false, Option, none, some, List, [], ◌∷◌, ◌++◌, arith, ◌==◌,
  eq_iff, if◌then◌else◌, ◌⊎◌,
}
use cyber_sage.Approval.Tables.{
  ApprovalStatus, pending, approved, rejected, expired, cancelled, ApprovalRequest, Database,
  find_request, write_status, compute_approval_id,
}
use cyber_sage.Approval.Creation.{Proposal, create_approval_request, create_with_id, new_request}
use cyber_sage.Approval.Manager.{
  approve_request, reject_request, check_expiry, validate_for_execution,
}

abbrev pub stamp {ℓ} : {A : Type ℓ} → Option A → ApprovalStatus → Option ApprovalStatus
stamp none s = none
stamp (some _) s = some s

module _ {J : Type 0} where
  abbrev pub status_of : Option (ApprovalRequest J) → Option ApprovalStatus
  status_of none = none
  status_of (some r) = some r.status

  -- The status of the request with this identifier.
  abbrev pub status_in : String → Database J → Option ApprovalStatus
  status_in k db = status_of (find_request k db.requests)

  pub status-write_status :
      (j k : String) (s : ApprovalStatus) (now : ℕ) (rows : List (ApprovalRequest J))
      → status_of (find_request k (write_status j s now rows))
        ≡ (if j == k then stamp (find_request k rows) s else status_of (find_request k rows))
  unfolding find_request write_status
  status-write_status j k s now [] = ground arith
  status-write_status j k s now (r ∷ rows) = ground (
    arith,
    status-write_status j k s now rows,
    eq_iff r.approval_id j,
    eq_iff r.approval_id k,
    eq_iff j k,
  )

  abbrev pub or_new :
      String → Option (ApprovalRequest J) → ApprovalRequest J → Option (ApprovalRequest J)
  or_new k (some x) r = some x
  or_new k none r = if r.approval_id == k then some r else none

  pub find-append :
      (k : String) (rows : List (ApprovalRequest J)) (r : ApprovalRequest J)
      → find_request k (rows ++ r ∷ []) ≡ or_new k (find_request k rows) r
  unfolding find_request
  find-append k [] r = refl
  find-append k (x ∷ rows) r = ground (arith, find-append k rows r)

-- Which changes of status are allowed. A request appears as pending; from there it is approved,
-- rejected or expired; an approval may still expire; nothing else changes.
abbrev pub may_become : Option ApprovalStatus → Option ApprovalStatus → Bool
may_become none none = true
may_become none (some pending) = true
may_become (some pending) (some cancelled) = false
may_become (some pending) (some _) = true
may_become (some approved) (some approved) = true
may_become (some approved) (some expired) = true
may_become (some rejected) (some rejected) = true
may_become (some expired) (some expired) = true
may_become (some cancelled) (some cancelled) = true
may_become _ _ = false

may_become_self : (s : Option ApprovalStatus) → may_become s s ≡ true
may_become_self s = ground arith

create-may_become :
    {J : Type 0} (k approval_id : String) (p : Proposal J) (now : ℕ) (seen db : Database J)
    → may_become (status_in k db) (status_in k (create_with_id approval_id p now seen db).1) ≡ true
unfolding create_with_id
create-may_become k approval_id p now seen db = ground (
  arith,
  may_become_self (status_in k db),
  find-append k db.requests (new_request approval_id p db.next_id now),
  eq_iff approval_id k,
)

-- The calls of a client, with the arguments of each and the time at which it is made. A proposal
-- also carries the database that its first query saw.
pub data Call (J : Type 0) : Type 0 where
  propose : Proposal J → ℕ → Database J → Call J
  approve : (approval_id approver : String) → Option String → ℕ → Call J
  reject : (approval_id approver : String) → Option String → ℕ → Call J
  expire : (approval_id : String) → ℕ → Call J
  validate : (approval_id decision_id : String) → J → String → ℕ → Call J

module _ {J : Type 0} (sha256_hex : String → String) (render : J → String)
    (same_json : J → J → Bool) where
  unfoldable pub apply : Call J → Database J → Database J
  apply (propose p now seen) db = (create_approval_request sha256_hex render p now seen db).1
  apply (approve k approver notes now) db = (approve_request sha256_hex k approver notes now db).1
  apply (reject k approver notes now) db = (reject_request sha256_hex k approver notes now db).1
  apply (expire k now) db = (check_expiry k now db).1
  apply (validate k decision_id target action_type now) db =
      (validate_for_execution same_json k decision_id target action_type now db).1

  unfoldable pub run : List (Call J) → Database J → Database J
  run [] db = db
  run (c ∷ cs) db = run cs (apply c db)

  propose-may_become :
      (k : String) (p : Proposal J) (now : ℕ) (seen db : Database J)
      → may_become (status_in k db) (status_in k (apply (propose p now seen) db)) ≡ true
  unfolding apply create_approval_request
  propose-may_become k p now seen db =
      create-may_become k
        (compute_approval_id sha256_hex render p.action_type p.target p.decision_id) p now seen db

  approve-may_become :
      (k j approver : String) (notes : Option String) (now : ℕ) (db : Database J)
      → may_become (status_in k db) (status_in k (apply (approve j approver notes now) db)) ≡ true
  unfolding apply approve_request
  approve-may_become k j approver notes now db = ground (
    arith,
    eq_iff j k,
    status-write_status j k expired now db.requests,
    status-write_status j k approved now db.requests,
  )

  reject-may_become :
      (k j approver : String) (notes : Option String) (now : ℕ) (db : Database J)
      → may_become (status_in k db) (status_in k (apply (reject j approver notes now) db)) ≡ true
  unfolding apply reject_request
  reject-may_become k j approver notes now db =
      ground (arith, eq_iff j k, status-write_status j k rejected now db.requests)

  expire-may_become :
      (k j : String) (now : ℕ) (db : Database J)
      → may_become (status_in k db) (status_in k (apply (expire j now) db)) ≡ true
  unfolding apply check_expiry
  expire-may_become k j now db =
      ground (arith, eq_iff j k, status-write_status j k expired now db.requests)

  validate-may_become :
      (k j decision_id : String) (target : J) (action_type : String) (now : ℕ) (db : Database J)
      → may_become
          (status_in k db)
          (status_in k (apply (validate j decision_id target action_type now) db))
        ≡ true
  unfolding apply validate_for_execution
  validate-may_become k j decision_id target action_type now db =
      ground (arith, eq_iff j k, status-write_status j k expired now db.requests)

  -- Whatever a call does, and whatever other transactions did before a creation was written, it
  -- moves the status of every request along the allowed changes only.
  pub apply-may_become :
      (c : Call J) (k : String) (db : Database J)
      → may_become (status_in k db) (status_in k (apply c db)) ≡ true
  apply-may_become (propose p now seen) k db = propose-may_become k p now seen db
  apply-may_become (approve j approver notes now) k db =
      approve-may_become k j approver notes now db
  apply-may_become (reject j approver notes now) k db = reject-may_become k j approver notes now db
  apply-may_become (expire j now) k db = expire-may_become k j now db
  apply-may_become (validate j d t a now) k db = validate-may_become k j d t a now db

  -- A request that was rejected, expired or cancelled stays so whatever calls follow, and one that
  -- was approved can only stay approved or expire.
  pub run-final :
      (cs : List (Call J)) (k : String) (db : Database J)
      → ((status_in k db ≡ some rejected) → status_in k (run cs db) ≡ some rejected)
        × ((status_in k db ≡ some expired) → status_in k (run cs db) ≡ some expired)
        × ((status_in k db ≡ some cancelled) → status_in k (run cs db) ≡ some cancelled)
        × ((status_in k db ≡ some approved)
            → (status_in k (run cs db) ≡ some approved) ⊎ (status_in k (run cs db) ≡ some expired))
  unfolding run
  run-final [] k db = ground arith
  run-final (c ∷ cs) k db = ground (arith, apply-may_become c k db, run-final cs k (apply c db))
