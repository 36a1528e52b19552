-- ===== src/Execution/Once.antt =====
-- `execute_action` of backend/api_guardian_phase3.py runs the action of an attempt once.
use cyber_sage.Prelude.{
  ℕ, String, ◌≡◌, refl, sym, subst, Bool, true, false, not, Option, none, some, inl, inr, ◌⊎◌,
  arith, ◌≢◌, Result, ok, err, ◌∙◌, eq_refl, eq_iff,
}
use cyber_sage.Prelude.Dict.{lookup, lookup-insert}
use cyber_sage.Actions.Lifecycle.{approved, same_status}
use cyber_sage.Approval.Manager.{Invalid}
use cyber_sage.Execution.Gates.{Gate}
use cyber_sage.Execution.State.{
  Attempt, ExecutionResult, Verification, RegisteredAction, Backend, Moment, save,
}
use cyber_sage.Execution.Handler.{
  closing, verified, after_execution, take_snapshot, begun, run_action, registered, gated,
  past_validation, found_attempt, execute_action, ended, verify_action,
}
use cyber_sage.Execution.Laws.{ran, gate_of, checked}

abbrev pub is_spent : {J : Type 0} → Option (Attempt J) → Bool
is_spent none = false
is_spent (some a) = not (same_status a.status approved)

module _ {J : Type 0} where
  spent-closing :
      (k : String) (a : Attempt J) (success : Bool) (moment : Moment) (b : Backend J)
      → a.action_id ≡ k
      → same_status a.status approved ≡ false
      → is_spent (lookup k (closing a success moment b).1.attempts) ≡ true
  unfolding closing
  spent-closing k a success moment b same spent =
      rw (lookup-insert a.action_id k a b.attempts)
        (ground (arith, eq_iff a.action_id k, same, spent))

  ended_status :
      (r : ExecutionResult J) (now : ℕ) (a : Attempt J)
      → ((ended r now a).action_id ≡ a.action_id)
        × (same_status (ended r now a).status approved ≡ false)
  ended_status r now a = ground arith

module _ {J S : Type 0} (sha256_hex : String → String) where
  verified_status :
      (action : RegisteredAction J S) (v : Verification) (a : Attempt J)
      → ((verified sha256_hex action v a).action_id ≡ a.action_id)
        × (same_status (verified sha256_hex action v a).status approved ≡ false)
  unfolding verified
  verified_status action v a = ground arith

  spent-after_execution :
      (action : RegisteredAction J S) (o : Result String (ExecutionResult J)) (a : Attempt J)
      (moment : Moment) (b : Backend J)
      → is_spent (lookup a.action_id b.attempts) ≡ true
      → is_spent (lookup a.action_id (after_execution sha256_hex action o a moment b).1.attempts)
        ≡ true
  unfolding after_execution closing
  spent-after_execution action (err m) a moment b h = h
  spent-after_execution action (ok r) a moment b h =
      let e = ended r moment.finished_at a in
      let v = verify_action (action.verify a.target r) in
      ground (
        arith,
        spent-closing a.action_id (verified sha256_hex action v e) v.passed moment b
            ((verified_status action v e).0 ∙ (ended_status r moment.finished_at a).0)
            (verified_status action v e).1,
        spent-closing a.action_id e false moment b (ended_status r moment.finished_at a).0
            (ended_status r moment.finished_at a).1,
      )

  spent-run_action :
      (action : RegisteredAction J S) (a : Attempt J) (moment : Moment) (b : Backend J)
      → is_spent (lookup a.action_id (run_action sha256_hex action a moment b).1.attempts) ≡ true
  unfolding run_action
  spent-run_action action a moment b =
      let snap = take_snapshot sha256_hex action a in
      let a' = begun sha256_hex snap moment.started_at a in
      spent-after_execution action (action.execute a.target a.parameters snap) a' moment
        (record (save a' b) { executed = ran a b })
        (rw (lookup-insert a.action_id a.action_id a' b.attempts)
          (ground (arith, eq_refl a.action_id)))

  spent-registered :
      (o : Option (RegisteredAction J S)) (a : Attempt J) (moment : Moment) (b : Backend J)
      → ((registered sha256_hex o a moment b).1.executed ≡ b.executed)
        ⊎ (is_spent (lookup a.action_id (registered sha256_hex o a moment b).1.attempts) ≡ true)
  unfolding registered
  spent-registered none a moment b = inl refl
  spent-registered (some action) a moment b = ground (arith, spent-run_action action a moment b)

  spent-gated :
      (gate : Option Gate) (o : Option (RegisteredAction J S)) (a : Attempt J) (moment : Moment)
      (b : Backend J)
      → ((gated sha256_hex gate o a moment b).1.executed ≡ b.executed)
        ⊎ (is_spent (lookup a.action_id (gated sha256_hex gate o a moment b).1.attempts) ≡ true)
  unfolding gated
  spent-gated (some gate) o a moment b = inl refl
  spent-gated none o a moment b = spent-registered o a moment b

  module _ (same_json : J → J → Bool)
      (get_action : String → String → Option (RegisteredAction J S)) where
    spent-past_validation :
        (v : Bool × Option Invalid) (a : Attempt J) (moment : Moment) (b : Backend J)
        → ((past_validation sha256_hex same_json get_action v a moment b).1.executed ≡ b.executed)
          ⊎ (is_spent (
                lookup a.action_id
                  (past_validation sha256_hex same_json get_action v a moment b).1.attempts)
              ≡ true)
    unfolding past_validation
    spent-past_validation (false, reason) a moment b = inl refl
    spent-past_validation (true, reason) a moment b =
        spent-gated (gate_of a moment b).0 (get_action a.action_type a.action_name) a moment
          (record b { devices = (gate_of a moment b).1 })

    spent-found_attempt :
        (a : Attempt J) (moment : Moment) (b : Backend J)
        → ((found_attempt sha256_hex same_json get_action (some a) moment b).1.executed
            ≡ b.executed)
          ⊎ (is_spent (
                lookup a.action_id
                  (found_attempt sha256_hex same_json get_action (some a) moment b).1.attempts)
              ≡ true)
    unfolding found_attempt
    spent-found_attempt a moment b = ground (
      arith,
      spent-past_validation (checked same_json a moment b).0 a moment
          (record b { database = (checked same_json a moment b).1 }),
    )

    abbrev pub execute : String → Moment → Backend J → Backend J
    execute action_id moment b =
        (execute_action sha256_hex same_json get_action action_id moment b).1

    refused_again :
        (o : Option (Attempt J)) (moment : Moment) (b : Backend J)
        → is_spent o ≡ true
        → (found_attempt sha256_hex same_json get_action o moment b).1 ≡ b
    unfolding found_attempt
    refused_again none moment b h = refl
    refused_again (some a) moment b h = ground (arith, h)

    spent-execute_action :
        (action_id : String) (moment : Moment) (b : Backend J) (a : Attempt J)
        → lookup action_id b.attempts ≡ some a
        → a.action_id ≡ action_id
        → (execute action_id moment b).executed ≢ b.executed
        → is_spent (lookup action_id (execute action_id moment b).attempts) ≡ true
    unfolding execute_action
    spent-execute_action action_id moment b a here same changed =
        let at_key =
          subst
            (λ k.
              ((found_attempt sha256_hex same_json get_action (some a) moment b).1.executed
                ≡ b.executed)
              ⊎ (is_spent (
                    lookup k
                      (found_attempt sha256_hex same_json get_action (some a) moment b).1.attempts)
                  ≡ true))
            same (spent-found_attempt a moment b) in
        let either =
          subst
            (λ o.
              ((found_attempt sha256_hex same_json get_action o moment b).1.executed ≡ b.executed)
              ⊎ (is_spent (
                    lookup action_id
                      (found_attempt sha256_hex same_json get_action o moment b).1.attempts)
                  ≡ true))
            (sym here) at_key in
        elim either [ inl unchanged ↦ absurd (changed unchanged) | inr spent ↦ spent ]

    -- An action is not run twice: if executing an attempt, which is filed under its identifier, has
    -- run its action, then executing it again, at any time, changes nothing at all.
    pub execute_once :
        (action_id : String) (moment later : Moment) (b : Backend J) (a : Attempt J)
        → lookup action_id b.attempts ≡ some a
        → a.action_id ≡ action_id
        → (execute action_id moment b).executed ≢ b.executed
        → execute action_id later (execute action_id moment b) ≡ execute action_id moment b
    unfolding execute_action
    execute_once action_id moment later b a here same changed =
        refused_again (lookup action_id (execute action_id moment b).attempts) later
          (execute action_id moment b) (spent-execute_action action_id moment b a here same changed)
