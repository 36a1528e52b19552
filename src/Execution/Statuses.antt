-- ===== src/Execution/Statuses.antt =====
-- The statuses that `execute_action` of backend/api_guardian_phase3.py gives to an attempt.
use cyber_sage.Prelude.{
  ℕ, List, ◌∷◌, Bool-cases, String, ◌≡◌, refl, sym, subst, Bool, true, false, Option, none, some,
  inl, inr, arith, Result, ok, err, ◌∙◌, eq_refl, eq_iff,
}
use cyber_sage.Prelude.Dict.{lookup, lookup-insert}
use cyber_sage.Actions.Lifecycle.{
  ActionStatus, approved, executing, verifying, succeeded, execution_failed, verification_failed,
  rollback_available, stale, blocked, same_status, validate_state_transition,
  valid_action_transitions,
}
use cyber_sage.Actions.Rollback.{is_rollback_needed}
use cyber_sage.Approval.Manager.{Invalid}
use cyber_sage.Execution.Gates.{Gate}
use cyber_sage.Execution.State.{
  Attempt, ExecutionResult, Verification, RegisteredAction, Backend, Moment, save, assign, history,
}
use cyber_sage.Execution.Handler.{
  closing, verified, after_execution, take_snapshot, begun, run_action, registered, gated,
  past_validation, found_attempt, joined, execute_action, ended, verify_action,
}
use cyber_sage.Execution.Laws.{ran, gate_of, checked, is_approved_status}
use cyber_sage.Execution.Routes.{
  leads, leads_step, led_executing, led_stale, has_led, IsLegal, no_step_to_blocked, unchanged_led,
}

module _ {J : Type 0} where
  ended_id :
      (r : ExecutionResult J) (now : ℕ) (a : Attempt J) → (ended r now a).action_id ≡ a.action_id
  ended_id r now a = ground arith

  closing_led :
      (old : List ActionStatus) (k : String) (a : Attempt J) (success : Bool) (moment : Moment)
      (b : Backend J)
      → a.action_id ≡ k
      → leads old (history a) ≡ true
      → has_led old (lookup k (closing a success moment b).1.attempts) ≡ true
  unfolding closing
  closing_led old k a success moment b same led =
      rw (lookup-insert a.action_id k a b.attempts)
        (ground (arith, eq_iff a.action_id k, same, led))

  ended_led :
      (old : List ActionStatus) (r : ExecutionResult J) (now : ℕ) (a : Attempt J)
      → a.status ≡ executing
      → leads old (history a) ≡ true
      → leads old (history (ended r now a)) ≡ true
  unfolding validate_state_transition valid_action_transitions
  ended_led old r now a e h = elim (Bool-cases r.success) [
    | inl y ↦ rw y (leads_step old (history a) verifying h (rw e refl))
    | inr n ↦ rw n (leads_step old (history a) execution_failed h (rw e refl))
  ]

  ended_verifying :
      (r : ExecutionResult J) (now : ℕ) (a : Attempt J)
      → r.success ≡ true
      → (ended r now a).status ≡ verifying
  ended_verifying r now a h = ground (arith, h)

module _ {J S : Type 0} (sha256_hex : String → String) where
  verified_id :
      (action : RegisteredAction J S) (v : Verification) (a : Attempt J)
      → (verified sha256_hex action v a).action_id ≡ a.action_id
  unfolding verified
  verified_id action v a = ground arith

  verified_led :
      (old : List ActionStatus) (action : RegisteredAction J S) (v : Verification) (a : Attempt J)
      → a.status ≡ verifying
      → leads old (history a) ≡ true
      → leads old (history (verified sha256_hex action v a)) ≡ true
  unfolding verified validate_state_transition valid_action_transitions
  verified_led old action v a e h =
      let failed = leads_step old (history a) verification_failed h (rw e refl) in
      elim (Bool-cases v.passed) [
        | inl y ↦ rw y (leads_step old (history a) succeeded h (rw e refl))
        | inr n ↦ elim (Bool-cases (is_rollback_needed false action.rollback)) [
          | inl y ↦
              rw (n, y)
                (leads_step old (verification_failed ∷ history a) rollback_available failed refl)
          | inr m ↦ rw (n, m) failed
        ]
      ]

  after_execution_led :
      (old : List ActionStatus) (action : RegisteredAction J S)
      (o : Result String (ExecutionResult J)) (a : Attempt J) (moment : Moment) (b : Backend J)
      → a.status ≡ executing
      → leads old (history a) ≡ true
      → has_led old (lookup a.action_id b.attempts) ≡ true
      → has_led old (lookup a.action_id (after_execution sha256_hex action o a moment b).1.attempts)
        ≡ true
  unfolding after_execution
  after_execution_led old action (err m) a moment b s led h = h
  after_execution_led old action (ok r) a moment b s led h =
      let e = ended r moment.finished_at a in
      let v = verify_action (action.verify a.target r) in
      let led' = ended_led old r moment.finished_at a s led in
      elim (Bool-cases r.success) [
        | inl y ↦ ground (
          arith,
          y,
          closing_led old a.action_id (verified sha256_hex action v e) v.passed moment b
              (verified_id action v e ∙ ended_id r moment.finished_at a)
              (verified_led old action v e (ended_verifying r moment.finished_at a y) led'),
        )
        | inr n ↦ ground (
          arith,
          n,
          closing_led old a.action_id e false moment b (ended_id r moment.finished_at a) led',
        )
      ]

  run_action_led :
      (action : RegisteredAction J S) (a : Attempt J) (moment : Moment) (b : Backend J)
      → a.status ≡ approved
      → has_led
          (history a)
          (lookup a.action_id (run_action sha256_hex action a moment b).1.attempts)
        ≡ true
  unfolding run_action
  run_action_led action a moment b h =
      let snap = take_snapshot sha256_hex action a in
      let a' = begun sha256_hex snap moment.started_at a in
      let led : leads (history a) (history a') ≡ true =
        subst (λ s. leads (s ∷ a.earlier) (executing ∷ s ∷ a.earlier) ≡ true) (sym h)
          (led_executing a.earlier) in
      after_execution_led (history a) action (action.execute a.target a.parameters snap) a' moment
        (record (save a' b) { executed = ran a b }) refl led
        (rw (lookup-insert a.action_id a.action_id a' b.attempts)
          (ground (arith, eq_refl a.action_id, led)))

  registered-IsLegal :
      (o : Option (RegisteredAction J S)) (a : Attempt J) (moment : Moment) (b : Backend J)
      → a.status ≡ approved
      → lookup a.action_id b.attempts ≡ some a
      → IsLegal (history a) a.action_id (registered sha256_hex o a moment b)
  unfolding registered
  registered-IsLegal none a moment b h here = inl (unchanged_led a _ here)
  registered-IsLegal (some action) a moment b h here =
      let errors = joined (action.validate a.target a.parameters).1 in
      let halted : Attempt J = record (assign blocked a) {
        error = some errors;
        updated_at = moment.started_at;
      } in
      ground (
        arith,
        h,
        here,
        unchanged_led a (lookup a.action_id b.attempts) here,
        eq_refl a.action_id,
        lookup-insert a.action_id a.action_id halted b.attempts,
        run_action_led action a moment b h,
      )

  gated-IsLegal :
      (gate : Option Gate) (o : Option (RegisteredAction J S)) (a : Attempt J) (moment : Moment)
      (b : Backend J)
      → a.status ≡ approved
      → lookup a.action_id b.attempts ≡ some a
      → IsLegal (history a) a.action_id (gated sha256_hex gate o a moment b)
  unfolding gated
  gated-IsLegal (some gate) o a moment b h here = inl (unchanged_led a _ here)
  gated-IsLegal none o a moment b h here = registered-IsLegal o a moment b h here

  module _ (same_json : J → J → Bool)
      (get_action : String → String → Option (RegisteredAction J S)) where
    past_validation-IsLegal :
        (v : Bool × Option Invalid) (a : Attempt J) (moment : Moment) (b : Backend J)
        → a.status ≡ approved
        → lookup a.action_id b.attempts ≡ some a
        → IsLegal
            (history a)
            a.action_id
            (past_validation sha256_hex same_json get_action v a moment b)
    unfolding past_validation
    past_validation-IsLegal (false, reason) a moment b h here =
        let old : Attempt J = record (assign stale a) { updated_at = moment.checked_at } in
        inl (
          ground (
            arith,
            h,
            led_stale a.earlier,
            eq_refl a.action_id,
            lookup-insert a.action_id a.action_id old b.attempts,
          ))
    past_validation-IsLegal (true, reason) a moment b h here =
        gated-IsLegal (gate_of a moment b).0 (get_action a.action_type a.action_name) a moment
          (record b { devices = (gate_of a moment b).1 }) h here

    let_through :
        (a : Attempt J) (moment : Moment) (b : Backend J)
        → a.status ≡ approved
        → found_attempt sha256_hex same_json get_action (some a) moment b
          ≡ past_validation sha256_hex same_json get_action
              (checked same_json a moment b).0
              a
              moment
              (record b { database = (checked same_json a moment b).1 })
    unfolding found_attempt
    let_through a moment b h = rw h refl

    turned_away :
        (a : Attempt J) (moment : Moment) (b : Backend J)
        → same_status a.status approved ≡ false
        → (found_attempt sha256_hex same_json get_action (some a) moment b).1 ≡ b
    unfolding found_attempt
    turned_away a moment b h = ground (arith, h)

    found_attempt-IsLegal :
        (a : Attempt J) (moment : Moment) (b : Backend J)
        → lookup a.action_id b.attempts ≡ some a
        → IsLegal
            (history a)
            a.action_id
            (found_attempt sha256_hex same_json get_action (some a) moment b)
    found_attempt-IsLegal a moment b here = elim (Bool-cases (same_status a.status approved)) [
      | inr other ↦ inl (
          subst (λ b'. has_led (history a) (lookup a.action_id b'.attempts) ≡ true)
            (sym (turned_away a moment b other))
            (unchanged_led a (lookup a.action_id b.attempts) here))
      | inl same ↦
          let e = is_approved_status a.status same in
          subst (IsLegal (history a) a.action_id) (sym (let_through a moment b e)) (
            past_validation-IsLegal (checked same_json a moment b).0 a moment
              (record b { database = (checked same_json a moment b).1 }) e here)
    ]

    -- Executing an attempt, which is filed under its identifier, leaves its statuses as they are or
    -- adds to them one after the other, each by a step that is in the table of transitions from the
    -- one before, those that are assigned in passing included. There is one exception: where the
    -- action's own validation refuses it, `blocked` is added, to which the table has no step.
    pub execute-IsLegal :
        (action_id : String) (moment : Moment) (b : Backend J) (a : Attempt J)
        → lookup action_id b.attempts ≡ some a
        → a.action_id ≡ action_id
        → IsLegal
            (history a)
            action_id
            (execute_action sha256_hex same_json get_action action_id moment b)
          × (validate_state_transition approved blocked ≡ false)
    unfolding execute_action
    execute-IsLegal action_id moment b a here same = (
      subst
          (λ o.
            IsLegal (history a) action_id
              (found_attempt sha256_hex same_json get_action o moment b))
          (sym here)
          (subst
            (λ k.
              IsLegal (history a) k
                (found_attempt sha256_hex same_json get_action (some a) moment b))
            same
            (found_attempt-IsLegal a moment b
              (subst (λ k. lookup k b.attempts ≡ some a) (sym same) here))),
      no_step_to_blocked,
    )
