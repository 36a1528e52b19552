-- ===== src/Automation/Envelope/Passing.antt =====
-- What is certain where a single gate of `check_gates` passes.
use cyber_sage.Prelude.{
  ℕ, String, ◌≡◌, inl, inr, refl, subst, Bool, true, false, Option, none, some, arith, Bool-cases,
  Option-cases, truthy,
}
use cyber_sage.Prelude.Dict.{Dict}
use cyber_sage.Safety.KillSwitch.{agent, KillSwitch, global, action, is_blocked}
use cyber_sage.Safety.CircuitBreaker.{CircuitBreaker, allow_action}
use cyber_sage.Safety.RateLimiter.{}
use cyber_sage.Actions.Registry.{}
use cyber_sage.Approval.Tables.{Database}
use cyber_sage.Approval.Manager.{validate_for_execution}
use cyber_sage.Execution.Gates.{Session, Devices, is_persisted_active}
use cyber_sage.Execution.State.{RegisteredAction}
use cyber_sage.Automation.V5.Rules.{Value, PolicyRuleV5, AutomationPolicyV5, EvaluationResult}
use cyber_sage.Automation.V5.Scope.{}
use cyber_sage.Automation.V5.Collecting.{is_deny}
use cyber_sage.Automation.V5.Evaluation.{}
use cyber_sage.Automation.V5.Candidates.{is_live}
use cyber_sage.Automation.Envelope.Grants.{Grant, grant_covers_request, get_grant}
use cyber_sage.Automation.Envelope.State.{EnvelopeRequest, Setting, World}
use cyber_sage.Automation.Envelope.Checks.{
  persisted_for, policy_gate, version_gate, global_gate, scoped_blocked, scoped_gate,
  switch_verdict, breaker_gate,
}
use cyber_sage.Automation.Envelope.Authority.{
  asks_pre_authorized, authorization_gate, target_gate, grant_verdict, check_grant_for_request,
  is_bounded, preauth_gate, approval_gate,
}
use cyber_sage.Automation.Envelope.Gates.{}
use cyber_sage.Automation.Envelope.Report.{}
use cyber_sage.Automation.Envelope.Requirements.{GrantCovers, Authority, granted, approved}

pub policy_gate-live :
    (policy : AutomationPolicyV5) (now : ℕ)
    → (policy_gate policy now).0 ≡ true
    → is_live now policy ≡ true
unfolding policy_gate
policy_gate-live policy now h = ground (arith, h)

pub version_gate-eq :
    (policy : AutomationPolicyV5) (v : ℕ) → (version_gate policy v).0 ≡ true → policy.version ≡ v
unfolding version_gate
version_gate-eq policy v h = ground (arith, h)

pub switch_off : (b : Bool) → (switch_verdict b).0 ≡ true → b ≡ false
switch_off true h = absurd (ground (arith, h))
switch_off false h = refl

pub global_gate-memory :
    (session : Session) (agent_key : Option String) (action_type : String) (ks : KillSwitch)
    → (global_gate session agent_key action_type ks).0 ≡ false
    → (is_blocked global "global" agent_key (some action_type) ks).0.0 ≡ false
unfolding global_gate
global_gate-memory session agent_key action_type ks h = ground (arith, h)

pub global_gate-persisted :
    (session : Session) (agent_key : Option String) (action_type : String) (ks : KillSwitch)
    → (global_gate session agent_key action_type ks).0 ≡ false
    → is_persisted_active global "global" session ≡ false
unfolding global_gate
global_gate-persisted session agent_key action_type ks h = ground (arith, h)

pub global_gate-agent :
    (session : Session) (agent_key : Option String) (action_type : String) (ks : KillSwitch)
    → (global_gate session agent_key action_type ks).0 ≡ false
    → persisted_for session agent agent_key ≡ false
unfolding global_gate
global_gate-agent session agent_key action_type ks h = ground (arith, h)

pub scoped_gate-persisted :
    (session : Session) (agent_key : Option String) (action_type : String) (ks : KillSwitch)
    → (scoped_gate session agent_key action_type ks).0 ≡ false
    → is_persisted_active action action_type session ≡ false
unfolding scoped_gate scoped_blocked
scoped_gate-persisted session agent_key action_type ks h = ground (arith, h)

pub breaker_gate-allows :
    (o : Option CircuitBreaker) (action_type : String) (clock : Option ℕ) (d : Devices)
    → (breaker_gate o action_type clock d).0.0 ≡ true
    → (cb : CircuitBreaker) × (o ≡ some cb) × ((allow_action cb clock).0 ≡ true)
unfolding breaker_gate
breaker_gate-allows none action_type clock d h = absurd (ground (arith, h))
breaker_gate-allows (some cb) action_type clock d h = (cb, refl, ground (arith, h))

pub authorization_gate-deny :
    (fresh : EvaluationResult) (rule : Option PolicyRuleV5)
    → (authorization_gate fresh rule).0 ≡ true
    → is_deny fresh.decision ≡ false
unfolding authorization_gate
authorization_gate-deny fresh rule h = ground (arith, h)

module _ {J S : Type 0} (s : Setting J S) (request : EnvelopeRequest J) where
  pub target_gate-valid :
      (o : Option (RegisteredAction (Dict (Value J)) S))
      → (target_gate o request).0 ≡ true
      → (a : RegisteredAction (Dict (Value J)) S) × (o ≡ some a)
        × ((a.validate request.target request.parameters).0 ≡ true)
  unfolding target_gate
  target_gate-valid none h = absurd (ground (arith, h))
  target_gate-valid (some a) h = (a, refl, ground (arith, h))

  grant_verdict-covers :
      (policy : AutomationPolicyV5) (grant : Grant)
      → get_grant policy.policy_id s.tables.grants ≡ some grant
      → (grant_verdict s.texts
          (some grant)
          policy
          request
          s.clocks.covered_at
          s.clocks.frequency_at
          s.tables.runs).0
        ≡ true
      → GrantCovers s request policy grant
  unfolding grant_verdict grant_covers_request
  grant_verdict-covers policy grant e h = record {
    is_granted = e;
    is_active = ground (arith, h);
    same_version = ground (arith, h);
    not_over = ground (arith, h);
    action_listed = ground (arith, h);
    risk_within = ground (arith, h);
    target_within = ground (arith, h);
    agent_within = ground (arith, h);
    runs_below = ground (arith, h);
  }

  no_grant_refused :
      (policy : AutomationPolicyV5)
      → (grant_verdict s.texts none policy request s.clocks.covered_at s.clocks.frequency_at
          s.tables.runs).0
        ≡ false
  unfolding grant_verdict
  no_grant_refused policy = refl

  preauth_gate-grant :
      (rule : Option PolicyRuleV5) (policy : AutomationPolicyV5)
      → (preauth_gate true rule (
          check_grant_for_request s.texts s.tables.grants policy request s.clocks.covered_at
            s.clocks.frequency_at s.tables.runs)).0
        ≡ true
      → (asks_pre_authorized rule ≡ true) × ((grant : Grant) × GrantCovers s request policy grant)
  unfolding preauth_gate check_grant_for_request
  preauth_gate-grant rule policy h =
      elim (Option-cases (get_grant policy.policy_id s.tables.grants)) [
        | inl e ↦ absurd (
            ground (
              arith,
              no_grant_refused policy,
              subst
                  (λ o.
                    (grant_verdict s.texts o policy request s.clocks.covered_at
                      s.clocks.frequency_at s.tables.runs).0
                    ≡ true)
                  e (ground (arith, h)),
            ))
        | inr (grant, e) ↦ (
          ground (arith, h),
          (
            grant,
            grant_verdict-covers policy grant e (
                subst
                  (λ o.
                    (grant_verdict s.texts o policy request s.clocks.covered_at
                      s.clocks.frequency_at s.tables.runs).0
                    ≡ true)
                  e (ground (arith, h))),
          ),
        )
      ]

  approval_gate-approves :
      (now : ℕ) (db : Database (Dict (Value J)))
      → (approval_gate s.same_json false request now db).0.0 ≡ true
      → (id : String) × (truthy request.approval_id ≡ some id)
        × ((validate_for_execution s.same_json id request.decision_id request.target
              request.action_type now db).0.0
            ≡ true)
  unfolding approval_gate
  approval_gate-approves now db h = elim (Option-cases (truthy request.approval_id)) [
    | inl e ↦ absurd (ground (arith, h, e))
    | inr (id, e) ↦ (id, e, ground (arith, h, e))
  ]

  pub gates-Authority :
      (w : World J) (policy : AutomationPolicyV5) (rule : Option PolicyRuleV5)
      → (preauth_gate (is_bounded s.texts request) rule (
          check_grant_for_request s.texts s.tables.grants policy request s.clocks.covered_at
            s.clocks.frequency_at s.tables.runs)).0
        ≡ true
      → (approval_gate s.same_json
          (is_bounded s.texts request)
          request
          s.clocks.approved_at
          w.database).0.0
        ≡ true
      → Authority s request w policy rule
  gates-Authority w policy rule p a = elim (Bool-cases (is_bounded s.texts request)) [
    | inl e ↦
        let (r, (grant, c)) = preauth_gate-grant rule policy (
          subst
            (λ b.
              (preauth_gate b rule (
                check_grant_for_request s.texts s.tables.grants policy request s.clocks.covered_at
                  s.clocks.frequency_at s.tables.runs)).0
              ≡ true)
            e p) in
        granted grant e r c
    | inr e ↦
        let (id, f, v) = approval_gate-approves s.clocks.approved_at w.database (
          subst
            (λ b. (approval_gate s.same_json b request s.clocks.approved_at w.database).0.0 ≡ true)
            e a) in
        approved id e f v
  ]
