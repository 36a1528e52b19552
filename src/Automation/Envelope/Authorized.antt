-- ===== src/Automation/Envelope/Authorized.antt =====
-- What is certain of a request that passes every gate of `check_gates`.
use cyber_sage.Prelude.{
  ◌≡◌, ◌∙◌, inl, inr, refl, sym, ap, subst, Bool, true, false, Option, none, some, List, [], ◌∷◌,
  ◌++◌, arith, Bool-cases, ok, Result-cases, ok-injective,
}
use cyber_sage.Prelude.Dict.{}
use cyber_sage.Safety.KillSwitch.{}
use cyber_sage.Safety.CircuitBreaker.{}
use cyber_sage.Safety.RateLimiter.{}
use cyber_sage.Actions.Registry.{get_action}
use cyber_sage.Approval.Tables.{}
use cyber_sage.Approval.Manager.{}
use cyber_sage.Execution.Gates.{get_breaker}
use cyber_sage.Execution.State.{}
use cyber_sage.Automation.V5.Rules.{AutomationPolicyV5, EvaluationResult}
use cyber_sage.Automation.V5.Scope.{}
use cyber_sage.Automation.V5.Collecting.{}
use cyber_sage.Automation.V5.Evaluation.{evaluate_policies}
use cyber_sage.Automation.V5.Candidates.{}
use cyber_sage.Automation.Envelope.Grants.{}
use cyber_sage.Automation.Envelope.State.{
  GateResult, EnvelopeRequest, Setting, World, validate_envelope_request,
}
use cyber_sage.Automation.Envelope.Checks.{policy_gate, version_gate, matched_rule}
use cyber_sage.Automation.Envelope.Authority.{}
use cyber_sage.Automation.Envelope.Gates.{
  run_gates, evaluation_request, get_policy, leading, following, is_current, check_policy,
  check_gates,
}
use cyber_sage.Automation.Envelope.Report.{
  all_passed, Pass, run_gates-Pass, check_policy-stale, check_policy-current,
}
use cyber_sage.Automation.Envelope.Requirements.{Authorized}
use cyber_sage.Automation.Envelope.Passing.{
  policy_gate-live, version_gate-eq, switch_off, global_gate-memory, global_gate-agent,
  global_gate-persisted, scoped_gate-persisted, breaker_gate-allows, authorization_gate-deny,
  target_gate-valid, gates-Authority,
}

module _ {J S : Type 0} (s : Setting J S) (request : EnvelopeRequest J) where
  passed-Authorized :
      (q : Bool) (w w' : World J) (policy : AutomationPolicyV5) (fresh : EvaluationResult)
      → get_policy request.policy_id s.tables.policies ≡ some policy
      → evaluate_policies s.texts s.point
          (policy ∷ [])
          (evaluation_request request)
          s.clocks.evaluated_at
          false
        ≡ ok fresh
      → Pass (leading s request policy ++ following s request q policy fresh) w w'
      → Authorized s request w policy fresh
  passed-Authorized q w w' policy fresh found evaluated
        (p, (v, (i, (g, (k, (b, (l, (c, (t, (z, (m, (a, e)))))))))))) =
      record {
        is_found = found;
        is_live_policy = policy_gate-live policy s.clocks.active_at p;
        is_expected = version_gate-eq policy request.expected_policy_version v;
        is_evaluated = evaluated;
        not_denied = authorization_gate-deny fresh (matched_rule policy fresh) z;
        memory_off =
            global_gate-memory s.tables.session request.agent_key request.action_type
              w.devices.kill_switch (switch_off _ g);
        global_off =
            global_gate-persisted s.tables.session request.agent_key request.action_type
              w.devices.kill_switch (switch_off _ g);
        action_off =
            scoped_gate-persisted s.tables.session request.agent_key request.action_type _
              (switch_off _ k);
        agent_off =
            global_gate-agent s.tables.session request.agent_key request.action_type
              w.devices.kill_switch (switch_off _ g);
        breaker_allows =
            breaker_gate-allows (get_breaker request.action_type w.devices.breakers)
              request.action_type s.clocks.breaker_clock _ b;
        target_valid =
            target_gate-valid s request
              (get_action s.tables.registry request.action_type request.action_name) t;
        authority = gates-Authority s request w policy (matched_rule policy fresh) m a;
      }

  nothing_found :
      (q : Bool) (w : World J) (gs : List GateResult) (w' : World J)
      → check_policy s request q none w ≡ ok (gs, w')
      → all_passed gs ≡ false
  unfolding check_policy
  nothing_found q w gs w' h =
      sym (ap (λ (r : List GateResult × World J). all_passed r.0) (ok-injective h))

  stale_fails :
      (policy : AutomationPolicyV5) (w : World J)
      → is_current s request policy ≡ false
      → all_passed (run_gates (leading s request policy) 0 w).0 ≡ false
  unfolding run_gates
  stale_fails policy w h = elim (Bool-cases (policy_gate policy s.clocks.active_at).0) [
    | inr e ↦ rw e refl
    | inl e ↦
        let f : (version_gate policy request.expected_policy_version).0 ≡ false =
          ground (arith, h, e) in
        rw (e, f) refl
  ]

  found-Authorized :
      (q : Bool) (o : Option AutomationPolicyV5) (w w' : World J) (gs : List GateResult)
      → get_policy request.policy_id s.tables.policies ≡ o
      → check_policy s request q o w ≡ ok (gs, w')
      → all_passed gs ≡ true
      → (policy : AutomationPolicyV5) × (fresh : EvaluationResult) × Authorized s request w policy
          fresh
  found-Authorized q none w w' gs f h a = absurd (ground (arith, a, nothing_found q w gs w' h))
  found-Authorized q (some policy) w w' gs f h a = elim (Bool-cases (is_current s request policy)) [
    | inr e ↦ absurd (
        ground (
          arith,
          a,
          stale_fails policy w e,
          ap (λ (r : List GateResult × World J). all_passed r.0)
              (ok-injective (sym (check_policy-stale s request q policy w e) ∙ h)),
        ))
    | inl e ↦
        let (fresh, v, r) = check_policy-current s request q policy w gs w' e h in
        let cs = leading s request policy ++ following s request q policy fresh in
        (
          policy,
          fresh,
          passed-Authorized q w w' policy fresh f v (
              subst (Pass cs w) (ap (λ (p : List GateResult × World J). p.1) r) (
                run_gates-Pass cs 0 w
                  (ap (λ (p : List GateResult × World J). all_passed p.0) r ∙ a))),
        )
  ]

  -- If every gate passes, in an execution or a simulation, then the policy was found, enabled,
  -- unexpired and of the expected version, its evaluation does not deny, neither the kill switch
  -- in memory nor a persisted one, global, of the agent or of the action type, is on, the
  -- breaker of the action type allows it, the registered action accepts the target, and the
  -- request has authority: a bounded one a pre-authorized rule and an active grant of this
  -- version that covers it and whose runs are not used up, any other a valid approval for its
  -- decision, target and action type.
  pub check_gates-Authorized :
      (record_quota : Bool) (w w' : World J) (gs : List GateResult)
      → check_gates s request record_quota w ≡ ok (gs, w')
      → all_passed gs ≡ true
      → (policy : AutomationPolicyV5) × (fresh : EvaluationResult) × Authorized s request w policy
          fresh
  unfolding check_gates
  check_gates-Authorized q w w' gs h a =
      elim (Result-cases (validate_envelope_request s.texts s.point s.tables request)) [
        | inr (x, e) ↦ absurd (ground (arith, e, h))
        | inl (x, e) ↦
            found-Authorized q (get_policy request.policy_id s.tables.policies) w w' gs refl
              (ground (arith, h, e)) a
      ]
