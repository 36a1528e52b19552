-- ===== src/Automation/Envelope/Granted.antt =====
-- What `validate_grant_bounds` and `activate_grant` let into the table of grants.
use cyber_sage.Prelude.{
  Result, err, ℕ, ◌*◌, ◌≤◌, ◌<◌, String, ◌≡◌, ◌≢◌, refl, ◌∙◌, sym, ap, subst, true, false, Option,
  some, List, [], ◌∷◌, arith, All, length, eq_iff, ok, bind-ok, guard-ok, then-ok, ok-injective,
  not, ◌&&◌, leb, ltb,
}
use cyber_sage.Prelude.Dict.{Dict}
use cyber_sage.Actions.Registry.{is_registered}
use cyber_sage.Automation.V5.Rules.{Scope, Texts}
use cyber_sage.Automation.V5.Validation.{PolicyValidationError, validate_scope, has_length_of}
use cyber_sage.Automation.Envelope.Grants.{is_empty}
use cyber_sage.Automation.Envelope.Gates.{}
use cyber_sage.Automation.Envelope.Granting.{
  same_texts, required_safety_gates, scope_checked, read_expiry, scope_given, policy_id_length,
  no_target_scope, risk_range, executions_range, cooldown_range, expiry_past, gates_differ,
  reason_length, same_texts, required_safety_gates, no_actions, too_many_actions, gates_given,
  GrantPayload, Bounds, action_checked, check_actions, validate_allowed_actions,
  validate_grant_bounds,
}

-- An action that is registered and not a wildcard.
abbrev pub IsConcrete : {A : Type 0} → Dict A → String × String → Type 0
IsConcrete registry action =
    (is_registered registry action.0 action.1 ≡ true) × (action.0 ≢ "*") × (action.1 ≢ "*")

-- The limits of a grant that was validated at `now`.
pub record WithinLimits {A : Type 0} (registry : Dict A) (point now : ℕ) (b : Bounds) : Type 0 where
  pub some_action : 1 ≤ length b.allowed_actions
  pub actions_bounded : length b.allowed_actions ≤ 25
  pub actions_concrete : All (IsConcrete registry) b.allowed_actions
  pub scoped : is_empty b.target_scope ≡ false
  pub risk_bounded : b.max_risk_score ≤ 100 * point
  pub runs_positive : 1 ≤ b.max_executions_per_hour
  pub runs_bounded : b.max_executions_per_hour ≤ 1000
  pub cooldown_bounded : b.cooldown_seconds ≤ 86400
  pub in_future : now < b.expires_at

-- What of the payload each limit is read from.
pub record IsReadFrom (t : Texts) (from_iso : String → Option ℕ) (payload : GrantPayload)
    (b : Bounds) : Type 0 where
  pub same_policy : b.policy_id ≡ payload.policy_id
  pub same_actions : b.allowed_actions ≡ payload.allowed_actions
  pub target_read : validate_scope t payload.target_scope ≡ ok b.target_scope
  pub agent_read : validate_scope t (some (scope_given payload.agent_scope)) ≡ ok b.agent_scope
  pub same_risk : b.max_risk_score ≡ payload.max_risk_score
  pub same_runs : b.max_executions_per_hour ≡ payload.max_executions_per_hour
  pub same_cooldown : b.cooldown_seconds ≡ payload.cooldown_seconds
  pub expiry_read : read_expiry from_iso payload.expires_at ≡ ok b.expires_at
  pub all_gates : same_texts b.safety_gates required_safety_gates ≡ true
  pub same_reason : b.reason ≡ payload.reason
  pub same_rollback : b.rollback_required ≡ payload.rollback_required

scope_checked-ok :
    (r : Result PolicyValidationError Scope) (scope : Scope)
    → scope_checked r ≡ ok scope
    → r ≡ ok scope
scope_checked-ok (ok s) scope h = ap ok (ok-injective h)
scope_checked-ok (err e) scope h = absurd (ground (arith, h))

module _ {A : Type 0} (registry : Dict A) where
  action_checked-IsConcrete :
      (seen : List (String × String)) (action : String × String)
      → action_checked registry seen action ≡ ok tt
      → IsConcrete registry action
  unfolding action_checked
  action_checked-IsConcrete seen action h = (
    ground (arith, h),
    λ e. absurd (ground (arith, h, (eq_iff action.0 "*").1 e)),
    λ e. absurd (ground (arith, h, (eq_iff action.1 "*").1 e)),
  )

  check_actions-IsConcrete :
      (seen actions cleaned : List (String × String))
      → check_actions registry seen actions ≡ ok cleaned
      → (cleaned ≡ actions) × All (IsConcrete registry) actions
  unfolding check_actions
  check_actions-IsConcrete seen [] cleaned h = (sym (ok-injective h), tt)
  check_actions-IsConcrete seen (action ∷ actions) cleaned h =
      let (u, e, h1) = then-ok (action_checked registry seen action) _ _ h in
      let (rest, f, g) = bind-ok (check_actions registry (action ∷ seen) actions) _ _ h1 in
      let (same, all) = check_actions-IsConcrete (action ∷ seen) actions rest f in
      (sym (ok-injective g) ∙ ap (◌∷◌ action) same, (action_checked-IsConcrete seen action e, all))

  validate_allowed_actions-IsConcrete :
      (actions cleaned : List (String × String))
      → validate_allowed_actions registry actions ≡ ok cleaned
      → (cleaned ≡ actions)
        × (1 ≤ length cleaned)
        × (length cleaned ≤ 25)
        × All (IsConcrete registry) cleaned
  unfolding validate_allowed_actions
  validate_allowed_actions-IsConcrete actions cleaned h =
      let (some_action, h1) = guard-ok (leb 1 (length actions)) no_actions _ _ h in
      let (bounded, h2) = guard-ok (leb (length actions) 25) too_many_actions _ _ h1 in
      let (same, concrete) = check_actions-IsConcrete [] actions cleaned h2 in
      subst (λ c. (c ≡ actions) × (1 ≤ length c) × (length c ≤ 25) × All (IsConcrete registry) c)
        (sym same) (refl, ground (arith, some_action), ground (arith, bounded), concrete)

  pub validate_grant_bounds-WithinLimits :
      (t : Texts) (from_iso : String → Option ℕ) (point now : ℕ) (payload : GrantPayload)
      (b : Bounds)
      → validate_grant_bounds registry t from_iso point now payload ≡ ok b
      → IsReadFrom t from_iso payload b × WithinLimits registry point now b
  unfolding validate_grant_bounds
  validate_grant_bounds-WithinLimits t from_iso point now payload b h =
      let (id_ok, h1) = guard-ok (has_length_of 128 payload.policy_id) policy_id_length _ _ h in
      let (actions, a, h2) =
        bind-ok (validate_allowed_actions registry payload.allowed_actions) _ _ h1 in
      let (target, s, h3) =
        bind-ok (scope_checked (validate_scope t payload.target_scope)) _ _ h2 in
      let (nonempty, h4) = guard-ok (not (is_empty target)) no_target_scope _ _ h3 in
      let (agent, s', h5) =
        bind-ok (scope_checked (validate_scope t (some (scope_given payload.agent_scope)))) _ _
          h4 in
      let (risk, h6) = guard-ok (leb payload.max_risk_score (100 * point)) risk_range _ _ h5 in
      let (runs, h7) =
        guard-ok (leb 1 payload.max_executions_per_hour && leb payload.max_executions_per_hour 1000)
          executions_range _ _ h6 in
      let (cooldown, h8) = guard-ok (leb payload.cooldown_seconds 86400) cooldown_range _ _ h7 in
      let (expires, x, h9) = bind-ok (read_expiry from_iso payload.expires_at) _ _ h8 in
      let (future, h10) = guard-ok (ltb now expires) expiry_past _ _ h9 in
      let (gates, h11) =
        guard-ok (same_texts (gates_given payload.safety_gates) required_safety_gates) gates_differ
          _ _ h10 in
      let (reason, h12) = guard-ok (has_length_of 2048 payload.reason) reason_length _ _ h11 in
      let (listed, some_action, bounded, concrete) =
        validate_allowed_actions-IsConcrete payload.allowed_actions actions a in
      let built : Bounds = record {
        policy_id = payload.policy_id;
        allowed_actions = actions;
        target_scope = target;
        agent_scope = agent;
        max_risk_score = payload.max_risk_score;
        max_executions_per_hour = payload.max_executions_per_hour;
        cooldown_seconds = payload.cooldown_seconds;
        expires_at = expires;
        safety_gates = gates_given payload.safety_gates;
        reason = payload.reason;
        rollback_required = payload.rollback_required;
      } in
      let same : built ≡ b = ok-injective h12 in
      subst (λ c. IsReadFrom t from_iso payload c × WithinLimits registry point now c) same
        (
          record {
            same_policy = refl;
            same_actions = listed;
            target_read = scope_checked-ok (validate_scope t payload.target_scope) target s;
            agent_read =
                scope_checked-ok (validate_scope t (some (scope_given payload.agent_scope))) agent
                  s';
            same_risk = refl;
            same_runs = refl;
            same_cooldown = refl;
            expiry_read = x;
            all_gates = gates;
            same_reason = refl;
            same_rollback = refl;
          },
          record {
            some_action = some_action;
            actions_bounded = bounded;
            actions_concrete = concrete;
            scoped = ground (arith, nonempty);
            risk_bounded = ground (arith, risk);
            runs_positive = ground (arith, runs);
            runs_bounded = ground (arith, runs);
            cooldown_bounded = ground (arith, cooldown);
            in_future = ground (arith, future);
          },
        )
