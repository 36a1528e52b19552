-- ===== src/Automation/V5/Collecting.antt =====
-- The loop of `evaluate_policies` in guardian/automation/policy_v5.py over the policies and their rules.
use cyber_sage.Prelude.{ℕ, suc, Bool, true, false, not, ◌&&◌, List, [], ◌∷◌, ◌++◌, if◌then◌else◌}
use cyber_sage.Prelude.TextOrder.{}
use cyber_sage.Prelude.Sorting.{Precedence}
use cyber_sage.Automation.Policy.{AutomationMode, disabled, prepare_only, PolicyDecision, deny}
use cyber_sage.Automation.V5.Rules.{
  Texts, PolicyRuleV5, AutomationPolicyV5, is_expired, EvaluationRequest,
}
use cyber_sage.Automation.V5.Validation.{}
use cyber_sage.Automation.V5.Scope.{scope_specificity, rule_matches}
use cyber_sage.Automation.V5.Precedence.{
  Key, key_leb, key_leb-total, key_leb_trans, candidate_sort_key,
}

-- A matching rule with its policy and the specificity of its scope.
pub record Candidate : Type 0 where
  pub key : Key
  pub policy : AutomationPolicyV5
  pub rule : PolicyRuleV5
  pub specificity : ℕ

-- `.sort(key=lambda e: e[0])`
abbrev pub by_key : Precedence Candidate
by_key = record {
  before = λ c d. key_leb c.key d.key;
  total = λ c d. key_leb-total c.key d.key;
  trans = λ c d e. key_leb_trans c.key d.key e.key;
}

-- The variables of the loop over the policies.
pub record Buckets : Type 0 where
  pub evaluated : ℕ
  pub denies : List Candidate
  pub allows : List Candidate

abbrev pub is_deny : PolicyDecision → Bool
is_deny deny = true
is_deny _ = false

abbrev pub is_prepare_only : AutomationMode → Bool
is_prepare_only prepare_only = true
is_prepare_only _ = false

abbrev pub is_disabled : AutomationMode → Bool
is_disabled disabled = true
is_disabled _ = false

abbrev pub candidate : AutomationPolicyV5 → PolicyRuleV5 → Candidate
candidate policy rule =
    let spec = scope_specificity rule.target_scope in
    record {
      key = candidate_sort_key policy rule spec;
      policy = policy;
      rule = rule;
      specificity = spec;
    }

module _ (t : Texts) {J : Type 0} (request : EvaluationRequest J) where
  abbrev pub matches_request : PolicyRuleV5 → Bool
  matches_request rule =
      rule_matches t rule request.action_type request.action_name request.risk_score
        request.incident_severity request.target

  -- The body of the inner loops: of a prepare-only policy every matching rule goes to `allows`.
  unfoldable pub add_rule : AutomationPolicyV5 → PolicyRuleV5 → Buckets → Buckets
  add_rule policy rule b =
      if not (matches_request rule)
      then b
      else if not (is_prepare_only policy.mode) && is_deny rule.decision
      then record b { denies = b.denies ++ candidate policy rule ∷ [] }
      else record b { allows = b.allows ++ candidate policy rule ∷ [] }

  unfoldable pub add_rules : AutomationPolicyV5 → List PolicyRuleV5 → Buckets → Buckets
  add_rules policy [] b = b
  add_rules policy (rule ∷ rules) b = add_rules policy rules (add_rule policy rule b)

  unfoldable pub add_policy : ℕ → AutomationPolicyV5 → Buckets → Buckets
  add_policy moment policy b =
      if not policy.enabled
      then b
      else if is_disabled policy.mode
      then b
      else if is_expired policy moment
      then b
      else add_rules policy policy.rules (record b { evaluated = suc b.evaluated })

  unfoldable pub add_policies : ℕ → List AutomationPolicyV5 → Buckets → Buckets
  add_policies moment [] b = b
  add_policies moment (policy ∷ policies) b =
      add_policies moment policies (add_policy moment policy b)

abbrev pub no_buckets : Buckets
no_buckets = record { evaluated = 0; denies = []; allows = [] }
