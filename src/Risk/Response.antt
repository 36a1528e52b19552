-- ===== src/Risk/Response.antt =====
-- guardian/policy/engine.py: the response that is recommended for a score. The decision's
-- identifier, the time and the formatting of numbers are arguments.
use cyber_sage.Prelude.{
  ℕ, String, Bool, true, false, Option, List, [], ◌∷◌, leb, if◌then◌else◌, length, take, concat,
}
use cyber_sage.Risk.Engine.{Factor}

pub data ResponseAction : Type 0 where
  monitor investigate approve_containment prepare_containment : ResponseAction

pub record RiskSummary (C : Type 0) : Type 0 where
  pub score : ℕ
  pub severity : String
  pub confidence : C
  pub factors : List Factor

pub record ResponseDecision (C E : Type 0) : Type 0 where
  pub decision_id : String
  pub incident_id : Option String
  pub severity : String
  pub confidence : C
  pub recommended_action : ResponseAction
  pub rationale : String
  pub evidence : List E
  pub expected_effect : String
  pub risk : RiskSummary C
  pub requires_approval : Bool
  pub rollback_available : Bool
  pub verification_plan : String
  pub created_at : ℕ

unfoldable pub action_for : ℕ → ResponseAction
action_for score =
    if leb 85 score
    then prepare_containment
    else if leb 65 score
    then approve_containment
    else if leb 40 score
    then investigate
    else monitor

-- APPROVAL_REQUIRED_ACTIONS and ROLLBACK_CAPABLE_ACTIONS have the same members.
unfoldable pub is_approval_required : ResponseAction → Bool
is_approval_required approve_containment = true
is_approval_required prepare_containment = true
is_approval_required _ = false

unfoldable pub is_rollback_capable : ResponseAction → Bool
is_rollback_capable approve_containment = true
is_rollback_capable prepare_containment = true
is_rollback_capable _ = false

rationale_end : ResponseAction → String
rationale_end prepare_containment = "indicates active threat. Prepare containment pending approval."
rationale_end approve_containment = "requires containment. Awaiting explicit user approval."
rationale_end investigate = "requires investigation before determining next steps."
rationale_end monitor = "is within normal bounds. Continue monitoring."

expected_effect_of : ResponseAction → String
expected_effect_of monitor = "Continue collecting telemetry. No system changes."
expected_effect_of investigate = "Analyst reviews evidence and determines response."
expected_effect_of approve_containment = "Pending user approval to isolate affected components."
expected_effect_of prepare_containment = "Prepare containment measures pending final approval."

verification_plan_of : ResponseAction → String
verification_plan_of monitor = "Verify continued event ingestion and detection output."
verification_plan_of investigate =
    "Verify analyst receives evidence package and investigation ticket."
verification_plan_of approve_containment =
    "Verify approval is recorded before any containment executes."
verification_plan_of prepare_containment =
    "Verify containment preparation is logged and rollback is available."

build_rationale : (one_decimal show_int : ℕ → String) → ResponseAction → ℕ → String → ℕ → String
unfolding rationale_end
build_rationale one_decimal show_int action score severity count = concat (
    "Risk score "
    ∷ one_decimal score
    ∷ " ("
    ∷ severity
    ∷ ") with "
    ∷ show_int count
    ∷ " evidence signals "
    ∷ rationale_end action
    ∷ [])

module _ {C E : Type 0} (one_decimal show_int : ℕ → String) where
  unfoldable pub evaluate :
      ℕ
      → String
      → C
      → List Factor
      → List E
      → Option String
      → (decision_id : String) (now : ℕ) → ResponseDecision C E
  unfolding build_rationale expected_effect_of verification_plan_of
  evaluate score severity confidence factors evidence incident_id decision_id now =
      let action = action_for score in
      record {
        decision_id = decision_id;
        incident_id = incident_id;
        severity = severity;
        confidence = confidence;
        recommended_action = action;
        rationale = build_rationale one_decimal show_int action score severity (length evidence);
        evidence = take 10 evidence;
        expected_effect = expected_effect_of action;
        risk = record {
          score = score;
          severity = severity;
          confidence = confidence;
          factors = factors;
        };
        requires_approval = is_approval_required action;
        rollback_available = is_rollback_capable action;
        verification_plan = verification_plan_of action;
        created_at = now;
      }
