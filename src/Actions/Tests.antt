-- ===== src/Actions/Tests.antt =====
-- Lifecycles and rollbacks of guardian/actions on small inputs.
use cyber_sage.Prelude.{ℕ, ◌≤◌, String, ◌≡◌, refl, true, none, some, List, [], ◌∷◌, length, ok}
use cyber_sage.Actions.Lifecycle.{
  ActionStatus, planned, awaiting_approval, approved, executing, verifying, verification_failed,
  rollback_available, rollback_requested, rollback_running, rollback_succeeded,
  validate_state_transition,
}
use cyber_sage.Actions.Legality.{
  is_lifecycle, steps_left, lifecycle_bounded, executing_needs_approval,
}
use cyber_sage.Actions.Rollback.{RollbackResult, Action}

abbrev longest : List ActionStatus
longest =
    awaiting_approval ∷ approved ∷ executing ∷ verifying ∷ verification_failed ∷ rollback_available
    ∷ rollback_requested ∷ rollback_running ∷ rollback_succeeded ∷ []

longest-is_lifecycle : is_lifecycle planned longest ≡ true
unfolding validate_state_transition
longest-is_lifecycle = refl

lifecycle_bounded_example : length longest ≤ steps_left planned
lifecycle_bounded_example = lifecycle_bounded planned longest longest-is_lifecycle

executing_needs_approval_example :
    (rest : List ActionStatus) × (longest ≡ awaiting_approval ∷ approved ∷ executing ∷ rest)
executing_needs_approval_example = executing_needs_approval longest longest-is_lifecycle refl

abbrev done : RollbackResult String
done = record { success = true; output = some "restored"; error = none }

abbrev unblock : Action String ℕ String
unblock = record { rollback_supported = true; rollback = λ target snapshot. ok done }
