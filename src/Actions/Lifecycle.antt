-- ===== src/Actions/Lifecycle.antt =====
-- `ActionStatus` and its table of transitions in guardian/actions/base.py. A status is a member of
-- the enumeration; the table's lookup with a default is total on them.
use cyber_sage.Prelude.{ℕ, Bool, false, List, [], ◌∷◌, ◌||◌, nat_eq}

pub data ActionStatus : Type 0 where
  planned awaiting_approval approved executing verifying succeeded : ActionStatus
  execution_failed verification_failed : ActionStatus
  rollback_available rollback_requested rollback_running : ActionStatus
  rollback_succeeded rollback_failed : ActionStatus
  rejected expired stale blocked : ActionStatus

unfoldable pub valid_action_transitions : ActionStatus → List ActionStatus
valid_action_transitions planned = awaiting_approval ∷ blocked ∷ []
valid_action_transitions awaiting_approval = approved ∷ rejected ∷ expired ∷ []
valid_action_transitions approved = executing ∷ stale ∷ expired ∷ []
valid_action_transitions executing = verifying ∷ execution_failed ∷ []
valid_action_transitions verifying = succeeded ∷ verification_failed ∷ []
valid_action_transitions execution_failed = rollback_available ∷ rollback_failed ∷ []
valid_action_transitions verification_failed = rollback_available ∷ rollback_failed ∷ []
valid_action_transitions rollback_available = rollback_requested ∷ blocked ∷ []
valid_action_transitions rollback_requested = rollback_running ∷ []
valid_action_transitions rollback_running = rollback_succeeded ∷ rollback_failed ∷ []
valid_action_transitions succeeded = []
valid_action_transitions rollback_succeeded = []
valid_action_transitions rollback_failed = []
valid_action_transitions rejected = []
valid_action_transitions expired = []
valid_action_transitions stale = []
valid_action_transitions blocked = []

-- The place of a status in the enumeration, by which statuses are told apart.
abbrev ordinal : ActionStatus → ℕ
ordinal planned = 0
ordinal awaiting_approval = 1
ordinal approved = 2
ordinal executing = 3
ordinal verifying = 4
ordinal succeeded = 5
ordinal execution_failed = 6
ordinal verification_failed = 7
ordinal rollback_available = 8
ordinal rollback_requested = 9
ordinal rollback_running = 10
ordinal rollback_succeeded = 11
ordinal rollback_failed = 12
ordinal rejected = 13
ordinal expired = 14
ordinal stale = 15
ordinal blocked = 16

abbrev pub same_status : ActionStatus → ActionStatus → Bool
same_status s t = nat_eq (ordinal s) (ordinal t)

abbrev pub among : ActionStatus → List ActionStatus → Bool
among s [] = false
among s (t ∷ ts) = same_status t s || among s ts

unfoldable pub validate_state_transition : ActionStatus → ActionStatus → Bool
unfolding valid_action_transitions
validate_state_transition current target = among target (valid_action_transitions current)
