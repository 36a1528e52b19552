-- ===== src/Execution/Routes.antt =====
-- The statuses that `execute_action` of backend/api_guardian_phase3.py writes one after the other,
-- against the table of transitions of guardian/actions/base.py.
use cyber_sage.Prelude.{
  List, [], ◌∷◌, ◌||◌, ◌&&◌, String, ◌≡◌, refl, Bool, true, false, Option, none, some, ◌⊎◌, arith,
}
use cyber_sage.Prelude.Dict.{lookup}
use cyber_sage.Actions.Lifecycle.{
  ActionStatus, approved, executing, stale, blocked, same_status, valid_action_transitions,
  validate_state_transition,
}
use cyber_sage.Approval.Manager.{}
use cyber_sage.Execution.Gates.{}
use cyber_sage.Execution.State.{Attempt, Backend, Answer, refused, history}
use cyber_sage.Execution.Handler.{}

unfoldable pub same_history : (ss ts : List ActionStatus) → Bool
same_history [] [] = true
same_history (s ∷ ss) (t ∷ ts) = same_status s t && same_history ss ts
same_history _ _ = false

-- The table has a step from the last of the statuses to `t`.
abbrev pub steps_from : List ActionStatus → ActionStatus → Bool
steps_from [] t = false
steps_from (s ∷ ss) t = validate_state_transition s t

-- The new history is the old one, or adds to it statuses each of which the table leads to from the
-- one before. The last status of a history is first.
unfoldable pub leads : (old new : List ActionStatus) → Bool
unfolding same_history
leads old [] = same_history [] old
leads old (t ∷ new) = same_history (t ∷ new) old || (steps_from new t && leads old new)

same_status_self : (s : ActionStatus) → same_status s s ≡ true
same_status_self s = ground arith

same_history_self : (ss : List ActionStatus) → same_history ss ss ≡ true
unfolding same_history
same_history_self [] = refl
same_history_self (s ∷ ss) = ground (arith, same_status_self s, same_history_self ss)

-- The attempt is there, and the table leads to its history from `old`.
abbrev pub has_led : {J : Type 0} → List ActionStatus → Option (Attempt J) → Bool
has_led old none = false
has_led old (some a) = leads old (history a)

abbrev pub history_of : {J : Type 0} → Option (Attempt J) → List ActionStatus
history_of none = []
history_of (some a) = history a

leads_self : (ss : List ActionStatus) → leads ss ss ≡ true
unfolding leads
leads_self [] = same_history_self []
leads_self (s ∷ ss) = ground (arith, same_history_self (s ∷ ss))

pub leads_step :
    (old new : List ActionStatus) (t : ActionStatus)
    → leads old new ≡ true
    → steps_from new t ≡ true
    → leads old (t ∷ new) ≡ true
unfolding leads
leads_step old new t h e = ground (arith, h, e)

pub unchanged_led :
    {J : Type 0} (a : Attempt J) (o : Option (Attempt J))
    → o ≡ some a
    → has_led (history a) o ≡ true
unchanged_led a o h = rw h (leads_self (history a))

-- The table leads to the new history, or the answer is that the action's own validation refused it
-- and `blocked` is added to the history.
abbrev pub IsLegal : {J : Type 0} → List ActionStatus → String → Answer × Backend J → Type 0
IsLegal old k r =
    (has_led old (lookup k r.1.attempts) ≡ true)
    ⊎ ((r.0 ≡ refused) × (history_of (lookup k r.1.attempts) ≡ blocked ∷ old))

-- Where the table leads from `approved`, as far as the handler goes.
module _ (ss : List ActionStatus) where
  pub led_executing : leads (approved ∷ ss) (executing ∷ approved ∷ ss) ≡ true
  unfolding validate_state_transition valid_action_transitions
  led_executing =
      leads_step (approved ∷ ss) (approved ∷ ss) executing (leads_self (approved ∷ ss)) refl

  pub led_stale : leads (approved ∷ ss) (stale ∷ approved ∷ ss) ≡ true
  unfolding validate_state_transition valid_action_transitions
  led_stale = leads_step (approved ∷ ss) (approved ∷ ss) stale (leads_self (approved ∷ ss)) refl

pub no_step_to_blocked : validate_state_transition approved blocked ≡ false
unfolding validate_state_transition valid_action_transitions
no_step_to_blocked = refl
