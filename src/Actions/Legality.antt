-- ===== src/Actions/Legality.antt =====
-- What the transition table of guardian/actions/base.py allows over a whole lifecycle.
use cyber_sage.Prelude.{
  ℕ, ◌≤◌, ◌<◌, ◌≡◌, refl, Bool, true, List, [], ◌∷◌, ◌||◌, ◌&&◌, arith, length, ◌⊎◌, inl,
}
use cyber_sage.Actions.Lifecycle.{
  ActionStatus, planned, awaiting_approval, approved, executing, verifying, execution_failed,
  verification_failed, rollback_available, rollback_requested, rollback_running, among,
  validate_state_transition,
}

-- A sequence of statuses in which each step is allowed.
abbrev pub is_lifecycle : ActionStatus → List ActionStatus → Bool
is_lifecycle s [] = true
is_lifecycle s (t ∷ ts) = validate_state_transition s t && is_lifecycle t ts

-- How many steps are left at most.
abbrev pub steps_left : ActionStatus → ℕ
steps_left planned = 9
steps_left awaiting_approval = 8
steps_left approved = 7
steps_left executing = 6
steps_left verifying = 5
steps_left execution_failed = 4
steps_left verification_failed = 4
steps_left rollback_available = 3
steps_left rollback_requested = 2
steps_left rollback_running = 1
steps_left _ = 0

step_falls :
    (s t : ActionStatus) → validate_state_transition s t ≡ true → steps_left t < steps_left s
unfolding validate_state_transition
step_falls s t h = ground arith

-- No lifecycle is longer than the steps that its first status has left: an action that is planned
-- ends after nine changes of status at most.
pub lifecycle_bounded :
    (s : ActionStatus) (ts : List ActionStatus)
    → is_lifecycle s ts ≡ true
    → length ts ≤ steps_left s
lifecycle_bounded s [] h = omega arith
lifecycle_bounded s (t ∷ ts) h = ground (arith, step_falls s t, lifecycle_bounded t ts)

dead_end :
    (s : ActionStatus) (ts : List ActionStatus)
    → steps_left s ≡ 0
    → is_lifecycle s ts ≡ true
    → ts ≡ []
dead_end s [] h legal = refl
dead_end s (t ∷ ts) h legal = absurd (ground (arith, step_falls s t))

first_three :
    (a b c : ActionStatus) (rest : List ActionStatus)
    → is_lifecycle planned (a ∷ b ∷ c ∷ rest) ≡ true
    → (a ≡ awaiting_approval) × (b ≡ approved) × ((c ≡ executing) ⊎ (steps_left c ≡ 0))
unfolding validate_state_transition
first_three a b c rest h = ground arith

first_not_executing :
    (a : ActionStatus) → is_lifecycle planned (a ∷ []) ≡ true → ¬ (among executing (a ∷ []) ≡ true)
unfolding validate_state_transition
first_not_executing a h e = ground arith

second_not_executing :
    (a b : ActionStatus)
    → is_lifecycle planned (a ∷ b ∷ []) ≡ true
    → ¬ (among executing (a ∷ b ∷ []) ≡ true)
unfolding validate_state_transition
second_not_executing a b h e = ground arith

-- An action that was planned executes only after it awaited approval and was approved: these are
-- the two statuses before `executing`, and the first ones.
pub executing_needs_approval :
    (ts : List ActionStatus)
    → is_lifecycle planned ts ≡ true
    → among executing ts ≡ true
    → (rest : List ActionStatus) × (ts ≡ awaiting_approval ∷ approved ∷ executing ∷ rest)
executing_needs_approval [] h e = cc
executing_needs_approval (a ∷ []) h e = absurd (first_not_executing a h e)
executing_needs_approval (a ∷ b ∷ []) h e = absurd (second_not_executing a b h e)
executing_needs_approval (a ∷ b ∷ c ∷ rest) h e =
    let (pa, pb, pc) = first_three a b c rest h in (rest, ground (arith, dead_end c rest))

failing :
    (s t : ActionStatus)
    → validate_state_transition s t ≡ true
    → 4 < steps_left s
    → (4 < steps_left t) ⊎ (steps_left t ≡ 0) ⊎ (t ≡ execution_failed) ⊎ (t ≡ verification_failed)
unfolding validate_state_transition
failing s t h early = ground arith

fails_before_rollback :
    (s : ActionStatus) (ts : List ActionStatus)
    → (4 < steps_left s) ⊎ (steps_left s ≡ 0)
    → is_lifecycle s ts ≡ true
    → among rollback_running ts ≡ true
    → (among execution_failed ts || among verification_failed ts) ≡ true
fails_before_rollback s [] early h r = cc
fails_before_rollback s (t ∷ ts) early h r =
    ground (arith, failing s t, dead_end s (t ∷ ts), fails_before_rollback t ts)

-- A rollback runs only in a lifecycle in which the execution or its verification failed.
pub rollback_needs_failure :
    (ts : List ActionStatus)
    → is_lifecycle planned ts ≡ true
    → among rollback_running ts ≡ true
    → (among execution_failed ts || among verification_failed ts) ≡ true
rollback_needs_failure ts h r = fails_before_rollback planned ts (inl (omega arith)) h r
