-- ===== src/Automation/RunnerLaws.antt =====
-- How far guardian/automation/runner.py takes a run: never past the wait for an approval.
use cyber_sage.Prelude.{
  ℕ, String, ◌≡◌, ◌≢◌, ◌↔◌, ◌⊎◌, Bool, true, false, Option, none, some, arith, eq_refl, Result, ok,
}
use cyber_sage.Prelude.Dict.{Dict, lookup, insert, lookup-insert}
use cyber_sage.Automation.Policy.{
  allow, deny, pending, awaiting_approval, blocked, cancelled, AutomationPolicy,
  AutomationRunRequest, AutomationRun, kill_switch_active, blocked_by_policy, evaluate,
  compute_run_id,
}
use cyber_sage.Automation.Runner.{known_run, is_cancellable, submit, cancel}

module _ {J : Type 0} (sha256_hex : String → String)
    (dumps : String → String → J → String → String) where
  -- The identifier under which a request is filed.
  abbrev pub id_of : AutomationRunRequest J → String
  id_of request =
      compute_run_id sha256_hex dumps request.action_type request.action_name request.target
        request.decision_id

  -- A new run is blocked, prepared or waiting for approval, and nothing more: it has no approval
  -- and no result; it is blocked exactly if the policy denied it; and where it waits it says that
  -- it needs an approval, also if the policy said ALLOW.
  pub submit_waits :
      (policy : AutomationPolicy) (kill_switch : Result String Bool)
      (request : AutomationRunRequest J) (existing_runs : Option (Dict (AutomationRun J))) (now : ℕ)
      → known_run existing_runs (id_of request) ≡ none
      → let run = submit sha256_hex dumps policy kill_switch request existing_runs now in
        ((run.status ≡ blocked) ⊎ (run.status ≡ pending) ⊎ (run.status ≡ awaiting_approval))
        × ((run.status ≡ blocked) ↔ (run.policy_decision ≡ deny))
        × (run.status ≡ awaiting_approval → run.requires_approval ≡ true)
        × (run.policy_decision ≡ allow → run.status ≡ awaiting_approval)
        × (run.approval_id ≡ none)
        × (run.result ≡ none)
  unfolding submit
  submit_waits policy kill_switch request existing_runs now unknown = (
    ground arith,
    (ground arith, ground arith),
    ground arith,
    ground arith,
    ground arith,
    ground arith,
  )

  -- Where the kill switch is on or cannot be read, every new run is blocked for that reason.
  pub submit_killed :
      (policy : AutomationPolicy) (kill_switch : Result String Bool)
      (request : AutomationRunRequest J) (existing_runs : Option (Dict (AutomationRun J))) (now : ℕ)
      → known_run existing_runs (id_of request) ≡ none
      → kill_switch ≢ ok false
      → let run = submit sha256_hex dumps policy kill_switch request existing_runs now in
        (run.status ≡ blocked) × (run.error ≡ some (blocked_by_policy kill_switch_active))
  unfolding submit evaluate
  submit_killed policy kill_switch request existing_runs now unknown on = ground arith

  submit_known :
      (policy : AutomationPolicy) (kill_switch : Result String Bool)
      (request : AutomationRunRequest J) (runs : Dict (AutomationRun J)) (now : ℕ)
      (run : AutomationRun J)
      → lookup (id_of request) runs ≡ some run
      → submit sha256_hex dumps policy kill_switch request (some runs) now ≡ run
  unfolding submit
  submit_known policy kill_switch request runs now run known = ground arith

  -- A run that was filed under its identifier is returned unchanged by every later submission of
  -- the same action, target and decision, whatever the policy, the kill switch and the time.
  pub submit_idempotent :
      (policy later_policy : AutomationPolicy) (kill_switch later_switch : Result String Bool)
      (request again : AutomationRunRequest J) (runs : Dict (AutomationRun J)) (now later : ℕ)
      → id_of again ≡ id_of request
      → let run = submit sha256_hex dumps policy kill_switch request (some runs) now in
        submit sha256_hex dumps later_policy later_switch again
          (some (insert (id_of request) run runs))
          later
        ≡ run
  submit_idempotent policy later_policy kill_switch later_switch request again runs now later same =
      let run = submit sha256_hex dumps policy kill_switch request (some runs) now in
      submit_known later_policy later_switch again (insert (id_of request) run runs) later run
        (rw (lookup-insert, same) ground (arith, eq_refl (id_of request)))

-- Only a run that is pending or waits for approval is cancelled; any other is left as it is. What
-- is cancelled cannot be cancelled again, so the first reason stays.
pub cancel_once :
    {J : Type 0} (run : AutomationRun J) (reason second : String) (now later : ℕ)
    → (is_cancellable run.status ≡ true → (cancel run reason now).status ≡ cancelled)
      × (is_cancellable run.status ≡ false → cancel run reason now ≡ run)
      × (cancel (cancel run reason now) second later ≡ cancel run reason now)
unfolding cancel
cancel_once run reason second now later = ground arith
