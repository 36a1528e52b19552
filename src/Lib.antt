-- ===== src/Lib.antt =====
-- Verification of the decision core of CyberSage's guardian: what may be done to a host, who has
-- approved it, how often, and how the events that lead to it are kept.
--
-- The program. The agent collects events and buffers them in a local queue until the backend has
-- acknowledged them. The backend turns events into detections, scores them (risk engine) and
-- recommends a response (policy engine). A recommended containment becomes an action with a
-- lifecycle; it waits for an approval request to be decided, and the approval is validated again
-- before the action executes. An automation runner files actions on its own under a policy, and
-- never executes one itself. Three safety devices stand in front of every action: the kill switch,
-- the circuit breaker and the rate limiter.
--
-- The files, each beside the code that it models (paths from the repository's root):
--   Safety/KillSwitch.antt       guardian/safety/kill_switch.py, class KillSwitch. A registry of one
--                                global switch and two dictionaries; a question creates the record
--                                that it asks about, as the code does.
--   Safety/CircuitBreaker.antt   guardian/safety/circuit_breaker.py, class CircuitBreaker.
--   Safety/RateLimiter.antt      guardian/safety/rate_limiter.py, class ActionRateLimiter, with its
--                                windows by key.
--   Approval/Tables.antt         backend/models.py, classes ApprovalRequest and Approval, and the
--                                queries that the manager runs on their tables.
--   Approval/Creation.antt       guardian/approval/manager.py: create_approval_request, called on
--                                a session that has nothing uncommitted, so that its rollback undoes
--                                the refused row alone; the rows other transactions wrote between
--                                its query and its flush are an argument.
--   Approval/Manager.antt        guardian/approval/manager.py: approve_request, reject_request,
--                                check_expiry, validate_for_execution, check_rbac,
--                                get_request_status.
--   Actions/Lifecycle.antt       guardian/actions/base.py: ActionStatus, VALID_ACTION_TRANSITIONS,
--                                validate_state_transition.
--   Actions/Rollback.antt        guardian/actions/rollback.py, class RollbackManager.
--   Actions/Registry.antt        guardian/actions/registry.py: registration and lookup of actions.
--   Automation/Policy.antt       guardian/automation/policy.py: the policy model, the engine and
--                                compute_run_id.
--   Automation/Runner.antt       guardian/automation/runner.py, class AutomationRunner.
--   Automation/V5/*.antt         guardian/automation/policy_v5.py: Rules the data, Validation the
--                                validators, Scope the matching, Precedence the sort key, Collecting
--                                the loop over the policies, Evaluation evaluate_policies, simulate
--                                and compute_evaluation_id.
--   Automation/Conflicts/*.antt  guardian/automation/conflicts.py: Overlap and Subset the tests on two
--                                rules, Analysis the findings.
--   Automation/Envelope/*.antt   guardian/automation/envelope.py: State the requests, statuses and
--                                tables, Checks and Authority the single gates, Gates check_gates.
--                                Grants and Granting: guardian/automation/preauth.py and, in
--                                guardian/automation/preauth_store.py, activate_grant,
--                                revoke_grant and check_grant_for_request.
--   Transport/Queue/*.antt       guardian/transport/local_queue.py, class EventQueue: Rows is the
--                                table and its statements, Storing enqueue and enqueue_batch,
--                                Sending dequeue, mark_sent and recover_expired_leases, Failing
--                                mark_failed, the purges and queue_stats.
--   Transport/Sync.antt          guardian/transport/sync.py: how _sync_once applies the answer of an
--                                upload to the queue.
--   Risk/Engine.antt             guardian/risk/engine.py, class RiskEngine.
--   Risk/Response.antt           guardian/policy/engine.py, class PolicyEngine.
--   Execution/Gates.antt         guardian/automation/envelope.py: pre_execution_safety and
--                                record_breaker_outcome, with the persisted switches of
--                                guardian/safety/kill_switch_store.py and the breakers by action
--                                type of guardian/safety/registry.py.
--   Execution/State.antt,        backend/api_guardian_phase3.py: execute_action with the records
--   Execution/Handler.antt       that it works on. It joins the approval manager, the gates, the
--                                lifecycle and the registered action. The calls of an action's
--                                execute are recorded in a list, and an attempt carries the
--                                statuses that it had before. One request is one step: the handler
--                                commits in between without a lock, so that two requests at once
--                                for one attempt, both of which read it as approved, are not
--                                covered.
-- The other files of these folders hold proofs, and the Tests files and Samples runs on
-- concrete inputs.
-- Prelude passes library names on and holds Boolean tests, lists, sorting, dictionaries, the order
-- of texts, tests on characters and results.
--
-- How the code is rendered. An object is a record, and a method a function from it to its answer
-- and the object after the call. A method under a lock, or in one transaction, is one step; the
-- interleavings of callers are the lists of calls over which the theorems range. An exception is a
-- value (Result, or Option where only its occurrence matters). Dictionaries are association lists
-- in insertion order. Tables are lists of rows in the order of insertion; an AUTOINCREMENT key is
-- a counter, and a UNIQUE column is a check at the insertion. ORDER BY on equal times keeps the
-- order of insertion, which is what the index on created_at gives. The times are whole numbers:
-- microseconds, or the unit of the clock that the class reads; a clock that the code guards
-- against raising is an Option. Where the code compares ISO texts, one with and one without an
-- offset, the order of the texts is the order of the times. Risk scores in policies and rules are
-- whole points.
--
-- Parameters. Functions that are not the program's own, or whose value is only displayed: the
-- SHA-256 digest, the rendering of a JSON target and the comparison of two of them, json.dumps,
-- the size of a text in UTF-8, the entry event_id of an event, the formatting of numbers and the
-- rounded average of confidences; the reading of an ISO text; what a registered action's validate,
-- snapshot, execute and verify return; and str.lower and the ipaddress module, of which the theorems that compare scopes use that
-- equality of addresses is equality, that networks with a common address overlap and that a subnet's
-- addresses are in its network. No theorem assumes that the digest has no collision: where records
-- collide the code's IntegrityError is followed.
--
-- Bounds. No definition recurs on fuel: loops run along lists, and the lifecycle of an action is
-- bounded by the table itself.
--
-- Not modelled: the HTTP interface of the backend and its database glue, except for the execution
-- of an action, inference and the governance of models, the collectors and detectors, the
-- envelope's run past its gates, the store of policies, the portable scanner, the
-- frontend, and logging everywhere.
mod Prelude
pub mod Safety
pub mod Approval
pub mod Actions
pub mod Automation
pub mod Transport
pub mod Risk
pub mod Execution
