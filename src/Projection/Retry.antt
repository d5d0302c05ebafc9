-- ===== src/Projection/Retry.antt =====
-- Recovery of an agent's action: what a retry record does, `applyActionRetry` of projection.ts, and
-- which one is written, `recoveryDecisionRecords` of machine.ts.
pub mod Accepts
pub mod Bounded
use hyperchart.Prelude.{
  Bool, Option, false, if◌then◌else◌, leb, ltb, none, not, some, true, ℕ, ◌&&◌, ◌+◌, ◌==◌,
}
use hyperchart.Chart.{ActionKind, RecoveryPolicy, Validation, agent}
use hyperchart.Projection.{
  AgentFailure, Counters, Mode, PendingAction, Projection, RecoveryCounters, Scope, counters_of,
  general, nudge_mode, restart_mode, running, validation,
}
use hyperchart.Projection.Pending.{pending_of, replace_pending}
use hyperchart.Result.{
  Result, err, guard, no_pending, ok, require, retry_counters, retry_kind, retry_order,
  retry_policy, retry_session, ◌>>=◌, ◌>>◌,
}
use hyperchart.Text.{Str, str_eq}
use hyperchart.Uid.{ActionUid}

-- StateActionRetryLog
pub record RetryRecord : Type 0 where
  pub uid : ActionUid
  pub seq_id : ℕ
  pub mode : Mode
  pub scope : Scope
  pub nudge_attempt : ℕ
  pub restart_attempt : ℕ
  pub previous_session : Str
  pub resulting_session : Str
  pub failure : AgentFailure

abbrev validation_policy : RecoveryPolicy → Option Validation → Str → Result RecoveryPolicy
validation_policy on_fail none state = err (retry_policy state)
validation_policy on_fail (some v) state = elim v.on_fail [ none ↦ ok on_fail | some own ↦ ok own ]

-- recoveryPolicyFor
unfoldable pub recovery_policy_for : ActionKind → Scope → Str → Result RecoveryPolicy
recovery_policy_for (agent on_fail check) general state = ok on_fail
recovery_policy_for (agent on_fail check) validation state = validation_policy on_fail check state
recovery_policy_for _ scope state = err (retry_kind state)

-- validateRetryAttempt
unfoldable pub validate_retry_attempt : RetryRecord → Counters → RecoveryPolicy → Result (Unit {0})
validate_retry_attempt r c policy = elim r.mode [
  | nudge_mode ↦ do
    guard (ltb c.nudges policy.nudge) (retry_order r.uid.state)
    guard (r.nudge_attempt == c.nudges + 1 && r.restart_attempt == c.restarts)
        (retry_counters r.uid.state)
    guard (str_eq r.resulting_session r.previous_session) (retry_session r.uid.state)
  | restart_mode ↦ do
    guard (leb policy.nudge c.nudges && ltb c.restarts policy.restart) (retry_order r.uid.state)
    guard (r.nudge_attempt == 0 && r.restart_attempt == c.restarts + 1) (retry_counters r.uid.state)
    guard (not (str_eq r.resulting_session r.previous_session)) (retry_session r.uid.state)
]

abbrev pub same_scope : Scope → Scope → Bool
same_scope general general = true
same_scope validation validation = true
same_scope _ _ = false

-- recoveryCountersForScope: a restart clears the nudges of both scopes.
abbrev nudges_for : Mode → Bool → ℕ → ℕ → ℕ
nudges_for restart_mode same attempt previous = 0
nudges_for nudge_mode same attempt previous = if same then attempt else previous

unfoldable pub recovery_counters_for_scope : Scope → Counters → RetryRecord → Counters
recovery_counters_for_scope scope c r = record {
  nudges = nudges_for r.mode (same_scope r.scope scope) r.nudge_attempt c.nudges;
  restarts = if same_scope r.scope scope then r.restart_attempt else c.restarts;
}

unfoldable pub recovery_counters_after : RecoveryCounters → RetryRecord → RecoveryCounters
recovery_counters_after c r = record {
  general_counters = recovery_counters_for_scope general c.general_counters r;
  validation_counters = recovery_counters_for_scope validation c.validation_counters r;
}

-- The pending entry that an accepted retry leaves: running again, with no gate.
unfoldable pub retried : PendingAction → RetryRecord → PendingAction
retried p r = record {
  uid = p.uid;
  visit_id = p.visit_id;
  seq_id = r.seq_id;
  invoke_seq_id = p.invoke_seq_id;
  session_id = r.resulting_session;
  definition = p.definition;
  timestamp = p.timestamp;
  gate_seq_id = none;
  recovery = recovery_counters_after p.recovery r;
  last_retry = some (record {
    mode = r.mode;
    scope = r.scope;
    nudge_attempt = r.nudge_attempt;
    restart_attempt = r.restart_attempt;
    failure = r.failure;
  });
  phase = running;
}

unfoldable pub retry_pending : PendingAction → RetryRecord → Result PendingAction
retry_pending p r = do
  guard (str_eq p.session_id r.previous_session) (retry_session r.uid.state)
  policy ← recovery_policy_for p.definition.kind r.scope p.uid.state
  validate_retry_attempt r (counters_of r.scope p.recovery) policy
  ok (retried p r)

unfoldable pub apply_action_retry : RetryRecord → Projection → Result Projection
apply_action_retry r p = do
  found ← require (pending_of r.uid p.pending) (no_pending r.uid.state)
  next ← retry_pending found r
  ok (record p { pending = replace_pending r.uid next p.pending })

-- What `recoveryDecisionRecords` writes: a retry, or the intent to fail the run.
pub data Decision : Type 0 where
  retry_with : RetryRecord → Decision
  fail_run : (origin : Str) → Decision

-- The policy as the decision reads it: validation's own, or the general one.
unfoldable pub decision_policy : RecoveryPolicy → Option Validation → Scope → RecoveryPolicy
decision_policy on_fail check general = on_fail
decision_policy on_fail none validation = on_fail
decision_policy on_fail (some v) validation = elim v.on_fail [ none ↦ on_fail | some own ↦ own ]

unfoldable pub retry_mode : Counters → RecoveryPolicy → Option Mode
retry_mode c policy =
    if ltb c.nudges policy.nudge
    then some nudge_mode
    else if ltb c.restarts policy.restart
    then some restart_mode
    else none

abbrev attempts : Mode → Counters → Counters
attempts nudge_mode c = record { nudges = c.nudges + 1; restarts = c.restarts }
attempts restart_mode c = record { nudges = 0; restarts = c.restarts + 1 }

abbrev session_for : Mode → Str → Str → Str
session_for nudge_mode current fresh = current
session_for restart_mode current fresh = fresh

unfoldable pub retry_record : PendingAction → AgentFailure → Scope → Str → ℕ → Mode → RetryRecord
retry_record p failure scope fresh seq mode =
    let next = attempts mode (counters_of scope p.recovery) in
    record {
      uid = p.uid;
      seq_id = seq;
      mode = mode;
      scope = scope;
      nudge_attempt = next.nudges;
      restart_attempt = next.restarts;
      previous_session = p.session_id;
      resulting_session = session_for mode p.session_id fresh;
      failure = failure;
    }

-- `fresh` is what randomUUID returns, and `seq` the number that the log gives the record.
unfoldable pub recovery_decision : PendingAction → AgentFailure → Bool → Scope → Str → ℕ → Decision
recovery_decision p failure retryable scope fresh seq = elim p.definition.kind [
  | agent on_fail check ↦
      if retryable
      then elim (retry_mode (counters_of scope p.recovery) (decision_policy on_fail check scope)) [
        | none ↦ fail_run p.uid.state
        | some mode ↦ retry_with (retry_record p failure scope fresh seq mode)
      ]
      else fail_run p.uid.state
  | _ ↦ fail_run p.uid.state
]
