-- ===== src/Projection/Retry/Accepts.antt =====
-- Recovery decisions and replay agree: `recoveryDecisionRecords` writes retries that
-- `applyActionRetry` accepts.
use hyperchart.Prelude.{
  Bool, Option, ap, arith, false, if◌then◌else◌, none, refl, some, subst, true, ℕ, ◌≡◌,
}
use hyperchart.Chart.{
  ActionKind, RecoveryPolicy, Validation, agent, gate, notify, script, ts_import, user, wait_for,
}
use hyperchart.Projection.{
  AgentFailure, Mode, PendingAction, Scope, counters_of, general, nudge_mode, restart_mode,
  validation,
}
use hyperchart.Projection.Retry.{
  Decision, RetryRecord, decision_policy, fail_run, recovery_decision, recovery_policy_for, retried,
  retry_mode, retry_pending, retry_record, retry_with, validate_retry_attempt,
}
use hyperchart.Result.{Result, ok}
use hyperchart.Text.{Str, str_eq, str_eq_refl}

-- A validation failure comes from an agent whose action has a validation.
abbrev pub HasValidation : ActionKind → Type 0
HasValidation (agent on_fail (some v)) = Unit
HasValidation _ = Unit → ⊥

abbrev pub PolicyFor : Scope → ActionKind → Type 0
PolicyFor general kind = Unit
PolicyFor validation kind = HasValidation kind

-- The policy that replay reads is the one that decided.
policy_agrees :
    (on_fail : RecoveryPolicy) (check : Option Validation) (scope : Scope) (state : Str)
    → PolicyFor scope (agent on_fail check)
    → recovery_policy_for (agent on_fail check) scope state
      ≡ ok (decision_policy on_fail check scope)
unfolding recovery_policy_for decision_policy
policy_agrees on_fail check general state h = refl
policy_agrees on_fail none validation state h = absurd (h tt)
policy_agrees on_fail (some v) validation state h = one v.on_fail
  where
    one :
        (o : Option RecoveryPolicy)
        → (elim o as (λ _. Result RecoveryPolicy) [ none ↦ ok on_fail | some own ↦ ok own ])
          ≡ ok (elim o [ none ↦ on_fail | some own ↦ own ])
    one none = refl
    one (some own) = refl

-- A mode that was chosen passes the check of its own record.
mode_valid :
    (p : PendingAction) (failure : AgentFailure) (scope : Scope) (fresh : Str) (seq : ℕ)
    (mode : Mode) (policy : RecoveryPolicy)
    → retry_mode (counters_of scope p.recovery) policy ≡ some mode
    → str_eq fresh p.session_id ≡ false
    → validate_retry_attempt
        (retry_record p failure scope fresh seq mode)
        (counters_of scope p.recovery)
        policy
      ≡ ok tt
unfolding retry_mode validate_retry_attempt retry_record
mode_valid p failure scope fresh seq nudge_mode policy h new = rw str_eq_refl (ground arith)
mode_valid p failure scope fresh seq restart_mode policy h new = rw new (ground arith)

-- How a retry was decided: the action is an agent's, and a mode was chosen under its policy.
data Decided (p : PendingAction) (failure : AgentFailure) (scope : Scope) (fresh : Str) (seq : ℕ)
    (r : RetryRecord) : Type 0 where
  decided :
      (on_fail : RecoveryPolicy) (check : Option Validation) (mode : Mode)
      → p.definition.kind ≡ agent on_fail check
      → retry_mode (counters_of scope p.recovery) (decision_policy on_fail check scope) ≡ some mode
      → retry_record p failure scope fresh seq mode ≡ r
      → Decided p failure scope fresh seq r

retry_with_injective : {r s : RetryRecord} → retry_with r ≡ retry_with s → r ≡ s
retry_with_injective {r} {s} e = ap (from r) e
  where
    from : RetryRecord → Decision → RetryRecord
    from d (retry_with x) = x
    from d (fail_run origin) = d

decision-Decided :
    (p : PendingAction) (failure : AgentFailure) (retryable : Bool) (scope : Scope) (fresh : Str)
    (seq : ℕ) (r : RetryRecord)
    → recovery_decision p failure retryable scope fresh seq ≡ retry_with r
    → Decided p failure scope fresh seq r
unfolding recovery_decision
decision-Decided p failure retryable scope fresh seq r h = by_kind p.definition.kind refl
  where
    by_mode :
        (on_fail : RecoveryPolicy) (check : Option Validation) (m : Option Mode)
        → p.definition.kind ≡ agent on_fail check
        → retry_mode (counters_of scope p.recovery) (decision_policy on_fail check scope) ≡ m
        → (elim m as (λ _. Decision) [
          | none ↦ fail_run p.uid.state
          | some mode ↦ retry_with (retry_record p failure scope fresh seq mode)
        ])
          ≡ retry_with r
        → Decided p failure scope fresh seq r
    by_mode on_fail check none k c e = cc
    by_mode on_fail check (some mode) k c e =
        decided on_fail check mode k c (retry_with_injective e)

    by_flag :
        (on_fail : RecoveryPolicy) (check : Option Validation) (b : Bool)
        → p.definition.kind ≡ agent on_fail check
        → (if b
            then elim (retry_mode
                  (counters_of scope p.recovery)
                  (decision_policy on_fail check scope))
                as (λ _. Decision) [
                  | none ↦ fail_run p.uid.state
                  | some mode ↦ retry_with (retry_record p failure scope fresh seq mode)
                ]
            else fail_run p.uid.state)
          ≡ retry_with r
        → Decided p failure scope fresh seq r
    by_flag on_fail check true k e =
        by_mode on_fail check
          (retry_mode (counters_of scope p.recovery) (decision_policy on_fail check scope)) k refl e
    by_flag on_fail check false k e = cc

    by_kind : (kind : ActionKind) → p.definition.kind ≡ kind → Decided p failure scope fresh seq r
    by_kind (agent on_fail check) k =
        by_flag on_fail check retryable k (rw (k, recovery_decision) at h)
    by_kind user k = absurd (let c = rw (k, recovery_decision) at h in cc)
    by_kind gate k = absurd (let c = rw (k, recovery_decision) at h in cc)
    by_kind script k = absurd (let c = rw (k, recovery_decision) at h in cc)
    by_kind ts_import k = absurd (let c = rw (k, recovery_decision) at h in cc)
    by_kind (wait_for from event) k = absurd (let c = rw (k, recovery_decision) at h in cc)
    by_kind (notify to event) k = absurd (let c = rw (k, recovery_decision) at h in cc)

-- Whatever retry `recoveryDecisionRecords` decides on, the checks of `applyActionRetry` accept it, and
-- the action runs again in the session that the record names. The conditions: a failure of
-- validation comes from an agent with a validation, and the fresh session is not the current one.
pub recovery_decision-retry_pending :
    (p : PendingAction) (failure : AgentFailure) (retryable : Bool) (scope : Scope) (fresh : Str)
    (seq : ℕ) (r : RetryRecord)
    → PolicyFor scope p.definition.kind
    → str_eq fresh p.session_id ≡ false
    → recovery_decision p failure retryable scope fresh seq ≡ retry_with r
    → retry_pending p r ≡ ok (retried p r)
unfolding retry_pending retry_record
recovery_decision-retry_pending p failure retryable scope fresh seq r fits new h =
    elim (decision-Decided p failure retryable scope fresh seq r h) [
      | decided on_fail check mode k c same ↦
          subst (λ (x : RetryRecord). retry_pending p x ≡ ok (retried p x)) same
            (rw
              (
                retry_pending,
                str_eq_refl,
                k,
                policy_agrees on_fail check scope p.uid.state (subst (PolicyFor scope) k fits),
                mode_valid p failure scope fresh seq mode (decision_policy on_fail check scope) c
                    new,
              )
              refl)
    ]
