-- ===== src/Projection/Retry/Bounded.antt =====
-- Recovery is bounded: `applyActionRetry` accepts only so many retries of one pending action.
use hyperchart.Prelude.{
  Bool, List, Option, [], and_split, arith, false, leb, length, ltb, ltb→lt, none, refl, some,
  subst, suc, sym, true, ℕ, ◌&&◌, ◌*◌, ◌+◌, ◌-◌, ◌<◌, ◌==◌, ◌∷◌, ◌≡◌, ◌≤◌,
}
use hyperchart.Chart.{
  Action, ActionKind, RecoveryPolicy, Validation, agent, gate, notify, script, ts_import, user,
  wait_for,
}
use hyperchart.Projection.{
  Counters, Mode, PendingAction, RecoveryCounters, Scope, counters_of, general, nudge_mode,
  restart_mode, validation,
}
use hyperchart.Projection.Retry.{
  RetryRecord, recovery_counters_after, recovery_counters_for_scope, recovery_policy_for, retried,
  retry_pending, validate_retry_attempt,
}
use hyperchart.Result.{
  >>=-eq-ok, Fault, Result, guard, ok, ok_injective, retry_counters, retry_order, ◌>>=◌,
}
use hyperchart.Text.{Str, str_eq}

-- The policy of each scope; one that the action does not have allows nothing.
abbrev no_retries : RecoveryPolicy
no_retries = record { nudge = 0; restart = 0 }

abbrev validation_of : RecoveryPolicy → Option Validation → RecoveryPolicy
validation_of on_fail none = no_retries
validation_of on_fail (some v) = elim v.on_fail [ none ↦ on_fail | some own ↦ own ]

abbrev pub policy_of : Scope → ActionKind → RecoveryPolicy
policy_of general (agent on_fail check) = on_fail
policy_of validation (agent on_fail check) = validation_of on_fail check
policy_of scope _ = no_retries

policy_for-policy_of :
    (kind : ActionKind) (scope : Scope) (state : Str) (policy : RecoveryPolicy)
    → recovery_policy_for kind scope state ≡ ok policy
    → policy_of scope kind ≡ policy
unfolding recovery_policy_for
policy_for-policy_of (agent on_fail check) general state policy h = ok_injective h
policy_for-policy_of (agent on_fail none) validation state policy h = cc
policy_for-policy_of (agent on_fail (some v)) validation state policy h = one v.on_fail h
  where
    one :
        (o : Option RecoveryPolicy)
        → (elim o as (λ _. Result RecoveryPolicy) [ none ↦ ok on_fail | some own ↦ ok own ])
          ≡ ok policy
        → (elim o as (λ _. RecoveryPolicy) [ none ↦ on_fail | some own ↦ own ]) ≡ policy
    one none e = ok_injective e
    one (some own) e = ok_injective e
policy_for-policy_of user scope state policy h = cc
policy_for-policy_of gate scope state policy h = cc
policy_for-policy_of script scope state policy h = cc
policy_for-policy_of ts_import scope state policy h = cc
policy_for-policy_of (wait_for from event) scope state policy h = cc
policy_for-policy_of (notify to event) scope state policy h = cc

-- Counters that no policy is exceeded by.
abbrev pub Within : Counters → RecoveryPolicy → Type 0
Within c policy = (c.nudges ≤ policy.nudge) × (c.restarts ≤ policy.restart)

-- What an accepted attempt says of the counters before and after it, in its own scope.
data Attempted (c : Counters) (policy : RecoveryPolicy) (r : RetryRecord) : Type 0 where
  nudged :
      r.mode ≡ nudge_mode
      → c.nudges < policy.nudge
      → r.nudge_attempt ≡ c.nudges + 1
      → r.restart_attempt ≡ c.restarts
      → Attempted c policy r
  restarted :
      r.mode ≡ restart_mode
      → c.restarts < policy.restart
      → r.nudge_attempt ≡ 0
      → r.restart_attempt ≡ c.restarts + 1
      → Attempted c policy r

guard-true : (b : Bool) (e : Fault) → guard b e ≡ ok tt → b ≡ true
guard-true true e h = refl
guard-true false e h = cc

guard_and : (a b : Bool) (e : Fault) → guard (a && b) e ≡ ok tt → (a ≡ true) × (b ≡ true)
guard_and a b e h = and_split a b (guard-true (a && b) e h)

validate-Attempted :
    (r : RetryRecord) (c : Counters) (policy : RecoveryPolicy)
    → validate_retry_attempt r c policy ≡ ok tt
    → Attempted c policy r
unfolding validate_retry_attempt
validate-Attempted r c policy h = by_mode r.mode refl
  where
    order : Fault
    order = retry_order r.uid.state

    count : Fault
    count = retry_counters r.uid.state

    by_mode : (m : Mode) → r.mode ≡ m → Attempted c policy r
    by_mode nudge_mode e =
        let k = rw (e, validate_retry_attempt) at h in
        let (_, room, more) = >>=-eq-ok (guard (ltb c.nudges policy.nudge) order) _ k in
        let (_, counted, _) =
          >>=-eq-ok
            (guard (r.nudge_attempt == c.nudges + 1 && r.restart_attempt == c.restarts) count) _
            more in
        let (n, m) =
          guard_and (r.nudge_attempt == c.nudges + 1) (r.restart_attempt == c.restarts) count
            counted in
        nudged e (ltb→lt c.nudges policy.nudge (guard-true (ltb c.nudges policy.nudge) order room))
          (ground arith) (ground arith)
    by_mode restart_mode e =
        let k = rw (e, validate_retry_attempt) at h in
        let (_, room, more) =
          >>=-eq-ok (guard (leb policy.nudge c.nudges && ltb c.restarts policy.restart) order) _
            k in
        let (_, counted, _) =
          >>=-eq-ok (guard (r.nudge_attempt == 0 && r.restart_attempt == c.restarts + 1) count) _
            more in
        let (_, left) =
          guard_and (leb policy.nudge c.nudges) (ltb c.restarts policy.restart) order room in
        let (n, m) =
          guard_and (r.nudge_attempt == 0) (r.restart_attempt == c.restarts + 1) count counted in
        restarted e (ltb→lt c.restarts policy.restart left) (ground arith) (ground arith)

-- What the policies leave: restarts over both scopes, and nudges before the next restart.
abbrev restarts_left : ActionKind → RecoveryCounters → ℕ
restarts_left kind c =
    ((policy_of general kind).restart - c.general_counters.restarts)
    + ((policy_of validation kind).restart - c.validation_counters.restarts)

abbrev nudges_left : ActionKind → RecoveryCounters → ℕ
nudges_left kind c =
    ((policy_of general kind).nudge - c.general_counters.nudges)
    + ((policy_of validation kind).nudge - c.validation_counters.nudges)

abbrev round_size : ActionKind → ℕ
round_size kind = suc ((policy_of general kind).nudge + (policy_of validation kind).nudge)

-- The retries that can still be accepted: each restart opens a round of nudges of both scopes.
abbrev pub retry_budget : ActionKind → RecoveryCounters → ℕ
retry_budget kind c = restarts_left kind c * round_size kind + nudges_left kind c

restart_lowers : (a b w n m : ℕ) → suc a ≡ b → m < w → a * w + m < b * w + n
restart_lowers a b w n m e h = rw (sym e) (omega arith)

-- An accepted attempt uses up some of the budget.
attempt_lowers :
    (kind : ActionKind) (c : RecoveryCounters) (r : RetryRecord)
    → Attempted (counters_of r.scope c) (policy_of r.scope kind) r
    → retry_budget kind (recovery_counters_after c r) < retry_budget kind c
unfolding recovery_counters_after recovery_counters_for_scope
attempt_lowers kind c r h = by_scope r.scope refl h
  where
    by_scope :
        (s : Scope)
        → r.scope ≡ s
        → Attempted (counters_of s c) (policy_of s kind) r
        → retry_budget kind (recovery_counters_after c r) < retry_budget kind c
    by_scope general e (nudged m room n k) = rw (e, m, n, k) (omega arith)
    by_scope validation e (nudged m room n k) = rw (e, m, n, k) (omega arith)
    by_scope general e (restarted m room n k) =
        rw (e, m, k)
          (restart_lowers
            (((policy_of general kind).restart - (c.general_counters.restarts + 1))
              + ((policy_of validation kind).restart - c.validation_counters.restarts))
            (restarts_left kind c) (round_size kind) (nudges_left kind c)
            (((policy_of general kind).nudge - 0) + ((policy_of validation kind).nudge - 0))
            (omega arith) (omega arith))
    by_scope validation e (restarted m room n k) =
        rw (e, m, k)
          (restart_lowers
            (((policy_of general kind).restart - c.general_counters.restarts)
              + ((policy_of validation kind).restart - (c.validation_counters.restarts + 1)))
            (restarts_left kind c) (round_size kind) (nudges_left kind c)
            (((policy_of general kind).nudge - 0) + ((policy_of validation kind).nudge - 0))
            (omega arith) (omega arith))

-- One accepted retry keeps the action's definition, and uses up some of the budget.
retry_pending_lowers :
    (p q : PendingAction) (r : RetryRecord)
    → retry_pending p r ≡ ok q
    → (q.definition ≡ p.definition)
      × (retry_budget p.definition.kind q.recovery < retry_budget p.definition.kind p.recovery)
unfolding retry_pending retried
retry_pending_lowers p q r h =
    let (_, _, more) = >>=-eq-ok (guard (str_eq p.session_id r.previous_session) _) _ h in
    let (policy, found, rest) =
      >>=-eq-ok (recovery_policy_for p.definition.kind r.scope p.uid.state) _ more in
    let (_, valid, whole) =
      >>=-eq-ok (validate_retry_attempt r (counters_of r.scope p.recovery) policy) _ rest in
    let same = policy_for-policy_of p.definition.kind r.scope p.uid.state policy found in
    let attempt = validate-Attempted r (counters_of r.scope p.recovery) policy valid in
    subst
      (λ (x : PendingAction).
        (x.definition ≡ p.definition)
        × (retry_budget p.definition.kind x.recovery < retry_budget p.definition.kind p.recovery))
      (ok_injective whole)
      (
        refl,
        attempt_lowers p.definition.kind p.recovery r (
            subst (λ (x : RecoveryPolicy). Attempted (counters_of r.scope p.recovery) x r)
              (sym same) attempt),
      )

-- The retries of one pending action, one after the other.
abbrev pub retries : List RetryRecord → PendingAction → Result PendingAction
retries [] p = ok p
retries (r ∷ rs) p = retry_pending p r >>= retries rs

-- However the records look, no more retries of one pending action are accepted in a row than its
-- budget: each of the restarts that its policies leave opens a round of the nudges of both scopes.
pub retries_bounded :
    (rs : List RetryRecord) (p q : PendingAction)
    → retries rs p ≡ ok q
    → length rs ≤ retry_budget p.definition.kind p.recovery
retries_bounded [] p q h = omega arith
retries_bounded (r ∷ rs) p q h =
    let (t, first, more) = >>=-eq-ok (retry_pending p r) (retries rs) h in
    let (same, lower) = retry_pending_lowers p t r first in
    let rest = retries_bounded rs t q more in
    let rest' = subst (λ (d : Action). length rs ≤ retry_budget d.kind t.recovery) same rest in
    omega arith
