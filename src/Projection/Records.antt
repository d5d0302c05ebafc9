-- ===== src/Projection/Records.antt =====
-- The records of an action: `applyActionCompletion` and the `state_action` cases of `projectBranch`,
-- projection.ts.
use hyperchart.Prelude.{
  Bool, Option, [], false, find, if◌then◌else◌, none, not, some, suc, true, ℕ, ◌&&◌, ◌++◌, ◌||◌,
  ◌∷◌,
}
use hyperchart.Chart.{Action, ActionKind, Chart, Validation, agent}
use hyperchart.Dict.{assign, lookup, put}
use hyperchart.Entry.{is_some}
use hyperchart.Json.{Fields, Json, end, field, obj, same_recorded_value, str, undefined}
use hyperchart.Projection.{
  ChartEvent, PendingAction, Phase, Projection, ProvisionalPins, Run, empty_recovery_counters,
  running, validating_phase,
}
use hyperchart.Projection.Moves.{
  apply_after_transition, apply_transition, assert_active_action_uid, is_action_active,
}
use hyperchart.Projection.Pending.{has_pending, pending_of, remove_pending_action, replace_first}
use hyperchart.Result.{
  Result, err, event_mismatch, foreign_artifacts, guard, inactive_state, missing_provenance,
  no_pending, ok, pending_action, require, validating, ◌>>=◌, ◌>>◌,
}
use hyperchart.Text.{Str, str_eq, text}
use hyperchart.Uid.{ActionUid, action_uid_key, same_action_uid}

-- recordResult
abbrev pub record_output : Str → Option Json → Projection → Projection
record_output state none p = p
record_output state (some undefined) p = p
record_output state (some v) p = record p { results = put state v p.results }

unfoldable pub record_result : Str → ChartEvent → Projection → Projection
record_result state event p = record_output state event.output p

-- recordSkipped
unfoldable pub record_skipped : ℕ → Str → Run → Run
record_skipped seq state r = record r {
  skipped =
      r.skipped
      ++ record {
        skipped_seq_id = seq;
        skipped_state = state;
        skipped_leaves = r.projection.active_leaves;
      }
        ∷ [];
}

abbrev pub assign_pins : Option ProvisionalPins → Projection → Projection
assign_pins none p = p
assign_pins (some a) p = record p { artifact_pins = assign p.artifact_pins a.pins }

abbrev pub validation_of_kind : ActionKind → Option Validation
validation_of_kind (agent on_fail check) = check
validation_of_kind _ = none

abbrev pub is_validating : Phase → Bool
is_validating running = false
is_validating (validating_phase event artifacts) = true

abbrev pub failed_event : Str
failed_event = text "FAILED"

-- The entry that waits for a verdict; the gate and the last retry are not carried over.
unfoldable pub to_validate : ℕ → ChartEvent → Option ProvisionalPins → PendingAction → PendingAction
to_validate seq event artifacts p = record p {
  seq_id = seq;
  gate_seq_id = none;
  last_retry = none;
  phase = validating_phase event artifacts;
}

abbrev pub needs_verdict : PendingAction → ChartEvent → Bool
needs_verdict p event =
    is_some (validation_of_kind p.definition.kind) && not (str_eq event.kind failed_event)

abbrev pub on_projection : (Projection → Projection) → Run → Run
on_projection f r = record r { projection = f r.projection }

-- An accepted completion: the pins, the result that was claimed, the pending entry, then the
-- transition on the recorded event.
unfoldable pub accept_completion :
    Chart → ℕ → ActionUid → ChartEvent → ChartEvent → Option ProvisionalPins → Run → Result Run
accept_completion ast fuel u claimed event artifacts r = apply_transition ast fuel u.state event (
    on_projection
      (λ (p : Projection).
        remove_pending_action u (record_result u.state claimed (assign_pins artifacts p)))
      r)

unfoldable pub await_verdict :
    ActionUid → ℕ → ChartEvent → Option ProvisionalPins → PendingAction → Projection → Projection
await_verdict u seq event artifacts previous p =
    let q = remove_pending_action u p in
    record q { pending = q.pending ++ to_validate seq event artifacts previous ∷ [] }

-- `logged` is whether the completion is itself a record; a resolved gate's is not, and is no race.
unfoldable pub apply_action_completion :
    Chart → ℕ → ActionUid → ChartEvent → Option ProvisionalPins → ℕ → Bool → Run → Result Run
apply_action_completion ast fuel u event artifacts seq logged r = do
  active ← is_action_active ast r.projection u.state
  if not active
      then (if logged then ok (record_skipped seq u.state r) else err (inactive_state u.state))
      else (do
        assert_active_action_uid ast u.state u
        previous ← require (pending_of u r.projection.pending) (no_pending u.state)
        guard (not (is_validating previous.phase)) (validating u.state)
        if needs_verdict previous event
            then ok (on_projection (await_verdict u seq event artifacts previous) r)
            else accept_completion ast fuel u event event artifacts r)

-- isActionActive, the action's uid, no pending entry: then a new visit starts.
unfoldable pub start_visit : ActionUid → Str → Action → ℕ → ℕ → Projection → Projection
start_visit u session definition timestamp seq p =
    let visit = suc (count_of (lookup (action_uid_key u) p.state_visits)) in
    record p {
      state_visits = put (action_uid_key u) visit p.state_visits;
      pending =
          p.pending
          ++ record {
            uid = u;
            visit_id = visit;
            seq_id = seq;
            invoke_seq_id = seq;
            session_id = session;
            definition = definition;
            timestamp = timestamp;
            gate_seq_id = none;
            recovery = empty_recovery_counters;
            last_retry = none;
            phase = running;
          }
            ∷ [];
    }
  where
    count_of : Option ℕ → ℕ
    count_of none = 0
    count_of (some n) = n

unfoldable pub apply_invoke : Chart → ActionUid → Str → Option Action → ℕ → ℕ → Run → Result Run
apply_invoke ast u session definition timestamp seq r = do
  d ← require definition (missing_provenance u.state)
  active ← is_action_active ast r.projection u.state
  if not active then ok (record_skipped seq u.state r) else (do
    assert_active_action_uid ast u.state u
    guard (not (has_pending u r.projection.pending)) (pending_action u.state)
    ok (on_projection (start_visit u session d timestamp seq) r))

unfoldable pub apply_timer_fired : Chart → ℕ → ActionUid → ℕ → Run → Result Run
apply_timer_fired ast fuel u seq r = do
  active ← is_action_active ast r.projection u.state
  if not active then ok (record_skipped seq u.state r) else (do
    assert_active_action_uid ast u.state u
    apply_after_transition ast fuel u.state (on_projection (remove_pending_action u) r))

-- A ChartEvent as the value that it is recorded as.
abbrev pub field_if : Str → Option Json → Fields → Fields
field_if k none fs = fs
field_if k (some v) fs = field k v fs

unfoldable pub event_value : ChartEvent → Json
event_value e = obj (
    field (text "type") (str e.kind)
      (field_if (text "output") e.output (field_if (text "error") e.error end)))

abbrev pub waits_for_verdict : ActionUid → PendingAction → Bool
waits_for_verdict u p = is_validating p.phase && same_action_uid p.uid u

-- The pins were made on this branch, or there are none.
abbrev pub pins_belong : Option ProvisionalPins → Str → Bool
pins_belong none branch = true
pins_belong (some a) branch = str_eq a.branch_id branch

abbrev pub reject_claim : ActionUid → ℕ → PendingAction → Projection → Projection
reject_claim u seq p q = record q {
  pending = replace_first (waits_for_verdict u) (record p { seq_id = seq }) q.pending;
}

-- The verdict on an entry that waits with an event and its pins.
abbrev pub verdict_on :
    Chart → ℕ → ActionUid → Str → Bool → ChartEvent → ℕ → PendingAction → Phase → Run → Result Run
verdict_on ast fuel u branch outcome event seq p running r = err (no_pending u.state)
verdict_on ast fuel u branch outcome event seq p (validating_phase claimed artifacts) r = do
  guard (not outcome || pins_belong artifacts branch) (foreign_artifacts u.state)
  guard (same_recorded_value (event_value event) (event_value claimed)) (event_mismatch u.state)
  if outcome
      then accept_completion ast fuel u claimed event artifacts r
      else ok (on_projection (reject_claim u seq p) r)

unfoldable pub apply_validated :
    Chart → ℕ → ActionUid → Str → Bool → ChartEvent → ℕ → Run → Result Run
apply_validated ast fuel u branch outcome event seq r = do
  p ← require (find (waits_for_verdict u) r.projection.pending) (no_pending u.state)
  verdict_on ast fuel u branch outcome event seq p p.phase r
