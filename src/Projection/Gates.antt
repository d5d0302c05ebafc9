-- ===== src/Projection/Gates.antt =====
-- Gates and completion mailboxes: the `user_interaction`, `gate` and `completion` records in
-- `projectBranch` of projection.ts.
use hyperchart.Prelude.{
  Bool, List, Option, any, false, find, keep, none, not, some, true, ℕ, ◌&&◌, ◌==◌, ◌∷◌,
}
use hyperchart.Actors.{ActorContext, actor_context_for_state}
use hyperchart.Chart.{ActionKind, Chart, actor_action, gate, notify, user, wait_for}
use hyperchart.Dict.{has_key, keys, lookup, put}
use hyperchart.Entry.{allowed_events, is_some}
use hyperchart.Json.{Json, same_recorded_value}
use hyperchart.Projection.{
  ChartEvent, Consumed, GateType, OpenedGate, PendingAction, Phase, Projection, gate_at, host_gate,
  remove_gate, running, user_interaction, validating_phase,
}
use hyperchart.Projection.Pending.{replace_first}
use hyperchart.Projection.Refs.{action_state_at}
use hyperchart.Result.{
  Result, completion_claim, completion_endpoint, completion_source, completion_twice, guard, ok,
  require, wrong_event, wrong_gate, ◌>>=◌, ◌>>◌,
}
use hyperchart.Text.{Str, str_eq, text}
use hyperchart.Uid.{ActionUid, same_action_uid}

abbrev pub runs : Phase → Bool
runs running = true
runs (validating_phase event artifacts) = false

abbrev pub gate_is : Option ℕ → ℕ → Bool
gate_is none n = false
gate_is (some m) n = m == n

abbrev pub runs_action : ActionUid → PendingAction → Bool
runs_action u p = same_action_uid p.uid u && runs p.phase

-- The action of the state must be one that opens this kind of gate.
abbrev pub kind_opens : GateType → ActionKind → Bool
kind_opens user_interaction user = true
kind_opens host_gate gate = true
kind_opens _ _ = false

abbrev pub same_gate_type : GateType → GateType → Bool
same_gate_type user_interaction user_interaction = true
same_gate_type host_gate host_gate = true
same_gate_type _ _ = false

unfoldable pub assert_gate_state : Chart → GateType → Str → Result (Unit {0})
assert_gate_state ast type state = do
  s ← require (action_state_at ast state) (wrong_gate state)
  guard (kind_opens type s.action.kind) (wrong_gate state)

unfoldable pub apply_opened : Chart → OpenedGate → ℕ → Projection → Result Projection
apply_opened ast o seq p = do
  found ← require (find (runs_action o.uid) p.pending) (wrong_gate o.uid.state)
  guard (found.seq_id == o.phase_seq_id) (wrong_gate o.uid.state)
  assert_gate_state ast o.gate_type o.uid.state
  guard (not (is_some found.gate_seq_id)) (wrong_gate o.uid.state)
  ok (record p {
    pending = replace_first (runs_action o.uid) (record found { gate_seq_id = some seq }) p.pending;
    gates = (seq, o) ∷ remove_gate seq p.gates;
  })

-- allowedEventsForAction
abbrev pub actor_events : Option ActorContext → Option (List Str)
actor_events none = none
actor_events (some c) = elim c.node [ actor_action s ↦ some (keys s.transitions) | _ ↦ none ]

unfoldable pub allowed_events_for_action : Chart → Str → Result (List Str)
allowed_events_for_action ast state = elim (actor_events (actor_context_for_state ast state)) [
  | some events ↦ ok events
  | none ↦ allowed_events ast state
]

abbrev pub not_failed : Str → Bool
not_failed e = not (str_eq e (text "FAILED"))

unfoldable pub gate_events : Chart → OpenedGate → Str → Result (List Str)
gate_events ast o state = elim o.gate_type [
  | user_interaction ↦ ok o.events
  | host_gate ↦ do events ← allowed_events_for_action ast state; ok (keep not_failed events)
]

abbrev pub waits_at_gate : ActionUid → ℕ → PendingAction → Bool
waits_at_gate u n p = runs_action u p && gate_is p.gate_seq_id n

-- The checks of a resolution, up to the completion of the action.
unfoldable pub assert_resolved :
    Chart → GateType → ActionUid → ℕ → ChartEvent → Projection → Result (Unit {0})
assert_resolved ast type u n event p = do
  o ← require (gate_at n p.gates) (wrong_gate u.state)
  pending ← require (find (waits_at_gate u n) p.pending) (wrong_gate u.state)
  guard (same_gate_type o.gate_type type && same_action_uid o.uid u) (wrong_gate u.state)
  assert_gate_state ast type u.state
  events ← gate_events ast o u.state
  guard (not_failed event.kind && any (str_eq event.kind) events) (wrong_event u.state)

-- A pending entry that a completion record names: it runs, in this visited.
abbrev pub runs_visit : ActionUid → ℕ → PendingAction → Bool
runs_visit u visited p = runs p.phase && p.visit_id == visited && same_action_uid p.uid u

abbrev pub notifies : ActionKind → Str → Str → Bool
notifies (notify to sent) endpoint event = str_eq to endpoint && str_eq sent event
notifies _ endpoint event = false

abbrev pub waits_from : ActionKind → Str → Bool
waits_from (wait_for from event) endpoint = str_eq from endpoint
waits_from _ endpoint = false

unfoldable pub apply_notified :
    Chart → Str → Str → Json → ActionUid → ℕ → Json → Json → ℕ → Projection → Result Projection
apply_notified ast endpoint event payload u visited definition declaration seq p = do
  d ← require (lookup endpoint ast.completions) (completion_endpoint endpoint)
  guard (str_eq d.event event) (completion_endpoint endpoint)
  guard (not (has_key endpoint p.completions)) (completion_twice endpoint)
  pending ← require (find (runs_visit u visited) p.pending) (completion_source endpoint)
  guard (notifies pending.definition.kind endpoint event) (completion_source endpoint)
  guard
      (same_recorded_value pending.definition.authored definition
        && same_recorded_value d.authored declaration)
      (completion_source endpoint)
  ok (record p {
    completions =
        put endpoint
          (record {
            endpoint = endpoint;
            event = event;
            payload = payload;
            notification_seq_id = seq;
            source_uid = u;
            source_visit_id = visited;
            consumed = none;
          })
          p.completions;
  })

unfoldable pub apply_consumed :
    Chart → Str → ActionUid → ℕ → ℕ → Json → ℕ → Projection → Result Projection
apply_consumed ast endpoint u visited notification definition seq p = do
  d ← require (lookup endpoint ast.completions) (completion_endpoint endpoint)
  c ← require (lookup endpoint p.completions) (completion_claim endpoint)
  guard (c.notification_seq_id == notification && not (is_some c.consumed))
      (completion_claim endpoint)
  pending ← require (find (runs_visit u visited) p.pending) (completion_claim endpoint)
  guard
      (waits_from pending.definition.kind endpoint
        && same_recorded_value pending.definition.authored definition)
      (completion_claim endpoint)
  let claim : Consumed = record { uid = u; visit_id = visited; seq_id = seq }
  ok (record p { completions = put endpoint (record c { consumed = some claim }) p.completions })
