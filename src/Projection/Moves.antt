-- ===== src/Projection/Moves.antt =====
-- Moves: what a transition does to the active leaves, to the actors and to pending work,
-- `exitAndEnter`, `applyTransition` and `applyAfterTransition` of projection.ts.
pub mod Leaves
pub mod Abandon
use hyperchart.Prelude.{
  Bool, List, Option, [], any, false, get_elem?, if◌then◌else◌, none, some, suc, true, zero, ℕ,
  ◌++◌, ◌∷◌,
}
use hyperchart.Actors.{ActorContext, actor_context_for_state, actor_state_path}
use hyperchart.Chart.{ActorDeclaration, ActorState, Chart, Schema, Transition, actor_action}
use hyperchart.Dict.{Dict, has_key, lookup, put, values}
use hyperchart.Entry.{enter_state, find_handler, read_transition}
use hyperchart.Paths.{sibling_path}
use hyperchart.Projection.{
  ChartEvent, Endpoint, Execution, OpenedGate, PendingAction, Projection, Run, Worker,
  actor_endpoint, ordinary, remove_gate_of, workers,
}
use hyperchart.Projection.Inputs.{EntryEvent, apply_inputs_for_entry, resolve_input_values}
use hyperchart.Projection.Joins.{complete_parallels, leaves_outside}
use hyperchart.Projection.Refs.{action_state_at}
use hyperchart.Result.{
  Result, actor_missing, err, guard, inactive_state, invalid_action, no_after, no_transition, ok,
  require, worker_index, ◌>>=◌, ◌>>◌,
}
use hyperchart.Text.{Str, str_eq}
use hyperchart.Uid.{ActionUid, matches_declared_uid}

pub record ActorExecution : Type 0 where
  pub endpoint : Endpoint
  pub worker : Option Worker

-- The worker of the context, when its endpoint is a pool.
abbrev worker_in : Option ℕ → Endpoint → Option Worker
worker_in none e = none
worker_in (some i) e = elim e.execution [
  | ordinary current_state current_message ↦ none
  | workers ws ↦ get_elem? ws i
]

unfoldable pub actor_execution : Projection → ActorContext → Result ActorExecution
actor_execution p c = do
  e ← require (actor_endpoint p c.endpoint_occurrence) (actor_missing c.endpoint_occurrence)
  ok (record { endpoint = e; worker = worker_in c.worker_index e })

-- worker?.currentState ?? endpoint.currentState; a pool itself has no current state.
unfoldable pub execution_current_state : ActorExecution → Option Str
execution_current_state x = elim x.worker [
  | some w ↦ some w.current_state
  | none ↦ elim x.endpoint.execution [
    | ordinary current_state current_message ↦ some current_state
    | workers ws ↦ none
  ]
]

abbrev pub state_is : Option Str → Str → Bool
state_is none local = false
state_is (some s) local = str_eq s local

-- The workers with the worker `i` replaced.
unfoldable pub set_worker : ℕ → Worker → List Worker → List Worker
set_worker i w [] = []
set_worker zero w (v ∷ vs) = w ∷ vs
set_worker (suc i) w (v ∷ vs) = v ∷ set_worker i w vs

abbrev pub moved_to : ActorExecution → Str → Execution
moved_to x target = elim x.endpoint.execution [
  | ordinary current_state current_message ↦ ordinary target current_message
  | workers ws ↦ elim x.worker [
    | none ↦ workers ws
    | some w ↦ workers (set_worker w.index (record w { current_state = target }) ws)
  ]
]

-- The endpoint written back where `projectedActorEndpoint` finds it.
unfoldable pub put_endpoint : Str → Endpoint → Projection → Projection
put_endpoint occurrence e p =
    if has_key occurrence p.actors
    then record p { actors = put occurrence e p.actors }
    else record p { actor_pools = put occurrence e p.actor_pools }

unfoldable pub set_execution_current_state : Str → ActorExecution → Str → Projection → Projection
set_execution_current_state occurrence x target p =
    put_endpoint occurrence (record (x.endpoint) { execution = moved_to x target }) p

abbrev pub is_active_leaf : Projection → Str → Bool
is_active_leaf p state = any (str_eq state) p.active_leaves

-- isActionActive: an active leaf, or the current state of the actor that the path names.
unfoldable pub is_action_active : Chart → Projection → Str → Result Bool
is_action_active ast p state =
    if is_active_leaf p state then ok true else elim (actor_context_for_state ast state) [
      | none ↦ ok false
      | some c ↦ do x ← actor_execution p c; ok (state_is (execution_current_state x) c.local_state)
    ]

unfoldable pub assert_active_action_uid : Chart → Str → ActionUid → Result (Unit {0})
assert_active_action_uid ast state actual = do
  s ← require (action_state_at ast state) (invalid_action state)
  guard (matches_declared_uid actual s.action.uid) (invalid_action state)

-- liveActorDeclaration
abbrev pub live_actor_declaration : Chart → Str → Str → Result ActorDeclaration
live_actor_declaration ast declaration occurrence =
    require (lookup declaration ast.actors) (actor_missing occurrence)

abbrev pub declared_inputs : Option ActorState → Option (Dict Schema)
declared_inputs (some (actor_action s)) = s.declared
declared_inputs _ = none

abbrev pub occurrence_of : ActorExecution → Str
occurrence_of x = elim x.worker [ none ↦ x.endpoint.occurrence | some w ↦ w.occurrence ]

unfoldable pub apply_actor_input_for_entry :
    Chart → ActorExecution → Str → Option EntryEvent → Projection → Result Projection
apply_actor_input_for_entry ast x target entry p = do
  d ← live_actor_declaration ast x.endpoint.declaration x.endpoint.occurrence
  elim (declared_inputs (lookup target d.definition.states)) [
    | none ↦ ok p
    | some declared ↦ do
      let at = actor_state_path (occurrence_of x) target
      values ← resolve_input_values ast p declared entry at
      ok (record p { inputs = put at values p.inputs })
  ]

-- Pending work sorted by whether its action is still active.
pub record Sorted : Type 0 where
  pub kept : List PendingAction
  pub gone : List PendingAction

abbrev pub sorted_in : Bool → PendingAction → Sorted → Sorted
sorted_in true p s = record s { kept = p ∷ s.kept }
sorted_in false p s = record s { gone = p ∷ s.gone }

unfoldable pub sort_pending : Chart → Projection → List PendingAction → Result Sorted
sort_pending ast proj [] = ok (record { kept = []; gone = [] })
sort_pending ast proj (p ∷ ps) = do
  active ← is_action_active ast proj p.uid.state
  rest ← sort_pending ast proj ps
  ok (sorted_in active p rest)

-- The gates of dropped work are deleted.
unfoldable pub close_gates : List PendingAction → List (ℕ × OpenedGate) → List (ℕ × OpenedGate)
close_gates [] gs = gs
close_gates (p ∷ ps) gs = close_gates ps (remove_gate_of p.gate_seq_id gs)

-- The leaves under the exit are replaced by the entered ones.
unfoldable pub move_leaves : Chart → ℕ → Str → Str → Projection → Result Projection
move_leaves ast fuel exit target p = do
  entered ← enter_state ast fuel target
  ok (record p { active_leaves = leaves_outside exit p.active_leaves ++ entered })

unfoldable pub abandon_pending : Chart → Run → Result Run
abandon_pending ast r = do
  sorted ← sort_pending ast r.projection r.projection.pending
  ok (record r {
    projection = record (r.projection) {
      pending = sorted.kept;
      gates = close_gates sorted.gone r.projection.gates;
    };
    abandoned = r.abandoned ++ sorted.gone;
  })

unfoldable pub settle_joins : Chart → ℕ → Run → Result Run
settle_joins ast fuel r = do
  p ← complete_parallels ast fuel fuel r.projection
  ok (record r { projection = p })

-- `fuel` bounds each entry and the rounds of joins.
unfoldable pub exit_and_enter : Chart → ℕ → Str → Str → Run → Result Run
exit_and_enter ast fuel exit target r = do
  p ← move_leaves ast fuel exit target r.projection
  s ← abandon_pending ast (record r { projection = p })
  settle_joins ast fuel s

-- A move of an actor by itself: its inputs, then its current state.
unfoldable pub move_actor :
    Chart → ActorContext → Str → Str → Option EntryEvent → Projection → Result Projection
move_actor ast c leaf target entry p = do
  x ← actor_execution p c
  guard (state_is (execution_current_state x) c.local_state) (inactive_state leaf)
  q ← apply_actor_input_for_entry ast x target entry p
  ok (set_execution_current_state c.endpoint_occurrence x target q)

-- The actor's own transition on an event; only its action states have them.
abbrev pub actor_transition : ActorState → Str → Str → Result Transition
actor_transition (actor_action s) event leaf =
    require (read_transition event s.transitions) (no_transition leaf)
actor_transition _ event leaf = err (no_transition leaf)

unfoldable pub actor_event :
    Chart → ActorContext → Str → ChartEvent → Projection → Result Projection
actor_event ast c leaf event p = do
  x ← actor_execution p c
  guard (state_is (execution_current_state x) c.local_state) (inactive_state leaf)
  t ← actor_transition c.node event.kind leaf
  move_actor ast c leaf t.target (some (record { transition = t; event = event; scope = leaf })) p

-- The chart's transition: the closest handler decides the exit scope and the target's level.
unfoldable pub chart_event : Chart → ℕ → Str → ChartEvent → Run → Result Run
chart_event ast fuel leaf event r = do
  found ← find_handler ast leaf event.kind
  h ← require found (no_transition leaf)
  let target = sibling_path h.path h.transition.target
  p ←
      apply_inputs_for_entry ast fuel target
        (some (record { transition = h.transition; event = event; scope = h.path })) r.projection
  exit_and_enter ast fuel h.path target (record r { projection = p })

unfoldable pub apply_transition : Chart → ℕ → Str → ChartEvent → Run → Result Run
apply_transition ast fuel leaf event r = elim (actor_context_for_state ast leaf) [
  | none ↦ chart_event ast fuel leaf event r
  | some c ↦ do p ← actor_event ast c leaf event r.projection; ok (record r { projection = p })
]

unfoldable pub apply_after_transition : Chart → ℕ → Str → Run → Result Run
apply_after_transition ast fuel leaf r = do
  s ← require (action_state_at ast leaf) (no_after leaf)
  after ← require s.after (no_after leaf)
  elim (actor_context_for_state ast leaf) [
    | none ↦ do
      let target = sibling_path leaf after.target
      p ← apply_inputs_for_entry ast fuel target none r.projection
      exit_and_enter ast fuel leaf target (record r { projection = p })
    | some c ↦ do
      p ← move_actor ast c leaf after.target none r.projection
      ok (record r { projection = p })
  ]
