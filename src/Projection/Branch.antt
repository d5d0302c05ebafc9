-- ===== src/Projection/Branch.antt =====
-- Replay: `projectBranch` and `createBranchProjection` of projection.ts, over the durable records of
-- durable_events.ts.
pub mod Replay
pub mod Frame
pub mod Control
pub mod Leaves
pub mod Moved
pub mod Sequence
pub mod Written
pub mod Mailbox
pub mod Delivery
pub mod Traffic
pub mod Records
pub mod Every
pub mod Gates
pub mod Endpoints
use hyperchart.Prelude.{
  Bool, List, Option, [], all, false, if◌then◌else◌, keep, length, ltb, max, none, not, some, true,
  ℕ, ◌&&◌, ◌++◌, ◌∷◌,
}
use hyperchart.Chart.{Action, Chart, MapState, State, gate, is_final_state, map_state, node_at}
use hyperchart.Dict.{Dict, lookup, put}
use hyperchart.Entry.{enter_state, is_some}
use hyperchart.Json.{Json, str, undefined}
use hyperchart.Paths.{sibling_path}
use hyperchart.Paths.MapKeys.{canonical_map_keys}
use hyperchart.Projection.{
  ChartEvent, Failure, GateType, OpenedGate, Projection, ProvisionalPins, Run, remove_gate,
}
use hyperchart.Projection.Endpoints.Calls.{
  BatchResult, CallResult, apply_batch_resolved, apply_call_resolved,
}
use hyperchart.Projection.Endpoints.Created.{Creation, apply_created}
use hyperchart.Projection.Endpoints.Ends.{apply_closing, apply_stopped}
use hyperchart.Projection.Endpoints.Enqueued.{Enqueue, apply_enqueued}
use hyperchart.Projection.Endpoints.Messages.{
  Acceptance, Replying, Settlement, apply_accepted, apply_replied, apply_settled,
}
use hyperchart.Projection.Gates.{apply_consumed, apply_notified, apply_opened, assert_resolved}
use hyperchart.Projection.Inputs.{apply_inputs_for_entry}
use hyperchart.Projection.Joins.{complete_parallels}
use hyperchart.Projection.Moves.{is_active_leaf}
use hyperchart.Projection.Records.{
  apply_action_completion, apply_invoke, apply_timer_fired, apply_validated, on_projection,
  record_skipped,
}
use hyperchart.Projection.Retry.{RetryRecord, apply_action_retry}
use hyperchart.Result.{
  Result, err, flat_map, guard, not_a_map, ok, require, second_failure, ◌>>=◌, ◌>>◌,
}
use hyperchart.Text.{Str, str_eq, text}
use hyperchart.Uid.{ActionUid, action_uid_key}

-- `artifacts` of a complete record, with its branch.
pub data Record : Type 0 where
  session_ref : (uid : Option ActionUid) (file : Str) → Record
  args_record : Dict Json → Record
  failure_intent : (origin : Str) (error : Json) → Record
  notified :
      (endpoint event : Str) (payload : Json) (uid : ActionUid) (visit_id : ℕ)
      (definition declaration : Json)
      → Record
  consumed_record :
      (endpoint : Str) (uid : ActionUid) (visit_id notification : ℕ) (definition : Json) → Record
  emit : Record
  spawned : (path : Str) (instances : Dict Json) → Record
  opened : OpenedGate → Record
  resolved : (gate_type : GateType) (uid : ActionUid) (gate : ℕ) (event : ChartEvent) → Record
  invoke : (uid : ActionUid) (session : Str) (definition : Option Action) (timestamp : ℕ) → Record
  complete : (uid : ActionUid) (event : ChartEvent) (artifacts : Option ProvisionalPins) → Record
  retry : RetryRecord → Record
  timer_fired : ActionUid → Record
  validated : (uid : ActionUid) (branch : Str) (outcome : Bool) (event : ChartEvent) → Record
  actor_created : Creation → Record
  messages_enqueued : Enqueue → Record
  message_accepted : Acceptance → Record
  message_replied : Replying → Record
  message_settled : Settlement → Record
  call_resolved : CallResult → Record
  batch_call_resolved : BatchResult → Record
  scope_closing scope_stopped : (occurrence : Str) → Record

pub record Logged : Type 0 where
  pub number : ℕ
  pub record_of : Record

abbrev pub instance_of : Str → Str → Str
instance_of p key = p ++ b'#' ∷ key

-- The instances entered, each resting on its own leaves; a map with none completes at once.
unfoldable pub spawn_leaves : Chart → ℕ → Str → MapState → List Str → Result (List Str)
spawn_leaves ast fuel p m [] = enter_state ast fuel (sibling_path p m.on_done)
spawn_leaves ast fuel p m (k ∷ ks) =
    flat_map (λ (key : Str). enter_state ast fuel (instance_of p key)) (k ∷ ks)

abbrev pub item_of : Str → Dict Json → Json
item_of key instances = elim (lookup key instances) [ none ↦ undefined | some v ↦ v ]

-- The inputs of each instance: its key and item, then what its entry declares.
unfoldable pub spawn_inputs :
    Chart → ℕ → Str → Dict Json → List Str → Projection → Result Projection
spawn_inputs ast fuel p instances [] proj = ok proj
spawn_inputs ast fuel p instances (k ∷ ks) proj = do
  let birth = (text "key", str k) ∷ (text "item", item_of k instances) ∷ []
  next ←
      apply_inputs_for_entry ast fuel (instance_of p k) none
        (record proj { inputs = put (instance_of p k) birth proj.inputs })
  spawn_inputs ast fuel p instances ks next

unfoldable pub spawned_entry :
    Chart → ℕ → Str → MapState → Dict Json → List Str → Projection → Result Projection
spawned_entry ast fuel p m instances [] proj =
    apply_inputs_for_entry ast fuel (sibling_path p m.on_done) none proj
spawned_entry ast fuel p m instances (k ∷ ks) proj = spawn_inputs ast fuel p instances (k ∷ ks) proj

unfoldable pub spawn_map : Chart → ℕ → Str → State → Dict Json → Projection → Result Projection
spawn_map ast fuel p (map_state m) instances proj = do
  let found = canonical_map_keys instances
  entered ← spawn_leaves ast fuel p m found
  next ← spawned_entry ast fuel p m instances found (record proj {
    spawns = put p instances proj.spawns;
    active_leaves = keep (λ (l : Str). not (str_eq l p)) proj.active_leaves ++ entered;
  })
  complete_parallels ast fuel fuel next
spawn_map ast fuel p _ instances proj = err (not_a_map p)

unfoldable pub apply_spawned : Chart → ℕ → Str → Dict Json → ℕ → Run → Result Run
apply_spawned ast fuel p instances seq r =
    if is_active_leaf r.projection p
    then (do
      node ← require (node_at ast p) (not_a_map p)
      next ← spawn_map ast fuel p node instances r.projection
      ok (record r { projection = next }))
    else ok (record_skipped seq p r)

unfoldable pub apply_failure : Str → Json → ℕ → Projection → Result Projection
apply_failure origin error seq p = do
  guard (not (is_some p.failure)) (second_failure origin)
  let f : Failure = record { origin = origin; error = error; seq_id = seq }
  ok (record p { failure = some f; gates = [] })

abbrev pub with_projection : Run → Result Projection → Result Run
with_projection r m = m >>= λ p. ok (record r { projection = p })

abbrev pub store_session : Option ActionUid → Str → Projection → Projection
store_session none file p = p
store_session (some u) file p = record p { sessions = put (action_uid_key u) file p.sessions }

-- One record, up to the sequence number. A resolved gate is deleted before the action completes.
unfoldable pub apply_record : Chart → ℕ → Record → ℕ → Run → Result Run
apply_record ast fuel (session_ref u file) seq r = ok (on_projection (store_session u file) r)
apply_record ast fuel (args_record args) seq r =
    ok (on_projection (λ (p : Projection). record p { args = some args }) r)
apply_record ast fuel (failure_intent origin error) seq r =
    with_projection r (apply_failure origin error seq r.projection)
apply_record ast fuel (notified endpoint event payload u visited definition declaration) seq r =
    with_projection r
      (apply_notified ast endpoint event payload u visited definition declaration seq r.projection)
apply_record ast fuel (consumed_record endpoint u visited notification definition) seq r =
    with_projection r
      (apply_consumed ast endpoint u visited notification definition seq r.projection)
apply_record ast fuel emit seq r = ok r
apply_record ast fuel (spawned path instances) seq r = apply_spawned ast fuel path instances seq r
apply_record ast fuel (opened o) seq r = with_projection r (apply_opened ast o seq r.projection)
apply_record ast fuel (resolved type u n event) seq r = do
  assert_resolved ast type u n event r.projection
  apply_action_completion ast fuel u event none seq false
      (on_projection (λ (p : Projection). record p { gates = remove_gate n p.gates }) r)
apply_record ast fuel (invoke u session definition timestamp) seq r =
    apply_invoke ast u session definition timestamp seq r
apply_record ast fuel (complete u event artifacts) seq r =
    apply_action_completion ast fuel u event artifacts seq true r
apply_record ast fuel (retry record_of) seq r =
    with_projection r (apply_action_retry record_of r.projection)
apply_record ast fuel (timer_fired u) seq r = apply_timer_fired ast fuel u seq r
apply_record ast fuel (validated u branch outcome event) seq r =
    apply_validated ast fuel u branch outcome event seq r
apply_record ast fuel (actor_created c) seq r = with_projection r (apply_created ast c r.projection)
apply_record ast fuel (messages_enqueued q) seq r = apply_enqueued ast fuel q r
apply_record ast fuel (message_accepted a) seq r =
    with_projection r (apply_accepted ast a r.projection)
apply_record ast fuel (message_replied m) seq r =
    with_projection r (apply_replied ast m r.projection)
apply_record ast fuel (message_settled s) seq r =
    with_projection r (apply_settled ast s r.projection)
apply_record ast fuel (call_resolved c) seq r = apply_call_resolved ast fuel c r
apply_record ast fuel (batch_call_resolved c) seq r = apply_batch_resolved ast fuel c r
apply_record ast fuel (scope_closing occurrence) seq r =
    with_projection r (apply_closing occurrence r.projection)
apply_record ast fuel (scope_stopped occurrence) seq r =
    with_projection r (apply_stopped ast fuel occurrence r.projection)

-- projection.seqId = Math.max(projection.seqId, record.seqId)
unfoldable pub apply_logged : Chart → ℕ → Logged → Run → Result Run
apply_logged ast fuel l r = do
  next ← apply_record ast fuel l.record_of l.number r
  ok (on_projection (λ (p : Projection). record p { seq_id = max p.seq_id l.number }) next)

unfoldable pub project_branch : Chart → ℕ → List Logged → Run → Result Run
project_branch ast fuel [] r = ok r
project_branch ast fuel (l ∷ ls) r = apply_logged ast fuel l r >>= project_branch ast fuel ls

abbrev pub empty_projection : List Str → Projection
empty_projection leaves = record {
  active_leaves = leaves;
  seq_id = 0;
  pending = [];
  gates = [];
  completions = [];
  args = none;
  spawns = [];
  inputs = [];
  results = [];
  state_visits = [];
  sessions = [];
  artifact_pins = [];
  failure = none;
  actors = [];
  actor_pools = [];
  messages = [];
  calls = [];
  producer_visits = [];
}

unfoldable pub create_branch_projection : Chart → ℕ → Result Projection
create_branch_projection ast fuel = do
  leaves ← enter_state ast fuel ast.initial
  p ← apply_inputs_for_entry ast fuel ast.initial none (empty_projection leaves)
  complete_parallels ast fuel fuel p

-- isFinalState
unfoldable pub is_final_projection : Projection → Chart → Bool
is_final_projection p ast =
    ltb 0 (length p.active_leaves)
    && all (λ (l : Str). is_final_state (node_at ast l)) p.active_leaves
