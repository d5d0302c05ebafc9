-- ===== src/Machine.antt =====
-- What the machine decides to start: core/machine.ts, `concurrencyBlockedActionLeaves`, `dueInvokes` and
-- the actor instances that they read.
pub mod Slots
pub mod Seats
pub mod Invokes
pub mod Due
pub mod Mail
pub mod Answers
use hyperchart.Prelude.{
  Bool, List, Option, [], any, false, if◌then◌else◌, leb, length, none, some, true, ℕ, ◌++◌, ◌∷◌,
}
use hyperchart.Actors.{actor_state_path}
use hyperchart.Chart.{
  ActorDefinition, ActorState, Chart, State, action_state, actor_action, map_state, node_at,
}
use hyperchart.Dict.{Dict, lookup, put}
use hyperchart.Paths.{Instance, nearest_instance}
use hyperchart.Projection.{
  Endpoint, Execution, ExecutionStatus, Message, PendingAction, Projection, Worker, actor_endpoints,
  closing, draining, ordinary, workers,
}
use hyperchart.Projection.Endpoints.{is_ended}
use hyperchart.Projection.Moves.{live_actor_declaration}
use hyperchart.Projection.Pending.{has_pending}
use hyperchart.Result.{Result, flat_map, message_head, ok, require, ◌>>=◌}
use hyperchart.Text.{Str, str_eq}
use hyperchart.Uid.{ActionUid}

-- set.add(key)
abbrev pub add_key : Str → List Str → List Str
add_key k ks = if any (str_eq k) ks then ks else ks ++ k ∷ []

-- running.get(container) ?? new Set()
abbrev pub or_no_keys : Option (List Str) → List Str
or_no_keys none = []
or_no_keys (some ks) = ks

abbrev pub keys_at : Str → Dict (List Str) → List Str
keys_at container slots = or_no_keys (lookup container slots)

abbrev pub occupy : Instance → Dict (List Str) → Dict (List Str)
occupy i slots = put i.container (add_key i.key (keys_at i.container slots)) slots

abbrev pub occupied_by : Option Instance → Dict (List Str) → Dict (List Str)
occupied_by none slots = slots
occupied_by (some i) slots = occupy i slots

-- The slots that pending work holds.
unfoldable pub slots_held : List PendingAction → Dict (List Str) → Dict (List Str)
slots_held [] slots = slots
slots_held (p ∷ ps) slots = slots_held ps (occupied_by (nearest_instance p.uid.state none) slots)

pub record Admission : Type 0 where
  pub blocked : List Str
  pub slots : Dict (List Str)

abbrev pub is_action_node : Option State → Bool
is_action_node (some (action_state s)) = true
is_action_node _ = false

-- container.concurrency of a map
abbrev pub limit_of : Option State → Option ℕ
limit_of (some (map_state m)) = m.concurrency
limit_of _ = none

-- An instance with a slot goes on, an idle one takes a free slot, and the others wait.
abbrev pub admit_in : Str → Instance → ℕ → Admission → Admission
admit_in leaf i limit a =
    if any (str_eq i.key) (keys_at i.container a.slots)
    then a
    else if leb limit (length (keys_at i.container a.slots))
    then record a { blocked = add_key leaf a.blocked }
    else record a { slots = occupy i a.slots }

abbrev pub admit_at : Chart → Str → Option Instance → Admission → Admission
admit_at ast leaf none a = a
admit_at ast leaf (some i) a = elim (limit_of (node_at ast i.container)) [
  | none ↦ a
  | some limit ↦ admit_in leaf i limit a
]

abbrev pub admit_leaf : Chart → Str → Admission → Admission
admit_leaf ast leaf a =
    if is_action_node (node_at ast leaf)
    then admit_at ast leaf (nearest_instance leaf none) a
    else a

unfoldable pub admit_leaves : Chart → List Str → Admission → Admission
admit_leaves ast [] a = a
admit_leaves ast (leaf ∷ leaves) a = admit_leaves ast leaves (admit_leaf ast leaf a)

-- The loop of concurrencyBlockedActionLeaves, with the slots that it ends with.
unfoldable pub admission : Chart → Projection → Admission
admission ast p =
    admit_leaves ast p.active_leaves (record { blocked = []; slots = slots_held p.pending [] })

abbrev pub concurrency_blocked_action_leaves : Chart → Projection → List Str
concurrency_blocked_action_leaves ast p = (admission ast p).blocked

-- ExecutableActorInstance: an actor by itself, or a worker of a pool.
pub record ExecutableActorInstance : Type 0 where
  pub endpoint : Endpoint
  pub occurrence : Str
  pub current_state : Str
  pub current_message : Option Message
  pub status : ExecutionStatus
  pub definition : ActorDefinition
  pub worker_index : Option ℕ

abbrev draining_if_closing : ExecutionStatus → ExecutionStatus
draining_if_closing closing = draining
draining_if_closing s = s

-- projectedActorCurrentMessage: a message that is owned must be live.
abbrev pub live_message : Projection → Str → Option Str → Result (Option Message)
live_message p occurrence none = ok none
live_message p occurrence (some id) = do
  m ← require (lookup id p.messages) (message_head occurrence)
  ok (some m)

abbrev worker_instance :
    Endpoint → ActorDefinition → Worker → Option Message → ExecutableActorInstance
worker_instance e d w m = record {
  endpoint = e;
  occurrence = w.occurrence;
  current_state = w.current_state;
  current_message = m;
  status = w.status;
  definition = d;
  worker_index = some w.index;
}

unfoldable pub worker_instances :
    Projection → Endpoint → ActorDefinition → List Worker → Result (List ExecutableActorInstance)
worker_instances p e d [] = ok []
worker_instances p e d (w ∷ ws) = do
  m ← live_message p w.occurrence w.current_message
  rest ← worker_instances p e d ws
  ok (worker_instance e d w m ∷ rest)

abbrev instances_of :
    Projection → Endpoint → ActorDefinition → Execution → Result (List ExecutableActorInstance)
instances_of p e d (ordinary state message) = do
  m ← live_message p e.occurrence message
  ok (
      record {
        endpoint = e;
        occurrence = e.occurrence;
        current_state = state;
        current_message = m;
        status = draining_if_closing e.status;
        definition = d;
        worker_index = none;
      }
      ∷ [])
instances_of p e d (workers ws) = worker_instances p e d ws

unfoldable pub executable_actor_instances :
    Chart → Projection → Result (List ExecutableActorInstance)
executable_actor_instances ast p =
    flat_map
      (λ (e : Endpoint). live_actor_declaration ast e.declaration e.occurrence >>= λ live.
        instances_of p e live.definition e.execution)
      (actor_endpoints p)

abbrev pub unless_pending : Projection → ActionUid → List ActionUid
unless_pending p u = if has_pending u p.pending then [] else u ∷ []

abbrev pub node_invoke : Projection → List Str → Str → Option State → List ActionUid
node_invoke p blocked leaf (some (action_state s)) =
    if any (str_eq leaf) blocked
    then []
    else unless_pending p (record s.action.uid { state = leaf })
node_invoke p blocked leaf _ = []

abbrev pub leaf_invoke : Chart → Projection → List Str → Str → List ActionUid
leaf_invoke ast p blocked leaf = node_invoke p blocked leaf (node_at ast leaf)

unfoldable pub leaf_invokes : Chart → Projection → List Str → List Str → List ActionUid
leaf_invokes ast p blocked [] = []
leaf_invokes ast p blocked (leaf ∷ leaves) =
    leaf_invoke ast p blocked leaf ++ leaf_invokes ast p blocked leaves

abbrev actor_state_invoke :
    Projection → ExecutableActorInstance → Option ActorState → List ActionUid
actor_state_invoke p x (some (actor_action s)) =
    unless_pending p (record s.action.uid { state = actor_state_path x.occurrence x.current_state })
actor_state_invoke p x _ = []

unfoldable pub actor_invokes : Projection → List ExecutableActorInstance → List ActionUid
actor_invokes p [] = []
actor_invokes p (x ∷ xs) =
    let later = actor_invokes p xs in
    if is_ended x.status
    then later
    else actor_state_invoke p x (lookup x.current_state x.definition.states) ++ later

-- dueInvokes
unfoldable pub due_invokes : Chart → Projection → Result (List ActionUid)
due_invokes ast p = do
  xs ← executable_actor_instances ast p
  ok (
      leaf_invokes ast p (concurrency_blocked_action_leaves ast p) p.active_leaves
      ++ actor_invokes p xs)
