-- ===== src/Machine/Due.antt =====
-- More of what is due: core/machine.ts, the maps to spawn, the messaging states and the actors that they
-- address; and the outcome of a final machine, execution/run_outcome.ts.
use hyperchart.Prelude.{
  Bool, List, Option, [], all, any, false, get_elem?, if◌then◌else◌, keep, leb, none, not, some,
  suc, ℕ, ◌&&◌, ◌++◌, ◌==◌, ◌||◌, ◌∷◌,
}
use hyperchart.Actors.{actor_context_for_state, actor_state_path}
use hyperchart.Chart.{
  ActorState, Chart, MapState, Messaging, State, actor_messaging, final, map_state, messaging,
  node_at,
}
use hyperchart.Dict.{Dict, lookup}
use hyperchart.Entry.{is_some}
use hyperchart.Json.{Items, Json, arr, cons, fields, nil, obj}
use hyperchart.Machine.{ExecutableActorInstance, executable_actor_instances}
use hyperchart.Paths.{instance_path_for, last_segment_key}
use hyperchart.Paths.MapKeys.{canonical_map_keys}
use hyperchart.Projection.{
  Endpoint, Execution, Projection, actor_endpoint, actor_endpoints, ordinary, workers,
}
use hyperchart.Projection.Branch.{Record, spawned}
use hyperchart.Projection.Endpoints.{is_ended}
use hyperchart.Projection.Endpoints.Created.{latest_of}
use hyperchart.Projection.Refs.{resolve_ref, worker_message}
use hyperchart.Result.{Result, err, flat_map, guard, no_instance, not_a_map, ok, ◌>>=◌, ◌>>◌}
use hyperchart.Text.{Str, str_eq, text}
use hyperchart.Text.Decimal.{decimal}

-- Object.fromEntries(over.map((item, index) => [String(index), item])), from a first index
abbrev pub indexed_from : ℕ → Items → Dict Json
indexed_from index nil = []
indexed_from index (cons item rest) = (decimal index, item) ∷ indexed_from (suc index) rest

-- A record as it is, an array by its indexes; nothing else can be spawned over.
abbrev pub instances_over : Str → Json → Result (Dict Json)
instances_over leaf (obj fs) = ok (fields fs)
instances_over leaf (arr vs) = ok (indexed_from 0 vs)
instances_over leaf _ = err (not_a_map leaf)

-- /^[A-Za-z0-9_-]+$/
abbrev pub is_key_unit : ℕ → Bool
is_key_unit c =
    leb 65 c && leb c 90 || leb 97 c && leb c 122 || leb 48 c && leb c 57 || c == 95 || c == 45

abbrev pub is_instance_key : Str → Bool
is_instance_key [] = false
is_instance_key (c ∷ s) = all is_key_unit (c ∷ s)

pub record RecordAppend : Type 0 where
  pub id : Str
  pub records : List Record

unfoldable pub spawn_of : Chart → Projection → Str → MapState → Result RecordAppend
spawn_of ast p leaf m = do
  over ← resolve_ref ast p m.over leaf
  instances ← instances_over leaf over
  guard (all is_instance_key (canonical_map_keys instances)) (no_instance leaf)
  ok (record { id = text "spawn:" ++ leaf; records = spawned leaf instances ∷ [] })

abbrev pub spawns_at : Chart → Projection → Str → Option State → Result (List RecordAppend)
spawns_at ast p leaf (some (map_state m)) =
    if is_some (last_segment_key leaf) then ok [] else spawn_of ast p leaf m >>= λ s. ok (s ∷ [])
spawns_at ast p leaf _ = ok []

-- dueSpawns: each leaf that is a map and no instance of one.
unfoldable pub due_spawns : Chart → Projection → Result (List RecordAppend)
due_spawns ast p =
    flat_map (λ (leaf : Str). spawns_at ast p leaf (node_at ast leaf)) p.active_leaves

pub record MessagingState : Type 0 where
  pub path : Str
  pub node : Messaging

abbrev leaf_messaging : Str → Option State → List MessagingState
leaf_messaging leaf (some (messaging m)) = record { path = leaf; node = m } ∷ []
leaf_messaging leaf _ = []

abbrev actor_state_messaging : ExecutableActorInstance → Option ActorState → List MessagingState
actor_state_messaging x (some (actor_messaging m)) =
    record { path = actor_state_path x.occurrence x.current_state; node = m } ∷ []
actor_state_messaging x _ = []

abbrev leaves_messaging : Chart → List Str → List MessagingState
leaves_messaging ast [] = []
leaves_messaging ast (leaf ∷ leaves) =
    leaf_messaging leaf (node_at ast leaf) ++ leaves_messaging ast leaves

abbrev actors_messaging : List ExecutableActorInstance → List MessagingState
actors_messaging [] = []
actors_messaging (x ∷ xs) =
    let later = actors_messaging xs in
    if is_ended x.status
    then later
    else actor_state_messaging x (lookup x.current_state x.definition.states) ++ later

-- messagingStates
unfoldable pub messaging_states : Chart → Projection → Result (List MessagingState)
messaging_states ast p = do
  xs ← executable_actor_instances ast p
  ok (leaves_messaging ast p.active_leaves ++ actors_messaging xs)

-- targetActorForProducer: the newest generation that has not ended.
unfoldable pub target_actor_for_producer : Projection → Str → Str → Option Endpoint
target_actor_for_producer p declaration producer =
    let logical = instance_path_for declaration producer in
    latest_of (
      keep (λ (e : Endpoint). str_eq e.logical_occurrence logical && not (is_ended e.status))
        (actor_endpoints p))

abbrev pub is_failed_final : Option State → Bool
is_failed_final (some (final is_failed)) = is_failed
is_failed_final _ = false

pub data RunTerminalState : Type 0 where
  run_complete run_failed : RunTerminalState

-- terminalStateForFinalMachine
unfoldable pub terminal_state_for_final_machine : Chart → Projection → RunTerminalState
terminal_state_for_final_machine ast p =
    if is_some p.failure || any (λ (leaf : Str). is_failed_final (node_at ast leaf)) p.active_leaves
    then run_failed
    else run_complete

abbrev works_at : Option ℕ → Execution → Bool
works_at index (ordinary state message) = is_some message
works_at none (workers ws) = false
works_at (some i) (workers ws) = is_some (worker_message (get_elem? ws i))

-- producerMayUseClosingActor
unfoldable pub producer_may_use_closing_actor : Chart → Projection → Str → Bool
producer_may_use_closing_actor ast p producer = elim (actor_context_for_state ast producer) [
  | none ↦ false
  | some c ↦ elim (actor_endpoint p c.endpoint_occurrence) [
    | none ↦ false
    | some e ↦ works_at c.worker_index e.execution
  ]
]
