-- ===== src/Projection/Endpoints/Created.antt =====
-- The birth of an actor occurrence: `assertActorCreated` and the `actor_created` record.
use hyperchart.Prelude.{
  Bool, List, Option, [], any, false, if◌then◌else◌, keep, leb, ltb, none, not, some, suc, true,
  zero, ℕ, ◌+◌, ◌==◌, ◌∷◌,
}
use hyperchart.Actors.{
  actor_generation_path, actor_logical_occurrence_path, actor_occurrence_path,
  actor_pool_worker_occurrence_path,
}
use hyperchart.Chart.{ActorDeclaration, Chart, EndpointKind, map_state, node_at, pool, single}
use hyperchart.Dict.{has_key, lookup, put}
use hyperchart.Entry.{is_some}
use hyperchart.Json.{Json}
use hyperchart.Paths.{last_segment_key, strip_last_key, template_path, under_scope}
use hyperchart.Projection.{
  Endpoint, Execution, Projection, Worker, actor_endpoint, actor_endpoints, idle, ordinary, workers,
}
use hyperchart.Projection.Joins.{is_stopped}
use hyperchart.Projection.Moves.{live_actor_declaration}
use hyperchart.Result.{
  Result, actor_generation, actor_owner, actor_provenance, actor_status, actor_twice, guard, ok,
  require, ◌>>=◌, ◌>>◌,
}
use hyperchart.Text.{Str, str_eq}

pub record Creation : Type 0 where
  pub declaration : Str
  pub occurrence : Str
  pub generation : ℕ
  pub owner : Option Str
  pub input : Json
  pub definition : ActorDeclaration

abbrev pub same_endpoint_kind : EndpointKind → EndpointKind → Bool
same_endpoint_kind single single = true
same_endpoint_kind (pool a) (pool b) = true
same_endpoint_kind _ _ = false

-- Both owners are absent, or the concrete one has the declared one as its template.
abbrev pub same_owner : Option Str → Option Str → Bool
same_owner none none = true
same_owner (some declared) (some owner) = str_eq (template_path owner) declared
same_owner _ _ = false

-- An owner that is a map instance has been spawned.
abbrev pub spawned_instance : Projection → Str → Bool
spawned_instance p owner = elim (last_segment_key owner) [
  | none ↦ false
  | some key ↦ elim (lookup (strip_last_key owner) p.spawns) [
    | none ↦ false
    | some instances ↦ has_key key instances
  ]
]

abbrev pub owner_spawned : Chart → Projection → Str → Str → Bool
owner_spawned ast p declared owner = elim (node_at ast declared) [
  | some (map_state m) ↦ spawned_instance p owner
  | _ ↦ true
]

unfoldable pub assert_owner : Chart → Projection → Creation → Result (Unit {0})
assert_owner ast p r = elim r.owner [
  | none ↦ ok tt
  | some owner ↦ do
    declared ← require r.definition.owner (actor_owner r.occurrence)
    guard (owner_spawned ast p declared owner) (actor_owner r.occurrence)
    guard (any (λ (l : Str). under_scope l owner) p.active_leaves) (actor_owner r.occurrence)
]

-- The newest of the generations of a logical occurrence: the first of a stable descending sort.
abbrev pub newer : Endpoint → Option Endpoint → Endpoint
newer e none = e
newer e (some b) = if ltb e.generation b.generation then b else e

unfoldable pub latest_of : List Endpoint → Option Endpoint
latest_of [] = none
latest_of (e ∷ es) = some (newer e (latest_of es))

unfoldable pub prior_generation : Projection → Str → Option Endpoint
prior_generation p logical =
    latest_of (keep (λ (e : Endpoint). str_eq e.logical_occurrence logical) (actor_endpoints p))

abbrev pub next_generation : Option Endpoint → ℕ
next_generation none = 1
next_generation (some e) = e.generation + 1

abbrev pub has_stopped : Option Endpoint → Bool
has_stopped none = true
has_stopped (some e) = is_stopped e.status

unfoldable pub assert_created : Chart → Projection → Creation → Result ActorDeclaration
assert_created ast p r = do
  guard (not (is_some (actor_endpoint p r.occurrence))) (actor_twice r.occurrence)
  live ← live_actor_declaration ast r.declaration r.occurrence
  guard (same_endpoint_kind r.definition.kind live.kind) (actor_provenance r.occurrence)
  guard (str_eq r.definition.path r.declaration) (actor_provenance r.occurrence)
  guard (leb 1 r.generation) (actor_generation r.occurrence)
  guard (same_owner r.definition.owner r.owner) (actor_owner r.occurrence)
  assert_owner ast p r
  let logical = actor_logical_occurrence_path r.occurrence r.generation
  guard (str_eq logical (actor_occurrence_path r.definition.path r.owner))
      (actor_provenance r.occurrence)
  guard (str_eq r.occurrence (actor_generation_path logical r.generation))
      (actor_generation r.occurrence)
  guard (r.generation == next_generation (prior_generation p logical))
      (actor_generation r.occurrence)
  guard (has_stopped (prior_generation p logical)) (actor_status r.occurrence)
  ok live

-- Array.from({ length: concurrency }, …), from a first index
unfoldable pub new_workers : Str → Str → ℕ → ℕ → List Worker
new_workers occurrence initial index zero = []
new_workers occurrence initial index (suc n) =
    record {
      index = index;
      occurrence = actor_pool_worker_occurrence_path occurrence index;
      current_state = initial;
      current_message = none;
      status = idle;
    }
    ∷ new_workers occurrence initial (suc index) n

abbrev pub new_execution : Str → Str → EndpointKind → Execution
new_execution occurrence initial single = ordinary initial none
new_execution occurrence initial (pool concurrency) =
    workers (new_workers occurrence initial 0 concurrency)

unfoldable pub new_endpoint : Creation → ActorDeclaration → Endpoint
new_endpoint r live = record {
  declaration = r.declaration;
  logical_occurrence = actor_logical_occurrence_path r.occurrence r.generation;
  occurrence = r.occurrence;
  generation = r.generation;
  owner = r.owner;
  input = r.input;
  definition = r.definition;
  mailbox = [];
  status = idle;
  execution = new_execution r.occurrence live.definition.initial live.kind;
}

-- A pool and an ordinary actor are kept apart.
unfoldable pub store_endpoint : EndpointKind → Endpoint → Projection → Projection
store_endpoint single e p = record p { actors = put e.occurrence e p.actors }
store_endpoint (pool concurrency) e p = record p { actor_pools = put e.occurrence e p.actor_pools }

unfoldable pub apply_created : Chart → Creation → Projection → Result Projection
apply_created ast r p = do
  live ← assert_created ast p r
  ok (store_endpoint live.kind (new_endpoint r live) p)
