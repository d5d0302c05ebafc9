-- ===== src/Actors.antt =====
-- Actor occurrences and the actor workflow state that a path names,
-- packages/hyperchart/src/core/actors.ts.
pub mod Occurrence
use hyperchart.Prelude.{
  Bool, List, Option, [], any, drop, find, if◌then◌else◌, leb, length, ltb, none, reverse, some,
  suc, take, ℕ, ◌&&◌, ◌++◌, ◌+◌, ◌-◌, ◌==◌, ◌^◌, ◌||◌, ◌∷◌,
}
use hyperchart.Chart.{ActorDeclaration, ActorState, Chart, EndpointKind, pool, single}
use hyperchart.Dict.{lookup, values}
use hyperchart.Paths.{instance_path_for, is_worker, template_path, worker_prefix}
use hyperchart.Result.{worker_index}
use hyperchart.Text.{Str, last_index_of, starts_with, text}
use hyperchart.Text.Decimal.{decimal, number_of}
use hyperchart.Text.Split.{join, split}

-- `${logicalOccurrence}~${generation}`, with no suffix on the first generation
unfoldable pub actor_generation_path : Str → ℕ → Str
actor_generation_path logical generation =
    if generation == 1 then logical else logical ++ b'~' ∷ decimal generation

-- s.endsWith(t)
abbrev pub ends_with : Str → Str → Bool
ends_with t s = starts_with (reverse t) (reverse s)

unfoldable pub actor_logical_occurrence_path : Str → ℕ → Str
actor_logical_occurrence_path occurrence generation =
    let suffix = b'~' ∷ decimal generation in
    if generation == 1
    then occurrence
    else if ends_with suffix occurrence
    then take (length occurrence - length suffix) occurrence
    else occurrence

unfoldable pub actor_occurrence_path : Str → Option Str → Str
actor_occurrence_path declaration none = declaration
actor_occurrence_path declaration (some owner) = instance_path_for declaration owner

unfoldable pub actor_pool_worker_occurrence_path : Str → ℕ → Str
actor_pool_worker_occurrence_path occurrence index = occurrence ++ text ".$worker-" ++ decimal index

unfoldable pub actor_state_path : Str → Str → Str
actor_state_path occurrence local = occurrence ++ b'.' ∷ local

pub record WorkerOccurrence : Type 0 where
  pub endpoint : Str
  pub index : ℕ

abbrev pub max_safe_integer : ℕ
max_safe_integer = 2 ^ 53 - 1

-- The worker of a last segment: /\$worker-([0-9]+)$/, with its index a safe integer.
abbrev pub worker_of_segment : Str → Str → Option WorkerOccurrence
worker_of_segment endpoint segment = elim (number_of (drop (length worker_prefix) segment)) [
  | none ↦ none
  | some index ↦
      if is_worker segment && leb index max_safe_integer
      then some (record { endpoint = endpoint; index = index })
      else none
]

-- The four units that a dot of a regular expression does not match.
abbrev pub is_line_end : ℕ → Bool
is_line_end c = c == 10 || c == 13 || c == 8232 || c == 8233

-- The greedy match ends at the last dot, since no dot stands among the digits; it runs over no line end.
unfoldable pub parse_actor_pool_worker_occurrence : Str → Option WorkerOccurrence
parse_actor_pool_worker_occurrence p = elim (last_index_of b'.' p) [
  | none ↦ none
  | some dot ↦
      if any is_line_end (take dot p)
      then none
      else worker_of_segment (take dot p) (drop (suc dot) p)
]

-- declarations.sort((left, right) => right.path.length - left.path.length), a stable sort: `x` goes
-- in front of the first that is no longer than it.
unfoldable pub insert_longest : ActorDeclaration → List ActorDeclaration → List ActorDeclaration
insert_longest x [] = x ∷ []
insert_longest x (y ∷ ys) =
    let rest = insert_longest x ys in
    if ltb (length x.path) (length y.path) then y ∷ rest else x ∷ y ∷ ys

unfoldable pub sorted_declarations : List ActorDeclaration → List ActorDeclaration
sorted_declarations [] = []
sorted_declarations (x ∷ xs) = insert_longest x (sorted_declarations xs)

-- The canonical occurrence of a declaration: its path, or that of its pool's worker.
abbrev pub canonical_of : EndpointKind → Str → Str
canonical_of single path = path
canonical_of (pool concurrency) path = path ++ text ".$worker"

abbrev pub canonical_occurrence : ActorDeclaration → Str
canonical_occurrence d = canonical_of d.kind d.path

pub record ActorContext : Type 0 where
  pub declaration : ActorDeclaration
  pub occurrence : Str
  pub endpoint_occurrence : Str
  pub local_state : Str
  pub node : ActorState
  pub worker_index : Option ℕ

-- statePath.split(".").slice(0, -n).join(".")
abbrev pub without_last_segments : ℕ → Str → Str
without_last_segments n p =
    let segments = split b'.' p in join b'.' (take (length segments - n) segments)

abbrev context_of_worker :
    ActorDeclaration → Str → Str → ActorState → Option WorkerOccurrence → Option ActorContext
context_of_worker d occurrence local node none = none
context_of_worker d occurrence local node (some w) = some (record {
  declaration = d;
  occurrence = occurrence;
  endpoint_occurrence = w.endpoint;
  local_state = local;
  node = node;
  worker_index = some w.index;
})

abbrev context_in : EndpointKind → ActorDeclaration → Str → Str → ActorState → Option ActorContext
context_in single d occurrence local node = some (record {
  declaration = d;
  occurrence = occurrence;
  endpoint_occurrence = occurrence;
  local_state = local;
  node = node;
  worker_index = none;
})
context_in (pool concurrency) d occurrence local node =
    context_of_worker d occurrence local node (parse_actor_pool_worker_occurrence occurrence)

-- The context of a path under one declaration.
abbrev context_under : ActorDeclaration → Str → Option ActorContext
context_under d p =
    let local = drop (length (canonical_occurrence d) + 1) (template_path p) in
    elim (lookup local d.definition.states) [
      | none ↦ none
      | some node ↦
          context_in d.kind d (without_last_segments (length (split b'.' local)) p) local node
    ]

unfoldable pub actor_context_for_state : Chart → Str → Option ActorContext
actor_context_for_state ast p =
    let owner =
      find
        (λ (d : ActorDeclaration).
          starts_with (canonical_occurrence d ++ text ".") (template_path p))
        (sorted_declarations (values ast.actors)) in
    elim owner [ none ↦ none | some d ↦ context_under d p ]
