-- ===== src/Projection/Joins.antt =====
-- Joins: `completeParallels` of projection.ts, which leaves every parallel, map and actor-owning
-- compound that is done, with its two searches.
pub mod Done
pub mod Exhausted
use hyperchart.Prelude.{
  Bool, List, Option, [], all, any, false, find, if◌then◌else◌, keep, leb, length, ltb, none, not,
  some, suc, true, zero, ℕ, ◌&&◌, ◌*◌, ◌++◌, ◌||◌, ◌∷◌,
}
use hyperchart.Chart.{
  ActorDeclaration, Chart, State, compound, is_final_state, map_state, node_at, parallel,
}
use hyperchart.Dict.{lookup, values}
use hyperchart.Entry.{enter_state, owns_actors}
use hyperchart.Paths.{parent_path, sibling_path, strip_last_key, template_path, under_scope}
use hyperchart.Projection.{Endpoint, ExecutionStatus, Projection, actor_endpoints, stopped}
use hyperchart.Projection.Inputs.{apply_inputs_for_entry}
use hyperchart.Result.{Result, broken_parent_chain, err, ok, out_of_fuel, ◌>>=◌}
use hyperchart.Text.{Str, str_eq}

-- A scope that may be left, and the path that is entered then.
pub record Join : Type 0 where
  pub scope : Str
  pub target : Str

-- The join that an ancestor stands for: a map joins over all its instances.
abbrev pub join_of : Str → State → Option Join
join_of p (parallel regions transitions on_done) =
    some (record { scope = p; target = sibling_path p on_done })
join_of p (map_state m) =
    some (record { scope = strip_last_key p; target = sibling_path (strip_last_key p) m.on_done })
join_of p _ = none

-- seen.has(scope): each scope is one candidate.
abbrev pub has_scope : Str → List Join → Bool
has_scope s js = any (λ (j : Join). str_eq j.scope s) js

abbrev pub add_join : Option Join → List Join → List Join
add_join none js = js
add_join (some j) js = if has_scope j.scope js then js else js ++ j ∷ []

-- The walk from one leaf up its parents, with the joins found so far. The source stops at an
-- ancestor that an earlier leaf has walked; those above it are candidates already, so walking on
-- adds none.
unfoldable pub joins_above : Chart → ℕ → Option Str → List Join → Result (List Join)
joins_above ast fuel none js = ok js
joins_above ast zero (some p) js = err out_of_fuel
joins_above ast (suc fuel) (some p) js = elim (node_at ast p) [
  | none ↦ err (broken_parent_chain p)
  | some node ↦ joins_above ast fuel (parent_path p) (add_join (join_of p node) js)
]

unfoldable pub join_candidates : Chart → List Str → List Join → Result (List Join)
join_candidates ast [] js = ok js
join_candidates ast (l ∷ ls) js = do
  found ← joins_above ast (suc (length l)) (parent_path l) js
  join_candidates ast ls found

-- candidates.sort((a, b) => b.path.length - a.path.length), a stable sort
unfoldable pub insert_join : Join → List Join → List Join
insert_join x [] = x ∷ []
insert_join x (y ∷ ys) =
    let rest = insert_join x ys in
    if ltb (length x.scope) (length y.scope) then y ∷ rest else x ∷ y ∷ ys

unfoldable pub sort_joins : List Join → List Join
sort_joins [] = []
sort_joins (x ∷ xs) = insert_join x (sort_joins xs)

abbrev pub is_stopped : ExecutionStatus → Bool
is_stopped stopped = true
is_stopped _ = false

abbrev pub owned_under : Option Str → Str → Bool
owned_under none scope = false
owned_under (some o) scope = under_scope o scope

abbrev pub owner_is : Option Str → Str → Bool
owner_is none p = false
owner_is (some o) p = str_eq o p

abbrev pub spawned_count : Str → Projection → ℕ
spawned_count p proj = elim (lookup p proj.spawns) [ none ↦ 0 | some instances ↦ length instances ]

-- The actors owned under a scope: as many as are declared for its instances, and all stopped.
unfoldable pub actors_done : Chart → Projection → Str → Bool
actors_done ast proj p =
    let actors = keep (λ (e : Endpoint). owned_under e.owner p) (actor_endpoints proj) in
    let declared =
      keep (λ (d : ActorDeclaration). owner_is d.owner (template_path p)) (values ast.actors) in
    leb (length declared * spawned_count p proj) (length actors)
    && all (λ (e : Endpoint). is_stopped e.status) actors

abbrev pub leaves_under : Str → List Str → List Str
leaves_under p ls = keep (λ (l : Str). under_scope l p) ls

abbrev pub leaves_outside : Str → List Str → List Str
leaves_outside p ls = keep (λ (l : Str). not (under_scope l p)) ls

-- Every leaf under the scope is final, and there is one.
unfoldable pub leaves_done : Chart → List Str → Str → Bool
leaves_done ast ls p =
    not (is_nil (leaves_under p ls))
    && all (λ (l : Str). is_final_state (node_at ast l)) (leaves_under p ls)
  where
    is_nil : List Str → Bool
    is_nil [] = true
    is_nil (x ∷ xs) = false

unfoldable pub find_completed_parallel : Chart → Projection → Result (Option Join)
find_completed_parallel ast proj = do
  candidates ← join_candidates ast proj.active_leaves []
  ok (
      find
        (λ (j : Join). leaves_done ast proj.active_leaves j.scope && actors_done ast proj j.scope)
        (sort_joins candidates))

-- A held final child of a compound that owns actors, all of which have stopped.
abbrev pub compound_join : Chart → Projection → Option Str → List Join
compound_join ast proj none = []
compound_join ast proj (some p) = elim (node_at ast p) [
  | none ↦ []
  | some node ↦ elim node [
    | compound initial transitions on_done ↦
        if owns_actors ast p
          && all (λ (e : Endpoint). not (owner_is e.owner p) || is_stopped e.status)
              (actor_endpoints proj)
        then record { scope = p; target = sibling_path p on_done } ∷ []
        else []
    | _ ↦ []
  ]
]

unfoldable pub compound_joins : Chart → Projection → List Str → List Join
compound_joins ast proj [] = []
compound_joins ast proj (l ∷ ls) =
    (if is_final_state (node_at ast l) then compound_join ast proj (parent_path l) else [])
    ++ compound_joins ast proj ls

abbrev pub first_of_list : List Join → Option Join
first_of_list [] = none
first_of_list (j ∷ js) = some j

unfoldable pub find_completed_compound : Chart → Projection → Option Join
find_completed_compound ast proj =
    first_of_list (sort_joins (compound_joins ast proj proj.active_leaves))

-- The innermost of the two, the parallel where they are level.
abbrev pub pick_join : Option Join → Option Join → Option Join
pick_join none c = c
pick_join (some p) none = some p
pick_join (some p) (some c) = if leb (length c.scope) (length p.scope) then some p else some c

unfoldable pub next_join : Chart → Projection → Result (Option Join)
next_join ast proj = do
  p ← find_completed_parallel ast proj
  ok (pick_join p (find_completed_compound ast proj))

-- One round of the loop: the scope's leaves go, the target is entered.
unfoldable pub take_join : Chart → ℕ → Join → Projection → Result Projection
take_join ast fuel j proj = do
  entered ← enter_state ast fuel j.target
  apply_inputs_for_entry ast fuel j.target none
      (record proj { active_leaves = leaves_outside j.scope proj.active_leaves ++ entered })

-- `depth` bounds the entries of one round, `fuel` the rounds.
unfoldable pub complete_parallels : Chart → ℕ → ℕ → Projection → Result Projection
complete_parallels ast depth zero proj = err out_of_fuel
complete_parallels ast depth (suc fuel) proj = do
  next ← next_join ast proj
  elim next [
    | none ↦ ok proj
    | some j ↦ take_join ast depth j proj >>= complete_parallels ast depth fuel
  ]
