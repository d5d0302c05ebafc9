-- ===== src/Projection/Branch/Moved.antt =====
-- What a move of the chart leaves as it was: the actors, the sequence number, and all that neither the
-- active leaves, the inputs, the pending work, the gates nor the spawns hold.
use hyperchart.Prelude.{List, Option, [], ap, keep, none, not, sym, ℕ, ◌++◌, ◌∙◌, ◌∷◌, ◌≡◌}
use hyperchart.Batch.{joined}
use hyperchart.Chart.{
  Chart, MapState, State, action_state, compound, final, map_state, messaging, parallel, region,
}
use hyperchart.Dict.{Dict, put}
use hyperchart.Entry.{enter_state}
use hyperchart.Json.{Json, str}
use hyperchart.Paths.{sibling_path}
use hyperchart.Paths.MapKeys.{canonical_map_keys}
use hyperchart.Projection.{Endpoint, Projection, Run}
use hyperchart.Projection.Branch.{
  instance_of, item_of, spawn_inputs, spawn_leaves, spawn_map, spawned_entry,
}
use hyperchart.Projection.Inputs.{EntryEvent, apply_inputs_for_entry}
use hyperchart.Projection.Joins.{complete_parallels}
use hyperchart.Projection.Moves.{
  abandon_pending, exit_and_enter, move_leaves, settle_joins, sort_pending,
}
use hyperchart.Projection.Moves.Leaves.{apply_inputs_for_entry-eq, complete_parallels-eq}
use hyperchart.Result.{>>=-eq-ok, ok, ok_injective}
use hyperchart.Text.{Str, str_eq, text}

-- The actors and the number of a projection.
abbrev pub actors_of : Projection → Dict Endpoint × Dict Endpoint
actors_of p = (p.actors, p.actor_pools)

abbrev pub Kept : Type 0
Kept = (Dict Endpoint × Dict Endpoint) × ℕ

abbrev pub kept_of : Projection → Kept
kept_of p = (actors_of p, p.seq_id)

abbrev pub SameKept : Projection → Projection → Type 0
SameKept p q = kept_of p ≡ kept_of q

pub complete_parallels_kept :
    (ast : Chart) (depth fuel : ℕ) (p q : Projection)
    → complete_parallels ast depth fuel p ≡ ok q
    → SameKept p q
complete_parallels_kept ast depth fuel p q h =
    sym (ap kept_of (complete_parallels-eq ast depth fuel p q h))

inputs_kept :
    (ast : Chart) (fuel : ℕ) (path : Str) (entry : Option EntryEvent) (p q : Projection)
    → apply_inputs_for_entry ast fuel path entry p ≡ ok q
    → SameKept p q
inputs_kept ast fuel path entry p q h =
    sym (ap kept_of (apply_inputs_for_entry-eq ast fuel path entry p q h))

pub exit_and_enter_kept :
    (ast : Chart) (fuel : ℕ) (exit target : Str) (r s : Run)
    → exit_and_enter ast fuel exit target r ≡ ok s
    → SameKept r.projection s.projection
unfolding exit_and_enter move_leaves abandon_pending settle_joins
exit_and_enter_kept ast fuel exit target r s h =
    let (p, moved, more) = >>=-eq-ok (move_leaves ast fuel exit target r.projection) _ h in
    let (entered, _, built) = >>=-eq-ok (enter_state ast fuel target) _ moved in
    let (t, dropped, rest) = >>=-eq-ok (abandon_pending ast (record r { projection = p })) _ more in
    let (sorted, _, cleaned) = >>=-eq-ok (sort_pending ast p p.pending) _ dropped in
    let (q, joined, whole) = >>=-eq-ok (complete_parallels ast fuel fuel t.projection) _ rest in
    ap kept_of (ok_injective built)
    ∙ ap (λ (x : Run). kept_of x.projection) (ok_injective cleaned)
    ∙ complete_parallels_kept ast fuel fuel t.projection q joined
    ∙ ap (λ (x : Run). kept_of x.projection) (ok_injective whole)

spawn_inputs_kept :
    (ast : Chart) (fuel : ℕ) (path : Str) (instances : Dict Json) (ks : List Str) (p q : Projection)
    → spawn_inputs ast fuel path instances ks p ≡ ok q
    → SameKept p q
unfolding spawn_inputs
spawn_inputs_kept ast fuel path instances [] p q h = ap kept_of (ok_injective h)
spawn_inputs_kept ast fuel path instances (k ∷ ks) p q h =
    let birth = (text "key", str k) ∷ (text "item", item_of k instances) ∷ [] in
    let start : Projection = record p { inputs = put (instance_of path k) birth p.inputs } in
    let (t, e, more) =
      >>=-eq-ok (apply_inputs_for_entry ast fuel (instance_of path k) none start) _ h in
    inputs_kept ast fuel (instance_of path k) none start t e
    ∙ spawn_inputs_kept ast fuel path instances ks t q more

spawned_entry_kept :
    (ast : Chart) (fuel : ℕ) (path : Str) (m : MapState) (instances : Dict Json) (ks : List Str)
    (p q : Projection)
    → spawned_entry ast fuel path m instances ks p ≡ ok q
    → SameKept p q
unfolding spawned_entry
spawned_entry_kept ast fuel path m instances [] p q h =
    inputs_kept ast fuel (sibling_path path m.on_done) none p q h
spawned_entry_kept ast fuel path m instances (k ∷ ks) p q h =
    spawn_inputs_kept ast fuel path instances (k ∷ ks) p q h

pub spawn_map_kept :
    (ast : Chart) (fuel : ℕ) (path : Str) (node : State) (instances : Dict Json) (p q : Projection)
    → spawn_map ast fuel path node instances p ≡ ok q
    → SameKept p q
unfolding spawn_map
spawn_map_kept ast fuel path (map_state m) instances p q h =
    let ks = canonical_map_keys instances in
    let (entered, _, more) = >>=-eq-ok (spawn_leaves ast fuel path m ks) _ h in
    let start : Projection = record p {
      spawns = put path instances p.spawns;
      active_leaves = keep (λ (l : Str). not (str_eq l path)) p.active_leaves ++ entered;
    } in
    let (next, inputs, joined) =
      >>=-eq-ok (spawned_entry ast fuel path m instances ks start) _ more in
    spawned_entry_kept ast fuel path m instances ks start next inputs
    ∙ complete_parallels_kept ast fuel fuel next q joined
spawn_map_kept ast fuel path (action_state s) instances p q h = cc
spawn_map_kept ast fuel path (final is_failed) instances p q h = cc
spawn_map_kept ast fuel path (compound initial ts on_done) instances p q h = cc
spawn_map_kept ast fuel path (region initial ts) instances p q h = cc
spawn_map_kept ast fuel path (parallel regions ts on_done) instances p q h = cc
spawn_map_kept ast fuel path (messaging m) instances p q h = cc
