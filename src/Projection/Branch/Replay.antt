-- ===== src/Projection/Branch/Replay.antt =====
-- Whole replays: `projectBranch` over a log and `createBranchProjection`.
use hyperchart.Prelude.{
  All-append, All-keep, List, [], ap, keep, none, not, refl, subst, sym, true, ℕ, ◌++◌, ◌∙◌, ◌∷◌,
  ◌≡◌,
}
use hyperchart.Batch.{joined}
use hyperchart.Chart.{
  Chart, MapState, State, action_state, compound, final, map_state, messaging, parallel, region,
}
use hyperchart.Dict.{Dict, put}
use hyperchart.Entry.{enter_state}
use hyperchart.Entry.Leaves.{Leaves, enter_state-Leaves, is_leaf}
use hyperchart.Json.{Json, str}
use hyperchart.Paths.{sibling_path}
use hyperchart.Paths.MapKeys.{canonical_map_keys}
use hyperchart.Projection.{Projection, Run}
use hyperchart.Projection.Branch.{
  Logged, apply_logged, create_branch_projection, empty_projection, instance_of, item_of,
  project_branch, spawn_inputs, spawn_leaves, spawn_map, spawned_entry,
}
use hyperchart.Projection.Branch.Endpoints.{ControlRule, control_Preserved, control_records}
use hyperchart.Projection.Branch.Every.{project_branch_keeps}
use hyperchart.Projection.Branch.Leaves.{RunLeaves, SameLeaves, leaves_of}
use hyperchart.Projection.Inputs.{apply_inputs_for_entry}
use hyperchart.Projection.Joins.{next_join}
use hyperchart.Projection.Moves.Leaves.{
  apply_inputs_for_entry-eq, complete_parallels-Leaves, complete_parallels_stable,
  exit_and_enter-Leaves,
}
use hyperchart.Result.{>>=-eq-ok, Result, err, flat_map-All, ok, ok_injective, ◌>>=◌}
use hyperchart.Text.{Str, str_eq, text}

spawn_leaves-Leaves :
    (ast : Chart) (fuel : ℕ) (p : Str) (m : MapState) (ks ls : List Str)
    → spawn_leaves ast fuel p m ks ≡ ok ls
    → Leaves ast ls
unfolding spawn_leaves
spawn_leaves-Leaves ast fuel p m [] ls h =
    enter_state-Leaves ast fuel (sibling_path p m.on_done) ls h
spawn_leaves-Leaves ast fuel p m (k ∷ ks) ls h =
    flat_map-All (λ (l : Str). is_leaf ast l ≡ true)
      (λ (key : Str). enter_state ast fuel (instance_of p key)) (k ∷ ks) ls
      (λ key zs e. enter_state-Leaves ast fuel (instance_of p key) zs e) h

spawn_inputs_leaves :
    (ast : Chart) (fuel : ℕ) (p : Str) (instances : Dict Json) (ks : List Str) (x y : Projection)
    → spawn_inputs ast fuel p instances ks x ≡ ok y
    → SameLeaves y x
unfolding spawn_inputs
spawn_inputs_leaves ast fuel p instances [] x y h = leaves_of (sym (ok_injective h))
spawn_inputs_leaves ast fuel p instances (k ∷ ks) x y h =
    let birth = (text "key", str k) ∷ (text "item", item_of k instances) ∷ [] in
    let (t, e, more) =
      >>=-eq-ok
        (apply_inputs_for_entry ast fuel (instance_of p k) none
          (record x { inputs = put (instance_of p k) birth x.inputs }))
        _ h in
    spawn_inputs_leaves ast fuel p instances ks t y more
    ∙ leaves_of (
        apply_inputs_for_entry-eq ast fuel (instance_of p k) none
          (record x { inputs = put (instance_of p k) birth x.inputs }) t e)

spawned_entry_leaves :
    (ast : Chart) (fuel : ℕ) (p : Str) (m : MapState) (instances : Dict Json) (ks : List Str)
    (x y : Projection)
    → spawned_entry ast fuel p m instances ks x ≡ ok y
    → SameLeaves y x
unfolding spawned_entry
spawned_entry_leaves ast fuel p m instances [] x y h =
    leaves_of (apply_inputs_for_entry-eq ast fuel (sibling_path p m.on_done) none x y h)
spawned_entry_leaves ast fuel p m instances (k ∷ ks) x y h =
    spawn_inputs_leaves ast fuel p instances (k ∷ ks) x y h

spawn_map-Leaves :
    (ast : Chart) (fuel : ℕ) (p : Str) (node : State) (instances : Dict Json) (x y : Projection)
    → Leaves ast x.active_leaves
    → spawn_map ast fuel p node instances x ≡ ok y
    → Leaves ast y.active_leaves
unfolding spawn_map
spawn_map-Leaves ast fuel p (map_state m) instances x y leaves h =
    let ks = canonical_map_keys instances in
    let (entered, e, more) = >>=-eq-ok (spawn_leaves ast fuel p m ks) _ h in
    let kept = keep (λ (l : Str). not (str_eq l p)) x.active_leaves ++ entered in
    let start : Projection = record x { spawns = put p instances x.spawns; active_leaves = kept } in
    let (next, inputs, joined) = >>=-eq-ok (spawned_entry ast fuel p m instances ks start) _ more in
    let at_start =
      All-append (λ (l : Str). is_leaf ast l ≡ true)
        (keep (λ (l : Str). not (str_eq l p)) x.active_leaves) entered
        (All-keep (λ (l : Str). is_leaf ast l ≡ true) (λ (l : Str). not (str_eq l p))
          x.active_leaves leaves)
        (spawn_leaves-Leaves ast fuel p m ks entered e) in
    complete_parallels-Leaves ast fuel fuel next y
      (subst (Leaves ast) (sym (spawned_entry_leaves ast fuel p m instances ks start next inputs))
        at_start)
      joined
spawn_map-Leaves ast fuel p (action_state s) instances x y leaves h = cc
spawn_map-Leaves ast fuel p (final is_failed) instances x y leaves h = cc
spawn_map-Leaves ast fuel p (compound initial ts on_done) instances x y leaves h = cc
spawn_map-Leaves ast fuel p (region initial ts) instances x y leaves h = cc
spawn_map-Leaves ast fuel p (parallel regions ts on_done) instances x y leaves h = cc
spawn_map-Leaves ast fuel p (messaging m) instances x y leaves h = cc

resting_rule :
    (ast : Chart) (fuel : ℕ) → ControlRule ast fuel (λ (p : Projection). Leaves ast p.active_leaves)
resting_rule ast fuel = record {
  same_control = λ p q e leaves. subst (Leaves ast) (ap (λ (c : List Str × ℕ). c.0) e) leaves;
  joins = λ p q leaves h. complete_parallels-Leaves ast fuel fuel p q leaves h;
  exits = λ exit target r s leaves h. exit_and_enter-Leaves ast fuel exit target r s leaves h;
  spawns_map = λ path node instances p q leaves h.
      spawn_map-Leaves ast fuel path node instances p q leaves h;
}

-- A replay that succeeds from leaves of the chart ends on leaves of the chart: whatever the records
-- are, each active path is an action, a messaging state, a final, or a map that is not spawned yet.
pub project_branch-Leaves :
    (ast : Chart) (fuel : ℕ) (log : List Logged) (r s : Run)
    → RunLeaves ast r
    → project_branch ast fuel log r ≡ ok s
    → RunLeaves ast s
project_branch-Leaves ast fuel log r s leaves h =
    project_branch_keeps ast fuel (λ _ p. Leaves ast p.active_leaves) (λ _ u. u)
      (λ _. control_Preserved ast fuel (λ p. Leaves ast p.active_leaves) (resting_rule ast fuel))
      (control_records ast fuel (λ p. Leaves ast p.active_leaves) (resting_rule ast fuel))
      (λ u p n ls. ls) log tt r s leaves h

-- A replay in two parts is the replay of the whole log: projecting new records on a projection gives
-- what replaying all records from the start gives, errors included.
pub project_branch-append :
    (ast : Chart) (fuel : ℕ) (before after : List Logged) (r : Run)
    → project_branch ast fuel (before ++ after) r
      ≡ (project_branch ast fuel before r >>= project_branch ast fuel after)
unfolding project_branch
project_branch-append ast fuel [] after r = refl
project_branch-append ast fuel (l ∷ before) after r =
    by_first (apply_logged ast fuel l r) (λ t. project_branch-append ast fuel before after t)
  where
    by_first :
        (m : Result Run)
        → ((t : Run)
            → project_branch ast fuel (before ++ after) t
              ≡ (project_branch ast fuel before t >>= project_branch ast fuel after))
        → (m >>= project_branch ast fuel (before ++ after))
          ≡ (m >>= project_branch ast fuel before >>= project_branch ast fuel after)
    by_first (ok t) ih = ih t
    by_first (err e) ih = refl

-- The first projection of a chart rests on leaves, and no join is left to take.
pub create_branch_projection-Leaves :
    (ast : Chart) (fuel : ℕ) (p : Projection)
    → create_branch_projection ast fuel ≡ ok p
    → Leaves ast p.active_leaves × (next_join ast p ≡ ok none)
unfolding create_branch_projection
create_branch_projection-Leaves ast fuel p h =
    let (ls, entered, more) = >>=-eq-ok (enter_state ast fuel ast.initial) _ h in
    let (q, inputs, joined) =
      >>=-eq-ok (apply_inputs_for_entry ast fuel ast.initial none (empty_projection ls)) _ more in
    let same = apply_inputs_for_entry-eq ast fuel ast.initial none (empty_projection ls) q inputs in
    (
      complete_parallels-Leaves ast fuel fuel q p
          (subst (Leaves ast) (sym (leaves_of same))
            (enter_state-Leaves ast fuel ast.initial ls entered))
          joined,
      complete_parallels_stable ast fuel fuel q p joined,
    )
