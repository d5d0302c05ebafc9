-- ===== src/Projection/Moves/Leaves.antt =====
-- The active leaves through `completeParallels` and `exitAndEnter`: what becomes active is a leaf,
-- and the joins that are done are left.
use hyperchart.Prelude.{
  All-append, All-keep, List, Option, [], ap, none, not, refl, some, subst, suc, sym, true, zero, ℕ,
  ◌++◌, ◌∙◌, ◌∷◌, ◌≡◌,
}
use hyperchart.Chart.{Chart}
use hyperchart.Dict.{put, values}
use hyperchart.Entry.{enter_state}
use hyperchart.Entry.Leaves.{Leaves, enter_state-Leaves, is_leaf}
use hyperchart.Paths.{under_scope}
use hyperchart.Projection.{Projection, Run}
use hyperchart.Projection.Inputs.{
  EntryEvent, EntryTarget, apply_inputs_for_entry, input_entry_targets, resolve_input_values,
  write_inputs,
}
use hyperchart.Projection.Joins.{Join, complete_parallels, leaves_outside, next_join, take_join}
use hyperchart.Projection.Moves.{
  abandon_pending, exit_and_enter, move_leaves, settle_joins, sort_pending,
}
use hyperchart.Result.{>>=-eq-ok, ok, ok_injective, ◌>>=◌}
use hyperchart.Text.{Str}

-- Writing inputs changes nothing else.
write_inputs-eq :
    (ast : Chart) (entry : Option EntryEvent) (ts : List EntryTarget) (p q : Projection)
    → write_inputs ast entry ts p ≡ ok q
    → q ≡ record p { inputs = q.inputs }
unfolding write_inputs
write_inputs-eq ast entry [] p q h = let e = ok_injective h in rw e refl
write_inputs-eq ast entry (t ∷ ts) p q h =
    let (values, _, more) = >>=-eq-ok (resolve_input_values ast p t.declared entry t.path) _ h in
    write_inputs-eq ast entry ts (record p { inputs = put t.path values p.inputs }) q more

pub apply_inputs_for_entry-eq :
    (ast : Chart) (fuel : ℕ) (path : Str) (entry : Option EntryEvent) (p q : Projection)
    → apply_inputs_for_entry ast fuel path entry p ≡ ok q
    → q ≡ record p { inputs = q.inputs }
unfolding apply_inputs_for_entry
apply_inputs_for_entry-eq ast fuel path entry p q h =
    let (targets, _, more) = >>=-eq-ok (input_entry_targets ast fuel path) _ h in
    write_inputs-eq ast entry targets p q more

-- The leaves that remain outside a scope, with those entered for it, are leaves.
moved-Leaves :
    (ast : Chart) (fuel : ℕ) (scope target : Str) (ls entered : List Str)
    → Leaves ast ls
    → enter_state ast fuel target ≡ ok entered
    → Leaves ast (leaves_outside scope ls ++ entered)
moved-Leaves ast fuel scope target ls entered h e =
    All-append (λ (l : Str). is_leaf ast l ≡ true) (leaves_outside scope ls) entered
      (All-keep (λ (l : Str). is_leaf ast l ≡ true) (λ (l : Str). not (under_scope l scope)) ls h)
      (enter_state-Leaves ast fuel target entered e)

take_join-Leaves :
    (ast : Chart) (fuel : ℕ) (j : Join) (p q : Projection)
    → Leaves ast p.active_leaves
    → take_join ast fuel j p ≡ ok q
    → Leaves ast q.active_leaves
unfolding take_join
take_join-Leaves ast fuel j p q leaves h =
    let (entered, e, more) = >>=-eq-ok (enter_state ast fuel j.target) _ h in
    let same =
      apply_inputs_for_entry-eq ast fuel j.target none
        (record p { active_leaves = leaves_outside j.scope p.active_leaves ++ entered }) q more in
    subst (λ (r : Projection). Leaves ast r.active_leaves) (sym same)
      (moved-Leaves ast fuel j.scope j.target p.active_leaves entered leaves e)

-- One round of `completeParallels`, with what is found given: it ends, or takes a join.
data Round (ast : Chart) (depth fuel : ℕ) (p q : Projection) : Type 0 where
  ends : next_join ast p ≡ ok none → p ≡ q → Round ast depth fuel p q
  takes :
      (j : Join) (r : Projection)
      → take_join ast depth j p ≡ ok r
      → complete_parallels ast depth fuel r ≡ ok q
      → Round ast depth fuel p q

complete_parallels-Round :
    (ast : Chart) (depth fuel : ℕ) (p q : Projection)
    → complete_parallels ast depth (suc fuel) p ≡ ok q
    → Round ast depth fuel p q
unfolding complete_parallels
complete_parallels-Round ast depth fuel p q h =
    let (next, e, more) = >>=-eq-ok (next_join ast p) _ h in after next e more
  where
    after :
        (next : Option Join)
        → next_join ast p ≡ ok next
        → (elim next [
          | none ↦ ok p
          | some j ↦ take_join ast depth j p >>= complete_parallels ast depth fuel
        ])
          ≡ ok q
        → Round ast depth fuel p q
    after none e k = ends e (ok_injective k)
    after (some j) e k =
        let (r, taken, rest) = >>=-eq-ok (take_join ast depth j p) _ k in takes j r taken rest

pub complete_parallels-Leaves :
    (ast : Chart) (depth fuel : ℕ) (p q : Projection)
    → Leaves ast p.active_leaves
    → complete_parallels ast depth fuel p ≡ ok q
    → Leaves ast q.active_leaves
unfolding complete_parallels
complete_parallels-Leaves ast depth zero p q leaves h = cc
complete_parallels-Leaves ast depth (suc fuel) p q leaves h =
    elim (complete_parallels-Round ast depth fuel p q h) [
      | ends e same ↦ subst (λ (r : Projection). Leaves ast r.active_leaves) same leaves
      | takes j r taken rest ↦
          complete_parallels-Leaves ast depth fuel r q
            (take_join-Leaves ast depth j p r leaves taken) rest
    ]

-- When `completeParallels` returns, no parallel, map or actor-owning compound is left that is done:
-- a further search for a join finds none.
pub complete_parallels_stable :
    (ast : Chart) (depth fuel : ℕ) (p q : Projection)
    → complete_parallels ast depth fuel p ≡ ok q
    → next_join ast q ≡ ok none
unfolding complete_parallels
complete_parallels_stable ast depth zero p q h = cc
complete_parallels_stable ast depth (suc fuel) p q h =
    elim (complete_parallels-Round ast depth fuel p q h) [
      | ends e same ↦ subst (λ (r : Projection). next_join ast r ≡ ok none) same e
      | takes j r taken rest ↦ complete_parallels_stable ast depth fuel r q rest
    ]

take_join-eq :
    (ast : Chart) (depth : ℕ) (j : Join) (p r : Projection)
    → take_join ast depth j p ≡ ok r
    → r ≡ record p { active_leaves = r.active_leaves; inputs = r.inputs }
unfolding take_join
take_join-eq ast depth j p r k =
    let (entered, _, more) = >>=-eq-ok (enter_state ast depth j.target) _ k in
    let same =
      apply_inputs_for_entry-eq ast depth j.target none
        (record p { active_leaves = leaves_outside j.scope p.active_leaves ++ entered }) r more in
    same
    ∙ ap (λ (ls : List Str). record p { active_leaves = ls; inputs = r.inputs })
        (sym (ap (λ (s : Projection). s.active_leaves) same))

-- The joins change the active leaves and the inputs, and nothing else.
pub complete_parallels-eq :
    (ast : Chart) (depth fuel : ℕ) (p q : Projection)
    → complete_parallels ast depth fuel p ≡ ok q
    → q ≡ record p { active_leaves = q.active_leaves; inputs = q.inputs }
unfolding complete_parallels
complete_parallels-eq ast depth zero p q h = cc
complete_parallels-eq ast depth (suc fuel) p q h =
    elim (complete_parallels-Round ast depth fuel p q h) [
      | ends e same ↦ rw same refl
      | takes j r taken rest ↦
          let before = take_join-eq ast depth j p r taken in
          let later = complete_parallels-eq ast depth fuel r q rest in
          later
          ∙ ap (λ (s : Projection). record s { active_leaves = q.active_leaves; inputs = q.inputs })
              before
    ]

-- After a move with its joins, from leaves, every active path is a leaf of the chart: an action, a messaging
-- state, a final, or a map that is not spawned yet.
pub exit_and_enter-Leaves :
    (ast : Chart) (fuel : ℕ) (exit target : Str) (r s : Run)
    → Leaves ast r.projection.active_leaves
    → exit_and_enter ast fuel exit target r ≡ ok s
    → Leaves ast s.projection.active_leaves
unfolding exit_and_enter move_leaves abandon_pending settle_joins
exit_and_enter-Leaves ast fuel exit target r s leaves h =
    let (p, moved, more) = >>=-eq-ok (move_leaves ast fuel exit target r.projection) _ h in
    let (entered, e, built) = >>=-eq-ok (enter_state ast fuel target) _ moved in
    let (t, dropped, rest) = >>=-eq-ok (abandon_pending ast (record r { projection = p })) _ more in
    let (sorted, _, cleaned) = >>=-eq-ok (sort_pending ast p p.pending) _ dropped in
    let (q, joined, whole) = >>=-eq-ok (complete_parallels ast fuel fuel t.projection) _ rest in
    let before = moved-Leaves ast fuel exit target r.projection.active_leaves entered leaves e in
    let at_p = subst (λ (x : Projection). Leaves ast x.active_leaves) (ok_injective built) before in
    let at_t =
      subst (λ (x : Run). Leaves ast x.projection.active_leaves) (ok_injective cleaned) at_p in
    subst (λ (x : Run). Leaves ast x.projection.active_leaves) (ok_injective whole)
      (complete_parallels-Leaves ast fuel fuel t.projection q at_t joined)
