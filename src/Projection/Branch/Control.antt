-- ===== src/Projection/Branch/Control.antt =====
-- Transitions keep what the moves keep: `applyTransition`, `applyAfterTransition` and the producers of
-- messages.
use hyperchart.Prelude.{
  Bool, Option, Option-cases, false, if◌then◌else◌, inl, inr, none, some, subst, true, ℕ, ◌≡◌,
}
use hyperchart.Actors.{ActorContext, actor_context_for_state}
use hyperchart.Chart.{Chart, Messaging, Transition}
use hyperchart.Entry.{find_handler}
use hyperchart.Json.{Json}
use hyperchart.Paths.{sibling_path}
use hyperchart.Projection.{ChartEvent, Projection, Run}
use hyperchart.Projection.Branch.Frame.{Preserved, actor_input_view, inputs_view}
use hyperchart.Projection.Endpoints.{
  actor_producer_node, actor_reply, advance_after_enqueue, advance_after_reply, event_or_reply,
  plain_transition, producer_transition, reply_route, waits_for_reply,
}
use hyperchart.Projection.Inputs.{EntryEvent, apply_inputs_for_entry}
use hyperchart.Projection.Moves.{
  actor_event, actor_execution, actor_transition, apply_actor_input_for_entry,
  apply_after_transition, apply_transition, chart_event, execution_current_state, exit_and_enter,
  is_active_leaf, move_actor, state_is,
}
use hyperchart.Projection.Refs.{action_state_at}
use hyperchart.Result.{
  >>=-eq-ok, guard-eq-ok, inactive_state, no_after, no_transition, ok, ok_injective, producer_kind,
  require, ◌>>=◌,
}
use hyperchart.Text.{Str}

module _ {κ} (ast : Chart) (fuel : ℕ) (P : Projection → Type κ) (rule : Preserved ast fuel P) where
  move_actor_keeps :
      (c : ActorContext) (leaf target : Str) (entry : Option EntryEvent) (p q : Projection)
      → P p
      → move_actor ast c leaf target entry p ≡ ok q
      → P q
  unfolding move_actor
  move_actor_keeps c leaf target entry p q holds h =
      let (x, current, more) = >>=-eq-ok (actor_execution p c) _ h in
      let (_, rest) =
        guard-eq-ok (state_is (execution_current_state x) c.local_state) (inactive_state leaf) _
          more in
      let (t, inputs, whole) =
        >>=-eq-ok (apply_actor_input_for_entry ast x target entry p) _ rest in
      let same = actor_input_view ast x target entry p t inputs in
      subst P (ok_injective whole)
        (rule.by_actor c x target p t current same (rule.quietly p t same holds))

  actor_event_keeps :
      (c : ActorContext) (leaf : Str) (event : ChartEvent) (p q : Projection)
      → P p
      → actor_event ast c leaf event p ≡ ok q
      → P q
  unfolding actor_event
  actor_event_keeps c leaf event p q holds h =
      let (x, _, more) = >>=-eq-ok (actor_execution p c) _ h in
      let (_, rest) =
        guard-eq-ok (state_is (execution_current_state x) c.local_state) (inactive_state leaf) _
          more in
      let (t, _, moved) = >>=-eq-ok (actor_transition c.node event.kind leaf) _ rest in
      move_actor_keeps c leaf t.target
        (some (record { transition = t; event = event; scope = leaf })) p q holds moved

  -- The inputs of a target, then the move to it.
  enter_keeps :
      (exit target : Str) (entry : Option EntryEvent) (r s : Run) (p : Projection)
      → P r.projection
      → apply_inputs_for_entry ast fuel target entry r.projection ≡ ok p
      → exit_and_enter ast fuel exit target (record r { projection = p }) ≡ ok s
      → P s.projection
  enter_keeps exit target entry r s p holds inputs moved =
      rule.by_exit exit target (record r { projection = p }) s
        (rule.quietly r.projection p (inputs_view ast fuel target entry r.projection p inputs)
          holds)
        moved

  chart_event_keeps :
      (leaf : Str) (event : ChartEvent) (r s : Run)
      → P r.projection
      → chart_event ast fuel leaf event r ≡ ok s
      → P s.projection
  unfolding chart_event
  chart_event_keeps leaf event r s holds h =
      let (found, _, more) = >>=-eq-ok (find_handler ast leaf event.kind) _ h in
      let (k, _, rest) = >>=-eq-ok (require found (no_transition leaf)) _ more in
      let target = sibling_path k.path k.transition.target in
      let entry : Option EntryEvent =
        some (record { transition = k.transition; event = event; scope = k.path }) in
      let (p, inputs, moved) =
        >>=-eq-ok (apply_inputs_for_entry ast fuel target entry r.projection) _ rest in
      enter_keeps k.path target entry r s p holds inputs moved

  pub apply_transition_keeps :
      (leaf : Str) (event : ChartEvent) (r s : Run)
      → P r.projection
      → apply_transition ast fuel leaf event r ≡ ok s
      → P s.projection
  unfolding apply_transition
  apply_transition_keeps leaf event r s holds h =
      elim (Option-cases (actor_context_for_state ast leaf)) [
        | inl main ↦ chart_event_keeps leaf event r s holds (rw (main, apply_transition) at h)
        | inr (c, local) ↦
            let (p, moved, whole) =
              >>=-eq-ok (actor_event ast c leaf event r.projection) _
                (rw (local, apply_transition) at h) in
            subst (λ (x : Run). P x.projection) (ok_injective whole)
              (actor_event_keeps c leaf event r.projection p holds moved)
      ]

  pub apply_after_transition_keeps :
      (leaf : Str) (r s : Run)
      → P r.projection
      → apply_after_transition ast fuel leaf r ≡ ok s
      → P s.projection
  unfolding apply_after_transition
  apply_after_transition_keeps leaf r s holds h =
      let (node, _, more) = >>=-eq-ok (require (action_state_at ast leaf) (no_after leaf)) _ h in
      let (after, _, rest) = >>=-eq-ok (require node.after (no_after leaf)) _ more in
      elim (Option-cases (actor_context_for_state ast leaf)) [
        | inl main ↦
            let target = sibling_path leaf after.target in
            let (p, inputs, moved) =
              >>=-eq-ok (apply_inputs_for_entry ast fuel target none r.projection) _
                (rw main at rest) in
            enter_keeps leaf target none r s p holds inputs moved
        | inr (c, local) ↦
            let (p, moved, whole) =
              >>=-eq-ok (move_actor ast c leaf after.target none r.projection) _
                (rw local at rest) in
            subst (λ (x : Run). P x.projection) (ok_injective whole)
              (move_actor_keeps c leaf after.target none r.projection p holds moved)
      ]

  producer_transition_keeps :
      (state : Str) (t : Transition) (event : ChartEvent) (r s : Run)
      → P r.projection
      → producer_transition ast fuel state t event r ≡ ok s
      → P s.projection
  unfolding producer_transition
  producer_transition_keeps state t event r s holds h =
      elim (Option-cases (actor_context_for_state ast state)) [
        | inl main ↦
            let k = rw (main, producer_transition) at h in
            let (_, more) =
              guard-eq-ok (is_active_leaf r.projection state) (inactive_state state) _ k in
            let (p, inputs, moved) =
              >>=-eq-ok (apply_inputs_for_entry ast fuel target entry r.projection) _ more in
            enter_keeps state target entry r s p holds inputs moved
        | inr (c, local) ↦
            let k = rw (local, producer_transition) at h in
            let (p, moved, whole) =
              >>=-eq-ok (move_actor ast c state t.target entry r.projection) _ k in
            subst (λ (x : Run). P x.projection) (ok_injective whole)
              (move_actor_keeps c state t.target entry r.projection p holds moved)
      ]
    where
      target : Str
      target = sibling_path state t.target

      entry : Option EntryEvent
      entry = some (record { transition = t; event = event; scope = state })

  pub advance_after_enqueue_keeps :
      (state : Str) (r s : Run)
      → P r.projection
      → advance_after_enqueue ast fuel state r ≡ ok s
      → P s.projection
  unfolding advance_after_enqueue
  advance_after_enqueue_keeps state r s holds h =
      let (node, _, more) = >>=-eq-ok (actor_producer_node ast state) _ h in
      by_kind node (waits_for_reply node.kind) more
    where
      quiet_event : ChartEvent
      quiet_event = record { kind = actor_reply; output = none; error = none }

      by_kind :
          (node : Messaging) (b : Bool)
          → (if b then ok r else (do
            target ← require node.target (no_transition state)
            producer_transition ast fuel state (plain_transition target) quiet_event r))
            ≡ ok s
          → P s.projection
      by_kind node true e = subst (λ (x : Run). P x.projection) (ok_injective e) holds
      by_kind node false e =
          let (target, _, moved) = >>=-eq-ok (require node.target (no_transition state)) _ e in
          producer_transition_keeps state (plain_transition target) quiet_event r s holds moved

  pub advance_after_reply_keeps :
      (state : Str) (event : Option Str) (output : Option Json) (r s : Run)
      → P r.projection
      → advance_after_reply ast fuel state event output r ≡ ok s
      → P s.projection
  unfolding advance_after_reply
  advance_after_reply_keeps state event output r s holds h =
      let (node, _, more) = >>=-eq-ok (actor_producer_node ast state) _ h in
      let (_, rest) = guard-eq-ok (waits_for_reply node.kind) (producer_kind state) _ more in
      let (t, _, moved) =
        >>=-eq-ok (require (reply_route node event) (no_transition state)) _ rest in
      producer_transition_keeps state t
        (record { kind = event_or_reply event; output = output; error = none }) r s holds moved
