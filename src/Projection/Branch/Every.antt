-- ===== src/Projection/Branch/Every.antt =====
-- Every record keeps what the moves keep. The property may speak of a history of the records, which
-- only those that touch an endpoint change.
use hyperchart.Prelude.{
  Bool, Bool-cases, List, [], false, inl, inr, max, none, refl, some, subst, sym, true, ℕ, ◌∷◌, ◌≡◌,
}
use hyperchart.Chart.{Chart, node_at}
use hyperchart.Dict.{Dict}
use hyperchart.Json.{Json}
use hyperchart.Projection.{ChartEvent, Endpoint, GateType, Projection, Run, remove_gate}
use hyperchart.Projection.Branch.{
  Logged, Record, actor_created, apply_failure, apply_logged, apply_record, apply_spawned,
  args_record, batch_call_resolved, call_resolved, complete, consumed_record, emit, failure_intent,
  invoke, message_accepted, message_replied, message_settled, messages_enqueued, notified, opened,
  project_branch, resolved, retry, scope_closing, scope_stopped, session_ref, spawn_map, spawned,
  store_session, timer_fired, validated, with_projection,
}
use hyperchart.Projection.Branch.Control.{advance_after_enqueue_keeps, advance_after_reply_keeps}
use hyperchart.Projection.Branch.Frame.{Preserved, SameView, view_of}
use hyperchart.Projection.Branch.Gates.{
  apply_action_retry_view, apply_consumed_view, apply_failure_view, apply_notified_view,
  apply_opened_view,
}
use hyperchart.Projection.Branch.Records.{
  apply_action_completion_keeps, apply_invoke_keeps, apply_timer_fired_keeps, apply_validated_keeps,
}
use hyperchart.Projection.Endpoints.Calls.{
  BatchResult, CallResult, apply_batch_resolved, apply_call_resolved, assert_batch_resolved,
  assert_call_resolved, close_batch, close_call,
}
use hyperchart.Projection.Endpoints.Created.{Creation, apply_created}
use hyperchart.Projection.Endpoints.Ends.{apply_closing, apply_stopped}
use hyperchart.Projection.Endpoints.Enqueued.{Enqueue, apply_enqueued, assert_enqueued, post}
use hyperchart.Projection.Endpoints.Messages.{
  Acceptance, Settlement, apply_accepted, apply_replied, apply_settled, assert_replied, put_message,
}
use hyperchart.Projection.Gates.{apply_consumed, apply_notified, apply_opened, assert_resolved}
use hyperchart.Projection.Moves.{is_active_leaf}
use hyperchart.Projection.Records.{on_projection, record_skipped}
use hyperchart.Projection.Retry.{apply_action_retry}
use hyperchart.Result.{>>=-eq-ok, Result, not_a_map, ok, ok_injective, require}
use hyperchart.Text.{Str}
use hyperchart.Uid.{ActionUid}

abbrev pub touches_endpoint : Record → Bool
touches_endpoint (actor_created c) = true
touches_endpoint (messages_enqueued q) = true
touches_endpoint (message_accepted a) = true
touches_endpoint (message_settled m) = true
touches_endpoint (scope_closing o) = true
touches_endpoint (scope_stopped o) = true
touches_endpoint _ = false

pub record EndpointRecords {ℓ κ} {H : Type ℓ} (ast : Chart) (fuel : ℕ) (P : H → Projection → Type κ)
    (step : Record → H → H) : Type (ℓ ⊔ κ) where
  pub by_creation :
      (c : Creation) (h : H) (p q : Projection)
      → P h p
      → apply_created ast c p ≡ ok q
      → P (step (actor_created c) h) q
  pub by_post :
      (m : Enqueue) (actor : Endpoint) (h : H) (p : Projection)
      → P h p
      → assert_enqueued ast p m ≡ ok actor
      → P (step (messages_enqueued m) h) (post m actor p)
  pub by_acceptance :
      (a : Acceptance) (h : H) (p q : Projection)
      → P h p
      → apply_accepted ast a p ≡ ok q
      → P (step (message_accepted a) h) q
  pub by_settlement :
      (m : Settlement) (h : H) (p q : Projection)
      → P h p
      → apply_settled ast m p ≡ ok q
      → P (step (message_settled m) h) q
  pub by_closing :
      (o : Str) (h : H) (p q : Projection)
      → P h p
      → apply_closing o p ≡ ok q
      → P (step (scope_closing o) h) q
  pub by_stop :
      (o : Str) (h : H) (p q : Projection)
      → P h p
      → apply_stopped ast fuel o p ≡ ok q
      → P (step (scope_stopped o) h) q
  pub by_rest : (r : Record) (h : H) → touches_endpoint r ≡ false → step r h ≡ h

-- The history of a log.
abbrev pub history {ℓ} : {H : Type ℓ} → (Record → H → H) → List Logged → H → H
history step [] h = h
history step (l ∷ log) h = history step log (step l.record_of h)

module _ {ℓ κ} {H : Type ℓ} (ast : Chart) (fuel : ℕ) (P : H → Projection → Type κ)
    (step : Record → H → H) (rule : (h : H) → Preserved ast fuel (P h))
    (ends : EndpointRecords ast fuel P step) where
  -- A step on the projection alone, from the fact about its result.
  on_result :
      (r s : Run) (g : H) (m : Result Projection)
      → ((q : Projection) → m ≡ ok q → P g q)
      → with_projection r m ≡ ok s
      → P g s.projection
  on_result r s g m holds e =
      let (q, found, whole) = >>=-eq-ok m _ e in
      subst (λ (x : Run). P g x.projection) (ok_injective whole) (holds q found)

  -- A record that touches no endpoint leaves the history.
  at_rest :
      (record_of : Record) (h : H) (s : Run)
      → touches_endpoint record_of ≡ false
      → P h s.projection
      → P (step record_of h) s.projection
  at_rest record_of h s calm holds =
      subst (λ (g : H). P g s.projection) (sym (ends.by_rest record_of h calm)) holds

  -- A record that writes outside the view.
  quiet_record :
      (record_of : Record) (h : H) (r s : Run) (m : Result Projection)
      → touches_endpoint record_of ≡ false
      → ((q : Projection) → m ≡ ok q → SameView r.projection q)
      → P h r.projection
      → with_projection r m ≡ ok s
      → P (step record_of h) s.projection
  quiet_record record_of h r s m calm same holds e =
      at_rest record_of h s calm
        (on_result r s h m (λ q found. (rule h).quietly r.projection q (same q found) holds) e)

  spawned_keeps :
      (path : Str) (instances : Dict Json) (seq : ℕ) (h : H) (r s : Run)
      → P h r.projection
      → apply_spawned ast fuel path instances seq r ≡ ok s
      → P h s.projection
  unfolding apply_spawned record_skipped
  spawned_keeps path instances seq h r s holds e =
      elim (Bool-cases (is_active_leaf r.projection path)) [
        | inl t ↦
            let k = rw (t, apply_spawned) at e in
            let (node, _, more) = >>=-eq-ok (require (node_at ast path) (not_a_map path)) _ k in
            let (next, moved, whole) =
              >>=-eq-ok (spawn_map ast fuel path node instances r.projection) _ more in
            subst (λ (x : Run). P h x.projection) (ok_injective whole)
              ((rule h).by_spawn path node instances r.projection next holds moved)
        | inr f ↦
            let k = rw (f, apply_spawned) at e in
            subst (λ (x : Run). P h x.projection) (ok_injective k) holds
      ]

  enqueued_keeps :
      (m : Enqueue) (h : H) (r s : Run)
      → P h r.projection
      → apply_enqueued ast fuel m r ≡ ok s
      → P (step (messages_enqueued m) h) s.projection
  unfolding apply_enqueued
  enqueued_keeps m h r s holds e =
      let (actor, found, more) = >>=-eq-ok (assert_enqueued ast r.projection m) _ e in
      let g = step (messages_enqueued m) h in
      advance_after_enqueue_keeps ast fuel (P g) (rule g) m.first.producer_state
        (record r { projection = post m actor r.projection }) s
        (ends.by_post m actor h r.projection holds found) more

  call_resolved_keeps :
      (c : CallResult) (h : H) (r s : Run)
      → P h r.projection
      → apply_call_resolved ast fuel c r ≡ ok s
      → P h s.projection
  unfolding apply_call_resolved close_call
  call_resolved_keeps c h r s holds e =
      let (_, _, more) = >>=-eq-ok (assert_call_resolved r.projection c) _ e in
      advance_after_reply_keeps ast fuel (P h) (rule h) c.caller_state c.reply_event c.output
        (record r { projection = close_call c r.projection }) s
        ((rule h).quietly r.projection (close_call c r.projection) refl holds) more

  batch_resolved_keeps :
      (c : BatchResult) (h : H) (r s : Run)
      → P h r.projection
      → apply_batch_resolved ast fuel c r ≡ ok s
      → P h s.projection
  unfolding apply_batch_resolved close_batch
  batch_resolved_keeps c h r s holds e =
      let (outputs, _, more) = >>=-eq-ok (assert_batch_resolved r.projection c) _ e in
      advance_after_reply_keeps ast fuel (P h) (rule h) c.caller_state none (some outputs)
        (record r { projection = close_batch c outputs r.projection }) s
        ((rule h).quietly r.projection (close_batch c outputs r.projection) refl holds) more

  resolved_keeps :
      (type : GateType) (u : ActionUid) (n : ℕ) (event : ChartEvent) (seq : ℕ) (h : H) (r s : Run)
      → P h r.projection
      → apply_record ast fuel (resolved type u n event) seq r ≡ ok s
      → P h s.projection
  unfolding apply_record
  resolved_keeps type u n event seq h r s holds e =
      let (_, _, more) = >>=-eq-ok (assert_resolved ast type u n event r.projection) _ e in
      let closed : Projection = record (r.projection) {
        gates = remove_gate n r.projection.gates;
      } in
      apply_action_completion_keeps ast fuel (P h) (rule h) u event none seq false
        (record r { projection = closed }) s ((rule h).quietly r.projection closed refl holds) more

  -- A record that only writes outside the view, and never fails.
  plain_record :
      (record_of : Record) (h : H) (r t s : Run)
      → touches_endpoint record_of ≡ false
      → SameView r.projection t.projection
      → P h r.projection
      → ok t ≡ ok s
      → P (step record_of h) s.projection
  plain_record record_of h r t s calm same holds e = at_rest record_of h s calm (
      subst (λ (x : Run). P h x.projection) (ok_injective e)
        ((rule h).quietly r.projection t.projection same holds))

  pub apply_record_keeps :
      (record_of : Record) (seq : ℕ) (h : H) (r s : Run)
      → P h r.projection
      → apply_record ast fuel record_of seq r ≡ ok s
      → P (step record_of h) s.projection
  unfolding apply_record apply_replied put_message
  apply_record_keeps (session_ref none file) seq h r s holds e =
      plain_record (session_ref none file) h r r s refl refl holds e
  apply_record_keeps (session_ref (some u) file) seq h r s holds e =
      plain_record (session_ref (some u) file) h r (on_projection (store_session (some u) file) r) s
        refl refl holds e
  apply_record_keeps (args_record args) seq h r s holds e =
      plain_record (args_record args) h r
        (on_projection (λ (p : Projection). record p { args = some args }) r) s refl refl holds e
  apply_record_keeps emit seq h r s holds e = plain_record emit h r r s refl refl holds e
  apply_record_keeps (failure_intent origin error) seq h r s holds e =
      quiet_record (failure_intent origin error) h r s (apply_failure origin error seq r.projection)
        refl (λ q f. apply_failure_view origin error seq r.projection q f) holds e
  apply_record_keeps (notified endpoint event payload u v definition declaration) seq h r s holds
        e =
      quiet_record (notified endpoint event payload u v definition declaration) h r s
        (apply_notified ast endpoint event payload u v definition declaration seq r.projection) refl
        (λ q f.
          apply_notified_view ast endpoint event payload u v definition declaration seq r.projection
            q f)
        holds e
  apply_record_keeps (consumed_record endpoint u v notification definition) seq h r s holds e =
      quiet_record (consumed_record endpoint u v notification definition) h r s
        (apply_consumed ast endpoint u v notification definition seq r.projection) refl
        (λ q f. apply_consumed_view ast endpoint u v notification definition seq r.projection q f)
        holds e
  apply_record_keeps (opened o) seq h r s holds e =
      quiet_record (opened o) h r s (apply_opened ast o seq r.projection) refl
        (λ q f. apply_opened_view ast o seq r.projection q f) holds e
  apply_record_keeps (retry a) seq h r s holds e =
      quiet_record (retry a) h r s (apply_action_retry a r.projection) refl
        (λ q f. apply_action_retry_view a r.projection q f) holds e
  apply_record_keeps (message_replied m) seq h r s holds e =
      quiet_record (message_replied m) h r s (apply_replied ast m r.projection) refl
        (λ q f.
          let (_, _, whole) = >>=-eq-ok (assert_replied ast r.projection m) _ f in
          view_of (ok_injective whole))
        holds e
  apply_record_keeps (spawned path instances) seq h r s holds e =
      at_rest (spawned path instances) h s refl (spawned_keeps path instances seq h r s holds e)
  apply_record_keeps (resolved type u n event) seq h r s holds e =
      at_rest (resolved type u n event) h s refl (resolved_keeps type u n event seq h r s holds e)
  apply_record_keeps (invoke u session definition timestamp) seq h r s holds e =
      at_rest (invoke u session definition timestamp) h s refl
        (apply_invoke_keeps ast fuel (P h) (rule h) u session definition timestamp seq r s holds e)
  apply_record_keeps (complete u event artifacts) seq h r s holds e =
      at_rest (complete u event artifacts) h s refl (
        apply_action_completion_keeps ast fuel (P h) (rule h) u event artifacts seq true r s holds
          e)
  apply_record_keeps (timer_fired u) seq h r s holds e =
      at_rest (timer_fired u) h s refl
        (apply_timer_fired_keeps ast fuel (P h) (rule h) u seq r s holds e)
  apply_record_keeps (validated u branch outcome event) seq h r s holds e =
      at_rest (validated u branch outcome event) h s refl
        (apply_validated_keeps ast fuel (P h) (rule h) u branch outcome event seq r s holds e)
  apply_record_keeps (actor_created c) seq h r s holds e =
      on_result r s (step (actor_created c) h) (apply_created ast c r.projection)
        (λ q f. ends.by_creation c h r.projection q holds f) e
  apply_record_keeps (messages_enqueued m) seq h r s holds e = enqueued_keeps m h r s holds e
  apply_record_keeps (message_accepted a) seq h r s holds e =
      on_result r s (step (message_accepted a) h) (apply_accepted ast a r.projection)
        (λ q f. ends.by_acceptance a h r.projection q holds f) e
  apply_record_keeps (message_settled m) seq h r s holds e =
      on_result r s (step (message_settled m) h) (apply_settled ast m r.projection)
        (λ q f. ends.by_settlement m h r.projection q holds f) e
  apply_record_keeps (call_resolved c) seq h r s holds e =
      at_rest (call_resolved c) h s refl (call_resolved_keeps c h r s holds e)
  apply_record_keeps (batch_call_resolved c) seq h r s holds e =
      at_rest (batch_call_resolved c) h s refl (batch_resolved_keeps c h r s holds e)
  apply_record_keeps (scope_closing o) seq h r s holds e =
      on_result r s (step (scope_closing o) h) (apply_closing o r.projection)
        (λ q f. ends.by_closing o h r.projection q holds f) e
  apply_record_keeps (scope_stopped o) seq h r s holds e =
      on_result r s (step (scope_stopped o) h) (apply_stopped ast fuel o r.projection)
        (λ q f. ends.by_stop o h r.projection q holds f) e

  -- If the number of a record is no matter, a log keeps what its records keep.
  pub project_branch_keeps :
      ((h : H) (p : Projection) (n : ℕ) → P h p → P h (record p { seq_id = max p.seq_id n }))
      → (log : List Logged) (h : H) (r s : Run) → P h r.projection
      → project_branch ast fuel log r ≡ ok s
      → P (history step log h) s.projection
  unfolding project_branch apply_logged
  project_branch_keeps numbers [] h r s holds e =
      subst (λ (x : Run). P h x.projection) (ok_injective e) holds
  project_branch_keeps numbers (l ∷ log) h r s holds e =
      let (t, first, more) = >>=-eq-ok (apply_logged ast fuel l r) _ e in
      let (next, applied, whole) =
        >>=-eq-ok (apply_record ast fuel l.record_of l.number r) _ first in
      let g = step l.record_of h in
      project_branch_keeps numbers log g t s
        (subst (λ (x : Run). P g x.projection) (ok_injective whole)
          (numbers g next.projection l.number
            (apply_record_keeps l.record_of l.number h r next holds applied)))
        more
