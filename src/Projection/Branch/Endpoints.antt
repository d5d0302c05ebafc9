-- ===== src/Projection/Branch/Endpoints.antt =====
-- The records of endpoints leave the active leaves and the sequence number, but for the joins that
-- follow the end of an actor.
use hyperchart.Prelude.{
  Bool-cases, List, Option, Option-cases, ap, inl, inr, map, none, not, refl, some, ℕ, ◌++◌, ◌∙◌,
  ◌≡◌,
}
use hyperchart.Chart.{ActorDeclaration, Chart, EndpointKind, State, pool, single}
use hyperchart.Dict.{Dict, has_key, lookup}
use hyperchart.Json.{Json}
use hyperchart.Projection.{Endpoint, Message, Projection, Run, actor_endpoint, busy, idle, settled}
use hyperchart.Projection.Branch.{spawn_map}
use hyperchart.Projection.Branch.Every.{EndpointRecords}
use hyperchart.Projection.Branch.Frame.{Preserved, SameView, View, actor_input_view, view_of}
use hyperchart.Projection.Endpoints.{call_status, refresh_pending_batch_status}
use hyperchart.Projection.Endpoints.Created.{
  Creation, apply_created, assert_created, new_endpoint, store_endpoint,
}
use hyperchart.Projection.Endpoints.Ends.{
  apply_closing, apply_stopped, closing_endpoint, is_drained, is_stopped_status, stopped_endpoint,
}
use hyperchart.Projection.Endpoints.Enqueued.{Enqueue, id_of_envelope, messages_of, post}
use hyperchart.Projection.Endpoints.Messages.{
  Acceptance, Settlement, after_settlement, apply_accepted, apply_settled, assert_accepted,
  assert_settled, executor_worker, owning, put_message, tail_of, take_head, with_executor,
}
use hyperchart.Projection.Joins.{complete_parallels}
use hyperchart.Projection.Moves.{
  ActorExecution, apply_actor_input_for_entry, exit_and_enter, moved_to, put_endpoint,
  set_execution_current_state,
}
use hyperchart.Result.{
  >>=-eq-ok, actor_missing, actor_status, guard-eq-ok, not_drained, ok, ok_injective, require,
}
use hyperchart.Text.{Str}
use hyperchart.Text.Split.{join}

-- What the endpoints do not hold.
abbrev pub control : Projection → List Str × ℕ
control p = (p.active_leaves, p.seq_id)

abbrev pub SameControl : Projection → Projection → Type 0
SameControl p q = control p ≡ control q

control_of : {p q : Projection} → p ≡ q → SameControl p q
control_of e = ap control e

pub put_endpoint_control :
    (o : Str) (e : Endpoint) (p : Projection) → SameControl p (put_endpoint o e p)
unfolding put_endpoint
put_endpoint_control o e p = elim (Bool-cases (has_key o p.actors)) [
  | inl t ↦ rw t refl
  | inr f ↦ rw f refl
]

pub apply_created_control :
    (ast : Chart) (r : Creation) (p q : Projection) → apply_created ast r p ≡ ok q → SameControl p q
unfolding apply_created store_endpoint
apply_created_control ast r p q h =
    let (live, _, more) = >>=-eq-ok (assert_created ast p r) _ h in
    by_kind live live.kind (ok_injective more)
  where
    by_kind :
        (live : ActorDeclaration) (k : EndpointKind)
        → store_endpoint k (new_endpoint r live) p ≡ q
        → SameControl p q
    by_kind live single e = control_of e
    by_kind live (pool n) e = control_of e

pub post_control :
    (m : Enqueue) (actor : Endpoint) (p : Projection) → SameControl p (post m actor p)
unfolding post
post_control m actor p =
    put_endpoint_control m.occurrence
      (record actor { mailbox = actor.mailbox ++ map id_of_envelope (messages_of m) }) p

-- The status of a call is not in the view.
pub refresh_view :
    (id : Option Str) (p q : Projection) → refresh_pending_batch_status id p ≡ ok q → SameView p q
unfolding refresh_pending_batch_status
refresh_view none p q h = view_of (ok_injective h)
refresh_view (some id) p q h = elim (Option-cases (lookup id p.calls)) [
  | inl missing ↦ view_of (ok_injective (rw (missing, refresh_pending_batch_status) at h))
  | inr (c, found) ↦
      let k = rw (found, refresh_pending_batch_status) at h in
      let (status, _, whole) = >>=-eq-ok (call_status p c c.kind) _ k in
      view_of (ok_injective whole)
]

abbrev control_in : View → List Str × ℕ
control_in v = (v.leaves, v.last)

pub apply_accepted_control :
    (ast : Chart) (r : Acceptance) (p q : Projection)
    → apply_accepted ast r p ≡ ok q
    → SameControl p q
unfolding apply_accepted take_head put_message
apply_accepted_control ast r p q h =
    let (a, _, more) = >>=-eq-ok (assert_accepted ast p r) _ h in
    let shorter : Endpoint = record (a.endpoint) { mailbox = tail_of a.endpoint.mailbox } in
    let x : ActorExecution = record {
      endpoint = owning a.executor a.head.message_id shorter;
      worker = executor_worker a.executor a.head.message_id;
    } in
    let (t, inputs, rest) =
      >>=-eq-ok (apply_actor_input_for_entry ast x a.target none (take_head r a p)) _ more in
    put_endpoint_control r.occurrence (owning a.executor a.head.message_id shorter)
      (put_message _ p)
    ∙ ap control_in (actor_input_view ast x a.target none (take_head r a p) t inputs)
    ∙ put_endpoint_control r.occurrence
        (with_executor a.executor a.target (some a.head.message_id) busy shorter) t
    ∙ ap control_in (refresh_view a.head.call_id _ q rest)

pub after_settlement_view :
    (m : Message) (p q : Projection) → after_settlement m p ≡ ok q → SameView p q
unfolding after_settlement
after_settlement_view m p q h = elim (Option-cases m.call_id) [
  | inl free ↦ view_of (ok_injective (rw (free, after_settlement) at h))
  | inr (id, called) ↦ refresh_view (some id) p q (rw (called, after_settlement) at h)
]

pub apply_settled_control :
    (ast : Chart) (r : Settlement) (p q : Projection)
    → apply_settled ast r p ≡ ok q
    → SameControl p q
unfolding apply_settled put_message
apply_settled_control ast r p q h =
    let (s, _, more) = >>=-eq-ok (assert_settled ast p r) _ h in
    let stored : Projection = put_message (record (s.current) { status = settled }) p in
    let next : Endpoint = with_executor s.executor s.target none idle s.endpoint in
    put_endpoint_control r.occurrence next stored
    ∙ ap control_in (after_settlement_view s.current (put_endpoint r.occurrence next stored) q more)

pub apply_closing_control :
    (occurrence : Str) (p q : Projection) → apply_closing occurrence p ≡ ok q → SameControl p q
unfolding apply_closing
apply_closing_control occurrence p q h =
    let (e, _, more) =
      >>=-eq-ok (require (actor_endpoint p occurrence) (actor_missing occurrence)) _ h in
    let (_, whole) =
      guard-eq-ok (not (is_stopped_status e.status)) (actor_status occurrence) _ more in
    put_endpoint_control occurrence (closing_endpoint e) p ∙ control_of (ok_injective whole)

-- A property of the leaves and the number alone is kept by all that keeps it on the chart.
pub record ControlRule {κ} (ast : Chart) (fuel : ℕ) (P : Projection → Type κ) : Type κ where
  pub same_control : (p q : Projection) → SameControl p q → P p → P q
  pub joins : (p q : Projection) → P p → complete_parallels ast fuel fuel p ≡ ok q → P q
  pub exits :
      (exit target : Str) (r s : Run)
      → P r.projection
      → exit_and_enter ast fuel exit target r ≡ ok s
      → P s.projection
  pub spawns_map :
      (path : Str) (node : State) (instances : Dict Json) (p q : Projection)
      → P p
      → spawn_map ast fuel path node instances p ≡ ok q
      → P q

module _ {κ} (ast : Chart) (fuel : ℕ) (P : Projection → Type κ)
    (rule : ControlRule ast fuel P) where
  pub control_Preserved : Preserved ast fuel P
  unfolding set_execution_current_state
  control_Preserved = record {
    quietly = λ p q e. rule.same_control p q (ap control_in e);
    by_joins = rule.joins;
    by_exit = rule.exits;
    by_actor = λ c x target p q current same holds.
        rule.same_control q (set_execution_current_state c.endpoint_occurrence x target q)
          (put_endpoint_control c.endpoint_occurrence
            (record (x.endpoint) { execution = moved_to x target }) q)
          holds;
    by_spawn = rule.spawns_map;
  }

  stopped_keeps : (o : Str) (p q : Projection) → P p → apply_stopped ast fuel o p ≡ ok q → P q
  unfolding apply_stopped
  stopped_keeps o p q holds h =
      let (e, _, more) = >>=-eq-ok (require (actor_endpoint p o) (actor_missing o)) _ h in
      let (_, join) = guard-eq-ok (is_drained e) (not_drained o) _ more in
      rule.joins (put_endpoint o (stopped_endpoint e) p) q
        (rule.same_control p (put_endpoint o (stopped_endpoint e) p)
          (put_endpoint_control o (stopped_endpoint e) p) holds)
        join

  pub control_records : EndpointRecords {H = Unit {0}} ast fuel (λ _. P) (λ _ h. h)
  control_records = record {
    by_creation =
        λ c h p q holds e. rule.same_control p q (apply_created_control ast c p q e) holds;
    by_post =
        λ m actor h p holds e. rule.same_control p (post m actor p) (post_control m actor p) holds;
    by_acceptance =
        λ a h p q holds e. rule.same_control p q (apply_accepted_control ast a p q e) holds;
    by_settlement =
        λ m h p q holds e. rule.same_control p q (apply_settled_control ast m p q e) holds;
    by_closing = λ o h p q holds e. rule.same_control p q (apply_closing_control o p q e) holds;
    by_stop = λ o h p q holds e. stopped_keeps o p q holds e;
    by_rest = λ r h calm. refl;
  }
