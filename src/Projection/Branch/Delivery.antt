-- ===== src/Projection/Branch/Delivery.antt =====
-- The mailbox of an actor under the records that work on its messages and end it.
use hyperchart.Prelude.{
  Bool-cases, List, Option, [], ap, if◌then◌else◌, inl, inr, length, none, not, refl, some, subst,
  sym, ℕ, ◌++◌, ◌∙◌, ◌∷◌, ◌≡◌,
}
use hyperchart.Batch.{joined}
use hyperchart.Chart.{Chart}
use hyperchart.Dict.{lookup}
use hyperchart.Projection.{
  Endpoint, ExecutionStatus, Message, Projection, accepted, actor_endpoint, busy, idle, settled,
}
use hyperchart.Projection.Branch.Endpoints.{after_settlement_view, refresh_view}
use hyperchart.Projection.Branch.Frame.{actor_input_view}
use hyperchart.Projection.Branch.Mailbox.{
  mailbox_at, mailbox_at-kept, mailbox_at-put_endpoint, mailbox_at-view, mailbox_at_found,
  mailbox_at_same,
}
use hyperchart.Projection.Branch.Moved.{complete_parallels_kept}
use hyperchart.Projection.Branch.Written.{actor_endpoint_lem}
use hyperchart.Projection.Endpoints.{actor_message, refresh_pool_status}
use hyperchart.Projection.Endpoints.Ends.{
  apply_closing, apply_stopped, closing_endpoint, is_drained, is_stopped_status, stopped_endpoint,
}
use hyperchart.Projection.Endpoints.Messages.{
  Acceptance, Accepted, Executor, Settlement, Settling, accept_executor, apply_accepted,
  apply_settled, assert_accepted, assert_settled, by_worker, executor_for, executor_worker,
  head_message, head_of, is_replied, itself, or_kept, owned, owning, put_message, receive_target,
  reply_target, state_of_executor, tail_of, take_head, with_executor,
}
use hyperchart.Projection.Moves.{
  ActorExecution, apply_actor_input_for_entry, live_actor_declaration, put_endpoint,
}
use hyperchart.Result.{
  >>=-eq-ok, actor_missing, actor_status, guard-eq-ok, message_head, message_settle, not_drained,
  ok, ok_injective, require, require-eq-ok,
}
use hyperchart.Text.{Str, str_eq, str_eq→eq}

with_executor_mailbox :
    (x : Executor) (state : Str) (message : Option Str) (status : ExecutionStatus) (e : Endpoint)
    → (with_executor x state message status e).mailbox ≡ e.mailbox
unfolding refresh_pool_status
with_executor_mailbox (itself s m) state message status e = refl
with_executor_mailbox (by_worker i w) state message status e = refl

owning_mailbox : (x : Executor) (id : Str) (e : Endpoint) → (owning x id e).mailbox ≡ e.mailbox
owning_mailbox (itself s m) id e = refl
owning_mailbox (by_worker i w) id e = refl

-- Only an actor with a message in its mailbox accepts one.
assert_accepted_found :
    (ast : Chart) (r : Acceptance) (a : Accepted) (p : Projection)
    → assert_accepted ast p r ≡ ok a
    → (actor_endpoint p r.occurrence ≡ some a.endpoint)
      × ((id : Str) × (a.endpoint.mailbox ≡ id ∷ tail_of a.endpoint.mailbox))
unfolding assert_accepted head_message actor_message
assert_accepted_found ast r a p h =
    let (e, found, more) =
      >>=-eq-ok (require (actor_endpoint p r.occurrence) (actor_missing r.occurrence)) _ h in
    let (head, first, m2) = >>=-eq-ok (head_message p e r.message_id) _ more in
    let (live, _, m3) = >>=-eq-ok (live_actor_declaration ast e.declaration e.occurrence) _ m2 in
    let (x, _, m4) = >>=-eq-ok (accept_executor live.definition r head e.execution) _ m3 in
    let (target, _, whole) =
      >>=-eq-ok
        (require (receive_target (lookup (state_of_executor x) live.definition.states) head.event)
          (message_head r.occurrence))
        _ m4 in
    let same : e ≡ a.endpoint = ap (λ (y : Accepted). y.endpoint) (ok_injective whole) in
    let (m, there, _) =
      >>=-eq-ok (require (actor_message p (head_of e.mailbox)) (message_head e.occurrence)) _
        first in
    (
      require-eq-ok (actor_endpoint p r.occurrence) (actor_missing r.occurrence) found
          ∙ ap some same,
      subst (λ (y : Endpoint). (id : Str) × (y.mailbox ≡ id ∷ tail_of y.mailbox)) same
          (has_head e.mailbox (
            require-eq-ok (actor_message p (head_of e.mailbox)) (message_head e.occurrence) there)),
    )
  where
    has_head :
        {m : Message} (ids : List Str)
        → actor_message p (head_of ids) ≡ some m
        → (id : Str) × (ids ≡ id ∷ tail_of ids)
    has_head [] e = cc
    has_head (id ∷ ids) e = (id, refl)

-- The ids that an acceptance takes from this actor: one, or none.
abbrev pub takes_from : Str → Acceptance → ℕ
takes_from i r = if str_eq r.occurrence i then 1 else 0

-- The mailbox at an occurrence is another one behind so many ids.
abbrev pub Behind : ℕ → List Str → List Str → Type 0
Behind n before after = (gone : List Str) × (length gone ≡ n) × (before ≡ gone ++ after)

pub apply_accepted_mailbox :
    (ast : Chart) (r : Acceptance) (i : Str) (p q : Projection)
    → apply_accepted ast r p ≡ ok q
    → Behind (takes_from i r) (mailbox_at i p) (mailbox_at i q)
unfolding apply_accepted take_head put_message
apply_accepted_mailbox ast r i p q h =
    let (a, asserted, more) = >>=-eq-ok (assert_accepted ast p r) _ h in
    let (found, whole_box) = assert_accepted_found ast r a p asserted in
    let (id, shape) = whole_box in
    let shorter : Endpoint = record (a.endpoint) { mailbox = tail_of a.endpoint.mailbox } in
    let held : Endpoint = owning a.executor a.head.message_id shorter in
    let x : ActorExecution = record {
      endpoint = held;
      worker = executor_worker a.executor a.head.message_id;
    } in
    let (t, inputs, rest) =
      >>=-eq-ok (apply_actor_input_for_entry ast x a.target none (take_head r a p)) _ more in
    let next : Endpoint = with_executor a.executor a.target (some a.head.message_id) busy shorter in
    let stored : Projection =
      put_message
        (record (a.head) {
          status = accepted;
          receive_state = some r.receive_state;
          worker_index = or_kept r.worker_index a.head.worker_index;
        })
        p in
    let before : mailbox_at i t ≡ (if str_eq r.occurrence i then held.mailbox else mailbox_at i p) =
      sym (
        mailbox_at-view i (take_head r a p) t
          (actor_input_view ast x a.target none (take_head r a p) t inputs))
      ∙ mailbox_at-put_endpoint r.occurrence i held stored
      ∙ ap (λ (ms : List Str). if str_eq r.occurrence i then held.mailbox else ms)
          (mailbox_at-view i stored p refl) in
    let after : mailbox_at i q ≡ (if str_eq r.occurrence i then next.mailbox else mailbox_at i t) =
      sym (
        mailbox_at-view i (put_endpoint r.occurrence next t) q
          (refresh_view a.head.call_id (put_endpoint r.occurrence next t) q rest))
      ∙ mailbox_at-put_endpoint r.occurrence i next t in
    elim (Bool-cases (str_eq r.occurrence i)) [
      | inl same ↦
          let here = rw same at after in
          rw same (
            id ∷ [],
            refl,
            sym (ap (λ (o : Str). mailbox_at o p) (str_eq→eq r.occurrence i same))
                ∙ mailbox_at_found r.occurrence a.endpoint p found
                ∙ shape
                ∙ ap (λ (ms : List Str). id ∷ ms)
                    (sym (
                      here
                      ∙ with_executor_mailbox a.executor a.target (some a.head.message_id) busy
                          shorter)),
          )
      | inr other ↦
          let here = rw other at after in
          let earlier = rw other at before in rw other ([], refl, sym (here ∙ earlier))
    ]

pub apply_settled_mailbox :
    (ast : Chart) (r : Settlement) (i : Str) (p q : Projection)
    → apply_settled ast r p ≡ ok q
    → mailbox_at i q ≡ mailbox_at i p
unfolding apply_settled put_message assert_settled
apply_settled_mailbox ast r i p q h =
    let (s, asserted, more) = >>=-eq-ok (assert_settled ast p r) _ h in
    let (e, found, m1) =
      >>=-eq-ok (require (actor_endpoint p r.occurrence) (actor_missing r.occurrence)) _ asserted in
    let (x, _, m2) = >>=-eq-ok (executor_for e r.worker_index) _ m1 in
    let (m, _, m3) = >>=-eq-ok (owned p e x r.message_id r.worker_index) _ m2 in
    let (_, m4) = guard-eq-ok (is_replied m.status) (message_settle r.occurrence) _ m3 in
    let (live, _, m5) = >>=-eq-ok (live_actor_declaration ast e.declaration e.occurrence) _ m4 in
    let (target, _, whole) =
      >>=-eq-ok
        (require (reply_target (lookup (state_of_executor x) live.definition.states))
          (message_settle r.occurrence))
        _ m5 in
    let stored : Projection = put_message (record (s.current) { status = settled }) p in
    let next : Endpoint = with_executor s.executor s.target none idle s.endpoint in
    let there : actor_endpoint p r.occurrence ≡ some s.endpoint =
      require-eq-ok (actor_endpoint p r.occurrence) (actor_missing r.occurrence) found
      ∙ ap (λ (y : Settling). some y.endpoint) (ok_injective whole) in
    sym (
      mailbox_at-view i (put_endpoint r.occurrence next stored) q
        (after_settlement_view s.current (put_endpoint r.occurrence next stored) q more))
    ∙ mailbox_at_same r.occurrence i s.endpoint next stored
        (actor_endpoint_lem stored r.occurrence ∙ sym (actor_endpoint_lem p r.occurrence) ∙ there)
        (with_executor_mailbox s.executor s.target none idle s.endpoint)
    ∙ mailbox_at-view i stored p refl

pub apply_closing_mailbox :
    (o i : Str) (p q : Projection) → apply_closing o p ≡ ok q → mailbox_at i q ≡ mailbox_at i p
unfolding apply_closing closing_endpoint
apply_closing_mailbox o i p q h =
    let (e, found, more) = >>=-eq-ok (require (actor_endpoint p o) (actor_missing o)) _ h in
    let (_, whole) = guard-eq-ok (not (is_stopped_status e.status)) (actor_status o) _ more in
    sym (ap (mailbox_at i) (ok_injective whole))
    ∙ mailbox_at_same o i e (closing_endpoint e) p
        (require-eq-ok (actor_endpoint p o) (actor_missing o) found) refl

pub apply_stopped_mailbox :
    (ast : Chart) (fuel : ℕ) (o i : Str) (p q : Projection)
    → apply_stopped ast fuel o p ≡ ok q
    → mailbox_at i q ≡ mailbox_at i p
unfolding apply_stopped stopped_endpoint
apply_stopped_mailbox ast fuel o i p q h =
    let (e, found, more) = >>=-eq-ok (require (actor_endpoint p o) (actor_missing o)) _ h in
    let (_, joined) = guard-eq-ok (is_drained e) (not_drained o) _ more in
    sym (
      mailbox_at-kept i (put_endpoint o (stopped_endpoint e) p) q
        (complete_parallels_kept ast fuel fuel (put_endpoint o (stopped_endpoint e) p) q joined))
    ∙ mailbox_at_same o i e (stopped_endpoint e) p
        (require-eq-ok (actor_endpoint p o) (actor_missing o) found) refl
