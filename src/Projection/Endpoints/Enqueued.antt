-- ===== src/Projection/Endpoints/Enqueued.antt =====
-- A transaction of messages to a mailbox: `assertActorMessagesEnqueued` and the
-- `actor_messages_enqueued` record.
use hyperchart.Prelude.{
  Bool, List, Option, [], all, any, false, if◌then◌else◌, length, map, none, not, some, suc, true,
  ℕ, ◌&&◌, ◌++◌, ◌+◌, ◌==◌, ◌||◌, ◌∷◌,
}
use hyperchart.Actors.{actor_context_for_state}
use hyperchart.Chart.{Chart, Messaging, MessagingKind, call, call_batch, send, send_batch}
use hyperchart.Dict.{Dict, has_key, keys, lookup, put}
use hyperchart.Json.{Json}
use hyperchart.Projection.{
  CallKind, Endpoint, Message, PendingCall, Projection, Run, actor_endpoint, batch, call_enqueued,
  queued, singleton,
}
use hyperchart.Projection.Endpoints.{
  actor_message, advance_after_enqueue, is_closing, is_ended, waits_for_reply,
}
use hyperchart.Projection.Moves.{
  ActorExecution, actor_execution, execution_current_state, put_endpoint, state_is,
}
use hyperchart.Projection.Refs.{current_message_id, worker_message}
use hyperchart.Result.{
  Result, actor_generation, actor_missing, actor_status, guard, inactive_state, message_call,
  message_identity, message_provenance, ok, producer_kind, require, ◌>>=◌, ◌>>◌,
}
use hyperchart.Text.{Str, str_eq, text}
use hyperchart.Text.Decimal.{decimal}

-- ActorMessageEnvelope
pub record Envelope : Type 0 where
  pub message_id : Str
  pub event : Str
  pub input : Json
  pub producer_state : Str
  pub producer_visit : ℕ
  pub call_id : Option Str
  pub batch_index : ℕ

-- ActorMessageSource; `definition` is the messaging state that was authored.
pub record Source : Type 0 where
  pub producer_state : Str
  pub kind : MessagingKind
  pub definition : Messaging
  pub target_declaration : Str
  pub event : Str

pub record Enqueue : Type 0 where
  pub occurrence : Str
  pub generation : ℕ
  pub source : Source
  pub first : Envelope
  pub rest : List Envelope

-- A record with no message is refused, so that the first one is a field here.
abbrev pub messages_of : Enqueue → List Envelope
messages_of r = r.first ∷ r.rest

abbrev pub is_send : MessagingKind → Bool
is_send send = true
is_send send_batch = true
is_send _ = false

abbrev pub is_single : MessagingKind → Bool
is_single send = true
is_single call = true
is_single _ = false

abbrev pub same_event : Source → Envelope → Bool
same_event s m = str_eq m.producer_state s.producer_state && str_eq m.event s.event

-- worker?.currentMessageId ?? endpoint.currentMessageId
abbrev pub owned_message : ActorExecution → Option Str
owned_message x = elim (worker_message x.worker) [
  | some id ↦ some id
  | none ↦ current_message_id x.endpoint none
]

-- The producer of a self-send is current, and its target is its own occurrence.
unfoldable pub assert_self_send : Chart → Projection → Enqueue → Result (Unit {0})
assert_self_send ast p r = do
  c ← require (actor_context_for_state ast r.source.producer_state) (producer_kind r.occurrence)
  x ← actor_execution p c
  m ← require (actor_message p (owned_message x)) (message_provenance r.occurrence)
  guard (state_is (execution_current_state x) c.local_state) (inactive_state r.occurrence)
  guard (str_eq r.source.target_declaration c.declaration.path) (message_provenance r.occurrence)
  guard (str_eq r.occurrence c.endpoint_occurrence) (message_provenance r.occurrence)

-- A closing actor takes messages only from an actor that works on one.
unfoldable pub assert_internal : Chart → Projection → Enqueue → Result (Unit {0})
assert_internal ast p r = do
  c ← require (actor_context_for_state ast r.source.producer_state) (actor_status r.occurrence)
  x ← actor_execution p c
  m ← require (actor_message p (owned_message x)) (actor_status r.occurrence)
  ok tt

abbrev pub visits_of : Option ℕ → ℕ
visits_of none = 0
visits_of (some n) = n

unfoldable pub message_id_for : Str → ℕ → ℕ → Str
message_id_for producer visited index =
    producer ++ text ":message:" ++ decimal visited ++ b':' ∷ decimal index

unfoldable pub call_id_for : Str → ℕ → Str
call_id_for producer visited = producer ++ text ":call:" ++ decimal visited

-- Each message has the identity of its place in the transaction.
unfoldable pub canonical_from : Str → ℕ → ℕ → List Envelope → Bool
canonical_from producer visited index [] = true
canonical_from producer visited index (m ∷ ms) =
    m.producer_visit == visited
    && m.batch_index == index
    && str_eq m.message_id (message_id_for producer visited index)
    && canonical_from producer visited (suc index) ms

abbrev pub same_call : Option Str → Option Str → Bool
same_call none none = true
same_call (some a) (some b) = str_eq a b
same_call _ _ = false

-- A call's messages carry the call's id, those of a send none.
abbrev pub expected_call : MessagingKind → Str → ℕ → Option Str
expected_call kind producer visited =
    if waits_for_reply kind then some (call_id_for producer visited) else none

-- The ids are new, and no two are the same.
unfoldable pub fresh_ids : List Str → List Envelope → Bool
fresh_ids ids [] = true
fresh_ids ids (m ∷ ms) = not (any (str_eq m.message_id) ids) && fresh_ids (m.message_id ∷ ids) ms

abbrev pub call_is_new : Option Str → Projection → Bool
call_is_new none p = true
call_is_new (some id) p = not (has_key id p.calls)

unfoldable pub expected_visit : Projection → Str → ℕ
expected_visit p producer = visits_of (lookup producer p.producer_visits) + 1

unfoldable pub assert_identity : Projection → Enqueue → Result (Unit {0})
assert_identity p r = do
  let producer = r.source.producer_state
  let visited = expected_visit p producer
  guard (canonical_from producer visited 0 (messages_of r)) (message_identity r.occurrence)
  guard (not (is_single r.source.kind) || length (messages_of r) == 1)
      (message_identity r.occurrence)
  guard
      (all (λ (m : Envelope). same_call m.call_id (expected_call r.source.kind producer visited))
        (messages_of r))
      (message_call r.occurrence)
  guard (call_is_new r.first.call_id p) (message_call r.occurrence)
  guard (fresh_ids (keys p.messages) (messages_of r)) (message_identity r.occurrence)

unfoldable pub assert_enqueued : Chart → Projection → Enqueue → Result Endpoint
assert_enqueued ast p r = do
  actor ← require (actor_endpoint p r.occurrence) (actor_missing r.occurrence)
  guard (r.generation == actor.generation) (actor_generation r.occurrence)
  guard
      (str_eq r.source.target_declaration actor.declaration && str_eq r.source.event r.first.event)
      (message_provenance r.occurrence)
  guard (all (same_event r.source) (messages_of r)) (message_provenance r.occurrence)
  if is_send r.source.definition.kind && r.source.definition.to_self
      then assert_self_send ast p r
      else ok tt
  guard (not (is_ended actor.status)) (actor_status r.occurrence)
  if is_closing actor.status then assert_internal ast p r else ok tt
  assert_identity p r
  ok actor

-- The envelope becomes a queued message.
abbrev pub queued_message : Envelope → Message
queued_message m = record {
  message_id = m.message_id;
  event = m.event;
  input = m.input;
  producer_state = m.producer_state;
  producer_visit = m.producer_visit;
  call_id = m.call_id;
  batch_index = m.batch_index;
  status = queued;
  receive_state = none;
  reply_event = none;
  reply_output = none;
  worker_index = none;
}

abbrev pub id_of_envelope : Envelope → Str
id_of_envelope m = m.message_id

unfoldable pub store_messages : List Envelope → Dict Message → Dict Message
store_messages [] d = d
store_messages (m ∷ ms) d = store_messages ms (put m.message_id (queued_message m) d)

abbrev pub call_kind : MessagingKind → List Envelope → Str → CallKind
call_kind call_batch ms first_id = batch (map id_of_envelope ms)
call_kind _ ms first_id = singleton first_id

unfoldable pub store_call : Enqueue → Dict PendingCall → Dict PendingCall
store_call r calls = elim r.first.call_id [
  | none ↦ calls
  | some id ↦
      put id
        (record {
          call_id = id;
          caller_state = r.source.producer_state;
          occurrence = r.occurrence;
          kind = call_kind r.source.kind (messages_of r) r.first.message_id;
          status = call_enqueued;
        })
        calls
]

-- The mailbox grows at its end, in the order of the transaction.
unfoldable pub post : Enqueue → Endpoint → Projection → Projection
post r actor p =
    let q =
      put_endpoint r.occurrence
        (record actor { mailbox = actor.mailbox ++ map id_of_envelope (messages_of r) }) p in
    record q {
      messages = store_messages (messages_of r) q.messages;
      calls = store_call r q.calls;
      producer_visits = put r.first.producer_state r.first.producer_visit q.producer_visits;
    }

unfoldable pub apply_enqueued : Chart → ℕ → Enqueue → Run → Result Run
apply_enqueued ast fuel r run = do
  actor ← assert_enqueued ast run.projection r
  advance_after_enqueue ast fuel r.first.producer_state
      (record run { projection = post r actor run.projection })
