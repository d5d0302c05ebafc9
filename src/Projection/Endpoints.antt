-- ===== src/Projection/Endpoints.antt =====
-- Actor endpoints in replay: their birth, their messages, their calls and their end, the `actor_…`
-- records of projection.ts. This file has what the records share.
pub mod Created
pub mod Enqueued
pub mod Messages
pub mod Calls
pub mod Ends
use hyperchart.Prelude.{
  Bool, List, Option, [], all, false, if◌then◌else◌, keep, length, ltb, none, not, some, true, ℕ,
  ◌&&◌, ◌==◌, ◌||◌, ◌∷◌,
}
use hyperchart.Actors.{ActorContext, actor_context_for_state}
use hyperchart.Chart.{
  Chart, Messaging, MessagingKind, State, Transition, actor_messaging, call, call_batch, messaging,
  node_at,
}
use hyperchart.Dict.{Dict, lookup, put}
use hyperchart.Entry.{is_some, read_transition}
use hyperchart.Json.{Json}
use hyperchart.Paths.{sibling_path}
use hyperchart.Projection.{
  CallKind, CallStatus, ChartEvent, Endpoint, Execution, ExecutionStatus, Message, MessageStatus,
  PendingCall, Projection, Run, Worker, accepted, batch, busy, call_accepted, call_enqueued,
  call_partial, cancelled, closing, draining, failed, idle, ordinary, queued, settled, singleton,
  stopped, workers,
}
use hyperchart.Projection.Inputs.{apply_inputs_for_entry}
use hyperchart.Projection.Moves.{exit_and_enter, is_active_leaf, move_actor}
use hyperchart.Result.{
  Result, guard, inactive_state, message_call, no_transition, ok, producer_kind, require, ◌>>=◌,
  ◌>>◌,
}
use hyperchart.Text.{Str, text}

abbrev pub is_pool : Execution → Bool
is_pool (ordinary current_state current_message) = false
is_pool (workers ws) = true

abbrev pub is_closing : ExecutionStatus → Bool
is_closing closing = true
is_closing draining = true
is_closing _ = false

abbrev pub is_ended : ExecutionStatus → Bool
is_ended stopped = true
is_ended failed = true
is_ended cancelled = true
is_ended _ = false

abbrev pub is_free : Worker → Bool
is_free w = not (is_some w.current_message)

-- refreshPoolStatus
abbrev pub quiet : List Worker → List Str → Bool
quiet ws mailbox = all is_free ws && is_empty_list mailbox
  where
    is_empty_list : List Str → Bool
    is_empty_list [] = true
    is_empty_list (m ∷ ms) = false

unfoldable pub pool_status : ExecutionStatus → List Worker → List Str → ExecutionStatus
pool_status status ws mailbox =
    if is_closing status
    then (if quiet ws mailbox then closing else draining)
    else (if quiet ws mailbox then idle else busy)

abbrev pub status_now : Endpoint → ExecutionStatus
status_now e = elim e.execution [
  | ordinary current_state current_message ↦ e.status
  | workers ws ↦ pool_status e.status ws e.mailbox
]

-- The status of a pool follows its workers and its mailbox; that of an ordinary actor is its own.
unfoldable pub refresh_pool_status : Endpoint → Endpoint
refresh_pool_status e = record e { status = status_now e }

-- projectedActorMessage
unfoldable pub actor_message : Projection → Option Str → Option Message
actor_message p none = none
actor_message p (some id) = lookup id p.messages

-- refreshPendingBatchStatus: the messages of a batch that are not queued any more, and settled.
abbrev pub is_queued : MessageStatus → Bool
is_queued queued = true
is_queued _ = false

abbrev pub is_settled : MessageStatus → Bool
is_settled settled = true
is_settled _ = false

unfoldable pub batch_messages : Projection → Str → List Str → Result (List Message)
batch_messages p call_id [] = ok []
batch_messages p call_id (id ∷ ids) = do
  m ← require (lookup id p.messages) (message_call call_id)
  rest ← batch_messages p call_id ids
  ok (m ∷ rest)

unfoldable pub batch_status : List Message → CallStatus
batch_status ms =
    let accepted = length (keep (λ (m : Message). not (is_queued m.status)) ms) in
    let settled = length (keep (λ (m : Message). is_settled m.status) ms) in
    if ltb 0 settled || ltb 0 accepted && ltb accepted (length ms)
    then call_partial
    else if accepted == length ms
    then call_accepted
    else call_enqueued

abbrev pub call_status : Projection → PendingCall → CallKind → Result CallStatus
call_status p c (singleton message_id) = ok call_accepted
call_status p c (batch message_ids) = do
  ms ← batch_messages p c.call_id message_ids
  ok (batch_status ms)

unfoldable pub refresh_pending_batch_status : Option Str → Projection → Result Projection
refresh_pending_batch_status none p = ok p
refresh_pending_batch_status (some id) p = elim (lookup id p.calls) [
  | none ↦ ok p
  | some c ↦ do
    status ← call_status p c c.kind
    ok (record p { calls = put id (record c { status = status }) p.calls })
]

-- actorProducerNode: the messaging state at a path, of an actor or of the chart.
abbrev pub messaging_of : Option ActorContext → Option State → Option Messaging
messaging_of (some c) state = elim c.node [ actor_messaging m ↦ some m | _ ↦ none ]
messaging_of none (some (messaging m)) = some m
messaging_of none _ = none

unfoldable pub actor_producer_node : Chart → Str → Result Messaging
actor_producer_node ast state =
    require (messaging_of (actor_context_for_state ast state) (node_at ast state))
      (producer_kind state)

-- applyActorProducerTransition
unfoldable pub producer_transition : Chart → ℕ → Str → Transition → ChartEvent → Run → Result Run
producer_transition ast fuel state t event r = elim (actor_context_for_state ast state) [
  | some c ↦ do
    p ←
        move_actor ast c state t.target
          (some (record { transition = t; event = event; scope = state })) r.projection
    ok (record r { projection = p })
  | none ↦ do
    guard (is_active_leaf r.projection state) (inactive_state state)
    let target = sibling_path state t.target
    p ←
        apply_inputs_for_entry ast fuel target
          (some (record { transition = t; event = event; scope = state })) r.projection
    exit_and_enter ast fuel state target (record r { projection = p })
]

abbrev pub waits_for_reply : MessagingKind → Bool
waits_for_reply call = true
waits_for_reply call_batch = true
waits_for_reply _ = false

abbrev pub plain_transition : Str → Transition
plain_transition target = record { target = target; inputs = [] }

abbrev pub actor_reply : Str
actor_reply = text "ACTOR_REPLY"

-- advanceActorProducerAfterEnqueue; only a call may lack a target, and it waits.
unfoldable pub advance_after_enqueue : Chart → ℕ → Str → Run → Result Run
advance_after_enqueue ast fuel state r = do
  node ← actor_producer_node ast state
  if waits_for_reply node.kind then ok r else (do
    target ← require node.target (no_transition state)
    producer_transition ast fuel state (plain_transition target)
        (record { kind = actor_reply; output = none; error = none }) r)

-- The route of a reply: the fixed target, or the transition on the reply's event.
abbrev pub named_route : Option Str → Dict Transition → Option Transition
named_route none ts = none
named_route (some event) ts = read_transition event ts

unfoldable pub reply_route : Messaging → Option Str → Option Transition
reply_route node event = elim node.target [
  | some target ↦ some (plain_transition target)
  | none ↦ named_route event node.transitions
]

abbrev pub event_or_reply : Option Str → Str
event_or_reply none = actor_reply
event_or_reply (some event) = event

-- advanceActorProducerAfterReply
unfoldable pub advance_after_reply : Chart → ℕ → Str → Option Str → Option Json → Run → Result Run
advance_after_reply ast fuel state event output r = do
  node ← actor_producer_node ast state
  guard (waits_for_reply node.kind) (producer_kind state)
  t ← require (reply_route node event) (no_transition state)
  producer_transition ast fuel state t
      (record { kind = event_or_reply event; output = output; error = none }) r
