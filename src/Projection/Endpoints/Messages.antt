-- ===== src/Projection/Endpoints/Messages.antt =====
-- A message at its actor: the `actor_message` records, accepted, replied and settled, with their
-- assertions.
use hyperchart.Prelude.{
  Bool, List, Option, [], any, false, get_elem?, if◌then◌else◌, none, not, some, true, ℕ, ◌&&◌,
  ◌==◌, ◌∷◌,
}
use hyperchart.Actors.{actor_state_path}
use hyperchart.Chart.{ActorDefinition, ActorState, Chart, receive, reply}
use hyperchart.Dict.{lookup, put, remove}
use hyperchart.Entry.{is_some}
use hyperchart.Json.{Json}
use hyperchart.Projection.{
  Endpoint, Execution, ExecutionStatus, Message, MessageStatus, Projection, Worker, accepted,
  actor_endpoint, busy, draining, idle, ordinary, replied, settled, workers,
}
use hyperchart.Projection.Endpoints.{
  actor_message, is_closing, is_ended, is_free, refresh_pending_batch_status, refresh_pool_status,
}
use hyperchart.Projection.Moves.{
  apply_actor_input_for_entry, live_actor_declaration, put_endpoint, set_worker,
}
use hyperchart.Result.{
  Result, actor_missing, err, guard, message_head, message_provenance, message_reply,
  message_settle, ok, require, worker_index, ◌>>=◌, ◌>>◌,
}
use hyperchart.Text.{Str, str_eq}

pub record Acceptance : Type 0 where
  pub occurrence : Str
  pub message_id : Str
  pub receive_state : Str
  pub worker_index : Option ℕ

pub record Replying : Type 0 where
  pub occurrence : Str
  pub message_id : Str
  pub message : Str
  pub reply_event : Option Str
  pub output : Option Json
  pub worker_index : Option ℕ

pub record Settlement : Type 0 where
  pub occurrence : Str
  pub message_id : Str
  pub worker_index : Option ℕ

-- The executor that a record names: the actor itself, or the worker of a pool.
pub data Executor : Type 0 where
  itself : (current_state : Str) (current_message : Option Str) → Executor
  by_worker : (index : ℕ) (worker : Worker) → Executor

abbrev pub head_of : List Str → Option Str
head_of [] = none
head_of (m ∷ ms) = some m

-- endpoint.mailbox.shift()
abbrev pub tail_of : List Str → List Str
tail_of [] = []
tail_of (m ∷ ms) = ms

abbrev pub named : Str → Message → Bool
named id m = str_eq m.message_id id

-- The message that a mailbox has first, which must be the one of the record.
unfoldable pub head_message : Projection → Endpoint → Str → Result Message
head_message p e id = do
  m ← require (actor_message p (head_of e.mailbox)) (message_head e.occurrence)
  guard (named id m) (message_head e.occurrence)
  ok m

-- receive.on[event] of a receive state
abbrev pub receive_target : Option ActorState → Str → Option Str
receive_target (some (receive on)) event = lookup event on
receive_target _ event = none

abbrev pub eligible : ActorDefinition → Str → Worker → Bool
eligible d event w =
    is_free w
    && not (is_ended w.status)
    && is_some (receive_target (lookup w.current_state d.states) event)

abbrev pub index_is : ℕ → Worker → Bool
index_is i w = w.index == i

-- The worker that a pool gives its head to: in range, free, and able to receive the event.
unfoldable pub accept_worker :
    ActorDefinition → Acceptance → Message → List Worker → Option ℕ → Result Executor
accept_worker d r head ws none = err (worker_index r.occurrence)
accept_worker d r head ws (some i) = do
  w ← require (get_elem? ws i) (worker_index r.occurrence)
  guard (is_free w) (message_reply r.occurrence)
  guard (any (λ (c : Worker). eligible d head.event c && index_is w.index c) ws)
      (worker_index r.occurrence)
  guard (str_eq r.receive_state (actor_state_path w.occurrence w.current_state))
      (message_provenance r.occurrence)
  ok (by_worker i w)

unfoldable pub accept_itself :
    ActorDefinition → Acceptance → Str → Option Str → Option ℕ → Result Executor
accept_itself d r state message (some i) = err (worker_index r.occurrence)
accept_itself d r state message none = do
  guard (not (is_some message)) (message_reply r.occurrence)
  guard (str_eq r.receive_state (actor_state_path r.occurrence state))
      (message_provenance r.occurrence)
  ok (itself state message)

abbrev pub accept_executor : ActorDefinition → Acceptance → Message → Execution → Result Executor
accept_executor d r head (ordinary state message) = accept_itself d r state message r.worker_index
accept_executor d r head (workers ws) = accept_worker d r head ws r.worker_index

abbrev pub state_of_executor : Executor → Str
state_of_executor (itself state message) = state
state_of_executor (by_worker i w) = w.current_state

pub record Accepted : Type 0 where
  pub endpoint : Endpoint
  pub executor : Executor
  pub head : Message
  pub target : Str

-- assertActorMessageAccepted: only the head of the mailbox may be accepted.
unfoldable pub assert_accepted : Chart → Projection → Acceptance → Result Accepted
assert_accepted ast p r = do
  e ← require (actor_endpoint p r.occurrence) (actor_missing r.occurrence)
  head ← head_message p e r.message_id
  live ← live_actor_declaration ast e.declaration e.occurrence
  x ← accept_executor live.definition r head e.execution
  target ←
      require (receive_target (lookup (state_of_executor x) live.definition.states) head.event)
        (message_head r.occurrence)
  ok (record { endpoint = e; executor = x; head = head; target = target })

abbrev pub work_status : ExecutionStatus → ExecutionStatus → ExecutionStatus
work_status endpoint otherwise = if is_closing endpoint then draining else otherwise

-- The endpoint with its executor at a state, with a message, and in a status.
abbrev pub set_worker_at : ℕ → Worker → Execution → Execution
set_worker_at i w (ordinary state message) = ordinary state message
set_worker_at i w (workers ws) = workers (set_worker i w ws)

abbrev pub with_executor : Executor → Str → Option Str → ExecutionStatus → Endpoint → Endpoint
with_executor (itself s m) state message status e = record e {
  execution = ordinary state message;
  status = work_status e.status status;
}
with_executor (by_worker i w) state message status e = refresh_pool_status (record e {
  execution =
      set_worker_at i
        (record w {
          current_state = state;
          current_message = message;
          status = work_status e.status status;
        })
        e.execution;
})

abbrev pub executor_worker : Executor → Str → Option Worker
executor_worker (itself s m) id = none
executor_worker (by_worker i w) id = some (record w { current_message = some id })

-- The executor owns the message before its inputs are resolved, and is still at its old state.
abbrev pub owning : Executor → Str → Endpoint → Endpoint
owning (itself s m) id e = record e { execution = ordinary s (some id) }
owning (by_worker i w) id e = record e {
  execution = set_worker_at i (record w { current_message = some id }) e.execution;
}

unfoldable pub put_message : Message → Projection → Projection
put_message m p = record p { messages = put m.message_id m p.messages }

-- A field that is written only when the record has it.
abbrev pub or_kept {ℓ} : {A : Type ℓ} → Option A → Option A → Option A
or_kept none old = old
or_kept (some a) old = some a

-- The head leaves the mailbox and is its executor's message.
unfoldable pub take_head : Acceptance → Accepted → Projection → Projection
take_head r a p =
    put_endpoint r.occurrence
      (owning a.executor a.head.message_id
        (record (a.endpoint) { mailbox = tail_of a.endpoint.mailbox }))
      (put_message
        (record (a.head) {
          status = accepted;
          receive_state = some r.receive_state;
          worker_index = or_kept r.worker_index a.head.worker_index;
        })
        p)

unfoldable pub apply_accepted : Chart → Acceptance → Projection → Result Projection
apply_accepted ast r p = do
  a ← assert_accepted ast p r
  let shorter = record (a.endpoint) { mailbox = tail_of a.endpoint.mailbox }
  let q = take_head r a p
  next ←
      apply_actor_input_for_entry ast
        (record {
          endpoint = owning a.executor a.head.message_id shorter;
          worker = executor_worker a.executor a.head.message_id;
        })
        a.target none q
  refresh_pending_batch_status a.head.call_id (
      put_endpoint r.occurrence
        (with_executor a.executor a.target (some a.head.message_id) busy shorter) next)

-- The executor of a reply or a settlement: a worker for pools, the actor itself otherwise.
unfoldable pub executor_for : Endpoint → Option ℕ → Result Executor
executor_for e index = elim e.execution [
  | ordinary state message ↦ elim index [
    | none ↦ ok (itself state message)
    | some i ↦ err (worker_index e.occurrence)
  ]
  | workers ws ↦ elim index [
    | none ↦ err (worker_index e.occurrence)
    | some i ↦ do w ← require (get_elem? ws i) (worker_index e.occurrence); ok (by_worker i w)
  ]
]

abbrev pub message_of_executor : Executor → Option Str
message_of_executor (itself state message) = message
message_of_executor (by_worker i w) = w.current_message

abbrev pub same_index : Option ℕ → Option ℕ → Bool
same_index none none = true
same_index (some i) (some j) = i == j
same_index _ _ = false

-- The message that the executor works on, with the worker that it was given to.
unfoldable pub owned : Projection → Endpoint → Executor → Str → Option ℕ → Result Message
owned p e x id index = do
  m ← require (actor_message p (message_of_executor x)) (message_reply e.occurrence)
  guard (named id m) (message_reply e.occurrence)
  guard (same_index m.worker_index index) (worker_index e.occurrence)
  ok m

abbrev pub replies_to : Option ActorState → Str → Str → Bool
replies_to (some (reply target message)) event claimed =
    str_eq message event && str_eq claimed event
replies_to _ event claimed = false

-- assertActorMessageReplied
unfoldable pub assert_replied : Chart → Projection → Replying → Result Message
assert_replied ast p r = do
  e ← require (actor_endpoint p r.occurrence) (actor_missing r.occurrence)
  x ← executor_for e r.worker_index
  m ← owned p e x r.message_id r.worker_index
  live ← live_actor_declaration ast e.declaration e.occurrence
  guard (replies_to (lookup (state_of_executor x) live.definition.states) m.event r.message)
      (message_reply r.occurrence)
  ok m

unfoldable pub apply_replied : Chart → Replying → Projection → Result Projection
apply_replied ast r p = do
  m ← assert_replied ast p r
  ok (
      put_message
        (record m {
          status = replied;
          reply_event = or_kept r.reply_event m.reply_event;
          reply_output = or_kept r.output m.reply_output;
        })
        p)

pub record Settling : Type 0 where
  pub endpoint : Endpoint
  pub executor : Executor
  pub current : Message
  pub target : Str

abbrev pub is_replied : MessageStatus → Bool
is_replied replied = true
is_replied _ = false

abbrev pub reply_target : Option ActorState → Option Str
reply_target (some (reply target message)) = some target
reply_target _ = none

-- assertActorMessageSettled
unfoldable pub assert_settled : Chart → Projection → Settlement → Result Settling
assert_settled ast p r = do
  e ← require (actor_endpoint p r.occurrence) (actor_missing r.occurrence)
  x ← executor_for e r.worker_index
  m ← owned p e x r.message_id r.worker_index
  guard (is_replied m.status) (message_settle r.occurrence)
  live ← live_actor_declaration ast e.declaration e.occurrence
  target ←
      require (reply_target (lookup (state_of_executor x) live.definition.states))
        (message_settle r.occurrence)
  ok (record { endpoint = e; executor = x; current = m; target = target })

-- A message that no call waits for is forgotten.
unfoldable pub after_settlement : Message → Projection → Result Projection
after_settlement m p = elim m.call_id [
  | some id ↦ refresh_pending_batch_status (some id) p
  | none ↦ ok (record p { messages = remove m.message_id p.messages })
]

unfoldable pub apply_settled : Chart → Settlement → Projection → Result Projection
apply_settled ast r p = do
  s ← assert_settled ast p r
  after_settlement s.current (
      put_endpoint r.occurrence (with_executor s.executor s.target none idle s.endpoint)
        (put_message (record (s.current) { status = settled }) p))
