-- ===== src/Machine/Mail.antt =====
-- The admission of messages: `actorEndpointAdmission` and `dueActorAccepts` of core/machine.ts.
pub mod Accepts
use hyperchart.Prelude.{
  Bool, List, Option, [], any, false, get_elem?, if◌then◌else◌, keep, map, none, not, some, true, ℕ,
  ◌&&◌, ◌++◌, ◌==◌, ◌||◌, ◌∷◌,
}
use hyperchart.Actors.{actor_state_path}
use hyperchart.Chart.{ActorDeclaration, ActorDefinition, ActorState, Chart, receive}
use hyperchart.Dict.{Dict, lookup}
use hyperchart.Entry.{is_some}
use hyperchart.Json.{str}
use hyperchart.Machine.Due.{RecordAppend}
use hyperchart.Projection.{
  Endpoint, Execution, Message, Projection, Worker, actor_endpoints, ordinary, workers,
}
use hyperchart.Projection.Branch.{failure_intent, message_accepted}
use hyperchart.Projection.Endpoints.{actor_message, is_ended, is_free}
use hyperchart.Projection.Endpoints.Messages.{Acceptance, head_of, receive_target}
use hyperchart.Result.{Result, err, guard, message_head, ok, require, worker_index, ◌>>=◌, ◌>>◌}
use hyperchart.Text.{Str, str_eq, text}

pub record Assignment : Type 0 where
  pub occurrence : Str
  pub message_id : Str
  pub receive_state : Str
  pub worker_index : Option ℕ

pub record Reservation : Type 0 where
  pub effect_id : Str
  pub message_id : Str
  pub worker_index : ℕ
  pub receive_state : Str

pub record AdmissionFailure : Type 0 where
  pub origin : Str
  pub error : Str
  pub occurrence : Str
  pub message_id : Str

-- What an endpoint, or all of them, give: assignments, or the failure that stands for the whole.
pub data Admitted : Type 0 where
  admits : List Assignment → Admitted
  fails : AdmissionFailure → Admitted

abbrev pub definition_for : Option ActorDeclaration → Endpoint → ActorDefinition
definition_for none e = e.definition.definition
definition_for (some live) e = live.definition

abbrev pub unsupported_by : Str → Str → Str
unsupported_by event state =
    text "FIFO head '" ++ event ++ text "' is unsupported by receive '" ++ state ++ text "'"

abbrev pub offer : Endpoint → Str → Message → Option Str → Admitted
offer e state head none = fails (record {
  origin = actor_state_path e.occurrence state;
  error = unsupported_by head.event state;
  occurrence = e.occurrence;
  message_id = head.message_id;
})
offer e state head (some target) = admits (
    record {
      occurrence = e.occurrence;
      message_id = head.message_id;
      receive_state = actor_state_path e.occurrence state;
      worker_index = none;
    }
    ∷ [])

abbrev pub offer_in : Endpoint → Str → Option Message → Option ActorState → Admitted
offer_in e state (some head) (some (receive on)) = offer e state head (lookup head.event on)
offer_in e state _ _ = admits []

-- An actor by itself takes the head of its mailbox when it is free and receives.
unfoldable pub admit_actor : Projection → Endpoint → ActorDefinition → Str → Option Str → Admitted
admit_actor p e d state message =
    if is_some message
    then admits []
    else offer_in e state (actor_message p (head_of e.mailbox)) (lookup state d.states)

-- The messages in flight must be the first of the mailbox, in order; what is behind them is returned.
abbrev pub has_id : Str → Option Message → Bool
has_id id none = false
has_id id (some m) = str_eq m.message_id id

unfoldable pub behind_reserved : Projection → Str → List Str → List Reservation → Result (List Str)
behind_reserved p occurrence mailbox [] = ok mailbox
behind_reserved p occurrence [] (r ∷ rs) = err (message_head occurrence)
behind_reserved p occurrence (id ∷ ids) (r ∷ rs) = do
  guard (has_id r.message_id (actor_message p (some id))) (message_head occurrence)
  behind_reserved p occurrence ids rs

abbrev pub may_take : ActorDefinition → List ℕ → Str → Worker → Bool
may_take d reserved event w =
    not (any (λ (i : ℕ). i == w.index) reserved)
    && not (is_ended w.status)
    && is_some (receive_target (lookup w.current_state d.states) event)

abbrev pub states_listed : List Worker → Str
states_listed [] = []
states_listed (w ∷ []) = w.current_state
states_listed (w ∷ v ∷ ws) = w.current_state ++ text ", " ++ states_listed (v ∷ ws)

abbrev pub first_place : Endpoint → List Worker → Str
first_place e [] = actor_state_path e.occurrence []
first_place e (w ∷ ws) = actor_state_path w.occurrence w.current_state

abbrev pub pool_failure : Endpoint → List Worker → Message → AdmissionFailure
pool_failure e ws head = record {
  origin = first_place e ws;
  error =
      text "FIFO head '"
      ++ head.event
      ++ text "' is unsupported by idle pool workers in receive states ["
      ++ states_listed ws
      ++ text "]";
  occurrence = e.occurrence;
  message_id = head.message_id;
}

abbrev pub assigned : Endpoint → Message → Worker → Assignment
assigned e head w = record {
  occurrence = e.occurrence;
  message_id = head.message_id;
  receive_state = actor_state_path w.occurrence w.current_state;
  worker_index = some w.index;
}

abbrev with_first : Assignment → Admitted → Admitted
with_first a (admits rest) = admits (a ∷ rest)
with_first a (fails f) = fails f

-- The mailbox of a pool in order, until a head finds no worker. `select` is the scheduler's choice, the
-- place of its worker among the eligible.
unfoldable pub admit_pool :
    (List Worker → ℕ)
    → Projection
    → Endpoint
    → ActorDefinition
    → List Worker
    → List ℕ
    → List Str
    → Result Admitted
admit_pool select p e d ws reserved [] = ok (admits [])
admit_pool select p e d ws reserved (id ∷ ids) = elim (actor_message p (some id)) [
  | none ↦ ok (admits [])
  | some head ↦ elim (keep (may_take d reserved head.event) ws) [
    | [] ↦
        if any (λ (w : Worker). any (λ (i : ℕ). i == w.index) reserved) ws
        then ok (admits [])
        else ok (fails (pool_failure e ws head))
    | w ∷ more ↦ do
      chosen ← require (get_elem? (w ∷ more) (select (w ∷ more))) (worker_index e.occurrence)
      rest ← admit_pool select p e d ws (chosen.index ∷ reserved) ids
      ok (with_first (assigned e head chosen) rest)
  ]
]

abbrev busy_indexes : List Worker → List ℕ
busy_indexes [] = []
busy_indexes (w ∷ ws) = let rest = busy_indexes ws in if is_free w then rest else w.index ∷ rest

abbrev or_none_reserved : Option (List Reservation) → List Reservation
or_none_reserved none = []
or_none_reserved (some rs) = rs

abbrev reserved_indexes : List Reservation → List ℕ
reserved_indexes [] = []
reserved_indexes (r ∷ rs) = r.worker_index ∷ reserved_indexes rs

abbrev pub is_mailbox_empty : List Str → Bool
is_mailbox_empty [] = true
is_mailbox_empty (m ∷ ms) = false

abbrev pub admit_execution :
    (List Worker → ℕ)
    → Dict (List Reservation)
    → Projection
    → Endpoint
    → ActorDefinition
    → Execution
    → Result Admitted
admit_execution select reservations p e d (ordinary state message) =
    ok (admit_actor p e d state message)
admit_execution select reservations p e d (workers ws) = do
  let in_flight = or_none_reserved (lookup e.occurrence reservations)
  rest ← behind_reserved p e.occurrence e.mailbox in_flight
  admit_pool select p e d ws (busy_indexes ws ++ reserved_indexes in_flight) rest

unfoldable pub admit_endpoint :
    (List Worker → ℕ) → Dict (List Reservation) → Chart → Projection → Endpoint → Result Admitted
admit_endpoint select reservations ast p e =
    if is_mailbox_empty e.mailbox || is_ended e.status
    then ok (admits [])
    else admit_execution select reservations p e
        (definition_for (lookup e.declaration ast.actors) e) e.execution

-- The loop over the endpoints, with what was assigned before; a failure takes the place of all.
unfoldable pub admit_endpoints :
    (List Worker → ℕ)
    → Dict (List Reservation)
    → Chart
    → Projection
    → List Assignment
    → List Endpoint
    → Result Admitted
admit_endpoints select reservations ast p before [] = ok (admits before)
admit_endpoints select reservations ast p before (e ∷ es) =
    admit_endpoint select reservations ast p e >>= λ one. elim one [
      | admits some_more ↦ admit_endpoints select reservations ast p (before ++ some_more) es
      | fails f ↦ ok (fails f)
    ]

-- actorEndpointAdmission
abbrev pub actor_endpoint_admission :
    (List Worker → ℕ) → Dict (List Reservation) → Chart → Projection → Result Admitted
actor_endpoint_admission select reservations ast p =
    admit_endpoints select reservations ast p [] (actor_endpoints p)

abbrev pub acceptance_of : Assignment → Acceptance
acceptance_of a = record {
  occurrence = a.occurrence;
  message_id = a.message_id;
  receive_state = a.receive_state;
  worker_index = a.worker_index;
}

abbrev accept_append : Assignment → RecordAppend
accept_append a = record {
  id = text "actor:accept:" ++ a.occurrence ++ b':' ∷ a.message_id;
  records = message_accepted (acceptance_of a) ∷ [];
}

abbrev appends_for : Admitted → List RecordAppend
appends_for (admits as_given) = map accept_append as_given
appends_for (fails f) =
    record {
      id = text "failure:unsupported-head:" ++ f.occurrence ++ b':' ∷ f.message_id;
      records = failure_intent f.origin (str f.error) ∷ [];
    }
    ∷ []

-- dueActorAccepts, whose worker is the first that is eligible.
unfoldable pub due_actor_accepts :
    Dict (List Reservation) → Chart → Projection → Result (List RecordAppend)
due_actor_accepts reservations ast p = do
  admitted ← actor_endpoint_admission (λ ws. 0) reservations ast p
  ok (appends_for admitted)
