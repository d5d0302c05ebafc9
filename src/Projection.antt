-- ===== src/Projection.antt =====
-- The state that replay rebuilds, `BranchProjection` of
-- packages/hyperchart/src/core/projection.ts, and its parts. What the records do to it stands in
-- the child modules.
pub mod Pending
pub mod Refs
pub mod Inputs
pub mod Joins
pub mod Moves
pub mod Retry
pub mod Gates
pub mod Endpoints
pub mod Records
pub mod Branch
use hyperchart.Prelude.{List, Option, [], if◌then◌else◌, none, some, ℕ, ◌++◌, ◌==◌, ◌∷◌}
use hyperchart.Chart.{Action, ActorDeclaration}
use hyperchart.Dict.{Dict, lookup, values}
use hyperchart.Json.{Json}
use hyperchart.Result.{worker_index}
use hyperchart.Text.{Str}
use hyperchart.Uid.{ActionUid}

-- ChartEvent: a completion with its output, or a failure with its error.
pub record ChartEvent : Type 0 where
  pub kind : Str
  pub output : Option Json
  pub error : Option Json

pub record ArtifactPin : Type 0 where
  pub hash : Str
  pub size : ℕ

-- The pins of a completion that is not yet accepted, and the branch that they were made on.
pub record ProvisionalPins : Type 0 where
  pub branch_id : Str
  pub pins : Dict ArtifactPin

-- AgentRecoveryScope and AgentRecoveryMode
pub data Scope : Type 0 where
  general validation : Scope

pub data Mode : Type 0 where
  nudge_mode restart_mode : Mode

pub record Counters : Type 0 where
  pub nudges : ℕ
  pub restarts : ℕ

pub record RecoveryCounters : Type 0 where
  pub general_counters : Counters
  pub validation_counters : Counters

abbrev pub counters_of : Scope → RecoveryCounters → Counters
counters_of general r = r.general_counters
counters_of validation r = r.validation_counters

abbrev pub empty_recovery_counters : RecoveryCounters
empty_recovery_counters = record {
  general_counters = record { nudges = 0; restarts = 0 };
  validation_counters = record { nudges = 0; restarts = 0 };
}

pub record AgentFailure : Type 0 where
  pub failure_kind : Str
  pub message : Str
  pub code : Option Str

pub record LastRetry : Type 0 where
  pub mode : Mode
  pub scope : Scope
  pub nudge_attempt : ℕ
  pub restart_attempt : ℕ
  pub failure : AgentFailure

pub data Phase : Type 0 where
  running : Phase
  validating_phase : (event : ChartEvent) (artifacts : Option ProvisionalPins) → Phase

pub record PendingAction : Type 0 where
  pub uid : ActionUid
  pub visit_id : ℕ
  pub seq_id : ℕ
  pub invoke_seq_id : ℕ
  pub session_id : Str
  pub definition : Action
  pub timestamp : ℕ
  pub gate_seq_id : Option ℕ
  pub recovery : RecoveryCounters
  pub last_retry : Option LastRetry
  pub phase : Phase

pub data MessageStatus : Type 0 where
  queued accepted replied settled : MessageStatus

pub record Message : Type 0 where
  pub message_id : Str
  pub event : Str
  pub input : Json
  pub producer_state : Str
  pub producer_visit : ℕ
  pub call_id : Option Str
  pub batch_index : ℕ
  pub status : MessageStatus
  pub receive_state : Option Str
  pub reply_event : Option Str
  pub reply_output : Option Json
  pub worker_index : Option ℕ

pub data ExecutionStatus : Type 0 where
  idle busy closing draining stopped failed cancelled : ExecutionStatus

pub record Worker : Type 0 where
  pub index : ℕ
  pub occurrence : Str
  pub current_state : Str
  pub current_message : Option Str
  pub status : ExecutionStatus

-- An ordinary actor runs by itself; a pool runs by its workers.
pub data Execution : Type 0 where
  ordinary : (current_state : Str) (current_message : Option Str) → Execution
  workers : List Worker → Execution

pub record Endpoint : Type 0 where
  pub declaration : Str
  pub logical_occurrence : Str
  pub occurrence : Str
  pub generation : ℕ
  pub owner : Option Str
  pub input : Json
  pub definition : ActorDeclaration
  pub mailbox : List Str
  pub status : ExecutionStatus
  pub execution : Execution

pub data CallKind : Type 0 where
  singleton : (message_id : Str) → CallKind
  batch : (message_ids : List Str) → CallKind

pub data CallStatus : Type 0 where
  call_enqueued call_accepted call_partial : CallStatus

pub record PendingCall : Type 0 where
  pub call_id : Str
  pub caller_state : Str
  pub occurrence : Str
  pub kind : CallKind
  pub status : CallStatus

pub data GateType : Type 0 where
  user_interaction host_gate : GateType

-- OpenedGateLog; `events` is read on user interactions only.
pub record OpenedGate : Type 0 where
  pub gate_type : GateType
  pub uid : ActionUid
  pub phase_seq_id : ℕ
  pub events : List Str

pub record Consumed : Type 0 where
  pub uid : ActionUid
  pub visit_id : ℕ
  pub seq_id : ℕ

pub record Completion : Type 0 where
  pub endpoint : Str
  pub event : Str
  pub payload : Json
  pub notification_seq_id : ℕ
  pub source_uid : ActionUid
  pub source_visit_id : ℕ
  pub consumed : Option Consumed

pub record Failure : Type 0 where
  pub origin : Str
  pub error : Json
  pub seq_id : ℕ

-- `gates` is openUserInteractions: numbered keys, at most one entry for each.
pub record Projection : Type 0 where
  pub active_leaves : List Str
  pub seq_id : ℕ
  pub pending : List PendingAction
  pub gates : List (ℕ × OpenedGate)
  pub completions : Dict Completion
  pub args : Option (Dict Json)
  pub spawns : Dict (Dict Json)
  pub inputs : Dict (Dict Json)
  pub results : Dict Json
  pub state_visits : Dict ℕ
  pub sessions : Dict Str
  pub artifact_pins : Dict ArtifactPin
  pub failure : Option Failure
  pub actors : Dict Endpoint
  pub actor_pools : Dict Endpoint
  pub messages : Dict Message
  pub calls : Dict PendingCall
  pub producer_visits : Dict ℕ

-- A durable fact that was a legal no-op, with the state that it was about.
pub record Skipped : Type 0 where
  pub skipped_seq_id : ℕ
  pub skipped_state : Str
  pub skipped_leaves : List Str

-- What `projectBranch` writes to: the projection and its two collecting arguments.
pub record Run : Type 0 where
  pub projection : Projection
  pub abandoned : List PendingAction
  pub skipped : List Skipped

-- openUserInteractions[n], and delete openUserInteractions[n]
unfoldable pub gate_at : ℕ → List (ℕ × OpenedGate) → Option OpenedGate
gate_at n [] = none
gate_at n ((m, g) ∷ gs) = if m == n then some g else gate_at n gs

unfoldable pub remove_gate : ℕ → List (ℕ × OpenedGate) → List (ℕ × OpenedGate)
remove_gate n [] = []
remove_gate n ((m, g) ∷ gs) = let rest = remove_gate n gs in if m == n then rest else (m, g) ∷ rest

abbrev pub remove_gate_of : Option ℕ → List (ℕ × OpenedGate) → List (ℕ × OpenedGate)
remove_gate_of none gs = gs
remove_gate_of (some n) gs = remove_gate n gs

-- projectedActorEndpoints, projectedActorEndpoint
unfoldable pub actor_endpoints : Projection → List Endpoint
actor_endpoints p = values p.actors ++ values p.actor_pools

unfoldable pub actor_endpoint : Projection → Str → Option Endpoint
actor_endpoint p occurrence = elim (lookup occurrence p.actors) [
  | some a ↦ some a
  | none ↦ lookup occurrence p.actor_pools
]
