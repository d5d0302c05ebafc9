-- ===== src/Chart.antt =====
-- The frozen chart AST, packages/hyperchart/src/core/types.ts: the parts that the projection reads.
-- An action keeps, beside those parts, the whole authored value, which replay compares.
use hyperchart.Prelude.{Bool, List, Option, [], false, some, true, ℕ}
use hyperchart.Dict.{Dict, lookup}
use hyperchart.Json.{Json}
use hyperchart.Paths.{template_path}
use hyperchart.Text.{Str}
use hyperchart.Uid.{ActionUid}

pub data InputRef : Type 0 where
  arg : (name : Str) → InputRef
  result : (state : Str) (path : Option Str) → InputRef
  key_ref : (map_path : Option Str) → InputRef
  item_ref : (map_path : Option Str) (path : Option Str) → InputRef
  input_ref : (name : Str) (path : Option Str) → InputRef
  visit : (state : Option Str) → InputRef
  actor_input : (path : Option Str) → InputRef
  message_input : (message : Str) (path : Option Str) → InputRef

pub data TransitionInput : Type 0 where
  event_binding : (path : Option Str) → TransitionInput
  ref_binding : InputRef → TransitionInput

pub record Transition : Type 0 where
  pub target : Str
  pub inputs : Dict TransitionInput

-- SchemaAst: the JSON schema itself; a declared input map has one for each name.
pub record Schema : Type 0 where
  pub schema : Json

pub record RecoveryPolicy : Type 0 where
  pub nudge : ℕ
  pub restart : ℕ

pub record Validation : Type 0 where
  pub guard_ref : Json
  pub on_fail : Option RecoveryPolicy

pub data ActionKind : Type 0 where
  agent : (on_fail : RecoveryPolicy) (validation : Option Validation) → ActionKind
  user gate script ts_import : ActionKind
  wait_for : (from event : Str) → ActionKind
  notify : (to event : Str) → ActionKind

pub record Action : Type 0 where
  pub uid : ActionUid
  pub kind : ActionKind
  pub authored : Json

pub record After : Type 0 where
  pub delay_ms : ℕ
  pub target : Str

pub record ActionState : Type 0 where
  pub action : Action
  pub declared : Option (Dict Schema)
  pub transitions : Dict Transition
  pub after : Option After

pub data MessagingKind : Type 0 where
  send send_batch call call_batch : MessagingKind

-- The four messaging states; `target` is absent only on a call with named replies.
pub record Messaging : Type 0 where
  pub kind : MessagingKind
  pub to : Str
  pub to_self : Bool
  pub event : Str
  pub target : Option Str
  pub transitions : Dict Transition

pub record MapState : Type 0 where
  pub declared : Option (Dict Schema)
  pub over : InputRef
  pub concurrency : Option ℕ
  pub initial : Str
  pub transitions : Dict Transition
  pub on_done : Str

pub data State : Type 0 where
  action_state : ActionState → State
  final : (is_failed : Bool) → State
  compound : (initial : Str) (transitions : Dict Transition) (on_done : Str) → State
  region : (initial : Str) (transitions : Dict Transition) → State
  parallel : (regions : List Str) (transitions : Dict Transition) (on_done : Str) → State
  map_state : MapState → State
  messaging : Messaging → State

pub data ActorState : Type 0 where
  actor_action : ActionState → ActorState
  receive : (on : Dict Str) → ActorState
  actor_messaging : Messaging → ActorState
  reply : (target message : Str) → ActorState

-- ActorDefinitionAst: the executable part of an actor, and of one pool worker.
pub record ActorDefinition : Type 0 where
  pub initial : Str
  pub states : Dict ActorState

pub data EndpointKind : Type 0 where
  single : EndpointKind
  pool : (concurrency : ℕ) → EndpointKind

-- ActorEndpointDeclarationAst; `definition` is what `actorDefinitionForEndpoint` returns.
pub record ActorDeclaration : Type 0 where
  pub kind : EndpointKind
  pub path : Str
  pub owner : Option Str
  pub definition : ActorDefinition

pub record CompletionDeclaration : Type 0 where
  pub name : Str
  pub event : Str
  pub authored : Json

pub record Chart : Type 0 where
  pub id : Str
  pub initial : Str
  pub states : Dict State
  pub actors : Dict ActorDeclaration
  pub completions : Dict CompletionDeclaration

-- nodeAt of paths.ts
unfoldable pub node_at : Chart → Str → Option State
node_at ast p = lookup (template_path p) ast.states

-- node.transitions; a final has none.
abbrev pub transitions_of : State → Dict Transition
transitions_of (action_state s) = s.transitions
transitions_of (final is_failed) = []
transitions_of (compound initial ts on_done) = ts
transitions_of (region initial ts) = ts
transitions_of (parallel regions ts on_done) = ts
transitions_of (map_state m) = m.transitions
transitions_of (messaging m) = m.transitions

abbrev pub is_final_state : Option State → Bool
is_final_state (some (final is_failed)) = true
is_final_state _ = false

abbrev pub is_map : State → Bool
is_map (map_state m) = true
is_map _ = false
