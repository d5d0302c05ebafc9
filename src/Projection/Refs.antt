-- ===== src/Projection/Refs.antt =====
-- Refs to run state: `resolveRef`, `resolveVisitRef`, `selectRefPath` and `actionStateAt` of
-- projection.ts.
use hyperchart.Prelude.{
  Bool, List, Option, [], false, get_elem?, if◌then◌else◌, length, none, some, suc, zero, ℕ, ◌∷◌,
}
use hyperchart.Actors.{ActorContext, actor_context_for_state, actor_state_path}
use hyperchart.Chart.{
  ActionState, Chart, InputRef, Schema, State, action_state, actor_action, actor_input, arg,
  input_ref, item_ref, key_ref, map_state, message_input, node_at, result, visit,
}
use hyperchart.Dict.{Dict, has_key, lookup, values}
use hyperchart.Json.{Items, Json, arr, field_of, items, null, num, obj, str, undefined}
use hyperchart.Paths.{Instance, instance_path_for, nearest_instance, parent_path, strip_last_key}
use hyperchart.Paths.Nearest.{instance_path}
use hyperchart.Projection.{Endpoint, Message, Projection, Worker, actor_endpoint, ordinary, workers}
use hyperchart.Result.{
  Result, actor_missing, err, guard, message_head, no_argument, no_input, no_instance, no_result,
  no_selection, no_visit, ok, require, ◌>>=◌, ◌>>◌,
}
use hyperchart.Text.{Str, str_eq, text}
use hyperchart.Text.Decimal.{decimal, number_of}
use hyperchart.Text.Split.{split}
use hyperchart.Uid.{action_uid_key}

-- What a dot-path step finds in a value: a property of an object, an element or the length of an
-- array.
abbrev element_at : Str → Items → Option ℕ → Option Json
element_at segment vs none = none
element_at segment vs (some i) = if str_eq (decimal i) segment then get_elem? (items vs) i else none

unfoldable pub property_of : Str → Json → Option Json
property_of segment (obj fs) = field_of segment fs
property_of segment (arr vs) =
    if str_eq segment (text "length")
    then some (num (decimal (length (items vs))))
    else element_at segment vs (number_of segment)
property_of segment _ = none

unfoldable pub select_segments : List Str → Json → Option Json
select_segments [] v = some v
select_segments (s ∷ ss) v = elim (property_of s v) [ none ↦ none | some w ↦ select_segments ss w ]

-- selectRefPath and selectEventValue on a value that is there
unfoldable pub select_path : Json → Option Str → Str → Result Json
select_path v none state = ok v
select_path v (some path) state = require (select_segments (split b'.' path) v) (no_selection state)

-- a ?? b on a property
abbrev pub nullish : Option Json → Json → Json
nullish none b = b
nullish (some null) b = b
nullish (some undefined) b = b
nullish (some v) b = v

-- projectedActorCurrentMessage, worker?.currentMessageId ?? endpoint.currentMessageId
abbrev pub worker_message : Option Worker → Option Str
worker_message none = none
worker_message (some w) = w.current_message

unfoldable pub current_message_id : Endpoint → Option ℕ → Option Str
current_message_id e index = elim e.execution [
  | ordinary state message ↦ message
  | workers ws ↦ elim index [ none ↦ none | some i ↦ worker_message (get_elem? ws i) ]
]

abbrev current_message : Projection → Endpoint → Option ℕ → Option Message
current_message p e index = elim (current_message_id e index) [
  | none ↦ none
  | some id ↦ lookup id p.messages
]

abbrev context_endpoint : Projection → Option ActorContext → Option Endpoint
context_endpoint p none = none
context_endpoint p (some c) = actor_endpoint p c.endpoint_occurrence

abbrev context_worker : Option ActorContext → Option ℕ
context_worker none = none
context_worker (some c) = c.worker_index

-- actionStateAt
abbrev actor_action_state : Option ActorContext → Option ActionState
actor_action_state none = none
actor_action_state (some c) = elim c.node [ actor_action s ↦ some s | _ ↦ none ]

unfoldable pub action_state_at : Chart → Str → Option ActionState
action_state_at ast p =
    let in_actor = actor_action_state (actor_context_for_state ast p) in
    elim (node_at ast p) [
      | none ↦ in_actor
      | some node ↦ elim node [ action_state s ↦ some s | _ ↦ in_actor ]
    ]

-- A local path of the caller's actor, or a ref re-scoped into the caller's instance.
abbrev scoped_path : Option ActorContext → Str → Str → Str
scoped_path none path state = instance_path_for path state
scoped_path (some c) path state = actor_state_path c.occurrence path

abbrev declares : Option (Dict Schema) → Str → Bool
declares none name = false
declares (some d) name = has_key name d

abbrev get_values : Str → Dict (Dict Json) → Dict Json
get_values k d = elim (lookup k d) [ none ↦ [] | some values ↦ values ]

-- The slot of a node that declares the input.
abbrev declared_slot : State → Str → Str → Option Str
declared_slot (action_state s) name p = if declares s.declared name then some p else none
declared_slot (map_state m) name p =
    if declares m.declared name then some (strip_last_key p) else none
declared_slot _ name p = none

-- The loop of `inputSlotFor` up the parents; the parents are fewer than the characters.
unfoldable pub input_slot_from : Chart → ℕ → Str → Option Str → Option Str
input_slot_from ast fuel name none = none
input_slot_from ast zero name (some p) = none
input_slot_from ast (suc fuel) name (some p) =
    let above = input_slot_from ast fuel name (parent_path p) in
    elim (node_at ast p) [
      | none ↦ above
      | some node ↦ elim (declared_slot node name p) [ some slot ↦ some slot | none ↦ above ]
    ]

abbrev actor_declares : Option ActionState → Str → Bool
actor_declares none name = false
actor_declares (some s) name = declares s.declared name

unfoldable pub input_slot_for : Chart → Str → Str → Option Str
input_slot_for ast name p =
    if actor_declares (actor_action_state (actor_context_for_state ast p)) name
    then some p
    else input_slot_from ast (suc (length p)) name (some p)

abbrev visit_target : Chart → Option Str → Str → Str
visit_target ast none at = at
visit_target ast (some s) at = scoped_path (actor_context_for_state ast at) s at

unfoldable pub resolve_visit_ref : Chart → Projection → Option Str → Str → Result Json
resolve_visit_ref ast p state at = do
  let target = visit_target ast state at
  node ← require (action_state_at ast target) (no_visit at)
  visits ←
      require (lookup (action_uid_key (record node.action.uid { state = target })) p.state_visits)
        (no_visit at)
  ok (num (decimal visits))

-- key() and item(): the instance's spawn record must hold the key.
abbrev occurrence_property : Str → Instance → Projection → Option Json
occurrence_property name r p = lookup name (get_values (instance_path r) p.inputs)

abbrev spawned_item : Str → Option Instance → Projection → Result (Instance × Json)
spawned_item at none p = err (no_instance at)
spawned_item at (some r) p = do
  instances ← require (lookup r.container p.spawns) (no_instance at)
  item ← require (lookup r.key instances) (no_instance at)
  ok (r, item)

unfoldable pub resolve_ref : Chart → Projection → InputRef → Str → Result Json
resolve_ref ast p (actor_input path) at = do
  e ← require (context_endpoint p (actor_context_for_state ast at)) (actor_missing at)
  select_path e.input path at
resolve_ref ast p (message_input message path) at = do
  let context = actor_context_for_state ast at
  e ← require (context_endpoint p context) (actor_missing at)
  m ← require (current_message p e (context_worker context)) (message_head at)
  guard (str_eq m.event message) (message_head at)
  select_path m.input path at
resolve_ref ast p (arg name) at = do
  args ← require p.args (no_argument at)
  require (lookup name args) (no_argument at)
resolve_ref ast p (visit state) at = resolve_visit_ref ast p state at
resolve_ref ast p (input_ref name path) at = do
  slot ← require (input_slot_for ast name at) (no_input at)
  v ← require (lookup name (get_values slot p.inputs)) (no_input at)
  select_path v path at
resolve_ref ast p (key_ref map_path) at = do
  found ← spawned_item at (nearest_instance at map_path) p
  ok (nullish (occurrence_property (text "key") found.0 p) (str found.0.key))
resolve_ref ast p (item_ref map_path path) at = do
  found ← spawned_item at (nearest_instance at map_path) p
  select_path (nullish (occurrence_property (text "item") found.0 p) found.1) path at
resolve_ref ast p (result state path) at = do
  v ←
      require (lookup (scoped_path (actor_context_for_state ast at) state at) p.results)
        (no_result at)
  select_path v path at
