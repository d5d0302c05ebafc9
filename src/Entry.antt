-- ===== src/Entry.antt =====
-- What entering a state resolves to: `enterState`, `findHandler` and `allowedEvents` of
-- packages/hyperchart/src/core/projection.ts. Entry recurs along the chart, and here on fuel.
pub mod Settles
pub mod Handlers
pub mod Leaves
use hyperchart.Prelude.{
  Bool, List, Option, [], any, false, if◌then◌else◌, length, none, some, suc, true, zero, ℕ, ◌++◌,
  ◌∷◌,
}
use hyperchart.Chart.{
  ActorDeclaration, Chart, State, Transition, action_state, compound, final, is_final_state, is_map,
  map_state, messaging, node_at, parallel, region, transitions_of,
}
use hyperchart.Dict.{Dict, keys, lookup, values}
use hyperchart.Paths.{
  child_path, last_segment_key, parent_path, sibling_path, strip_last_key, template_path,
}
use hyperchart.Result.{
  Result, broken_parent_chain, err, flat_map, ok, out_of_fuel, unknown_state, ◌>>=◌, ◌>>◌,
}
use hyperchart.Text.{Str, str_eq, text}

-- Does a declared actor belong to this compound?
unfoldable pub owns_actors : Chart → Str → Bool
owns_actors ast p = any (λ (a : ActorDeclaration). owner_is a.owner) (values ast.actors)
  where
    owner_is : Option Str → Bool
    owner_is none = false
    owner_is (some o) = str_eq o (template_path p)

-- What an entered final does to the state that contains it: it completes a compound with no actors
-- through its onDone, and rests in any other.
unfoldable pub enter_container :
    (Str → Result (List Str)) → Chart → Str → Str → State → Result (List Str)
enter_container go ast p parent (compound initial transitions on_done) =
    if owns_actors ast parent then ok (p ∷ []) else go (sibling_path parent on_done)
enter_container go ast p parent _ = ok (p ∷ [])

unfoldable pub enter_final :
    (Str → Result (List Str)) → Chart → Str → Option Str → Result (List Str)
enter_final go ast p none = ok (p ∷ [])
enter_final go ast p (some parent) = elim (node_at ast parent) [
  | none ↦ err (broken_parent_chain p)
  | some container ↦ enter_container go ast p parent container
]

-- One level of the entry; `go` enters the next one.
unfoldable pub enter_node : (Str → Result (List Str)) → Chart → Str → State → Result (List Str)
enter_node go ast p (compound initial transitions on_done) = go (child_path p initial)
enter_node go ast p (region initial transitions) = go (child_path p initial)
enter_node go ast p (map_state m) = elim (last_segment_key p) [
  | none ↦ ok (p ∷ [])
  | some key ↦ go (child_path p m.initial)
]
enter_node go ast p (parallel regions transitions on_done) =
    flat_map (λ (r : Str). go (child_path p r)) regions
enter_node go ast p (final is_failed) = enter_final go ast p (parent_path p)
enter_node go ast p (action_state s) = ok (p ∷ [])
enter_node go ast p (messaging m) = ok (p ∷ [])

unfoldable pub enter_state : Chart → ℕ → Str → Result (List Str)
enter_state ast zero p = err out_of_fuel
enter_state ast (suc fuel) p = elim (node_at ast p) [
  | none ↦ err (unknown_state p)
  | some node ↦ enter_node (enter_state ast fuel) ast p node
]

pub record Handler : Type 0 where
  pub path : Str
  pub transition : Transition

-- The scope of a handler: a map's transitions belong to the container.
abbrev pub handler_path : State → Str → Str
handler_path node p = if is_map node then strip_last_key p else p

-- The names that a plain object inherits.
abbrev pub inherited_names : List Str
inherited_names =
    text "constructor"
    ∷ text "toString"
    ∷ text "valueOf"
    ∷ text "toLocaleString"
    ∷ text "hasOwnProperty"
    ∷ text "isPrototypeOf"
    ∷ text "propertyIsEnumerable"
    ∷ text "__proto__"
    ∷ text "__defineGetter__"
    ∷ text "__defineSetter__"
    ∷ text "__lookupGetter__"
    ∷ text "__lookupSetter__"
    ∷ []

abbrev pub inherits : Str → Bool
inherits event = any (str_eq event) inherited_names

-- What is inherited has neither a target nor inputs; in a path the missing target is spelled out.
abbrev pub inherited_transition : Transition
inherited_transition = record { target = text "undefined"; inputs = [] }

-- transitions[eventType]
abbrev pub read_transition : Str → Dict Transition → Option Transition
read_transition event ts = elim (lookup event ts) [
  | some t ↦ some t
  | none ↦ if inherits event then some inherited_transition else none
]

abbrev pub transition_at : State → Str → Option Transition
transition_at node event =
    if is_final_state (some node) then none else read_transition event (transitions_of node)

-- The walk of `findHandler` up the parents.
unfoldable pub find_handler_from : Chart → ℕ → Option Str → Str → Result (Option Handler)
find_handler_from ast fuel none event = ok none
find_handler_from ast zero (some p) event = err out_of_fuel
find_handler_from ast (suc fuel) (some p) event =
    let above = find_handler_from ast fuel (parent_path p) event in
    elim (node_at ast p) [
      | none ↦ err (broken_parent_chain p)
      | some node ↦ elim (transition_at node event) [
        | some t ↦ ok (some (record { path = handler_path node p; transition = t }))
        | none ↦ above
      ]
    ]

-- A parent is shorter than its child, so the length of the path is fuel enough.
unfoldable pub find_handler : Chart → Str → Str → Result (Option Handler)
find_handler ast p event = find_handler_from ast (suc (length p)) (some p) event

-- Object.keys(node.transitions), each once, behind those that are there.
unfoldable pub add_events : List Str → List Str → List Str
add_events seen [] = seen
add_events seen (e ∷ es) = add_events (if any (str_eq e) seen then seen else seen ++ e ∷ []) es

unfoldable pub allowed_events_from : Chart → ℕ → List Str → Option Str → Result (List Str)
allowed_events_from ast fuel events none = ok events
allowed_events_from ast zero events (some p) = err out_of_fuel
allowed_events_from ast (suc fuel) events (some p) = elim (node_at ast p) [
  | none ↦ err (broken_parent_chain p)
  | some node ↦
      allowed_events_from ast fuel (add_events events (keys (transitions_of node))) (parent_path p)
]

unfoldable pub allowed_events : Chart → Str → Result (List Str)
allowed_events ast p = allowed_events_from ast (suc (length p)) [] (some p)

abbrev pub is_some {ℓ} : {A : Type ℓ} → Option A → Bool
is_some none = false
is_some (some a) = true

-- hasTransition
unfoldable pub has_transition : Chart → Str → Str → Result Bool
has_transition ast p event = do h ← find_handler ast p event; ok (is_some h)
