-- ===== src/Projection/Inputs.antt =====
-- The inputs that a state is entered with: `applyInputsForEntry` and its parts in projection.ts.
use hyperchart.Prelude.{List, Option, [], none, some, suc, zero, ℕ, ◌∷◌}
use hyperchart.Chart.{
  Chart, Schema, State, Transition, TransitionInput, action_state, compound, event_binding, final,
  map_state, messaging, node_at, parallel, ref_binding, region,
}
use hyperchart.Dict.{Dict, lookup, put, values}
use hyperchart.Json.{Json, field_of, obj, undefined}
use hyperchart.Paths.{child_path, last_segment_key, parent_path, sibling_path}
use hyperchart.Projection.{ChartEvent, Projection}
use hyperchart.Projection.Refs.{resolve_ref, select_path}
use hyperchart.Result.{Result, err, flat_map, no_selection, ok, out_of_fuel, ◌>>=◌}
use hyperchart.Text.{Str, text}

-- The transition that is taken, with its event and the path that its refs resolve at.
pub record EntryEvent : Type 0 where
  pub transition : Transition
  pub event : ChartEvent
  pub scope : Str

-- selectEventValue
unfoldable pub select_event_value : ChartEvent → Option Str → Str → Result Json
select_event_value e path at = elim e.output [
  | none ↦ elim path [ none ↦ ok undefined | some p ↦ err (no_selection at) ]
  | some v ↦ select_path v path at
]

-- schemaHasDefault, and the default
unfoldable pub default_of : Schema → Option Json
default_of s = elim s.schema [ obj fs ↦ field_of (text "default") fs | _ ↦ none ]

unfoldable pub bound_value : Chart → Projection → TransitionInput → EntryEvent → Str → Result Json
bound_value ast p (event_binding path) entry at = select_event_value entry.event path at
bound_value ast p (ref_binding ref) entry at = resolve_ref ast p ref entry.scope

-- The binding of one declared name, if a transition is taken and has one.
abbrev binding_of : Option EntryEvent → Str → Option (EntryEvent × TransitionInput)
binding_of none name = none
binding_of (some entry) name = elim (lookup name entry.transition.inputs) [
  | none ↦ none
  | some b ↦ some (entry, b)
]

unfoldable pub input_value :
    Chart → Projection → Option EntryEvent → Str → Str → Schema → Result (Option Json)
input_value ast p entry at name schema = elim (binding_of entry name) [
  | some (e, b) ↦ (do v ← bound_value ast p b e at; ok (some v))
  | none ↦ ok (default_of schema)
]

abbrev put_value : Str → Option Json → Dict Json → Dict Json
put_value name none values = values
put_value name (some v) values = put name v values

-- The loop over the declared names, in their order.
unfoldable pub input_values :
    Chart → Projection → Option EntryEvent → Str → Dict Schema → Dict Json → Result (Dict Json)
input_values ast p entry at [] values = ok values
input_values ast p entry at ((name, schema) ∷ rest) values = do
  v ← input_value ast p entry at name schema
  input_values ast p entry at rest (put_value name v values)

unfoldable pub resolve_input_values :
    Chart → Projection → Dict Schema → Option EntryEvent → Str → Result (Dict Json)
resolve_input_values ast p declared entry at = input_values ast p entry at declared []

pub record EntryTarget : Type 0 where
  pub path : Str
  pub declared : Dict Schema

abbrev target_if : Str → Option (Dict Schema) → List EntryTarget
target_if p none = []
target_if p (some declared) = record { path = p; declared = declared } ∷ []

abbrev final_targets :
    (Str → Result (List EntryTarget)) → Str → Option State → Result (List EntryTarget)
final_targets go parent (some (compound initial transitions on_done)) =
    go (sibling_path parent on_done)
final_targets go parent _ = ok []

-- One level of `inputEntryTargets`. It follows onDone of every compound, also of one with actors,
-- which `enterState` does not leave yet.
unfoldable pub node_targets :
    (Str → Result (List EntryTarget)) → Chart → Str → State → Result (List EntryTarget)
node_targets go ast p (action_state s) = ok (target_if p s.declared)
node_targets go ast p (map_state m) = elim (last_segment_key p) [
  | none ↦ ok (target_if p m.declared)
  | some key ↦ go (child_path p m.initial)
]
node_targets go ast p (compound initial transitions on_done) = go (child_path p initial)
node_targets go ast p (region initial transitions) = go (child_path p initial)
node_targets go ast p (parallel regions transitions on_done) =
    flat_map (λ (r : Str). go (child_path p r)) regions
node_targets go ast p (final is_failed) = elim (parent_path p) [
  | none ↦ ok []
  | some parent ↦ final_targets go parent (node_at ast parent)
]
node_targets go ast p (messaging m) = ok []

unfoldable pub input_entry_targets : Chart → ℕ → Str → Result (List EntryTarget)
input_entry_targets ast zero p = err out_of_fuel
input_entry_targets ast (suc fuel) p = elim (node_at ast p) [
  | none ↦ ok []
  | some node ↦ node_targets (input_entry_targets ast fuel) ast p node
]

-- The writes of `applyInputsForEntry`, one after the other.
unfoldable pub write_inputs :
    Chart → Option EntryEvent → List EntryTarget → Projection → Result Projection
write_inputs ast entry [] p = ok p
write_inputs ast entry (t ∷ ts) p = do
  values ← resolve_input_values ast p t.declared entry t.path
  write_inputs ast entry ts (record p { inputs = put t.path values p.inputs })

unfoldable pub apply_inputs_for_entry :
    Chart → ℕ → Str → Option EntryEvent → Projection → Result Projection
apply_inputs_for_entry ast fuel path entry p = do
  targets ← input_entry_targets ast fuel path
  write_inputs ast entry targets p
