-- ===== src/Projection/Branch/Frame.antt =====
-- What a property of projections has to be kept by, for every record to keep it: the moves of the
-- chart, the joins, a spawn, and a move of an actor. All else writes outside what it reads.
use hyperchart.Prelude.{List, Option, ap, none, some, sym, ℕ, ◌≡◌}
use hyperchart.Actors.{ActorContext, actor_state_path}
use hyperchart.Chart.{Chart, Schema, State}
use hyperchart.Dict.{Dict, lookup, put, values}
use hyperchart.Json.{Json}
use hyperchart.Projection.{Endpoint, Projection, Run}
use hyperchart.Projection.Branch.{spawn_map}
use hyperchart.Projection.Inputs.{EntryEvent, apply_inputs_for_entry, resolve_input_values}
use hyperchart.Projection.Joins.{complete_parallels}
use hyperchart.Projection.Moves.{
  ActorExecution, actor_execution, apply_actor_input_for_entry, declared_inputs, exit_and_enter,
  live_actor_declaration, occurrence_of, set_execution_current_state,
}
use hyperchart.Projection.Moves.Leaves.{apply_inputs_for_entry-eq}
use hyperchart.Result.{>>=-eq-ok, Result, ok, ok_injective, ◌>>=◌}
use hyperchart.Text.{Str}

-- The part of a projection that such a property reads.
pub record View : Type 0 where
  pub leaves : List Str
  pub last : ℕ
  pub singles : Dict Endpoint
  pub pools : Dict Endpoint

abbrev pub view : Projection → View
view p = record {
  leaves = p.active_leaves;
  last = p.seq_id;
  singles = p.actors;
  pools = p.actor_pools;
}

abbrev pub SameView : Projection → Projection → Type 0
SameView p q = view p ≡ view q

pub view_of : {p q : Projection} → p ≡ q → SameView p q
view_of e = ap view e

pub record Preserved {κ} (ast : Chart) (fuel : ℕ) (P : Projection → Type κ) : Type κ where
  pub quietly : (p q : Projection) → SameView p q → P p → P q
  pub by_joins : (p q : Projection) → P p → complete_parallels ast fuel fuel p ≡ ok q → P q
  pub by_exit :
      (exit target : Str) (r s : Run)
      → P r.projection
      → exit_and_enter ast fuel exit target r ≡ ok s
      → P s.projection
  pub by_actor :
      (c : ActorContext) (x : ActorExecution) (target : Str) (p q : Projection)
      → actor_execution p c ≡ ok x
      → SameView p q
      → P q
      → P (set_execution_current_state c.endpoint_occurrence x target q)
  pub by_spawn :
      (path : Str) (node : State) (instances : Dict Json) (p q : Projection)
      → P p
      → spawn_map ast fuel path node instances p ≡ ok q
      → P q

pub inputs_view :
    (ast : Chart) (fuel : ℕ) (path : Str) (entry : Option EntryEvent) (p q : Projection)
    → apply_inputs_for_entry ast fuel path entry p ≡ ok q
    → SameView p q
inputs_view ast fuel path entry p q h =
    sym (view_of (apply_inputs_for_entry-eq ast fuel path entry p q h))

pub actor_input_view :
    (ast : Chart) (x : ActorExecution) (target : Str) (entry : Option EntryEvent) (p q : Projection)
    → apply_actor_input_for_entry ast x target entry p ≡ ok q
    → SameView p q
unfolding apply_actor_input_for_entry
actor_input_view ast x target entry p q h =
    let (d, _, more) =
      >>=-eq-ok (live_actor_declaration ast x.endpoint.declaration x.endpoint.occurrence) _ h in
    by_inputs (declared_inputs (lookup target d.definition.states)) more
  where
    at : Str
    at = actor_state_path (occurrence_of x) target

    by_inputs :
        (o : Option (Dict Schema))
        → (elim o as (λ _. Result Projection) [
          | none ↦ ok p
          | some declared ↦ resolve_input_values ast p declared entry at >>= λ values.
              ok (record p { inputs = put at values p.inputs })
        ])
          ≡ ok q
        → SameView p q
    by_inputs none e = view_of (ok_injective e)
    by_inputs (some declared) e =
        let (values, _, whole) = >>=-eq-ok (resolve_input_values ast p declared entry at) _ e in
        view_of (ok_injective whole)
