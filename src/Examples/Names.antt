-- ===== src/Examples/Names.antt =====
-- Paths, effect ids, the queue and the batches of invocations on small inputs.
use hyperchart.Prelude.{
  All, Bool, List, [], arith, inl, inr, ltb, none, refl, some, true, ℕ, ◌++◌, ◌↔◌, ◌∷◌, ◌≡◌,
}
use hyperchart.Actors.{
  actor_generation_path, actor_logical_occurrence_path, actor_pool_worker_occurrence_path,
  parse_actor_pool_worker_occurrence,
}
use hyperchart.Actors.Occurrence.{
  actor_logical_occurrence_path-actor_generation_path,
  parse_actor_pool_worker_occurrence-actor_pool_worker_occurrence_path,
}
use hyperchart.Batch.{Commit, append, batch_invocation_appends, effect}
use hyperchart.Batch.Order.{
  Fits, batch_invocation_appends-Fits, parts, parts-batch_invocation_appends,
}
use hyperchart.Paths.{
  child_path, instance_path_for, last_segment_key, nearest_instance, parent_path, template_path,
  template_segment, under_scope,
}
use hyperchart.Paths.Cache.{
  template_path_cache_limit, template_path_cached_transparent, template_paths_cached,
}
use hyperchart.Paths.Family.{parent_path_inv}
use hyperchart.Paths.Nearest.{nearest_instance_innermost}
use hyperchart.Paths.Rescope.{template_path-instance_path_for}
use hyperchart.Paths.Scope.{Under, under_scope-Under}
use hyperchart.Paths.Tree.{template_path-child_path}
use hyperchart.Queue.{Call, empty_queue, next_value, send_value}
use hyperchart.Queue.Order.{reads, traffic, traffic_order}
use hyperchart.Text.{Str, text}
use hyperchart.Text.Split.{Lacks}
use hyperchart.Uid.{ActionUid, action_effect_id, effect_id_parts}
use hyperchart.Uid.Keys.{
  IsNamed, action_effect_id_injective, effect_id_parts-action_effect_id, effect_parts,
}

template_path-child_path_example :
    template_path (child_path (text "m#k") (text "s"))
    ≡ child_path (template_path (text "m#k")) (template_segment (text "s"))
template_path-child_path_example = template_path-child_path (text "m#k") (text "s") refl

template_path_cached_transparent_example :
    template_paths_cached template_path_cache_limit [] (text "m#k.s" ∷ text "m#k.s" ∷ [])
    ≡ template_path (text "m#k.s") ∷ template_path (text "m#k.s") ∷ []
template_path_cached_transparent_example =
    template_path_cached_transparent (text "m#k.s" ∷ text "m#k.s" ∷ [])

under_scope-Under_example :
    (under_scope (text "m#k.s") (text "m") ≡ true) ↔ Under (text "m#k.s") (text "m")
under_scope-Under_example = under_scope-Under (text "m#k.s") (text "m")

nearest_instance_innermost_example :
    (nearest_instance (text "m" ++ b'#' ∷ text "k") none
      ≡ some (record { container = text "m"; key = text "k" }))
    × (nearest_instance (child_path (text "m") (text "s")) none ≡ nearest_instance (text "m") none)
unfolding last_segment_key
nearest_instance_innermost_example =
    nearest_instance_innermost (text "m") (text "k") (text "s") refl (refl, refl) (refl, refl)

template_path-instance_path_for_example :
    template_path (instance_path_for (text "m.s") (text "m#k.t")) ≡ text "m.s"
unfolding template_path
template_path-instance_path_for_example =
    template_path-instance_path_for (text "m.s") (text "m#k.t") refl

parent_path_inv_example : (id : Str) × (text "m.s" ≡ child_path (text "m") id) × Lacks b'.' id
unfolding parent_path
parent_path_inv_example = parent_path_inv (text "m.s") (text "m") refl

abbrev some_uid : ActionUid
some_uid = record { chart = text "c"; state = text "m#k.s"; action = text "run" }

some_uid-IsNamed : IsNamed some_uid
some_uid-IsNamed = record {
  chart_lacks = refl;
  state_lacks = refl;
  action_lacks = refl;
  chart_given = refl;
  state_given = refl;
  action_given = refl;
}

effect_id_parts-action_effect_id_example :
    effect_id_parts (action_effect_id some_uid 2 17) ≡ some (effect_parts some_uid 2 17)
effect_id_parts-action_effect_id_example =
    effect_id_parts-action_effect_id some_uid 2 17 some_uid-IsNamed

abbrev a_visit : ℕ
a_visit = 2

abbrev a_seq : ℕ
a_seq = 17

action_effect_id_injective_example : (some_uid ≡ some_uid) × (a_visit ≡ a_visit) × (a_seq ≡ a_seq)
action_effect_id_injective_example =
    action_effect_id_injective some_uid some_uid a_visit a_visit a_seq a_seq some_uid-IsNamed
      some_uid-IsNamed refl

abbrev two_invokes : List (Commit ℕ Str)
two_invokes = append (text "a") (1 ∷ []) ∷ append (text "b") (2 ∷ []) ∷ effect (text "e") ∷ []

abbrev is_positive : ℕ → Bool
is_positive n = ltb 0 n

abbrev first_id : List Str → Str
first_id [] = []
first_id (s ∷ ss) = s

parts-batch_invocation_appends_example :
    parts (batch_invocation_appends is_positive first_id two_invokes)
    ≡ inl 1 ∷ inl 2 ∷ inr (text "e") ∷ []
parts-batch_invocation_appends_example =
    parts-batch_invocation_appends is_positive first_id two_invokes

batch_invocation_appends-Fits_example :
    All (Fits 32) (batch_invocation_appends is_positive first_id two_invokes)
batch_invocation_appends-Fits_example =
    batch_invocation_appends-Fits 32 is_positive first_id two_invokes (omega arith)
      (omega arith, (omega arith, (tt, tt)))

abbrev three_calls : List (Call ℕ)
three_calls = next_value ∷ send_value 1 ∷ send_value 2 ∷ []

traffic_order_example :
    (traffic three_calls empty_queue).delivered ++ (traffic three_calls empty_queue).left.buffer
    ≡ (traffic three_calls empty_queue).sent
traffic_order_example = traffic_order three_calls empty_queue (reads refl)

parse_actor_pool_worker_occurrence-actor_pool_worker_occurrence_path_example :
    parse_actor_pool_worker_occurrence (actor_pool_worker_occurrence_path (text "p") 12)
    ≡ some (record { endpoint = text "p"; index = 12 })
parse_actor_pool_worker_occurrence-actor_pool_worker_occurrence_path_example =
    parse_actor_pool_worker_occurrence-actor_pool_worker_occurrence_path (text "p") 12 (omega arith)
      refl

actor_logical_occurrence_path-actor_generation_path_example :
    actor_logical_occurrence_path (actor_generation_path (text "a") 3) 3 ≡ text "a"
actor_logical_occurrence_path-actor_generation_path_example =
    actor_logical_occurrence_path-actor_generation_path (text "a") 3
