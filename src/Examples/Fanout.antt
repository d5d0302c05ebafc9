-- ===== src/Examples/Fanout.antt =====
-- A map that runs one instance at a time, and what the machine starts.
use hyperchart.Prelude.{
  All, [], any, false, length, max, none, refl, some, true, ◌∷◌, ◌≡◌, ◌≤◌, ◌⊎◌,
}
use hyperchart.Chart.{Chart, arg, final, map_state, node_at, script}
use hyperchart.Dict.{lookup, put}
use hyperchart.Examples.{agent_action, sample_start, work_of}
use hyperchart.Machine.{
  admission, admit_leaves, concurrency_blocked_action_leaves, is_action_node, keys_at, leaf_invokes,
  limit_of, slots_held,
}
use hyperchart.Machine.Invokes.{Replayed, due_invokes-apply_invoke}
use hyperchart.Machine.Seats.{slot_or_blocked}
use hyperchart.Machine.Slots.{admission_bounded, blocked_behind_full}
use hyperchart.Paths.{
  Instance, nearest_from, nearest_instance, template_of, template_path, template_segment,
}
use hyperchart.Projection.{Projection}
use hyperchart.Projection.Branch.{empty_projection}
use hyperchart.Text.{Str, str_eq, text}

abbrev fan : Chart
fan = record {
  id = text "c";
  initial = text "m";
  states =
      (
        text "m",
        map_state (record {
          declared = none;
          over = arg (text "items");
          concurrency = some 1;
          initial = text "w";
          transitions = [];
          on_done = text "z";
        }),
      )
      ∷ (text "m.w", work_of (text "m.w") script (text "d"))
      ∷ (text "m.d", final false)
      ∷ (text "z", final false)
      ∷ [];
  actors = [];
  completions = [];
}

abbrev two_instances : Projection
two_instances = empty_projection (text "m#a.w" ∷ text "m#b.w" ∷ [])

abbrev instance_at : Str → Instance
instance_at key = record { container = text "m"; key = key }

fan_limited : limit_of (node_at fan (text "m")) ≡ some 1
unfolding node_at lookup template_path template_of
fan_limited = refl

admission_bounded_example :
    length (keys_at (text "m") (admission fan two_instances).slots)
    ≤ max 1 (length (keys_at (text "m") (slots_held two_instances.pending [])))
admission_bounded_example = admission_bounded fan two_instances (text "m") 1 fan_limited

second_waits :
    any (str_eq (text "m#b.w")) (concurrency_blocked_action_leaves fan two_instances) ≡ true
unfolding admission admit_leaves slots_held node_at lookup put template_path template_of
    template_segment nearest_instance nearest_from
second_waits = refl

near_second : nearest_instance (text "m#b.w") none ≡ some (instance_at (text "b"))
unfolding nearest_instance nearest_from
near_second = refl

blocked_behind_full_example : 1 ≤ length (keys_at (text "m") (admission fan two_instances).slots)
blocked_behind_full_example =
    blocked_behind_full fan two_instances (text "m#b.w") (instance_at (text "b")) 1 second_waits
      near_second fan_limited

acts_second : is_action_node (node_at fan (text "m#b.w")) ≡ true
unfolding node_at lookup template_path template_of template_segment
acts_second = refl

slot_or_blocked_example :
    (any (str_eq (text "b")) (keys_at (text "m") (admission fan two_instances).slots) ≡ true)
    ⊎ (any (str_eq (text "m#b.w")) (concurrency_blocked_action_leaves fan two_instances) ≡ true)
slot_or_blocked_example =
    slot_or_blocked fan two_instances (text "m#b.w") (instance_at (text "b")) 1 refl acts_second
      near_second fan_limited

due_invokes-apply_invoke_example :
    All (Replayed fan two_instances (text "s") agent_action 0 1 sample_start) (
      leaf_invokes fan two_instances
        (concurrency_blocked_action_leaves fan two_instances)
        two_instances.active_leaves)
due_invokes-apply_invoke_example =
    due_invokes-apply_invoke fan two_instances (text "s") agent_action 0 1 sample_start
      (tt, (refl, (tt, (tt, tt))))
