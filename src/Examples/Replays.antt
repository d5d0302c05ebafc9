-- ===== src/Examples/Replays.antt =====
-- Replays, moves and retries on the sample chart.
use hyperchart.Prelude.{List, [], any, keep, length, none, refl, some, true, ◌∷◌, ◌≡◌, ◌≤◌}
use hyperchart.Actors.{actor_context_for_state, sorted_declarations}
use hyperchart.Chart.{node_at}
use hyperchart.Dict.{has_key, lookup, put}
use hyperchart.Entry.{
  add_events, allowed_events, allowed_events_from, enter_container, enter_final, enter_node,
  enter_state, find_handler, find_handler_from, has_transition, owns_actors,
}
use hyperchart.Entry.Handlers.{allowed_events-has_transition}
use hyperchart.Entry.Leaves.{Leaves, enter_state-Leaves}
use hyperchart.Examples.{
  agent_action, first_log, projection_of, run_of, sample, sample_start, sample_uid,
}
use hyperchart.Paths.{
  child_path, last_segment_key, parent_path, sibling_path, strip_last_key, template_path,
  under_scope,
}
use hyperchart.Projection.{
  AgentFailure, OpenedGate, PendingAction, Projection, Run, actor_endpoints,
  empty_recovery_counters, general, nudge_mode, remove_gate, running, user_interaction,
}
use hyperchart.Projection.Branch.{
  Logged, apply_logged, apply_record, create_branch_projection, empty_projection, project_branch,
  timer_fired,
}
use hyperchart.Projection.Branch.Leaves.{RunLeaves}
use hyperchart.Projection.Branch.Replay.{create_branch_projection-Leaves, project_branch-Leaves}
use hyperchart.Projection.Inputs.{
  apply_inputs_for_entry, input_entry_targets, node_targets, write_inputs,
}
use hyperchart.Projection.Joins.{
  actors_done, complete_parallels, compound_joins, find_completed_compound, find_completed_parallel,
  insert_join, join_candidates, joins_above, leaves_done, next_join, sort_joins, take_join,
}
use hyperchart.Projection.Moves.{
  abandon_pending, apply_transition, assert_active_action_uid, chart_event, close_gates,
  exit_and_enter, is_action_active, move_leaves, settle_joins, sort_pending,
}
use hyperchart.Projection.Moves.Abandon.{exit_and_enter_pending, not_active, still_active}
use hyperchart.Projection.Pending.{has_pending, pending_of, remove_pending_action, without_pending}
use hyperchart.Projection.Records.{
  accept_completion, apply_action_completion, apply_invoke, record_result, start_visit,
}
use hyperchart.Projection.Refs.{action_state_at}
use hyperchart.Projection.Retry.{
  RetryRecord, decision_policy, recovery_decision, recovery_policy_for, retried, retry_mode,
  retry_pending, retry_record, retry_with, validate_retry_attempt,
}
use hyperchart.Projection.Retry.Accepts.{recovery_decision-retry_pending}
use hyperchart.Projection.Retry.Bounded.{retries, retries_bounded, retry_budget}
use hyperchart.Result.{flat_map, ok}
use hyperchart.Text.{str_eq, text}
use hyperchart.Uid.{action_uid_key, matches_declared_uid, same_action_uid}

abbrev first_run : Run
first_run = run_of (project_branch sample 9 first_log sample_start)

-- The replay of the first log, carried out.
first_replay : project_branch sample 9 first_log sample_start ≡ ok first_run
unfolding project_branch apply_logged apply_record apply_invoke is_action_active
    assert_active_action_uid action_state_at actor_context_for_state sorted_declarations
    matches_declared_uid has_pending apply_action_completion start_visit pending_of same_action_uid
    accept_completion remove_pending_action without_pending record_result apply_transition
    chart_event find_handler find_handler_from apply_inputs_for_entry input_entry_targets
    node_targets write_inputs exit_and_enter move_leaves enter_state enter_node enter_final
    enter_container owns_actors abandon_pending sort_pending close_gates settle_joins
    complete_parallels next_join find_completed_parallel join_candidates joins_above sort_joins
    insert_join leaves_done actors_done find_completed_compound compound_joins take_join parent_path
    child_path sibling_path template_path under_scope strip_last_key last_segment_key node_at
    action_uid_key actor_endpoints lookup put has_key flat_map
first_replay = refl

project_branch-Leaves_example : RunLeaves sample first_run
unfolding node_at lookup template_path
project_branch-Leaves_example =
    project_branch-Leaves sample 9 first_log sample_start first_run (refl, tt) first_replay

abbrev second_log : List Logged
second_log = record { number = 3; record_of = timer_fired (sample_uid (text "a")) } ∷ []

abbrev started : Projection
started = projection_of (create_branch_projection sample 9)

start_of_sample : create_branch_projection sample 9 ≡ ok started
unfolding create_branch_projection project_branch apply_logged apply_record apply_invoke
    is_action_active assert_active_action_uid action_state_at actor_context_for_state
    sorted_declarations matches_declared_uid has_pending apply_action_completion start_visit
    pending_of same_action_uid accept_completion remove_pending_action without_pending record_result
    apply_transition chart_event find_handler find_handler_from apply_inputs_for_entry
    input_entry_targets node_targets write_inputs exit_and_enter move_leaves enter_state enter_node
    enter_final enter_container owns_actors abandon_pending sort_pending close_gates settle_joins
    complete_parallels next_join find_completed_parallel join_candidates joins_above sort_joins
    insert_join leaves_done actors_done find_completed_compound compound_joins take_join parent_path
    child_path sibling_path template_path under_scope strip_last_key last_segment_key node_at
    action_uid_key actor_endpoints lookup put has_key flat_map
start_of_sample = refl

create_branch_projection-Leaves_example :
    Leaves sample started.active_leaves × (next_join sample started ≡ ok none)
create_branch_projection-Leaves_example =
    create_branch_projection-Leaves sample 9 started start_of_sample

-- Both regions of the parallel rest on finals, so that it is left for its onDone.
abbrev joining : Projection
joining = empty_projection (text "p.x.d" ∷ text "p.y.d" ∷ [])

abbrev after_join : Projection
after_join = projection_of (complete_parallels sample 9 9 joining)

join_of_sample : complete_parallels sample 9 9 joining ≡ ok after_join
unfolding project_branch apply_logged apply_record apply_invoke is_action_active
    assert_active_action_uid action_state_at actor_context_for_state sorted_declarations
    matches_declared_uid has_pending apply_action_completion start_visit pending_of same_action_uid
    accept_completion remove_pending_action without_pending record_result apply_transition
    chart_event find_handler find_handler_from apply_inputs_for_entry input_entry_targets
    node_targets write_inputs exit_and_enter move_leaves enter_state enter_node enter_final
    enter_container owns_actors abandon_pending sort_pending close_gates settle_joins
    complete_parallels next_join find_completed_parallel join_candidates joins_above sort_joins
    insert_join leaves_done actors_done find_completed_compound compound_joins take_join parent_path
    child_path sibling_path template_path under_scope strip_last_key last_segment_key node_at
    action_uid_key actor_endpoints lookup put has_key flat_map
join_of_sample = refl

-- One region is at work, so that the parallel is not done.
abbrev half_done : Projection
half_done = empty_projection (text "p.x.w" ∷ text "p.y.d" ∷ [])

-- The agent's action, pending with an open gate, and the move that abandons it.
abbrev agent_pending : PendingAction
agent_pending = record {
  uid = sample_uid (text "a");
  visit_id = 1;
  seq_id = 1;
  invoke_seq_id = 1;
  session_id = text "s";
  definition = agent_action;
  timestamp = 0;
  gate_seq_id = some 4;
  recovery = empty_recovery_counters;
  last_retry = none;
  phase = running;
}

abbrev a_gate : OpenedGate
a_gate = record {
  gate_type = user_interaction;
  uid = sample_uid (text "a");
  phase_seq_id = 1;
  events = [];
}

abbrev pending_run : Run
pending_run = record sample_start {
  projection = record (sample_start.projection) {
    pending = agent_pending ∷ [];
    gates = (4, a_gate) ∷ [];
  };
}

abbrev moved_run : Run
moved_run = run_of (exit_and_enter sample 9 (text "a") (text "p") pending_run)

move_of_sample : exit_and_enter sample 9 (text "a") (text "p") pending_run ≡ ok moved_run
unfolding project_branch apply_logged apply_record apply_invoke is_action_active
    assert_active_action_uid action_state_at actor_context_for_state sorted_declarations
    matches_declared_uid has_pending apply_action_completion start_visit pending_of same_action_uid
    accept_completion remove_pending_action without_pending record_result apply_transition
    chart_event find_handler find_handler_from apply_inputs_for_entry input_entry_targets
    node_targets write_inputs exit_and_enter move_leaves enter_state enter_node enter_final
    enter_container owns_actors abandon_pending sort_pending close_gates remove_gate settle_joins
    complete_parallels next_join find_completed_parallel join_candidates joins_above sort_joins
    insert_join leaves_done actors_done find_completed_compound compound_joins take_join parent_path
    child_path sibling_path template_path under_scope strip_last_key last_segment_key node_at
    action_uid_key actor_endpoints lookup put has_key flat_map
move_of_sample = refl

exit_and_enter_pending_example :
    (p : Projection) × (move_leaves sample 9 (text "a") (text "p") pending_run.projection ≡ ok p)
    × (moved_run.projection.pending ≡ keep (still_active sample p) (agent_pending ∷ []))
    × (moved_run.abandoned ≡ keep (not_active sample p) (agent_pending ∷ []))
exit_and_enter_pending_example =
    exit_and_enter_pending sample 9 (text "a") (text "p") pending_run moved_run move_of_sample

abbrev a_failure : AgentFailure
a_failure = record { failure_kind = text "k"; message = text "m"; code = none }

abbrev a_nudge : RetryRecord
a_nudge = retry_record agent_pending a_failure general (text "t") 5 nudge_mode

decided_nudge :
    recovery_decision agent_pending a_failure true general (text "t") 5 ≡ retry_with a_nudge
unfolding recovery_decision retry_mode decision_policy
decided_nudge = refl

recovery_decision-retry_pending_example :
    retry_pending agent_pending a_nudge ≡ ok (retried agent_pending a_nudge)
recovery_decision-retry_pending_example =
    recovery_decision-retry_pending agent_pending a_failure true general (text "t") 5 a_nudge tt
      refl decided_nudge

nudge_accepted : retries (a_nudge ∷ []) agent_pending ≡ ok (retried agent_pending a_nudge)
unfolding retry_pending retry_record recovery_policy_for validate_retry_attempt
nudge_accepted = refl

retries_bounded_example :
    length (a_nudge ∷ []) ≤ retry_budget agent_pending.definition.kind agent_pending.recovery
retries_bounded_example =
    retries_bounded (a_nudge ∷ []) agent_pending (retried agent_pending a_nudge) nudge_accepted

entry_of_sample : enter_state sample 9 (text "p") ≡ ok (text "p.x.w" ∷ text "p.y.d" ∷ [])
unfolding project_branch apply_logged apply_record apply_invoke is_action_active
    assert_active_action_uid action_state_at actor_context_for_state sorted_declarations
    matches_declared_uid has_pending apply_action_completion start_visit pending_of same_action_uid
    accept_completion remove_pending_action without_pending record_result apply_transition
    chart_event find_handler find_handler_from apply_inputs_for_entry input_entry_targets
    node_targets write_inputs exit_and_enter move_leaves enter_state enter_node enter_final
    enter_container owns_actors abandon_pending sort_pending close_gates settle_joins
    complete_parallels next_join find_completed_parallel join_candidates joins_above sort_joins
    insert_join leaves_done actors_done find_completed_compound compound_joins take_join parent_path
    child_path sibling_path template_path under_scope strip_last_key last_segment_key node_at
    action_uid_key actor_endpoints lookup put has_key flat_map
entry_of_sample = refl

enter_state-Leaves_example : Leaves sample (text "p.x.w" ∷ text "p.y.d" ∷ [])
enter_state-Leaves_example =
    enter_state-Leaves sample 9 (text "p") (text "p.x.w" ∷ text "p.y.d" ∷ []) entry_of_sample

events_of_sample : allowed_events sample (text "p.x.w") ≡ ok (text "OK" ∷ [])
unfolding allowed_events allowed_events_from add_events node_at lookup template_path parent_path
events_of_sample = refl

handler_of_sample : has_transition sample (text "p.x.w") (text "OK") ≡ ok true
unfolding has_transition find_handler find_handler_from node_at lookup template_path parent_path
handler_of_sample = refl

allowed_events-has_transition_example : any (str_eq (text "OK")) (text "OK" ∷ []) ≡ true
allowed_events-has_transition_example =
    allowed_events-has_transition sample (text "p.x.w") (text "OK") (text "OK" ∷ []) true refl
      events_of_sample handler_of_sample
