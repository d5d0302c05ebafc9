-- ===== src/Examples/Mail.antt =====
-- A chart with an actor, and its messages.
use hyperchart.Prelude.{List, [], drop, false, length, none, refl, some, take, ◌++◌, ◌∷◌, ◌≡◌, ◌≤◌}
use hyperchart.Actors.{
  actor_context_for_state, actor_generation_path, actor_logical_occurrence_path,
  actor_occurrence_path, actor_state_path, insert_longest, sorted_declarations,
}
use hyperchart.Chart.{
  ActorDeclaration, Chart, Messaging, final, messaging, node_at, receive, reply, send, single,
}
use hyperchart.Dict.{has_key, lookup, put}
use hyperchart.Entry.{enter_container, enter_final, enter_node, enter_state, owns_actors}
use hyperchart.Examples.{run_of}
use hyperchart.Json.{null}
use hyperchart.Machine.Mail.{Admitted, admit_actor, admit_endpoint, admits}
use hyperchart.Machine.Mail.Accepts.{Acceptable, EachAdmitted, admit_endpoint-assert_accepted}
use hyperchart.Paths.{
  child_path, last_segment_key, parent_path, sibling_path, strip_last_key, template_path,
  under_scope,
}
use hyperchart.Projection.{
  Endpoint, Projection, Run, Worker, actor_endpoint, actor_endpoints, idle, ordinary,
}
use hyperchart.Projection.Branch.{
  Logged, actor_created, apply_logged, apply_record, empty_projection, message_accepted,
  messages_enqueued, project_branch,
}
use hyperchart.Projection.Branch.Mailbox.{mailbox_at}
use hyperchart.Projection.Branch.Sequence.{latest, project_branch-seq_id}
use hyperchart.Projection.Branch.Traffic.{accepted_from, posted_to, project_branch-mailbox_at}
use hyperchart.Projection.Endpoints.{
  actor_message, actor_producer_node, advance_after_enqueue, producer_transition,
  refresh_pending_batch_status,
}
use hyperchart.Projection.Endpoints.Created.{
  Creation, apply_created, assert_created, assert_owner, latest_of, new_endpoint, new_workers,
  prior_generation, store_endpoint,
}
use hyperchart.Projection.Endpoints.Enqueued.{
  Enqueue, apply_enqueued, assert_enqueued, assert_identity, assert_internal, assert_self_send,
  call_id_for, canonical_from, expected_visit, fresh_ids, message_id_for, post, store_call,
  store_messages,
}
use hyperchart.Projection.Endpoints.Messages.{
  Acceptance, accept_itself, apply_accepted, assert_accepted, head_message, put_message, take_head,
}
use hyperchart.Projection.Inputs.{
  apply_inputs_for_entry, input_entry_targets, node_targets, write_inputs,
}
use hyperchart.Projection.Joins.{
  actors_done, complete_parallels, compound_joins, find_completed_compound, find_completed_parallel,
  insert_join, join_candidates, joins_above, leaves_done, next_join, sort_joins, take_join,
}
use hyperchart.Projection.Moves.{
  abandon_pending, apply_actor_input_for_entry, close_gates, exit_and_enter, move_leaves,
  put_endpoint, settle_joins, sort_pending,
}
use hyperchart.Result.{flat_map, ok}
use hyperchart.Text.{Str, text}
use hyperchart.Text.Decimal.{decimal}
use hyperchart.Uid.{action_uid_key}

-- A state that sends a message to an actor, which answers it.
abbrev mail_send : Messaging
mail_send = record {
  kind = send;
  to = text "q";
  to_self = false;
  event = text "GO";
  target = some (text "t");
  transitions = [];
}

abbrev mail_actor : ActorDeclaration
mail_actor = record {
  kind = single;
  path = text "q";
  owner = none;
  definition = record {
    initial = text "w";
    states =
        (text "w", receive ((text "GO", text "r") ∷ []))
        ∷ (text "r", reply (text "w") (text "GO"))
        ∷ [];
  };
}

abbrev mail_chart : Chart
mail_chart = record {
  id = text "m";
  initial = text "s";
  states = (text "s", messaging mail_send) ∷ (text "t", final false) ∷ [];
  actors = (text "q", mail_actor) ∷ [];
  completions = [];
}

abbrev mail_creation : Creation
mail_creation = record {
  declaration = text "q";
  occurrence = text "q";
  generation = 1;
  owner = none;
  input = null;
  definition = mail_actor;
}

abbrev mail_id : Str
mail_id = text "s:message:1:0"

abbrev mail_post : Enqueue
mail_post = record {
  occurrence = text "q";
  generation = 1;
  source = record {
    producer_state = text "s";
    kind = send;
    definition = mail_send;
    target_declaration = text "q";
    event = text "GO";
  };
  first = record {
    message_id = mail_id;
    event = text "GO";
    input = null;
    producer_state = text "s";
    producer_visit = 1;
    call_id = none;
    batch_index = 0;
  };
  rest = [];
}

abbrev mail_acceptance : Acceptance
mail_acceptance = record {
  occurrence = text "q";
  message_id = mail_id;
  receive_state = text "q.w";
  worker_index = none;
}

abbrev mail_log : List Logged
mail_log =
    record { number = 1; record_of = actor_created mail_creation }
    ∷ record { number = 2; record_of = messages_enqueued mail_post }
    ∷ record { number = 3; record_of = message_accepted mail_acceptance }
    ∷ []

abbrev mail_start : Run
mail_start = record { projection = empty_projection (text "s" ∷ []); abandoned = []; skipped = [] }

abbrev mail_run : Run
mail_run = run_of (project_branch mail_chart 9 mail_log mail_start)

mail_replay : project_branch mail_chart 9 mail_log mail_start ≡ ok mail_run
unfolding project_branch apply_logged apply_record apply_created assert_created assert_owner
    prior_generation latest_of new_endpoint store_endpoint new_workers apply_enqueued
    assert_enqueued assert_self_send assert_internal assert_identity canonical_from message_id_for
    call_id_for expected_visit fresh_ids store_messages store_call post advance_after_enqueue
    actor_producer_node producer_transition apply_accepted assert_accepted head_message
    accept_itself take_head put_message refresh_pending_batch_status actor_message actor_endpoint
    put_endpoint apply_actor_input_for_entry actor_context_for_state insert_longest
    sorted_declarations actor_logical_occurrence_path actor_generation_path actor_occurrence_path
    actor_state_path apply_inputs_for_entry input_entry_targets node_targets write_inputs
    exit_and_enter move_leaves enter_state enter_node enter_final enter_container owns_actors
    abandon_pending sort_pending close_gates settle_joins complete_parallels next_join
    find_completed_parallel join_candidates joins_above sort_joins insert_join leaves_done
    actors_done find_completed_compound compound_joins take_join parent_path child_path sibling_path
    template_path under_scope strip_last_key last_segment_key node_at action_uid_key actor_endpoints
    lookup put has_key flat_map decimal
mail_replay = refl

-- The run before the message is accepted, and its actor.
abbrev mail_waiting : Projection
mail_waiting = (run_of (project_branch mail_chart 9 (take 2 mail_log) mail_start)).projection

abbrev mail_endpoint : Endpoint
mail_endpoint = record {
  occurrence = text "q";
  declaration = text "q";
  logical_occurrence = text "q";
  generation = 1;
  owner = none;
  input = null;
  definition = mail_actor;
  status = idle;
  mailbox = mail_id ∷ [];
  execution = ordinary (text "w") none;
}

abbrev mail_given : Admitted
mail_given = admits (
    record {
      occurrence = text "q";
      message_id = mail_id;
      receive_state = text "q.w";
      worker_index = none;
    }
    ∷ [])

mail_facts :
    (actor_endpoint mail_waiting (text "q") ≡ some mail_endpoint)
    × (admit_endpoint (λ (ws : List Worker). 0) [] mail_chart mail_waiting mail_endpoint
        ≡ ok mail_given)
unfolding project_branch apply_logged apply_record apply_created assert_created assert_owner
    prior_generation latest_of new_endpoint store_endpoint new_workers apply_enqueued
    assert_enqueued assert_self_send assert_internal assert_identity canonical_from message_id_for
    call_id_for expected_visit fresh_ids store_messages store_call post advance_after_enqueue
    actor_producer_node producer_transition apply_accepted assert_accepted head_message
    accept_itself take_head put_message refresh_pending_batch_status actor_message actor_endpoint
    put_endpoint apply_actor_input_for_entry actor_context_for_state insert_longest
    sorted_declarations actor_logical_occurrence_path actor_generation_path actor_occurrence_path
    actor_state_path apply_inputs_for_entry input_entry_targets node_targets write_inputs
    exit_and_enter move_leaves enter_state enter_node enter_final enter_container owns_actors
    abandon_pending sort_pending close_gates settle_joins complete_parallels next_join
    find_completed_parallel join_candidates joins_above sort_joins insert_join leaves_done
    actors_done find_completed_compound compound_joins take_join parent_path child_path sibling_path
    template_path under_scope strip_last_key last_segment_key node_at action_uid_key actor_endpoints
    lookup put has_key flat_map decimal admit_endpoint admit_actor
mail_facts = (refl, refl)

mail_declared : lookup (text "q") mail_chart.actors ≡ some mail_actor
unfolding lookup
mail_declared = refl

admit_endpoint-assert_accepted_example :
    EachAdmitted (Acceptable mail_chart mail_waiting mail_endpoint) mail_given
admit_endpoint-assert_accepted_example =
    admit_endpoint-assert_accepted (λ (ws : List Worker). 0) [] mail_chart mail_waiting
      mail_endpoint mail_actor (text "w") none mail_given refl mail_facts.0 mail_declared
      mail_facts.1

project_branch-mailbox_at_example :
    (mailbox_at (text "q") mail_run.projection
      ≡ drop
          (accepted_from (text "q") mail_log)
          (mailbox_at (text "q") mail_start.projection ++ posted_to (text "q") mail_log))
    × (accepted_from (text "q") mail_log
        ≤ length (mailbox_at (text "q") mail_start.projection ++ posted_to (text "q") mail_log))
project_branch-mailbox_at_example =
    project_branch-mailbox_at mail_chart 9 (text "q") mail_log mail_start mail_run mail_replay

project_branch-seq_id_example : mail_run.projection.seq_id ≡ latest mail_log 0
project_branch-seq_id_example =
    project_branch-seq_id mail_chart 9 mail_log mail_start mail_run mail_replay
