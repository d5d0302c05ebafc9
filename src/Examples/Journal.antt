-- ===== src/Examples/Journal.antt =====
-- A journal of a run of the sample chart: commits, branches and a rewind.
use hyperchart.Prelude.{
  Bool, List, Option, [], any, false, map, none, refl, reverse, some, true, ℕ, ◌∷◌, ◌≡◌, ◌⊎◌,
}
use hyperchart.Actors.{actor_context_for_state, sorted_declarations}
use hyperchart.Chart.{node_at}
use hyperchart.Dict.{has_key, lookup, put}
use hyperchart.Dict.Numbered.{set_at, value_at}
use hyperchart.Entry.{
  enter_container, enter_final, enter_node, enter_state, find_handler, find_handler_from,
  owns_actors,
}
use hyperchart.Examples.{
  agent_action, done_event, first_log, run_of, sample, sample_start, sample_uid,
}
use hyperchart.Paths.{
  child_path, last_segment_key, parent_path, sibling_path, strip_last_key, template_path,
  under_scope,
}
use hyperchart.Projection.{Run, actor_endpoints}
use hyperchart.Projection.Branch.{
  Logged, Record, apply_logged, apply_record, complete, create_branch_projection, invoke,
  project_branch,
}
use hyperchart.Projection.Inputs.{
  apply_inputs_for_entry, input_entry_targets, node_targets, write_inputs,
}
use hyperchart.Projection.Joins.{
  actors_done, complete_parallels, compound_joins, find_completed_compound, find_completed_parallel,
  insert_join, join_candidates, joins_above, leaves_done, next_join, sort_joins, take_join,
}
use hyperchart.Projection.Moves.{
  abandon_pending, apply_transition, assert_active_action_uid, chart_event, close_gates,
  exit_and_enter, is_action_active, move_leaves, settle_joins, sort_pending,
}
use hyperchart.Projection.Pending.{has_pending, pending_of, remove_pending_action, without_pending}
use hyperchart.Projection.Records.{
  accept_completion, apply_action_completion, apply_invoke, record_result, start_visit,
}
use hyperchart.Projection.Refs.{action_state_at}
use hyperchart.Result.{Result, err, flat_map, foreign_boundary, not_empty, ok, require, ◌>>=◌}
use hyperchart.Store.{
  BranchHead, Index, Stored, apply_entries, apply_entry, branch_of, contains_in_branch_history,
  create_branch, empty_index, is_branch_id, materialize_branch_history, materialize_history_to_head,
  move_branch, or_zero, stamp_drafts, stamp_from, walk,
}
use hyperchart.Store.Append.{Appended}
use hyperchart.Store.Branches.{
  Rebased, contains_in_branch_history-any, create_branch-Rebased, move_branch-Rebased,
}
use hyperchart.Store.Commit.{commit-Appended, commit_error, memory_store-IsValid}
use hyperchart.Store.History.{materialize_history_to_head_total, numbered_as}
use hyperchart.Store.Memory.{
  MemoryStore, Prepared, any_head, at_head, commit, memory_store, nothing_prepared, prepare_commit,
  remember, written,
}
use hyperchart.Store.Pages.{bounded_forward_replay_page, replay_page_records}
use hyperchart.Store.Pages.Forward.{bounded_forward_replay_page-history, newer_than, page_of}
use hyperchart.Store.Replay.{commit-project_branch, logged}
use hyperchart.Store.Valid.{IsValid, Recorded}
use hyperchart.Text.{text}
use hyperchart.Uid.{action_uid_key, matches_declared_uid, same_action_uid}

abbrev store_of : Result (MemoryStore Record) → MemoryStore Record
store_of (ok s) = s
store_of (err e) = record {
  selected = [];
  index = empty_index;
  checkpoints = [];
  poisoned_by = false;
}

abbrev new_store : MemoryStore Record
new_store = store_of (memory_store (text "main") 5)

new_store_made : memory_store (text "main") 5 ≡ ok new_store
unfolding memory_store is_branch_id apply_entries apply_entry lookup put
new_store_made = refl

memory_store-IsValid_example :
    IsValid new_store.index
    × (materialize_branch_history new_store.index new_store.selected ≡ ok [])
memory_store-IsValid_example = memory_store-IsValid (text "main") 5 new_store new_store_made

abbrev any_draft : Record → Bool
any_draft r = true

abbrev no_preparation : List (Stored Record) → Result Prepared
no_preparation rs = ok nothing_prepared

abbrev first_drafts : List Record
first_drafts = map (λ (l : Logged). l.record_of) first_log

abbrev stored_as : ℕ → Option ℕ → Record → Stored Record
stored_as n parent d = record {
  seq_id = n;
  parent_id = parent;
  branch_id = text "main";
  timestamp = 6;
  draft = d;
}

abbrev first_stored : List (Stored Record)
first_stored =
    stored_as 2 none (invoke (sample_uid (text "a")) (text "s") (some agent_action) 0)
    ∷ stored_as 3 (some 2) (complete (sample_uid (text "a")) done_event none)
    ∷ []

abbrev second_store : MemoryStore Record
second_store = (commit any_draft (at_head none) first_drafts no_preparation 6 new_store).0

first_commit :
    commit any_draft (at_head none) first_drafts no_preparation 6 new_store
    ≡ (second_store, ok first_stored)
unfolding commit prepare_commit branch_of stamp_drafts stamp_from written memory_store is_branch_id
    apply_entries apply_entry lookup put set_at remember
first_commit = refl

first_result :
    Appended new_store.index second_store.index new_store.selected [] first_stored first_drafts
first_result =
    commit-Appended any_draft (at_head none) first_drafts no_preparation 6 new_store second_store []
      first_stored (memory_store-IsValid (text "main") 5 new_store new_store_made).0
      (memory_store-IsValid (text "main") 5 new_store new_store_made).1 first_commit

commit-Appended_example :
    Appended new_store.index second_store.index new_store.selected [] first_stored first_drafts
commit-Appended_example =
    commit-Appended any_draft (at_head none) first_drafts no_preparation 6 new_store second_store []
      first_stored (memory_store-IsValid (text "main") 5 new_store new_store_made).0
      (memory_store-IsValid (text "main") 5 new_store new_store_made).1 first_commit

-- The projection beside the journal, before the commit and after it.
abbrev first_run : Run
first_run = run_of (project_branch sample 9 (map logged first_stored) sample_start)

advanced_by_first : project_branch sample 9 (map logged first_stored) sample_start ≡ ok first_run
unfolding create_branch_projection project_branch apply_logged apply_record apply_invoke
    is_action_active assert_active_action_uid action_state_at actor_context_for_state
    sorted_declarations matches_declared_uid has_pending apply_action_completion start_visit
    pending_of same_action_uid accept_completion remove_pending_action without_pending record_result
    apply_transition chart_event find_handler find_handler_from apply_inputs_for_entry
    input_entry_targets node_targets write_inputs exit_and_enter move_leaves enter_state enter_node
    enter_final enter_container owns_actors abandon_pending sort_pending close_gates settle_joins
    complete_parallels next_join find_completed_parallel join_candidates joins_above sort_joins
    insert_join leaves_done actors_done find_completed_compound compound_joins take_join parent_path
    child_path sibling_path template_path under_scope strip_last_key last_segment_key node_at
    action_uid_key actor_endpoints lookup put has_key flat_map
advanced_by_first = refl

kept_at_start : project_branch sample 9 (map logged []) sample_start ≡ ok sample_start
unfolding project_branch
kept_at_start = refl

commit-project_branch_example :
    ((materialize_branch_history second_store.index new_store.selected >>= λ whole.
    project_branch sample 9 (map logged whole) sample_start)
      ≡ ok first_run)
    × ((b : BranchHead) × (lookup new_store.selected second_store.index.branches ≡ some b)
        × (first_run.projection.seq_id ≡ or_zero b.head_seq_id))
commit-project_branch_example =
    commit-project_branch sample 9 sample_start sample_start first_run any_draft (at_head none)
      first_drafts no_preparation 6 new_store second_store [] first_stored
      (memory_store-IsValid (text "main") 5 new_store new_store_made).0
      (memory_store-IsValid (text "main") 5 new_store new_store_made).1 refl kept_at_start
      first_commit advanced_by_first

-- A commit whose confirmation throws.
abbrev failing : List (Stored Record) → Result Prepared
failing rs = ok (record { checkpoints = []; committed = err not_empty })

abbrev broken_store : MemoryStore Record
broken_store = (commit any_draft any_head first_drafts failing 6 new_store).0

broken_commit :
    commit any_draft any_head first_drafts failing 6 new_store ≡ (broken_store, err not_empty)
unfolding commit prepare_commit branch_of stamp_drafts stamp_from written memory_store is_branch_id
    apply_entries apply_entry lookup put set_at remember
broken_commit = refl

commit_error_example :
    (broken_store ≡ new_store)
    ⊎ ((rs : List (Stored Record)) × Appended new_store.index broken_store.index new_store.selected
          [] rs first_drafts
        × (broken_store.poisoned_by ≡ true))
commit_error_example =
    commit_error any_draft any_head first_drafts failing 6 new_store broken_store [] not_empty
      (memory_store-IsValid (text "main") 5 new_store new_store_made).0
      (memory_store-IsValid (text "main") 5 new_store new_store_made).1 broken_commit

second_wellformed : IsValid second_store.index
second_wellformed = first_result.valid_after

abbrev index_of : Result (Index Record) → Index Record
index_of (ok ix) = ix
index_of (err e) = empty_index

abbrev forked : Index Record
forked = index_of (create_branch (text "fork") 2 none 7 second_store.index)

fork_made : create_branch (text "fork") 2 none 7 second_store.index ≡ ok forked
unfolding create_branch commit prepare_commit branch_of stamp_drafts stamp_from written memory_store
    is_branch_id apply_entries apply_entry lookup has_key put set_at value_at remember
fork_made = refl

create_branch-Rebased_example : Rebased second_store.index forked (text "fork") (some 2)
create_branch-Rebased_example =
    create_branch-Rebased (text "fork") 2 none 7 second_store.index forked second_wellformed
      fork_made

abbrev rewound : Index Record
rewound = index_of (move_branch (text "main") (some 2) 7 second_store.index)

rewind_made : move_branch (text "main") (some 2) 7 second_store.index ≡ ok rewound
unfolding move_branch commit prepare_commit branch_of stamp_drafts stamp_from written memory_store
    is_branch_id apply_entries apply_entry lookup has_key put set_at value_at remember
rewind_made = refl

move_branch-Rebased_example : Rebased second_store.index rewound (text "main") (some 2)
move_branch-Rebased_example =
    move_branch-Rebased (text "main") (some 2) 7 second_store.index rewound second_wellformed
      rewind_made

contains_in_branch_history-any_example :
    contains_in_branch_history second_store.index new_store.selected 2
    ≡ ok (any (numbered_as 2) first_stored)
contains_in_branch_history-any_example =
    contains_in_branch_history-any second_store.index new_store.selected 2 first_stored
      second_wellformed first_result.at_the_end

third_there : Recorded second_store.index (some 3)
unfolding commit prepare_commit branch_of stamp_drafts stamp_from written memory_store is_branch_id
    apply_entries apply_entry lookup put set_at value_at remember
third_there = (stored_as 3 (some 2) (complete (sample_uid (text "a")) done_event none), refl)

materialize_history_to_head_total_example :
    (hs : List (Stored Record)) × (materialize_history_to_head second_store.index (some 3) ≡ ok hs)
materialize_history_to_head_total_example =
    materialize_history_to_head_total second_store.index (some 3) second_wellformed third_there

history_of_third : materialize_history_to_head second_store.index (some 3) ≡ ok first_stored
unfolding commit prepare_commit branch_of stamp_drafts stamp_from written memory_store is_branch_id
    apply_entries apply_entry lookup put set_at value_at remember materialize_history_to_head walk
history_of_third = refl

bounded_forward_replay_page-history_example :
    bounded_forward_replay_page second_store.index (some 3) (some 2) ≡ (
      require (newer_than (some 2) (reverse first_stored)) (foreign_boundary 2) >>= λ newest_first.
      ok (page_of replay_page_records (reverse newest_first)))
bounded_forward_replay_page-history_example =
    bounded_forward_replay_page-history second_store.index 3 (some 2) first_stored history_of_third
