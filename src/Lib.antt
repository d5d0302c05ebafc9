-- ===== src/Lib.antt =====
-- Hyperchart: replay of a run, and the arithmetic of paths and identities under it.
--
-- A chart is a frozen tree of states (packages/hyperchart/src/core/types.ts). A run of it is a log of
-- durable records (durable_events.ts), and its state is what replaying the log gives: `projectBranch`
-- of projection.ts, a pure function of chart and log, which the machine (machine.ts) calls on every
-- step and every restart. Paths (paths.ts) name states, their map instances and their actors; action
-- identities (action_uid.ts) and effect ids name the work that a run asks the hosts for.
--
-- Files, under packages/hyperchart/src:
--   Paths, Paths/*        core/paths.ts: templates and their cache, families, scopes, instance keys,
--                         re-scoping, the nearest instance, the order of map keys
--   Uid                   core/action_uid.ts, effect ids of core/machine.ts
--   Json                  JSON values and sameRecordedValue of core/projection.ts
--   Chart                 core/types.ts: the AST as far as replay reads it
--   Actors                core/actors.ts: occurrences, and the actor state that a path names
--   Entry                 enterState, findHandler, hasTransition, allowedEvents of core/projection.ts
--   Projection            BranchProjection and the records of its parts
--   Projection/Pending    the list of pending actions
--   Projection/Refs       resolveRef and what it selects
--   Projection/Inputs     applyInputsForEntry
--   Projection/Joins      completeParallels with its two searches, and Projection/Joins/* that these
--                         miss nothing
--   Projection/Moves      isActionActive, exitAndEnter, applyTransition, applyAfterTransition
--   Projection/Retry      applyActionRetry, and recoveryDecisionRecords of core/machine.ts
--   Projection/Gates      gate, user_interaction and completion records
--   Projection/Records    applyActionCompletion and the state_action records
--   Projection/Endpoints  the records of actors: created, messages, calls, scopes
--   Projection/Branch     spawned records, projectBranch, createBranchProjection
--   Projection/Branch/*   what a record may do to a projection, step by step (Frame, Control,
--                         Records, Every), and the invariants of whole replays that rest on it
--   Machine, Machine/*    core/machine.ts: the concurrency of maps, the invokes and the spawns that
--                         are due, the messaging states, the admission of messages,
--                         answered batches of calls and completions that fail;
--                         and the run outcome of execution/run_outcome.ts
--   Store, Store/*        runtime/generic/log_store.ts and memory_log_store.ts: the journal's index of
--                         records and branches, histories, branch creation and moves, commits
--   Store/Replay          the journal and the projection together, with the stamps of `stampDrafts`
--   Batch                 core/invocation_batch.ts
--   Queue                 utils/async_queue.ts
--   Text, Dict, Result    strings, objects and Maps with string keys, and code that throws
--   Examples              small charts, a journal, and the theorems used on them
--
-- A function of the sources keeps its name in snake case. A projection that is written in place is an
-- argument that is returned; a run (`Run`) is the projection with the two lists that `projectBranch`
-- collects, the abandoned work and the skipped records. An `assert` or a throw is an `err` with a tag
-- in place of the message. Commits of a store are serialized by its chain of writes, so that one is a
-- function of the store; what its caller prepares, and whether the confirmation throws, are arguments.
--
-- Fuel. Walks up the parents run on the length of the path, which is enough since a parent is shorter.
-- Entering a state recurs along the chart (initial, regions, onDone), and takes fuel as an argument;
-- a rank that falls along the chain is enough. The rounds of `completeParallels` take fuel too: the
-- sources loop until no join is left, and nothing here bounds that loop yet. The walk up the parents of
-- a record runs on the number that is next, which is enough in a well-formed journal, since a parent
-- has a smaller number. Running out is the error `out_of_fuel`, which the sources do not have.
--
-- Not modelled: the rest of the machine, with its step function; normalization of authored charts; the files and the
-- database of the log stores; the execution loop, hosts and the user interface. Strings are UTF-16 code units, numbers in
-- JSON stand as their text, and `Number` reads digits only. Objects have own properties only, but for the
-- transitions of a state: there an event may be a name that plain objects inherit (`Entry.inherits`), and what is
-- read has no target, which stands as the word `undefined` in a path. Branches are created and moved on the index
-- alone: whether the file can be written, and the checkpoint that is remembered behind the write, are left out.
mod Prelude
pub mod Text
pub mod Dict
pub mod Paths
pub mod Uid
pub mod Json
pub mod Chart
pub mod Result
pub mod Entry
pub mod Actors
pub mod Projection
pub mod Batch
pub mod Queue
pub mod Store
pub mod Machine
pub mod Examples
