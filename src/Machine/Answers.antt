-- ===== src/Machine/Answers.antt =====
-- Batches of calls that are answered, and waits and notifications that fail: core/machine.ts,
-- `dueActorBatchResolutions` and `dueCompletionLifecycleFailures`.
use hyperchart.Prelude.{
  Bool, List, Option, [], all, false, if◌then◌else◌, none, some, ◌&&◌, ◌++◌, ◌∷◌,
}
use hyperchart.Chart.{ActionKind, notify, wait_for}
use hyperchart.Dict.{lookup, values}
use hyperchart.Entry.{is_some}
use hyperchart.Json.{str}
use hyperchart.Machine.Due.{RecordAppend}
use hyperchart.Projection.{
  CallKind, Completion, Message, PendingAction, PendingCall, Projection, actor_endpoint, batch,
  singleton,
}
use hyperchart.Projection.Branch.{batch_call_resolved, failure_intent}
use hyperchart.Projection.Endpoints.{actor_message, is_settled}
use hyperchart.Projection.Gates.{runs}
use hyperchart.Text.{Str, text}
use hyperchart.Uid.{action_effect_id}

-- pendingEffectId
abbrev pub pending_effect_id : PendingAction → Str
pending_effect_id a = action_effect_id a.uid a.visit_id a.seq_id

abbrev pub lifecycle_failure : Str → PendingAction → Str → RecordAppend
lifecycle_failure what a error = record {
  id = text "completion:" ++ what ++ b':' ∷ pending_effect_id a;
  records = failure_intent a.uid.state (str error) ∷ [];
}

abbrev pub is_consumed : Option Completion → Bool
is_consumed none = false
is_consumed (some c) = is_some c.consumed

abbrev pub notified_twice : Str → Str
notified_twice to = text "Completion '" ++ to ++ text "' was notified more than once"

abbrev pub consumed_before : Str → Str
consumed_before from =
    text "Completion '" ++ from ++ text "' cannot be consumed by another wait visit"

-- What is wrong with one pending action: it notifies again, or waits for what was consumed.
abbrev pub failure_of : Projection → PendingAction → ActionKind → List RecordAppend
failure_of p a (notify to event) =
    if is_some (lookup to p.completions)
    then lifecycle_failure (text "duplicate") a (notified_twice to) ∷ []
    else []
failure_of p a (wait_for from event) =
    if is_consumed (lookup from p.completions)
    then lifecycle_failure (text "stale-wait") a (consumed_before from) ∷ []
    else []
failure_of p a _ = []

abbrev pub or_failures : List RecordAppend → List RecordAppend → List RecordAppend
or_failures [] later = later
or_failures (f ∷ fs) later = f ∷ []

-- The first failure among the pending actions, by itself.
unfoldable pub failures_from : Projection → List PendingAction → List RecordAppend
failures_from p [] = []
failures_from p (a ∷ more) =
    or_failures (if runs a.phase then failure_of p a a.definition.kind else [])
      (failures_from p more)

unfoldable pub due_completion_lifecycle_failures : Projection → List RecordAppend
due_completion_lifecycle_failures p = failures_from p p.pending

abbrev pub has_settled : Option Message → Bool
has_settled none = false
has_settled (some m) = is_settled m.status

abbrev pub resolution_of : PendingCall → List Str → RecordAppend
resolution_of c ids = record {
  id = text "actor:batch-resolve:" ++ c.call_id;
  records =
      batch_call_resolved
        (record { call_id = c.call_id; caller_state = c.caller_state; message_ids = ids })
      ∷ [];
}

abbrev pub batch_resolution : Projection → PendingCall → CallKind → List RecordAppend
batch_resolution p c (singleton id) = []
batch_resolution p c (batch ids) =
    if is_some (actor_endpoint p c.occurrence)
      && all (λ (id : Str). has_settled (actor_message p (some id))) ids
    then resolution_of c ids ∷ []
    else []

abbrev pub batch_resolutions : Projection → List PendingCall → List RecordAppend
batch_resolutions p [] = []
batch_resolutions p (c ∷ cs) = batch_resolution p c c.kind ++ batch_resolutions p cs

-- dueActorBatchResolutions: the batches whose messages have all settled.
unfoldable pub due_actor_batch_resolutions : Projection → List RecordAppend
due_actor_batch_resolutions p = batch_resolutions p (values p.calls)
