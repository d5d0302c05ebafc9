-- ===== src/Projection/Branch/Gates.antt =====
-- The records that open gates, carry completions, fail the run or retry write outside the view.
use hyperchart.Prelude.{find, not, ℕ, ◌&&◌, ◌==◌, ◌≡◌}
use hyperchart.Chart.{Chart}
use hyperchart.Dict.{has_key, lookup}
use hyperchart.Entry.{is_some}
use hyperchart.Json.{Json, same_recorded_value}
use hyperchart.Projection.{OpenedGate, Projection}
use hyperchart.Projection.Branch.{apply_failure}
use hyperchart.Projection.Branch.Frame.{SameView, view_of}
use hyperchart.Projection.Gates.{
  apply_consumed, apply_notified, apply_opened, assert_gate_state, notifies, runs_action,
  runs_visit, waits_from,
}
use hyperchart.Projection.Pending.{pending_of}
use hyperchart.Projection.Retry.{RetryRecord, apply_action_retry, retry_pending}
use hyperchart.Result.{
  >>=-eq-ok, completion_claim, completion_endpoint, completion_source, completion_twice,
  guard-eq-ok, no_pending, ok, ok_injective, require, second_failure, wrong_gate,
}
use hyperchart.Text.{Str, str_eq}
use hyperchart.Uid.{ActionUid}

pub apply_opened_view :
    (ast : Chart) (o : OpenedGate) (seq : ℕ) (p q : Projection)
    → apply_opened ast o seq p ≡ ok q
    → SameView p q
unfolding apply_opened
apply_opened_view ast o seq p q h =
    let (found, _, a) =
      >>=-eq-ok (require (find (runs_action o.uid) p.pending) (wrong_gate o.uid.state)) _ h in
    let (_, b) = guard-eq-ok (found.seq_id == o.phase_seq_id) (wrong_gate o.uid.state) _ a in
    let (_, _, c) = >>=-eq-ok (assert_gate_state ast o.gate_type o.uid.state) _ b in
    let (_, d) = guard-eq-ok (not (is_some found.gate_seq_id)) (wrong_gate o.uid.state) _ c in
    view_of (ok_injective d)

pub apply_notified_view :
    (ast : Chart) (endpoint event : Str) (payload : Json) (u : ActionUid) (visited : ℕ)
    (definition declaration : Json) (seq : ℕ) (p q : Projection)
    → apply_notified ast endpoint event payload u visited definition declaration seq p ≡ ok q
    → SameView p q
unfolding apply_notified
apply_notified_view ast endpoint event payload u visited definition declaration seq p q h =
    let (d, _, a) =
      >>=-eq-ok (require (lookup endpoint ast.completions) (completion_endpoint endpoint)) _ h in
    let (_, b) = guard-eq-ok (str_eq d.event event) (completion_endpoint endpoint) _ a in
    let (_, c) =
      guard-eq-ok (not (has_key endpoint p.completions)) (completion_twice endpoint) _ b in
    let (pending, _, e) =
      >>=-eq-ok (require (find (runs_visit u visited) p.pending) (completion_source endpoint)) _
        c in
    let (_, f) =
      guard-eq-ok (notifies pending.definition.kind endpoint event) (completion_source endpoint) _
        e in
    let (_, g) =
      guard-eq-ok
        (same_recorded_value pending.definition.authored definition
          && same_recorded_value d.authored declaration)
        (completion_source endpoint) _ f in
    view_of (ok_injective g)

pub apply_consumed_view :
    (ast : Chart) (endpoint : Str) (u : ActionUid) (visited notification : ℕ) (definition : Json)
    (seq : ℕ) (p q : Projection)
    → apply_consumed ast endpoint u visited notification definition seq p ≡ ok q
    → SameView p q
unfolding apply_consumed
apply_consumed_view ast endpoint u visited notification definition seq p q h =
    let (d, _, a) =
      >>=-eq-ok (require (lookup endpoint ast.completions) (completion_endpoint endpoint)) _ h in
    let (c, _, b) =
      >>=-eq-ok (require (lookup endpoint p.completions) (completion_claim endpoint)) _ a in
    let (_, e) =
      guard-eq-ok (c.notification_seq_id == notification && not (is_some c.consumed))
        (completion_claim endpoint) _ b in
    let (pending, _, f) =
      >>=-eq-ok (require (find (runs_visit u visited) p.pending) (completion_claim endpoint)) _ e in
    let (_, g) =
      guard-eq-ok
        (waits_from pending.definition.kind endpoint
          && same_recorded_value pending.definition.authored definition)
        (completion_claim endpoint) _ f in
    view_of (ok_injective g)

pub apply_failure_view :
    (origin : Str) (error : Json) (seq : ℕ) (p q : Projection)
    → apply_failure origin error seq p ≡ ok q
    → SameView p q
unfolding apply_failure
apply_failure_view origin error seq p q h =
    let (_, a) = guard-eq-ok (not (is_some p.failure)) (second_failure origin) _ h in
    view_of (ok_injective a)

pub apply_action_retry_view :
    (r : RetryRecord) (p q : Projection) → apply_action_retry r p ≡ ok q → SameView p q
unfolding apply_action_retry
apply_action_retry_view r p q h =
    let (found, _, a) =
      >>=-eq-ok (require (pending_of r.uid p.pending) (no_pending r.uid.state)) _ h in
    let (next, _, b) = >>=-eq-ok (retry_pending found r) _ a in view_of (ok_injective b)
