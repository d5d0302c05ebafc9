-- ===== src/Projection/Endpoints/Ends.antt =====
-- The end of an actor: `assertActorScope` and the `actor_scope` records.
use hyperchart.Prelude.{Bool, List, [], any, false, if◌then◌else◌, map, not, true, ℕ, ◌&&◌, ◌∷◌}
use hyperchart.Chart.{Chart}
use hyperchart.Entry.{is_some}
use hyperchart.Projection.{
  Endpoint, Execution, ExecutionStatus, Projection, Worker, actor_endpoint, closing, draining,
  ordinary, stopped, workers,
}
use hyperchart.Projection.Endpoints.{is_free}
use hyperchart.Projection.Joins.{complete_parallels}
use hyperchart.Projection.Moves.{put_endpoint}
use hyperchart.Result.{
  Result, actor_missing, actor_status, guard, not_drained, ok, require, ◌>>=◌, ◌>>◌,
}
use hyperchart.Text.{Str}

abbrev pub is_stopped_status : ExecutionStatus → Bool
is_stopped_status stopped = true
is_stopped_status _ = false

abbrev pub works : Execution → Bool
works (ordinary state message) = is_some message
works (workers ws) = any (λ (w : Worker). not (is_free w)) ws

abbrev pub is_drained : Endpoint → Bool
is_drained e = not (works e.execution) && is_empty e.mailbox
  where
    is_empty : List Str → Bool
    is_empty [] = true
    is_empty (m ∷ ms) = false

abbrev pub drain_worker : Worker → Worker
drain_worker w = record w { status = draining }

abbrev pub stop_worker : Worker → Worker
stop_worker w = record w { status = stopped }

abbrev pub each_worker : (Worker → Worker) → Execution → Execution
each_worker f (ordinary state message) = ordinary state message
each_worker f (workers ws) = workers (map f ws)

-- A closing scope drains what its actor still has.
unfoldable pub closing_endpoint : Endpoint → Endpoint
closing_endpoint e = record e {
  execution = each_worker drain_worker e.execution;
  status = if is_drained e then closing else draining;
}

unfoldable pub stopped_endpoint : Endpoint → Endpoint
stopped_endpoint e = record e { execution = each_worker stop_worker e.execution; status = stopped }

unfoldable pub apply_closing : Str → Projection → Result Projection
apply_closing occurrence p = do
  e ← require (actor_endpoint p occurrence) (actor_missing occurrence)
  guard (not (is_stopped_status e.status)) (actor_status occurrence)
  ok (put_endpoint occurrence (closing_endpoint e) p)

unfoldable pub apply_stopped : Chart → ℕ → Str → Projection → Result Projection
apply_stopped ast fuel occurrence p = do
  e ← require (actor_endpoint p occurrence) (actor_missing occurrence)
  guard (is_drained e) (not_drained occurrence)
  complete_parallels ast fuel fuel (put_endpoint occurrence (stopped_endpoint e) p)
