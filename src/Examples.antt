-- ===== src/Examples.antt =====
-- A small chart and its runs, on which the theorems of the other modules are used.
pub mod Replays
pub mod Names
pub mod Entries
pub mod Mail
pub mod Journal
pub mod Fanout
use hyperchart.Prelude.{List, [], false, none, some, ◌∷◌}
use hyperchart.Chart.{
  Action, ActionKind, Chart, RecoveryPolicy, State, action_state, agent, final, parallel, region,
  script,
}
use hyperchart.Json.{null}
use hyperchart.Projection.{ChartEvent, Projection, Run}
use hyperchart.Projection.Branch.{Logged, complete, empty_projection, invoke}
use hyperchart.Result.{Result, err, ok}
use hyperchart.Text.{Str, text}
use hyperchart.Uid.{ActionUid}

abbrev pub sample_uid : Str → ActionUid
sample_uid state = record { chart = text "c"; state = state; action = text "run" }

abbrev pub one_each : RecoveryPolicy
one_each = record { nudge = 1; restart = 1 }

abbrev pub work_of : Str → ActionKind → Str → State
work_of state kind target = action_state (record {
  action = record { uid = sample_uid state; kind = kind; authored = null };
  declared = none;
  transitions = (text "OK", record { target = target; inputs = [] }) ∷ [];
  after = none;
})

-- An agent, then a parallel with an action in one region and a final in the other, then a final.
abbrev pub sample : Chart
sample = record {
  id = text "c";
  initial = text "a";
  states =
      (text "a", work_of (text "a") (agent one_each none) (text "p"))
      ∷ (text "p", parallel (text "x" ∷ text "y" ∷ []) [] (text "z"))
      ∷ (text "p.x", region (text "w") [])
      ∷ (text "p.x.w", work_of (text "p.x.w") script (text "d"))
      ∷ (text "p.x.d", final false)
      ∷ (text "p.y", region (text "d") [])
      ∷ (text "p.y.d", final false)
      ∷ (text "z", final false)
      ∷ [];
  actors = [];
  completions = [];
}

abbrev pub agent_action : Action
agent_action = record { uid = sample_uid (text "a"); kind = agent one_each none; authored = null }

abbrev pub done_event : ChartEvent
done_event = record { kind = text "OK"; output = none; error = none }

-- The agent starts, and is done.
abbrev pub first_log : List Logged
first_log =
    record {
      number = 1;
      record_of = invoke (sample_uid (text "a")) (text "s") (some agent_action) 0;
    }
    ∷ record { number = 2; record_of = complete (sample_uid (text "a")) done_event none }
    ∷ []

abbrev pub sample_start : Run
sample_start = record {
  projection = empty_projection (text "a" ∷ []);
  abandoned = [];
  skipped = [];
}

abbrev pub run_of : Result Run → Run
run_of (ok r) = r
run_of (err e) = sample_start

abbrev pub projection_of : Result Projection → Projection
projection_of (ok p) = p
projection_of (err e) = empty_projection []
