-- ===== src/Examples/Pipelines.antt =====
-- A pipeline of two tasks, the second of which runs after the first, on its way through the loop
-- over the levels.
use tkn_act.Base.{
  ℕ, zero, suc, ◌+◌, ◌≤◌, ◌<◌, String, ◌≡◌, refl, Bool, true, false, Option, none, some, List, [],
  ◌∷◌, Map, lookup, insert, modify, delete, mem, add, concat, occ, is_some, length, or_else, Result,
  ok, err, arith, ◌==◌,
}
use tkn_act.Base.Integers.{pos}
use tkn_act.Base.Order.{str_le, insert_sorted, sort}
use tkn_act.Tekton.{Kube, PipelineTask, Pipeline}
use tkn_act.Dag.{
  with_member, add_node, add_edge, levels, check_targets, check_edges, indegrees, ready, decrement,
  retire, levels_loop, push_unseen, search_loop, descendants,
}
use tkn_act.Engine.Outcome.{TaskOutcome, succeeded, failed, ran, text, task_start, task_end}
use tkn_act.Engine.References.{implicit_param_edges, scan_all, matrix_expansions}
use tkn_act.Engine.Aggregate.{maybe_aggregate_matrix}
use tkn_act.Engine.Run.{
  Clock, stopped, build_graph, add_nodes, main_of, add_edges, add_run_after, add_ref_edges,
  finish_task, record_outcome, worsen, reclassify_budget_kill,
}
use tkn_act.Engine.Blocking.{
  upstream, group_ancestors, upstream_blocks_dispatch, missing_ref, missing_result_refs, judge,
}
use tkn_act.Engine.Schedule.{
  Plan, Run, begin, held_back, Step, enter, let_in, spawn, check, start, finish, Reach, here, next,
}
use tkn_act.Engine.Schedule.{in_flight, idle}
use tkn_act.Engine.Schedule.Safety.{started-unblocked, started-once, settled-all}
use tkn_act.Engine.Schedule.Stopping.{went_ahead, stopped-no_start}
use tkn_act.Engine.Schedule.Progress.{reach-can_end}
use tkn_act.Engine.Schedule.Overall.{verdict, overall-verdict}
use tkn_act.Engine.Run.Records.{started}
use tkn_act.Engine.Run.Wiring.{build_graph-fits}
use tkn_act.Dag.Reach.{Reaches}
use tkn_act.Dag.Build.{IsMirrored}
use tkn_act.Engine.Schedule.Setup.{plan_of, plan_of-IsConsistent}
use tkn_act.Engine.Schedule.Invariant.{IsConsistent, unstarted}

abbrev pub kube : Kube
kube = record { SecurityContext = Unit; EnvFromSource = Unit; EnvVarSource = Unit }

abbrev pub task : String → List String → PipelineTask kube
task n deps = record {
  name = n;
  display_name = "";
  task_ref = none;
  task_spec = none;
  params = [];
  workspaces = [];
  run_after = deps;
  when = [];
  retries = pos 0;
  timeout = "";
  matrix = none;
  matrix_info = none;
}

abbrev pub two_tasks : Pipeline kube
two_tasks = record {
  name = "p";
  params = [];
  workspaces = [];
  tasks = task "build" [] ∷ task "test" ("build" ∷ []) ∷ [];
  finally = [];
  results = [];
  timeouts = none;
}

abbrev pub plan : Plan kube
plan = plan_of (λ l. "[]") 1 (record { pipeline = pos 0; tasks = pos 0; finally = pos 0 }) two_tasks

abbrev pub plan-IsConsistent : IsConsistent plan
plan-IsConsistent =
    plan_of-IsConsistent (λ l. "[]") 1 (record { pipeline = pos 0; tasks = pos 0; finally = pos 0 })
      two_tasks

abbrev pub running : Clock
running = record { cancelled = false; pipeline_over = false; phase_over = false }

abbrev pub two_levels : List (List String)
two_levels = ("build" ∷ []) ∷ ("test" ∷ []) ∷ []

pub plan-levels : levels plan.graph ≡ ok two_levels
unfolding plan_of matrix_expansions build_graph add_nodes main_of add_edges add_run_after
    add_ref_edges add_node add_edge with_member implicit_param_edges scan_all add
    tkn_act.Base.lookup insert sort insert_sorted str_le levels check_edges check_targets indegrees
    levels_loop ready retire decrement delete modify
plan-levels = refl

abbrev pub done_well : TaskOutcome
done_well = record {
  status = succeeded;
  message = text "";
  results = none;
  attempt = 1;
  matrix = none;
  skip = ran;
}

abbrev pub start_of_run : Run
start_of_run = begin running two_levels

-- "build" has succeeded and "test" runs.
abbrev test_running : Run
test_running = record {
  state = record {
    outcomes = ("build", done_well) ∷ [];
    results = [];
    overall = succeeded;
    events = task_start "build" ∷ task_end "build" succeeded (text "") 1 ∷ task_start "test" ∷ [];
  };
  clock = running;
  later = [];
  pending = [];
  cleared = [];
  spawned = [];
  checked = [];
  active = "test" ∷ [];
}

test_running-reached : Reach plan start_of_run test_running
unfolding begin held_back plan_of main_of matrix_expansions build_graph add_nodes add_edges
    add_run_after add_ref_edges add_node add_edge with_member implicit_param_edges scan_all add
    tkn_act.Base.lookup insert sort insert_sorted str_le upstream_blocks_dispatch upstream
    group_ancestors judge descendants search_loop push_unseen missing_result_refs missing_ref
    finish_task record_outcome worsen reclassify_budget_kill
    tkn_act.Engine.Aggregate.maybe_aggregate_matrix
test_running-reached =
    next
      (next
        (next
          (next
            (next
              (next
                (next
                  (next
                    (next
                      (next
                        (next here
                          (enter start_of_run ("build" ∷ []) (("test" ∷ []) ∷ []) refl refl refl))
                        (let_in _ "build" [] (task "build" []) refl refl refl refl))
                      (spawn _ "build" refl (omega arith)))
                    (check _ "build" refl refl))
                  (start _ "build" refl))
                (finish _ "build" (task "build" []) done_well refl refl))
              (enter _ ("test" ∷ []) [] refl refl refl))
            (let_in _ "test" [] (task "test" ("build" ∷ [])) refl refl refl refl))
          (spawn _ "test" refl (omega arith)))
        (check _ "test" refl refl))
      (start _ "test" refl)

abbrev went_wrong : TaskOutcome
went_wrong = record done_well { status = failed }

-- "test" has failed, and the loop is through.
abbrev pub all_over : Run
all_over = record test_running {
  state = record {
    outcomes = ("build", done_well) ∷ ("test", went_wrong) ∷ [];
    results = [];
    overall = failed;
    events =
        task_start "build"
        ∷ task_end "build" succeeded (text "") 1
        ∷ task_start "test"
        ∷ task_end "test" failed (text "") 1
        ∷ [];
  };
  active = [];
}

last_step : Step plan test_running all_over
unfolding plan_of main_of insert tkn_act.Base.lookup finish_task record_outcome worsen
    reclassify_budget_kill maybe_aggregate_matrix
last_step = finish test_running "test" (task "test" ("build" ∷ [])) went_wrong refl refl

pub all_over-reached : Reach plan start_of_run all_over
all_over-reached = next test_running-reached last_step

abbrev cancelled_run : Run
cancelled_run = record test_running { clock = record running { cancelled = true } }

cancelled-reaches : (s : Run) × Reach plan cancelled_run s × (s.active ≡ [])
unfolding plan_of main_of insert tkn_act.Base.lookup
cancelled-reaches = (
  _,
  next here (finish cancelled_run "test" (task "test" ("build" ∷ [])) went_wrong refl refl),
  refl,
)

started-unblocked_example :
    ((a : String)
      → Reaches plan.graph a "test"
      → is_some (lookup a test_running.state.outcomes) ≡ true)
    × (upstream_blocks_dispatch plan.main test_running.state.outcomes plan.graph "test" ≡ none)
started-unblocked_example =
    started-unblocked plan plan-IsConsistent running two_levels plan-levels test_running
      test_running-reached "test" refl

started-once_example :
    (in_flight test_running ≤ plan.max_parallel)
    × ((x : String) → occ x (started test_running.state.events) + unstarted test_running x ≤ 1)
started-once_example =
    started-once plan plan-IsConsistent running two_levels plan-levels test_running
      test_running-reached

settled-all_example : is_some (lookup "test" all_over.state.outcomes) ≡ mem "test" plan.graph.nodes
settled-all_example =
    settled-all plan plan-IsConsistent running two_levels plan-levels all_over all_over-reached refl
      refl "test"

stopped-no_start_example :
    (stopped (cancelled-reaches.0).clock ≡ true)
    × (went_ahead cancelled-reaches.0 "test" ≡ true → went_ahead cancelled_run "test" ≡ true)
stopped-no_start_example =
    stopped-no_start plan cancelled_run cancelled-reaches.0 "test" cancelled-reaches.1 refl

reach-can_end_example :
    (s : Run) × Reach plan test_running s
    × (s.later ≡ [])
    × (idle s ≡ true)
    × ((x : String) → is_some (lookup x s.state.outcomes) ≡ mem x plan.graph.nodes)
unfolding plan_of
reach-can_end_example =
    reach-can_end plan plan-IsConsistent running two_levels test_running plan-levels (omega arith)
      test_running-reached

overall-verdict_example : all_over.state.overall ≡ verdict all_over.state.outcomes
overall-verdict_example =
    overall-verdict plan plan-IsConsistent running two_levels plan-levels all_over all_over-reached

build_graph-fits_example :
    IsMirrored (build_graph [] two_tasks.tasks)
    × ((t : String)
        → (mem t (build_graph [] two_tasks.tasks).nodes ≡ mem t ("build" ∷ "test" ∷ []))
          × (is_some (lookup t (main_of two_tasks.tasks [])) ≡ mem t ("build" ∷ "test" ∷ [])))
    × ((t : String) (pt : PipelineTask kube)
        → lookup t (main_of two_tasks.tasks []) ≡ some pt
        → pt.name ≡ t)
build_graph-fits_example = build_graph-fits [] two_tasks.tasks
