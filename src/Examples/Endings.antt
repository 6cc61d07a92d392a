-- ===== src/Examples/Endings.antt =====
-- The pipeline of two tasks goes on into a finally task.
use tkn_act.Base.{
  ℕ, ◌≤◌, ◌<◌, String, ◌≡◌, refl, subst, sym, true, false, ◌||◌, not, ◌==◌, eq_of_eq, eq_iff, none,
  List, [], ◌∷◌, ◌++◌, if◌then◌else◌, Map, lookup, insert, is_some, mem, add, arith,
}
use tkn_act.Base.Integers.{pos}
use tkn_act.Base.Order.{sort, insert_sorted, str_le}
use tkn_act.Tekton.{PipelineTask}
use tkn_act.Dag.{with_member, add_node, add_edge}
use tkn_act.Engine.Outcome.{timeout, cancelled, failed, succeeded, text, task_start, task_end}
use tkn_act.Engine.References.{implicit_param_edges, scan_all, matrix_expansions}
use tkn_act.Engine.Aggregate.{maybe_aggregate_matrix}
use tkn_act.Engine.Blocking.{missing_ref, missing_result_refs}
use tkn_act.Engine.Run.{
  stopped, build_graph, add_nodes, main_of, add_edges, add_run_after, add_ref_edges, finish_task,
  record_outcome, worsen, reclassify_budget_kill,
}
use tkn_act.Engine.Schedule.Setup.{plan_of}
use tkn_act.Engine.Schedule.Overall.{verdict}
use tkn_act.Engine.FinallyPhase.{
  Closing, Ending, begin_finally, through, running, Step, let_in, spawn, check, start, finish,
  Reach, here, next, end_run,
}
use tkn_act.Engine.FinallyPhase.Settled.{names, AreApart, Crossing, finally-settled}
use tkn_act.Engine.FinallyPhase.Verdict.{end_run-status}
use tkn_act.Engine.FinallyPhase.Ends.{finally-can_end}
use tkn_act.Examples.References.{json}
use tkn_act.Examples.Pipelines.{
  kube, task, two_tasks, plan, plan-IsConsistent, running as clock_running, two_levels, plan-levels,
  done_well, all_over, all_over-reached,
}

abbrev tidy : PipelineTask kube
tidy = task "tidy" []

abbrev fins : List (PipelineTask kube)
fins = tidy ∷ []

abbrev closing : Closing kube
closing = record {
  tasks = two_tasks.tasks ++ fins;
  expansions = [];
  max_parallel = 1;
  pipeline_budget = pos 0;
  finally_budget = pos 0;
  marshal = λ l. "[]";
}

-- "tidy" runs.
abbrev tidying : Ending kube
tidying = record {
  state = record all_over.state { events = all_over.state.events ++ task_start "tidy" ∷ [] };
  clock = clock_running;
  pending = [];
  cleared = [];
  spawned = [];
  checked = [];
  active = fins;
}

-- "tidy" has succeeded.
abbrev tidied : Ending kube
tidied = record tidying {
  state = record tidying.state {
    outcomes = all_over.state.outcomes ++ ("tidy", done_well) ∷ [];
    events = tidying.state.events ++ task_end "tidy" succeeded (text "") 1 ∷ [];
  };
  active = [];
}

tidying-reached :
    Reach closing (begin_finally clock_running clock_running fins all_over.state) tidying
unfolding begin_finally missing_result_refs missing_ref implicit_param_edges scan_all add sort
    insert_sorted
tidying-reached =
    next
      (next (next (next here (let_in _ tidy [] refl refl refl)) (spawn _ tidy refl (omega arith)))
        (check _ tidy [] [] refl refl))
      (start _ tidy [] [] refl)

last_tidied : Step closing tidying tidied
unfolding finish_task record_outcome worsen reclassify_budget_kill maybe_aggregate_matrix insert
last_tidied = finish tidying tidy [] [] done_well refl

fins-AreApart : AreApart plan.graph.nodes fins
unfolding plan_of matrix_expansions build_graph add_nodes main_of add_edges add_run_after
    add_ref_edges add_node add_edge with_member implicit_param_edges scan_all add
    tkn_act.Base.lookup insert sort insert_sorted str_le
fins-AreApart = record {
  once = λ x. ground arith;
  new = λ x m. subst (λ y. mem y plan.graph.nodes ≡ false) (eq_of_eq "tidy" x (ground arith)) refl;
}

crossing : Crossing plan closing fins all_over clock_running tidied
crossing = record {
  start = clock_running;
  order = two_levels;
  ordered = plan-levels;
  way = all_over-reached;
  over = refl;
  quiet = refl;
  closing = next tidying-reached last_tidied;
}

finally-settled_example :
    ((x : String)
      → mem x plan.graph.nodes ≡ true
      → lookup x tidied.state.outcomes ≡ lookup x all_over.state.outcomes)
    × (through tidied ≡ true
        → (x : String)
        → is_some (lookup x tidied.state.outcomes) ≡ (mem x plan.graph.nodes || mem x (names fins)))
finally-settled_example =
    finally-settled plan plan-IsConsistent closing fins all_over clock_running tidied fins-AreApart
      crossing

end_run-status_example : (end_run json two_tasks tidied).status ≡ (
    if tidied.clock.cancelled
    then cancelled
    else if stopped tidied.clock || stopped all_over.clock
    then timeout
    else verdict tidied.state.outcomes)
end_run-status_example =
    end_run-status plan plan-IsConsistent closing fins all_over clock_running tidied fins-AreApart
      crossing json two_tasks

-- The finally task succeeded, and the run has failed.
failed-still : verdict tidied.state.outcomes ≡ failed
failed-still = refl

finally-can_end_example :
    (running tidying ≤ closing.max_parallel)
    × ((f : Ending kube) × Reach closing tidying f × (through f ≡ true))
finally-can_end_example =
    finally-can_end closing done_well clock_running clock_running fins all_over.state tidying
      (omega arith) tidying-reached
