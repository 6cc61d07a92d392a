-- ===== src/Engine/Schedule/Setup.antt =====
-- engine.go: what `RunPipeline` has at hand when it comes to the loop over the levels.
use tkn_act.Base.{String, arith, List, ℕ}
use tkn_act.Tekton.{Kube, Pipeline}
use tkn_act.Base.{◌++◌, []}
use tkn_act.Engine.Budgets.{PipelineTimeouts, tasks_budget}
use tkn_act.Engine.References.{matrix_expansions}
use tkn_act.Engine.Run.{build_graph, main_of}
use tkn_act.Engine.Run.Wiring.{build_graph-fits}
use tkn_act.Engine.Schedule.{Plan}
use tkn_act.Engine.Schedule.Invariant.{IsConsistent}

unfoldable pub plan_of :
    {k : Kube} → (List String → String) → ℕ → PipelineTimeouts → Pipeline k → Plan k
plan_of marshal max_parallel timeouts pl =
    let expansions = matrix_expansions (pl.tasks ++ pl.finally) [] in
    record {
      graph = build_graph expansions pl.tasks;
      main = main_of pl.tasks [];
      tasks = pl.tasks ++ pl.finally;
      expansions = expansions;
      max_parallel = max_parallel;
      pipeline_budget = timeouts.pipeline;
      tasks_budget = tasks_budget timeouts;
      marshal = marshal;
    }

-- Whatever pipeline is run, the plan's tables fit together.
pub plan_of-IsConsistent :
    {k : Kube} (marshal : List String → String) (max_parallel : ℕ) (timeouts : PipelineTimeouts)
    (pl : Pipeline k)
    → IsConsistent (plan_of marshal max_parallel timeouts pl)
unfolding plan_of
plan_of-IsConsistent marshal max_parallel timeouts pl =
    let (mirrored, keys, named) =
      build_graph-fits (matrix_expansions (pl.tasks ++ pl.finally) []) pl.tasks in
    record { mirrored = mirrored; named = named; planned = λ t m. ground (arith, keys t, m) }
