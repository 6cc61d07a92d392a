-- ===== src/Engine/Run.antt =====
-- engine.go: what `RunPipeline` builds from a pipeline, and how it records outcomes.
pub mod Records
pub mod Wiring
use tkn_act.Base.{
  String, ◌≡◌, Bool, true, false, ◌&&◌, ◌||◌, not, ◌==◌, Option, none, some, List, [], ◌∷◌, ◌++◌,
  if◌then◌else◌, Map, lookup, insert, or_else, is_some,
}
use tkn_act.Base.Integers.{ℤ, positive}
use tkn_act.Dag.{Graph, new, add_node, add_edge}
use tkn_act.Tekton.{Kube, PipelineTask, MatrixInfo}
use tkn_act.Engine.Outcome.{
  Status, succeeded, failed, infrafailed, not_run, skipped, timeout, is_failure, is_timeout,
  is_skipped, SkipKind, skip_when, Phase, Message, run_cancelled, pipeline_timeout_exceeded,
  phase_timeout_exceeded, TaskOutcome, Event, task_start, task_skip, task_end, ran,
}
use tkn_act.Engine.References.{implicit_param_edges, expand_ref_names}
use tkn_act.Engine.Aggregate.{of_parent, maybe_aggregate_matrix}

unfoldable pub add_run_after : String → List String → Graph → Graph
add_run_after name [] g = g
add_run_after name (dep ∷ deps) g = add_run_after name deps (add_edge dep name g)

abbrev pub producers : Map (List String) → List String → List String
producers expansions [] = []
producers expansions (ref ∷ refs) = expand_ref_names ref expansions ++ producers expansions refs

module _ {k : Kube} where
  -- g.AddNode for each main task
  unfoldable pub add_nodes : List (PipelineTask k) → Graph → Graph
  add_nodes [] g = g
  add_nodes (pt ∷ pts) g = add_nodes pts (add_node pt.name g)

  unfoldable pub main_of : List (PipelineTask k) → Map (PipelineTask k) → Map (PipelineTask k)
  main_of [] main = main
  main_of (pt ∷ pts) main = main_of pts (insert pt.name pt main)

  -- expansions of the same matrix
  abbrev pub same_matrix_parent : PipelineTask k → PipelineTask k → Bool
  same_matrix_parent a b = elim b.matrix_info [ none ↦ false | some mi ↦ of_parent mi.parent a ]

  unfoldable pub add_ref_edges : Map (PipelineTask k) → PipelineTask k → List String → Graph → Graph
  add_ref_edges main pt [] g = g
  add_ref_edges main pt (dep ∷ deps) g = add_ref_edges main pt deps (elim (lookup dep main) [
    | none ↦ g
    | some up ↦ if dep == pt.name || same_matrix_parent up pt then g else add_edge dep pt.name g
  ])

  -- the edges into each task: by `runAfter`, then by its references
  unfoldable pub add_edges :
      Map (PipelineTask k) → Map (List String) → List (PipelineTask k) → Graph → Graph
  unfolding add_run_after add_ref_edges
  add_edges main expansions [] g = g
  add_edges main expansions (pt ∷ pts) g = add_edges main expansions pts (
      add_ref_edges main pt (producers expansions (implicit_param_edges pt))
        (add_run_after pt.name pt.run_after g))

  unfoldable pub build_graph : Map (List String) → List (PipelineTask k) → Graph
  unfolding add_nodes add_edges main_of
  build_graph expansions pts = add_edges (main_of pts []) expansions pts (add_nodes pts new)

-- What the loops of `RunPipeline` share under the mutex, and the events emitted.
pub record RunState : Type 0 where
  pub outcomes : Map TaskOutcome
  pub results : Map (Map String)
  pub overall : Status
  pub events : List Event

-- the `switch` on a finished task's status
unfoldable pub worsen : Status → Status → Status
worsen overall failed = if is_timeout overall then overall else failed
worsen overall infrafailed = if is_timeout overall then overall else failed
worsen overall timeout = timeout
worsen overall _ = overall

-- a matrix row carries its row
abbrev pub with_matrix : {k : Kube} → PipelineTask k → TaskOutcome → TaskOutcome
with_matrix pt oc = elim pt.matrix_info [ none ↦ oc | some mi ↦ record oc { matrix = some mi } ]

module _ {k : Kube} (marshal : List String → String) (tasks : List (PipelineTask k)) where
  -- An outcome is recorded, and a complete matrix is folded.
  unfoldable pub record_outcome :
      PipelineTask k → TaskOutcome → Map (Map String) → RunState → RunState
  record_outcome pt oc results s =
      let outcomes = insert pt.name oc s.outcomes in
      record s {
        outcomes = outcomes;
        results = maybe_aggregate_matrix marshal pt tasks outcomes results;
      }

  unfoldable pub mark_not_run : PipelineTask k → Message → SkipKind → RunState → RunState
  unfolding record_outcome
  mark_not_run pt msg kind s =
      let oc : TaskOutcome = record {
        status = not_run;
        message = msg;
        results = none;
        attempt = 0;
        matrix = pt.matrix_info;
        skip = kind;
      } in
      let s' = record_outcome pt oc s.results s in
      record s' { events = s'.events ++ task_skip pt.name msg ∷ [] }

  -- A plain task's task-skip has been emitted by `runOne`, a row's is emitted here; the model
  -- emits both here.
  unfoldable pub finish_task : PipelineTask k → TaskOutcome → RunState → RunState
  unfolding record_outcome worsen
  finish_task pt oc0 s =
      let oc = with_matrix pt oc0 in
      if is_skipped oc.status
      then (let s' = record_outcome pt (record oc { skip = skip_when }) s.results s in
          record s' { events = s'.events ++ task_skip pt.name oc.message ∷ [] })
      else (let results : Map (Map String) = elim oc.results [
        | none ↦ s.results
        | some r ↦ insert pt.name r s.results
      ] in
          let s' = record_outcome pt oc results s in
          record s' {
            overall = worsen s.overall oc.status;
            events = s'.events ++ task_end pt.name oc.status oc.message oc.attempt ∷ [];
          })

-- The contexts of a run: the root was cancelled, the pipeline's budget is spent, the phase's is.
pub record Clock : Type 0 where
  pub cancelled : Bool
  pub pipeline_over : Bool
  pub phase_over : Bool

-- tasksCtx.Err() != nil
abbrev pub stopped : Clock → Bool
stopped c = c.cancelled || c.pipeline_over || c.phase_over

unfoldable pub stop_reason : Clock → ℤ → Phase → ℤ → Message
stop_reason c pipeline phase budget =
    if c.cancelled
    then run_cancelled
    else if positive pipeline && c.pipeline_over
    then pipeline_timeout_exceeded pipeline
    else phase_timeout_exceeded phase budget

-- A task that was in flight when its budget fired timed out, unless the run was cancelled.
unfoldable pub reclassify_budget_kill : Clock → Message → TaskOutcome → TaskOutcome
reclassify_budget_kill c reason oc =
    if not (stopped c) || c.cancelled
    then oc
    else if is_failure oc.status
    then record oc { status = timeout; message = reason }
    else oc
