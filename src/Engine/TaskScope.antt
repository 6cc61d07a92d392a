-- ===== src/Engine/TaskScope.antt =====
-- What the texts of a pipeline task, and those of its task, are resolved against: substitution.go,
-- workspace_paths.go and the two contexts that runOne of engine.go builds.
use Prim.Native.String.{◌++◌ as str_append}
use tkn_act.Base.{
  ℕ, String, Bool, true, false, Option, none, some, List, [], ◌∷◌, if◌then◌else◌, ◌==◌, Map, insert,
}
use tkn_act.Base.Text.{itoa}
use tkn_act.Tekton.{
  Kube, ParamValue, MatrixInfo, WorkspaceDecl, WorkspaceBinding, TaskSpec, PipelineTask,
}
use tkn_act.Resolver.Scope.{Context}
use tkn_act.Engine.Params.{flatten_string_params, array_params, object_params}
use tkn_act.Engine.TaskInput.{FinallyStatus, RunInput, int_text}

-- What the row of a matrix adds to the texts.
unfoldable pub add_row : Map String → Map String → Map String
add_row [] out = out
add_row ((name, v) ∷ row) out = add_row row (insert name v out)

abbrev pub with_row : Option MatrixInfo → Map String → Map String
with_row none params = params
with_row (some mi) params = add_row mi.params params

unfoldable pub workspace_mount_paths : List WorkspaceDecl → Map String → Map String
workspace_mount_paths [] out = out
workspace_mount_paths (d ∷ decls) out =
    workspace_mount_paths decls (if d.mount_path == "" then out else insert d.name d.mount_path out)

unfoldable pub declare_workspaces : List WorkspaceDecl → Map Bool → Map Bool
declare_workspaces [] out = out
declare_workspaces (w ∷ ws) out = declare_workspaces ws (insert w.name false out)

unfoldable pub bind_workspaces : List WorkspaceBinding → Map Bool → Map Bool
bind_workspaces [] out = out
bind_workspaces (w ∷ ws) out = bind_workspaces ws (insert w.name true out)

module _ {k : Kube} where
  unfoldable pub bound_workspaces : TaskSpec k → PipelineTask k → Map Bool
  unfolding declare_workspaces bind_workspaces
  bound_workspaces spec pt = bind_workspaces pt.workspaces (declare_workspaces spec.workspaces [])

  module _ (i : RunInput k) where
    abbrev pub task_run_name : PipelineTask k → String
    task_run_name pt = str_append i.pipeline_run_name (str_append "-" pt.name)

    unfoldable pub task_context_vars : ℕ → PipelineTask k → Map String
    task_context_vars retry_count pt =
        let run = task_run_name pt in
        let name : String = elim pt.task_ref [
          | none ↦ run
          | some ref ↦ if ref.name == "" then run else ref.name
        ] in
        ("pipelineRun.name", i.pipeline_run_name)
        ∷ ("pipelineRun.namespace", "default")
        ∷ ("pipelineRun.uid", i.stable_uid (str_append "pipelinerun/" i.run_id))
        ∷ ("pipeline.name", i.pipeline_name)
        ∷ ("taskRun.name", run)
        ∷ ("taskRun.namespace", "default")
        ∷ (
          "taskRun.uid",
          i.stable_uid (str_append "taskrun/" (str_append i.run_id (str_append "/" run))),
        )
        ∷ ("task.name", name)
        ∷ ("task.retry-count", itoa retry_count)
        ∷ ("pipelineTask.retries", int_text pt.retries)
        ∷ []

    -- what the pipeline's texts are resolved against
    unfoldable pub pipeline_scope :
        Option FinallyStatus → ℕ → PipelineTask k → Map (Map String) → Context
    unfolding task_context_vars add_row
    pipeline_scope fin retry_count pt results = record {
      params = with_row pt.matrix_info (flatten_string_params i.params);
      array_params = array_params i.params;
      object_params = object_params i.params;
      results = results;
      context_vars = task_context_vars retry_count pt;
      step_results = none;
      current_step = "";
      bound_workspaces = none;
      tasks_status = elim fin [ none ↦ "" | some fs ↦ fs.aggregate ];
      task_statuses = elim fin [ none ↦ none | some fs ↦ some fs.per_task ];
      workspace_paths = [];
    }

    -- what the task's texts are resolved against
    unfoldable pub task_scope : Context → TaskSpec k → PipelineTask k → Map ParamValue → Context
    unfolding bound_workspaces workspace_mount_paths
    task_scope ctx spec pt params = record {
      params = flatten_string_params params;
      array_params = array_params params;
      object_params = object_params params;
      results = ctx.results;
      context_vars = ctx.context_vars;
      step_results = none;
      current_step = "";
      bound_workspaces = some (bound_workspaces spec pt);
      tasks_status = "";
      task_statuses = none;
      workspace_paths = workspace_mount_paths spec.workspaces [];
    }
