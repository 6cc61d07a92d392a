-- ===== src/Engine/TaskRun.antt =====
-- runOne of engine.go, with the parts of substitution.go, workspace_paths.go and policy.go that it
-- reads: one attempt at a pipeline task, up to the call of the backend. The backend, the directories
-- and volumes that a caller provides, the hash behind a uid and the texts of the errors are arguments.
pub mod Bound
pub mod Readied
pub mod Skipped
pub mod Stopped
pub mod Invoked
use Prim.Native.String.{◌++◌ as str_append}
use tkn_act.Base.{
  ℕ, zero, suc, String, Bool, true, false, not, ◌&&◌, Option, none, some, List, [], ◌∷◌, ◌++◌,
  if◌then◌else◌, ◌==◌, or_else, is_some, Map, lookup, insert, Result, ok, err, ◌>>=◌,
}
use tkn_act.Base.Text.{itoa}
use tkn_act.Base.Integers.{ℤ, pos, negsuc, positive}
use tkn_act.Dag.{is_empty}
use tkn_act.Tekton.{
  Kube, ParamValue, ParamSpec, Param, MatrixInfo, TaskRef, WhenExpression, WorkspaceDecl,
  WorkspaceBinding, Volume, StepAction, TaskSpec, PipelineTask,
}
use tkn_act.Resolver.Scope.{Json, Context, LookupError}
use tkn_act.Engine.Outcome.{
  Status, failed, infrafailed, skipped, timeout, Message, text, task_timeout_exceeded, TaskOutcome,
  ran,
}
use tkn_act.Engine.Params.{flatten_string_params, array_params, object_params}
use tkn_act.Engine.When.{evaluate_when}
use tkn_act.Engine.StepActions.{ActionError, resolve_step_actions}
use tkn_act.Engine.StepTemplate.{apply_step_template}
use tkn_act.Engine.Substitution.{FieldError, bind_task_param_value, substitute_spec}
use tkn_act.Engine.Lazy.{LazyError, lookup_task_spec_lazy}
use tkn_act.Engine.TaskInput.{
  RunError, bad_when, not_loaded, no_task, lazy, bad_action, bad_param, bad_field, not_provisioned,
  no_results_dir, no_volume_resolver, bad_volume, bad_task_timeout, backend_error, Stop, skips,
  fails, infra_fails, or_fail, or_infra_fail, WorkspaceMount, Invocation, TaskResult, Reply,
  RunInput, FinallyStatus, is_lazy,
}
use tkn_act.Engine.TaskScope.{
  add_row, with_row, workspace_mount_paths, declare_workspaces, bind_workspaces, bound_workspaces,
  task_run_name, task_context_vars, pipeline_scope, task_scope,
}

-- the workspaces of the task, with what they are mounted from
unfoldable pub mount_workspaces :
    Map String → List WorkspaceBinding → Map WorkspaceMount → Result Stop (Map WorkspaceMount)
mount_workspaces hosts [] out = ok out
mount_workspaces hosts (w ∷ ws) out = elim (lookup w.workspace hosts) [
  | none ↦ err (fails (not_provisioned w.workspace))
  | some host ↦
      mount_workspaces hosts ws
        (insert w.name (record { host_path = host; sub_path = w.sub_path }) out)
]

unfoldable pub default_task_params : List ParamSpec → Map ParamValue → Map ParamValue
default_task_params [] out = out
default_task_params (d ∷ decls) out =
    default_task_params decls (elim d.default [ none ↦ out | some v ↦ insert d.name v out ])

unfoldable pub bind_task_params :
    Json → Context → List Param → Map ParamValue → Result Stop (Map ParamValue)
bind_task_params json ctx [] out = ok out
bind_task_params json ctx (p ∷ ps) out = elim (bind_task_param_value json ctx p.value) [
  | err e ↦ err (fails (bad_param p.name e))
  | ok v ↦ bind_task_params json ctx ps (insert p.name v out)
]

module _ {k : Kube} where
  unfoldable pub lookup_task_spec : Map (TaskSpec k) → PipelineTask k → Result RunError (TaskSpec k)
  lookup_task_spec tasks pt = elim pt.task_spec [
    | some spec ↦ ok spec
    | none ↦ elim pt.task_ref [
      | none ↦ err (no_task pt.name)
      | some ref ↦ elim (lookup ref.name tasks) [
        | none ↦ err (not_loaded ref.name)
        | some spec ↦ ok spec
      ]
    ]
  ]

  module _ (i : RunInput k) where
    unfoldable pub find_spec : Context → PipelineTask k → Result Stop (TaskSpec k)
    unfolding lookup_task_spec
    find_spec ctx pt = elim pt.task_ref [
      | none ↦ or_fail (λ e. e) (lookup_task_spec i.tasks pt)
      | some ref ↦
          if ref.resolver == ""
          then or_fail (λ e. e) (lookup_task_spec i.tasks pt)
          else or_fail lazy
              (lookup_task_spec_lazy i.json ctx i.parse_duration i.registry pt.name ref)
    ]

    unfoldable pub pass_when : Context → PipelineTask k → Result Stop Unit
    pass_when ctx pt = elim (evaluate_when i.json ctx pt.when) [
      | err e ↦ err (fails (bad_when e))
      | ok none ↦ ok tt
      | ok (some (w, input)) ↦ err (skips w input)
    ]

    unfoldable pub provide_volumes : PipelineTask k → List Volume → Result Stop (Map String)
    provide_volumes pt [] = ok []
    provide_volumes pt (v ∷ vs) = elim i.volume_resolver [
      | none ↦ err (infra_fails no_volume_resolver)
      | some provide ↦ or_infra_fail bad_volume (provide pt.name (v ∷ vs))
    ]

    -- The timeout that is put around the backend call only; 0 for none.
    unfoldable pub lazy_timeout : PipelineTask k → TaskSpec k → Result Stop ℤ
    lazy_timeout pt resolved =
        if is_lazy pt.task_ref && pt.timeout == "" && not (resolved.timeout == "")
        then elim (i.parse_duration resolved.timeout) [
          | none ↦ err (fails (bad_task_timeout resolved.timeout))
          | some d ↦ ok (if positive d then d else pos 0)
        ]
        else ok (pos 0)

    -- `runOne` down to the substitution: the task's params, and the task with its texts resolved
    unfoldable pub ready_task : Context → PipelineTask k → Result Stop (Map ParamValue × TaskSpec k)
    unfolding find_spec pass_when bind_task_params default_task_params
    ready_task ctx pt = do
      passed ← pass_when ctx pt
      found ← find_spec ctx pt
      inlined ← or_fail bad_action (resolve_step_actions i.json i.step_actions found)
      let spec = apply_step_template inlined
      params ← bind_task_params i.json ctx pt.params (default_task_params spec.params [])
      resolved ← or_fail bad_field (substitute_spec i.json (task_scope i ctx spec pt params) spec)
      ok (params, resolved)

    -- the rest of `runOne`, up to the call
    unfoldable pub provide :
        Map String → PipelineTask k → Map ParamValue → TaskSpec k → Result Stop (ℤ × Invocation k)
    unfolding provide_volumes lazy_timeout mount_workspaces
    provide vars pt params resolved = do
      mounts ← mount_workspaces i.workspaces pt.workspaces []
      dir ←
          or_fail no_results_dir
            (i.provision_results_dir (or_else (lookup "__results" i.workspaces) "") pt.name)
      volumes ← provide_volumes pt resolved.volumes
      deadline ← lazy_timeout pt resolved
      ok (
        deadline,
        record {
          run_id = i.run_id;
          pipeline_run = i.pipeline_run_name;
          task_name = pt.name;
          task_run_name = task_run_name i pt;
          task = resolved;
          params = params;
          workspaces = mounts;
          context_vars = vars;
          results_host = dir;
          volume_hosts = volumes;
        },
      )

    unfoldable pub prepare :
        Option FinallyStatus
        → ℕ
        → PipelineTask k
        → Map (Map String)
        → Result Stop (ℤ × Invocation k)
    unfolding ready_task provide
    prepare fin retry_count pt results = do
      let ctx = pipeline_scope i fin retry_count pt results
      r ← ready_task ctx pt
      provide ctx.context_vars pt r.0 r.1

    abbrev pub outcome_of : Status → Message → Option (Map String) → TaskOutcome
    outcome_of status message results = record {
      status = status;
      message = message;
      results = results;
      attempt = 0;
      matrix = none;
      skip = ran;
    }

    -- the outcome of an attempt that makes no call
    unfoldable pub stop_outcome : Stop → TaskOutcome
    stop_outcome (skips w input) = outcome_of skipped (text (i.describe_skip w input)) none
    stop_outcome (fails e) = outcome_of failed (text (i.describe e)) none
    stop_outcome (infra_fails e) = outcome_of infrafailed (text (i.describe e)) none

    unfoldable pub reply_outcome : ℤ → Reply → TaskOutcome
    reply_outcome deadline r =
        if positive deadline && not r.parent_dead && r.past_deadline
        then outcome_of timeout (task_timeout_exceeded deadline) none
        else elim r.answer [
          | err message ↦ outcome_of failed (text message) none
          | ok res ↦ outcome_of res.status (text res.err) res.results
        ]

    -- The outcome, and the calls of the backend with the deadline around each.
    unfoldable pub run_one :
        (ℤ → Invocation k → Reply)
        → Option FinallyStatus
        → ℕ
        → PipelineTask k
        → Map (Map String)
        → TaskOutcome × List (ℤ × Invocation k)
    unfolding prepare stop_outcome reply_outcome
    run_one backend fin retry_count pt results = elim (prepare fin retry_count pt results) [
      | err stop ↦ (stop_outcome stop, [])
      | ok (deadline, call) ↦
          (reply_outcome deadline (backend deadline call), (deadline, call) ∷ [])
    ]
