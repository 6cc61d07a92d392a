-- ===== src/Engine/Cluster.antt =====
-- A run that is handed as a whole to a pipeline backend (runViaPipelineBackend in engine.go): what is
-- handed over, what comes back and what is told of it. The backend, and whether the run has been cancelled by the time it answers, are arguments.
-- Where the source goes over a map in no particular order, the order is that of the entries.
pub mod Run
pub mod Expanding
pub mod Reporting
pub mod Bodies
pub mod Images
pub mod Carried
pub mod Submitted
pub mod Told
pub mod Ends
use Prim.Native.String.{◌++◌ as str_append}
use tkn_act.Base.{
  ℕ, String, Bool, true, false, ◌==◌, Option, none, some, List, [], ◌∷◌, ◌++◌, if◌then◌else◌, map,
  Map, Result, ok, err,
}
use tkn_act.Tekton.{Kube, ParamValue, Param, TaskSpec, Pipeline}
use tkn_act.Resolver.Scope.{Context}
use tkn_act.Engine.Outcome.{Status, failed, cancelled, Message, text, Event, TaskOutcome, ran}
use tkn_act.Engine.Params.{flatten_string_params, array_params, object_params, apply_defaults}
use tkn_act.Engine.PipelineResults.{ResultValue}
use tkn_act.Engine.Lazy.{LazyError}
use tkn_act.Engine.TaskInput.{RunInput, WorkspaceMount}
use tkn_act.Engine.Cluster.Expanding.{
  ExpandError, inline_resolver_backed_tasks, expand_bundle_step_actions, unique_images,
}
use tkn_act.Engine.Cluster.Reporting.{
  TaskOutcomeOnCluster, emit_cluster_task_events, dropped_cluster_result_names,
}

-- PipelineRunInvocation
pub record Submission (k : Kube) : Type 0 where
  pub run_id : String
  pub pipeline_run_name : String
  pub pipeline : Pipeline k
  pub tasks : Map (TaskSpec k)
  pub params : List Param
  pub workspaces : Map WorkspaceMount

-- PipelineRunResult
pub record Verdict : Type 0 where
  pub status : Status
  pub tasks : Map TaskOutcomeOnCluster
  pub reason : String
  pub message : String
  pub results : Map ResultValue

pub data ClusterError : Type 0 where
  missing_param : String → ClusterError
  not_inlined : LazyError → ClusterError
  not_prepared : String → ClusterError
  not_expanded : ExpandError → ClusterError
  not_run : String → ClusterError

pub data RunEvent : Type 0 where
  run_start : String → String → RunEvent
  of_task : Event → RunEvent
  result_dropped : String → RunEvent
  run_failed : Status → ClusterError → RunEvent
  run_end : Status → String → Map ResultValue → RunEvent

-- How a pipeline backend answers; `prepare` gives a message where it fails.
pub record PipelineBackend (k : Kube) : Type 0 where
  pub prepare : List String → Option String
  pub run_pipeline : Submission k → Result String Verdict
  pub cancelled_by_then : Bool

-- RunResult, with the error beside it; a status of none is the empty text.
pub record ClusterResult : Type 0 where
  pub status : Option Status
  pub tasks : Map TaskOutcome
  pub reason : String
  pub message : String
  pub results : Map ResultValue
  pub error : Option ClusterError

pub record ClusterRun (k : Kube) : Type 0 where
  pub prepared : Option (List String)
  pub submitted : Option (Submission k)
  pub events : List RunEvent
  pub result : ClusterResult

abbrev pub failing : Option Status → ClusterError → ClusterResult
failing s e = record {
  status = s;
  tasks = [];
  reason = "";
  message = "";
  results = [];
  error = some e;
}

-- the outcome of a task as the backend sums it up
abbrev pub outcome_on_cluster : String × TaskOutcomeOnCluster → String × TaskOutcome
outcome_on_cluster (name, oc) = (
  name,
  record {
    status = oc.status;
    message = text oc.message;
    results = oc.results;
    attempt = 0;
    matrix = none;
    skip = ran;
  },
)

abbrev pub end_message : String → String → String
end_message reason message =
    if reason == ""
    then message
    else if message == ""
    then reason
    else str_append reason (str_append ": " message)
