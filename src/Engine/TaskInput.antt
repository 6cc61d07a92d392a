-- ===== src/Engine/TaskInput.antt =====
-- What an attempt at a task in engine.go is given, what it asks of the backend, and why it may end
-- before that. The backend, the directories and volumes that a caller provides, the hash behind a uid
-- and the texts of the errors are arguments.
use Prim.Native.String.{◌++◌ as str_append}
use tkn_act.Base.{
  suc, String, Bool, false, not, Option, none, some, List, ◌==◌, Map, Result, ok, err,
}
use tkn_act.Base.Text.{itoa}
use tkn_act.Base.Integers.{ℤ, pos, negsuc}
use tkn_act.Tekton.{Kube, ParamValue, TaskRef, WhenExpression, Volume, StepAction, TaskSpec}
use tkn_act.Resolver.Scope.{Json, LookupError}
use tkn_act.Engine.Outcome.{Status}
use tkn_act.Engine.StepActions.{ActionError}
use tkn_act.Engine.Substitution.{FieldError}
use tkn_act.Engine.Lazy.{LazyError}

-- the string of a Go int
abbrev pub int_text : ℤ → String
int_text (pos n) = itoa n
int_text (negsuc n) = str_append "-" (itoa (suc n))

pub record FinallyStatus : Type 0 where
  pub aggregate : String
  pub per_task : Map String

pub data RunError : Type 0 where
  bad_when : LookupError → RunError
  not_loaded : String → RunError
  no_task : String → RunError
  lazy : LazyError → RunError
  bad_action : ActionError → RunError
  bad_param : String → LookupError → RunError
  bad_field : FieldError → RunError
  not_provisioned : String → RunError
  no_results_dir : String → RunError
  no_volume_resolver : RunError
  bad_volume : String → RunError
  bad_task_timeout : String → RunError
  backend_error : String → RunError

-- why an attempt ends before the backend is called
pub data Stop : Type 0 where
  skips : WhenExpression → String → Stop
  fails infra_fails : RunError → Stop

abbrev pub or_fail : {E A : Type 0} → (E → RunError) → Result E A → Result Stop A
or_fail f (ok a) = ok a
or_fail f (err e) = err (fails (f e))

abbrev pub or_infra_fail : {A : Type 0} → (String → RunError) → Result String A → Result Stop A
or_infra_fail f (ok a) = ok a
or_infra_fail f (err e) = err (infra_fails (f e))

pub record WorkspaceMount : Type 0 where
  pub host_path : String
  pub sub_path : String

pub record Invocation (k : Kube) : Type 0 where
  pub run_id : String
  pub pipeline_run : String
  pub task_name : String
  pub task_run_name : String
  pub task : TaskSpec k
  pub params : Map ParamValue
  pub workspaces : Map WorkspaceMount
  pub context_vars : Map String
  pub results_host : String
  pub volume_hosts : Map String

pub record TaskResult : Type 0 where
  pub status : Status
  pub results : Option (Map String)
  pub err : String

-- what the backend answers, and whether the deadline put around the call has passed
pub record Reply : Type 0 where
  pub answer : Result String TaskResult
  pub parent_dead : Bool
  pub past_deadline : Bool

-- what one run of a pipeline holds, with what the engine is configured with
pub record RunInput (k : Kube) : Type 0 where
  pub tasks : Map (TaskSpec k)
  pub step_actions : Map (StepAction k)
  pub params : Map ParamValue
  pub workspaces : Map String
  pub pipeline_name : String
  pub run_id : String
  pub pipeline_run_name : String
  pub registry : Option (String → Map String → Result String (List (TaskSpec k)))
  pub volume_resolver : Option (String → List Volume → Result String (Map String))
  pub provision_results_dir : String → String → Result String String
  pub stable_uid : String → String
  pub parse_duration : String → Option ℤ
  pub json : Json
  pub describe : RunError → String
  pub describe_skip : WhenExpression → String → String

abbrev pub is_lazy : Option TaskRef → Bool
is_lazy none = false
is_lazy (some ref) = not (ref.resolver == "")
