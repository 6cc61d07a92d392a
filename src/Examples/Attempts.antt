-- ===== src/Examples/Attempts.antt =====
-- An attempt at a task, a task's texts, and the results of a pipeline.
use tkn_act.Base.{
  Pairwise, String, ◌≡◌, refl, false, none, some, List, [], ◌∷◌, Map, lookup, insert, ok, ◌⊎◌, map,
}
use tkn_act.Base.Text.{
  size, strip_prefix, has_prefix, strip_suffix, span, starts, all_codes, split_n, cut_first,
  cut_last, count_code,
}
use tkn_act.Base.Integers.{ℤ}
use tkn_act.Tekton.{Step, TaskSpec, PipelineTask, PipelineResultSpec, ParamValue, string}
use tkn_act.Resolver.Scope.{namespace_of, index_suffix}
use tkn_act.Resolver.Lookup.{
  lookup_param, lookup_tasks, lookup_task_result, dispatch, lookup as look_up, lookup_allow_defer,
  may_defer,
}
use tkn_act.Resolver.{ref_at, replace_from, resolve, scan_refs, substitute, is_array_star_ref}
use tkn_act.Engine.Outcome.{succeeded}
use tkn_act.Engine.Params.{flatten_string_params}
use tkn_act.Engine.When.{evaluate_when}
use tkn_act.Engine.StepActions.{resolve_step_actions}
use tkn_act.Engine.StepTemplate.{apply_step_template}
use tkn_act.Engine.Substitution.{
  bind_text, bind_task_param_value, substitute_env, substitute_container, substitute_step,
  substitute_sidecar, substitute_spec,
}
use tkn_act.Engine.Substitution.Substituted.{SpecResolved, substitute_spec-SpecResolved}
use tkn_act.Engine.PipelineResults.{
  is_sole_array_star_ref, resolve_text, resolve_result, resolve_each, resolve_pipeline_results,
}
use tkn_act.Engine.PipelineResults.Resolved.{
  Outcomes, Speaks, last_delivered, dropped, resolve_pipeline_results-parts,
}
use tkn_act.Engine.TaskInput.{RunInput, Invocation, Reply}
use tkn_act.Engine.TaskScope.{task_scope, pipeline_scope}
use tkn_act.Engine.TaskRun.{
  run_one, prepare, ready_task, provide, pass_when, find_spec, lookup_task_spec,
  default_task_params, bind_task_params, mount_workspaces, provide_volumes, lazy_timeout,
}
use tkn_act.Engine.TaskRun.Invoked.{Called, NotCalled, run_one-cases}
use tkn_act.Examples.Pipelines.{kube, task}
use tkn_act.Examples.References.{json, ctx}
use tkn_act.Examples.Steps.{step}

abbrev text_of : String → ParamValue
text_of s = record { type = string; string_val = s; array_val = []; object_val = [] }

abbrev greets : TaskSpec kube
greets = record {
  params = record { name = "who"; default = some (text_of "you") } ∷ [];
  workspaces = [];
  steps = record step { image = "alpine"; script = "hi $(params.who)"; args = []; env = [] } ∷ [];
  timeout = "";
  step_template = none;
  sidecars = [];
  results = [];
  volumes = [];
}

abbrev greeted : TaskSpec kube
greeted = record greets {
  steps = record step { image = "alpine"; script = "hi you"; args = []; env = [] } ∷ [];
}

greets-resolved : substitute_spec json ctx greets ≡ ok greeted
unfolding substitute_spec substitute_step substitute_sidecar substitute_container substitute_env
    substitute scan_refs resolve ref_at replace_from look_up dispatch namespace_of lookup_param
    lookup size strip_prefix has_prefix strip_suffix span starts lookup_allow_defer may_defer
greets-resolved = refl

substitute_spec-SpecResolved_example : SpecResolved json ctx greets greeted
substitute_spec-SpecResolved_example =
    substitute_spec-SpecResolved json ctx greets greeted greets-resolved

abbrev pub input : RunInput kube
input = record {
  tasks = ("greet", greets) ∷ [];
  step_actions = [];
  params = ("name", text_of "me") ∷ [];
  workspaces = ("src", "/tmp/src") ∷ [];
  pipeline_name = "p";
  run_id = "r1";
  pipeline_run_name = "p-r1";
  registry = none;
  volume_resolver = none;
  provision_results_dir = λ parent name. ok "/tmp/results";
  stable_uid = λ seed. seed;
  parse_duration = λ s. none;
  json = json;
  describe = λ e. "failed";
  describe_skip = λ w value. value;
}

abbrev backend : ℤ → Invocation kube → Reply
backend deadline call = record {
  answer = ok (record { status = succeeded; results = some []; err = "" });
  parent_dead = false;
  past_deadline = false;
}

abbrev bound : PipelineTask kube
bound = record (task "greet" []) {
  task_spec = some greets;
  params = record { name = "who"; value = text_of "$(params.name)" } ∷ [];
  workspaces = record { name = "code"; workspace = "src"; sub_path = "" } ∷ [];
}

-- The script that the backend gets.
greets-run :
    map
      (λ c. map (λ (st : Step kube). st.script) c.1.task.steps)
      (run_one input backend none 0 bound []).1
    ≡ ("hi me" ∷ []) ∷ []
unfolding run_one prepare ready_task provide pass_when find_spec lookup_task_spec
    default_task_params bind_task_params task_scope pipeline_scope mount_workspaces provide_volumes
    lazy_timeout insert evaluate_when flatten_string_params resolve_step_actions apply_step_template
    bind_text bind_task_param_value substitute_spec substitute_step substitute_sidecar
    substitute_container substitute_env substitute is_array_star_ref scan_refs resolve ref_at
    replace_from look_up dispatch namespace_of lookup_param lookup size strip_prefix has_prefix
    strip_suffix span starts lookup_allow_defer may_defer
greets-run = refl

run_one-cases_example :
    Called input none 0 bound [] backend (run_one input backend none 0 bound [])
    ⊎ NotCalled input none 0 bound [] (run_one input backend none 0 bound [])
run_one-cases_example = run_one-cases input none 0 bound [] backend

abbrev results : Map (Map String)
results = ("build", ("out", "a") ∷ []) ∷ []

abbrev declared : List PipelineResultSpec
declared =
    record { name = "good"; value = text_of "$(tasks.build.results.out)" }
    ∷ record { name = "gone"; value = text_of "$(tasks.test.results.out)" }
    ∷ []

-- A result that cannot be resolved is dropped, and its error is reported.
declared-kept : map (λ e. e.0) (resolve_pipeline_results json results declared).0 ≡ "good" ∷ []
unfolding insert resolve_pipeline_results resolve_each resolve_result resolve_text
    is_sole_array_star_ref count_code substitute scan_refs resolve ref_at replace_from look_up
    dispatch namespace_of lookup_tasks lookup_task_result lookup size strip_prefix has_prefix
    strip_suffix span starts split_n cut_first index_suffix cut_last all_codes
declared-kept = refl

resolve_pipeline_results-parts_example :
    (os : Outcomes) × Pairwise (Speaks json results) declared os
    × ((name : String)
        → lookup name (resolve_pipeline_results json results declared).0 ≡ last_delivered name os)
    × ((resolve_pipeline_results json results declared).1 ≡ dropped os)
resolve_pipeline_results-parts_example = resolve_pipeline_results-parts json results declared
