-- ===== src/Examples/Backends.antt =====
-- A run on a pipeline backend, and the pipeline that a run takes.
use tkn_act.Base.{
  String, ◌≡◌, refl, true, false, none, some, List, [], ◌∷◌, lookup, insert, Result, ok, err, ◌⊎◌,
  is_some,
}
use tkn_act.Base.Text.{
  size, strip_prefix, has_prefix, strip_suffix, span, starts, all_codes, contains,
}
use tkn_act.Base.Order.{sort, insert_sorted, str_le}
use tkn_act.Tekton.{Pipeline, string}
use tkn_act.Resolver.Scope.{namespace_of}
use tkn_act.Resolver.Lookup.{
  lookup_param, dispatch, lookup as look_up_ref, lookup_allow_defer, may_defer,
}
use tkn_act.Resolver.{
  ref_at, replace_from, resolve as resolve_ref, scan_refs, substitute, is_array_star_ref,
  expand_array_star, substitute_arg, substitute_args,
}
use tkn_act.Refresolver.{sanitize, key_text, key_fields, new_default_registry, register}
use tkn_act.Refresolver.Cached.{
  resolve, resolve_uncached, dispatch as ask, from_disk, get, path, cache_key, is_refused,
}
use tkn_act.Validator.Steps.{validate_task_spec}
use tkn_act.Engine.Outcome.{succeeded}
use tkn_act.Engine.Params.{apply_defaults}
use tkn_act.Engine.StepActions.{
  default_params, bind_params, inline_env, inline_step_action, resolve_step, resolve_steps,
  resolve_step_actions,
}
use tkn_act.Engine.StepTemplate.{apply_step_template}
use tkn_act.Engine.Lazy.{resolver_params, lookup_task_spec_lazy}
use tkn_act.Engine.TaskInput.{RunInput}
use tkn_act.Engine.Eager.{
  PipelineInput, resolver_start, resolver_failed, run_failed, not_decoded, Decoded, first_remote,
  top_level_params, accept, maybe_resolve_top_level_pipeline_ref, look_up, go_on, choose_pipeline,
  runs,
}
use tkn_act.Engine.Eager.Chosen.{IsLocal}
use tkn_act.Engine.Eager.Taken.{IsFailed, IsFetched, choose_pipeline-cases}
use tkn_act.Engine.Cluster.Expanding.{
  inline_one_pipeline_task, inline_resolver_backed_tasks, expand_tasks, expand_pipeline_task,
  expand_bundle_step_actions, task_images, unique_images, add_all,
}
use tkn_act.Engine.Cluster.Reporting.{
  emit_cluster_task_events, dropped_cluster_result_names, emit_one, outcomes_of,
}
use tkn_act.Engine.Cluster.{
  missing_param, Submission, PipelineBackend, run_start, result_dropped, run_end,
}
use tkn_act.Engine.Cluster.Run.{submission, conclude, run_inlined, run_via_pipeline_backend}
use tkn_act.Engine.Cluster.Submitted.{IsSubmitted, run_via_pipeline_backend-IsSubmitted}
use tkn_act.Engine.Cluster.Ends.{Ended, run_via_pipeline_backend-ends}
use tkn_act.Examples.Pipelines.{kube, task, two_tasks}
use tkn_act.Examples.Checks.{minute, one_step, git}
use tkn_act.Examples.Actions.{greet, calling, called, spec_of}
use tkn_act.Examples.Attempts.{input}
use tkn_act.Examples.Fetches.{sha, online, by_default}

-- A main task with a step that calls for an action, and a finally task that a resolver gives.
abbrev hails : Pipeline kube
hails = record two_tasks {
  tasks = record (task "hail" []) { task_spec = some (spec_of calling) } ∷ [];
  finally = record (task "lint" []) { task_ref = some git } ∷ [];
  results =
      record {
        name = "sum";
        value = record { type = string; string_val = "1"; array_val = []; object_val = [] };
      }
      ∷ [];
}

abbrev configured : RunInput kube
configured = record input {
  tasks = [];
  step_actions = ("greet", greet) ∷ [];
  params = [];
  workspaces = [];
  parse_duration = minute;
  registry = some (λ resolver params. ok (one_step ∷ []));
}

abbrev cluster : PipelineBackend kube
cluster = record {
  prepare = λ images. none;
  run_pipeline = λ sub.
      ok (record { status = succeeded; tasks = []; reason = "Done"; message = "ok"; results = [] });
  cancelled_by_then = false;
}

-- What the cluster gets: neither a resolver nor an action is left.
abbrev handed : Submission kube
handed = submission configured cluster [] [] (record hails {
  tasks = record (task "hail" []) { task_spec = some (spec_of called) } ∷ [];
  finally = record (task "lint" []) { task_spec = some one_step } ∷ [];
})

hails-submitted : (run_via_pipeline_backend configured cluster hails).submitted ≡ some handed
unfolding run_via_pipeline_backend run_inlined conclude apply_defaults inline_resolver_backed_tasks
    inline_one_pipeline_task expand_bundle_step_actions expand_tasks expand_pipeline_task
    unique_images task_images add_all lookup_task_spec_lazy resolver_params validate_task_spec
    resolve_step_actions resolve_steps resolve_step inline_step_action default_params bind_params
    inline_env substitute_args substitute_arg is_array_star_ref expand_array_star substitute
    scan_refs resolve_ref ref_at replace_from lookup_allow_defer look_up_ref may_defer dispatch
    namespace_of lookup_param lookup insert size strip_prefix has_prefix strip_suffix span starts
    all_codes
hails-submitted = refl

run_via_pipeline_backend-IsSubmitted_example :
    (images : List String) × ((run_via_pipeline_backend configured cluster hails).prepared
      ≡ some images)
    × IsSubmitted configured cluster hails images handed
run_via_pipeline_backend-IsSubmitted_example =
    run_via_pipeline_backend-IsSubmitted configured cluster hails handed hails-submitted

hails-reported :
    (run_via_pipeline_backend configured cluster hails).events
    ≡ (run_start "r1" "p" ∷ result_dropped "sum" ∷ run_end succeeded "Done: ok" [] ∷ [])
unfolding run_via_pipeline_backend run_inlined conclude apply_defaults inline_resolver_backed_tasks
    inline_one_pipeline_task expand_bundle_step_actions expand_tasks expand_pipeline_task
    lookup_task_spec_lazy resolver_params validate_task_spec emit_cluster_task_events emit_one
    outcomes_of dropped_cluster_result_names sort insert_sorted resolve_step_actions resolve_steps
    resolve_step inline_step_action default_params bind_params inline_env substitute_args
    substitute_arg is_array_star_ref expand_array_star substitute scan_refs resolve_ref ref_at
    replace_from lookup_allow_defer look_up_ref may_defer dispatch namespace_of lookup_param lookup
    insert size strip_prefix has_prefix strip_suffix span starts all_codes
hails-reported = refl

-- Actions are inlined before the images are listed.
hails-images : unique_images configured.json configured.step_actions [] hails ≡ "alpine" ∷ []
unfolding unique_images task_images add_all tkn_act.Base.add apply_step_template contains
    resolve_step_actions resolve_steps resolve_step inline_step_action default_params bind_params
    inline_env substitute_args substitute_arg is_array_star_ref expand_array_star substitute
    scan_refs resolve_ref ref_at replace_from lookup_allow_defer look_up_ref may_defer dispatch
    namespace_of lookup_param lookup insert size strip_prefix has_prefix strip_suffix span starts
    all_codes
hails-images = refl

run_via_pipeline_backend-ends_example :
    ((name : String) × (apply_defaults hails.params configured.params ≡ err name)
      × ((run_via_pipeline_backend configured cluster hails).events ≡ [])
      × ((run_via_pipeline_backend configured cluster hails).result.status ≡ none)
      × ((run_via_pipeline_backend configured cluster hails).result.error
          ≡ some (missing_param name)))
    ⊎ Ended configured cluster hails (run_via_pipeline_backend configured cluster hails)
run_via_pipeline_backend-ends_example = run_via_pipeline_backend-ends configured cluster hails

abbrev from_git : PipelineInput kube
from_git = record {
  tasks = [];
  step_actions = [];
  pipelines = ("p", two_tasks) ∷ [];
  pipeline_runs = none ∷ some (record { name = ""; resolver = "git"; resolver_params = [] }) ∷ [];
  name = "p";
}

abbrev garbled : String → Result String (Decoded kube)
garbled bytes = err "not YAML"

-- The end of the run has been reported when the pipeline that was loaded starts.
garbled-runs : (choose_pipeline sha online garbled from_git (some by_default)).next ≡ runs two_tasks
unfolding choose_pipeline maybe_resolve_top_level_pipeline_ref go_on look_up first_remote
    top_level_params accept resolve resolve_uncached ask from_disk get path sanitize cache_key
    key_text key_fields is_refused new_default_registry register lookup sort insert_sorted str_le
garbled-runs = refl

garbled-told : (choose_pipeline sha online garbled from_git (some by_default)).events ≡ (
    resolver_start "git"
    ∷ resolver_failed "git" (not_decoded "not YAML")
    ∷ run_failed (not_decoded "not YAML")
    ∷ [])
unfolding choose_pipeline maybe_resolve_top_level_pipeline_ref go_on first_remote top_level_params
    accept resolve resolve_uncached ask from_disk get path sanitize cache_key key_text key_fields
    is_refused new_default_registry register lookup sort insert_sorted str_le
garbled-told = refl

choose_pipeline-cases_example :
    IsLocal from_git (choose_pipeline sha online garbled from_git (some by_default))
    ⊎ (IsFailed sha online garbled from_git
          (some by_default)
          (choose_pipeline sha online garbled from_git (some by_default))
        ⊎ IsFetched sha online garbled from_git
            (some by_default)
            (choose_pipeline sha online garbled from_git (some by_default)))
choose_pipeline-cases_example = choose_pipeline-cases sha online garbled from_git (some by_default)
