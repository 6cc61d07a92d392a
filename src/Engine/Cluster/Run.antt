-- ===== src/Engine/Cluster/Run.antt =====
-- runViaPipelineBackend of engine.go.
use tkn_act.Base.{
  String, Option, none, some, List, [], ◌∷◌, ◌++◌, if◌then◌else◌, map, Map, Result, ok, err,
}
use tkn_act.Tekton.{Kube, ParamValue, TaskSpec, Pipeline}
use tkn_act.Resolver.Scope.{Context}
use tkn_act.Engine.Outcome.{Status, failed, cancelled}
use tkn_act.Engine.Params.{flatten_string_params, array_params, object_params, apply_defaults}
use tkn_act.Engine.TaskInput.{RunInput}
use tkn_act.Engine.Cluster.Expanding.{
  inline_resolver_backed_tasks, expand_bundle_step_actions, unique_images,
}
use tkn_act.Engine.Cluster.Reporting.{emit_cluster_task_events, dropped_cluster_result_names}
use tkn_act.Engine.Cluster.{
  Submission, Verdict, ClusterError, RunEvent, PipelineBackend, ClusterRun, failing,
  outcome_on_cluster, end_message, missing_param, not_inlined, not_prepared, not_expanded, not_run,
  run_start, of_task, result_dropped, run_failed, run_end,
}

module _ {k : Kube} (i : RunInput k) (b : PipelineBackend k) where
  -- only texts of the run: there are no results of tasks yet
  abbrev pub run_context : Pipeline k → Map ParamValue → Context
  run_context pl params = record {
    params = flatten_string_params params;
    array_params = array_params params;
    object_params = object_params params;
    results = [];
    context_vars = ("pipelineRun.name", i.pipeline_run_name) ∷ ("pipeline.name", pl.name) ∷ [];
    step_results = none;
    current_step = "";
    bound_workspaces = none;
    tasks_status = "";
    task_statuses = none;
    workspace_paths = [];
  }

  abbrev pub submission : Map ParamValue → Map (TaskSpec k) → Pipeline k → Submission k
  submission params tasks pl = record {
    run_id = i.run_id;
    pipeline_run_name = i.pipeline_run_name;
    pipeline = pl;
    tasks = tasks;
    params = map (λ (p : String × ParamValue). record { name = p.0; value = p.1 }) params;
    workspaces =
        map (λ (m : String × String). (m.0, record { host_path = m.1; sub_path = "" }))
          i.workspaces;
  }

  abbrev pub started : Pipeline k → RunEvent
  started pl = run_start i.run_id pl.name

  abbrev pub cancelled_or : Status → Status
  cancelled_or s = if b.cancelled_by_then then cancelled else s

  -- once the backend has answered
  unfoldable pub conclude :
      List String → Submission k → Pipeline k → Result String Verdict → ClusterRun k
  unfolding emit_cluster_task_events dropped_cluster_result_names
  conclude images sub pl (err message) =
      let status = cancelled_or failed in
      record {
        prepared = some images;
        submitted = some sub;
        events = started pl ∷ run_failed status (not_run message) ∷ [];
        result = failing (some status) (not_run message);
      }
  conclude images sub pl (ok v) =
      let status = cancelled_or v.status in
      record {
        prepared = some images;
        submitted = some sub;
        events =
            started pl
            ∷ (map of_task (emit_cluster_task_events pl v.tasks)
                ++ (map result_dropped (dropped_cluster_result_names pl v.results)
                    ++ run_end status (end_message v.reason v.message) v.results ∷ []));
        result = record {
          status = some status;
          tasks = map outcome_on_cluster v.tasks;
          reason = v.reason;
          message = v.message;
          results = v.results;
          error = none;
        };
      }

  abbrev pub stops : Option (List String) → List RunEvent → ClusterError → ClusterRun k
  stops images before e = record {
    prepared = images;
    submitted = none;
    events = before ++ run_failed failed e ∷ [];
    result = failing (some failed) e;
  }

  -- with the remote references replaced
  unfoldable pub run_inlined : Map ParamValue → Pipeline k → ClusterRun k
  unfolding conclude unique_images expand_bundle_step_actions
  run_inlined params pl =
      let images = unique_images i.json i.step_actions i.tasks pl in
      elim (b.prepare images) [
        | some message ↦ stops (some images) [] (not_prepared message)
        | none ↦ elim (expand_bundle_step_actions i.json i.step_actions i.tasks pl) [
          | err e ↦ stops (some images) (started pl ∷ []) (not_expanded e)
          | ok (tasks, expanded) ↦
              let sub = submission params tasks expanded in
              conclude images sub pl (b.run_pipeline sub)
        ]
      ]

  unfoldable pub run_via_pipeline_backend : Pipeline k → ClusterRun k
  unfolding run_inlined inline_resolver_backed_tasks
  run_via_pipeline_backend pl = elim (apply_defaults pl.params i.params) [
    | err name ↦ record {
      prepared = none;
      submitted = none;
      events = [];
      result = failing none (missing_param name);
    }
    | ok params ↦
        let ctx = run_context pl params in
        elim (inline_resolver_backed_tasks i.json i.parse_duration i.registry ctx pl) [
          | err e ↦ stops none [] (not_inlined e)
          | ok inlined ↦ run_inlined params inlined
        ]
  ]
