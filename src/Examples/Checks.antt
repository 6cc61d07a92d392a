-- ===== src/Examples/Checks.antt =====
-- Pipelines that the validator accepts, and mistakes that it finds.
use tkn_act.Base.{
  err, mem, ◌&&◌, ◌↔◌, ℕ, String, ◌≡◌, refl, Bool, true, false, Option, none, some, List, [], ◌∷◌,
  ◌++◌, report, Map, lookup, insert, ok, Result, concat, inl, inr, ◌==◌, if◌then◌else◌,
}
use tkn_act.Base.Text.{strip_prefix, has_prefix, span, starts, size}
use tkn_act.Base.Order.{sort, insert_sorted, str_le}
use tkn_act.Base.Integers.{ℤ, pos, mul_64}
use tkn_act.Dag.{
  add_node, add_edge, with_member, levels, check_edges, check_targets, indegrees, levels_loop,
  ready, retire, decrement, cycle_detected,
}
use tkn_act.Tekton.{TaskSpec, PipelineTask, Pipeline, TaskRef}
use tkn_act.Tekton.Rows.{zeros, advance, odometer, cross_size, cross_loop, cross_of, cross_rows}
use tkn_act.Engine.Matrix.{
  row_params, materialize_rows, row_name, child, children, expand_list, expand_matrix,
}
use tkn_act.Validator.{validate_core, resolver_errors}
use tkn_act.Validator.Errors.{
  no_steps, not_a_dag, unknown_run_after, resolver_not_allowed, cache_miss,
}
use tkn_act.Validator.Names.{
  Bundle, names_of, check_graph, resolve_tasks, check_provided, check_bound, check_workspaces,
  check_finally,
}
use tkn_act.Validator.Timing.{
  check_when, check_retries, check_spec_timeouts, check_task_timeouts, check_pipeline_timeouts,
}
use tkn_act.Validator.Scans.{
  task_refs, var_exprs, has_allowed_prefix, trim_end, param_refs, quoted, task_spec_texts,
  pipeline_task_texts, when_and_matrix_texts,
}
use tkn_act.Validator.References.{
  check_results, check_task_refs, check_finally_refs, check_prefixes, check_pipeline_params,
  check_spec_params,
}
use tkn_act.Validator.Steps.{
  check_step_names, check_on_error, check_volumes, check_sidecars, check_step_refs, check_images,
  validate_task_spec,
}
use tkn_act.Validator.Matrices.{check_action_defaults, check_matrices, cross_from}
use tkn_act.Validator.Graphs.{IsSound, check_graph_iff}
use tkn_act.Validator.Accepted.{IsAccepted, validate_core-IsAccepted}
use tkn_act.Validator.TaskSpecs.{validate_task_spec-accepted}
use tkn_act.Examples.Pipelines.{kube, task}
use tkn_act.Examples.Steps.{step}

-- Every duration is a minute.
abbrev pub minute : String → Option ℤ
minute s = if s == "1m" then some (pos 60000000000) else none

abbrev pub one_step : TaskSpec kube
one_step = record {
  params = [];
  workspaces = [];
  steps = record step { image = "alpine"; args = []; env = [] } ∷ [];
  timeout = "1m";
  step_template = none;
  sidecars = [];
  results = [];
  volumes = [];
}

abbrev inline : String → List String → PipelineTask kube
inline n deps = record (task n deps) { task_spec = some one_step }

abbrev checked : Pipeline kube
checked = record {
  name = "p";
  params = [];
  workspaces = [];
  tasks = inline "build" [] ∷ inline "test" ("build" ∷ []) ∷ [];
  finally = inline "notify" [] ∷ [];
  results = [];
  timeouts = none;
}

abbrev bundle : Bundle kube
bundle = record { tasks = []; pipelines = ("p", checked) ∷ []; step_actions = []; raw_steps = [] }

check_graph_iff_example : (check_graph checked.tasks ≡ []) ↔ IsSound checked.tasks
check_graph_iff_example = check_graph_iff checked.tasks

abbrev cyclic : List (PipelineTask kube)
cyclic = inline "build" ("test" ∷ []) ∷ inline "test" ("build" ∷ "lint" ∷ []) ∷ []

cyclic-refused :
    check_graph cyclic
    ≡ unknown_run_after "test" "lint" ∷ not_a_dag (cycle_detected ("build" ∷ "test" ∷ [])) ∷ []
unfolding check_graph add_node add_edge with_member levels check_edges check_targets indegrees
    levels_loop ready retire decrement tkn_act.Base.lookup insert sort insert_sorted str_le
    tkn_act.Base.add
cyclic-refused = refl

checked-accepted : validate_core minute bundle "p" (some []) ≡ []
unfolding validate_core check_provided check_bound check_workspaces check_graph check_finally
    check_when check_retries check_spec_timeouts check_task_timeouts check_pipeline_timeouts
    check_results check_task_refs check_finally_refs check_prefixes check_pipeline_params
    check_spec_params check_step_names check_on_error check_volumes check_sidecars check_step_refs
    check_images check_action_defaults check_matrices add_node add_edge with_member levels
    check_edges check_targets indegrees levels_loop ready retire decrement tkn_act.Base.lookup
    insert sort insert_sorted str_le task_spec_texts pipeline_task_texts when_and_matrix_texts
    param_refs size tkn_act.Base.add tkn_act.Base.modify tkn_act.Base.delete
checked-accepted = refl

-- A row of the matrix of `build` is expanded to the name that a finally task has: rule 5 compares the
-- names before the expansion.
abbrev clashing : Pipeline kube
clashing = record checked {
  tasks =
      record (inline "build" []) {
        matrix = some (record {
          params = record { name = "os"; value = "linux" ∷ "darwin" ∷ [] } ∷ [];
          includes = [];
        });
      }
      ∷ [];
  finally = inline "build-0" [] ∷ [];
}

clashing-accepted :
    (check_graph clashing.tasks ≡ [])
    × (check_finally (names_of clashing.tasks) [] clashing.finally ≡ [])
    × (check_matrices [] clashing.tasks ≡ [])
unfolding check_graph check_finally check_matrices add_node add_edge with_member levels check_edges
    check_targets indegrees levels_loop ready retire decrement tkn_act.Base.lookup insert sort
    insert_sorted str_le cross_from mul_64 tkn_act.Base.add tkn_act.Base.delete
clashing-accepted = (refl, refl, refl)

clashing-expanded :
    elim (expand_matrix clashing) [
      | ok out ↦ mem "build-0" (names_of out.tasks) && mem "build-0" (names_of out.finally)
      | err _ ↦ false
    ]
    ≡ true
unfolding expand_matrix expand_list materialize_rows cross_rows cross_of cross_loop mul_64
    cross_size odometer advance zeros row_params children child row_name insert
    tkn_act.Base.Text.itoa
clashing-expanded = refl

-- A test after the first of two references, and a shell command.
shell_text : var_exprs "$(params.a) $((1)) $(date +%s)" ≡ "params.a" ∷ "date +%s" ∷ []
unfolding var_exprs strip_prefix span starts
shell_text = refl

shell-refused : has_allowed_prefix "date +%s" ≡ false
unfolding has_allowed_prefix strip_prefix span has_prefix trim_end
shell-refused = refl

padded-allowed : has_allowed_prefix " tasks.build.results.out " ≡ true
unfolding has_allowed_prefix strip_prefix span has_prefix trim_end
padded-allowed = refl

tested_params : has_allowed_prefix "tt.params" ≡ false
unfolding has_allowed_prefix strip_prefix span has_prefix trim_end
tested_params = refl

params_found :
    param_refs "$(params.a.b)$(params[\"x y\"]) $( params['z'][*]) $(param.q)"
    ≡ "a" ∷ "x y" ∷ "z" ∷ []
unfolding param_refs quoted strip_prefix span size
params_found = refl

tasks_found :
    task_refs "$(tasks.1st.results.out) $(tasks.b.results.c[0]) $(tasks.-x.results.y)" ≡ "1st" ∷ []
unfolding task_refs strip_prefix span starts
tasks_found = refl

abbrev pub git : TaskRef
git = record { name = ""; resolver = "git"; resolver_params = [] }

not_allowed_offline :
    resolver_errors "p" []
      (record {
        offline = true;
        registered_resolvers = "hub" ∷ [];
        remote_resolver_enabled = false;
        cache_check = none;
      })
      "build"
      git
    ≡ resolver_not_allowed "build" "git" ∷ cache_miss "build" "git" ∷ []
unfolding resolver_errors
not_allowed_offline = refl

validate_core-IsAccepted_example : IsAccepted minute checked
unfolding tkn_act.Base.lookup
validate_core-IsAccepted_example =
    validate_core-IsAccepted minute bundle "p" (some []) checked refl checked-accepted

validate_task_spec-accepted_example : validate_task_spec minute "build" one_step ≡ []
unfolding tkn_act.Base.lookup resolve_tasks insert
validate_task_spec-accepted_example =
    validate_task_spec-accepted minute bundle "p" (some []) checked "build" one_step refl
      checked-accepted refl

-- A task without a step passes Validate, and only the check after a resolver sees it.
abbrev no_step : TaskSpec kube
no_step = record one_step { steps = [] }

stepless-reported : validate_task_spec minute "build" no_step ≡ no_steps "build" ∷ []
unfolding validate_task_spec
stepless-reported = refl
