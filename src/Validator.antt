-- ===== src/Validator.antt =====
-- internal/validator: every error of a pipeline against the loaded objects, as a list in the order of
-- the source. `time.ParseDuration` is an argument, which gives none where Go's gives an error, and so
-- is `opts.CacheCheck`.
pub mod Errors
pub mod Names
pub mod Clean
pub mod Graphs
pub mod Expands
pub mod Accepted
mod Apart
pub mod TaskSpecs
pub mod Timing
pub mod Scans
pub mod References
pub mod Steps
pub mod Matrices
use tkn_act.Base.{
  String, Bool, true, false, not, ◌&&◌, Option, none, some, List, [], ◌∷◌, ◌++◌, if◌then◌else◌,
  ◌==◌, mem, map, each, concat, report, Map, lookup, insert,
}
use tkn_act.Base.Integers.{ℤ}
use tkn_act.Dag.{is_empty}
use tkn_act.Tekton.{Kube, ParamSpec, Param, TaskRef, TaskSpec, PipelineTask, Pipeline}
use tkn_act.Engine.References.{value_texts}
use tkn_act.Validator.Errors.{
  Invalid, pipeline_not_found, resolver_not_allowed, cache_miss, resolver_param_unknown_task,
}
use tkn_act.Validator.Names.{
  Bundle, Resolved, resolve_tasks, names_of, all_tasks, check_provided, check_bound,
  check_workspaces, check_graph, check_finally,
}
use tkn_act.Validator.Timing.{
  check_when, check_retries, check_spec_timeouts, check_task_timeouts, check_pipeline_timeouts,
}
use tkn_act.Validator.Scans.{task_refs}
use tkn_act.Validator.References.{
  check_results, check_task_refs, check_finally_refs, check_prefixes, check_pipeline_params,
  check_spec_params, refused,
}
use tkn_act.Validator.Steps.{
  check_step_names, check_on_error, check_volumes, check_sidecars, check_step_refs, check_images,
}
use tkn_act.Validator.Matrices.{is_text, check_action_defaults, check_matrices}

-- `Options`; the callback `CacheCheck` is none where no cache is wired.
pub record UnresolvedRef : Type 0 where
  pub pipeline : String
  pub pipeline_task : String
  pub kind : String
  pub resolver : String
  pub params : Map String

pub record Options : Type 0 where
  pub offline : Bool
  pub registered_resolvers : List String
  pub remote_resolver_enabled : Bool
  pub cache_check : Option (UnresolvedRef → Bool)

-- params[p.Name] = p.Value.StringVal, for texts
unfoldable pub literal_params : List Param → Map String → Map String
literal_params [] m = m
literal_params (p ∷ ps) m =
    literal_params ps (if is_text p.value.type then insert p.name p.value.string_val m else m)

abbrev pub resolved_of : {k : Kube} → Bundle k → Pipeline k → Resolved k
resolved_of b pl = resolve_tasks b (all_tasks pl) (record { specs = []; inlined = []; errors = [] })

module _ {k : Kube} (parse_duration : String → Option ℤ) where
  -- The rules in their order, on a pipeline that is there and with its tasks resolved.
  unfoldable pub rule_parts :
      Bundle k → String → Option (List String) → Pipeline k → Resolved k → List (List Invalid)
  rule_parts b name provided pl r =
      let pts = all_tasks pl in
      let known = names_of pts in
      let params = map (λ (p : ParamSpec). p.name) pl.params in
      r.errors
      ∷ (check_provided name provided pl)
      ∷ (check_bound r.specs pts)
      ∷ (check_workspaces pl.workspaces r.specs pts)
      ∷ (check_graph pl.tasks)
      ∷ (check_finally (names_of pl.tasks) [] pl.finally)
      ∷ (check_when pts)
      ∷ (check_retries pts)
      ∷ (check_spec_timeouts parse_duration r.specs)
      ∷ (check_task_timeouts parse_duration pts)
      ∷ (check_pipeline_timeouts parse_duration pl.timeouts)
      ∷ (check_results known [] pl.results)
      ∷ (check_task_refs known pts)
      ∷ (check_finally_refs (names_of pl.finally) pl.tasks)
      ∷ (check_prefixes pts)
      ∷ (check_pipeline_params params pts)
      ∷ (check_spec_params params r.inlined r.specs)
      ∷ (check_step_names r.specs)
      ∷ (check_on_error r.specs)
      ∷ (check_volumes r.specs)
      ∷ (check_sidecars r.specs)
      ∷ (check_step_refs b r.specs pts)
      ∷ (check_images r.specs)
      ∷ (check_action_defaults b.step_actions)
      ∷ (check_matrices r.specs pts)
      ∷ []

  unfoldable pub validate_core : Bundle k → String → Option (List String) → List Invalid
  unfolding rule_parts resolve_tasks
  validate_core b name provided = elim (lookup name b.pipelines) [
    | none ↦ pipeline_not_found name ∷ []
    | some pl ↦ concat (rule_parts b name provided pl (resolved_of b pl))
  ]

-- `check` of ValidateWithOptions, for one task with a resolver
unfoldable pub resolver_errors : String → List String → Options → String → TaskRef → List Invalid
unfolding refused literal_params
resolver_errors pipeline known opts task ref =
    report
      (not opts.remote_resolver_enabled
        && not (is_empty opts.registered_resolvers)
        && not (mem ref.resolver opts.registered_resolvers))
      (resolver_not_allowed task ref.resolver)
    ++ each
        (λ (p : Param).
          refused task_refs (λ t. not (mem t known)) (resolver_param_unknown_task task p.name)
            (value_texts p.value))
        ref.resolver_params
    ++ report
        (opts.offline
          && not (elim opts.cache_check [
            | none ↦ false
            | some present ↦ present (record {
              pipeline = pipeline;
              pipeline_task = task;
              kind = "Task";
              resolver = ref.resolver;
              params = literal_params ref.resolver_params [];
            })
          ]))
        (cache_miss task ref.resolver)

module _ {k : Kube} (parse_duration : String → Option ℤ) where
  unfoldable pub check_resolvers : Options → Pipeline k → String → List Invalid
  unfolding resolver_errors
  check_resolvers opts pl name =
      each
        (λ (pt : PipelineTask k). elim pt.task_ref [
          | none ↦ []
          | some ref ↦
              if ref.resolver == ""
              then []
              else resolver_errors name (names_of (all_tasks pl)) opts pt.name ref
        ])
        (all_tasks pl)

  unfoldable pub validate_with_options :
      Bundle k → String → Option (List String) → Options → List Invalid
  unfolding validate_core check_resolvers
  validate_with_options b name provided opts = elim (lookup name b.pipelines) [
    | none ↦ validate_core parse_duration b name provided
    | some pl ↦ validate_core parse_duration b name provided ++ check_resolvers opts pl name
  ]

  unfoldable pub validate : Bundle k → String → Option (List String) → List Invalid
  unfolding validate_with_options
  validate b name provided = validate_with_options b name provided (record {
    offline = false;
    registered_resolvers = [];
    remote_resolver_enabled = false;
    cache_check = none;
  })
