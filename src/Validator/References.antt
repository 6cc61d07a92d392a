-- ===== src/Validator/References.antt =====
-- validator.go, rules 8c to 8g: what `$(...)` may name.
use tkn_act.Base.{
  String, Bool, not, List, [], ◌∷◌, ◌++◌, if◌then◌else◌, mem, each, report, map, Map, keep,
}
use tkn_act.Tekton.{Kube, ParamSpec, PipelineResultSpec, TaskSpec, PipelineTask}
use tkn_act.Engine.References.{value_texts, params_texts}
use tkn_act.Validator.Errors.{
  Invalid, duplicate_result, result_of_unknown_task, uses_unknown_task, uses_finally_result,
  unknown_prefix, undeclared_pipeline_param, undeclared_param,
}
use tkn_act.Validator.Scans.{
  task_refs, var_exprs, has_allowed_prefix, param_refs, when_and_matrix_texts, pipeline_task_texts,
  task_spec_texts,
}

-- Each task that the texts refer to and that a test refuses.
unfoldable pub refused :
    (String → List String) → (String → Bool) → (String → Invalid) → List String → List Invalid
refused found bad err texts = each (λ s. map err (keep bad (found s))) texts

-- rule 8c
unfoldable pub check_results : List String → List String → List PipelineResultSpec → List Invalid
unfolding refused
check_results known seen [] = []
check_results known seen (r ∷ rs) =
    report (mem r.name seen) (duplicate_result r.name)
    ++ refused task_refs (λ t. not (mem t known)) (result_of_unknown_task r.name)
        (value_texts r.value)
    ++ check_results known (r.name ∷ seen) rs

module _ {k : Kube} where
  -- rule 8d
  unfoldable pub check_task_refs : List String → List (PipelineTask k) → List Invalid
  unfolding refused
  check_task_refs known pts =
      each
        (λ (pt : PipelineTask k).
          refused task_refs (λ t. not (mem t known)) (uses_unknown_task pt.name)
            (params_texts pt.params)
          ++ refused task_refs (λ t. not (mem t known)) (uses_unknown_task pt.name)
              (when_and_matrix_texts pt))
        pts

  -- rule 8e
  unfoldable pub check_finally_refs : List String → List (PipelineTask k) → List Invalid
  unfolding refused
  check_finally_refs finally_names pts =
      each
        (λ (pt : PipelineTask k).
          refused task_refs (λ t. mem t finally_names) (uses_finally_result pt.name)
            (pipeline_task_texts pt))
        pts

  -- rule 8f
  unfoldable pub check_prefixes : List (PipelineTask k) → List Invalid
  unfolding refused
  check_prefixes pts =
      each
        (λ (pt : PipelineTask k).
          refused var_exprs (λ e. not (has_allowed_prefix e)) (unknown_prefix pt.name)
            (pipeline_task_texts pt))
        pts

  -- rule 8g
  unfoldable pub check_pipeline_params : List String → List (PipelineTask k) → List Invalid
  unfolding refused
  check_pipeline_params declared pts =
      each
        (λ (pt : PipelineTask k).
          refused param_refs (λ n. not (mem n declared)) (undeclared_pipeline_param pt.name)
            (pipeline_task_texts pt))
        pts

  unfoldable pub check_spec_params : List String → List String → Map (TaskSpec k) → List Invalid
  unfolding refused
  check_spec_params declared inlined [] = []
  check_spec_params declared inlined ((name, spec) ∷ specs) =
      let own = map (λ (p : ParamSpec). p.name) spec.params in
      let known = if mem name inlined then own ++ declared else own in
      refused param_refs (λ n. not (mem n known)) (undeclared_param name) (task_spec_texts spec)
      ++ check_spec_params declared inlined specs
