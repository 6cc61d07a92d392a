-- ===== src/Validator/TaskSpecs.antt =====
-- ValidateTaskSpec against the rules that Validate applies to the same task.
use tkn_act.Base.{String, ◌≡◌, ◌∙◌, arith, Option, some, List, [], ◌++◌, report, lookup, concat}
use tkn_act.Base.Integers.{ℤ}
use tkn_act.Dag.{is_empty}
use tkn_act.Tekton.{Kube, TaskSpec, Pipeline}
use tkn_act.Validator.{rule_parts, resolved_of, validate_core}
use tkn_act.Validator.Errors.{no_steps}
use tkn_act.Validator.Names.{Bundle, Resolved}
use tkn_act.Validator.Timing.{check_timeout, check_spec_timeouts}
use tkn_act.Validator.Steps.{
  duplicate_step_name_errors, on_error_errors, volume_names, volume_errors, mount_errors,
  check_step_names, check_on_error, check_volumes, validate_task_spec,
}
use tkn_act.Validator.Clean.{is_empty_iff, append_nil, append_clean, concat_nil, each_found}

module _ {k : Kube} (parse_duration : String → Option ℤ) where
  rule_parts-task_spec :
      (b : Bundle k) (name : String) (provided : Option (List String)) (pl : Pipeline k)
      (r : Resolved k) (task : String) (spec : TaskSpec k)
      → concat (rule_parts parse_duration b name provided pl r) ≡ []
      → lookup task r.specs ≡ some spec
      → validate_task_spec parse_duration task spec ≡ report (is_empty spec.steps) (no_steps task)
  unfolding rule_parts validate_task_spec check_spec_timeouts check_step_names check_on_error
      check_volumes
  rule_parts-task_spec b name provided pl r task spec h e =
      let parts = concat_nil (rule_parts parse_duration b name provided pl r) h in
      let timeout =
        each_found (λ (t : String × TaskSpec k). check_timeout parse_duration t.0 t.1.timeout)
          r.specs task spec ((is_empty_iff _).0 (ground (arith, parts))) e in
      let names =
        each_found (λ (t : String × TaskSpec k). duplicate_step_name_errors t.0 [] t.1.steps)
          r.specs task spec ((is_empty_iff _).0 (ground (arith, parts))) e in
      let on_error =
        each_found (λ (t : String × TaskSpec k). on_error_errors t.0 t.1.steps) r.specs task spec
          ((is_empty_iff _).0 (ground (arith, parts))) e in
      let volumes =
        each_found
          (λ (t : String × TaskSpec k).
            volume_errors t.0 t.1.volumes ++ mount_errors t.0 (volume_names t.1.volumes) t.1.steps)
          r.specs task spec ((is_empty_iff _).0 (ground (arith, parts))) e in
      let (sources, mounts) =
        append_nil (volume_errors task spec.volumes)
          (mount_errors task (volume_names spec.volumes) spec.steps) volumes in
      append_clean _ (mount_errors task (volume_names spec.volumes) spec.steps) mounts
      ∙ append_clean _ (volume_errors task spec.volumes) sources
      ∙ append_clean _ (on_error_errors task spec.steps) on_error
      ∙ append_clean _ (duplicate_step_name_errors task [] spec.steps) names
      ∙ append_clean _ (check_timeout parse_duration task spec.timeout) timeout

  -- On a task of a pipeline that Validate accepts, the check that the engine runs after a resolver
  -- reports nothing but a task without steps, which Validate itself does not look for.
  pub validate_task_spec-accepted :
      (b : Bundle k) (name : String) (provided : Option (List String)) (pl : Pipeline k)
      (task : String) (spec : TaskSpec k)
      → lookup name b.pipelines ≡ some pl
      → validate_core parse_duration b name provided ≡ []
      → lookup task (resolved_of b pl).specs ≡ some spec
      → validate_task_spec parse_duration task spec ≡ report (is_empty spec.steps) (no_steps task)
  unfolding validate_core
  validate_task_spec-accepted b name provided pl task spec e h f =
      rule_parts-task_spec b name provided pl (resolved_of b pl) task spec (ground (arith, e, h)) f
