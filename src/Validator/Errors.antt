-- ===== src/Validator/Errors.antt =====
-- What internal/validator reports: a constructor for each message, with the values that it prints.
use tkn_act.Base.{String}
use tkn_act.Base.Integers.{ℤ}
use tkn_act.Dag.{DagError}
use tkn_act.Engine.Budgets.{TimeoutError}

-- the pipeline task, or for ValidateTaskSpec the task
pub data Invalid : Type 0 where
  pipeline_not_found : String → Invalid
  both_ref_and_spec unknown_task no_ref_or_spec : String → Invalid
  missing_pipeline_param missing_task_param missing_workspace : String → String → Invalid
  undeclared_workspace : String → String → String → Invalid
  duplicate_task duplicate_finally collides_with_main : String → Invalid
  unknown_run_after : String → String → Invalid
  not_a_dag : DagError → Invalid
  unsupported_operator no_when_values : String → String → Invalid
  negative_retries : String → ℤ → Invalid
  bad_timeout negative_timeout : String → String → Invalid
  bad_pipeline_timeout : TimeoutError → Invalid
  duplicate_result : String → Invalid
  result_of_unknown_task uses_unknown_task uses_finally_result : String → String → Invalid
  unknown_prefix undeclared_pipeline_param undeclared_param : String → String → Invalid
  duplicate_step : String → String → Invalid
  unsupported_on_error : String → String → String → Invalid
  no_volume_source many_volume_sources host_path_missing : String → String → Invalid
  undeclared_volume empty_mount_path : String → String → String → Invalid
  unnamed_sidecar : String → Invalid
  sidecar_image_missing duplicate_sidecar sidecar_is_step : String → String → Invalid
  sidecar_volume : String → String → String → Invalid
  resolver_step_ref ref_and_body : String → String → Invalid
  unknown_step_action missing_action_param : String → String → String → Invalid
  no_image : String → String → Invalid
  unsupported_default : String → String → Invalid
  duplicate_matrix_param empty_matrix_param : String → String → Invalid
  too_many_matrix_rows : String → ℤ → Invalid
  include_not_string include_overlaps : String → String → String → Invalid
  matrix_result_type : String → String → Invalid
  no_steps : String → Invalid
  -- ValidateWithOptions
  resolver_not_allowed cache_miss : String → String → Invalid
  resolver_param_unknown_task : String → String → String → Invalid
