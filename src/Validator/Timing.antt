-- ===== src/Validator/Timing.antt =====
-- validator.go, rules 6 to 8b: `when` operators, retries and timeouts.
use tkn_act.Base.{
  String, not, ◌&&◌, Option, none, some, List, [], ◌∷◌, ◌++◌, if◌then◌else◌, ◌==◌, map, each,
  report, Map,
}
use tkn_act.Base.Text.{lower_eq}
use tkn_act.Base.Integers.{ℤ, pos, ltb_ℤ}
use tkn_act.Tekton.{Kube, WhenExpression, TaskSpec, PipelineTask, Timeouts}
use tkn_act.Dag.{is_empty}
use tkn_act.Engine.Budgets.{check_timeouts}
use tkn_act.Validator.Errors.{
  Invalid, unsupported_operator, no_when_values, negative_retries, bad_timeout, negative_timeout,
  bad_pipeline_timeout,
}

-- an empty text is not parsed
unfoldable pub check_timeout : (String → Option ℤ) → String → String → List Invalid
check_timeout parse_duration name t = if t == "" then [] else (elim (parse_duration t) [
  | none ↦ bad_timeout name t ∷ []
  | some d ↦ report (ltb_ℤ d (pos 0)) (negative_timeout name t)
])

-- rule 8b
unfoldable pub check_pipeline_timeouts : (String → Option ℤ) → Option Timeouts → List Invalid
check_pipeline_timeouts parse_duration none = []
check_pipeline_timeouts parse_duration (some t) =
    map bad_pipeline_timeout (check_timeouts parse_duration t)

module _ {k : Kube} where
  -- rule 6
  unfoldable pub check_when : List (PipelineTask k) → List Invalid
  check_when pts =
      each
        (λ (pt : PipelineTask k).
          each
            (λ (w : WhenExpression).
              report (not (lower_eq w.operator "in") && not (lower_eq w.operator "notin"))
                (unsupported_operator pt.name w.operator)
              ++ report (is_empty w.values) (no_when_values pt.name w.input))
            pt.when)
        pts

  -- rule 7
  unfoldable pub check_retries : List (PipelineTask k) → List Invalid
  check_retries pts =
      each
        (λ (pt : PipelineTask k).
          report (ltb_ℤ pt.retries (pos 0)) (negative_retries pt.name pt.retries))
        pts

  module _ (parse_duration : String → Option ℤ) where
    -- rule 8
    unfoldable pub check_spec_timeouts : Map (TaskSpec k) → List Invalid
    unfolding check_timeout
    check_spec_timeouts specs =
        each (λ (e : String × TaskSpec k). check_timeout parse_duration e.0 e.1.timeout) specs

    -- rule 8a
    unfoldable pub check_task_timeouts : List (PipelineTask k) → List Invalid
    unfolding check_timeout
    check_task_timeouts pts =
        each (λ (pt : PipelineTask k). check_timeout parse_duration pt.name pt.timeout) pts
