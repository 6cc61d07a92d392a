-- ===== src/Validator/Matrices.antt =====
-- validator.go, rules 18 and 19: the defaults of step actions, and matrices.
use tkn_act.Base.{
  ℕ, ◌+◌, String, Bool, true, false, not, ◌||◌, Option, none, some, List, [], ◌∷◌, ◌++◌,
  if◌then◌else◌, ◌==◌, mem, each, report, map, length, Map, lookup, keys,
}
use Prim.Native.Nat.{◌%◌, ◌^◌}
use tkn_act.Base.Integers.{ℤ, pos, ltb_ℤ, signed_64, mul_64}
use tkn_act.Base.Order.{sort}
use tkn_act.Tekton.{
  Kube, ParamType, unset, string, ParamSpec, Param, MatrixParam, MatrixInclude, Matrix, ResultSpec,
  TaskSpec, StepAction, PipelineTask,
}
use tkn_act.Dag.{is_empty}
use tkn_act.Validator.Errors.{
  Invalid, unsupported_default, duplicate_matrix_param, empty_matrix_param, too_many_matrix_rows,
  include_not_string, include_overlaps, matrix_result_type,
}

abbrev pub is_text : ParamType → Bool
is_text string = true
is_text unset = true
is_text _ = false

abbrev pub validator_matrix_max_rows : ℕ
validator_matrix_max_rows = 256

-- the loop over the params, and the product that it leaves in `cross`
unfoldable pub matrix_param_errors : String → List String → List MatrixParam → List Invalid
matrix_param_errors task seen [] = []
matrix_param_errors task seen (mp ∷ mps) =
    report (mem mp.name seen) (duplicate_matrix_param task mp.name)
    ++ report (is_empty mp.value) (empty_matrix_param task mp.name)
    ++ matrix_param_errors task (mp.name ∷ seen) mps

-- on the bits of an int of 64
unfoldable pub cross_from : ℕ → List MatrixParam → ℕ
unfolding mul_64
cross_from cross [] = cross
cross_from cross (mp ∷ mps) =
    cross_from (if is_empty mp.value then cross else mul_64 cross (length mp.value)) mps

unfoldable pub row_total : Matrix → ℤ
unfolding cross_from
row_total m =
    let cross = cross_from (if is_empty m.params then 0 else 1) m.params in
    signed_64 ((cross + length m.includes) % 2 ^ 64)

unfoldable pub include_errors : String → List String → List MatrixInclude → List Invalid
include_errors task cross_names incs =
    each
      (λ (inc : MatrixInclude).
        each
          (λ (p : Param).
            report (not (is_text p.value.type)) (include_not_string task inc.name p.name)
            ++ report (mem p.name cross_names) (include_overlaps task inc.name p.name))
          inc.params)
      incs

-- one matrix, without the rule on the results of its task
unfoldable pub matrix_errors : String → Matrix → List Invalid
unfolding matrix_param_errors row_total include_errors
matrix_errors task m =
    matrix_param_errors task [] m.params
    ++ report (ltb_ℤ (pos validator_matrix_max_rows) (row_total m))
        (too_many_matrix_rows task (row_total m))
    ++ include_errors task (map (λ mp. mp.name) m.params) m.includes

unfoldable pub action_default_errors : String → List ParamSpec → List Invalid
action_default_errors action decls =
    each
      (λ (d : ParamSpec). elim d.default [
        | none ↦ []
        | some v ↦ report (not (is_text v.type)) (unsupported_default action d.name)
      ])
      decls

module _ {k : Kube} where
  unfoldable pub matrix_result_errors : String → Option (TaskSpec k) → List Invalid
  matrix_result_errors task none = []
  matrix_result_errors task (some spec) =
      each
        (λ (r : ResultSpec).
          report (r.type == "array" || r.type == "object") (matrix_result_type task r.name))
        spec.results

  -- rule 19
  unfoldable pub check_matrices : Map (TaskSpec k) → List (PipelineTask k) → List Invalid
  unfolding matrix_errors matrix_result_errors
  check_matrices specs pts =
      each
        (λ (pt : PipelineTask k). elim pt.matrix [
          | none ↦ []
          | some m ↦ matrix_errors pt.name m ++ matrix_result_errors pt.name (lookup pt.name specs)
        ])
        pts

  -- rule 18
  unfoldable pub check_action_defaults : Map (StepAction k) → List Invalid
  unfolding action_default_errors
  check_action_defaults actions =
      each
        (λ name. elim (lookup name actions) [
          | none ↦ []
          | some sa ↦ action_default_errors name sa.params
        ])
        (sort (keys actions))
