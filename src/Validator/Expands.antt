-- ===== src/Validator/Expands.antt =====
-- A matrix that rule 19 of validator.go accepts is one that the engine expands.
use tkn_act.Base.{
  ℕ, ◌+◌, String, ◌≡◌, refl, sym, ap, ◌∙◌, true, false, arith, List, [], ◌∷◌, ◌++◌, mem, report,
  map, Map, length, lookup, insert, each-append, ok, is_ok, Option-cases, Result-cases, inl, inr,
  List-cases,
}
use Prim.Native.Nat.{◌%◌, ◌^◌}
use tkn_act.Base.Integers.{pos, ltb_ℤ, signed_64, mul_64}
use tkn_act.Dag.{is_empty}
use tkn_act.Tekton.{Kube, MatrixParam, Matrix, TaskSpec, PipelineTask, Pipeline}
use tkn_act.Tekton.Rows.{cross_loop, cross_of, has_empty_value}
use tkn_act.Engine.Matrix.{Row, materialize_rows, children, expand_list, expand_matrix}
use tkn_act.Validator.Errors.{duplicate_matrix_param, empty_matrix_param, too_many_matrix_rows}
use tkn_act.Validator.Names.{all_tasks}
use tkn_act.Validator.Clean.{is_empty-append, is_empty_iff, is_empty-report, append_nil}
use tkn_act.Validator.Matrices.{
  matrix_param_errors, cross_from, row_total, matrix_errors, matrix_result_errors, check_matrices,
  include_errors, validator_matrix_max_rows,
}

params_clean :
    (task : String) (seen : List String) (mps : List MatrixParam)
    → is_empty (matrix_param_errors task seen mps) ≡ true
    → has_empty_value mps ≡ false
unfolding matrix_param_errors
params_clean task seen [] h = refl
params_clean task seen (mp ∷ mps) h = ground (
  arith,
  is_empty-append
      (report (mem mp.name seen) (duplicate_matrix_param task mp.name)
        ++ report (is_empty mp.value) (empty_matrix_param task mp.name))
      (matrix_param_errors task (mp.name ∷ seen) mps),
  is_empty-append (report (mem mp.name seen) (duplicate_matrix_param task mp.name))
      (report (is_empty mp.value) (empty_matrix_param task mp.name)),
  is_empty-report (is_empty mp.value) (empty_matrix_param task mp.name),
  params_clean task (mp.name ∷ seen) mps,
)

cross_from-loop :
    (c : ℕ) (mps : List MatrixParam)
    → has_empty_value mps ≡ false
    → cross_from c mps ≡ cross_loop c mps
unfolding cross_from cross_loop
cross_from-loop c [] h = refl
cross_from-loop c (mp ∷ mps) h = ground (arith, cross_from-loop (mul_64 c (length mp.value)) mps)

row_total-cross :
    (m : Matrix)
    → has_empty_value m.params ≡ false
    → row_total m ≡ signed_64 ((cross_of m.params + length m.includes) % 2 ^ 64)
unfolding row_total cross_of
row_total-cross m h = elim (List-cases m.params) [
  | inl e ↦ rw (e, row_total) refl
  | inr (mp, mps, e) ↦
      ap (λ n. signed_64 ((n + length m.includes) % 2 ^ 64))
        (rw e (cross_from-loop 1 (mp ∷ mps) (ap has_empty_value (sym e) ∙ h)))
]

-- The parts of a clean report on one matrix.
matrix_errors-parts :
    (task : String) (m : Matrix)
    → matrix_errors task m ≡ []
    → (has_empty_value m.params ≡ false)
      × (ltb_ℤ (pos validator_matrix_max_rows) (row_total m) ≡ false)
unfolding matrix_errors
matrix_errors-parts task m h =
    let params = matrix_param_errors task [] m.params in
    let cap =
      report (ltb_ℤ (pos validator_matrix_max_rows) (row_total m))
        (too_many_matrix_rows task (row_total m)) in
    let (front, _) =
      append_nil (params ++ cap) (include_errors task (map (λ mp. mp.name) m.params) m.includes)
        h in
    let (params_nil, cap_nil) = append_nil params cap front in
    (
      params_clean task [] m.params ((is_empty_iff params).1 params_nil),
      ground (
        arith,
        cap_nil,
        is_empty-report (ltb_ℤ (pos validator_matrix_max_rows) (row_total m))
            (too_many_matrix_rows task (row_total m)),
      ),
    )

pub materialize_rows-accepted :
    (task : String) (m : Matrix)
    → matrix_errors task m ≡ []
    → (rows : List Row) × (materialize_rows task m ≡ ok rows)
unfolding materialize_rows
materialize_rows-accepted task m h =
    let (full, few) = matrix_errors-parts task m h in
    elim (Result-cases (materialize_rows task m)) [
      | inl found ↦ found
      | inr (e, bad) ↦ absurd (ground (arith, bad, full, few, row_total-cross m full))
    ]

module _ {k : Kube} (specs : Map (TaskSpec k)) where
  expand_list-accepted :
      (pts : List (PipelineTask k)) (rewrite : Map (List String))
      → check_matrices specs pts ≡ []
      → is_ok (expand_list pts rewrite) ≡ true
  unfolding expand_list check_matrices
  expand_list-accepted [] rewrite h = refl
  expand_list-accepted (pt ∷ pts) rewrite h = elim (Option-cases pt.matrix) [
    | inl none_here ↦
        let rest_clean : check_matrices specs pts ≡ [] = ground (arith, h, none_here) in
        ground (arith, none_here, expand_list-accepted pts rewrite rest_clean)
    | inr (m, some_here) ↦
        let here = matrix_errors pt.name m ++ matrix_result_errors pt.name (lookup pt.name specs) in
        let (here_nil, rest_nil) =
          append_nil here (check_matrices specs pts) (sym (ground (arith, some_here)) ∙ h) in
        let (rows, made) =
          materialize_rows-accepted pt.name m
            (append_nil (matrix_errors pt.name m)
              (matrix_result_errors pt.name (lookup pt.name specs)) here_nil).0 in
        let kids = children pt (length rows) 0 rows in
        ground (
          arith,
          some_here,
          made,
          expand_list-accepted pts (insert pt.name (map (λ c. c.name) kids) rewrite) rest_nil,
        )
  ]

  check_matrices-append :
      (xs ys : List (PipelineTask k))
      → check_matrices specs (xs ++ ys) ≡ []
      → (check_matrices specs xs ≡ []) × (check_matrices specs ys ≡ [])
  unfolding check_matrices
  check_matrices-append xs ys h =
      append_nil (check_matrices specs xs) (check_matrices specs ys) (sym (each-append _ xs ys) ∙ h)

  -- The engine expands every pipeline whose matrices rule 19 accepts.
  pub expand_matrix-accepted :
      (pl : Pipeline k)
      → check_matrices specs (all_tasks pl) ≡ []
      → (out : Pipeline k) × (expand_matrix pl ≡ ok out)
  unfolding expand_matrix
  expand_matrix-accepted pl h =
      let (main, finally) = check_matrices-append pl.tasks pl.finally h in
      elim (Result-cases (expand_list pl.tasks [])) [
        | inr (e, bad) ↦ absurd (ground (arith, bad, expand_list-accepted pl.tasks [] main))
        | inl (r, made) ↦ elim (Result-cases (expand_matrix pl)) [
          | inl found ↦ found
          | inr (e, bad) ↦
              absurd (ground (arith, bad, made, expand_list-accepted pl.finally r.1 finally))
        ]
      ]
