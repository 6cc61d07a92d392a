-- ===== src/Examples/Matrices.antt =====
-- A task that is built for two systems, by each of two compilers, and once more by name.
use Prim.Native.String.{◌++◌ as str_append}
use tkn_act.Engine.Aggregate.{aggregate_matrix_results, result_of}
use tkn_act.Engine.Aggregate.Folded.{results_of, aggregate_matrix_results-lookup}
use tkn_act.Base.{
  lookup, is_some, Map, String, any, ◌==◌, ◌+◌, ◌≡◌, refl, false, some, List, [], ◌∷◌, ◌++◌,
  if◌then◌else◌, map, length, ok, err,
}
use tkn_act.Base.{ℕ, zero, suc}
use tkn_act.Base.Text.{itoa}
use tkn_act.Base.Integers.{pos, ltb_ℤ, wrap_64, mul_64}
use tkn_act.Tekton.{MatrixParam, Matrix, PipelineTask}
use tkn_act.Tekton.Rows.{
  has_empty_value, cross_of, cross_loop, cross_rows, cross_size, odometer, advance, zeros,
}
use tkn_act.Engine.Matrix.{
  Row, string_param, materialize_rows, row_params, include_row, max_rows, empty_value,
  too_many_rows,
}
use tkn_act.Engine.Matrix.Rows.{choices_of, counted, row_of, materialize_rows-product}
use tkn_act.Examples.Pipelines.{kube, task}

abbrev builds : Matrix
builds = record {
  params =
      record { name = "os"; value = "linux" ∷ "darwin" ∷ [] }
      ∷ record { name = "cc"; value = "gcc" ∷ "clang" ∷ [] }
      ∷ [];
  includes = record { name = "extra"; params = string_param "arch" "arm" ∷ [] } ∷ [];
}

abbrev rows : List Row
rows =
    record { params = string_param "os" "linux" ∷ string_param "cc" "gcc" ∷ []; include_name = "" }
    ∷ record {
      params = string_param "os" "linux" ∷ string_param "cc" "clang" ∷ [];
      include_name = "";
    }
    ∷ record {
      params = string_param "os" "darwin" ∷ string_param "cc" "gcc" ∷ [];
      include_name = "";
    }
    ∷ record {
      params = string_param "os" "darwin" ∷ string_param "cc" "clang" ∷ [];
      include_name = "";
    }
    ∷ record { params = string_param "arch" "arm" ∷ []; include_name = "extra" }
    ∷ []

builds-rows : materialize_rows "build" builds ≡ ok rows
unfolding materialize_rows cross_rows cross_of cross_loop mul_64 cross_size odometer advance zeros
    row_params
builds-rows = refl

materialize_rows-product_example : materialize_rows "build" builds ≡ (
    if has_empty_value builds.params
    then err (empty_value "build")
    else if ltb_ℤ
        (pos max_rows)
        (wrap_64 (pos (length (choices_of builds.params) + length builds.includes)))
    then err (
        too_many_rows "build"
          (wrap_64 (pos (length (choices_of builds.params) + length builds.includes))))
    else ok (map row_of (counted (choices_of builds.params)) ++ map include_row builds.includes))
materialize_rows-product_example = materialize_rows-product "build" builds

-- With 64 params of two values each the product wraps around to 0: the matrix is accepted, and it
-- makes no row.
abbrev switches : ℕ → List MatrixParam
switches zero = []
switches (suc n) = record { name = itoa n; value = "on" ∷ "off" ∷ [] } ∷ switches n

wrapped_product : materialize_rows "build" (record { params = switches 64; includes = [] }) ≡ ok []
unfolding materialize_rows cross_rows cross_of cross_loop mul_64
wrapped_product = refl

abbrev build_all : PipelineTask kube
build_all = record (task "build" []) { matrix = some builds }

-- Two of three expansions report a path.
abbrev reported : Map (Map String)
reported = ("b-0", ("path", "x") ∷ []) ∷ ("b-1", []) ∷ ("b-2", ("path", "y") ∷ []) ∷ []

abbrev joined : List String → String
joined [] = ""
joined (s ∷ ss) = str_append s (str_append ";" (joined ss))

abbrev expansions : List String
expansions = "b-0" ∷ "b-1" ∷ "b-2" ∷ []

aggregate_matrix_results-lookup_example :
    (lookup "path" (results_of (aggregate_matrix_results joined "b" expansions reported) "b") ≡ (
      if any (λ n. is_some (lookup "path" (results_of reported n))) expansions
      then some (joined (map (λ n. result_of reported n "path") expansions))
      else lookup "path" (results_of reported "b")))
    × (("b" == "b-0") ≡ false
        → lookup "b-0" (aggregate_matrix_results joined "b" expansions reported)
          ≡ lookup "b-0" reported)
aggregate_matrix_results-lookup_example =
    aggregate_matrix_results-lookup joined "b" expansions refl reported "path" "b-0"
