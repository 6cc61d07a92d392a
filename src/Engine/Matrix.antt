-- ===== src/Engine/Matrix.antt =====
-- matrix.go: a task with a matrix becomes one task for each row.
pub mod Odometer
pub mod Rows
pub mod Expansion
use Prim.Native.Nat.{◌%◌, ◌^◌}
use tkn_act.Base.Integers.{ℤ, pos, ltb_ℤ, signed_64}
use Prim.Native.String.{◌++◌ as str_append}
use tkn_act.Base.{
  ℕ, zero, suc, ◌+◌, String, Bool, true, false, ◌||◌, not, ◌==◌, Option, none, some, List, [], ◌∷◌,
  ◌++◌, if◌then◌else◌, map, Map, lookup, insert, or_else, is_some, length, ltb, any, mem, Result,
  ok, err, ◌>>=◌,
}
use tkn_act.Base.Text.{itoa}
use tkn_act.Engine.Merge.{merge}
use tkn_act.Tekton.{
  Kube, Param, string, MatrixParam, MatrixInclude, Matrix, MatrixInfo, PipelineTask, Pipeline,
}
use tkn_act.Tekton.Rows.{
  zeros, advance, value_at, cross_of, cross_rows, has_empty_value, odometer, param_map, is_nil,
}

pub data MatrixError : Type 0 where
  empty_value : String → MatrixError
  too_many_rows : String → ℤ → MatrixError

pub record Row : Type 0 where
  pub params : List Param
  pub include_name : String

abbrev pub max_rows : ℕ
max_rows = 256

abbrev pub string_param : String → String → Param
string_param name v = record {
  name = name;
  value = record { type = string; string_val = v; array_val = []; object_val = [] };
}

unfoldable pub row_params : List MatrixParam → List ℕ → List Param
row_params [] idxs = []
row_params (mp ∷ mps) [] = []
row_params (mp ∷ mps) (i ∷ idxs) = string_param mp.name (value_at mp i) ∷ row_params mps idxs

abbrev pub cross_row : List MatrixParam → List ℕ → Row
cross_row mps idxs = record { params = row_params mps idxs; include_name = "" }

abbrev pub include_row : MatrixInclude → Row
include_row inc = record { params = inc.params; include_name = inc.name }

-- `total` is an int of 64 bits
unfoldable pub materialize_rows : String → Matrix → Result MatrixError (List Row)
unfolding cross_of cross_rows
materialize_rows parent m =
    if has_empty_value m.params
    then err (empty_value parent)
    else (let total = signed_64 ((cross_of m.params + length m.includes) % 2 ^ 64) in
        if ltb_ℤ (pos max_rows) total
        then err (too_many_rows parent total)
        else ok (cross_rows cross_row m.params ++ map include_row m.includes))

unfoldable pub row_name : String → ℕ → String → String
row_name parent idx include_name =
    if include_name == "" then str_append parent (str_append "-" (itoa idx)) else include_name

unfoldable pub merge_params : List Param → List Param → List Param
unfolding merge
merge_params base row = merge (λ p. p.name) base row

unfoldable pub rewrite_run_after : Map (List String) → List String → List String
rewrite_run_after rewrite [] = []
rewrite_run_after rewrite (dep ∷ deps) =
    or_else (lookup dep rewrite) (dep ∷ []) ++ rewrite_run_after rewrite deps

module _ {k : Kube} where
  unfoldable pub child : PipelineTask k → ℕ → ℕ → Row → PipelineTask k
  unfolding row_name merge_params param_map
  child pt of i row = record pt {
    matrix = none;
    name = row_name pt.name i row.include_name;
    params = merge_params pt.params row.params;
    matrix_info = some (record {
      parent = pt.name;
      index = i;
      of = of;
      params = param_map [] row.params;
      include_name = row.include_name;
    });
  }

  unfoldable pub children : PipelineTask k → ℕ → ℕ → List Row → List (PipelineTask k)
  unfolding child
  children pt of i [] = []
  children pt of i (row ∷ rows) = child pt of i row ∷ children pt of (i + 1) rows

  -- The expanded tasks, and `rewrite` with what the list adds to it.
  unfoldable pub expand_list :
      List (PipelineTask k)
      → Map (List String)
      → Result MatrixError (List (PipelineTask k) × Map (List String))
  unfolding materialize_rows children
  expand_list [] rewrite = ok ([], rewrite)
  expand_list (pt ∷ pts) rewrite = elim pt.matrix [
    | none ↦ do r ← expand_list pts rewrite; ok (pt ∷ r.0, r.1)
    | some m ↦ do
      rows ← materialize_rows pt.name m
      let kids = children pt (length rows) 0 rows
      r ← expand_list pts (insert pt.name (map (λ c. c.name) kids) rewrite)
      ok (kids ++ r.0, r.1)
  ]

  abbrev pub has_matrix : PipelineTask k → Bool
  has_matrix pt = is_some pt.matrix

  abbrev pub has_any_matrix : Pipeline k → Bool
  has_any_matrix pl = any has_matrix pl.tasks || any has_matrix pl.finally

  abbrev pub rewire : Map (List String) → PipelineTask k → PipelineTask k
  rewire rewrite pt = record pt { run_after = rewrite_run_after rewrite pt.run_after }

  unfoldable pub expand_matrix : Pipeline k → Result MatrixError (Pipeline k)
  unfolding expand_list rewrite_run_after
  expand_matrix pl = if not (has_any_matrix pl) then ok pl else do
    tasks ← expand_list pl.tasks []
    finally ← expand_list pl.finally tasks.1
    ok (record pl {
      tasks = map (rewire finally.1) tasks.0;
      finally = map (rewire finally.1) finally.0;
    })
