-- ===== src/Engine/PipelineResults.antt =====
-- pipeline_results.go: the results that a pipeline declares, once every task is through.
pub mod Declared
pub mod Resolved
use tkn_act.Base.{
  ℕ, zero, suc, String, Bool, true, false, not, ◌&&◌, Option, none, some, List, [], ◌∷◌, ◌++◌,
  if◌then◌else◌, ◌==◌, nat_eq, or_else, Map, lookup, insert, keys, Result, ok, err, ◌>>=◌,
}
use tkn_act.Base.Text.{has_prefix, strip_suffix, count_code}
use tkn_act.Base.Order.{sort}
use tkn_act.Tekton.{ParamValue, unset, string, array, object, PipelineResultSpec}
use tkn_act.Resolver.Scope.{Json, Context, LookupError, has_suffix}
use tkn_act.Resolver.{strict, substitute, substitute_args}

-- a value as the run's result holds it
pub data ResultValue : Type 0 where
  text_value : String → ResultValue
  list_value : List String → ResultValue
  map_value : Map String → ResultValue

-- only results of tasks can be referred to
abbrev pub results_scope : Map (Map String) → Context
results_scope results = record {
  params = [];
  array_params = [];
  object_params = [];
  results = results;
  context_vars = [];
  step_results = none;
  current_step = "";
  bound_workspaces = none;
  tasks_status = "";
  task_statuses = none;
  workspace_paths = [];
}

unfoldable pub is_sole_array_star_ref : String → Bool
unfolding has_prefix strip_suffix count_code
is_sole_array_star_ref s = has_prefix "$(" s && has_suffix "[*])" s && nat_eq (count_code b')' s) 1

module _ (json : Json) (results : Map (Map String)) where
  -- The elements of a list, up to the first that fails.
  unfoldable pub resolve_items : List String → Result LookupError (List String)
  unfolding is_sole_array_star_ref
  resolve_items [] = ok []
  resolve_items (item ∷ items) = do
    here ←
        if is_sole_array_star_ref item
        then substitute_args json (results_scope results) strict (item ∷ [])
        else (substitute json (results_scope results) strict item >>= λ s. ok (s ∷ []))
    rest ← resolve_items items
    ok (here ++ rest)

  -- The entries of an object under the sorted keys.
  unfoldable pub resolve_fields :
      Map String → List String → Map String → Result LookupError (Map String)
  resolve_fields fields [] obj = ok obj
  resolve_fields fields (k ∷ ks) obj = do
    s ← substitute json (results_scope results) strict (or_else (lookup k fields) "")
    resolve_fields fields ks (insert k s obj)

  unfoldable pub resolve_text : String → Result LookupError ResultValue
  unfolding is_sole_array_star_ref
  resolve_text s =
      if is_sole_array_star_ref s
      then (substitute_args json (results_scope results) strict (s ∷ []) >>= λ l. ok (list_value l))
      else (substitute json (results_scope results) strict s >>= λ t. ok (text_value t))

  -- the `switch` on the type of the declared value
  unfoldable pub resolve_result : ParamValue → Result LookupError ResultValue
  unfolding resolve_text resolve_items resolve_fields
  resolve_result v = elim v.type [
    | string ↦ resolve_text v.string_val
    | unset ↦ resolve_text v.string_val
    | array ↦ do l ← resolve_items v.array_val; ok (list_value l)
    | object ↦ do m ← resolve_fields v.object_val (sort (keys v.object_val)) []; ok (map_value m)
  ]

  -- the loop, with what `out` and `errs` hold
  unfoldable pub resolve_each :
      List PipelineResultSpec
      → Map ResultValue
      → List (String × LookupError)
      → Map ResultValue × List (String × LookupError)
  unfolding resolve_result
  resolve_each [] out errs = (out, errs)
  resolve_each (spec ∷ specs) out errs = elim (resolve_result spec.value) [
    | ok v ↦ resolve_each specs (insert spec.name v out) errs
    | err e ↦ resolve_each specs out (errs ++ (spec.name, e) ∷ [])
  ]

  unfoldable pub resolve_pipeline_results :
      List PipelineResultSpec → Map ResultValue × List (String × LookupError)
  unfolding resolve_each
  resolve_pipeline_results specs = resolve_each specs [] []
