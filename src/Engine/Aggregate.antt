-- ===== src/Engine/Aggregate.antt =====
-- matrix.go: folding the results of a matrix's expansions into its parent. `encoding/json`, which
-- is not read here, enters as the function that encodes a list of texts.
pub mod Folded
use tkn_act.Base.{
  String, Bool, false, ◌&&◌, ◌||◌, not, ◌==◌, none, some, List, [], ◌∷◌, if◌then◌else◌, map, Map,
  lookup, insert, or_else, is_some, keys, all, add,
}
use tkn_act.Tekton.{Kube, PipelineTask, MatrixInfo}
use tkn_act.Engine.Outcome.{TaskOutcome}

-- The task is an expansion of the parent.
abbrev pub of_parent : {k : Kube} → String → PipelineTask k → Bool
of_parent parent pt = elim pt.matrix_info [ none ↦ false | some mi ↦ mi.parent == parent ]

unfoldable pub expansion_names_of : {k : Kube} → MatrixInfo → List (PipelineTask k) → List String
expansion_names_of mi [] = []
expansion_names_of mi (pt ∷ pts) =
    let rest = expansion_names_of mi pts in if of_parent mi.parent pt then pt.name ∷ rest else rest

unfoldable pub siblings_all_terminal :
    {k : Kube} → MatrixInfo → List (PipelineTask k) → Map TaskOutcome → Bool
siblings_all_terminal mi pts outcomes =
    all (λ pt. not (of_parent mi.parent pt) || is_some (lookup pt.name outcomes)) pts

-- `results[n][k]`, where a missing key reads as the empty text
abbrev pub result_of : Map (Map String) → String → String → String
result_of results n k = or_else (lookup k (or_else (lookup n results) [])) ""

unfoldable pub add_all : List String → List String → List String
unfolding add
add_all [] seen = seen
add_all (k ∷ ks) seen = add_all ks (add k seen)

-- the set of result names that some expansion produced
unfoldable pub result_names : Map (Map String) → List String → List String → List String
unfolding add_all
result_names results [] seen = seen
result_names results (n ∷ names) seen =
    result_names results names (add_all (keys (or_else (lookup n results) [])) seen)

module _ (marshal : List String → String) where
  unfoldable pub fold_names :
      String → List String → List String → Map (Map String) → Map (Map String)
  fold_names parent names [] results = results
  fold_names parent names (k ∷ ks) results =
      let encoded = marshal (map (λ n. result_of results n k) names) in
      fold_names parent names ks
        (insert parent (insert k encoded (or_else (lookup parent results) [])) results)

  unfoldable pub aggregate_matrix_results :
      String → List String → Map (Map String) → Map (Map String)
  unfolding result_names fold_names
  aggregate_matrix_results parent names results =
      fold_names parent names (result_names results names []) results

  -- `all` holds the main tasks, then the finally tasks
  unfoldable pub maybe_aggregate_matrix :
      {k : Kube}
      → PipelineTask k
      → List (PipelineTask k)
      → Map TaskOutcome
      → Map (Map String)
      → Map (Map String)
  unfolding siblings_all_terminal expansion_names_of aggregate_matrix_results
  maybe_aggregate_matrix pt tasks outcomes results = elim pt.matrix_info [
    | none ↦ results
    | some mi ↦
        if siblings_all_terminal mi tasks outcomes && not (is_some (lookup mi.parent results))
        then aggregate_matrix_results mi.parent (expansion_names_of mi tasks) results
        else results
  ]
