-- ===== src/Engine/Cluster/Reporting.antt =====
-- emitClusterTaskEvents of engine.go, and droppedClusterResultNames of pipeline_results.go: what is
-- reported once a pipeline backend has answered. Times and display names are left out.
use tkn_act.Base.{
  ℕ, zero, suc, String, Bool, false, not, ltb, ◌==◌, Option, none, some, List, [], ◌∷◌, ◌++◌,
  if◌then◌else◌, map, keep, each, mem, Map, lookup, keys,
}
use tkn_act.Base.Order.{sort}
use tkn_act.Tekton.{MatrixInfo, Kube, PipelineResultSpec, PipelineTask, Pipeline}
use tkn_act.Engine.Outcome.{Status, text, Event, task_start, task_retry, task_end}

pub record RetryAttempt : Type 0 where
  pub attempt : ℕ
  pub status : Status
  pub message : String

pub record TaskOutcomeOnCluster : Type 0 where
  pub status : Status
  pub message : String
  pub results : Option (Map String)
  pub attempts : ℕ
  pub retry_attempts : List RetryAttempt
  pub matrix : Option MatrixInfo

abbrev pub retry_event : String → RetryAttempt → Event
retry_event key r = task_retry key r.status (text r.message) r.attempt

abbrev pub at_least_one : ℕ → ℕ
at_least_one zero = 1
at_least_one (suc n) = suc n

-- emitOne
unfoldable pub emit_one : String × TaskOutcomeOnCluster → List Event
emit_one (key, oc) =
    task_start key
    ∷ (map (retry_event key) oc.retry_attempts
        ++ task_end key oc.status (text oc.message) (at_least_one oc.attempts) ∷ [])

abbrev pub is_row_of : String → String × TaskOutcomeOnCluster → Bool
is_row_of parent (key, oc) = elim oc.matrix [ none ↦ false | some info ↦ info.parent == parent ]

abbrev pub row_index : String × TaskOutcomeOnCluster → ℕ
row_index (key, oc) = elim oc.matrix [ none ↦ 0 | some info ↦ info.index ]

-- sort.Slice by the index of the row
unfoldable pub insert_row :
    String × TaskOutcomeOnCluster → Map TaskOutcomeOnCluster → Map TaskOutcomeOnCluster
insert_row x [] = x ∷ []
insert_row x (y ∷ ys) =
    let rest = insert_row x ys in if ltb (row_index y) (row_index x) then y ∷ rest else x ∷ y ∷ ys

unfoldable pub sort_rows : Map TaskOutcomeOnCluster → Map TaskOutcomeOnCluster
unfolding insert_row
sort_rows [] = []
sort_rows (x ∷ xs) = insert_row x (sort_rows xs)

module _ {k : Kube} where
  -- the outcomes of one pipeline task
  unfoldable pub outcomes_of : Map TaskOutcomeOnCluster → PipelineTask k → Map TaskOutcomeOnCluster
  unfolding sort_rows
  outcomes_of tasks pt = elim pt.matrix [
    | none ↦ elim (lookup pt.name tasks) [ none ↦ [] | some oc ↦ (pt.name, oc) ∷ [] ]
    | some m ↦ sort_rows (keep (is_row_of pt.name) tasks)
  ]

  unfoldable pub emit_cluster_task_events : Pipeline k → Map TaskOutcomeOnCluster → List Event
  unfolding emit_one outcomes_of
  emit_cluster_task_events pl tasks =
      each emit_one (each (outcomes_of tasks) (pl.tasks ++ pl.finally))

  -- nil and an empty list are the same to its caller
  unfoldable pub dropped_cluster_result_names {ℓ} : {V : Type ℓ} → Pipeline k → Map V → List String
  unfolding sort
  dropped_cluster_result_names pl produced = sort (
      keep (λ n. not (mem n (keys produced)))
        (map (λ (spec : PipelineResultSpec). spec.name) pl.results))
