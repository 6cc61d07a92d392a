-- ===== src/Validator/Names.antt =====
-- validator.go, rules 1 to 5: references to tasks, params and workspaces that must be given, and the
-- graph of the main tasks.
use tkn_act.Base.{
  String, Bool, not, ◌&&◌, Option, none, some, List, [], ◌∷◌, ◌++◌, if◌then◌else◌, ◌==◌, map, mem,
  each, report, Map, lookup, insert, is_some, Result, ok, err,
}
use tkn_act.Tekton.{
  Kube, ParamSpec, Param, Matrix, MatrixInclude, WorkspaceDecl, WorkspaceBinding, TaskSpec,
  PipelineTask, StepAction, Pipeline,
}
use tkn_act.Dag.{Graph, DagError, new, add_node, add_edge, levels}
use tkn_act.Validator.Errors.{
  Invalid, both_ref_and_spec, unknown_task, no_ref_or_spec, missing_pipeline_param,
  missing_task_param, missing_workspace, undeclared_workspace, duplicate_task, duplicate_finally,
  collides_with_main, unknown_run_after, not_a_dag,
}

-- internal/loader/loader.go: the objects by name. `raw_steps` is what `loadRawSteps` reads from a
-- task's YAML: for each step, whether its `ref` block has one of the keys of a resolver.
pub record Bundle (k : Kube) : Type 0 where
  pub tasks : Map (TaskSpec k)
  pub pipelines : Map (Pipeline k)
  pub step_actions : Map (StepAction k)
  pub raw_steps : Map (List Bool)

-- `resolvedTasks`, whose keys in order are `resolvedOrder`, `inlineSpec`, and the errors
pub record Resolved (k : Kube) : Type 0 where
  pub specs : Map (TaskSpec k)
  pub inlined : List String
  pub errors : List Invalid

abbrev pub names_of : {k : Kube} → List (PipelineTask k) → List String
names_of pts = map (λ pt. pt.name) pts

abbrev pub matrix_names : Option Matrix → List String
matrix_names none = []
matrix_names (some m) =
    map (λ mp. mp.name) m.params
    ++ each (λ (inc : MatrixInclude). map (λ (p : Param). p.name) inc.params) m.includes

abbrev workspace_map : List WorkspaceBinding → Map String → Map String
workspace_map [] m = m
workspace_map (w ∷ ws) m = workspace_map ws (insert w.name w.workspace m)

unfoldable pub edge_to : List String → String → List String → Graph → Graph
edge_to main name [] g = g
edge_to main name (dep ∷ deps) g =
    edge_to main name deps (if mem dep main then add_edge dep name g else g)

abbrev pub level_errors : Result DagError (List (List String)) → List Invalid
level_errors (ok _) = []
level_errors (err e) = not_a_dag e ∷ []

module _ {k : Kube} where
  abbrev pub all_tasks : Pipeline k → List (PipelineTask k)
  all_tasks pl = pl.tasks ++ pl.finally

  -- rule 1
  unfoldable pub resolve_task : Bundle k → PipelineTask k → Resolved k → Resolved k
  resolve_task b pt r = elim pt.task_ref [
    | some ref ↦ elim pt.task_spec [
      | some _ ↦ record r { errors = r.errors ++ both_ref_and_spec pt.name ∷ [] }
      | none ↦ if not (ref.resolver == "") then r else (elim (lookup ref.name b.tasks) [
        | none ↦ record r { errors = r.errors ++ unknown_task pt.name ∷ [] }
        | some spec ↦ record r { specs = insert pt.name spec r.specs }
      ])
    ]
    | none ↦ elim pt.task_spec [
      | some spec ↦ record r { specs = insert pt.name spec r.specs; inlined = pt.name ∷ r.inlined }
      | none ↦ record r { errors = r.errors ++ no_ref_or_spec pt.name ∷ [] }
    ]
  ]

  unfoldable pub resolve_tasks : Bundle k → List (PipelineTask k) → Resolved k → Resolved k
  unfolding resolve_task
  resolve_tasks b [] r = r
  resolve_tasks b (pt ∷ pts) r = resolve_tasks b pts (resolve_task b pt r)

  -- rule 1b; none is a caller that does not know which params will be given
  unfoldable pub check_provided : String → Option (List String) → Pipeline k → List Invalid
  check_provided name none pl = []
  check_provided name (some provided) pl =
      each
        (λ (d : ParamSpec).
          report (not (is_some d.default) && not (mem d.name provided))
            (missing_pipeline_param name d.name))
        pl.params

  abbrev pub bound_params : PipelineTask k → List String
  bound_params pt = map (λ (p : Param). p.name) pt.params ++ matrix_names pt.matrix

  -- rule 2
  unfoldable pub check_bound : Map (TaskSpec k) → List (PipelineTask k) → List Invalid
  check_bound specs pts =
      each
        (λ (pt : PipelineTask k). elim (lookup pt.name specs) [
          | none ↦ []
          | some spec ↦
              each
                (λ (d : ParamSpec).
                  report (not (is_some d.default) && not (mem d.name (bound_params pt)))
                    (missing_task_param pt.name d.name))
                spec.params
        ])
        pts

  -- rule 3
  unfoldable pub check_workspaces :
      List String → Map (TaskSpec k) → List (PipelineTask k) → List Invalid
  check_workspaces declared specs pts =
      each
        (λ (pt : PipelineTask k). elim (lookup pt.name specs) [
          | none ↦ []
          | some spec ↦
              each
                (λ (d : WorkspaceDecl).
                  if d.optional
                  then []
                  else (elim (lookup d.name (workspace_map pt.workspaces [])) [
                    | none ↦ missing_workspace pt.name d.name ∷ []
                    | some w ↦ report (not (mem w declared)) (undeclared_workspace pt.name d.name w)
                  ]))
                spec.workspaces
        ])
        pts

  -- rule 4: the nodes, then the edges of `runAfter`
  unfoldable pub duplicates :
      (String → Invalid) → List String → List (PipelineTask k) → List Invalid
  duplicates bad seen [] = []
  duplicates bad seen (pt ∷ pts) =
      report (mem pt.name seen) (bad pt.name) ++ duplicates bad (pt.name ∷ seen) pts

  unfoldable pub node_graph : List (PipelineTask k) → Graph → Graph
  node_graph [] g = g
  node_graph (pt ∷ pts) g = node_graph pts (add_node pt.name g)

  unfoldable pub edge_graph : List String → List (PipelineTask k) → Graph → Graph
  unfolding edge_to
  edge_graph main [] g = g
  edge_graph main (pt ∷ pts) g = edge_graph main pts (edge_to main pt.name pt.run_after g)

  unfoldable pub run_after_errors : List String → List (PipelineTask k) → List Invalid
  run_after_errors main pts =
      each
        (λ (pt : PipelineTask k).
          each (λ dep. report (not (mem dep main)) (unknown_run_after pt.name dep)) pt.run_after)
        pts

  unfoldable pub run_after_graph : List (PipelineTask k) → Graph
  unfolding node_graph edge_graph
  run_after_graph pts = edge_graph (names_of pts) pts (node_graph pts new)

  unfoldable pub check_graph : List (PipelineTask k) → List Invalid
  unfolding duplicates run_after_errors run_after_graph
  check_graph pts =
      duplicates duplicate_task [] pts
      ++ (run_after_errors (names_of pts) pts ++ level_errors (levels (run_after_graph pts)))

  -- rule 5
  unfoldable pub check_finally : List String → List String → List (PipelineTask k) → List Invalid
  check_finally main seen [] = []
  check_finally main seen (pt ∷ pts) =
      report (mem pt.name main) (collides_with_main pt.name)
      ++ report (mem pt.name seen) (duplicate_finally pt.name)
      ++ check_finally main (pt.name ∷ seen) pts
