-- ===== src/Validator/Graphs.antt =====
-- When rule 4 of validator.go accepts the main tasks of a pipeline.
mod Wired
use tkn_act.Base.{
  ℕ, ◌<◌, String, ◌≡◌, refl, sym, ap, ◌∙◌, ◌↔◌, Bool, true, not, ◌&&◌, ◌||◌, arith, eq_iff, ◌==◌,
  List, [], ◌∷◌, ◌++◌, if◌then◌else◌, ltb, mem, all, all_of_mem, any, each, report, Distinct,
  Bool-cases, inl, inr, Result, ok, err, subst,
}
use tkn_act.Dag.{Graph, new, succs, add_node, add_edge, levels, is_empty, DagError}
use tkn_act.Dag.Build.{
  IsMirrored, add_edge-IsMirrored, HasNoEdge, new-HasNoEdge, add_node-HasNoEdge, add_node-nodes,
  add_edge-nodes, mem-succs-add_edge,
}
use tkn_act.Dag.Levels.Checks.{IsClosed}
use tkn_act.Dag.Levels.Rounds.{Grouped}
use tkn_act.Dag.Levels.Ranks.{level_of, level_of_grows}
use tkn_act.Dag.Levels.Verdicts.{levels-IsRight, levels_acyclic, IsRight}
use tkn_act.Tekton.{Kube, PipelineTask}
use tkn_act.Validator.Errors.{Invalid, duplicate_task, unknown_run_after}
use tkn_act.Validator.Names.{
  names_of, duplicates, node_graph, edge_to, edge_graph, run_after_errors, run_after_graph,
  check_graph, level_errors,
}
use tkn_act.Validator.Graphs.Wired.{
  edge_to-IsMirrored, edge_to-nodes, mem-succs-edge_to, all_intro, all_fresh, level_errors_nil,
  duplicates_sound, duplicates_complete, node_graph-HasNoEdge, node_graph-nodes,
  edge_graph-IsMirrored, edge_graph-nodes, runs_after, mem-succs-edge_graph,
  run_after_graph-IsMirrored, run_after_graph-nodes, run_after_graph-succs,
}
use tkn_act.Validator.Clean.{
  is_empty-append, is_empty_iff, is_empty-report, is_empty-each, all_congr, append_nil, nil_append,
}

module _ {k : Kube} where
  -- Each name that `runAfter` gives is one of the list.
  abbrev pub Known : List String → List (PipelineTask k) → Type 0
  Known main pts = all (λ pt. all (λ dep. mem dep main) pt.run_after) pts ≡ true

  -- Each task has a higher rank than those it runs after.
  abbrev pub Ordered : (String → ℕ) → List (PipelineTask k) → Type 0
  Ordered rank pts = all (λ pt. all (λ dep. ltb (rank dep) (rank pt.name)) pt.run_after) pts ≡ true

  pub record IsSound (pts : List (PipelineTask k)) : Type 0 where
    pub unique : Distinct (names_of pts)
    pub known : Known (names_of pts) pts
    pub rank : String → ℕ
    pub ordered : Ordered rank pts

  is_empty-run_after_errors :
      (main : List String) (pts : List (PipelineTask k))
      → is_empty (run_after_errors main pts)
        ≡ all (λ pt. all (λ dep. mem dep main) pt.run_after) pts
  unfolding run_after_errors
  is_empty-run_after_errors main pts =
      is_empty-each
        (λ (pt : PipelineTask k).
          each (λ dep. report (not (mem dep main)) (unknown_run_after pt.name dep)) pt.run_after)
        pts
      ∙ all_congr _ _ pts (λ pt.
        is_empty-each (λ dep. report (not (mem dep main)) (unknown_run_after pt.name dep))
          pt.run_after
        ∙ all_congr _ _ pt.run_after (λ dep.
          ground (arith, is_empty-report (not (mem dep main)) (unknown_run_after pt.name dep))))

  Ordered-of_grows :
      (main : List String) (rank : String → ℕ) (pts : List (PipelineTask k))
      → ((u v : String) → runs_after main u v pts ≡ true → rank u < rank v)
      → Known main pts
      → Ordered rank pts
  Ordered-of_grows main rank [] h known = refl
  Ordered-of_grows main rank (pt ∷ pts) h known =
      let later =
        Ordered-of_grows main rank pts (λ u v m. h u v (ground (arith, m)))
          (ground (arith, known)) in
      let here =
        all_intro (λ dep. ltb (rank dep) (rank pt.name)) pt.run_after
          (λ dep m. ground (
            arith,
            h dep pt.name,
            eq_iff pt.name pt.name,
            all_of_mem (λ d. mem d main) pt.run_after dep,
            known,
          )) in
      ground (arith, later, here)

  grows_of_Ordered :
      (main : List String) (rank : String → ℕ) (pts : List (PipelineTask k)) (u v : String)
      → Ordered rank pts
      → runs_after main u v pts ≡ true
      → (rank u < rank v) × (mem u main ≡ true) × (mem v (names_of pts) ≡ true)
  grows_of_Ordered main rank [] u v h m = absurd (cc)
  grows_of_Ordered main rank (pt ∷ pts) u v h m = ground (
    arith,
    grows_of_Ordered main rank pts u v,
    all_of_mem (λ dep. ltb (rank dep) (rank pt.name)) pt.run_after u,
    eq_iff pt.name v,
  )

  named :
      (main : List String) (u v : String) (pts : List (PipelineTask k))
      → runs_after main u v pts ≡ true
      → mem v (names_of pts) ≡ true
  named main u v [] m = absurd (cc)
  named main u v (pt ∷ pts) m = ground (arith, named main u v pts)

  check_graph-IsSound : (pts : List (PipelineTask k)) → check_graph pts ≡ [] → IsSound pts
  unfolding check_graph
  check_graph-IsSound pts h =
      let g = run_after_graph pts in
      let main = names_of pts in
      let mir = run_after_graph-IsMirrored pts in
      let (names_clean, rest) =
        append_nil (duplicates duplicate_task [] pts)
          (run_after_errors main pts ++ level_errors (levels g)) h in
      let (edges_clean, levels_clean) =
        append_nil (run_after_errors main pts) (level_errors (levels g)) rest in
      let (ls, e) = level_errors_nil (levels g) levels_clean in
      let grouped : Grouped g [] g.nodes ls = subst (IsRight g) e (levels-IsRight g mir) in
      let known : Known main pts =
        sym (is_empty-run_after_errors main pts)
        ∙ (is_empty_iff (run_after_errors main pts)).1 edges_clean in
      record {
        unique = (duplicates_sound duplicate_task [] pts ((is_empty_iff _).1 names_clean)).0;
        known = known;
        rank = level_of ls;
        ordered =
            Ordered-of_grows main (level_of ls) pts
              (λ u v m.
                level_of_grows g [] ls u v grouped.layered
                  (grouped.covers v ∙ run_after_graph-nodes pts v ∙ named main u v pts m)
                  (sym (mir.mirrored u v) ∙ run_after_graph-succs pts u v ∙ m) refl)
              known;
      }

  check_graph-nil : (pts : List (PipelineTask k)) → IsSound pts → check_graph pts ≡ []
  unfolding check_graph
  check_graph-nil pts s =
      let g = run_after_graph pts in
      let main = names_of pts in
      let mir = run_after_graph-IsMirrored pts in
      let grows = λ (u v : String) (m : mem v (succs g u) ≡ true).
        grows_of_Ordered main s.rank pts u v s.ordered (sym (run_after_graph-succs pts u v) ∙ m) in
      let closed : IsClosed g = record {
        known = λ u v m. (
          run_after_graph-nodes pts u ∙ (grows u v m).1,
          run_after_graph-nodes pts v ∙ (grows u v m).2,
        );
      } in
      let (ls, e, _) = levels_acyclic g s.rank mir closed (λ u v m. (grows u v m).0) in
      nil_append (duplicates duplicate_task [] pts)
        (run_after_errors main pts ++ level_errors (levels g))
        ((is_empty_iff _).0 (duplicates_complete duplicate_task [] pts s.unique (all_fresh main)))
        (nil_append (run_after_errors main pts) (level_errors (levels g))
          ((is_empty_iff _).0 (is_empty-run_after_errors main pts ∙ s.known)) (ap level_errors e))

  -- Rule 4 accepts the main tasks exactly when their names differ, each name in a `runAfter` is one
  -- of theirs, and some rank puts every task above those that it runs after.
  pub check_graph_iff : (pts : List (PipelineTask k)) → (check_graph pts ≡ []) ↔ IsSound pts
  check_graph_iff pts = (check_graph-IsSound pts, check_graph-nil pts)
