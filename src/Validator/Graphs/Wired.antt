-- ===== src/Validator/Graphs/Wired.antt =====
-- The graph that rule 4 of validator.go builds, and the names that it looks at.
use tkn_act.Base.{
  String, ◌≡◌, refl, ap, ◌∙◌, Bool, true, not, ◌&&◌, ◌||◌, arith, eq_iff, ◌==◌, List, [], ◌∷◌,
  if◌then◌else◌, mem, all, any, report, Distinct, Bool-cases, inl, inr, Result, ok, err,
}
use tkn_act.Dag.{Graph, new, succs, add_node, add_edge, is_empty, DagError}
use tkn_act.Dag.Build.{
  IsMirrored, add_edge-IsMirrored, HasNoEdge, new-HasNoEdge, add_node-HasNoEdge, add_node-nodes,
  add_edge-nodes, mem-succs-add_edge,
}
use tkn_act.Tekton.{Kube, PipelineTask}
use tkn_act.Validator.Errors.{Invalid}
use tkn_act.Validator.Names.{
  names_of, duplicates, node_graph, edge_to, edge_graph, run_after_graph, level_errors,
}
use tkn_act.Validator.Clean.{all_not-cons, is_empty-append, is_empty-report}

pub edge_to-IsMirrored :
    (main : List String) (name : String) (deps : List String) (g : Graph)
    → IsMirrored g
    → IsMirrored (edge_to main name deps g)
unfolding edge_to
edge_to-IsMirrored main name [] g h = h
edge_to-IsMirrored main name (d ∷ ds) g h = elim (Bool-cases (mem d main)) [
  | inl m ↦
      rw (m, edge_to)
        (edge_to-IsMirrored main name ds (add_edge d name g) (add_edge-IsMirrored d name g h))
  | inr m ↦ rw (m, edge_to) (edge_to-IsMirrored main name ds g h)
]

pub edge_to-nodes :
    (main : List String) (name : String) (deps : List String) (g : Graph)
    → (edge_to main name deps g).nodes ≡ g.nodes
unfolding edge_to
edge_to-nodes main name [] g = refl
edge_to-nodes main name (d ∷ ds) g =
    edge_to-nodes main name ds (if mem d main then add_edge d name g else g)
    ∙ ground (arith, add_edge-nodes d name g)

pub mem-succs-edge_to :
    (main : List String) (name : String) (deps : List String) (g : Graph) (u v : String)
    → mem v (succs (edge_to main name deps g) u)
      ≡ (mem v (succs g u) || name == v && mem u deps && mem u main)
unfolding edge_to
mem-succs-edge_to main name [] g u v = ground arith
mem-succs-edge_to main name (d ∷ ds) g u v =
    mem-succs-edge_to main name ds (if mem d main then add_edge d name g else g) u v
    ∙ ground (arith, mem-succs-add_edge d name u v g, eq_iff d u)

pub all_intro :
    (p : String → Bool) (xs : List String)
    → ((x : String) → mem x xs ≡ true → p x ≡ true)
    → all p xs ≡ true
all_intro p [] h = refl
all_intro p (x ∷ xs) h =
    let later = all_intro p xs (λ y m. h y (ground (arith, m))) in
    ground (arith, later, h x, eq_iff x x)

pub all_fresh : (ns : List String) → all (λ n. not (mem n [])) ns ≡ true
all_fresh [] = refl
all_fresh (n ∷ ns) = all_fresh ns

pub level_errors_nil :
    (r : Result DagError (List (List String)))
    → level_errors r ≡ []
    → (ls : List (List String)) × (r ≡ ok ls)
level_errors_nil (ok ls) h = (ls, refl)
level_errors_nil (err e) h = absurd (cc)

module _ {k : Kube} where
  pub duplicates_sound :
      (bad : String → Invalid) (seen : List String) (pts : List (PipelineTask k))
      → is_empty (duplicates bad seen pts) ≡ true
      → Distinct (names_of pts) × (all (λ n. not (mem n seen)) (names_of pts) ≡ true)
  unfolding duplicates
  duplicates_sound bad seen [] h = (tt, refl)
  duplicates_sound bad seen (pt ∷ pts) h = ground (
    arith,
    is_empty-append (report (mem pt.name seen) (bad pt.name)) (duplicates bad (pt.name ∷ seen) pts),
    is_empty-report (mem pt.name seen) (bad pt.name),
    duplicates_sound bad (pt.name ∷ seen) pts,
    all_not-cons pt.name seen (names_of pts),
  )

  pub duplicates_complete :
      (bad : String → Invalid) (seen : List String) (pts : List (PipelineTask k))
      → Distinct (names_of pts)
      → all (λ n. not (mem n seen)) (names_of pts) ≡ true
      → is_empty (duplicates bad seen pts) ≡ true
  unfolding duplicates
  duplicates_complete bad seen [] d h = refl
  duplicates_complete bad seen (pt ∷ pts) d h = ground (
    arith,
    is_empty-append (report (mem pt.name seen) (bad pt.name)) (duplicates bad (pt.name ∷ seen) pts),
    is_empty-report (mem pt.name seen) (bad pt.name),
    duplicates_complete bad (pt.name ∷ seen) pts d.1,
    all_not-cons pt.name seen (names_of pts),
  )

  pub node_graph-HasNoEdge :
      (pts : List (PipelineTask k)) (g : Graph) → HasNoEdge g → HasNoEdge (node_graph pts g)
  unfolding node_graph
  node_graph-HasNoEdge [] g h = h
  node_graph-HasNoEdge (pt ∷ pts) g h =
      node_graph-HasNoEdge pts (add_node pt.name g) (add_node-HasNoEdge pt.name g h)

  pub node_graph-nodes :
      (pts : List (PipelineTask k)) (g : Graph) (x : String)
      → mem x (node_graph pts g).nodes ≡ (mem x g.nodes || mem x (names_of pts))
  unfolding node_graph
  node_graph-nodes [] g x = ground arith
  node_graph-nodes (pt ∷ pts) g x =
      ground (arith, node_graph-nodes pts (add_node pt.name g) x, add_node-nodes pt.name x g)

  pub edge_graph-IsMirrored :
      (main : List String) (pts : List (PipelineTask k)) (g : Graph)
      → IsMirrored g
      → IsMirrored (edge_graph main pts g)
  unfolding edge_graph
  edge_graph-IsMirrored main [] g h = h
  edge_graph-IsMirrored main (pt ∷ pts) g h =
      edge_graph-IsMirrored main pts (edge_to main pt.name pt.run_after g)
        (edge_to-IsMirrored main pt.name pt.run_after g h)

  pub edge_graph-nodes :
      (main : List String) (pts : List (PipelineTask k)) (g : Graph)
      → (edge_graph main pts g).nodes ≡ g.nodes
  unfolding edge_graph
  edge_graph-nodes main [] g = refl
  edge_graph-nodes main (pt ∷ pts) g =
      edge_graph-nodes main pts (edge_to main pt.name pt.run_after g)
      ∙ edge_to-nodes main pt.name pt.run_after g

  -- Some task of the name runs after the other one, which is a main task.
  abbrev pub runs_after : List String → String → String → List (PipelineTask k) → Bool
  runs_after main u v pts = any (λ pt. pt.name == v && mem u pt.run_after && mem u main) pts

  pub mem-succs-edge_graph :
      (main : List String) (pts : List (PipelineTask k)) (g : Graph) (u v : String)
      → mem v (succs (edge_graph main pts g) u) ≡ (mem v (succs g u) || runs_after main u v pts)
  unfolding edge_graph
  mem-succs-edge_graph main [] g u v = ground arith
  mem-succs-edge_graph main (pt ∷ pts) g u v =
      mem-succs-edge_graph main pts (edge_to main pt.name pt.run_after g) u v
      ∙ ground (arith, mem-succs-edge_to main pt.name pt.run_after g u v)

  pub run_after_graph-IsMirrored : (pts : List (PipelineTask k)) → IsMirrored (run_after_graph pts)
  unfolding run_after_graph
  run_after_graph-IsMirrored pts =
      edge_graph-IsMirrored (names_of pts) pts (node_graph pts new)
        (node_graph-HasNoEdge pts new new-HasNoEdge).mirrored

  pub run_after_graph-nodes :
      (pts : List (PipelineTask k)) (x : String)
      → mem x (run_after_graph pts).nodes ≡ mem x (names_of pts)
  unfolding run_after_graph
  run_after_graph-nodes pts x =
      ap (mem x) (edge_graph-nodes (names_of pts) pts (node_graph pts new))
      ∙ node_graph-nodes pts new x

  pub run_after_graph-succs :
      (pts : List (PipelineTask k)) (u v : String)
      → mem v (succs (run_after_graph pts) u) ≡ runs_after (names_of pts) u v pts
  unfolding run_after_graph
  run_after_graph-succs pts u v =
      mem-succs-edge_graph (names_of pts) pts (node_graph pts new) u v
      ∙ ground (arith, (node_graph-HasNoEdge pts new new-HasNoEdge).succs_nil u)
