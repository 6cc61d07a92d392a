-- ===== src/Engine/Run/Wiring.antt =====
-- The graph and the table of main tasks that `RunPipeline` builds fit together.
use tkn_act.Base.{
  String, ◌≡◌, refl, ◌∙◌, ◌||◌, arith, ◌==◌, eq_iff, some, List, [], ◌∷◌, map, Map, lookup, insert,
  lookup-insert, is_some, mem, Bool-cases, Option-cases, inl, inr,
}
use tkn_act.Dag.{Graph, new, add_node, add_edge}
use tkn_act.Dag.Build.{
  IsMirrored, add_edge-IsMirrored, HasNoEdge, new-HasNoEdge, add_node-HasNoEdge, add_node-nodes,
  add_edge-nodes,
}
use tkn_act.Tekton.{Kube, PipelineTask}
use tkn_act.Engine.References.{implicit_param_edges}
use tkn_act.Engine.Run.{
  add_run_after, producers, add_nodes, main_of, same_matrix_parent, add_ref_edges, add_edges,
  build_graph,
}

add_run_after-IsMirrored :
    (name : String) (deps : List String) (g : Graph)
    → IsMirrored g
    → IsMirrored (add_run_after name deps g)
unfolding add_run_after
add_run_after-IsMirrored name [] g h = h
add_run_after-IsMirrored name (d ∷ ds) g h =
    add_run_after-IsMirrored name ds (add_edge d name g) (add_edge-IsMirrored d name g h)

add_run_after-nodes :
    (name : String) (deps : List String) (g : Graph) → (add_run_after name deps g).nodes ≡ g.nodes
unfolding add_run_after
add_run_after-nodes name [] g = refl
add_run_after-nodes name (d ∷ ds) g =
    add_run_after-nodes name ds (add_edge d name g) ∙ add_edge-nodes d name g

module _ {k : Kube} where
  abbrev names : List (PipelineTask k) → List String
  names = map (λ pt. pt.name)

  add_nodes-HasNoEdge :
      (pts : List (PipelineTask k)) (g : Graph) → HasNoEdge g → HasNoEdge (add_nodes pts g)
  unfolding add_nodes
  add_nodes-HasNoEdge [] g h = h
  add_nodes-HasNoEdge (pt ∷ pts) g h =
      add_nodes-HasNoEdge pts (add_node pt.name g) (add_node-HasNoEdge pt.name g h)

  add_nodes-nodes :
      (pts : List (PipelineTask k)) (g : Graph) (x : String)
      → mem x (add_nodes pts g).nodes ≡ (mem x g.nodes || mem x (names pts))
  unfolding add_nodes
  add_nodes-nodes [] g x = ground arith
  add_nodes-nodes (pt ∷ pts) g x =
      ground (arith, add_nodes-nodes pts (add_node pt.name g) x, add_node-nodes pt.name x g)

  add_ref_edges-IsMirrored :
      (main : Map (PipelineTask k)) (pt : PipelineTask k) (deps : List String) (g : Graph)
      → IsMirrored g
      → IsMirrored (add_ref_edges main pt deps g)
  unfolding add_ref_edges
  add_ref_edges-IsMirrored main pt [] g h = h
  add_ref_edges-IsMirrored main pt (d ∷ ds) g h = elim (Option-cases (lookup d main)) [
    | inl n ↦ rw (add_ref_edges, n) (add_ref_edges-IsMirrored main pt ds g h)
    | inr (up, f) ↦ elim (Bool-cases (d == pt.name || same_matrix_parent up pt)) [
      | inl s ↦ rw (add_ref_edges, f, s) (add_ref_edges-IsMirrored main pt ds g h)
      | inr n ↦
          rw (add_ref_edges, f, n)
            (add_ref_edges-IsMirrored main pt ds (add_edge d pt.name g)
              (add_edge-IsMirrored d pt.name g h))
    ]
  ]

  add_ref_edges-nodes :
      (main : Map (PipelineTask k)) (pt : PipelineTask k) (deps : List String) (g : Graph)
      → (add_ref_edges main pt deps g).nodes ≡ g.nodes
  unfolding add_ref_edges
  add_ref_edges-nodes main pt [] g = refl
  add_ref_edges-nodes main pt (d ∷ ds) g = elim (Option-cases (lookup d main)) [
    | inl n ↦ rw (add_ref_edges, n) (add_ref_edges-nodes main pt ds g)
    | inr (up, f) ↦ elim (Bool-cases (d == pt.name || same_matrix_parent up pt)) [
      | inl s ↦ rw (add_ref_edges, f, s) (add_ref_edges-nodes main pt ds g)
      | inr n ↦
          rw (add_ref_edges, f, n)
            (add_ref_edges-nodes main pt ds (add_edge d pt.name g) ∙ add_edge-nodes d pt.name g)
    ]
  ]

  add_edges-IsMirrored :
      (main : Map (PipelineTask k)) (expansions : Map (List String)) (pts : List (PipelineTask k))
      (g : Graph)
      → IsMirrored g
      → IsMirrored (add_edges main expansions pts g)
  unfolding add_edges
  add_edges-IsMirrored main expansions [] g h = h
  add_edges-IsMirrored main expansions (pt ∷ pts) g h =
      let refs = producers expansions (implicit_param_edges pt) in
      let g' = add_run_after pt.name pt.run_after g in
      add_edges-IsMirrored main expansions pts (add_ref_edges main pt refs g') (
        add_ref_edges-IsMirrored main pt refs g'
          (add_run_after-IsMirrored pt.name pt.run_after g h))

  add_edges-nodes :
      (main : Map (PipelineTask k)) (expansions : Map (List String)) (pts : List (PipelineTask k))
      (g : Graph)
      → (add_edges main expansions pts g).nodes ≡ g.nodes
  unfolding add_edges
  add_edges-nodes main expansions [] g = refl
  add_edges-nodes main expansions (pt ∷ pts) g =
      let refs = producers expansions (implicit_param_edges pt) in
      let g' = add_run_after pt.name pt.run_after g in
      add_edges-nodes main expansions pts (add_ref_edges main pt refs g')
      ∙ add_ref_edges-nodes main pt refs g'
      ∙ add_run_after-nodes pt.name pt.run_after g

  main_of-named :
      (pts : List (PipelineTask k)) (m : Map (PipelineTask k))
      → ((t : String) (pt : PipelineTask k) → lookup t m ≡ some pt → pt.name ≡ t)
      → (t : String) (pt : PipelineTask k) → lookup t (main_of pts m) ≡ some pt
      → pt.name ≡ t
  unfolding main_of
  main_of-named [] m h t pt e = h t pt e
  main_of-named (q ∷ pts) m h t pt e =
      main_of-named pts (insert q.name q m)
        (λ t pt f. ground (arith, lookup-insert q.name t q m, h t pt, eq_iff q.name t)) t pt e

  main_of-keys :
      (pts : List (PipelineTask k)) (m : Map (PipelineTask k)) (t : String)
      → is_some (lookup t (main_of pts m)) ≡ (is_some (lookup t m) || mem t (names pts))
  unfolding main_of
  main_of-keys [] m t = ground arith
  main_of-keys (q ∷ pts) m t =
      ground (arith, main_of-keys pts (insert q.name q m) t, lookup-insert q.name t q m)

  -- Whatever tasks a pipeline declares, the graph that is built of them holds each edge in both of
  -- its tables and no edge twice, its nodes are the names of the tasks, each of which has an entry
  -- in the table of main tasks, and an entry stands under its task's own name.
  pub build_graph-fits :
      (expansions : Map (List String)) (pts : List (PipelineTask k))
      → IsMirrored (build_graph expansions pts)
        × ((t : String)
            → (mem t (build_graph expansions pts).nodes ≡ mem t (names pts))
              × (is_some (lookup t (main_of pts [])) ≡ mem t (names pts)))
        × ((t : String) (pt : PipelineTask k) → lookup t (main_of pts []) ≡ some pt → pt.name ≡ t)
  unfolding build_graph lookup
  build_graph-fits expansions pts = (
    add_edges-IsMirrored (main_of pts []) expansions pts (add_nodes pts new)
        (add_nodes-HasNoEdge pts new new-HasNoEdge).mirrored,
    λ t. (
      rw (add_edges-nodes (main_of pts []) expansions pts (add_nodes pts new))
          (add_nodes-nodes pts new t),
      main_of-keys pts [] t,
    ),
    main_of-named pts [] (λ t pt e. absurd (cc)),
  )
