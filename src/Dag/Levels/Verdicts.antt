-- ===== src/Dag/Levels/Verdicts.antt =====
-- What each verdict of `Levels` means, and when it is given.
use tkn_act.Base.{
  ℕ, zero, suc, ◌<◌, String, ◌≡◌, ◌∙◌, subst, not, lookup, keys, Distinct, mem-keys, eq_iff, true,
  false, ◌&&◌, none, some, arith, inl, inr, List, [], ◌∷◌, length, mem, mem_of_any, Result, ok, err,
  Option-cases, Bool-cases, Map,
}
use tkn_act.Dag.{
  Graph, is_empty, DagError, edge_from_unknown, edge_to_unknown, cycle_detected, out_of_fuel, succs,
  preds, check_targets, check_edges, indegrees, levels, levels_loop,
}
use tkn_act.Dag.Build.{IsMirrored}
use tkn_act.Dag.Levels.Checks.{
  IsClosed, check_edges_sound, check_edges_complete, indegrees-eq-tabulate,
}
use tkn_act.Dag.Levels.Rounds.{Grouped, IsStuck, Outcome, levels_loop-Outcome}

module _ (g : Graph) (mir : IsMirrored g) where
  IsClosed-of_clean : check_edges g g.out ≡ none → IsClosed g
  IsClosed-of_clean clean = record { known = λ u v m. check_edges_sound g g.out u v clean m }

  clean_of_closed : IsClosed g → check_edges g g.out ≡ none
  clean_of_closed cl = check_edges_complete g g.out mir.keys_distinct cl.known

  levels-edge_error : (e : DagError) → check_edges g g.out ≡ some e → levels g ≡ err e
  unfolding levels
  levels-edge_error e h = rw (h, levels)

  levels-clean :
      check_edges g g.out ≡ none → levels g ≡ levels_loop g (length g.nodes) (indegrees g g.nodes)
  unfolding levels
  levels-clean h = rw (h, levels)

  -- On a graph whose edges join known nodes there are two outcomes.
  pub levels-Outcome : IsClosed g → Outcome g [] g.nodes (levels g)
  levels-Outcome cl =
      rw (levels-clean (clean_of_closed cl), indegrees-eq-tabulate g g.nodes mir cl)
        (levels_loop-Outcome g mir cl (length g.nodes) [] g.nodes (λ x. ground arith)
          mir.nodes_distinct (omega arith))

-- What an error says of the graph.
abbrev pub Explains : Graph → DagError → Type 0
Explains g (edge_from_unknown u) = (mem u g.nodes ≡ false) × (is_empty (succs g u) ≡ false)
Explains g (edge_to_unknown u v) = (mem v g.nodes ≡ false) × (mem v (succs g u) ≡ true)
Explains g (cycle_detected c) = IsStuck g c
Explains g out_of_fuel = ⊥

check_targets-Explains :
    (g : Graph) (u : String) (vs : List String) (e : DagError)
    → check_targets g u vs ≡ some e
    → ((v : String) → mem v vs ≡ true → mem v (succs g u) ≡ true)
    → Explains g e
unfolding check_targets
check_targets-Explains g u [] e h sub = absurd (cc)
check_targets-Explains g u (v ∷ vs) e h sub = elim (Bool-cases (mem v g.nodes)) [
  | inl m ↦ check_targets-Explains g u vs e (ground arith) (λ w k. sub w (ground arith))
  | inr n ↦
      let same : edge_to_unknown u v ≡ e = ground arith in
      subst (Explains g) same (n, sub v (ground (arith, eq_iff v v)))
]

check_edges-Explains :
    (g : Graph) (m : Map (List String)) (e : DagError)
    → check_edges g m ≡ some e
    → Distinct (keys m)
    → ((u : String) (vs : List String) → lookup u m ≡ some vs → succs g u ≡ vs)
    → Explains g e
unfolding check_edges lookup
check_edges-Explains g [] e h d sub = absurd (cc)
check_edges-Explains g ((u, outs) ∷ m) e h d sub =
    elim (Bool-cases (not (mem u g.nodes) && not (is_empty outs))) [
      | inl b ↦
          let same : edge_from_unknown u ≡ e = ground arith in
          subst (Explains g) same (ground arith, ground (arith, sub u outs, eq_iff u u))
      | inr b ↦ elim (Option-cases (check_targets g u outs)) [
        | inl c ↦
            check_edges-Explains g m e (ground arith) d.1
              (λ w vs k. sub w vs (ground (arith, mem-keys w m, eq_iff u w)))
        | inr (e', c) ↦
            let same : e' ≡ e = ground arith in
            subst (Explains g) same
              (check_targets-Explains g u outs e' c (λ v k. ground (arith, sub u outs, eq_iff u u)))
      ]
    ]

abbrev pub IsRight : Graph → Result DagError (List (List String)) → Type 0
IsRight g (ok ls) = Grouped g [] g.nodes ls
IsRight g (err e) = Explains g e

-- Every verdict of `Levels` on a graph that the two tables agree on is right, and the loop never
-- runs out of rounds: the levels group the nodes, or the error names an edge that leaves the
-- graph or nodes that wait for one another.
pub levels-IsRight : (g : Graph) → IsMirrored g → IsRight g (levels g)
levels-IsRight g mir = elim (Option-cases (check_edges g g.out)) [
  | inr (e, h) ↦
      rw (levels-edge_error g mir e h)
        (check_edges-Explains g g.out e h mir.keys_distinct (λ u vs k. ground arith))
  | inl h ↦ elim (levels-Outcome g mir (IsClosed-of_clean g mir h)) [
    | inl (ls, r, grouped) ↦ rw r grouped
    | inr (c, r, stuck) ↦ rw r stuck
  ]
]

-- Along a rank that grows on each edge no nodes wait for one another.
not_stuck :
    (g : Graph) (c : List String) (rank : String → ℕ)
    → IsMirrored g
    → ((u v : String) → mem v (succs g u) ≡ true → rank u < rank v)
    → IsStuck g c
    → (n : ℕ) (x : String) → rank x < n
    → mem x c ≡ true
    → ⊥
not_stuck g c rank mir grows stuck zero x b m = elim b [ ]
not_stuck g c rank mir grows stuck (suc n) x b m =
    let (u, p, k) = mem_of_any (λ u. mem u c) (preds g x) (stuck.held x m) in
    not_stuck g c rank mir grows stuck n u (omega (arith, grows u x (mir.mirrored u x ∙ p))) k

-- A graph whose edges join its own nodes and go up along some rank has levels, in which each node
-- stands once, in the first level that comes after all of its dependencies.
pub levels_acyclic :
    (g : Graph) (rank : String → ℕ)
    → IsMirrored g
    → IsClosed g
    → ((u v : String) → mem v (succs g u) ≡ true → rank u < rank v)
    → (ls : List (List String)) × (levels g ≡ ok ls) × Grouped g [] g.nodes ls
levels_acyclic g rank mir cl grows = elim (levels-Outcome g mir cl) [
  | inl found ↦ found
  | inr (c, r, stuck) ↦
      let (x, m) = stuck.some_node in
      absurd (not_stuck g c rank mir grows stuck (suc (rank x)) x (omega arith) m)
]
