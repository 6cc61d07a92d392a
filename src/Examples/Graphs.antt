-- ===== src/Examples/Graphs.antt =====
-- A graph of three tasks, and a cycle.
use tkn_act.Base.{
  ℕ, zero, suc, ◌+◌, ◌≤◌, ◌<◌, String, ◌≡◌, ◌≢◌, refl, ◌∙◌, sym, subst, Bool, true, false, ◌&&◌,
  ◌||◌, arith, ◌==◌, eq_iff, Option, none, some, List, [], ◌∷◌, Map, mem, add, lookup, insert,
  or_else, Result, ok, err, if◌then◌else◌, ◌↔◌, ◌⊎◌, inl, inr,
}
use tkn_act.Dag.{Graph, new, succs, add_node, add_edge, with_member, levels, descendants}
use tkn_act.Dag.Build.{IsMirrored, new-HasNoEdge, add_node-HasNoEdge, add_edge-IsMirrored}
use tkn_act.Dag.Levels.Checks.{IsClosed}
use tkn_act.Dag.Levels.Rounds.{Grouped}
use tkn_act.Dag.Levels.Verdicts.{IsRight, levels-IsRight, levels_acyclic}
use tkn_act.Dag.Reach.{Reaches, descendants-Reaches}

abbrev three : Graph
three = add_node "c" (add_node "b" (add_node "a" new))

abbrev chain : Graph
chain = add_edge "b" "c" (add_edge "a" "b" three)

abbrev cycle : Graph
cycle = add_edge "c" "a" chain

chain-IsMirrored : IsMirrored chain
chain-IsMirrored = add_edge-IsMirrored "b" "c" (add_edge "a" "b" three) (
    add_edge-IsMirrored "a" "b" three
      (add_node-HasNoEdge "c" (add_node "b" (add_node "a" new)) (
        add_node-HasNoEdge "b" (add_node "a" new)
          (add_node-HasNoEdge "a" new new-HasNoEdge))).mirrored)

abbrev rank : String → ℕ
rank n = if n == "a" then 0 else if n == "b" then 1 else 2

chain-IsClosed : IsClosed chain
unfolding add_node add_edge with_member add tkn_act.Base.lookup insert
chain-IsClosed = record {
  known =
      λ u v m. ground (arith, eq_iff "a" u, eq_iff "b" u, eq_iff "b" v, eq_iff "c" v, eq_iff "c" u);
}

chain_edges :
    (u v : String)
    → mem v (succs chain u) ≡ true
    → ((u ≡ "a") × (v ≡ "b")) ⊎ ((u ≡ "b") × (v ≡ "c"))
unfolding add_node add_edge with_member add tkn_act.Base.lookup insert
chain_edges u v m =
    ground (arith, eq_iff "a" u, eq_iff "b" u, eq_iff "b" v, eq_iff "c" v, eq_iff "c" u)

chain_goes_up : (u v : String) → mem v (succs chain u) ≡ true → rank u < rank v
chain_goes_up u v m = elim (chain_edges u v m) [
  | inl (a, b) ↦ rw (a, b) (omega arith)
  | inr (b, c) ↦ rw (b, c) (omega arith)
]

levels_acyclic_example :
    (ls : List (List String)) × (levels chain ≡ ok ls) × Grouped chain [] chain.nodes ls
levels_acyclic_example = levels_acyclic chain rank chain-IsMirrored chain-IsClosed chain_goes_up

levels-IsRight_example : IsRight cycle (levels cycle)
levels-IsRight_example = levels-IsRight cycle (add_edge-IsMirrored "c" "a" chain chain-IsMirrored)

descendants-Reaches_example :
    (found : List String) × (descendants cycle "a" ≡ some found)
    × ((v : String) → (mem v found ≡ true) ↔ ∥ Reaches cycle "a" v ∥₁)
descendants-Reaches_example = descendants-Reaches cycle "a"
