-- ===== src/Dag/Levels/Checks.antt =====
-- The loop that validates the edges, and the table of in-degrees that `Levels` starts from.
use tkn_act.Base.{
  String, ◌≡◌, ◌∙◌, refl, Bool, true, none, arith, eq_iff, List, [], ◌∷◌, length, mem, Distinct,
  count_p, Map, keys, lookup, or_else, mem-keys,
}
use tkn_act.Base.Integers.{pos}
use tkn_act.Dag.{Graph, succs, preds, check_targets, check_edges, indegrees}
use tkn_act.Dag.Build.{IsMirrored}
use tkn_act.Dag.Counts.{tabulate, degree}

-- Every edge joins two nodes of the graph.
pub record IsClosed (g : Graph) : Type 0 where
  pub known :
      (u v : String) → mem v (succs g u) ≡ true → (mem u g.nodes ≡ true) × (mem v g.nodes ≡ true)

check_targets_sound :
    (g : Graph) (u v : String) (vs : List String)
    → check_targets g u vs ≡ none
    → mem v vs ≡ true
    → mem v g.nodes ≡ true
unfolding check_targets
check_targets_sound g u v [] h m = cc
check_targets_sound g u v (w ∷ vs) h m = ground (arith, check_targets_sound g u v vs, eq_iff w v)

-- A clean pass means that both ends of each edge in the table are nodes.
pub check_edges_sound :
    (g : Graph) (m : Map (List String)) (u v : String)
    → check_edges g m ≡ none
    → mem v (or_else (lookup u m) []) ≡ true
    → (mem u g.nodes ≡ true) × (mem v g.nodes ≡ true)
unfolding check_edges lookup
check_edges_sound g [] u v h e = ground arith
check_edges_sound g ((w, outs) ∷ m) u v h e =
    ground (arith, check_edges_sound g m u v, check_targets_sound g w v outs, eq_iff w u)

check_targets_complete :
    (g : Graph) (u : String) (vs : List String)
    → ((v : String) → mem v vs ≡ true → mem v g.nodes ≡ true)
    → check_targets g u vs ≡ none
unfolding check_targets
check_targets_complete g u [] h = refl
check_targets_complete g u (v ∷ vs) h =
    ground (arith, check_targets_complete g u vs (λ w m. h w (ground arith)), h v, eq_iff v v)

pub check_edges_complete :
    (g : Graph) (m : Map (List String))
    → Distinct (keys m)
    → ((u v : String)
        → mem v (or_else (lookup u m) []) ≡ true
        → (mem u g.nodes ≡ true) × (mem v g.nodes ≡ true))
    → check_edges g m ≡ none
unfolding check_edges lookup
check_edges_complete g [] d h = refl
check_edges_complete g ((w, []) ∷ m) d h = ground (
  arith,
  check_edges_complete g m d.1 (λ u v e. h u v (ground (arith, mem-keys u m, eq_iff w u))),
  check_targets_complete g w [] (λ v e. absurd (cc)),
)
check_edges_complete g ((w, x ∷ outs) ∷ m) d h = ground (
  arith,
  check_edges_complete g m d.1 (λ u v e. h u v (ground (arith, mem-keys u m, eq_iff w u))),
  check_targets_complete g w (x ∷ outs) (λ v e. (h w v (ground (arith, eq_iff w w))).1),
  h w x,
  eq_iff w w,
  eq_iff x x,
)

count_p_all :
    (p : String → Bool) (us : List String)
    → ((u : String) → mem u us ≡ true → p u ≡ true)
    → count_p p us ≡ length us
count_p_all p [] h = refl
count_p_all p (u ∷ us) h =
    ground (arith, count_p_all p us (λ w m. h w (ground arith)), h u, eq_iff u u)

-- In a closed graph all predecessors of a node are left at the start.
pub indegrees-eq-tabulate :
    (g : Graph) (ns : List String)
    → IsMirrored g
    → IsClosed g
    → indegrees g ns ≡ tabulate (λ n. pos (degree g g.nodes n)) ns
unfolding indegrees
indegrees-eq-tabulate g [] mir cl = refl
indegrees-eq-tabulate g (n ∷ ns) mir cl = cc (
  indegrees-eq-tabulate g ns mir cl,
  count_p_all (λ u. mem u g.nodes) (preds g n) (λ u m. (cl.known u n (mir.mirrored u n ∙ m)).0),
)
