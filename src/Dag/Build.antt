-- ===== src/Dag/Build.antt =====
-- Graphs that `AddNode` and `AddEdge` build hold each edge in both of their tables.
use tkn_act.Base.{
  String, ◌≡◌, refl, ◌||◌, ◌&&◌, arith, ◌==◌, eq_iff, List, [], ◌∷◌, if◌then◌else◌, mem, mem-append,
  add, mem-add, add-Distinct, Distinct, Distinct-snoc, lookup, insert, lookup-insert, keys,
  keys-Distinct-insert, or_else,
}
use tkn_act.Dag.{Graph, new, succs, preds, add_node, add_edge, with_member}

-- Each edge stands in both tables, and no set holds a member twice.
pub record IsMirrored (g : Graph) : Type 0 where
  pub nodes_distinct : Distinct g.nodes
  pub keys_distinct : Distinct (keys g.out)
  pub succs_distinct : (u : String) → Distinct (succs g u)
  pub preds_distinct : (v : String) → Distinct (preds g v)
  pub mirrored : (u v : String) → mem v (succs g u) ≡ mem u (preds g v)

-- What an empty entry and a new member change, read through `m[k]`.
entry_empty :
    (n u : String) (m : List (String × List String))
    → or_else (lookup u (insert n [] m)) [] ≡ (if n == u then [] else or_else (lookup u m) [])
entry_empty n u m = ground (arith, lookup-insert n u [] m)

entry_member :
    (k a u : String) (m : List (String × List String))
    → or_else (lookup u (with_member k a m)) []
      ≡ (if k == u then add a (or_else (lookup k m) []) else or_else (lookup u m) [])
unfolding with_member
entry_member k a u m = ground (arith, lookup-insert k u (add a (or_else (lookup k m) [])) m)

pub new-IsMirrored : IsMirrored new
unfolding lookup
new-IsMirrored = record {
  nodes_distinct = tt;
  keys_distinct = tt;
  succs_distinct = λ u. tt;
  preds_distinct = λ v. tt;
  mirrored = λ u v. refl;
}

-- A node that no edge touches yet may be added.
pub add_node-IsMirrored :
    (n : String) (g : Graph)
    → succs g n ≡ []
    → preds g n ≡ []
    → IsMirrored g
    → IsMirrored (add_node n g)
unfolding add_node
add_node-IsMirrored n g s p h = record {
  nodes_distinct = ground (arith, h.nodes_distinct, Distinct-snoc n g.nodes);
  keys_distinct = ground (arith, h.keys_distinct, keys-Distinct-insert n [] g.out);
  succs_distinct = λ u. ground (arith, entry_empty n u g.out, h.succs_distinct u);
  preds_distinct = λ v. ground (arith, entry_empty n v g.ins, h.preds_distinct v);
  mirrored = λ u v. ground (
    arith,
    entry_empty n u g.out,
    entry_empty n v g.ins,
    h.mirrored u v,
    h.mirrored n v,
    h.mirrored u n,
    eq_iff n u,
    eq_iff n v,
  );
}

pub add_edge-IsMirrored : (u v : String) (g : Graph) → IsMirrored g → IsMirrored (add_edge u v g)
unfolding add_edge with_member
add_edge-IsMirrored u v g h = record {
  nodes_distinct = h.nodes_distinct;
  keys_distinct =
      keys-Distinct-insert u (add v (or_else (lookup u g.out) [])) g.out h.keys_distinct;
  succs_distinct = λ x. ground (
    arith,
    entry_member u v x g.out,
    h.succs_distinct u,
    h.succs_distinct x,
    add-Distinct v (succs g u),
  );
  preds_distinct = λ x. ground (
    arith,
    entry_member v u x g.ins,
    h.preds_distinct v,
    h.preds_distinct x,
    add-Distinct u (preds g v),
  );
  mirrored = λ x y. ground (
    arith,
    entry_member u v x g.out,
    entry_member v u y g.ins,
    mem-add v y (succs g u),
    mem-add u x (preds g v),
    h.mirrored x y,
    h.mirrored u y,
    h.mirrored x v,
    eq_iff u x,
    eq_iff v y,
  );
}

-- No edge was added yet.
pub record HasNoEdge (g : Graph) : Type 0 where
  pub mirrored : IsMirrored g
  pub succs_nil : (u : String) → succs g u ≡ []
  pub preds_nil : (u : String) → preds g u ≡ []

pub new-HasNoEdge : HasNoEdge new
unfolding lookup
new-HasNoEdge = record { mirrored = new-IsMirrored; succs_nil = λ u. refl; preds_nil = λ u. refl }

pub add_node-HasNoEdge : (n : String) (g : Graph) → HasNoEdge g → HasNoEdge (add_node n g)
unfolding add_node
add_node-HasNoEdge n g h = record {
  mirrored = add_node-IsMirrored n g (h.succs_nil n) (h.preds_nil n) h.mirrored;
  succs_nil = λ u. ground (arith, lookup-insert n u [] g.out, h.succs_nil u);
  preds_nil = λ u. ground (arith, lookup-insert n u [] g.ins, h.preds_nil u);
}

pub add_node-nodes :
    (n x : String) (g : Graph) → mem x (add_node n g).nodes ≡ (mem x g.nodes || n == x)
unfolding add_node
add_node-nodes n x g = ground (arith, mem-append x g.nodes (n ∷ []), eq_iff n x)

pub add_edge-nodes : (a b : String) (g : Graph) → (add_edge a b g).nodes ≡ g.nodes
unfolding add_edge
add_edge-nodes a b g = refl

pub mem-succs-add_edge :
    (a b u v : String) (g : Graph)
    → mem v (succs (add_edge a b g) u) ≡ (mem v (succs g u) || a == u && b == v)
unfolding add_edge
mem-succs-add_edge a b u v g =
    ground (arith, entry_member a b u g.out, mem-add b v (succs g a), eq_iff a u)
