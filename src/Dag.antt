-- ===== src/Dag.antt =====
-- internal/engine/dag/dag.go: the graph of a run's tasks. A Go set of strings is a list without
-- repetitions; where the source ranges over a map before it sorts, the order is that of insertion.
pub mod Build
mod Counts
pub mod Levels
pub mod Reach
use tkn_act.Base.{
  ℕ, zero, suc, ◌+◌, String, ◌≡◌, Bool, true, false, not, ◌&&◌, ◌||◌, Option, none, some, List, [],
  ◌∷◌, ◌++◌, map, if◌then◌else◌, length, mem, add, concat, Map, lookup, insert, delete, modify,
  keys, or_else, is_some, Result, ok, err, ◌>>=◌,
}
use tkn_act.Base.Order.{sort}
use tkn_act.Base.Integers.{ℤ, pos, negsuc, dec}

pub record Graph : Type 0 where
  pub nodes : List String
  pub out : Map (List String)
  pub ins : Map (List String)

pub data DagError : Type 0 where
  edge_from_unknown : String → DagError
  edge_to_unknown : String → String → DagError
  cycle_detected : List String → DagError
  out_of_fuel : DagError

abbrev pub new : Graph
new = record { nodes = []; out = []; ins = [] }

-- out[u] and in[v], where a missing key reads as the empty set
abbrev pub succs : Graph → String → List String
succs g u = or_else (lookup u g.out) []

abbrev pub preds : Graph → String → List String
preds g v = or_else (lookup v g.ins) []

unfoldable pub add_node : String → Graph → Graph
add_node n g =
    if mem n g.nodes
    then g
    else record { nodes = g.nodes ++ n ∷ []; out = insert n [] g.out; ins = insert n [] g.ins }

-- a missing entry is made before the member is added to it
unfoldable pub with_member : String → String → Map (List String) → Map (List String)
with_member k a m = insert k (add a (or_else (lookup k m) [])) m

unfoldable pub add_edge : String → String → Graph → Graph
unfolding with_member
add_edge u v g = record g { out = with_member u v g.out; ins = with_member v u g.ins }

abbrev pub is_empty {ℓ} : {A : Type ℓ} → List A → Bool
is_empty [] = true
is_empty (_ ∷ _) = false

unfoldable pub check_targets : Graph → String → List String → Option DagError
check_targets g u [] = none
check_targets g u (v ∷ vs) =
    let rest = check_targets g u vs in if mem v g.nodes then rest else some (edge_to_unknown u v)

-- the loop that validates the edges
unfoldable pub check_edges : Graph → Map (List String) → Option DagError
unfolding check_targets
check_edges g [] = none
check_edges g ((u, outs) ∷ rest) =
    let others = check_edges g rest in
    if not (mem u g.nodes) && not (is_empty outs)
    then some (edge_from_unknown u)
    else elim (check_targets g u outs) [ some e ↦ some e | none ↦ others ]

unfoldable pub indegrees : Graph → List String → Map ℤ
indegrees g [] = []
indegrees g (n ∷ ns) = (n, pos (length (preds g n))) ∷ indegrees g ns

abbrev pub is_zero : ℤ → Bool
is_zero (pos zero) = true
is_zero (pos (suc _)) = false
is_zero (negsuc _) = false

unfoldable pub ready : Map ℤ → List String
ready [] = []
ready ((n, d) ∷ m) = let rest = ready m in if is_zero d then n ∷ rest else rest

-- `if _, ok := indeg[v]; ok { indeg[v]-- }` for each v
unfoldable pub decrement : List String → Map ℤ → Map ℤ
decrement [] m = m
decrement (v ∷ vs) m = decrement vs (modify v dec m)

-- the loop over the ready nodes of a round
unfoldable pub retire : Graph → List String → Map ℤ → Map ℤ
unfolding decrement
retire g [] m = m
retire g (n ∷ ns) m = retire g ns (decrement (succs g n) (delete n m))

-- `for len(indeg) > 0`, on fuel
unfoldable pub levels_loop : Graph → ℕ → Map ℤ → Result DagError (List (List String))
unfolding ready retire
levels_loop g zero [] = ok []
levels_loop g zero (_ ∷ _) = err out_of_fuel
levels_loop g (suc fuel) [] = ok []
levels_loop g (suc fuel) (e ∷ m) =
    let indeg = e ∷ m in
    let level = sort (ready indeg) in
    elim (is_empty level) [
      | true ↦ err (cycle_detected (sort (keys indeg)))
      | false ↦ do rest ← levels_loop g fuel (retire g level indeg); ok (level ∷ rest)
    ]

unfoldable pub levels : Graph → Result DagError (List (List String))
unfolding check_edges indegrees levels_loop
levels g = elim (check_edges g g.out) [
  | some e ↦ err e
  | none ↦ levels_loop g (length g.nodes) (indegrees g g.nodes)
]

-- The stack's top is the head of the list.
pub record Search : Type 0 where
  pub seen : List String
  pub stack : List String

unfoldable pub push_unseen : List String → Search → Search
push_unseen [] s = s
push_unseen (v ∷ vs) s =
    push_unseen vs
      (if mem v s.seen then s else record { seen = s.seen ++ v ∷ []; stack = v ∷ s.stack })

unfoldable pub search_loop : Graph → ℕ → Search → Option (List String)
unfolding push_unseen
search_loop g zero s = none
search_loop g (suc fuel) s = elim s.stack [
  | [] ↦ some s.seen
  | u ∷ rest ↦ search_loop g fuel (push_unseen (succs g u) (record s { stack = rest }))
]

abbrev targets : Map (List String) → List String
targets [] = []
targets ((_, vs) ∷ m) = vs ++ targets m

-- A node is pushed once at most, and only as the target of an edge.
unfoldable pub descendants : Graph → String → Option (List String)
unfolding search_loop
descendants g start =
    elim (search_loop g (length (targets g.out) + 2) (record { seen = []; stack = start ∷ [] })) [
      | none ↦ none
      | some seen ↦ some (sort seen)
    ]
