-- ===== src/Engine/Blocking/Upstream.antt =====
-- The upstream of a task is what has a path to it.
use tkn_act.Base.{
  String, ◌≡◌, ◌≢◌, true, ◌&&◌, not, arith, ◌==◌, eq_iff, ◌↔◌, mem, mem-keep, or_else, [],
}
use tkn_act.Base.Order.{sort, mem-sort}
use tkn_act.Dag.{Graph, descendants}
use tkn_act.Dag.Reach.{Reaches, descendants-Reaches}
use tkn_act.Engine.Blocking.{upstream}

-- A task is upstream of the target exactly if it is another node of the graph and a path leads
-- from it to the target.
pub upstream-Reaches :
    (g : Graph) (target n : String)
    → (mem n (upstream g target) ≡ true)
      ↔ ((mem n g.nodes ≡ true) × (n ≢ target) × ∥ Reaches g n target ∥₁)
unfolding upstream
upstream-Reaches g target n =
    let (found, r, reaches) = descendants-Reaches g n in
    let test = λ (x : String). not (x == target) && mem target (or_else (descendants g x) []) in
    let split = mem-keep n test (sort g.nodes) in
    (
      λ m. (
        ground (arith, split, mem-sort n g.nodes),
        ground (arith, split, eq_iff n target),
        (reaches target).0 (ground (arith, split, r)),
      ),
      λ (m, ne, p).
          ground (arith, split, mem-sort n g.nodes, eq_iff n target, r, (reaches target).1 p),
    )
