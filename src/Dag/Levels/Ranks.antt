-- ===== src/Dag/Levels/Ranks.antt =====
-- The levels of a graph number its nodes so that the numbers grow along each edge.
use tkn_act.Base.{
  ℕ, suc, ◌<◌, String, ◌≡◌, true, false, arith, List, [], ◌∷◌, ◌++◌, if◌then◌else◌, mem, mem-append,
  all_of_mem, concat, Bool-cases, inl, inr,
}
use tkn_act.Dag.{Graph, preds}
use tkn_act.Dag.Levels.Rounds.{IsLayered}

-- The number of the first level that holds a node.
abbrev pub level_of : List (List String) → String → ℕ
level_of [] x = 0
level_of (l ∷ ls) x = let rest = level_of ls x in if mem x l then 0 else suc rest

pub level_of_grows :
    (g : Graph) (done : List String) (ls : List (List String)) (u x : String)
    → IsLayered g done ls
    → mem x (concat ls) ≡ true
    → mem u (preds g x) ≡ true
    → mem u done ≡ false
    → level_of ls u < level_of ls x
level_of_grows g done [] u x h m p d = absurd (cc)
level_of_grows g done (l ∷ ls) u x h m p d = elim (Bool-cases (mem x l)) [
  | inl here ↦ absurd (ground (arith, h.0 x, all_of_mem (λ w. mem w done) (preds g x) u, here))
  | inr later ↦ ground (
    arith,
    later,
    mem-append x l (concat ls),
    mem-append u done l,
    level_of_grows g (done ++ l) ls u x h.1,
  )
]
