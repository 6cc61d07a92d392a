-- ===== src/Engine/Blocking/Agree.antt =====
-- Only the outcomes of a task's ancestors decide whether it is held back by them.
use tkn_act.Base.{
  String, ◌≡◌, refl, true, arith, eq_iff, List, [], ◌∷◌, Map, lookup, insert, or_else, mem,
}
use tkn_act.Dag.{Graph}
use tkn_act.Tekton.{Kube, PipelineTask}
use tkn_act.Engine.Outcome.{TaskOutcome}
use tkn_act.Engine.Blocking.{
  upstream, Group, no_group, judge, key_for, group_ancestors, upstream_blocks_dispatch,
}

module _ {k : Kube} (main : Map (PipelineTask k)) (before after : Map TaskOutcome) where
  group_ancestors-agree :
      (names : List String) (gs : Map Group)
      → ((a : String) → mem a names ≡ true → lookup a after ≡ lookup a before)
      → group_ancestors main after names gs ≡ group_ancestors main before names gs
  unfolding group_ancestors
  group_ancestors-agree [] gs same = refl
  group_ancestors-agree (a ∷ names) gs same = rw (same a (ground (arith, eq_iff a a))) (
      group_ancestors-agree names
        (insert (key_for main a)
          (judge (lookup a before) (or_else (lookup (key_for main a) gs) no_group)) gs)
        (λ b m. same b (ground arith)))

  pub upstream_blocks_dispatch-agree :
      (g : Graph) (target : String)
      → ((a : String) → mem a (upstream g target) ≡ true → lookup a after ≡ lookup a before)
      → upstream_blocks_dispatch main after g target ≡ upstream_blocks_dispatch main before g target
  unfolding upstream_blocks_dispatch
  upstream_blocks_dispatch-agree g target same =
      ground (arith, group_ancestors-agree (upstream g target) [] same)
