-- ===== src/Engine/Schedule/Blocked.antt =====
-- A task that is up for dispatch has all of its ancestors behind it.
use mathlib.Core.Logic.{∥∥₁_elim}
use mathlib.Core.Bool.{So-prop}
use tkn_act.Base.{
  String, ◌≡◌, ◌∙◌, sym, Bool, true, false, arith, eq_iff, Map, lookup, insert, lookup-insert,
  is_some, mem,
}
use tkn_act.Dag.{Graph, preds}
use tkn_act.Dag.Build.{IsMirrored}
use tkn_act.Dag.Reach.{Reaches, edge, step}
use tkn_act.Tekton.{Kube, PipelineTask}
use tkn_act.Engine.Outcome.{TaskOutcome}
use tkn_act.Engine.Blocking.{upstream, upstream_blocks_dispatch}
use tkn_act.Engine.Blocking.Upstream.{upstream-Reaches}
use tkn_act.Engine.Blocking.Agree.{upstream_blocks_dispatch-agree}

-- What has an outcome, or is up for one, has only predecessors that have one.
abbrev pub IsBacked : Graph → Map TaskOutcome → (String → Bool) → Type 0
IsBacked g outcomes up =
    (v u : String) → up v ≡ true → mem u (preds g v) ≡ true → is_some (lookup u outcomes) ≡ true

module _ (g : Graph) (mir : IsMirrored g) (outcomes : Map TaskOutcome) (up : String → Bool)
    (backed : IsBacked g outcomes up)
    (behind : (x : String) → is_some (lookup x outcomes) ≡ true → up x ≡ true) where
  pub Reaches-settled :
      (a v : String) → up v ≡ true → Reaches g a v → is_some (lookup a outcomes) ≡ true
  Reaches-settled a v h (edge m) = backed v a h (sym (mir.mirrored a v) ∙ m)
  Reaches-settled a v h (step {v = u} r m) =
      Reaches-settled a u (behind u (backed v u h (sym (mir.mirrored u v) ∙ m))) r

  pub upstream-settled :
      (t a : String)
      → up t ≡ true
      → mem a (upstream g t) ≡ true
      → is_some (lookup a outcomes) ≡ true
  upstream-settled t a h m =
      let (_, _, path) = (upstream-Reaches g t a).0 m in
      ∥∥₁_elim path (So-prop _) (Reaches-settled a t h)

  -- A new outcome leaves the verdict on such a task as it is.
  pub clear_insert :
      {k : Kube} (main : Map (PipelineTask k)) (t x : String) (oc : TaskOutcome)
      → up t ≡ true
      → is_some (lookup x outcomes) ≡ false
      → upstream_blocks_dispatch main (insert x oc outcomes) g t
        ≡ upstream_blocks_dispatch main outcomes g t
  clear_insert main t x oc h new =
      upstream_blocks_dispatch-agree main outcomes (insert x oc outcomes) g t
        (λ a m. ground (arith, lookup-insert x a oc outcomes, eq_iff x a, upstream-settled t a h m))
