-- ===== src/Engine/Blocking.antt =====
-- engine.go: whether a task that is next in its level may be dispatched.
pub mod Upstream
pub mod Groups
pub mod Agree
use Prim.Native.String.{◌++◌ as str_append}
use tkn_act.Base.{
  String, Bool, true, false, ◌&&◌, ◌||◌, not, ◌==◌, Option, none, some, List, [], ◌∷◌, ◌++◌,
  if◌then◌else◌, Map, lookup, insert, or_else, keep, mem, any,
}
use tkn_act.Base.Order.{sort}
use tkn_act.Dag.{Graph, descendants}
use tkn_act.Tekton.{Kube, PipelineTask, MatrixInfo}
use tkn_act.Engine.Outcome.{
  TaskOutcome, Message, upstream_failure, parent_task_skipped, results_missing, is_succeeded,
  is_skip_when, is_not_run,
}
use tkn_act.Engine.References.{implicit_param_edges, expand_ref_names}

-- the nodes that have a path to the target
unfoldable pub upstream : Graph → String → List String
upstream g target =
    keep (λ n. not (n == target) && mem target (or_else (descendants g n) [])) (sort g.nodes)

pub record Group : Type 0 where
  pub any_ok : Bool
  pub blocking : Bool
  pub any_failed : Bool

abbrev pub no_group : Group
no_group = record { any_ok = false; blocking = false; any_failed = false }

-- the `switch` on an ancestor's outcome
unfoldable pub judge : Option TaskOutcome → Group → Group
judge none grp = grp
judge (some oc) grp =
    if is_succeeded oc.status
    then record grp { any_ok = true }
    else if is_skip_when oc.skip
    then grp
    else record grp { blocking = true; any_failed = grp.any_failed || not (is_not_run oc.status) }

-- a matrix counts as one node, under its parent's name
unfoldable pub key_for : {k : Kube} → Map (PipelineTask k) → String → String
key_for main name = elim (lookup name main) [
  | none ↦ name
  | some pt ↦ elim pt.matrix_info [ none ↦ name | some mi ↦ str_append "matrix:" mi.parent ]
]

abbrev pub blocks : Group → Bool
blocks grp = not (grp.any_ok || not grp.blocking)

abbrev pub blocks_failed : Group → Bool
blocks_failed grp = blocks grp && grp.any_failed

module _ {k : Kube} (main : Map (PipelineTask k)) (outcomes : Map TaskOutcome) where
  unfoldable pub group_ancestors : List String → Map Group → Map Group
  unfolding judge
  group_ancestors [] groups = groups
  group_ancestors (a ∷ ancestors) groups =
      let k = key_for main a in
      let grp = or_else (lookup k groups) no_group in
      group_ancestors ancestors (insert k (judge (lookup a outcomes) grp) groups)

  -- the message of the task-skip, or none if the task may go ahead
  unfoldable pub upstream_blocks_dispatch : Graph → String → Option Message
  unfolding group_ancestors upstream
  upstream_blocks_dispatch g target =
      let groups = group_ancestors (upstream g target) [] in
      let blocked = any (λ e. blocks e.1) groups in
      let failed = any (λ e. blocks_failed e.1) groups in
      if not blocked
      then none
      else if failed
      then some upstream_failure
      else some parent_task_skipped

-- The loop over the tasks that produce one reference: `terminal`, and `ok`.
abbrev pub any_terminal : Map TaskOutcome → List String → Bool
any_terminal outcomes = any (λ n. elim (lookup n outcomes) [ none ↦ false | some _ ↦ true ])

abbrev pub any_ok : Map TaskOutcome → List String → Bool
any_ok outcomes =
    any (λ n. elim (lookup n outcomes) [ none ↦ false | some oc ↦ is_succeeded oc.status ])

unfoldable pub missing_ref : Map TaskOutcome → Map (List String) → List String → Option Message
missing_ref outcomes expansions [] = none
missing_ref outcomes expansions (ref ∷ refs) =
    let rest = missing_ref outcomes expansions refs in
    let names = expand_ref_names ref expansions in
    if any_terminal outcomes names && not (any_ok outcomes names)
    then some (results_missing ref)
    else rest

unfoldable pub missing_result_refs :
    {k : Kube} → PipelineTask k → Map TaskOutcome → Map (List String) → Option Message
unfolding missing_ref
missing_result_refs pt outcomes expansions =
    missing_ref outcomes expansions (implicit_param_edges pt)
