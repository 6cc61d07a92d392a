-- ===== src/Engine/Finally.antt =====
-- substitution.go: the view of the main tasks that `$(tasks.status)` and `$(tasks.<t>.status)`
-- give to the finally tasks.
pub mod Counting
pub mod Grouping
use tkn_act.Base.{
  ℕ, zero, suc, ◌+◌, String, Bool, true, false, ◌&&◌, ◌||◌, not, Option, none, some, List, [], ◌∷◌,
  if◌then◌else◌, ltb, nat_eq, Map, lookup, insert, or_else,
}
use tkn_act.Tekton.{Kube, PipelineTask, MatrixInfo}
use tkn_act.Engine.Outcome.{
  Status, succeeded, failed, infrafailed, timeout, cancelled, not_run, skipped, TaskOutcome,
}

pub data ExecStatus : Type 0 where
  exec_succeeded exec_failed exec_completed exec_none : ExecStatus

pub record Agg : Type 0 where
  pub total : ℕ
  pub good : ℕ
  pub bad : ℕ

abbrev pub no_runs : Agg
no_runs = record { total = 0; good = 0; bad = 0 }

-- "failed", "infrafailed", "timeout", "cancelled"
abbrev pub is_bad : Status → Bool
is_bad failed = true
is_bad infrafailed = true
is_bad timeout = true
is_bad cancelled = true
is_bad _ = false

abbrev pub is_good : Status → Bool
is_good succeeded = true
is_good _ = false

-- the `switch` on a task's status
unfoldable pub tally : Status → Agg → Agg
tally s g = record g {
  good = if is_good s then g.good + 1 else g.good;
  bad = if is_bad s then g.bad + 1 else g.bad;
}

pub record Groups : Type 0 where
  pub groups : Map Agg
  pub all_done : Bool

abbrev pub group_of : {k : Kube} → PipelineTask k → String
group_of pt = elim pt.matrix_info [ none ↦ pt.name | some mi ↦ mi.parent ]

module _ {k : Kube} (outcomes : Map TaskOutcome) where
  unfoldable pub add_task : PipelineTask k → Groups → Groups
  unfolding tally
  add_task pt gs =
      let name = group_of pt in
      let g = or_else (lookup name gs.groups) no_runs in
      let counted = record g { total = g.total + 1 } in
      elim (lookup pt.name outcomes) [
        | none ↦ record { groups = insert name counted gs.groups; all_done = false }
        | some oc ↦ record gs { groups = insert name (tally oc.status counted) gs.groups }
      ]

  unfoldable pub add_tasks : List (PipelineTask k) → Groups → Groups
  unfolding add_task
  add_tasks [] gs = gs
  add_tasks (pt ∷ pts) gs = add_tasks pts (add_task pt gs)

unfoldable pub exec_of : Agg → ExecStatus
exec_of g =
    if ltb 0 g.bad then exec_failed else if nat_eq g.good g.total then exec_succeeded else exec_none

pub record PerTask : Type 0 where
  pub per : Map ExecStatus
  pub any_failed : Bool
  pub any_skipped : Bool

-- the loop over `order`, which lists the keys of `groups` as they came
unfoldable pub per_task : Map Agg → PerTask
unfolding exec_of
per_task [] = record { per = []; any_failed = false; any_skipped = false }
per_task ((name, g) ∷ gs) =
    let rest = per_task gs in
    let s = exec_of g in
    record {
      per = (name, s) ∷ rest.per;
      any_failed = elim s [ exec_failed ↦ true | _ ↦ rest.any_failed ];
      any_skipped = elim s [ exec_none ↦ true | _ ↦ rest.any_skipped ];
    }

unfoldable pub compute_finally_status :
    {k : Kube} → List (PipelineTask k) → Map TaskOutcome → ExecStatus × Map ExecStatus
unfolding add_tasks per_task
compute_finally_status pts outcomes =
    let gs = add_tasks outcomes pts (record { groups = []; all_done = true }) in
    let r = per_task gs.groups in
    (
      if not gs.all_done
          then exec_none
          else if r.any_failed
          then exec_failed
          else if r.any_skipped
          then exec_completed
          else exec_succeeded,
      r.per,
    )
