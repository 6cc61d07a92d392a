-- ===== src/Engine/Schedule/Invariant.antt =====
-- What holds of a run of the level loop at all times.
use tkn_act.Base.{
  ℕ, ◌+◌, ◌≤◌, String, ◌≡◌, Bool, true, ◌&&◌, ◌||◌, not, none, some, List, lookup, is_some, length,
  mem, concat, occ,
}
use tkn_act.Dag.{Graph}
use tkn_act.Dag.Build.{IsMirrored}
use tkn_act.Dag.Levels.Rounds.{IsLayered}
use tkn_act.Tekton.{Kube, PipelineTask}
use tkn_act.Engine.Run.Records.{started}
use tkn_act.Engine.Blocking.{upstream_blocks_dispatch}
use tkn_act.Engine.Schedule.{Plan, Run, in_flight}
use tkn_act.Engine.Schedule.Core.{IsAccounted}
use tkn_act.Engine.Schedule.Blocked.{IsBacked}

-- The tables of a plan fit together.
pub record IsConsistent {k : Kube} (p : Plan k) : Type 0 where
  pub mirrored : IsMirrored p.graph
  pub named : (t : String) (pt : PipelineTask k) → lookup t p.main ≡ some pt → pt.name ≡ t
  pub planned : (t : String) → mem t p.graph.nodes ≡ true → is_some (lookup t p.main) ≡ true

-- Where a task waits that has not been started.
abbrev pub unstarted : Run → String → ℕ
unstarted r x =
    occ x r.checked + occ x r.spawned + occ x r.cleared + occ x r.pending + occ x (concat r.later)

-- Where a task waits for its outcome.
abbrev pub waiting : Run → String → ℕ
waiting r x = occ x r.active + unstarted r x

-- the tasks of the levels that have come up
abbrev pub up : Graph → List (List String) → String → Bool
up g later v = mem v g.nodes && not (mem v (concat later))

pub record IsLayeredAt (g : Graph) (later : List (List String)) : Type 0 where
  pub done : List String
  pub layered : IsLayered g done later
  pub part : (v : String) → mem v done ≡ up g later v

pub record Holds {k : Kube} (p : Plan k) (r : Run) : Type 0 where
  pub accounted : IsAccounted p.graph.nodes r.state.outcomes (waiting r)
  pub layered : IsLayeredAt p.graph r.later
  pub backed : IsBacked p.graph r.state.outcomes (up p.graph r.later)
  -- the group's limit
  pub room : in_flight r ≤ p.max_parallel
  -- the loop waits with one task
  pub single : length r.cleared ≤ 1
  -- a task starts once, and is not started after it was left out
  pub once : (x : String) → occ x (started r.state.events) + unstarted r x ≤ 1
  -- a task that was let through stays let through
  pub clear :
      (t : String)
      → mem t r.cleared || mem t r.spawned || mem t r.checked || mem t (started r.state.events)
        ≡ true
      → (upstream_blocks_dispatch p.main r.state.outcomes p.graph t ≡ none)
        × (up p.graph r.later t ≡ true)
