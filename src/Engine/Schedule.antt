-- ===== src/Engine/Schedule.antt =====
-- engine.go: the level loop of `RunPipeline`, as steps that the dispatching loop, the goroutines
-- of the tasks and the clock take in any order. A step does what the source does under the mutex
-- or between two waits. What a task's attempts do is any outcome.
pub mod Core
pub mod Blocked
pub mod Invariant
pub mod Settling
pub mod Moving
pub mod Steps
pub mod Safety
pub mod Stopping
pub mod Progress
pub mod Overall
pub mod Setup
use tkn_act.Base.{
  ℕ, ◌+◌, ◌<◌, String, ◌≡◌, Bool, true, false, ◌&&◌, ◌||◌, Option, none, some, List, [], ◌∷◌, ◌++◌,
  if◌then◌else◌, Map, lookup, is_some, length, mem, without,
}
use tkn_act.Base.Integers.{ℤ}
use tkn_act.Dag.{Graph}
use tkn_act.Tekton.{Kube, PipelineTask}
use tkn_act.Engine.Outcome.{
  Message, succeeded, tasks_phase, TaskOutcome, skip_blocked, skip_stopped, Event, task_start,
}
use tkn_act.Engine.Blocking.{upstream_blocks_dispatch, missing_result_refs}
use tkn_act.Engine.Run.{
  RunState, mark_not_run, finish_task, Clock, stopped, stop_reason, reclassify_budget_kill,
}

-- What does not change during a run.
pub record Plan (k : Kube) : Type 0 where
  pub graph : Graph
  pub main : Map (PipelineTask k)
  -- the main tasks, then the finally tasks
  pub tasks : List (PipelineTask k)
  pub expansions : Map (List String)
  pub max_parallel : ℕ
  pub pipeline_budget : ℤ
  pub tasks_budget : ℤ
  pub marshal : List String → String

-- `pending` is what the loop over the current level has not come to. The task that the loop let
-- through is `cleared` until the group has room for its goroutine, which is then `spawned` until it
-- has read the clock, `checked` until it has emitted the task-start, and `active` until its task
-- has finished.
pub record Run : Type 0 where
  pub state : RunState
  pub clock : Clock
  pub later : List (List String)
  pub pending : List String
  pub cleared : List String
  pub spawned : List String
  pub checked : List String
  pub active : List String

abbrev is_nil {ℓ} : {A : Type ℓ} → List A → Bool
is_nil [] = true
is_nil (_ ∷ _) = false

-- the goroutines in the group
abbrev pub in_flight : Run → ℕ
in_flight r = length r.spawned + length r.checked + length r.active

-- the group of the level has been waited for
abbrev pub idle : Run → Bool
idle r =
    is_nil r.pending && is_nil r.cleared && is_nil r.spawned && is_nil r.checked && is_nil r.active

-- RunPipeline comes to the loop over the levels.
unfoldable pub begin : Clock → List (List String) → Run
begin c levels = record {
  state = record { outcomes = []; results = []; overall = succeeded; events = [] };
  clock = c;
  later = levels;
  pending = [];
  cleared = [];
  spawned = [];
  checked = [];
  active = [];
}

-- Time passes: what is over stays over.
pub record Later (c d : Clock) : Type 0 where
  pub cancelled : c.cancelled ≡ true → d.cancelled ≡ true
  pub pipeline_over : c.pipeline_over ≡ true → d.pipeline_over ≡ true
  pub phase_over : c.phase_over ≡ true → d.phase_over ≡ true

module _ {k : Kube} (p : Plan k) where
  abbrev pub reason : Clock → Message
  reason c = stop_reason c p.pipeline_budget tasks_phase p.tasks_budget

  -- the two checks before a dispatch
  unfoldable pub held_back : PipelineTask k → String → RunState → Option Message
  held_back pt name s = elim (upstream_blocks_dispatch p.main s.outcomes p.graph name) [
    | some msg ↦ some msg
    | none ↦ missing_result_refs pt s.outcomes p.expansions
  ]

  -- a level that comes up after the clock has stopped
  unfoldable pub stop_level : Message → List String → RunState → RunState
  stop_level msg [] s = s
  stop_level msg (t ∷ ts) s = stop_level msg ts (
      if is_some (lookup t s.outcomes) then s else elim (lookup t p.main) [
        | none ↦ s
        | some pt ↦ mark_not_run p.marshal p.tasks pt msg skip_stopped s
      ])

  pub data Step : Run → Run → Type 0 where
    tick : (r : Run) (c : Clock) → Later r.clock c → Step r (record r { clock = c })
    enter :
        (r : Run) (l : List String) (ls : List (List String))
        → r.later ≡ l ∷ ls
        → idle r ≡ true
        → stopped r.clock ≡ false
        → Step r (record r { later = ls; pending = l })
    pass_over :
        (r : Run) (l : List String) (ls : List (List String))
        → r.later ≡ l ∷ ls
        → idle r ≡ true
        → stopped r.clock ≡ true
        → Step r (record r { later = ls; state = stop_level (reason r.clock) l r.state })
    block :
        (r : Run) (t : String) (ts : List String) (pt : PipelineTask k) (msg : Message)
        → r.pending ≡ t ∷ ts
        → r.cleared ≡ []
        → lookup t p.main ≡ some pt
        → held_back pt t r.state ≡ some msg
        → Step r (record r {
          pending = ts;
          state = mark_not_run p.marshal p.tasks pt msg skip_blocked r.state;
        })
    let_in :
        (r : Run) (t : String) (ts : List String) (pt : PipelineTask k)
        → r.pending ≡ t ∷ ts
        → r.cleared ≡ []
        → lookup t p.main ≡ some pt
        → held_back pt t r.state ≡ none
        → Step r (record r { pending = ts; cleared = t ∷ [] })
    spawn :
        (r : Run) (t : String)
        → r.cleared ≡ t ∷ []
        → in_flight r < p.max_parallel
        → Step r (record r { cleared = []; spawned = t ∷ r.spawned })
    give_up :
        (r : Run) (t : String) (pt : PipelineTask k)
        → mem t r.spawned ≡ true
        → lookup t p.main ≡ some pt
        → stopped r.clock ≡ true
        → Step r (record r {
          spawned = without t r.spawned;
          state = mark_not_run p.marshal p.tasks pt (reason r.clock) skip_stopped r.state;
        })
    check :
        (r : Run) (t : String)
        → mem t r.spawned ≡ true
        → stopped r.clock ≡ false
        → Step r (record r { spawned = without t r.spawned; checked = t ∷ r.checked })
    start :
        (r : Run) (t : String)
        → mem t r.checked ≡ true
        → Step r (record r {
          checked = without t r.checked;
          active = t ∷ r.active;
          state = record r.state { events = r.state.events ++ task_start t ∷ [] };
        })
    finish :
        (r : Run) (t : String) (pt : PipelineTask k) (oc : TaskOutcome)
        → mem t r.active ≡ true
        → lookup t p.main ≡ some pt
        → Step r (record r {
          active = without t r.active;
          state =
              finish_task p.marshal p.tasks pt
                (reclassify_budget_kill r.clock (reason r.clock) oc)
                r.state;
        })

  pub data Reach (r : Run) : Run → Type 0 where
    here : Reach r r
    next : {s t : Run} → Reach r s → Step s t → Reach r t
