-- ===== src/Engine/FinallyPhase.antt =====
-- engine.go: the end of `RunPipeline`. The finally tasks are dispatched at once, and their goroutines
-- and the clock take steps in any order, as in Engine/Schedule; then the run's status is settled.
pub mod Counted
pub mod Settled
pub mod Ends
pub mod Verdict
use tkn_act.Base.{
  ℕ, ◌+◌, ◌<◌, String, ◌≡◌, Bool, true, false, ◌&&◌, ◌||◌, Option, none, some, List, [], ◌∷◌, ◌++◌,
  if◌then◌else◌, Map, map, length,
}
use tkn_act.Base.Integers.{ℤ}
use tkn_act.Tekton.{Kube, PipelineTask, Pipeline}
use tkn_act.Resolver.Scope.{Json, LookupError}
use tkn_act.Engine.Outcome.{
  Status, timeout, cancelled, Message, finally_phase, TaskOutcome, skip_blocked, skip_stopped,
  Event, task_start,
}
use tkn_act.Engine.Blocking.{missing_result_refs}
use tkn_act.Engine.Run.{
  RunState, mark_not_run, finish_task, Clock, stopped, stop_reason, reclassify_budget_kill,
}
use tkn_act.Engine.Schedule.{Later}
use tkn_act.Engine.Finally.{
  ExecStatus, exec_succeeded, exec_failed, exec_completed, exec_none, compute_finally_status,
}
use tkn_act.Engine.TaskInput.{FinallyStatus}
use tkn_act.Engine.PipelineResults.{ResultValue, resolve_pipeline_results}

abbrev pub exec_text : ExecStatus → String
exec_text exec_succeeded = "Succeeded"
exec_text exec_failed = "Failed"
exec_text exec_completed = "Completed"
exec_text exec_none = "None"

abbrev exec_texts : Map ExecStatus → Map String
exec_texts [] = []
exec_texts ((name, s) ∷ m) = (name, exec_text s) ∷ exec_texts m

-- withFinallyStatus: what the finally tasks see of the main tasks
unfoldable pub with_finally_status :
    {k : Kube} → List (PipelineTask k) → Map TaskOutcome → FinallyStatus
with_finally_status tasks outcomes =
    let (aggregate, per) = compute_finally_status tasks outcomes in
    record { aggregate = exec_text aggregate; per_task = exec_texts per }

-- What does not change while the finally tasks run.
pub record Closing (k : Kube) : Type 0 where
  -- the main tasks, then the finally tasks
  pub tasks : List (PipelineTask k)
  pub expansions : Map (List String)
  pub max_parallel : ℕ
  pub pipeline_budget : ℤ
  pub finally_budget : ℤ
  pub marshal : List String → String

-- The places of a task are those of Engine/Schedule.
pub record Ending (k : Kube) : Type 0 where
  pub state : RunState
  pub clock : Clock
  pub pending : List (PipelineTask k)
  pub cleared : List (PipelineTask k)
  pub spawned : List (PipelineTask k)
  pub checked : List (PipelineTask k)
  pub active : List (PipelineTask k)

-- The levels are through at the clock `c`, and the finally tasks come up at `d`.
unfoldable pub begin_finally :
    {k : Kube} → Clock → Clock → List (PipelineTask k) → RunState → Ending k
begin_finally c d fins s = record {
  state = record s { overall = if stopped c then timeout else s.overall };
  clock = d;
  pending = fins;
  cleared = [];
  spawned = [];
  checked = [];
  active = [];
}

-- the status once the last finally task is through
unfoldable pub end_status : Clock → Status → Status
end_status d overall =
    let timed = if stopped d then timeout else overall in if d.cancelled then cancelled else timed

pub record RunResult : Type 0 where
  pub status : Status
  pub tasks : Map TaskOutcome
  pub results : Map ResultValue
  pub dropped : List (String × LookupError)

unfoldable pub end_run : {k : Kube} → Json → Pipeline k → Ending k → RunResult
unfolding end_status
end_run json pl e =
    let (results, errs) = resolve_pipeline_results json e.state.results pl.results in
    record {
      status = end_status e.clock e.state.overall;
      tasks = e.state.outcomes;
      results = results;
      dropped = errs;
    }

abbrev is_nil {ℓ} : {A : Type ℓ} → List A → Bool
is_nil [] = true
is_nil (_ ∷ _) = false

module _ {k : Kube} where
  abbrev pub running : Ending k → ℕ
  running e = length e.spawned + length e.checked + length e.active

  -- the group has been waited for
  abbrev pub through : Ending k → Bool
  through e =
      is_nil e.pending
      && is_nil e.cleared
      && is_nil e.spawned
      && is_nil e.checked
      && is_nil e.active

  module _ (p : Closing k) where
    abbrev pub finally_reason : Clock → Message
    finally_reason c = stop_reason c p.pipeline_budget finally_phase p.finally_budget

    pub data Step : Ending k → Ending k → Type 0 where
      tick : (e : Ending k) (c : Clock) → Later e.clock c → Step e (record e { clock = c })
      block :
          (e : Ending k) (pt : PipelineTask k) (pts : List (PipelineTask k)) (msg : Message)
          → e.pending ≡ pt ∷ pts
          → e.cleared ≡ []
          → missing_result_refs pt e.state.outcomes p.expansions ≡ some msg
          → Step e (record e {
            pending = pts;
            state = mark_not_run p.marshal p.tasks pt msg skip_blocked e.state;
          })
      let_in :
          (e : Ending k) (pt : PipelineTask k) (pts : List (PipelineTask k))
          → e.pending ≡ pt ∷ pts
          → e.cleared ≡ []
          → missing_result_refs pt e.state.outcomes p.expansions ≡ none
          → Step e (record e { pending = pts; cleared = pt ∷ [] })
      spawn :
          (e : Ending k) (pt : PipelineTask k)
          → e.cleared ≡ pt ∷ []
          → running e < p.max_parallel
          → Step e (record e { cleared = []; spawned = pt ∷ e.spawned })
      give_up :
          (e : Ending k) (pt : PipelineTask k) (before after : List (PipelineTask k))
          → e.spawned ≡ before ++ pt ∷ after
          → stopped e.clock ≡ true
          → Step e (record e {
            spawned = before ++ after;
            state = mark_not_run p.marshal p.tasks pt (finally_reason e.clock) skip_stopped e.state;
          })
      check :
          (e : Ending k) (pt : PipelineTask k) (before after : List (PipelineTask k))
          → e.spawned ≡ before ++ pt ∷ after
          → stopped e.clock ≡ false
          → Step e (record e { spawned = before ++ after; checked = pt ∷ e.checked })
      start :
          (e : Ending k) (pt : PipelineTask k) (before after : List (PipelineTask k))
          → e.checked ≡ before ++ pt ∷ after
          → Step e (record e {
            checked = before ++ after;
            active = pt ∷ e.active;
            state = record e.state { events = e.state.events ++ task_start pt.name ∷ [] };
          })
      finish :
          (e : Ending k) (pt : PipelineTask k) (before after : List (PipelineTask k))
          (oc : TaskOutcome)
          → e.active ≡ before ++ pt ∷ after
          → Step e (record e {
            active = before ++ after;
            state =
                finish_task p.marshal p.tasks pt
                  (reclassify_budget_kill e.clock (finally_reason e.clock) oc)
                  e.state;
          })

    pub data Reach (e : Ending k) : Ending k → Type 0 where
      here : Reach e e
      next : {f g : Ending k} → Reach e f → Step f g → Reach e g
