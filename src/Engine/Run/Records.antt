-- ===== src/Engine/Run/Records.antt =====
-- What recording an outcome changes.
use tkn_act.Base.{
  String, ◌≡◌, refl, ap, ◌∙◌, arith, none, List, [], ◌∷◌, ◌++◌, if◌then◌else◌, insert, Bool-cases,
  inl, inr,
}
use mathlib.Core.List.{append-nil}
use tkn_act.Tekton.{Kube, PipelineTask}
use tkn_act.Engine.Outcome.{
  Status, Message, SkipKind, TaskOutcome, Event, task_start, task_skip, task_retry, task_end,
  is_skipped, skip_when,
}
use tkn_act.Engine.Run.{RunState, record_outcome, mark_not_run, finish_task, with_matrix}

-- The outcome of a task that does not run.
abbrev pub left_out : {k : Kube} → PipelineTask k → Message → SkipKind → TaskOutcome
left_out pt msg kind = record {
  status = Status.not_run;
  message = msg;
  results = none;
  attempt = 0;
  matrix = pt.matrix_info;
  skip = kind;
}

-- The outcome that is recorded of a task that was dispatched.
abbrev pub finished : {k : Kube} → PipelineTask k → TaskOutcome → TaskOutcome
finished pt oc =
    if is_skipped (with_matrix pt oc).status
    then record (with_matrix pt oc) { skip = skip_when }
    else with_matrix pt oc

-- The tasks whose task-start was emitted.
abbrev pub started : List Event → List String
started [] = []
started (task_start t ∷ es) = t ∷ started es
started (task_skip _ _ ∷ es) = started es
started (task_retry _ _ _ _ ∷ es) = started es
started (task_end _ _ _ _ ∷ es) = started es

pub started-append : (es fs : List Event) → started (es ++ fs) ≡ started es ++ started fs
started-append [] fs = refl
started-append (task_start t ∷ es) fs = ap (λ l. t ∷ l) (started-append es fs)
started-append (task_skip _ _ ∷ es) fs = started-append es fs
started-append (task_retry _ _ _ _ ∷ es) fs = started-append es fs
started-append (task_end _ _ _ _ ∷ es) fs = started-append es fs

module _ {k : Kube} (marshal : List String → String) (tasks : List (PipelineTask k)) where
  pub mark_not_run-outcomes :
      (pt : PipelineTask k) (msg : Message) (kind : SkipKind) (s : RunState)
      → (mark_not_run marshal tasks pt msg kind s).outcomes
        ≡ insert pt.name (left_out pt msg kind) s.outcomes
  unfolding mark_not_run record_outcome
  mark_not_run-outcomes pt msg kind s = refl

  pub finish_task-outcomes :
      (pt : PipelineTask k) (oc : TaskOutcome) (s : RunState)
      → (finish_task marshal tasks pt oc s).outcomes ≡ insert pt.name (finished pt oc) s.outcomes
  unfolding finish_task record_outcome
  finish_task-outcomes pt oc s = ground arith

  pub started-mark_not_run :
      (pt : PipelineTask k) (msg : Message) (kind : SkipKind) (s : RunState)
      → started (mark_not_run marshal tasks pt msg kind s).events ≡ started s.events
  unfolding mark_not_run record_outcome
  started-mark_not_run pt msg kind s =
      started-append s.events (task_skip pt.name msg ∷ []) ∙ append-nil (started s.events)

  pub started-finish_task :
      (pt : PipelineTask k) (oc : TaskOutcome) (s : RunState)
      → started (finish_task marshal tasks pt oc s).events ≡ started s.events
  unfolding finish_task record_outcome
  started-finish_task pt oc s = elim (Bool-cases (is_skipped (with_matrix pt oc).status)) [
    | inl e ↦
        rw (e, finish_task)
          (started-append s.events (task_skip pt.name (with_matrix pt oc).message ∷ [])
            ∙ append-nil (started s.events))
    | inr e ↦
        rw (e, finish_task)
          (started-append s.events (
              task_end pt.name (with_matrix pt oc).status (with_matrix pt oc).message
                (with_matrix pt oc).attempt
              ∷ [])
            ∙ append-nil (started s.events))
  ]
