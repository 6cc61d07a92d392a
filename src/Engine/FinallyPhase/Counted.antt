-- ===== src/Engine/FinallyPhase/Counted.antt =====
-- Where the finally tasks wait, counted by name, and what a step does to the counts.
use tkn_act.Base.{
  ℕ, suc, ◌+◌, String, ◌≡◌, refl, ap, arith, ◌==◌, List, [], ◌∷◌, ◌++◌, if◌then◌else◌, insert,
  length, Bool-cases, ◌⊎◌, inl, inr,
}
use tkn_act.Tekton.{Kube, PipelineTask}
use tkn_act.Engine.Outcome.{TaskOutcome, Message, skip_blocked, skip_stopped, is_skipped}
use tkn_act.Engine.Run.{
  RunState, worsen, record_outcome, mark_not_run, finish_task, reclassify_budget_kill, with_matrix,
}
use tkn_act.Engine.Run.Records.{left_out, finished, mark_not_run-outcomes, finish_task-outcomes}
use tkn_act.Engine.FinallyPhase.{
  Closing, Ending, Step, tick, block, let_in, spawn, give_up, check, start, finish, finally_reason,
}

module _ {k : Kube} where
  abbrev pub count : String → List (PipelineTask k) → ℕ
  count x [] = 0
  count x (pt ∷ l) = (if pt.name == x then 1 else 0) + count x l

  pub count-split :
      (x : String) (before : List (PipelineTask k)) (pt : PipelineTask k)
      (after : List (PipelineTask k))
      → count x (before ++ pt ∷ after) ≡ (if pt.name == x then 1 else 0) + count x (before ++ after)
  count-split x [] pt after = refl
  count-split x (b ∷ before) pt after = omega (arith, count-split x before pt after)

  pub length-split :
      (before : List (PipelineTask k)) (pt : PipelineTask k) (after : List (PipelineTask k))
      → length (before ++ pt ∷ after) ≡ suc (length (before ++ after))
  length-split [] pt after = refl
  length-split (b ∷ before) pt after = ap suc (length-split before pt after)

  -- how often a name waits for its outcome
  abbrev pub waits : Ending k → String → ℕ
  waits e x =
      count x e.active
      + count x e.checked
      + count x e.spawned
      + count x e.cleared
      + count x e.pending

  -- Tasks move on, and no outcome is recorded.
  pub record Moves (e f : Ending k) : Type 0 where
    pub outcomes : f.state.outcomes ≡ e.state.outcomes
    pub overall : f.state.overall ≡ e.state.overall
    pub places : (x : String) → waits f x ≡ waits e x

  -- One waiting task gets its outcome.
  pub record Settles (e f : Ending k) : Type 0 where
    pub task : PipelineTask k
    pub outcome : TaskOutcome
    pub outcomes : f.state.outcomes ≡ insert task.name outcome e.state.outcomes
    pub overall : f.state.overall ≡ worsen e.state.overall outcome.status
    pub places : (x : String) → waits e x ≡ (if task.name == x then 1 else 0) + waits f x

  module _ (p : Closing k) where
    finish_task-overall :
        (pt : PipelineTask k) (oc : TaskOutcome) (s : RunState)
        → (finish_task p.marshal p.tasks pt oc s).overall ≡ worsen s.overall (finished pt oc).status
    unfolding finish_task record_outcome worsen
    finish_task-overall pt oc s = elim (Bool-cases (is_skipped (with_matrix pt oc).status)) [
      | inl f ↦ ground (arith, f)
      | inr f ↦ ground (arith, f)
    ]

    mark_not_run-overall :
        (pt : PipelineTask k) (msg : Message) (kind : _) (s : RunState)
        → (mark_not_run p.marshal p.tasks pt msg kind s).overall
          ≡ worsen s.overall (left_out pt msg kind).status
    unfolding mark_not_run record_outcome worsen
    mark_not_run-overall pt msg kind s = refl

    pub step-shape : {e f : Ending k} → Step p e f → Moves e f ⊎ Settles e f
    step-shape (tick e c later) =
        inl (record { outcomes = refl; overall = refl; places = λ x. refl })
    step-shape (block e pt pts msg q c held) = inr (record {
      task = pt;
      outcome = left_out pt msg skip_blocked;
      outcomes = mark_not_run-outcomes p.marshal p.tasks pt msg skip_blocked e.state;
      overall = mark_not_run-overall pt msg skip_blocked e.state;
      places = λ x. ground (arith, ap (count x) q);
    })
    step-shape (let_in e pt pts q c free) = inl (record {
      outcomes = refl;
      overall = refl;
      places = λ x. ground (arith, ap (count x) q, ap (count x) c);
    })
    step-shape (spawn e pt q room) =
        inl
          (record { outcomes = refl; overall = refl; places = λ x. ground (arith, ap (count x) q) })
    step-shape (give_up e pt before after q off) = inr (record {
      task = pt;
      outcome = left_out pt (finally_reason p e.clock) skip_stopped;
      outcomes =
          mark_not_run-outcomes p.marshal p.tasks pt (finally_reason p e.clock) skip_stopped
            e.state;
      overall = mark_not_run-overall pt (finally_reason p e.clock) skip_stopped e.state;
      places = λ x. ground (arith, ap (count x) q, count-split x before pt after);
    })
    step-shape (check e pt before after q on) = inl (record {
      outcomes = refl;
      overall = refl;
      places = λ x. ground (arith, ap (count x) q, count-split x before pt after);
    })
    step-shape (start e pt before after q) = inl (record {
      outcomes = refl;
      overall = refl;
      places = λ x. ground (arith, ap (count x) q, count-split x before pt after);
    })
    step-shape (finish e pt before after oc q) =
        let oc' = reclassify_budget_kill e.clock (finally_reason p e.clock) oc in
        inr (record {
          task = pt;
          outcome = finished pt oc';
          outcomes = finish_task-outcomes p.marshal p.tasks pt oc' e.state;
          overall = finish_task-overall pt oc' e.state;
          places = λ x. ground (arith, ap (count x) q, count-split x before pt after);
        })
