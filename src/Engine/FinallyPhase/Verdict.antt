-- ===== src/Engine/FinallyPhase/Verdict.antt =====
-- The status that a run ends with.
use tkn_act.Base.{
  String, ◌≡◌, ap, Bool, false, ◌||◌, arith, eq_iff, List, if◌then◌else◌, lookup, is_some, inl, inr,
}
use tkn_act.Tekton.{Kube, PipelineTask, Pipeline}
use tkn_act.Resolver.Scope.{Json}
use tkn_act.Engine.Outcome.{Status, timeout, cancelled}
use tkn_act.Engine.Run.{RunState, Clock, stopped, worsen}
use tkn_act.Engine.Schedule.{Plan, Run}
use tkn_act.Engine.Schedule.Invariant.{IsConsistent}
use tkn_act.Engine.Schedule.Overall.{verdict, verdict-insert, overall-verdict}
use tkn_act.Engine.FinallyPhase.{
  Closing, Ending, begin_finally, end_status, end_run, Step, Reach, here, next,
}
use tkn_act.Engine.FinallyPhase.Counted.{step-shape}
use tkn_act.Engine.FinallyPhase.Settled.{AreApart, Keeps, Crossing, begin-Keeps, reach-Keeps}
use tkn_act.Engine.Schedule.Safety.{settled-all}

-- `late` tells that the main tasks were stopped.
abbrev pub standing : {k : Kube} → Bool → Ending k → Status
standing late e = if late then timeout else verdict e.state.outcomes

worsen-timeout : (s : Status) → worsen timeout s ≡ timeout
unfolding worsen
worsen-timeout s = ground arith

begin_finally-standing :
    {k : Kube} (c d : Clock) (fins : List (PipelineTask k)) (s : RunState)
    → s.overall ≡ verdict s.outcomes
    → (begin_finally c d fins s).state.overall ≡ standing (stopped c) (begin_finally c d fins s)
unfolding begin_finally
begin_finally-standing c d fins s h = ground (arith, h)

module _ {k : Kube} (p : Closing k) (nodes : List String) (fins : List (PipelineTask k)) where
  step-standing :
      (late : Bool) (before : _) {e f : Ending k}
      → Keeps nodes fins before e
      → Step p e f
      → e.state.overall ≡ standing late e
      → f.state.overall ≡ standing late f
  step-standing late before {e} {f} h s q = elim (step-shape p s) [
    | inl moves ↦ ground (arith, moves.overall, q, ap verdict moves.outcomes)
    | inr sets ↦
        let new : is_some (lookup sets.task.name e.state.outcomes) ≡ false = ground (
          arith,
          h.accounted.settled sets.task.name,
          sets.places sets.task.name,
          eq_iff sets.task.name sets.task.name,
        ) in
        ground (
          arith,
          sets.overall,
          q,
          ap verdict sets.outcomes,
          verdict-insert sets.task.name sets.outcome e.state.outcomes new,
          worsen-timeout sets.outcome.status,
        )
  ]

  reach-standing :
      (late : Bool) (before : _) {e f : Ending k}
      → Keeps nodes fins before e
      → Reach p e f
      → e.state.overall ≡ standing late e
      → f.state.overall ≡ standing late f
  reach-standing late before h here q = q
  reach-standing late before h (next way last) q =
      step-standing late before (reach-Keeps nodes fins p before h way) last
        (reach-standing late before h way q)

-- Where no two finally tasks have the same name and none is named like a main task, expanded matrix
-- rows included: however the steps of a run interleave, its status is cancelled if the run was cancelled; else it is
-- timeout if the budget of the pipeline or of the finally tasks is spent, or if the main tasks were
-- stopped, or if an outcome is a timeout; else failed if an outcome is a failure; else succeeded.
pub end_run-status :
    {k : Kube} (p : Plan k) (con : IsConsistent p) (q : Closing k) (fins : List (PipelineTask k))
    (r : Run) (d : Clock) (e : Ending k)
    → AreApart p.graph.nodes fins
    → Crossing p q fins r d e
    → (json : Json) (pl : Pipeline k)
    → (end_run json pl e).status ≡ (
        if e.clock.cancelled
        then cancelled
        else if stopped e.clock || stopped r.clock
        then timeout
        else verdict e.state.outcomes)
unfolding end_run end_status
end_run-status p con q fins r d e apart h json pl =
    let kept =
      begin-Keeps p.graph.nodes fins r.clock d r.state
        (settled-all p con h.start h.order h.ordered r h.way h.over h.quiet) apart in
    let main = overall-verdict p con h.start h.order h.ordered r h.way in
    ground (
      arith,
      reach-standing q p.graph.nodes fins (stopped r.clock) r.state.outcomes kept h.closing
          (begin_finally-standing r.clock d fins r.state main),
    )
