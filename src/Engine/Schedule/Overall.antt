-- ===== src/Engine/Schedule/Overall.antt =====
-- What the overall status says of the recorded outcomes.
use tkn_act.Base.{
  String, ◌≡◌, refl, ◌∙◌, sym, Bool, true, false, ◌||◌, arith, eq_iff, some, List, [], ◌∷◌, Map,
  lookup, insert, is_some, any, mem, mem-eq-occ, if◌then◌else◌, ok, Bool-cases, Option-cases, inl,
  inr,
}
use tkn_act.Dag.{levels}
use tkn_act.Tekton.{Kube, PipelineTask}
use tkn_act.Engine.Outcome.{
  Status, succeeded, failed, timeout, is_failure, is_timeout, is_skipped, TaskOutcome, Message,
  SkipKind, skip_stopped, skip_blocked,
}
use tkn_act.Engine.Run.{
  RunState, Clock, worsen, record_outcome, mark_not_run, finish_task, reclassify_budget_kill,
  with_matrix,
}
use tkn_act.Engine.Run.Records.{left_out, finished, finish_task-outcomes}
use tkn_act.Engine.Schedule.{
  Plan, Run, begin, Step, tick, enter, pass_over, block, let_in, spawn, give_up, check, start,
  finish, Reach, here, next, stop_level, reason,
}
use tkn_act.Engine.Schedule.Invariant.{IsConsistent, Holds}
use tkn_act.Engine.Schedule.Steps.{reach-Holds}
use tkn_act.Engine.Schedule.Safety.{begin-Holds}

-- A budget kill outweighs a failure; a task that did not run is no failure.
abbrev pub verdict : Map TaskOutcome → Status
verdict outcomes =
    if any (λ e. is_timeout e.1.status) outcomes
    then timeout
    else if any (λ e. is_failure e.1.status) outcomes
    then failed
    else succeeded

any-insert :
    (p : TaskOutcome → Bool) (t : String) (oc : TaskOutcome) (m : Map TaskOutcome)
    → is_some (lookup t m) ≡ false
    → any (λ e. p e.1) (insert t oc m) ≡ (any (λ e. p e.1) m || p oc)
unfolding insert lookup
any-insert p t oc [] e = ground arith
any-insert p t oc ((j, v) ∷ m) e = ground (arith, any-insert p t oc m, eq_iff j t)

pub verdict-insert :
    (t : String) (oc : TaskOutcome) (m : Map TaskOutcome)
    → is_some (lookup t m) ≡ false
    → verdict (insert t oc m) ≡ worsen (verdict m) oc.status
unfolding worsen
verdict-insert t oc m e = ground (
  arith,
  any-insert (λ o. is_timeout o.status) t oc m e,
  any-insert (λ o. is_failure o.status) t oc m e,
)

module _ {k : Kube} (p : Plan k) (con : IsConsistent p) where
  skip-verdict :
      (pt : PipelineTask k) (msg : Message) (kind : SkipKind) (s : RunState)
      → is_some (lookup pt.name s.outcomes) ≡ false
      → s.overall ≡ verdict s.outcomes
      → (mark_not_run p.marshal p.tasks pt msg kind s).overall
        ≡ verdict (mark_not_run p.marshal p.tasks pt msg kind s).outcomes
  unfolding mark_not_run record_outcome worsen
  skip-verdict pt msg kind s new e =
      e ∙ sym (verdict-insert pt.name (left_out pt msg kind) s.outcomes new)

  finish-verdict :
      (pt : PipelineTask k) (oc : TaskOutcome) (s : RunState)
      → is_some (lookup pt.name s.outcomes) ≡ false
      → s.overall ≡ verdict s.outcomes
      → (finish_task p.marshal p.tasks pt oc s).overall
        ≡ verdict (finish_task p.marshal p.tasks pt oc s).outcomes
  unfolding finish_task record_outcome worsen
  finish-verdict pt oc s new e =
      rw
        (
          finish_task-outcomes p.marshal p.tasks pt oc s,
          verdict-insert pt.name (finished pt oc) s.outcomes new,
        )
        (elim (Bool-cases (is_skipped (with_matrix pt oc).status)) [
          | inl f ↦ rw (f, finish_task) (ground (arith, e))
          | inr f ↦ rw (f, finish_task) (ground (arith, e))
        ])

  stop-verdict :
      (msg : Message) (l : List String) (s : RunState)
      → s.overall ≡ verdict s.outcomes
      → (stop_level p msg l s).overall ≡ verdict (stop_level p msg l s).outcomes
  unfolding stop_level
  stop-verdict msg [] s e = e
  stop-verdict msg (t ∷ ts) s e = elim (Bool-cases (is_some (lookup t s.outcomes))) [
    | inl old ↦ rw (stop_level, old) (stop-verdict msg ts s e)
    | inr new ↦ elim (Option-cases (lookup t p.main)) [
      | inl n ↦ rw (stop_level, new, n) (stop-verdict msg ts s e)
      | inr (pt, f) ↦
          rw (stop_level, new, f)
            (stop-verdict msg ts (mark_not_run p.marshal p.tasks pt msg skip_stopped s)
              (skip-verdict pt msg skip_stopped s (ground (arith, con.named t pt f)) e))
    ]
  ]

  new_entry :
      (r : Run) (t : String) (pt : PipelineTask k)
      → Holds p r
      → lookup t p.main ≡ some pt
      → mem t r.pending || mem t r.spawned || mem t r.active ≡ true
      → is_some (lookup pt.name r.state.outcomes) ≡ false
  new_entry r t pt h f m = ground (
    arith,
    con.named t pt f,
    h.accounted.settled t,
    mem-eq-occ t r.pending,
    mem-eq-occ t r.spawned,
    mem-eq-occ t r.active,
  )

  step-verdict :
      {r s : Run}
      → Holds p r
      → Step p r s
      → r.state.overall ≡ verdict r.state.outcomes
      → s.state.overall ≡ verdict s.state.outcomes
  step-verdict h (tick r c later) e = e
  step-verdict h (enter r l ls q quiet on) e = e
  step-verdict h (pass_over r l ls q quiet off) e = stop-verdict (reason p r.clock) l r.state e
  step-verdict h (block r t ts pt msg q c f held) e =
      skip-verdict pt msg skip_blocked r.state
        (new_entry r t pt h f (ground (arith, q, eq_iff t t))) e
  step-verdict h (let_in r t ts pt q c f free) e = e
  step-verdict h (spawn r t q room) e = e
  step-verdict h (give_up r t pt m f off) e =
      skip-verdict pt (reason p r.clock) skip_stopped r.state
        (new_entry r t pt h f (ground (arith, m))) e
  step-verdict h (check r t m on) e = e
  step-verdict h (start r t m) e = e
  step-verdict h (finish r t pt oc m f) e =
      finish-verdict pt (reclassify_budget_kill r.clock (reason p r.clock) oc) r.state
        (new_entry r t pt h f (ground (arith, m))) e

  -- At all times in the loop over the levels the overall status is what the recorded outcomes
  -- amount to, whatever order they came in: timeout if one of them is a timeout, else failed if
  -- one of them failed or could not be run, else succeeded.
  pub overall-verdict :
      (c : Clock) (ls : List (List String))
      → levels p.graph ≡ ok ls
      → (r : Run) → Reach p (begin c ls) r
      → r.state.overall ≡ verdict r.state.outcomes
  unfolding begin
  overall-verdict c ls lev r here = refl
  overall-verdict c ls lev r (next {s = q} way last) =
      step-verdict (reach-Holds p con (begin-Holds p con c ls lev) way) last
        (overall-verdict c ls lev q way)
