-- ===== src/Engine/Schedule/Stopping.antt =====
-- What a stopped clock keeps from starting.
use tkn_act.Base.{
  String, ◌≡◌, refl, ◌∙◌, Bool, true, ◌||◌, arith, eq_iff, List, [], ◌∷◌, lookup, is_some, mem,
  mem-append, mem-without, Bool-cases, Option-cases, inl, inr,
}
use tkn_act.Tekton.{Kube}
use tkn_act.Engine.Outcome.{Message, skip_stopped, skip_blocked, task_start}
use tkn_act.Engine.Run.{RunState, stopped, mark_not_run, reclassify_budget_kill}
use tkn_act.Engine.Run.Records.{started, started-append, started-mark_not_run, started-finish_task}
use tkn_act.Engine.Schedule.{
  Plan, Run, Step, tick, enter, pass_over, block, let_in, spawn, give_up, check, start, finish,
  Reach, here, next, stop_level, reason,
}

stop_level-started :
    {k : Kube} (p : Plan k) (msg : Message) (l : List String) (s : RunState)
    → started (stop_level p msg l s).events ≡ started s.events
unfolding stop_level
stop_level-started p msg [] s = refl
stop_level-started p msg (t ∷ ts) s = elim (Bool-cases (is_some (lookup t s.outcomes))) [
  | inl old ↦ rw (stop_level, old) (stop_level-started p msg ts s)
  | inr new ↦ elim (Option-cases (lookup t p.main)) [
    | inl n ↦ rw (stop_level, new, n) (stop_level-started p msg ts s)
    | inr (pt, f) ↦
        rw (stop_level, new, f)
          (stop_level-started p msg ts (mark_not_run p.marshal p.tasks pt msg skip_stopped s)
            ∙ started-mark_not_run p.marshal p.tasks pt msg skip_stopped s)
  ]
]

-- Whose goroutine found the clock running.
abbrev pub went_ahead : Run → String → Bool
went_ahead r x = mem x r.checked || mem x (started r.state.events)

step-stopped :
    {k : Kube} (p : Plan k) {r s : Run} (x : String)
    → Step p r s
    → stopped r.clock ≡ true
    → (stopped s.clock ≡ true) × (went_ahead s x ≡ true → went_ahead r x ≡ true)
step-stopped p x (tick r c later) e =
    (ground (arith, later.cancelled, later.pipeline_over, later.phase_over), λ m. m)
step-stopped p x (enter r l ls q quiet on) e = (e, λ m. m)
step-stopped p x (pass_over r l ls q quiet off) e =
    (e, λ m. ground (arith, stop_level-started p (reason p r.clock) l r.state))
step-stopped p x (block r t ts pt msg q c f held) e =
    (e, λ m. ground (arith, started-mark_not_run p.marshal p.tasks pt msg skip_blocked r.state))
step-stopped p x (let_in r t ts pt q c f free) e = (e, λ m. m)
step-stopped p x (spawn r t q room) e = (e, λ m. m)
step-stopped p x (give_up r t pt m f off) e = (
  e,
  λ m.
      ground
        (arith, started-mark_not_run p.marshal p.tasks pt (reason p r.clock) skip_stopped r.state),
)
step-stopped p x (check r t m on) e = absurd (cc)
step-stopped p x (start r t m) e = (
  e,
  λ q. ground (
    arith,
    started-append r.state.events (task_start t ∷ []),
    mem-append x (started r.state.events) (t ∷ []),
    mem-without x t r.checked,
    eq_iff t x,
  ),
)
step-stopped p x (finish r t pt oc m f) e = (
  e,
  λ m. ground (
    arith,
    started-finish_task p.marshal p.tasks pt (reclassify_budget_kill r.clock (reason p r.clock) oc)
        r.state,
  ),
)

-- From the moment that the run is cancelled or that one of its budgets fires, the clock stays
-- stopped, and the only main tasks that are still started, whatever steps follow, are those whose
-- goroutine had read the clock before.
pub stopped-no_start :
    {k : Kube} (p : Plan k) (r s : Run) (x : String)
    → Reach p r s
    → stopped r.clock ≡ true
    → (stopped s.clock ≡ true) × (went_ahead s x ≡ true → went_ahead r x ≡ true)
stopped-no_start p r s x here e = (e, λ m. m)
stopped-no_start p r s x (next {s = q} way last) e =
    let (off, same) = stopped-no_start p r q x way e in
    let (off', same') = step-stopped p x last off in (off', λ m. same (same' m))
