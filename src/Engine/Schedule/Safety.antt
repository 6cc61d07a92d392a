-- ===== src/Engine/Schedule/Safety.antt =====
-- What no order of the steps can break.
use tkn_act.Base.{
  ◌+◌, ◌≤◌, String, ◌≡◌, refl, ◌∙◌, true, arith, eq_iff, none, List, [], ◌∷◌, lookup, lookup-insert,
  is_some, mem, mem-eq-occ, concat, occ, occ-le-one, ok, Bool-cases, Option-cases, inl, inr, subst,
}
use tkn_act.Dag.{levels}
use tkn_act.Dag.Reach.{Reaches}
use tkn_act.Dag.Levels.Verdicts.{IsRight, levels-IsRight}
use tkn_act.Tekton.{Kube}
use tkn_act.Engine.Outcome.{Message, skip_stopped, skip_blocked}
use tkn_act.Engine.Run.{RunState, Clock, mark_not_run, reclassify_budget_kill}
use tkn_act.Engine.Run.Records.{
  started, left_out, finished, mark_not_run-outcomes, finish_task-outcomes,
}
use tkn_act.Engine.Blocking.{upstream_blocks_dispatch}
use tkn_act.Engine.Schedule.{
  Plan, Run, begin, idle, in_flight, Step, tick, enter, pass_over, block, let_in, spawn, give_up,
  check, start, finish, Reach, here, next, stop_level, reason,
}
use tkn_act.Engine.Schedule.Blocked.{Reaches-settled}
use tkn_act.Engine.Schedule.Invariant.{IsConsistent, unstarted, up, Holds}
use tkn_act.Engine.Schedule.Settling.{behind}
use tkn_act.Engine.Schedule.Steps.{reach-Holds, idle_places}

module _ {k : Kube} (p : Plan k) (con : IsConsistent p) where
  pub begin-Holds :
      (c : Clock) (ls : List (List String)) → levels p.graph ≡ ok ls → Holds p (begin c ls)
  unfolding begin lookup
  begin-Holds c ls e =
      let g = subst (IsRight p.graph) e (levels-IsRight p.graph con.mirrored) in
      record {
        accounted = record {
          once = λ x. omega (arith, occ-le-one x (concat ls) g.once);
          settled = λ x. ground (arith, g.covers x, mem-eq-occ x (concat ls));
          known = λ x m. ground (arith, g.covers x, mem-eq-occ x (concat ls));
        };
        layered = record { done = []; layered = g.layered; part = λ v. ground (arith, g.covers v) };
        backed = λ v u a b. ground (arith, g.covers v);
        room = omega arith;
        single = omega arith;
        once = λ x. omega (arith, occ-le-one x (concat ls) g.once);
        clear = λ t m. absurd (cc);
      }

  -- What follows holds in every state that the loop over the levels of the graph comes to.
  module _ (c : Clock) (ls : List (List String)) (lev : levels p.graph ≡ ok ls) (r : Run)
      (way : Reach p (begin c ls) r) where
    abbrev holds : Holds p r
    holds = reach-Holds p con (begin-Holds c ls lev) way

    -- Whenever a main task has been started, in whatever order the goroutines took their steps,
    -- each of its ancestors in the graph has its outcome, and the verdict on its ancestors, with the
    -- outcomes recorded by then, does not hold it back.
    pub started-unblocked :
        (t : String)
        → mem t (started r.state.events) ≡ true
        → ((a : String) → Reaches p.graph a t → is_some (lookup a r.state.outcomes) ≡ true)
          × (upstream_blocks_dispatch p.main r.state.outcomes p.graph t ≡ none)
    started-unblocked t m =
        let (free, is_up) = holds.clear t (ground arith) in
        (
          λ a path.
              Reaches-settled p.graph con.mirrored r.state.outcomes (up p.graph r.later)
                holds.backed (behind p con r holds) a t is_up path,
          free,
        )

    -- No more than MaxParallel goroutines of a level exist at a time, a task is started at most once,
    -- and a task that was started does not wait to be started.
    pub started-once :
        (in_flight r ≤ p.max_parallel)
        × ((x : String) → occ x (started r.state.events) + unstarted r x ≤ 1)
    started-once = (holds.room, holds.once)

    -- When the levels are through and the last group has been waited for, the tasks that have an
    -- outcome are those of the graph: none is left without one.
    pub settled-all :
        r.later ≡ []
        → idle r ≡ true
        → (x : String) → is_some (lookup x r.state.outcomes) ≡ mem x p.graph.nodes
    settled-all e quiet x = ground (arith, holds.accounted.settled x, idle_places r quiet x, e)

  stop_level-keeps :
      (msg : Message) (l : List String) (s : RunState) (x : String)
      → is_some (lookup x s.outcomes) ≡ true
      → lookup x (stop_level p msg l s).outcomes ≡ lookup x s.outcomes
  unfolding stop_level
  stop_level-keeps msg [] s x e = refl
  stop_level-keeps msg (t ∷ ts) s x e = elim (Bool-cases (is_some (lookup t s.outcomes))) [
    | inl old ↦ rw (stop_level, old) (stop_level-keeps msg ts s x e)
    | inr new ↦ elim (Option-cases (lookup t p.main)) [
      | inl n ↦ rw (stop_level, new, n) (stop_level-keeps msg ts s x e)
      | inr (pt, f) ↦
          let s' = mark_not_run p.marshal p.tasks pt msg skip_stopped s in
          let same : lookup x s'.outcomes ≡ lookup x s.outcomes =
            rw (mark_not_run-outcomes p.marshal p.tasks pt msg skip_stopped s) (
              ground (
                arith,
                lookup-insert pt.name x (left_out pt msg skip_stopped) s.outcomes,
                con.named t pt f,
                eq_iff t x,
              )) in
          rw (stop_level, new, f) (stop_level-keeps msg ts s' x (ground (arith, same)) ∙ same)
    ]
  ]

  -- A step leaves the outcomes that are recorded as they are.
  step-keeps :
      {r s : Run} (x : String)
      → Holds p r
      → Step p r s
      → is_some (lookup x r.state.outcomes) ≡ true
      → lookup x s.state.outcomes ≡ lookup x r.state.outcomes
  step-keeps x h (tick r c later) e = refl
  step-keeps x h (enter r l ls q quiet on) e = refl
  step-keeps x h (pass_over r l ls q quiet off) e =
      stop_level-keeps (reason p r.clock) l r.state x e
  step-keeps x h (block r t ts pt msg q c f held) e =
      rw (mark_not_run-outcomes p.marshal p.tasks pt msg skip_blocked r.state) (
        ground (
          arith,
          lookup-insert pt.name x (left_out pt msg skip_blocked) r.state.outcomes,
          con.named t pt f,
          eq_iff t x,
          h.accounted.settled x,
          q,
        ))
  step-keeps x h (let_in r t ts pt q c f free) e = refl
  step-keeps x h (spawn r t q room) e = refl
  step-keeps x h (give_up r t pt m f off) e =
      rw (mark_not_run-outcomes p.marshal p.tasks pt (reason p r.clock) skip_stopped r.state) (
        ground (
          arith,
          lookup-insert pt.name x (left_out pt (reason p r.clock) skip_stopped) r.state.outcomes,
          con.named t pt f,
          eq_iff t x,
          h.accounted.settled x,
          mem-eq-occ t r.spawned,
        ))
  step-keeps x h (check r t m on) e = refl
  step-keeps x h (start r t m) e = refl
  step-keeps x h (finish r t pt oc m f) e =
      let oc' = reclassify_budget_kill r.clock (reason p r.clock) oc in
      rw (finish_task-outcomes p.marshal p.tasks pt oc' r.state) (
        ground (
          arith,
          lookup-insert pt.name x (finished pt oc') r.state.outcomes,
          con.named t pt f,
          eq_iff t x,
          h.accounted.settled x,
          mem-eq-occ t r.active,
        ))

  reach-keeps :
      (r s : Run) (x : String)
      → Holds p r
      → Reach p r s
      → is_some (lookup x r.state.outcomes) ≡ true
      → lookup x s.state.outcomes ≡ lookup x r.state.outcomes
  reach-keeps r s x h here e = refl
  reach-keeps r s x h (next {s = q} way last) e =
      let before = reach-keeps r q x h way e in
      step-keeps x (reach-Holds p con h way) last (ground (arith, before)) ∙ before

  -- Once an outcome is recorded, every later state of the run has the same outcome for that task.
  pub outcome-final :
      (c : Clock) (ls : List (List String)) (r s : Run) (x : String)
      → levels p.graph ≡ ok ls
      → Reach p (begin c ls) r
      → Reach p r s
      → is_some (lookup x r.state.outcomes) ≡ true
      → lookup x s.state.outcomes ≡ lookup x r.state.outcomes
  outcome-final c ls r s x lev way on e =
      reach-keeps r s x (reach-Holds p con (begin-Holds c ls lev) way) on e
