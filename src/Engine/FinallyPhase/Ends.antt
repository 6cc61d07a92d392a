-- ===== src/Engine/FinallyPhase/Ends.antt =====
-- The finally tasks can always be waited for.
use tkn_act.Base.{
  ℕ, zero, suc, ◌+◌, ◌*◌, ◌≤◌, ◌<◌, ◌≡◌, ap, true, arith, List, [], ◌∷◌, length, List-cases,
  Bool-cases, Option-cases, ◌⊎◌, inl, inr,
}
use tkn_act.Tekton.{Kube, PipelineTask}
use tkn_act.Engine.Outcome.{TaskOutcome}
use tkn_act.Engine.Run.{RunState, Clock, stopped}
use tkn_act.Engine.Blocking.{missing_result_refs}
use tkn_act.Engine.FinallyPhase.{
  Closing, Ending, begin_finally, through, running, Step, tick, block, let_in, spawn, give_up,
  check, start, finish, Reach, here, next,
}
use tkn_act.Engine.FinallyPhase.Counted.{length-split}

module _ {k : Kube} (p : Closing k) where
  -- the loop waits with one task, and the group keeps its limit
  pub record IsOrderly (e : Ending k) : Type 0 where
    pub single : length e.cleared ≤ 1
    pub room : running e ≤ p.max_parallel

  step-IsOrderly : {e f : Ending k} → IsOrderly e → Step p e f → IsOrderly f
  step-IsOrderly h (tick e c later) = record { single = h.single; room = h.room }
  step-IsOrderly h (block e pt pts msg q c held) = record { single = h.single; room = h.room }
  step-IsOrderly h (let_in e pt pts q c free) = record { single = omega arith; room = h.room }
  step-IsOrderly h (spawn e pt q room) = record { single = omega arith; room = omega (arith, room) }
  step-IsOrderly h (give_up e pt before after q off) = record {
    single = h.single;
    room = omega (arith, h.room, ap length q, length-split before pt after);
  }
  step-IsOrderly h (check e pt before after q on) = record {
    single = h.single;
    room = omega (arith, h.room, ap length q, length-split before pt after);
  }
  step-IsOrderly h (start e pt before after q) = record {
    single = h.single;
    room = omega (arith, h.room, ap length q, length-split before pt after);
  }
  step-IsOrderly h (finish e pt before after oc q) = record {
    single = h.single;
    room = omega (arith, h.room, ap length q, length-split before pt after);
  }

  reach-IsOrderly : {e f : Ending k} → IsOrderly e → Reach p e f → IsOrderly f
  reach-IsOrderly h here = h
  reach-IsOrderly h (next way last) = step-IsOrderly (reach-IsOrderly h way) last

  -- how many steps are left at most, while the clock stands still
  abbrev pub steps_left : Ending k → ℕ
  steps_left e =
      length e.active
      + 2 * length e.checked
      + 3 * length e.spawned
      + 4 * length e.cleared
      + 5 * length e.pending

  abbrev pub Onward : Ending k → Type 0
  Onward e = (f : Ending k) × Step p e f × (steps_left f < steps_left e)

  onward :
      (oc : TaskOutcome) (e : Ending k)
      → IsOrderly e
      → 0 < p.max_parallel
      → (through e ≡ true) ⊎ Onward e
  onward oc e h some_room = elim (List-cases e.active) [
    | inr (pt, pts, a) ↦ inr (_, finish e pt [] pts oc a, omega (arith, ap length a))
    | inl a ↦ elim (List-cases e.checked) [
      | inr (pt, pts, b) ↦ inr (_, start e pt [] pts b, omega (arith, ap length b))
      | inl b ↦ elim (List-cases e.spawned) [
        | inr (pt, pts, c) ↦ elim (Bool-cases (stopped e.clock)) [
          | inl off ↦ inr (_, give_up e pt [] pts c off, omega (arith, ap length c))
          | inr on ↦ inr (_, check e pt [] pts c on, omega (arith, ap length c))
        ]
        | inl c ↦ elim (List-cases e.cleared) [
          | inr (pt, [], d) ↦ inr (
            _,
            spawn e pt d (omega (arith, ap length a, ap length b, ap length c, some_room)),
            omega (arith, ap length d),
          )
          | inr (pt, other ∷ more, d) ↦ absurd (omega (arith, h.single, ap length d))
          | inl d ↦ elim (List-cases e.pending) [
            | inl l ↦ inl (ground (arith, a, b, c, d, l))
            | inr (pt, pts, l) ↦
                elim (Option-cases (missing_result_refs pt e.state.outcomes p.expansions)) [
                  | inr (msg, held) ↦
                      inr (_, block e pt pts msg l d held, omega (arith, ap length l))
                  | inl free ↦
                      inr (_, let_in e pt pts l d free, omega (arith, ap length l, ap length d))
                ]
          ]
        ]
      ]
    ]
  ]

  Reach-trans : {e f g : Ending k} → Reach p e f → Reach p f g → Reach p e g
  Reach-trans way here = way
  Reach-trans way (next on last) = next (Reach-trans way on) last

  run_on :
      (oc : TaskOutcome) (fuel : ℕ) (e : Ending k)
      → IsOrderly e
      → 0 < p.max_parallel
      → steps_left e < fuel
      → (f : Ending k) × Reach p e f × (through f ≡ true)
  run_on oc zero e h room enough = elim enough [ ]
  run_on oc (suc fuel) e h room enough = elim (onward oc e h room) [
    | inl done ↦ (e, here, done)
    | inr (f, s, less) ↦
        let (g, way, done) =
          run_on oc fuel f (step-IsOrderly h s) room (omega (arith, less, enough)) in
        (g, Reach-trans (next here s) way, done)
  ]

  -- From every state that the finally tasks come to, whatever the clock has done, there are steps
  -- that lead to the end of the phase, if the group has room for one task at least; and no more than
  -- MaxParallel goroutines exist at a time.
  pub finally-can_end :
      (oc : TaskOutcome) (c d : Clock) (fins : List (PipelineTask k)) (s : RunState) (e : Ending k)
      → 0 < p.max_parallel
      → Reach p (begin_finally c d fins s) e
      → (running e ≤ p.max_parallel) × ((f : Ending k) × Reach p e f × (through f ≡ true))
  unfolding begin_finally
  finally-can_end oc c d fins s e room way =
      let h = reach-IsOrderly (record { single = omega arith; room = omega arith }) way in
      (h.room, run_on oc (suc (steps_left e)) e h room (omega arith))
