-- ===== src/Engine/Schedule/Moving.antt =====
-- A step that moves a task from one place to another keeps what holds of a run.
use tkn_act.Base.{
  ◌<◌, String, ◌≡◌, true, arith, eq_iff, none, List, [], ◌∷◌, ◌++◌, mem, mem-append, concat,
  occ-append, occ-without, mem-eq-occ, without,
}
use tkn_act.Tekton.{Kube, PipelineTask}
use tkn_act.Engine.Outcome.{task_start}
use tkn_act.Engine.Run.{RunState}
use tkn_act.Engine.Run.Records.{started, started-append}
use tkn_act.Engine.Blocking.{upstream_blocks_dispatch}
use tkn_act.Engine.Schedule.{Plan, Run, in_flight, held_back}
use tkn_act.Engine.Schedule.Core.{move-IsAccounted}
use tkn_act.Engine.Schedule.Settling.{length-without-lt}
use tkn_act.Engine.Schedule.Invariant.{IsConsistent, waiting, Holds}

module _ {k : Kube} (p : Plan k) (con : IsConsistent p) where
  let_through :
      (pt : PipelineTask k) (t : String) (s : RunState)
      → held_back p pt t s ≡ none
      → upstream_blocks_dispatch p.main s.outcomes p.graph t ≡ none
  unfolding held_back
  let_through pt t s e = ground arith

  pub let_in-Holds :
      (r : Run) (t : String) (ts : List String) (pt : PipelineTask k)
      → Holds p r
      → r.pending ≡ t ∷ ts
      → r.cleared ≡ []
      → held_back p pt t r.state ≡ none
      → Holds p (record r { pending = ts; cleared = t ∷ [] })
  let_in-Holds r t ts pt h e c free = record {
    accounted =
        move-IsAccounted p.graph.nodes r.state.outcomes (waiting r)
          (waiting (record r { pending = ts; cleared = t ∷ [] })) h.accounted
          (λ x. ground (arith, e, c));
    layered = h.layered;
    backed = h.backed;
    room = h.room;
    single = omega arith;
    once = λ x. ground (arith, e, c, h.once x);
    clear = λ x m. (
      ground (arith, let_through pt t r.state free, eq_iff t x, h.clear x),
      ground (
        arith,
        h.clear x,
        eq_iff t x,
        e,
        h.accounted.known t,
        h.accounted.once t,
        mem-eq-occ t (concat r.later),
      ),
    );
  }

  pub spawn-Holds :
      (r : Run) (t : String)
      → Holds p r
      → r.cleared ≡ t ∷ []
      → in_flight r < p.max_parallel
      → Holds p (record r { cleared = []; spawned = t ∷ r.spawned })
  spawn-Holds r t h e room = record {
    accounted =
        move-IsAccounted p.graph.nodes r.state.outcomes (waiting r)
          (waiting (record r { cleared = []; spawned = t ∷ r.spawned })) h.accounted
          (λ x. ground (arith, e));
    layered = h.layered;
    backed = h.backed;
    room = omega (arith, room);
    single = omega arith;
    once = λ x. ground (arith, e, h.once x);
    clear = λ x m. h.clear x (ground (arith, e));
  }

  pub check-Holds :
      (r : Run) (t : String)
      → Holds p r
      → mem t r.spawned ≡ true
      → Holds p (record r { spawned = without t r.spawned; checked = t ∷ r.checked })
  check-Holds r t h e = record {
    accounted =
        move-IsAccounted p.graph.nodes r.state.outcomes (waiting r)
          (waiting (record r { spawned = without t r.spawned; checked = t ∷ r.checked }))
          h.accounted
          (λ x. ground (
            arith,
            mem-eq-occ t r.spawned,
            occ-without x t r.spawned,
            h.accounted.once x,
            eq_iff t x,
          ));
    layered = h.layered;
    backed = h.backed;
    room = omega (arith, h.room, length-without-lt t r.spawned e);
    single = h.single;
    once = λ x.
        ground (arith, h.once x, mem-eq-occ t r.spawned, occ-without x t r.spawned, eq_iff t x);
    clear = λ x m. h.clear x (
        ground (
          arith,
          eq_iff t x,
          mem-eq-occ x r.spawned,
          mem-eq-occ x (without t r.spawned),
          occ-without x t r.spawned,
        ));
  }

  pub start-Holds :
      (r : Run) (t : String)
      → Holds p r
      → mem t r.checked ≡ true
      → Holds p (record r {
        checked = without t r.checked;
        active = t ∷ r.active;
        state = record r.state { events = r.state.events ++ task_start t ∷ [] };
      })
  start-Holds r t h e =
      let more = started-append r.state.events (task_start t ∷ []) in
      record {
        accounted =
            move-IsAccounted p.graph.nodes r.state.outcomes (waiting r)
              (waiting (record r { checked = without t r.checked; active = t ∷ r.active }))
              h.accounted
              (λ x. ground (
                arith,
                mem-eq-occ t r.checked,
                occ-without x t r.checked,
                h.accounted.once x,
                eq_iff t x,
              ));
        layered = h.layered;
        backed = h.backed;
        room = omega (arith, h.room, length-without-lt t r.checked e);
        single = h.single;
        once = λ x.
            rw (more, occ-append)
              (ground
                (arith, h.once x, mem-eq-occ t r.checked, occ-without x t r.checked, eq_iff t x));
        clear = λ x m. h.clear x (
            ground (
              arith,
              more,
              mem-append x (started r.state.events) (t ∷ []),
              eq_iff t x,
              mem-eq-occ x r.checked,
              mem-eq-occ x (without t r.checked),
              occ-without x t r.checked,
            ));
      }
