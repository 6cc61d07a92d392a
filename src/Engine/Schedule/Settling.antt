-- ===== src/Engine/Schedule/Settling.antt =====
-- A step that records an outcome keeps what holds of a run.
use tkn_act.Base.{
  ◌≤◌, ◌<◌, String, ◌≡◌, refl, ◌∙◌, sym, ap, subst, true, false, not, arith, ◌==◌, eq_iff, some,
  List, [], ◌∷◌, lookup, insert, lookup-insert, is_some, length, length-keep-le, mem, concat,
  occ-without, mem-eq-occ, without, if◌then◌else◌,
}
use tkn_act.Tekton.{Kube, PipelineTask}
use tkn_act.Engine.Outcome.{TaskOutcome, Message, SkipKind, skip_stopped}
use tkn_act.Engine.Run.{mark_not_run, finish_task}
use tkn_act.Engine.Run.Records.{
  started, left_out, finished, mark_not_run-outcomes, finish_task-outcomes, started-mark_not_run,
  started-finish_task,
}
use tkn_act.Engine.Schedule.{Plan, Run, in_flight, reason}
use tkn_act.Engine.Schedule.Core.{IsAccounted, settle-IsAccounted}
use tkn_act.Engine.Schedule.Blocked.{clear_insert}
use tkn_act.Engine.Schedule.Invariant.{IsConsistent, unstarted, waiting, up, IsLayeredAt, Holds}

pub length-without-lt :
    (t : String) (xs : List String) → mem t xs ≡ true → length (without t xs) < length xs
length-without-lt t [] m = absurd (cc)
length-without-lt t (x ∷ xs) m =
    ground (arith, length-without-lt t xs, length-keep-le (λ y. not (y == t)) xs)

module _ {k : Kube} (p : Plan k) (con : IsConsistent p) where
  -- What has an outcome is up.
  pub behind :
      (r : Run)
      → Holds p r
      → (x : String) → is_some (lookup x r.state.outcomes) ≡ true
      → up p.graph r.later x ≡ true
  behind r h x e = ground (arith, h.accounted.settled x, mem-eq-occ x (concat r.later))

  -- An outcome is recorded of a task that waits.
  pub settle-Holds :
      (r s : Run) (t : String) (oc : TaskOutcome)
      → Holds p r
      → 0 < waiting r t
      → s.later ≡ r.later
      → s.state.outcomes ≡ insert t oc r.state.outcomes
      → started s.state.events ≡ started r.state.events
      → ((x : String) → waiting s x ≡ (if t == x then 0 else waiting r x))
      → ((x : String) → unstarted s x ≤ unstarted r x)
      → ((x : String) → mem x s.spawned ≡ true → mem x r.spawned ≡ true)
      → s.cleared ≡ r.cleared
      → s.checked ≡ r.checked
      → in_flight s ≤ p.max_parallel
      → Holds p s
  settle-Holds r s t oc h one same_later out ev wait less sub same_cleared same_checked room =
      let new : is_some (lookup t r.state.outcomes) ≡ false =
        ground (arith, h.accounted.settled t) in
      record {
        accounted =
            subst (λ o. IsAccounted p.graph.nodes o (waiting s)) (sym out)
              (settle-IsAccounted p.graph.nodes r.state.outcomes (waiting r) (waiting s) t oc
                h.accounted (omega (arith, h.accounted.once t)) wait);
        layered = subst (IsLayeredAt p.graph) (sym same_later) h.layered;
        backed = λ v u a b. rw (out) (
            ground (
              arith,
              lookup-insert t u oc r.state.outcomes,
              h.backed v u (rw (sym same_later) a) b,
            ));
        room = room;
        single = ground (arith, h.single, same_cleared);
        once = λ x. rw (ev) (omega (arith, h.once x, less x));
        clear = λ x m.
            let (a, b) = h.clear x (ground (arith, sub x, ev, same_cleared, same_checked)) in
            (
              rw (out) (
                  clear_insert p.graph con.mirrored r.state.outcomes (up p.graph r.later) h.backed
                    (behind r h) p.main x t oc b new
                  ∙ a),
              rw (same_later) b,
            );
      }

  -- A task of the level that is being dispatched is left out.
  pub block-Holds :
      (r : Run) (t : String) (ts : List String) (pt : PipelineTask k) (msg : Message)
      (kind : SkipKind)
      → Holds p r
      → r.pending ≡ t ∷ ts
      → lookup t p.main ≡ some pt
      → Holds p
          (record r { pending = ts; state = mark_not_run p.marshal p.tasks pt msg kind r.state })
  block-Holds r t ts pt msg kind h e l =
      let n = con.named t pt l in
      settle-Holds r
        (record r { pending = ts; state = mark_not_run p.marshal p.tasks pt msg kind r.state }) t
        (left_out pt msg kind) h (ground (arith, e, eq_iff t t)) refl
        (mark_not_run-outcomes p.marshal p.tasks pt msg kind r.state
          ∙ ap (λ x. insert x (left_out pt msg kind) r.state.outcomes) n)
        (started-mark_not_run p.marshal p.tasks pt msg kind r.state)
        (λ x. ground (arith, e, h.accounted.once x, eq_iff t x, eq_iff t t))
        (λ x. ground (arith, e)) (λ x m. m) refl refl h.room

  pub give_up-Holds :
      (r : Run) (t : String) (pt : PipelineTask k)
      → Holds p r
      → mem t r.spawned ≡ true
      → lookup t p.main ≡ some pt
      → Holds p (record r {
        spawned = without t r.spawned;
        state = mark_not_run p.marshal p.tasks pt (reason p r.clock) skip_stopped r.state;
      })
  give_up-Holds r t pt h e l =
      let n = con.named t pt l in
      settle-Holds r _ t (left_out pt (reason p r.clock) skip_stopped) h
        (ground (arith, mem-eq-occ t r.spawned)) refl
        (mark_not_run-outcomes p.marshal p.tasks pt (reason p r.clock) skip_stopped r.state
          ∙ ap (λ x. insert x (left_out pt (reason p r.clock) skip_stopped) r.state.outcomes) n)
        (started-mark_not_run p.marshal p.tasks pt (reason p r.clock) skip_stopped r.state)
        (λ x. ground (
          arith,
          mem-eq-occ t r.spawned,
          occ-without x t r.spawned,
          h.accounted.once x,
          eq_iff t x,
        ))
        (λ x. ground (arith, occ-without x t r.spawned))
        (λ x m. ground (
          arith,
          mem-eq-occ x r.spawned,
          mem-eq-occ x (without t r.spawned),
          occ-without x t r.spawned,
        ))
        refl refl (omega (arith, h.room, length-without-lt t r.spawned e))

  pub finish-Holds :
      (r : Run) (t : String) (pt : PipelineTask k) (oc : TaskOutcome)
      → Holds p r
      → mem t r.active ≡ true
      → lookup t p.main ≡ some pt
      → Holds p (record r {
        active = without t r.active;
        state = finish_task p.marshal p.tasks pt oc r.state;
      })
  finish-Holds r t pt oc h e l =
      let n = con.named t pt l in
      settle-Holds r
        (record r {
          active = without t r.active;
          state = finish_task p.marshal p.tasks pt oc r.state;
        })
        t (finished pt oc) h (ground (arith, mem-eq-occ t r.active)) refl
        (finish_task-outcomes p.marshal p.tasks pt oc r.state
          ∙ ap (λ x. insert x (finished pt oc) r.state.outcomes) n)
        (started-finish_task p.marshal p.tasks pt oc r.state)
        (λ x.
          ground (
            arith,
            mem-eq-occ t r.active,
            occ-without x t r.active,
            h.accounted.once x,
            eq_iff t x,
          ))
        (λ x. omega arith) (λ x m. m) refl refl
        (omega (arith, h.room, length-without-lt t r.active e))
