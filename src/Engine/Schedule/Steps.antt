-- ===== src/Engine/Schedule/Steps.antt =====
-- Each step keeps what holds of a run.
use tkn_act.Base.{
  ◌+◌, ◌<◌, String, ◌≡◌, refl, sym, subst, true, false, ◌&&◌, ◌||◌, not, arith, eq_iff, List, [],
  ◌∷◌, ◌++◌, lookup, is_some, mem, mem-append, concat, occ, occ-append, mem-eq-occ, all_of_mem,
  Bool-cases, Option-cases, List-cases, inl, inr,
}
use tkn_act.Dag.{preds}
use tkn_act.Dag.Levels.Rounds.{IsLayered}
use tkn_act.Tekton.{Kube}
use tkn_act.Engine.Outcome.{Message, skip_blocked, skip_stopped}
use tkn_act.Engine.Run.{mark_not_run, reclassify_budget_kill}
use tkn_act.Engine.Schedule.{
  Plan, Run, Step, tick, enter, pass_over, block, let_in, spawn, give_up, check, start, finish,
  stop_level, reason, idle, Reach, here, next,
}
use tkn_act.Engine.Schedule.Core.{move-IsAccounted}
use tkn_act.Engine.Schedule.Settling.{block-Holds, give_up-Holds, finish-Holds}
use tkn_act.Engine.Schedule.Invariant.{IsConsistent, waiting, Holds}
use tkn_act.Engine.Schedule.Moving.{let_in-Holds, spawn-Holds, check-Holds, start-Holds}

pub idle_pending : (r : Run) → idle r ≡ true → r.pending ≡ []
idle_pending r q = elim (List-cases r.pending) [
  | inl e ↦ e
  | inr (_, _, e) ↦ absurd (ground (arith, e))
]

pub idle_places :
    (r : Run)
    → idle r ≡ true
    → (x : String)
    → occ x r.active + occ x r.checked + occ x r.spawned + occ x r.cleared + occ x r.pending ≡ 0
idle_places r q x = elim (List-cases r.active) [
  | inr (_, _, e) ↦ absurd (ground (arith, e))
  | inl a ↦ elim (List-cases r.spawned) [
    | inr (_, _, e) ↦ absurd (ground (arith, e))
    | inl b ↦ elim (List-cases r.checked) [
      | inr (_, _, e) ↦ absurd (ground (arith, e))
      | inl c ↦ elim (List-cases r.cleared) [
        | inr (_, _, e) ↦ absurd (ground (arith, e))
        | inl d ↦ ground (arith, a, b, c, d, idle_pending r q)
      ]
    ]
  ]
]

module _ {k : Kube} (p : Plan k) (con : IsConsistent p) where
  enter-Holds :
      (r : Run) (l : List String) (ls : List (List String))
      → Holds p r
      → r.later ≡ l ∷ ls
      → idle r ≡ true
      → Holds p (record r { later = ls; pending = l })
  enter-Holds r l ls h e quiet =
      let at = h.layered in
      let s : Run = record r { later = ls; pending = l } in
      let (this, more) = subst (IsLayered p.graph at.done) e at.layered in
      let part : ((v : String)
          → mem v at.done ≡ (mem v p.graph.nodes && not (mem v l || mem v (concat ls)))) =
        λ v. ground (arith, at.part v, e, mem-append v l (concat ls)) in
      let wait : ((x : String) → waiting s x ≡ waiting r x) =
        λ x. ground (arith, e, idle_places r quiet x, occ-append x l (concat ls)) in
      let settled : ((u : String)
          → mem u at.done ≡ true
          → is_some (lookup u r.state.outcomes) ≡ true) =
        λ u m. ground (
          arith,
          h.accounted.settled u,
          part u,
          idle_places r quiet u,
          e,
          mem-eq-occ u l,
          mem-eq-occ u (concat ls),
          occ-append u l (concat ls),
        ) in
      record {
        accounted =
            move-IsAccounted p.graph.nodes r.state.outcomes (waiting r) (waiting s) h.accounted
              wait;
        layered = record {
          done = at.done ++ l;
          layered = more;
          part = λ v. ground (
            arith,
            mem-append v at.done l,
            part v,
            this v,
            mem-eq-occ v l,
            mem-eq-occ v (concat ls),
            wait v,
            h.accounted.once v,
          );
        };
        backed = λ v u a b. elim (Bool-cases (mem v l)) [
          | inl m ↦
              settled u
                (all_of_mem (λ u. mem u at.done) (preds p.graph v) u (ground (arith, this v)) b)
          | inr n ↦ h.backed v u (ground (arith, e, mem-append v l (concat ls))) b
        ];
        room = h.room;
        single = h.single;
        once = λ x. ground (arith, h.once x, e, idle_places r quiet x, occ-append x l (concat ls));
        clear =
            λ x m. ((h.clear x m).0, ground (arith, h.clear x m, e, mem-append x l (concat ls)));
      }

  drain-Holds :
      (l : List String) (msg : Message) (r : Run)
      → Holds p r
      → r.pending ≡ l
      → Holds p (record r { pending = []; state = stop_level p msg l r.state })
  unfolding stop_level
  drain-Holds [] msg r h e = subst (λ q. Holds p (record r { pending = q })) e h
  drain-Holds (t ∷ ts) msg r h e =
      let waits : 0 < waiting r t = ground (arith, e, eq_iff t t) in
      elim (Option-cases (lookup t p.main)) [
        | inl n ↦ absurd (ground (arith, con.planned t, h.accounted.known t))
        | inr (pt, f) ↦
            let new : is_some (lookup t r.state.outcomes) ≡ false =
              ground (arith, h.accounted.settled t) in
            rw (stop_level, new, f)
              (drain-Holds ts msg
                (record r {
                  pending = ts;
                  state = mark_not_run p.marshal p.tasks pt msg skip_stopped r.state;
                })
                (block-Holds p con r t ts pt msg skip_stopped h e f) refl)
      ]

  pass_over-Holds :
      (r : Run) (l : List String) (ls : List (List String)) (msg : Message)
      → Holds p r
      → r.later ≡ l ∷ ls
      → idle r ≡ true
      → Holds p (record r { later = ls; state = stop_level p msg l r.state })
  pass_over-Holds r l ls msg h e quiet =
      subst
        (λ q. Holds p (record r { later = ls; pending = q; state = stop_level p msg l r.state }))
        (sym (idle_pending r quiet))
        (drain-Holds l msg (record r { later = ls; pending = l }) (enter-Holds r l ls h e quiet)
          refl)

  pub step-Holds : {r s : Run} → Holds p r → Step p r s → Holds p s
  step-Holds h (tick r c later) = record {
    accounted = h.accounted;
    layered = h.layered;
    backed = h.backed;
    room = h.room;
    single = h.single;
    once = h.once;
    clear = h.clear;
  }
  step-Holds h (enter r l ls e quiet on) = enter-Holds r l ls h e quiet
  step-Holds h (pass_over r l ls e quiet off) = pass_over-Holds r l ls (reason p r.clock) h e quiet
  step-Holds h (block r t ts pt msg e c l held) = block-Holds p con r t ts pt msg skip_blocked h e l
  step-Holds h (let_in r t ts pt e c l free) = let_in-Holds p con r t ts pt h e c free
  step-Holds h (spawn r t e room) = spawn-Holds p con r t h e room
  step-Holds h (give_up r t pt m l off) = give_up-Holds p con r t pt h m l
  step-Holds h (check r t m on) = check-Holds p con r t h m
  step-Holds h (start r t m) = start-Holds p con r t h m
  step-Holds h (finish r t pt oc m l) =
      finish-Holds p con r t pt (reclassify_budget_kill r.clock (reason p r.clock) oc) h m l

  pub reach-Holds : {r s : Run} → Holds p r → Reach p r s → Holds p s
  reach-Holds h here = h
  reach-Holds h (next way last) = step-Holds (reach-Holds h way) last
