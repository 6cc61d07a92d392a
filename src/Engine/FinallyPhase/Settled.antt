-- ===== src/Engine/FinallyPhase/Settled.antt =====
-- Every finally task gets one outcome, and the main tasks keep theirs.
use tkn_act.Base.{
  ◌≤◌, ◌<◌, String, ◌≡◌, refl, ◌∙◌, sym, subst, ap, true, false, ◌||◌, not, arith, eq_iff, List, [],
  ◌∷◌, ◌++◌, Map, map, lookup, lookup-insert, is_some, mem, mem-append, nat_eq, List-cases, ok, inl,
  inr,
}
use tkn_act.Dag.{levels}
use tkn_act.Tekton.{Kube, PipelineTask}
use tkn_act.Engine.Outcome.{TaskOutcome}
use tkn_act.Engine.Run.{RunState, Clock}
use tkn_act.Engine.Schedule.{Plan, Run, idle}
use tkn_act.Engine.Schedule.Core.{IsAccounted, settle-IsAccounted, move-IsAccounted}
use tkn_act.Engine.FinallyPhase.{Closing, Ending, begin_finally, through, Step, Reach, here, next}
use tkn_act.Engine.FinallyPhase.Counted.{count, waits, step-shape}
use tkn_act.Engine.Schedule as Main
use tkn_act.Engine.Schedule.Invariant.{IsConsistent}
use tkn_act.Engine.Schedule.Safety.{settled-all}

abbrev pub names : {k : Kube} → List (PipelineTask k) → List String
names fins = map (λ pt. pt.name) fins

pub mem-names :
    {k : Kube} (x : String) (fins : List (PipelineTask k))
    → mem x (names fins) ≡ not (nat_eq (count x fins) 0)
mem-names x [] = refl
mem-names x (pt ∷ fins) = ground (arith, mem-names x fins)

-- The finally tasks have names of their own: no two share one, and none is named like a node of the
-- graph, where the rows of a matrix stand under their expanded names.
pub record AreApart {k : Kube} (nodes : List String) (fins : List (PipelineTask k)) : Type 0 where
  pub once : (x : String) → count x fins ≤ 1
  pub new : (x : String) → mem x (names fins) ≡ true → mem x nodes ≡ false

-- What holds while the finally tasks run; `before` are the outcomes of the main tasks.
pub record Keeps {k : Kube} (nodes : List String) (fins : List (PipelineTask k))
    (before : Map TaskOutcome) (e : Ending k) : Type 0 where
  pub accounted : IsAccounted (nodes ++ names fins) e.state.outcomes (waits e)
  pub main : (x : String) → mem x (names fins) ≡ false → lookup x e.state.outcomes ≡ lookup x before
  pub named : (x : String) → 0 < waits e x → mem x (names fins) ≡ true

module _ {k : Kube} (nodes : List String) (fins : List (PipelineTask k)) where
  pub begin-Keeps :
      (c d : Clock) (s : RunState)
      → ((x : String) → is_some (lookup x s.outcomes) ≡ mem x nodes)
      → AreApart nodes fins
      → Keeps nodes fins s.outcomes (begin_finally c d fins s)
  unfolding begin_finally
  begin-Keeps c d s all apart = record {
    accounted = record {
      once = λ x. ground (arith, apart.once x);
      settled = λ x.
          ground (arith, all x, mem-append x nodes (names fins), mem-names x fins, apart.new x);
      known = λ x m. ground (arith, mem-append x nodes (names fins), mem-names x fins);
    };
    main = λ x n. refl;
    named = λ x m. ground (arith, mem-names x fins);
  }

  pub step-Keeps :
      (p : Closing k) (before : Map TaskOutcome) {e f : Ending k}
      → Keeps nodes fins before e
      → Step p e f
      → Keeps nodes fins before f
  step-Keeps p before {e} {f} h s = elim (step-shape p s) [
    | inl moves ↦ record {
      accounted =
          subst (λ m. IsAccounted (nodes ++ names fins) m (waits f)) (sym moves.outcomes)
            (move-IsAccounted (nodes ++ names fins) e.state.outcomes (waits e) (waits f) h.accounted
              moves.places);
      main = λ x n. ap (lookup x) moves.outcomes ∙ h.main x n;
      named = λ x m. h.named x (ground (arith, moves.places x));
    }
    | inr sets ↦ record {
      accounted =
          subst (λ m. IsAccounted (nodes ++ names fins) m (waits f)) (sym sets.outcomes)
            (settle-IsAccounted (nodes ++ names fins) e.state.outcomes (waits e) (waits f)
              sets.task.name sets.outcome h.accounted
              (ground (
                arith,
                sets.places sets.task.name,
                h.accounted.once sets.task.name,
                eq_iff sets.task.name sets.task.name,
              ))
              (λ x. ground (arith, sets.places x, h.accounted.once x, eq_iff sets.task.name x)));
      main = λ x n.
          ap (lookup x) sets.outcomes
          ∙ ground (
            arith,
            lookup-insert sets.task.name x sets.outcome e.state.outcomes,
            h.main x n,
            h.named x,
            sets.places x,
            eq_iff sets.task.name x,
          );
      named = λ x m. h.named x (ground (arith, sets.places x));
    }
  ]

  pub reach-Keeps :
      (p : Closing k) (before : Map TaskOutcome) {e f : Ending k}
      → Keeps nodes fins before e
      → Reach p e f
      → Keeps nodes fins before f
  reach-Keeps p before h here = h
  reach-Keeps p before h (next way last) = step-Keeps p before (reach-Keeps p before h way) last

through-waits : {k : Kube} (e : Ending k) → through e ≡ true → (x : String) → waits e x ≡ 0
through-waits e q x = elim (List-cases e.active) [
  | inr (_, _, a) ↦ absurd (ground (arith, a))
  | inl a ↦ elim (List-cases e.checked) [
    | inr (_, _, b) ↦ absurd (ground (arith, b))
    | inl b ↦ elim (List-cases e.spawned) [
      | inr (_, _, c) ↦ absurd (ground (arith, c))
      | inl c ↦ elim (List-cases e.cleared) [
        | inr (_, _, d) ↦ absurd (ground (arith, d))
        | inl d ↦ elim (List-cases e.pending) [
          | inr (_, _, l) ↦ absurd (ground (arith, l))
          | inl l ↦ ground (
            arith,
            ap (count x) a,
            ap (count x) b,
            ap (count x) c,
            ap (count x) d,
            ap (count x) l,
          )
        ]
      ]
    ]
  ]
]

-- A run that went through the levels of a pipeline's graph and into its finally tasks.
pub record Crossing {k : Kube} (p : Plan k) (q : Closing k) (fins : List (PipelineTask k)) (r : Run)
    (d : Clock) (e : Ending k) : Type 0 where
  pub start : Clock
  pub order : List (List String)
  pub ordered : levels p.graph ≡ ok order
  pub way : Main.Reach p (Main.begin start order) r
  pub over : r.later ≡ []
  pub quiet : idle r ≡ true
  pub closing : Reach q (begin_finally r.clock d fins r.state) e

pub Crossing-Keeps :
    {k : Kube} (p : Plan k) (con : IsConsistent p) (q : Closing k) (fins : List (PipelineTask k))
    (r : Run) (d : Clock) (e : Ending k)
    → AreApart p.graph.nodes fins
    → Crossing p q fins r d e
    → Keeps p.graph.nodes fins r.state.outcomes e
Crossing-Keeps p con q fins r d e apart h =
    reach-Keeps p.graph.nodes fins q r.state.outcomes
      (begin-Keeps p.graph.nodes fins r.clock d r.state
        (settled-all p con h.start h.order h.ordered r h.way h.over h.quiet) apart)
      h.closing

-- Where no two finally tasks have the same name and none is named like a main task, expanded matrix
-- rows included, a main task keeps the outcome that it had, however the run goes on into its finally
-- tasks; and when the group of the finally tasks has been waited for, the tasks with an outcome are
-- the main tasks and the finally tasks, none left out.
pub finally-settled :
    {k : Kube} (p : Plan k) (con : IsConsistent p) (q : Closing k) (fins : List (PipelineTask k))
    (r : Run) (d : Clock) (e : Ending k)
    → AreApart p.graph.nodes fins
    → Crossing p q fins r d e
    → ((x : String)
        → mem x p.graph.nodes ≡ true
        → lookup x e.state.outcomes ≡ lookup x r.state.outcomes)
      × (through e ≡ true
          → (x : String)
          → is_some (lookup x e.state.outcomes) ≡ (mem x p.graph.nodes || mem x (names fins)))
finally-settled p con q fins r d e apart h =
    let kept = Crossing-Keeps p con q fins r d e apart h in
    (
      λ x m. kept.main x (ground (arith, apart.new x)),
      λ done x. ground (
        arith,
        kept.accounted.settled x,
        through-waits e done x,
        mem-append x p.graph.nodes (names fins),
      ),
    )
