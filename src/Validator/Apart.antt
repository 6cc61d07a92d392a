-- ===== src/Validator/Apart.antt =====
-- The names that rules 4 and 5 of validator.go keep apart, as the graph of a run and its finally
-- tasks have them.
use tkn_act.Base.{
  ◌≤◌, String, ◌≡◌, arith, Bool, true, false, not, List, [], ◌∷◌, all, mem, Map, Distinct, eq_iff,
  ok,
}
use tkn_act.Base.Integers.{ℤ}
use tkn_act.Base.{Option}
use tkn_act.Tekton.{Kube, PipelineTask, Pipeline}
use tkn_act.Validator.Names.{names_of}
use tkn_act.Validator.Accepted.{IsAccepted}
use tkn_act.Engine.Run.{build_graph}
use tkn_act.Engine.Run.Wiring.{build_graph-fits}
use tkn_act.Engine.Matrix.{has_any_matrix, expand_matrix}
use tkn_act.Engine.FinallyPhase.Counted.{count}
use tkn_act.Engine.FinallyPhase.Settled.{names, mem-names, AreApart}

all-mem :
    (p : String → Bool) (x : String) (xs : List String)
    → all p xs ≡ true
    → mem x xs ≡ true
    → p x ≡ true
all-mem p x [] h m = absurd (cc)
all-mem p x (y ∷ ys) h m = ground (arith, all-mem p x ys, eq_iff y x)

module _ {k : Kube} where
  count-le : (x : String) (fins : List (PipelineTask k)) → Distinct (names fins) → count x fins ≤ 1
  count-le x [] d = omega arith
  count-le x (pt ∷ fins) d = ground (arith, count-le x fins, mem-names x fins, eq_iff pt.name x)

  -- A pipeline that the validator accepts and that has no matrix is run as it stands, and its finally
  -- tasks have names of their own.
  accepted-AreApart :
      (parse_duration : String → Option ℤ) (pl : Pipeline k) (expansions : Map (List String))
      → IsAccepted parse_duration pl
      → has_any_matrix pl ≡ false
      → (expand_matrix pl ≡ ok pl) × AreApart (build_graph expansions pl.tasks).nodes pl.finally
  unfolding expand_matrix
  accepted-AreApart parse_duration pl expansions h plain = (
    ground (arith, plain),
    record {
      once = λ x. count-le x pl.finally h.finally_unique;
      new = λ x m. ground (
        arith,
        ((build_graph-fits expansions pl.tasks).1 x).0,
        all-mem (λ n. not (mem n (names_of pl.tasks))) x (names_of pl.finally) h.finally_apart m,
      );
    },
  )
