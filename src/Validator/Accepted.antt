-- ===== src/Validator/Accepted.antt =====
-- What the engine may rely on in a pipeline that the validator accepts.
use tkn_act.Base.{
  String, ◌≡◌, refl, sym, ◌∙◌, subst, true, not, arith, Option, none, some, List, [], ◌∷◌, ◌++◌,
  mem, all, report, map, lookup, Distinct, ok, concat,
}
use tkn_act.Base.Integers.{ℤ, pos, ltb_ℤ}
use tkn_act.Dag.{is_empty}
use tkn_act.Tekton.{Kube, PipelineTask, Pipeline, Timeouts}
use tkn_act.Engine.Budgets.{PipelineTimeouts, check_timeouts, parse_pipeline_timeouts}
use tkn_act.Engine.Budgets.Fit.{IsAdmitted, parse-IsAdmitted}
use tkn_act.Engine.Matrix.{expand_matrix}
use tkn_act.Validator.{rule_parts, resolved_of, validate_core}
use tkn_act.Validator.Errors.{
  negative_retries, bad_pipeline_timeout, collides_with_main, duplicate_finally,
}
use tkn_act.Validator.Names.{Bundle, Resolved, names_of, all_tasks, check_finally}
use tkn_act.Validator.Timing.{check_retries, check_pipeline_timeouts}
use tkn_act.Validator.Clean.{
  all_not-cons, is_empty-append, is_empty_iff, is_empty-report, is_empty-each, all_congr,
  concat_nil,
}
use tkn_act.Validator.Graphs.{IsSound, check_graph_iff}
use tkn_act.Validator.Expands.{expand_matrix-accepted}

map_nil : {A B : Type 0} (f : A → B) (xs : List A) → map f xs ≡ [] → xs ≡ []
map_nil f [] h = refl
map_nil f (x ∷ xs) h = absurd (cc)

module _ {k : Kube} where
  check_finally_sound :
      (main seen : List String) (pts : List (PipelineTask k))
      → is_empty (check_finally main seen pts) ≡ true
      → Distinct (names_of pts)
        × (all (λ n. not (mem n seen)) (names_of pts) ≡ true)
        × (all (λ n. not (mem n main)) (names_of pts) ≡ true)
  unfolding check_finally
  check_finally_sound main seen [] h = (tt, refl, refl)
  check_finally_sound main seen (pt ∷ pts) h =
      let one = report (mem pt.name main) (collides_with_main pt.name) in
      let two = report (mem pt.name seen) (duplicate_finally pt.name) in
      ground (
        arith,
        is_empty-append (one ++ two) (check_finally main (pt.name ∷ seen) pts),
        is_empty-append one two,
        is_empty-report (mem pt.name main) (collides_with_main pt.name),
        is_empty-report (mem pt.name seen) (duplicate_finally pt.name),
        check_finally_sound main (pt.name ∷ seen) pts,
        all_not-cons pt.name seen (names_of pts),
      )

  retries_sound :
      (pts : List (PipelineTask k))
      → is_empty (check_retries pts) ≡ true
      → all (λ pt. not (ltb_ℤ pt.retries (pos 0))) pts ≡ true
  unfolding check_retries
  retries_sound pts h =
      sym (
        is_empty-each _ pts
        ∙ all_congr _ _ pts (λ pt.
          is_empty-report (ltb_ℤ pt.retries (pos 0)) (negative_retries pt.name pt.retries)))
      ∙ h

timeouts_sound :
    (parse_duration : String → Option ℤ) (t : Option Timeouts) (u : Timeouts)
    → check_pipeline_timeouts parse_duration t ≡ []
    → t ≡ some u
    → (p : PipelineTimeouts) × (parse_pipeline_timeouts parse_duration (some u) ≡ ok p)
      × IsAdmitted p
unfolding check_pipeline_timeouts
timeouts_sound parse_duration none u h e = absurd (cc)
timeouts_sound parse_duration (some t) u h e =
    let same : t ≡ u = cc in
    parse-IsAdmitted parse_duration u (
      subst (λ (x : Timeouts). check_timeouts parse_duration x ≡ []) same
        (map_nil bad_pipeline_timeout (check_timeouts parse_duration t) h))

module _ {k : Kube} (parse_duration : String → Option ℤ) where
  pub record IsAccepted (pl : Pipeline k) : Type 0 where
    -- the main tasks: unique names, known dependencies, no cycle
    pub main : IsSound pl.tasks
    pub finally_unique : Distinct (names_of pl.finally)
    pub finally_apart : all (λ n. not (mem n (names_of pl.tasks))) (names_of pl.finally) ≡ true
    pub retries : all (λ pt. not (ltb_ℤ pt.retries (pos 0))) (all_tasks pl) ≡ true
    -- the engine's own readings succeed
    pub expands : (out : Pipeline k) × (expand_matrix pl ≡ ok out)
    pub budgets :
        (t : Timeouts)
        → pl.timeouts ≡ some t
        → (p : PipelineTimeouts) × (parse_pipeline_timeouts parse_duration (some t) ≡ ok p)
          × IsAdmitted p

  rule_parts-IsAccepted :
      (b : Bundle k) (name : String) (provided : Option (List String)) (pl : Pipeline k)
      (r : Resolved k)
      → concat (rule_parts parse_duration b name provided pl r) ≡ []
      → IsAccepted pl
  unfolding rule_parts
  rule_parts-IsAccepted b name provided pl r h =
      let parts = concat_nil (rule_parts parse_duration b name provided pl r) h in
      let finally = check_finally_sound (names_of pl.tasks) [] pl.finally (ground (arith, parts)) in
      record {
        main = (check_graph_iff pl.tasks).0 ((is_empty_iff _).0 (ground (arith, parts)));
        finally_unique = finally.0;
        finally_apart = finally.2;
        retries = retries_sound (all_tasks pl) (ground (arith, parts));
        expands = expand_matrix-accepted r.specs pl ((is_empty_iff _).0 (ground (arith, parts)));
        budgets = λ t e.
            timeouts_sound parse_duration pl.timeouts t ((is_empty_iff _).0 (ground (arith, parts)))
              e;
      }

  -- A pipeline without an error has main tasks of different names whose `runAfter` names main tasks
  -- and follows some rank, finally tasks of different names that no main task has, and no negative
  -- retries; the engine expands all of its matrices, a count of rows being that of a 64-bit int; and
  -- it parses its timeouts to budgets that are not negative and of which, where all three are set,
  -- the phases' sum in int64 is at most the pipeline's.
  pub validate_core-IsAccepted :
      (b : Bundle k) (name : String) (provided : Option (List String)) (pl : Pipeline k)
      → lookup name b.pipelines ≡ some pl
      → validate_core parse_duration b name provided ≡ []
      → IsAccepted pl
  unfolding validate_core
  validate_core-IsAccepted b name provided pl e h =
      rule_parts-IsAccepted b name provided pl (resolved_of b pl) (ground (arith, e, h))
