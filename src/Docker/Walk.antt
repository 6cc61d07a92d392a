-- ===== src/Docker/Walk.antt =====
-- The loop over the steps of a task, step by step.
use tkn_act.Base.{
  ℕ, suc, String, ◌≡◌, refl, sym, ap, ◌∙◌, subst, Bool, true, not, ◌&&◌, ◌==◌, arith, Option, none,
  some, List, [], ◌∷◌, ◌++◌, is_some, Map, ok, err, Result-cases, Bool-cases, bind_parts, ok_inj,
  inl, inr,
}
use mathlib.Core.List.{append_assoc, append-nil}
use tkn_act.Base.Integers.{ℤ}
use tkn_act.Tekton.{Kube, Step}
use tkn_act.Resolver.Scope.{Json}
use tkn_act.Resolver.{strict, substitute}
use tkn_act.Engine.Substitution.{sub_args}
use tkn_act.Engine.Outcome.{Status, failed, infrafailed}
use tkn_act.Docker.{
  Fault, bad_reference, step_succeeded, step_failed, StepResult, TaskEnd, Host, is_zero_code,
  step_scope, or_fault, no_step_results, ran_or_fault, step_result, ends, pause_exited,
}
use tkn_act.Docker.Loop.{
  step_env, substitute_step_refs, execute, if_remote, add_step_results, run_steps,
}
use tkn_act.Docker.Ran.{
  Answers, Unready, goes_on, Ran, Fits, bind-Fits, or_fault-Fits, ran_or_fault-Fits, done, went_on,
  gave_up, broke_before, broke,
}

module _ {k : Kube} (json : Json) where
  substitute_step_refs-same :
      (raw st : Step k) (known : Map (Map String))
      → substitute_step_refs json raw known ≡ ok st
      → (st.name ≡ raw.name) × (st.on_error ≡ raw.on_error)
  unfolding substitute_step_refs
  substitute_step_refs-same raw st known h =
      let ctx = step_scope known raw.name in
      let (image, _, h1) = bind_parts (substitute json ctx strict raw.image) _ st h in
      let (script, _, h2) = bind_parts (substitute json ctx strict raw.script) _ st h1 in
      let (dir, _, h3) = bind_parts (substitute json ctx strict raw.working_dir) _ st h2 in
      let (command, _, h4) = bind_parts (sub_args json ctx strict raw.command) _ st h3 in
      let (args, _, h5) = bind_parts (sub_args json ctx strict raw.args) _ st h4 in
      let (env, _, last) = bind_parts (step_env json ctx raw.env) _ st h5 in
      subst (λ (q : Step k). (q.name ≡ raw.name) × (q.on_error ≡ raw.on_error)) (ok_inj _ st last)
        (refl, refl)

  module _ (h : Host k) where
    execute-Fits : (n : ℕ) (st : Step k) → Fits st.name (execute h n st)
    unfolding execute
    execute-Fits n st =
        bind-Fits st.name (or_fault _ _ (h.ensure_image n st.image _)) _
          (or_fault-Fits st.name _ _ _ (inr (_, refl, refl)))
          (λ _.
            bind-Fits st.name (or_fault _ _ (h.make_step_dir n st.name)) _
              (or_fault-Fits st.name _ _ _ (inl refl))
              (λ _.
                bind-Fits st.name (or_fault _ _ _) _ (or_fault-Fits st.name _ _ _ (inl refl)) (λ _.
                  bind-Fits st.name (ran_or_fault st.name (h.run_step n st)) _
                    (ran_or_fault-Fits st.name (h.run_step n st))
                    (λ exit_code.
                      let back = if_remote h (h.pull_step_results n st.name) in
                      let x = step_result st.name exit_code step_failed in
                      bind-Fits st.name (or_fault (no_step_results st.name) (x ∷ []) back)
                        (λ _. ok exit_code)
                        (or_fault-Fits st.name (no_step_results st.name) (x ∷ []) back
                          (inr (x, refl, refl)))
                        (λ _. tt)))))

    -- What a run of some steps adds to what was recorded before it.
    pub record IsRight (n : ℕ) (steps : List (Step k)) (before : List StepResult) (r : TaskEnd)
        : Type 0 where
      pub added : List StepResult
      pub all : r.steps ≡ before ++ added
      pub ran : Ran json h n steps added r.status
      pub why : r.status ≡ infrafailed → is_some r.err ≡ true

    broke_off :
        (n : ℕ) (raw st : Step k) (steps : List (Step k)) (before : List StepResult)
        (known : Map (Map String)) (f : Fault) (l : List StepResult)
        → substitute_step_refs json raw known ≡ ok st
        → execute h n st ≡ err (f, l)
        → st.name ≡ raw.name
        → Fits {A = ℤ} st.name (err (f, l))
        → IsRight n (raw ∷ steps) before (ends infrafailed (some f) (before ++ l))
    broke_off n raw st steps before known f l good bad name (inl nil) = record {
      added = [];
      all = ap (λ l'. before ++ l') nil;
      ran = broke_before n raw steps (inr (f, (known, st, good, bad ∙ ap (λ l'. err (f, l')) nil)));
      why = λ e. refl;
    }
    broke_off n raw st steps before known f l good bad name (inr (x, one, same)) = record {
      added = x ∷ [];
      all = ap (λ l'. before ++ l') one;
      ran =
          broke n raw steps x (same ∙ name)
            (inl (f, (known, st, good, bad ∙ ap (λ l'. err (f, l')) one)));
      why = λ e. refl;
    }

    then_on :
        (n : ℕ) (raw : Step k) (steps : List (Step k)) (before : List StepResult) (x : StepResult)
        (r : TaskEnd)
        → x.name ≡ raw.name
        → Answers json h n raw (ok x.exit_code)
        → goes_on raw x ≡ true
        → IsRight (suc n) steps (before ++ x ∷ []) r
        → IsRight n (raw ∷ steps) before r
    then_on n raw steps before x r name a g more = record {
      added = x ∷ more.added;
      all = more.all ∙ append_assoc before (x ∷ []) more.added;
      ran = went_on n raw steps x more.added r.status name a g more.ran;
      why = more.why;
    }

    unresolved :
        (n : ℕ) (raw : Step k) (steps : List (Step k)) (before : List StepResult) (f : Fault)
        → Unready json h n raw
        → IsRight n (raw ∷ steps) before (ends infrafailed (some f) before)
    unresolved n raw steps before f u = record {
      added = [];
      all = sym (append-nil before);
      ran = broke_before n raw steps u;
      why = λ q. refl;
    }

    ended_with :
        (n : ℕ) (steps : List (Step k)) (before : List StepResult) (x : StepResult) (s : Status)
        (f : Option Fault)
        → Ran json h n steps (x ∷ []) s
        → (s ≡ infrafailed → is_some f ≡ true)
        → IsRight n steps before (ends s f (before ++ x ∷ []))
    ended_with n steps before x s f ran why = record {
      added = x ∷ [];
      all = refl;
      ran = ran;
      why = why;
    }

    pub run_steps-IsRight :
        (netns : Bool) (n : ℕ) (steps : List (Step k)) (known : Map (Map String))
        (before : List StepResult)
        → IsRight n steps before (run_steps json h netns n steps known before)
    unfolding run_steps
    run_steps-IsRight netns n [] known before = record {
      added = [];
      all = sym (append-nil before);
      ran = done n;
      why = λ e. absurd (cc);
    }
    run_steps-IsRight netns n (raw ∷ steps) known before =
        let Goal = IsRight n (raw ∷ steps) before in
        elim (Result-cases (substitute_step_refs json raw known)) [
          | inr (e, bad) ↦
              subst Goal (ground (arith, bad))
                (unresolved n raw steps before (bad_reference raw.name e) (inl (known, e, bad)))
          | inl (st, good) ↦
              let (name, on_error) = substitute_step_refs-same raw st known good in
              elim (Result-cases (execute h n st)) [
                | inr (f, bad) ↦ subst Goal (ground (arith, good, bad)) (
                    broke_off n raw st steps before known f.0 f.1 good bad name
                      (subst (Fits {A = ℤ} st.name) bad (execute-Fits n st)))
                | inl (exit_code, ran) ↦
                    let known' = add_step_results h n st known in
                    let said : Answers json h n raw (ok exit_code) = (known, st, good, ran) in
                    let well = step_result st.name exit_code step_succeeded in
                    let ill = step_result st.name exit_code step_failed in
                    elim (Bool-cases (is_zero_code exit_code)) [
                      | inl zero_code ↦ elim (Bool-cases (netns && not (h.pause_alive n))) [
                        | inl gone ↦ subst Goal (ground (arith, good, ran, zero_code, gone)) (
                            ended_with n (raw ∷ steps) before well infrafailed (some pause_exited)
                              (broke n raw steps well name (inr (said, ground (arith, gone))))
                              (λ q. refl))
                        | inr alive ↦ subst Goal (ground (arith, good, ran, zero_code, alive)) (
                            then_on n raw steps before well
                              (run_steps json h netns (suc n) steps known' (before ++ well ∷ []))
                              name said zero_code
                              (run_steps-IsRight netns (suc n) steps known' (before ++ well ∷ [])))
                      ]
                      | inr other ↦ elim (Bool-cases (st.on_error == "continue")) [
                        | inl onward ↦ subst Goal (ground (arith, good, ran, other, onward)) (
                            then_on n raw steps before ill
                              (run_steps json h netns (suc n) steps known' (before ++ ill ∷ []))
                              name said (ground (arith, other, onward, on_error))
                              (run_steps-IsRight netns (suc n) steps known' (before ++ ill ∷ [])))
                        | inr stop ↦ subst Goal (ground (arith, good, ran, other, stop)) (
                            ended_with n (raw ∷ steps) before ill failed none
                              (gave_up n raw steps ill name said
                                (ground (arith, other, stop, on_error)))
                              (λ q. absurd (cc)))
                      ]
                    ]
              ]
        ]
