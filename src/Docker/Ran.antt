-- ===== src/Docker/Ran.antt =====
-- What it is that steps of a task ran, and that the task ended.
use tkn_act.Base.{
  ℕ, suc, String, ◌≡◌, refl, Bool, true, false, not, ◌&&◌, ◌==◌, arith, some, List, [], ◌∷◌,
  is_some, Map, Result, ok, err, ◌>>=◌, ◌⊎◌, inl, inr,
}
use tkn_act.Base.Integers.{ℤ}
use tkn_act.Tekton.{Kube, Step, TaskSpec}
use tkn_act.Engine.Outcome.{Status, succeeded, failed, infrafailed}
use tkn_act.Resolver.Scope.{Json, LookupError}
use tkn_act.Docker.Loop.{substitute_step_refs, execute, if_remote}
use tkn_act.Docker.{
  Host, Fault, step_unset, step_succeeded, step_failed, StepResult, TaskEnd, is_zero_code, or_fault,
  ran_or_fault, step_result,
}

-- The step is through: it succeeded, or it failed and says that a failure does not matter.
abbrev pub goes_on : {k : Kube} → Step k → StepResult → Bool
goes_on st x = elim x.status [
  | step_succeeded ↦ is_zero_code x.exit_code
  | step_failed ↦ not (is_zero_code x.exit_code) && st.on_error == "continue"
  | step_unset ↦ false
]

-- The step failed, and ends the task.
abbrev pub gives_up : {k : Kube} → Step k → StepResult → Bool
gives_up st x = elim x.status [
  | step_failed ↦ not (is_zero_code x.exit_code) && not (st.on_error == "continue")
  | _ ↦ false
]

module _ {k : Kube} (json : Json) (h : Host k) where
  -- What the step at a position comes to, once its references to earlier steps are resolved.
  abbrev pub Answers : ℕ → Step k → Result (Fault × List StepResult) ℤ → Type 0
  Answers n raw r =
      (known : Map (Map String)) × (st : Step k) × (substitute_step_refs json raw known ≡ ok st)
      × (execute h n st ≡ r)

  -- Nothing is recorded of the step: a reference does not resolve, or it cannot be started.
  abbrev pub Unready : ℕ → Step k → Type 0
  Unready n raw =
      ((known : Map (Map String)) × (e : LookupError) × (substitute_step_refs json raw known
          ≡ err e))
      ⊎ ((f : Fault) × Answers n raw (err (f, [])))

  -- The backend fails around the step, or the pause container is gone after it.
  abbrev pub Broken : ℕ → Step k → StepResult → Type 0
  Broken n raw x =
      ((f : Fault) × Answers n raw (err (f, x ∷ [])))
      ⊎ (Answers n raw (ok x.exit_code) × (h.pause_alive n ≡ false))

-- How the steps of a task may run from a position on: one after the other, as far as they go on.
pub data Ran {k : Kube} (json : Json) (h : Host k)
    : ℕ → List (Step k) → List StepResult → Status → Type 0 where
  done : (n : ℕ) → Ran json h n [] [] succeeded
  went_on :
      (n : ℕ) (st : Step k) (steps : List (Step k)) (x : StepResult) (xs : List StepResult)
      (s : Status)
      → x.name ≡ st.name
      → Answers json h n st (ok x.exit_code)
      → goes_on st x ≡ true
      → Ran json h (suc n) steps xs s
      → Ran json h n (st ∷ steps) (x ∷ xs) s
  gave_up :
      (n : ℕ) (st : Step k) (steps : List (Step k)) (x : StepResult)
      → x.name ≡ st.name
      → Answers json h n st (ok x.exit_code)
      → gives_up st x ≡ true
      → Ran json h n (st ∷ steps) (x ∷ []) failed
  broke_before :
      (n : ℕ) (st : Step k) (steps : List (Step k))
      → Unready json h n st
      → Ran json h n (st ∷ steps) [] infrafailed
  broke :
      (n : ℕ) (st : Step k) (steps : List (Step k)) (x : StepResult)
      → x.name ≡ st.name
      → Broken json h n st x
      → Ran json h n (st ∷ steps) (x ∷ []) infrafailed

-- How a task ends whose steps were run.
pub record Ended {k : Kube} (json : Json) (h : Host k) (spec : TaskSpec k) (r : TaskEnd)
    : Type 0 where
  pub ran_status : Status
  pub ran : Ran json h 0 spec.steps r.steps ran_status
  pub same :
      (r.status ≡ ran_status)
      ⊎ ((ran_status ≡ succeeded)
          × (r.status ≡ infrafailed)
          × (message : String) × (if_remote h h.pull_task_results ≡ err message))
  pub why : r.status ≡ infrafailed → is_some r.err ≡ true

module _ {k : Kube} (json : Json) (h : Host k) (spec : TaskSpec k) (r : TaskEnd)
    (ran : Ran json h 0 spec.steps r.steps succeeded) where
  pub lost :
      (f : Fault) (message : String)
      → if_remote h h.pull_task_results ≡ err message
      → Ended json h spec (record r { status = infrafailed; err = some f })
  lost f message bad = record {
    ran_status = succeeded;
    ran = ran;
    same = inr (refl, refl, message, bad);
    why = λ q. refl;
  }

  pub read :
      (found : Map String) → r.status ≡ succeeded → Ended json h spec (record r { results = found })
  read found fine = record {
    ran_status = succeeded;
    ran = ran;
    same = inl fine;
    why = λ q. absurd (ground (arith, fine, q));
  }

-- A fault comes with at most the record of its step.
abbrev pub Fits : {A : Type 0} → String → Result (Fault × List StepResult) A → Type 0
Fits name (ok a) = Unit
Fits name (err e) = (e.1 ≡ []) ⊎ ((x : StepResult) × (e.1 ≡ x ∷ []) × (x.name ≡ name))

pub bind-Fits :
    {A B : Type 0} (name : String) (r : Result (Fault × List StepResult) A)
    (next : A → Result (Fault × List StepResult) B)
    → Fits name r
    → ((a : A) → Fits name (next a))
    → Fits name (r >>= next)
bind-Fits name (ok a) next p q = q a
bind-Fits name (err e) next p q = p

pub or_fault-Fits :
    {A : Type 0} (name : String) (f : String → Fault) (l : List StepResult) (r : Result String A)
    → (l ≡ []) ⊎ ((x : StepResult) × (l ≡ x ∷ []) × (x.name ≡ name))
    → Fits name (or_fault f l r)
or_fault-Fits name f l (ok a) p = tt
or_fault-Fits name f l (err message) p = p

pub ran_or_fault-Fits :
    (name : String) (r : Result (ℤ × String) ℤ) → Fits name (ran_or_fault name r)
ran_or_fault-Fits name (ok c) = tt
ran_or_fault-Fits name (err (c, message)) = inr (step_result name c step_failed, refl, refl)
