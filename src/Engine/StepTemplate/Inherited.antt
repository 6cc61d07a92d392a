-- ===== src/Engine/StepTemplate/Inherited.antt =====
-- Inheriting twice is inheriting once, for what the steps of a task bind and run.
use tkn_act.Base.{String, ◌≡◌, refl, arith, Option, List, [], ◌∷◌}
use tkn_act.Tekton.{Kube, EnvVar, StepTemplate, Step}
use tkn_act.Engine.Merge.{merge}
use tkn_act.Engine.Merge.Binding.{last_named, first_of, merge-last_named}
use tkn_act.Engine.StepTemplate.{list_or, merge_env, inherit}

list_or_again : {A : Type 0} (xs ys : List A) → list_or (list_or xs ys) ys ≡ list_or xs ys
list_or_again [] [] = refl
list_or_again [] (y ∷ ys) = refl
list_or_again (x ∷ xs) ys = refl

module _ {k : Kube} where
  -- The value that an environment variable has in a step: the last entry of its name.
  abbrev pub bound : String → List (EnvVar k) → Option (EnvVar k)
  bound n es = last_named (λ e. e.name) n es

  -- In a step that inherits from a template, an environment variable has the step's own value where
  -- the step sets it and the template's otherwise, and inheriting once more changes neither that
  -- nor the image, the command or the arguments.
  pub inherit-bound :
      (t : StepTemplate k) (st : Step k) (n : String)
      → (bound n (inherit t st).env ≡ first_of (bound n st.env) (bound n t.env))
        × (bound n (inherit t (inherit t st)).env ≡ bound n (inherit t st).env)
        × ((inherit t (inherit t st)).image ≡ (inherit t st).image)
        × ((inherit t (inherit t st)).command ≡ (inherit t st).command)
        × ((inherit t (inherit t st)).args ≡ (inherit t st).args)
  unfolding inherit merge_env
  inherit-bound t st n =
      let once = merge-last_named (λ (e : EnvVar k). e.name) n t.env st.env in
      let twice =
        merge-last_named (λ (e : EnvVar k). e.name) n t.env
          (merge (λ (e : EnvVar k). e.name) t.env st.env) in
      (
        once,
        ground (arith, once, twice),
        ground arith,
        list_or_again st.command t.command,
        list_or_again st.args t.args,
      )
