-- ===== src/Engine/StepActions/Bound.antt =====
-- What the texts of an action are resolved against, and its environment.
use tkn_act.Base.{
  String, ◌≡◌, refl, subst, arith, Bool, false, not, Option, none, some, List, [], ◌∷◌,
  if◌then◌else◌, ◌==◌, Option-cases, Bool-cases, Map, lookup, insert, lookup-insert, ok, err,
  ok_inj, bind_parts, bind_stops, inl, inr, option_or, ◌⊎◌, Pairwise,
}
use tkn_act.Tekton.{Kube, Param, ParamSpec, EnvVar, Step, StepAction}
use tkn_act.Resolver.Scope.{Json, Context, LookupError}
use tkn_act.Resolver.{defer_all, substitute}
use tkn_act.Engine.StepActions.{
  ActionError, bad_default, is_string, default_params, bind_params, inline_env,
}

-- the text that the last binding of a name has
abbrev pub last_text : String → List Param → Option String
last_text name [] = none
last_text name (p ∷ ps) =
    option_or (last_text name ps) (if p.name == name then some p.value.string_val else none)

abbrev pub default_text : ParamSpec → Option String
default_text d = elim d.default [ none ↦ none | some v ↦ some v.string_val ]

-- the text of the last declaration of a name that has a default
abbrev pub last_default : String → List ParamSpec → Option String
last_default name [] = none
last_default name (d ∷ decls) =
    option_or (last_default name decls) (if d.name == name then default_text d else none)

abbrev no_text : ParamSpec → Bool
no_text d = elim d.default [ none ↦ false | some v ↦ not (is_string v.type) ]

-- the first declaration whose default is no text
abbrev pub first_no_text : List ParamSpec → Option String
first_no_text [] = none
first_no_text (d ∷ decls) = if no_text d then some d.name else first_no_text decls

default_params-last :
    (step : String) (decls : List ParamSpec) (out done : Map String)
    → default_params step decls out ≡ ok done
    → (first_no_text decls ≡ none)
      × ((name : String) → lookup name done ≡ option_or (last_default name decls) (lookup name out))
unfolding default_params
default_params-last step [] out done h = (refl, λ name. ground (arith, h))
default_params-last step (d ∷ decls) out done h = elim (Option-cases d.default) [
  | inl e ↦
      let (texts, last) = default_params-last step decls out done (ground (arith, h, e)) in
      (ground (arith, e, texts), λ name. ground (arith, e, last name))
  | inr (v, e) ↦ elim (Bool-cases (is_string v.type)) [
    | inr bad ↦ absurd (ground (arith, h, e, bad))
    | inl good ↦
        let (texts, last) =
          default_params-last step decls (insert d.name v.string_val out) done
            (ground (arith, h, e, good)) in
        (
          ground (arith, e, good, texts),
          λ name. ground (arith, e, last name, lookup-insert d.name name v.string_val out),
        )
  ]
]

pub default_params-bad :
    (step : String) (decls : List ParamSpec) (out : Map String) (e : ActionError)
    → default_params step decls out ≡ err e
    → (name : String) × (first_no_text decls ≡ some name) × (e ≡ bad_default step name)
unfolding default_params
default_params-bad step [] out e h = absurd (cc)
default_params-bad step (d ∷ decls) out e h = elim (Option-cases d.default) [
  | inl n ↦
      let (name, first, same) = default_params-bad step decls out e (ground (arith, h, n)) in
      (name, ground (arith, n, first), same)
  | inr (v, n) ↦ elim (Bool-cases (is_string v.type)) [
    | inr bad ↦ (d.name, ground (arith, n, bad), ground (arith, h, n, bad))
    | inl good ↦
        let (name, first, same) =
          default_params-bad step decls (insert d.name v.string_val out) e
            (ground (arith, h, n, good)) in
        (name, ground (arith, n, good, first), same)
  ]
]

bind_params-last :
    (ps : List Param) (out : Map String) (name : String)
    → lookup name (bind_params ps out) ≡ option_or (last_text name ps) (lookup name out)
unfolding bind_params
bind_params-last [] out name = refl
bind_params-last (p ∷ ps) out name = ground (
  arith,
  bind_params-last ps (insert p.name p.value.string_val out) name,
  lookup-insert p.name name p.value.string_val out,
)

module _ {k : Kube} (st : Step k) (action : StepAction k) where
  -- A name stands for the text of its last binding in the step, and for the last default of the
  -- action only where the step does not bind it.
  pub record IsScope (params : Map String) : Type 0 where
    pub texts : first_no_text action.params ≡ none
    pub bound :
        (name : String)
        → lookup name params
          ≡ option_or (last_text name st.params) (last_default name action.params)

  pub bind_params-IsScope :
      (defaults : Map String)
      → default_params st.name action.params [] ≡ ok defaults
      → IsScope (bind_params st.params defaults)
  unfolding lookup
  bind_params-IsScope defaults h =
      let (texts, last) = default_params-last st.name action.params [] defaults h in
      record {
        texts = texts;
        bound = λ name. ground (arith, bind_params-last st.params defaults name, last name);
      }

module _ {k : Kube} (json : Json) (ctx : Context) where
  -- A variable of an action, and what comes of it.
  pub record IsResolved (e v : EnvVar k) : Type 0 where
    pub name : v.name ≡ e.name
    pub value : substitute json ctx defer_all e.value ≡ ok v.value
    pub no_value_from : v.value_from ≡ none

  -- The first variable whose value does not resolve has this error.
  abbrev pub EnvFails : List (EnvVar k) → LookupError → Type 0
  EnvFails [] x = ⊥
  EnvFails (e ∷ env) x =
      (substitute json ctx defer_all e.value ≡ err x)
      ⊎ ((v : String) × (substitute json ctx defer_all e.value ≡ ok v) × EnvFails env x)

  pub inline_env-Pairwise :
      (env out : List (EnvVar k)) → inline_env json ctx env ≡ ok out → Pairwise IsResolved env out
  unfolding inline_env
  inline_env-Pairwise [] out h = subst (Pairwise IsResolved []) (ok_inj _ _ h) tt
  inline_env-Pairwise (e ∷ env) out h =
      let (v, f, h1) = bind_parts (substitute json ctx defer_all e.value) _ out h in
      let (rest, g, h2) = bind_parts (inline_env json ctx env) _ out h1 in
      subst (Pairwise IsResolved (e ∷ env)) (ok_inj _ _ h2)
        (record { name = refl; value = f; no_value_from = refl }, inline_env-Pairwise env rest g)

  pub inline_env-fails :
      (env : List (EnvVar k)) (x : LookupError) → inline_env json ctx env ≡ err x → EnvFails env x
  unfolding inline_env
  inline_env-fails [] x h = absurd (cc)
  inline_env-fails (e ∷ env) x h = elim (bind_stops (substitute json ctx defer_all e.value) _ x h) [
    | inl bad ↦ inl bad
    | inr (v, f, h1) ↦ elim (bind_stops (inline_env json ctx env) _ x h1) [
      | inl bad ↦ inr (v, f, inline_env-fails env x bad)
      | inr (_, _, h2) ↦ absurd (cc)
    ]
  ]
