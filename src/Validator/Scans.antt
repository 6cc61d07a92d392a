-- ===== src/Validator/Scans.antt =====
-- internal/validator/refs.go: the references that texts contain, and the texts that are searched.
use Prim.Native.Char.{code}
use tkn_act.Base.{
  ℕ, zero, suc, ◌-◌, String, Bool, false, not, ◌&&◌, ◌||◌, Option, none, some, List, [], ◌∷◌, ◌++◌,
  if◌then◌else◌, ◌==◌, nat_eq, ltb, any, each, map,
}
use tkn_act.Base.Text.{strip_prefix, has_prefix, span, is_alnum, is_word, starts, size}
use tkn_act.Tekton.{
  Kube, MatrixParam, MatrixInclude, Matrix, EnvVar, Step, Sidecar, StepTemplate, TaskSpec,
  PipelineTask,
}
use tkn_act.Engine.References.{is_name, is_selector, params_texts, when_texts}

-- `taskResultRefPat` at the start of a text
unfoldable pub task_ref_here : String → Option String
unfolding is_name is_selector strip_prefix span starts
task_ref_here s = elim (strip_prefix "$(tasks." s) [
  | none ↦ none
  | some t ↦ elim (strip_prefix ".results." (span is_name t).1) [
    | none ↦ none
    | some v ↦
        if starts is_alnum t && starts is_selector v
        then (elim (strip_prefix ")" (span is_selector v).1) [
          | none ↦ none
          | some _ ↦ some (span is_name t).0
        ])
        else none
  ]
]

-- A match has no `$` but its first character, so the matches are those at every position.
unfoldable pub task_refs : String → List String
unfolding task_ref_here
task_refs String.[] = []
task_refs (String.◌∷◌ c s) = elim (task_ref_here (String.◌∷◌ c s)) [
  | none ↦ task_refs s
  | some name ↦ name ∷ task_refs s
]

abbrev no_paren : ℕ → Bool
no_paren c = not (nat_eq c b'(' || nat_eq c b')')

-- `varExprPat` at the start of a text
unfoldable pub var_expr_here : String → Option String
unfolding strip_prefix span starts
var_expr_here s = elim (strip_prefix "$(" s) [
  | none ↦ none
  | some t ↦
      if starts (λ c. nat_eq c b')') (span no_paren t).1 then some (span no_paren t).0 else none
]

-- A match has one opening parenthesis, so here too the matches are those at every position.
unfoldable pub var_exprs : String → List String
unfolding var_expr_here
var_exprs String.[] = []
var_exprs (String.◌∷◌ c s) = elim (var_expr_here (String.◌∷◌ c s)) [
  | none ↦ var_exprs s
  | some e ↦ e ∷ var_exprs s
]

-- strings.TrimSpace, on ASCII
abbrev pub is_space : ℕ → Bool
is_space c = nat_eq c 32 || not (ltb c 9) && ltb c 14

unfoldable pub trim_end : String → String
trim_end String.[] = ""
trim_end (String.◌∷◌ c s) =
    let rest = trim_end s in if rest == "" && is_space (code c) then "" else String.◌∷◌ c rest

abbrev pub allowed_prefixes : List String
allowed_prefixes =
    "params" ∷ "tasks" ∷ "finally" ∷ "context" ∷ "workspaces" ∷ "results" ∷ "tt.params" ∷ []

-- what follows a prefix: nothing, `.` and more, or `[`
abbrev follows : String → String → Bool
follows p rest =
    rest == "" && not (p == "tt.params")
    || has_prefix "." rest && not (rest == ".")
    || has_prefix "[" rest

unfoldable pub has_allowed_prefix : String → Bool
unfolding trim_end span strip_prefix has_prefix
has_allowed_prefix expr =
    any
      (λ p. elim (strip_prefix p (trim_end (span is_space expr).1)) [
        | none ↦ false
        | some rest ↦ follows p rest
      ])
      allowed_prefixes

-- [A-Za-z0-9_-]
abbrev is_param_name : ℕ → Bool
is_param_name c = is_word c || nat_eq c b'-'

-- \s of a regular expression
abbrev is_blank : ℕ → Bool
is_blank c = nat_eq c 32 || nat_eq c 9 || nat_eq c 10 || nat_eq c 12 || nat_eq c 13

-- A name, not empty, up to the closing text, and what follows.
unfoldable pub quoted : ℕ → String → String → Option (String × String)
unfolding span strip_prefix
quoted quote close t =
    let (name, rest) = span (λ c. not (nat_eq c quote)) t in
    if name == ""
    then none
    else (elim (strip_prefix close rest) [ none ↦ none | some u ↦ some (name, u) ])

-- what may follow `params` in `paramRefPat`
unfoldable pub param_selector : String → Option (String × String)
unfolding quoted strip_prefix span
param_selector t = elim (strip_prefix "." t) [
  | some u ↦ if (span is_param_name u).0 == "" then none else some (span is_param_name u)
  | none ↦ elim (strip_prefix "[\"" t) [
    | some u ↦ quoted b'"' "\"]" u
    | none ↦ elim (strip_prefix "['" t) [ none ↦ none | some u ↦ quoted b'\'' "']" u ]
  ]
]

-- `paramRefPat` at the start of a text: the name, and the text after the match
unfoldable pub param_ref_here : String → Option (String × String)
unfolding param_selector strip_prefix span
param_ref_here s = elim (strip_prefix "$(" s) [
  | none ↦ none
  | some t ↦ elim (strip_prefix "params" (span is_blank t).1) [
    | none ↦ none
    | some u ↦ param_selector u
  ]
]

-- The first argument says how many characters of the last match are left.
unfoldable pub param_refs_from : ℕ → String → List String
unfolding param_ref_here size
param_refs_from skip String.[] = []
param_refs_from (suc skip) (String.◌∷◌ c s) = param_refs_from skip s
param_refs_from zero (String.◌∷◌ c s) = elim (param_ref_here (String.◌∷◌ c s)) [
  | none ↦ param_refs_from zero s
  | some (name, rest) ↦ name ∷ param_refs_from (size s - size rest) s
]

unfoldable pub param_refs : String → List String
unfolding param_refs_from
param_refs s = param_refs_from 0 s

abbrev pub matrix_texts : Option Matrix → List String
matrix_texts none = []
matrix_texts (some m) =
    each (λ (mp : MatrixParam). mp.value) m.params
    ++ each (λ (inc : MatrixInclude). params_texts inc.params) m.includes

module _ {k : Kube} where
  unfoldable pub when_and_matrix_texts : PipelineTask k → List String
  when_and_matrix_texts pt = when_texts pt.when ++ matrix_texts pt.matrix

  unfoldable pub pipeline_task_texts : PipelineTask k → List String
  unfolding when_and_matrix_texts
  pipeline_task_texts pt = params_texts pt.params ++ when_and_matrix_texts pt

  abbrev env_texts : List (EnvVar k) → List String
  env_texts es = map (λ (e : EnvVar k). e.value) es

  abbrev step_texts : Step k → List String
  step_texts st =
      st.image ∷ st.script ∷ st.working_dir ∷ st.command
      ++ st.args
      ++ env_texts st.env
      ++ params_texts st.params

  abbrev sidecar_texts : Sidecar k → List String
  sidecar_texts sc =
      sc.image ∷ sc.script ∷ sc.working_dir ∷ sc.command ++ sc.args ++ env_texts sc.env

  abbrev template_texts : Option (StepTemplate k) → List String
  template_texts none = []
  template_texts (some t) = t.image ∷ t.working_dir ∷ t.command ++ t.args ++ env_texts t.env

  unfoldable pub task_spec_texts : TaskSpec k → List String
  task_spec_texts spec =
      each step_texts spec.steps
      ++ each sidecar_texts spec.sidecars
      ++ template_texts spec.step_template
