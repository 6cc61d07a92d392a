-- ===== src/Engine/References.antt =====
-- implicit_edges.go: the results of other tasks that a pipeline task refers to. A reference
-- contains no `$` but its first character, so the matches that Go's `FindAllStringSubmatch` finds
-- are those at every position of the text.
use Prim.Native.String.{String}
use tkn_act.Base.{
  ℕ, Bool, true, false, ◌&&◌, ◌||◌, Option, none, some, List, [], ◌∷◌, ◌++◌, if◌then◌else◌, nat_eq,
  add, Map, lookup, insert, or_else,
}
use tkn_act.Base.Text.{strip_prefix, span, is_alnum, is_word, is_digit, starts}
use tkn_act.Base.Order.{sort}
use tkn_act.Tekton.{
  Kube, ParamValue, unset, string, array, object, Param, WhenExpression, TaskRef, PipelineTask,
}

unfoldable pub is_name : ℕ → Bool
is_name c = is_word c || nat_eq c b'-'

unfoldable pub is_selector : ℕ → Bool
is_selector c = is_word c || nat_eq c b'.' || nat_eq c b'-'

-- `(?:\[(?:\*|\d+)\])?\)` matches at the start
unfoldable pub closes : String → Bool
unfolding strip_prefix span starts
closes s = elim (strip_prefix ")" s) [
  | some _ ↦ true
  | none ↦ elim (strip_prefix "[" s) [
    | none ↦ false
    | some t ↦ elim (strip_prefix "*])" t) [
      | some _ ↦ true
      | none ↦
          starts is_digit t
          && (elim (strip_prefix "])" (span is_digit t).1) [ none ↦ false | some _ ↦ true ])
    ]
  ]
]

-- `taskResultRefPat` at the start of the text: the task's name
unfoldable pub ref_here : String → Option String
unfolding is_name is_selector closes strip_prefix span starts
ref_here s = elim (strip_prefix "$(tasks." s) [
  | none ↦ none
  | some t ↦
      let (name, u) = span is_name t in
      elim (strip_prefix ".results." u) [
        | none ↦ none
        | some v ↦
            if starts is_alnum t && starts is_selector v && closes (span is_selector v).1
            then some name
            else none
      ]
]

-- the set `seen`
unfoldable pub scan : String → List String → List String
unfolding ref_here add
scan String.[] seen = seen
scan (String.◌∷◌ c s) seen =
    scan s (elim (ref_here (String.◌∷◌ c s)) [ none ↦ seen | some name ↦ add name seen ])

unfoldable pub scan_all : List String → List String → List String
unfolding scan
scan_all [] seen = seen
scan_all (s ∷ ss) seen = scan_all ss (scan s seen)

abbrev pub texts_of : Map String → List String
texts_of [] = []
texts_of ((_, v) ∷ m) = v ∷ texts_of m

-- The texts of a value that are scanned.
abbrev pub value_texts : ParamValue → List String
value_texts v = elim v.type [
  | array ↦ v.array_val
  | object ↦ texts_of v.object_val
  | string ↦ v.string_val ∷ []
  | unset ↦ v.string_val ∷ []
]

abbrev pub params_texts : List Param → List String
params_texts [] = []
params_texts (p ∷ ps) = value_texts p.value ++ params_texts ps

abbrev pub when_texts : List WhenExpression → List String
when_texts [] = []
when_texts (w ∷ ws) = w.input ∷ w.values ++ when_texts ws

abbrev pub ref_texts : Option TaskRef → List String
ref_texts none = []
ref_texts (some r) = params_texts r.resolver_params

unfoldable pub implicit_param_edges : {k : Kube} → PipelineTask k → List String
unfolding scan_all
implicit_param_edges pt =
    sort (scan_all (params_texts pt.params ++ when_texts pt.when ++ ref_texts pt.task_ref) [])

-- the expansions of each matrix parent, in the order of the tasks
unfoldable pub matrix_expansions :
    {k : Kube} → List (PipelineTask k) → Map (List String) → Map (List String)
matrix_expansions [] out = out
matrix_expansions (pt ∷ pts) out = matrix_expansions pts (elim pt.matrix_info [
  | none ↦ out
  | some mi ↦ insert mi.parent (or_else (lookup mi.parent out) [] ++ pt.name ∷ []) out
])

unfoldable pub expand_ref_names : String → Map (List String) → List String
expand_ref_names name exp = or_else (lookup name exp) (name ∷ [])
