-- ===== src/Resolver/Scope.antt =====
-- resolver.go: the context of a substitution, its errors, and how a reference is taken apart.
use tkn_act.Base.{
  ℕ, String, Bool, true, false, ◌&&◌, ◌||◌, not, ◌==◌, Option, none, some, List, [], ◌∷◌,
  if◌then◌else◌, nat_eq, leb, get_elem?, length, Map, Result, ok, err,
}
use tkn_act.Base.Text.{strip_suffix, span, all_codes, is_digit, cut_last, decimal}

pub data LookupError : Type 0 where
  step_ref_deferred leave_literal : LookupError
  unknown_context unknown_results unknown_step_results malformed_steps no_step unknown_reference :
      String → LookupError
  whole_array unknown_array_param unknown_object unknown_param finally_only unknown_task
        malformed_task :
      String → LookupError
  no_results not_json_array not_json_object unknown_workspaces no_binding_info malformed_star
        unrecognised_star :
      String → LookupError
  no_step_result no_key no_result no_result_key bad_index : String → String → LookupError
  out_of_range : ℕ → String → ℕ → LookupError

-- errors.Is(err, errStepRefDeferred) || errors.Is(err, errLeaveLiteral)
abbrev pub is_signal : LookupError → Bool
is_signal step_ref_deferred = true
is_signal leave_literal = true
is_signal _ = false

-- A map that may be nil is an option.
pub record Context : Type 0 where
  pub params : Map String
  pub array_params : Map (List String)
  pub object_params : Map (Map String)
  pub results : Map (Map String)
  pub context_vars : Map String
  pub step_results : Option (Map (Map String))
  pub current_step : String
  pub bound_workspaces : Option (Map Bool)
  pub tasks_status : String
  pub task_statuses : Option (Map String)
  pub workspace_paths : Map String

-- json.Unmarshal into a list of texts, and into a map of texts
pub record Json : Type 0 where
  pub list_of : String → Option (List String)
  pub map_of : String → Option (Map String)

abbrev pub known_namespaces : List String
known_namespaces = "params" ∷ "tasks" ∷ "context" ∷ "workspaces" ∷ "results" ∷ "steps" ∷ "step" ∷ []

-- up to the first '.' or '['
unfoldable pub namespace_of : String → String
unfolding span
namespace_of key = (span (λ c. not (nat_eq c b'.' || nat_eq c b'[')) key).0

-- strings.HasSuffix
abbrev pub has_suffix : String → String → Bool
has_suffix p s = elim (strip_suffix p s) [ none ↦ false | some _ ↦ true ]

-- indexSuffix: what stands before `[N]`, and N
unfoldable pub index_suffix : String → Option (String × String)
unfolding strip_suffix cut_last all_codes
index_suffix s = elim (strip_suffix "]" s) [
  | none ↦ none
  | some t ↦ elim (cut_last b'[' t) [
    | none ↦ none
    | some (front, digits) ↦
        if not (front == "") && not (digits == "") && all_codes is_digit digits
        then some (front, digits)
        else none
  ]
]

abbrev pub max_int64 : ℕ
max_int64 = 9223372036854775807

unfoldable pub index_into : List String → String → String → Result LookupError String
unfolding decimal
index_into arr idx what =
    let n = decimal 0 idx in
    if not (leb n max_int64)
    then err (bad_index idx what)
    else elim (get_elem? arr n) [ some v ↦ ok v | none ↦ err (out_of_range n what (length arr)) ]
