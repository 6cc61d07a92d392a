-- ===== src/Engine/When.antt =====
-- when.go: whether a task's `when` expressions let it run.
pub mod Verdict
use tkn_act.Base.{
  String, Bool, true, false, ◌&&◌, ◌||◌, not, ◌==◌, Option, none, some, List, [], ◌∷◌,
  if◌then◌else◌, mem, Result, ok, err, ◌>>=◌,
}
use tkn_act.Base.Text.{lower_eq}
use tkn_act.Tekton.{WhenExpression}
use tkn_act.Resolver.Scope.{Json, Context, LookupError}
use tkn_act.Resolver.{strict, substitute, substitute_args}

-- The expression stops the task, given its input and its values.
unfoldable pub refuses : WhenExpression → String → List String → Bool
unfolding lower_eq
refuses w input values =
    let match = mem input values in
    if lower_eq w.operator "in"
    then not match
    else if lower_eq w.operator "notin"
    then match
    else false

-- None where the task runs; else the expression that stops it, with its input, from which the
-- source formats the reason.
unfoldable pub evaluate_when :
    Json → Context → List WhenExpression → Result LookupError (Option (WhenExpression × String))
unfolding refuses
evaluate_when json ctx [] = ok none
evaluate_when json ctx (w ∷ exprs) = do
  input ← substitute json ctx strict w.input
  values ← substitute_args json ctx strict w.values
  let rest = evaluate_when json ctx exprs
  if refuses w input values then ok (some (w, input)) else rest
