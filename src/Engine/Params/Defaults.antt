-- ===== src/Engine/Params/Defaults.antt =====
-- What the params of a run are once the defaults are in.
use tkn_act.Base.{
  String, ◌≡◌, arith, ◌==◌, eq_iff, Option, none, some, List, [], ◌∷◌, if◌then◌else◌, Map, lookup,
  insert, lookup-insert, is_some, ok, Bool-cases, Option-cases, inl, inr,
}
use tkn_act.Tekton.{ParamValue, ParamSpec}
use tkn_act.Engine.Params.{apply_defaults}

-- The default of the first declaration of a name.
abbrev pub default_of : String → List ParamSpec → Option ParamValue
default_of n [] = none
default_of n (d ∷ ds) = if d.name == n then d.default else default_of n ds

abbrev pub or_default : Option ParamValue → Option ParamValue → Option ParamValue
or_default (some v) o = some v
or_default none o = o

-- Where no required param is missing, each param has the value given for it, and otherwise the
-- default of its first declaration; no other param is made up.
pub apply_defaults-lookup :
    (declared : List ParamSpec) (given out : Map ParamValue) (n : String)
    → apply_defaults declared given ≡ ok out
    → lookup n out ≡ or_default (lookup n given) (default_of n declared)
unfolding apply_defaults
apply_defaults-lookup [] given out n e = ground (arith, e)
apply_defaults-lookup (d ∷ ds) given out n e = elim (Bool-cases (is_some (lookup d.name given))) [
  | inl found ↦ ground (
    arith,
    apply_defaults-lookup ds given out n (ground (arith, e, found)),
    eq_iff d.name n,
    found,
  )
  | inr missing ↦ elim (Option-cases d.default) [
    | inl none_set ↦ absurd (ground (arith, e, missing, none_set))
    | inr (v, f) ↦ ground (
      arith,
      apply_defaults-lookup ds (insert d.name v given) out n (ground (arith, e, missing, f)),
      eq_iff d.name n,
      missing,
      f,
      lookup-insert d.name n v given,
    )
  ]
]
