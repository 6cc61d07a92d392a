-- ===== src/Engine/Params.antt =====
-- run.go: the params of a run, and the views of them that the resolver reads.
pub mod Defaults
use tkn_act.Base.{
  String, Bool, true, false, Option, none, some, List, [], ◌∷◌, if◌then◌else◌, Map, lookup, insert,
  is_some, Result, ok, err, ◌>>=◌,
}
use tkn_act.Tekton.{ParamType, unset, string, array, object, ParamValue, ParamSpec}

unfoldable pub flatten_string_params : Map ParamValue → Map String
flatten_string_params [] = []
flatten_string_params ((k, v) ∷ m) =
    let rest = flatten_string_params m in
    elim v.type [
      | string ↦ (k, v.string_val) ∷ rest
      | unset ↦ (k, v.string_val) ∷ rest
      | array ↦ rest
      | object ↦ rest
    ]

unfoldable pub array_params : Map ParamValue → Map (List String)
array_params [] = []
array_params ((k, v) ∷ m) =
    let rest = array_params m in
    elim v.type [ array ↦ (k, v.array_val) ∷ rest | string ↦ rest | unset ↦ rest | object ↦ rest ]

unfoldable pub object_params : Map ParamValue → Map (Map String)
object_params [] = []
object_params ((k, v) ∷ m) =
    let rest = object_params m in
    elim v.type [ object ↦ (k, v.object_val) ∷ rest | string ↦ rest | unset ↦ rest | array ↦ rest ]

-- the name of a param that is required
unfoldable pub apply_defaults : List ParamSpec → Map ParamValue → Result String (Map ParamValue)
unfolding lookup insert
apply_defaults [] out = ok out
apply_defaults (d ∷ declared) out =
    let found = is_some (lookup d.name out) in
    if found then apply_defaults declared out else elim d.default [
      | none ↦ err d.name
      | some v ↦ apply_defaults declared (insert d.name v out)
    ]
