-- ===== src/Engine/Merge.antt =====
-- `mergeParams` of matrix.go and `mergeEnv` of step_template.go, which are the same code on two types:
-- a list whose entries are overridden by name.
pub mod Binding
use tkn_act.Base.{
  String, Bool, true, false, List, [], ◌∷◌, ◌++◌, if◌then◌else◌, map, Map, lookup, insert, or_else,
  mem,
}

module _ {A : Type 0} (name : A → String) where
  -- `rowIdx` and `stepIdx`, with the entry in place of its position: the last of a name counts
  unfoldable pub by_name : List A → Map A → Map A
  by_name [] m = m
  by_name (p ∷ ps) m = by_name ps (insert (name p) p m)

  abbrev pub names_of : List A → List String
  names_of = map name

  unfoldable pub override : Map A → List A → List A
  override m [] = []
  override m (p ∷ ps) = or_else (lookup (name p) m) p ∷ override m ps

  unfoldable pub not_emitted : List String → List A → List A
  not_emitted emitted [] = []
  not_emitted emitted (p ∷ ps) =
      let rest = not_emitted emitted ps in if mem (name p) emitted then rest else p ∷ rest

  unfoldable pub merge : List A → List A → List A
  unfolding by_name override not_emitted
  merge base row = override (by_name row []) base ++ not_emitted (names_of base) row
