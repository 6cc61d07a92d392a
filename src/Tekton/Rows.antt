-- ===== src/Tekton/Rows.antt =====
-- internal/tektontypes/types.go: the rows of a matrix as the cluster backend reads them, and the
-- loop over the positions in the value lists, which internal/engine/matrix.go writes out again.
use tkn_act.Base.{
  ℕ, zero, suc, ◌*◌, String, Bool, true, false, Option, none, some, List, [], ◌∷◌, ◌++◌,
  if◌then◌else◌, map, Map, insert, or_else, length, get_elem?, ltb, any,
}
use tkn_act.Base.Integers.{positive, signed_64, mul_64}
use tkn_act.Tekton.{Kube, Param, MatrixParam, MatrixInclude, PipelineTask}

pub record MatrixRow : Type 0 where
  pub params : Map String
  pub include_name : String

-- idxs := make([]int, len(m.Params))
unfoldable pub zeros : List MatrixParam → List ℕ
zeros [] = []
zeros (_ ∷ mps) = zero ∷ zeros mps

-- The inner loop, from the last position to the first: the new positions, and `done`.
unfoldable pub advance : List MatrixParam → List ℕ → List ℕ × Bool
advance [] idxs = (idxs, true)
advance (mp ∷ mps) [] = ([], true)
advance (mp ∷ mps) (i ∷ idxs) =
    let (rest, carry) = advance mps idxs in
    if carry
    then (if ltb (suc i) (length mp.value) then (suc i ∷ rest, false) else (zero ∷ rest, true))
    else (i ∷ rest, false)

-- mp.Value[idxs[i]]
abbrev pub value_at : MatrixParam → ℕ → String
value_at mp i = or_else (get_elem? mp.value i) ""

-- how many rows the loop over the positions makes
unfoldable pub cross_size : List MatrixParam → ℕ
cross_size [] = 1
cross_size (mp ∷ mps) = length mp.value * cross_size mps

-- cross *= len(mp.Value), on the bits of an int of 64
unfoldable pub cross_loop : ℕ → List MatrixParam → ℕ
unfolding mul_64
cross_loop cross [] = cross
cross_loop cross (mp ∷ mps) = cross_loop (mul_64 cross (length mp.value)) mps

-- 0 without params, and else the product as an int holds it
unfoldable pub cross_of : List MatrixParam → ℕ
unfolding cross_loop
cross_of [] = 0
cross_of (mp ∷ mps) = cross_loop 1 (mp ∷ mps)

abbrev pub is_nil {ℓ} : {A : Type ℓ} → List A → Bool
is_nil [] = true
is_nil (_ ∷ _) = false

abbrev pub has_empty_value : List MatrixParam → Bool
has_empty_value = any (λ mp. is_nil mp.value)

-- The outer loop, on fuel, with what a round appends.
module _ {A : Type 0} (row : List MatrixParam → List ℕ → A) where
  unfoldable pub odometer : ℕ → List MatrixParam → List ℕ → Option (List A)
  unfolding advance
  odometer zero mps idxs = none
  odometer (suc fuel) mps idxs =
      let (next, done) = advance mps idxs in
      let rest = odometer fuel mps next in
      if done
      then some (row mps idxs ∷ [])
      else elim rest [ none ↦ none | some rows ↦ some (row mps idxs ∷ rows) ]

unfoldable pub row_map : Map String → List MatrixParam → List ℕ → Map String
row_map m [] idxs = m
row_map m (mp ∷ mps) [] = m
row_map m (mp ∷ mps) (i ∷ idxs) = row_map (insert mp.name (value_at mp i) m) mps idxs

unfoldable pub param_map : Map String → List Param → Map String
param_map m [] = m
param_map m (p ∷ ps) = param_map (insert p.name p.value.string_val m) ps

abbrev pub cross_row : List MatrixParam → List ℕ → MatrixRow
cross_row mps idxs = record { params = row_map [] mps idxs; include_name = "" }

abbrev pub include_row : MatrixInclude → MatrixRow
include_row inc = record { params = param_map [] inc.params; include_name = inc.name }

-- The rows under the test `cross > 0`: a product that has wrapped around may fail it.
module _ {A : Type 0} (row : List MatrixParam → List ℕ → A) where
  unfoldable pub cross_rows : List MatrixParam → List A
  unfolding cross_of cross_size odometer zeros
  cross_rows mps = elim (positive (signed_64 (cross_of mps))) [
    | true ↦ or_else (odometer row (cross_size mps) mps (zeros mps)) []
    | false ↦ []
  ]

-- nil and an empty list of rows are the same to its callers
unfoldable pub materialize_matrix_rows : {k : Kube} → PipelineTask k → List MatrixRow
unfolding cross_rows
materialize_matrix_rows pt = elim pt.matrix [
  | none ↦ []
  | some m ↦
      if has_empty_value m.params
      then []
      else cross_rows cross_row m.params ++ map include_row m.includes
]
