-- ===== src/Engine/Matrix/Rows.antt =====
-- The rows of a matrix, in the engine and for the cluster backend.
use tkn_act.Base.{
  ℕ, ◌+◌, ◌*◌, String, ◌≡◌, refl, ◌∙◌, sym, ap, false, arith, some, List, [], ◌∷◌, ◌++◌,
  if◌then◌else◌, map, Map, insert, length, Bool-cases, inl, inr, ok, err,
}
use Prim.Native.Nat.{◌%◌, ◌^◌}
use native.Mathlib.Nat.{mul_assoc, mul-one}
use tkn_act.Base.Integers.{pos, positive, ltb_ℤ, signed_64, wrap_64, mul_64-mod}
use tkn_act.Tekton.{Kube, Param, MatrixParam, Matrix, PipelineTask}
use tkn_act.Tekton.Rows.{
  MatrixRow, value_at, cross_loop, cross_size, cross_of, cross_rows, has_empty_value, row_map,
  param_map, materialize_matrix_rows,
}
use tkn_act.Engine.Matrix.{
  empty_value, too_many_rows, Row, max_rows, string_param, row_params, include_row,
  materialize_rows,
}
use tkn_act.Engine.Matrix.Odometer.{Choice, choice, product, length-product, odometer-product}

abbrev pub params_of : Choice → List Param
params_of = map (λ c. string_param c.0 c.1)

abbrev pub row_of : Choice → Row
row_of c = record { params = params_of c; include_name = "" }

-- The choices that a matrix's own params give: none without a param.
abbrev pub choices_of : List MatrixParam → List Choice
choices_of [] = []
choices_of (mp ∷ mps) = product (mp ∷ mps)

row_params-choice :
    (mps : List MatrixParam) (idxs : List ℕ) → row_params mps idxs ≡ params_of (choice mps idxs)
unfolding row_params
row_params-choice [] idxs = refl
row_params-choice (mp ∷ mps) [] = refl
row_params-choice (mp ∷ mps) (i ∷ idxs) =
    ap (λ l. string_param mp.name (value_at mp i) ∷ l) (row_params-choice mps idxs)

row_map-param_map :
    (m : Map String) (mps : List MatrixParam) (idxs : List ℕ)
    → row_map m mps idxs ≡ param_map m (params_of (choice mps idxs))
unfolding row_map param_map
row_map-param_map m [] idxs = refl
row_map-param_map m (mp ∷ mps) [] = refl
row_map-param_map m (mp ∷ mps) (i ∷ idxs) =
    row_map-param_map (insert mp.name (value_at mp i) m) mps idxs

-- The product as an int holds it: that of all the lengths, wrapped around.
cross_loop-mod :
    (c : ℕ) (mps : List MatrixParam) → cross_loop (c % 2 ^ 64) mps ≡ (c * cross_size mps) % 2 ^ 64
unfolding cross_loop cross_size
cross_loop-mod c [] = ap (λ n. n % 2 ^ 64) (sym (mul-one c))
cross_loop-mod c (mp ∷ mps) =
    ap (λ n. cross_loop n mps) (mul_64-mod c (length mp.value))
    ∙ cross_loop-mod (c * length mp.value) mps
    ∙ ap (λ n. n % 2 ^ 64) (mul_assoc c (length mp.value) (cross_size mps))

cross_of-choices_of : (mps : List MatrixParam) → cross_of mps ≡ length (choices_of mps) % 2 ^ 64
unfolding cross_of
cross_of-choices_of [] = refl
cross_of-choices_of (mp ∷ mps) =
    cross_loop-mod 1 (mp ∷ mps) ∙ ap (λ n. n % 2 ^ 64) (omega (arith, length-product (mp ∷ mps)))

-- The rows that are left where the product, as an int of 64 bits, must be above 0.
abbrev pub counted : List Choice → List Choice
counted cs = if positive (wrap_64 (pos (length cs))) then cs else []

-- What the rows of the cross product come to, whatever a round appends.
module _ {A : Type 0} (row : List MatrixParam → List ℕ → A) (of_choice : Choice → A)
    (agree : (mps : List MatrixParam) (idxs : List ℕ)
      → row mps idxs ≡ of_choice (choice mps idxs)) where
  cross_rows-choices_of :
      (mps : List MatrixParam)
      → has_empty_value mps ≡ false
      → cross_rows row mps ≡ map of_choice (counted (choices_of mps))
  unfolding cross_rows cross_of
  cross_rows-choices_of [] h = refl
  cross_rows-choices_of (mp ∷ mps) h = ground (
    arith,
    cross_of-choices_of (mp ∷ mps),
    odometer-product row of_choice (λ ps idxs _. agree ps idxs) (mp ∷ mps) h,
  )

total_lem :
    (m : Matrix)
    → signed_64 ((cross_of m.params + length m.includes) % 2 ^ 64)
      ≡ wrap_64 (pos (length (choices_of m.params) + length m.includes))
total_lem m = ap signed_64 (omega (arith, cross_of-choices_of m.params))

-- A matrix with an empty value list is rejected, and so is one whose number of rows, as an int of 64
-- bits, is more than 256. Any other gives first the cross product of its params' values, the first
-- param changing slowest, unless the number of its rows wraps around to one that is not above 0,
-- which leaves none of them; and then its include rows, in order. The loop over the positions always
-- ends.
pub materialize_rows-product :
    (parent : String) (m : Matrix)
    → materialize_rows parent m ≡ (
        if has_empty_value m.params
        then err (empty_value parent)
        else if ltb_ℤ
            (pos max_rows)
            (wrap_64 (pos (length (choices_of m.params) + length m.includes)))
        then err (
            too_many_rows parent (wrap_64 (pos (length (choices_of m.params) + length m.includes))))
        else ok (map row_of (counted (choices_of m.params)) ++ map include_row m.includes))
unfolding materialize_rows
materialize_rows-product parent m = elim (Bool-cases (has_empty_value m.params)) [
  | inl e ↦ rw (e, materialize_rows) refl
  | inr e ↦
      let rows =
        cross_rows-choices_of
          (λ mps idxs. record { params = row_params mps idxs; include_name = "" }) row_of
          (λ mps idxs.
            ap (λ ps. record { params = ps; include_name = "" }) (row_params-choice mps idxs))
          m.params e in
      rw (e, materialize_rows, rows, total_lem m) refl
]

-- A row as the backend's matcher has it.
abbrev pub as_matrix_row : Row → MatrixRow
as_matrix_row r = record { params = param_map [] r.params; include_name = r.include_name }

map_rows :
    {A B C D : Type 0} (f : A → C) (g : B → C) (k : C → D) (xs : List A) (ys : List B)
    → map k (map f xs ++ map g ys) ≡ map (λ x. k (f x)) xs ++ map (λ y. k (g y)) ys
map_rows f g k [] [] = refl
map_rows f g k [] (y ∷ ys) = ap (λ l. k (g y) ∷ l) (map_rows f g k [] ys)
map_rows f g k (x ∷ xs) ys = ap (λ l. k (f x) ∷ l) (map_rows f g k xs ys)

-- For a matrix that the engine accepts, the rows that the cluster backend matches task runs with
-- are the engine's rows, in the same order, each with its params as a map.
pub materialize_rows-agree :
    {k : Kube} (pt : PipelineTask k) (m : Matrix) (rows : List Row)
    → pt.matrix ≡ some m
    → materialize_rows pt.name m ≡ ok rows
    → materialize_matrix_rows pt ≡ map as_matrix_row rows
unfolding materialize_matrix_rows
materialize_rows-agree pt m rows e made =
    let made' = sym (materialize_rows-product pt.name m) ∙ made in
    elim (Bool-cases (has_empty_value m.params)) [
      | inl h ↦ absurd (ground (arith, made', h))
      | inr h ↦
          let backend =
            cross_rows-choices_of
              (λ mps idxs. record { params = row_map [] mps idxs; include_name = "" })
              (λ c. as_matrix_row (row_of c))
              (λ mps idxs.
                ap (λ ps. record { params = ps; include_name = "" })
                  (row_map-param_map [] mps idxs))
              m.params h in
          let same : map row_of (counted (choices_of m.params)) ++ map include_row m.includes
              ≡ rows =
            ground (arith, made', h) in
          rw (e, materialize_matrix_rows, h, backend)
            (sym (
                map_rows row_of include_row as_matrix_row (counted (choices_of m.params))
                  m.includes)
              ∙ ap (map as_matrix_row) same)
    ]
