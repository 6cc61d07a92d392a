-- ===== src/Engine/Matrix/Odometer.antt =====
-- The loop over the positions makes the cross product, in its order.
use tkn_act.Base.{
  ℕ, zero, suc, ◌*◌, ◌≤◌, ◌<◌, String, ◌≡◌, refl, ◌∙◌, ap, Bool, true, false, some, List, [], ◌∷◌,
  ◌++◌, map, arith, if◌then◌else◌, ltb, length, length-append, length-map, get_elem?, Bool-cases,
  List-cases, inl, inr,
}
use tkn_act.Tekton.{MatrixParam}
use tkn_act.Tekton.Rows.{zeros, advance, value_at, cross_size, has_empty_value, odometer}

drop : {A : Type 0} → ℕ → List A → List A
drop zero xs = xs
drop (suc n) [] = []
drop (suc n) (x ∷ xs) = drop n xs

drop_in_range :
    {A : Type 0} (xs : List A) (i : ℕ)
    → i < length xs
    → (x : A) × (get_elem? xs i ≡ some x) × (drop i xs ≡ x ∷ drop (suc i) xs)
unfolding drop
drop_in_range [] i b = absurd (omega arith)
drop_in_range (x ∷ xs) zero b = (x, refl, refl)
drop_in_range (x ∷ xs) (suc i) b = drop_in_range xs i (omega (arith, b))

drop_at_end : {A : Type 0} (xs : List A) (i : ℕ) → length xs ≤ i → drop i xs ≡ []
unfolding drop
drop_at_end [] zero b = refl
drop_at_end [] (suc i) b = refl
drop_at_end (x ∷ xs) zero b = absurd (omega (arith, b))
drop_at_end (x ∷ xs) (suc i) b = drop_at_end xs i (omega (arith, b))

-- One choice of a value for each param.
abbrev pub Choice : Type 0
Choice = List (String × String)

abbrev pub choice : List MatrixParam → List ℕ → Choice
choice [] idxs = []
choice (mp ∷ mps) [] = []
choice (mp ∷ mps) (i ∷ idxs) = (mp.name, value_at mp i) ∷ choice mps idxs

-- Each value before each of the choices for the params after it.
pub fill : String → List String → List Choice → List Choice
fill name [] tails = []
fill name (v ∷ vs) tails = map (λ t. (name, v) ∷ t) tails ++ fill name vs tails

-- The cross product: the first param's value changes slowest.
pub product : List MatrixParam → List Choice
unfolding fill
product [] = [] ∷ []
product (mp ∷ mps) = fill mp.name mp.value (product mps)

-- What the loop still has to make from given positions on.
remaining : List MatrixParam → List ℕ → List Choice
unfolding drop product
remaining [] idxs = [] ∷ []
remaining (mp ∷ mps) [] = []
remaining (mp ∷ mps) (i ∷ idxs) = elim (drop i mp.value) [
  | [] ↦ []
  | v ∷ vs ↦ map (λ t. (mp.name, v) ∷ t) (remaining mps idxs) ++ fill mp.name vs (product mps)
]

abbrev InRange : List MatrixParam → List ℕ → Type 0
InRange [] [] = Unit
InRange [] (_ ∷ _) = ⊥
InRange (_ ∷ _) [] = ⊥
InRange (mp ∷ mps) (i ∷ idxs) = (i < length mp.value) × InRange mps idxs

length-fill :
    (name : String) (vs : List String) (tails : List Choice)
    → length (fill name vs tails) ≡ length vs * length tails
unfolding fill
length-fill name [] tails = omega arith
length-fill name (v ∷ vs) tails = omega (
  arith,
  length-append (map (λ t. (name, v) ∷ t) tails) (fill name vs tails),
  length-map (λ t. (name, v) ∷ t) tails,
  length-fill name vs tails,
)

pub length-product : (mps : List MatrixParam) → length (product mps) ≡ cross_size mps
unfolding product cross_size
length-product [] = refl
length-product (mp ∷ mps) =
    length-fill mp.name mp.value (product mps) ∙ ap (λ n. length mp.value * n) (length-product mps)

zeros-InRange : (mps : List MatrixParam) → has_empty_value mps ≡ false → InRange mps (zeros mps)
unfolding zeros
zeros-InRange [] h = tt
zeros-InRange (mp ∷ mps) h = elim (List-cases mp.value) [
  | inl e ↦ absurd (ground (arith, e))
  | inr (v, vs, e) ↦ (ground (arith, e), zeros-InRange mps (ground arith))
]

remaining-zeros :
    (mps : List MatrixParam) → has_empty_value mps ≡ false → remaining mps (zeros mps) ≡ product mps
unfolding zeros remaining product drop fill
remaining-zeros [] h = refl
remaining-zeros (mp ∷ mps) h = elim (List-cases mp.value) [
  | inl e ↦ absurd (ground (arith, e))
  | inr (v, vs, e) ↦ rw (e, remaining-zeros mps (ground arith)) refl
]

-- A round: what is left is this row, and what is left at the next positions.
record Round (mps : List MatrixParam) (idxs : List ℕ) (r : List ℕ × Bool) : Type 0 where
  rows : remaining mps idxs ≡ choice mps idxs ∷ (if r.1 then [] else remaining mps r.0)
  in_range : InRange mps r.0
  wrapped : r.1 ≡ true → r.0 ≡ zeros mps

remaining-cons :
    (mp : MatrixParam) (mps : List MatrixParam) (i : ℕ) (idxs : List ℕ)
    → i < length mp.value
    → remaining (mp ∷ mps) (i ∷ idxs)
      ≡ map (λ t. (mp.name, value_at mp i) ∷ t) (remaining mps idxs)
        ++ fill mp.name (drop (suc i) mp.value) (product mps)
unfolding remaining
remaining-cons mp mps i idxs b =
    let (v, at, split) = drop_in_range mp.value i b in rw (split, remaining, at) refl

fill-drop :
    (mp : MatrixParam) (mps : List MatrixParam) (i : ℕ)
    → has_empty_value mps ≡ false
    → i < length mp.value
    → fill mp.name (drop i mp.value) (product mps) ≡ remaining (mp ∷ mps) (i ∷ zeros mps)
unfolding fill
fill-drop mp mps i h b =
    let (v, at, split) = drop_in_range mp.value i b in
    rw (remaining-cons mp mps i (zeros mps) b, remaining-zeros mps h, split, at) refl

remaining-nil : (idxs : List ℕ) → remaining [] idxs ≡ [] ∷ []
unfolding remaining
remaining-nil idxs = refl

advance-Round :
    (mps : List MatrixParam) (idxs : List ℕ)
    → has_empty_value mps ≡ false
    → InRange mps idxs
    → Round mps idxs (advance mps idxs)
unfolding advance zeros fill
advance-Round [] [] h r = record { rows = remaining-nil []; in_range = tt; wrapped = λ _. refl }
advance-Round [] (_ ∷ _) h r = absurd r
advance-Round (_ ∷ _) [] h r = absurd r
advance-Round (mp ∷ mps) (i ∷ idxs) h (b, r) =
    let rest = advance-Round mps idxs (ground arith) r in
    let first = remaining-cons mp mps i idxs b in
    let next = (advance mps idxs).0 in
    elim (Bool-cases (advance mps idxs).1) [
      | inr e ↦
          rw (e, advance)
            (record {
              rows = first ∙ rw (rest.rows, e, remaining-cons mp mps i next b) refl;
              in_range = (b, rest.in_range);
              wrapped = λ q. absurd (cc);
            })
      | inl e ↦
          let start = rest.wrapped e in
          elim (Bool-cases (ltb (suc i) (length mp.value))) [
            | inl more ↦
                let c : suc i < length mp.value = ground arith in
                rw (e, more, advance)
                  (record {
                    rows =
                        first
                        ∙ rw (rest.rows, e, fill-drop mp mps (suc i) (ground arith) c, start) refl;
                    in_range = (c, rest.in_range);
                    wrapped = λ q. absurd (cc);
                  })
            | inr last ↦
                rw (e, last, advance)
                  (record {
                    rows =
                        first ∙ rw (rest.rows, e, drop_at_end mp.value (suc i) (ground arith)) refl;
                    in_range = (omega (arith, b), rest.in_range);
                    wrapped = λ q. ap (λ l. zero ∷ l) start;
                  })
          ]
    ]

module _ {A : Type 0} (row : List MatrixParam → List ℕ → A) (of_choice : Choice → A)
    (agree : (mps : List MatrixParam) (idxs : List ℕ)
      → InRange mps idxs
      → row mps idxs ≡ of_choice (choice mps idxs)) where
  odometer-remaining :
      (fuel : ℕ) (mps : List MatrixParam) (idxs : List ℕ)
      → has_empty_value mps ≡ false
      → InRange mps idxs
      → length (remaining mps idxs) ≤ fuel
      → odometer row fuel mps idxs ≡ some (map of_choice (remaining mps idxs))
  unfolding odometer
  odometer-remaining zero mps idxs h r b =
      absurd (ground (arith, (advance-Round mps idxs h r).rows))
  odometer-remaining (suc fuel) mps idxs h r b =
      let round = advance-Round mps idxs h r in
      elim (Bool-cases (advance mps idxs).1) [
        | inl e ↦ rw (e, odometer, round.rows, agree mps idxs r) (rw e refl)
        | inr e ↦
            let rest =
              odometer-remaining fuel mps (advance mps idxs).0 h round.in_range
                (ground (arith, round.rows)) in
            rw (e, odometer, rest, round.rows, agree mps idxs r) (rw e refl)
      ]

  -- With one round for each row the loop ends, and it makes the cross product.
  pub odometer-product :
      (mps : List MatrixParam)
      → has_empty_value mps ≡ false
      → odometer row (cross_size mps) mps (zeros mps) ≡ some (map of_choice (product mps))
  odometer-product mps h =
      odometer-remaining (cross_size mps) mps (zeros mps) h (zeros-InRange mps h)
        (ground (arith, remaining-zeros mps h, length-product mps))
      ∙ ap (λ c. some (map of_choice c)) (remaining-zeros mps h)
