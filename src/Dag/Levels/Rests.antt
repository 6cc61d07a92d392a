-- ===== src/Dag/Levels/Rests.antt =====
-- The closed form of the table that `Levels` counts in, and what a round leaves of the nodes.
use tkn_act.Base.{
  ◌≤◌, ◌<◌, String, ◌≡◌, refl, ap, ◌∙◌, true, false, not, ◌&&◌, arith, ◌==◌, eq_iff, List, [], ◌∷◌,
  length, mem, without, mem-without, keep, keep-Distinct, Distinct, count_p, any, all,
  length-keep-le,
}
use tkn_act.Base.Integers.{ℤ, pos}
use tkn_act.Dag.{Graph, ready, retire, is_zero, is_empty}
use tkn_act.Dag.Build.{IsMirrored}
use tkn_act.Dag.Counts.{tabulate, degree, retire_one}

abbrev pub table : Graph → List String → List (String × ℤ)
table g left = tabulate (λ k. pos (degree g left k)) left

pub ready-tabulate :
    (f : String → ℤ) (ns : List String) → ready (tabulate f ns) ≡ keep (λ n. is_zero (f n)) ns
unfolding ready
ready-tabulate f [] = refl
ready-tabulate f (n ∷ ns) = ground (arith, ready-tabulate f ns)

-- What is left when the nodes of a round are gone.
pub minus : List String → List String → List String
minus [] left = left
minus (n ∷ ns) left = minus ns (without n left)

pub mem-minus :
    (x : String) (ns left : List String) → mem x (minus ns left) ≡ (mem x left && not (mem x ns))
unfolding minus
mem-minus x [] left = ground arith
mem-minus x (n ∷ ns) left =
    ground (arith, mem-minus x ns (without n left), mem-without x n left, eq_iff x n, eq_iff n x)

pub minus-Distinct : (ns left : List String) → Distinct left → Distinct (minus ns left)
unfolding minus
minus-Distinct [] left d = d
minus-Distinct (n ∷ ns) left d =
    minus-Distinct ns (without n left) (keep-Distinct (λ x. not (x == n)) left d)

pub length-minus-le : (ns left : List String) → length (minus ns left) ≤ length left
unfolding minus
length-minus-le [] left = omega arith
length-minus-le (n ∷ ns) left =
    omega (arith, length-minus-le ns (without n left), length-keep-le (λ x. not (x == n)) left)

pub length-without-lt :
    (n : String) (left : List String) → mem n left ≡ true → length (without n left) < length left
length-without-lt n [] m = absurd (cc)
length-without-lt n (x ∷ left) m =
    ground (arith, length-without-lt n left, length-keep-le (λ x. not (x == n)) left)

-- A round that retires something shortens what is left.
pub length-minus-lt :
    (level left : List String)
    → is_empty level ≡ false
    → ((x : String) → mem x level ≡ true → mem x left ≡ true)
    → length (minus level left) < length left
unfolding minus
length-minus-lt [] left e sub = absurd (cc)
length-minus-lt (n ∷ ns) left e sub = omega (
  arith,
  length-minus-le ns (without n left),
  length-without-lt n left (sub n (ground (arith, eq_iff n n))),
)

module _ (g : Graph) (mir : IsMirrored g) where
  pub retire-table :
      (ns left : List String)
      → ((x : String) → mem x ns ≡ true → mem x left ≡ true)
      → Distinct ns
      → retire g ns (table g left) ≡ table g (minus ns left)
  unfolding retire minus
  retire-table [] left sub d = refl
  retire-table (n ∷ ns) left sub d =
      ap (retire g ns) (retire_one g mir n left (sub n (ground (arith, eq_iff n n))))
      ∙ retire-table ns (without n left)
          (λ x m. ground (arith, sub x, mem-without x n left, eq_iff x n, d.0)) d.1

  -- The dependencies of `v` are all in `done` exactly when none of them is left.
  pub zero-degree :
      (done left us : List String)
      → ((x : String) → mem x left ≡ (mem x g.nodes && not (mem x done)))
      → ((u : String) → mem u us ≡ true → mem u g.nodes ≡ true)
      → is_zero (pos (count_p (λ u. mem u left) us)) ≡ all (λ u. mem u done) us
  zero-degree done left [] part known = refl
  zero-degree done left (u ∷ us) part known = ground (
    arith,
    zero-degree done left us part (λ x m. known x (ground arith)),
    part u,
    known u,
    eq_iff u u,
  )

pub mem_of_empty : (xs : List String) (x : String) → is_empty xs ≡ true → mem x xs ≡ false
mem_of_empty [] x e = refl
mem_of_empty (y ∷ ys) x e = absurd (cc)

pub some_left :
    (g : Graph) (done left us : List String)
    → ((x : String) → mem x left ≡ (mem x g.nodes && not (mem x done)))
    → ((u : String) → mem u us ≡ true → mem u g.nodes ≡ true)
    → all (λ u. mem u done) us ≡ false
    → any (λ u. mem u left) us ≡ true
some_left g done left [] part known h = cc
some_left g done left (u ∷ us) part known h = ground (
  arith,
  some_left g done left us part (λ x m. known x (ground arith)),
  part u,
  known u,
  eq_iff u u,
)
