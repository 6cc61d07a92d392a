-- ===== src/Validator/Clean.antt =====
-- Lists of reports that are empty.
use tkn_act.Base.{
  ◌≡◌, refl, ◌↔◌, Bool, true, false, not, ◌&&◌, arith, List, [], ◌∷◌, ◌++◌, each, report, all,
  concat, mem, String, Map, lookup, some, ◌==◌, eq_iff, subst, Bool-cases, inl, inr,
}
use mathlib.Core.List.{append-nil}
use tkn_act.Dag.{is_empty}

module _ {A : Type 0} where
  pub append_nil : (xs ys : List A) → xs ++ ys ≡ [] → (xs ≡ []) × (ys ≡ [])
  append_nil [] ys h = (refl, h)
  append_nil (x ∷ xs) ys h = absurd (cc)

  pub nil_append : (xs ys : List A) → xs ≡ [] → ys ≡ [] → xs ++ ys ≡ []
  nil_append xs ys h k = rw (h, k) refl

  pub append_clean : (xs ys : List A) → ys ≡ [] → xs ++ ys ≡ xs
  append_clean xs ys h = rw h (append-nil xs)

  pub is_empty-append : (xs ys : List A) → is_empty (xs ++ ys) ≡ (is_empty xs && is_empty ys)
  is_empty-append [] ys = refl
  is_empty-append (x ∷ xs) ys = refl

  pub is_empty_iff : (xs : List A) → (is_empty xs ≡ true) ↔ (xs ≡ [])
  is_empty_iff [] = (λ _. refl, λ _. refl)
  is_empty_iff (x ∷ xs) = (λ h. absurd (cc), λ h. absurd (cc))

  pub is_empty-report : (b : Bool) (e : A) → is_empty (report b e) ≡ not b
  is_empty-report true e = refl
  is_empty-report false e = refl

  pub is_empty-each :
      {B : Type 0} (f : B → List A) (xs : List B)
      → is_empty (each f xs) ≡ all (λ x. is_empty (f x)) xs
  is_empty-each f [] = refl
  is_empty-each f (x ∷ xs) = ground (arith, is_empty-append (f x) (each f xs), is_empty-each f xs)

pub all_congr :
    {A : Type 0} (p q : A → Bool) (xs : List A) → ((x : A) → p x ≡ q x) → all p xs ≡ all q xs
all_congr p q [] h = refl
all_congr p q (x ∷ xs) h = ground (arith, h x, all_congr p q xs h)

-- Each part of a list of parts is empty if the whole is.
pub concat_nil : {A : Type 0} (xss : List (List A)) → concat xss ≡ [] → all is_empty xss ≡ true
concat_nil [] h = refl
concat_nil (xs ∷ xss) h =
    let (here, later) = append_nil xs (concat xss) h in
    ground (arith, concat_nil xss later, (is_empty_iff xs).1 here)

-- Each entry of a map that a clean loop went over is clean.
pub each_found :
    {V A : Type 0} (f : String × V → List A) (m : Map V) (name : String) (v : V)
    → each f m ≡ []
    → lookup name m ≡ some v
    → f (name, v) ≡ []
unfolding lookup
each_found f [] name v h e = absurd (cc)
each_found f ((j, w) ∷ m) name v h e =
    let (here, later) = append_nil (f (j, w)) (each f m) h in
    elim (Bool-cases (j == name)) [
      | inl same ↦
          let key : j ≡ name = (eq_iff j name).0 same in
          let value : w ≡ v = ground (arith, e, same) in
          subst (λ (t : String). f (t, v) ≡ []) key (subst (λ (x : _). f (j, x) ≡ []) value here)
      | inr other ↦ each_found f m name v later (ground (arith, e, other))
    ]

pub all_not-cons :
    (a : String) (seen ns : List String)
    → all (λ n. not (mem n (a ∷ seen))) ns ≡ (not (mem a ns) && all (λ n. not (mem n seen)) ns)
all_not-cons a seen [] = refl
all_not-cons a seen (n ∷ ns) = ground (arith, all_not-cons a seen ns, eq_iff a n, eq_iff n a)
