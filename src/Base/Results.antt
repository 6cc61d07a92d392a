-- ===== src/Base/Results.antt =====
-- Go's pair of a value and an error: a value, or an error of the component's own type.
use mathlib.Core.Path.{◌≡◌, refl, subst, ap}
use mathlib.Core.Logic.{◌⊎◌, inl, inr}
use mathlib.Core.Bool.{Bool, true, false}
use mathlib.Core.List.{List, [], ◌∷◌}

pub data Result (E A : Type 0) : Type 0 where
  ok : A → Result E A
  err : E → Result E A

infixl 5 ◌>>=◌
-- the value goes on, an error ends the block
abbrev pub ◌>>=◌ : {E A B : Type 0} → Result E A → (A → Result E B) → Result E B
ok value >>= next = next value
err e >>= next = err e

-- A loop that stops at the first error.
abbrev pub traverse : {E A B : Type 0} → (A → Result E B) → List A → Result E (List B)
traverse f [] = ok []
traverse f (x ∷ xs) = do y ← f x; ys ← traverse f xs; ok (y ∷ ys)

abbrev pub is_ok : {E A : Type 0} → Result E A → Bool
is_ok (ok _) = true
is_ok (err _) = false

pub Result-cases :
    {E A : Type 0} (r : Result E A) → ((a : A) × (r ≡ ok a)) ⊎ ((e : E) × (r ≡ err e))
Result-cases (ok a) = inl (a, refl)
Result-cases (err e) = inr (e, refl)

-- A block that gave a value went through its first line.
pub bind_parts :
    {E A B : Type 0} (r : Result E A) (next : A → Result E B) (b : B)
    → (r >>= next) ≡ ok b
    → (a : A) × (r ≡ ok a) × (next a ≡ ok b)
bind_parts (ok a) next b h = (a, refl, h)
bind_parts (err e) next b h = absurd (cc)

-- Two lists of one length, related entry by entry.
abbrev pub Pairwise {ℓ κ} : {A : Type ℓ} {B : Type κ} → (A → B → Type 0) → List A → List B → Type 0
Pairwise R [] [] = Unit
Pairwise R [] (y ∷ ys) = ⊥
Pairwise R (x ∷ xs) [] = ⊥
Pairwise R (x ∷ xs) (y ∷ ys) = R x y × Pairwise R xs ys

pub ok_inj : {E A : Type 0} (a b : A) → ◌≡◌ {A = Result E A} (ok a) (ok b) → a ≡ b
ok_inj a b h = cc

pub traverse-Pairwise :
    {E A B : Type 0} (f : A → Result E B) (xs : List A) (ys : List B)
    → traverse f xs ≡ ok ys
    → Pairwise (λ x y. f x ≡ ok y) xs ys
traverse-Pairwise f [] ys h = subst (Pairwise (λ x y. f x ≡ ok y) []) (ok_inj [] ys h) tt
traverse-Pairwise f (x ∷ xs) ys h =
    let (y, e, h1) = bind_parts (f x) (λ y. traverse f xs >>= λ rest. ok (y ∷ rest)) ys h in
    let (rest, r, done) = bind_parts (traverse f xs) (λ rest. ok (y ∷ rest)) ys h1 in
    subst (Pairwise (λ x y. f x ≡ ok y) (x ∷ xs)) (ok_inj (y ∷ rest) ys done)
      (e, traverse-Pairwise f xs rest r)

pub Pairwise-map :
    {A B : Type 0} (R S : A → B → Type 0) (xs : List A) (ys : List B)
    → ((x : A) (y : B) → R x y → S x y)
    → Pairwise R xs ys
    → Pairwise S xs ys
Pairwise-map R S [] [] f p = tt
Pairwise-map R S [] (y ∷ ys) f p = p
Pairwise-map R S (x ∷ xs) [] f p = p
Pairwise-map R S (x ∷ xs) (y ∷ ys) f p = (f x y p.0, Pairwise-map R S xs ys f p.1)

pub Pairwise-trans :
    {A B C : Type 0} (R : A → B → Type 0) (S : B → C → Type 0) (T : A → C → Type 0)
    → ((x : A) (y : B) (z : C) → R x y → S y z → T x z)
    → (xs : List A) (ys : List B) (zs : List C) → Pairwise R xs ys
    → Pairwise S ys zs
    → Pairwise T xs zs
Pairwise-trans R S T f [] [] [] p q = tt
Pairwise-trans R S T f [] [] (z ∷ zs) p q = q
Pairwise-trans R S T f [] (y ∷ ys) zs p q = absurd p
Pairwise-trans R S T f (x ∷ xs) [] zs p q = absurd p
Pairwise-trans R S T f (x ∷ xs) (y ∷ ys) [] p q = q
Pairwise-trans R S T f (x ∷ xs) (y ∷ ys) (z ∷ zs) p q =
    (f x y z p.0 q.0, Pairwise-trans R S T f xs ys zs p.1 q.1)

-- A block that ended with an error did so at its first line, or after it.
pub bind_stops :
    {E A B : Type 0} (r : Result E A) (next : A → Result E B) (e : E)
    → (r >>= next) ≡ err e
    → (r ≡ err e) ⊎ ((a : A) × (r ≡ ok a) × (next a ≡ err e))
bind_stops (ok a) next e h = inr (a, refl, h)
bind_stops (err x) next e h = inl (ap err (cc))
