-- ===== src/Base/Lists.antt =====
-- Lists measured by native numbers, with Boolean tests, and lists of texts as Go's string sets.
use Prim.Native.Nat.{ℕ, zero, suc, ◌+◌, ◌≤◌}
use Prim.Native.String.{String}
use mathlib.Core.Path.{◌≡◌, refl, sym, ap, ◌∙◌}
use mathlib.Core.Bool.{Bool, true, false, not, ◌&&◌, ◌||◌}
use mathlib.Core.Option.{Option, none, some}
use mathlib.Core.List.{List, [], ◌∷◌, ◌++◌, map, append_assoc}
use native.Mathlib.Omega.{arith}
use text.Mathlib.Text.{◌==◌}
use text.Mathlib.TextEquality.{eq_iff}
use mathlib.Core.Logic.{◌⊎◌, inl, inr}
use tkn_act.Base.Tests.{if◌then◌else◌, Bool-cases, nat_eq}

module _ {ℓ} {A : Type ℓ} where
  abbrev pub length : List A → ℕ
  length [] = 0
  length (x ∷ xs) = suc (length xs)

  abbrev pub get_elem? : List A → ℕ → Option A
  get_elem? [] i = none
  get_elem? (x ∷ xs) zero = some x
  get_elem? (x ∷ xs) (suc i) = get_elem? xs i

  abbrev pub take : ℕ → List A → List A
  take zero xs = []
  take (suc n) [] = []
  take (suc n) (x ∷ xs) = x ∷ take n xs

  -- The items that pass a test, in order.
  abbrev pub keep : (A → Bool) → List A → List A
  keep p [] = []
  keep p (x ∷ xs) = let rest = keep p xs in if p x then x ∷ rest else rest

  abbrev pub any : (A → Bool) → List A → Bool
  any p [] = false
  any p (x ∷ xs) = p x || any p xs

  abbrev pub all : (A → Bool) → List A → Bool
  all p [] = true
  all p (x ∷ xs) = p x && all p xs

  abbrev pub concat : List (List A) → List A
  concat [] = []
  concat (xs ∷ rest) = xs ++ concat rest

  pub length-append : (xs ys : List A) → length (xs ++ ys) ≡ length xs + length ys
  length-append [] ys = omega arith
  length-append (x ∷ xs) ys = omega (arith, length-append xs ys)

  pub length-keep-le : (p : A → Bool) (xs : List A) → length (keep p xs) ≤ length xs
  length-keep-le p [] = omega arith
  length-keep-le p (x ∷ xs) = ground (arith, length-keep-le p xs)

  pub any-append : (p : A → Bool) (xs ys : List A) → any p (xs ++ ys) ≡ (any p xs || any p ys)
  any-append p [] ys = refl
  any-append p (x ∷ xs) ys = ground (arith, any-append p xs ys)

-- The results of a loop that appends to a list.
abbrev pub each {ℓ κ} : {A : Type ℓ} {B : Type κ} → (A → List B) → List A → List B
each f [] = []
each f (x ∷ xs) = f x ++ each f xs

pub each-append {ℓ κ} :
    {A : Type ℓ} {B : Type κ} (f : A → List B) (xs ys : List A)
    → each f (xs ++ ys) ≡ each f xs ++ each f ys
each-append f [] ys = refl
each-append f (x ∷ xs) ys =
    ap (λ t. f x ++ t) (each-append f xs ys) ∙ sym (append_assoc (f x) (each f xs) (each f ys))

-- One report if a test holds.
abbrev pub report {ℓ} : {E : Type ℓ} → Bool → E → List E
report b e = if b then e ∷ [] else []

module _ {ℓ} {A : Type ℓ} where
  pub any_congr : (p q : A → Bool) (xs : List A) → ((x : A) → p x ≡ q x) → any p xs ≡ any q xs
  any_congr p q [] h = refl
  any_congr p q (x ∷ xs) h = ground (arith, any_congr p q xs h, h x)

  pub length-map {κ} : {B : Type κ} (f : A → B) (xs : List A) → length (map f xs) ≡ length xs
  length-map f [] = refl
  length-map f (x ∷ xs) = ap suc (length-map f xs)

-- Membership of a text, as a Boolean.
abbrev pub mem : String → List String → Bool
mem a [] = false
mem a (x ∷ xs) = x == a || mem a xs

-- No text occurs twice.
abbrev pub Distinct : List String → Type 0
Distinct [] = Unit
Distinct (x ∷ xs) = (mem x xs ≡ false) × Distinct xs

pub mem-append : (a : String) (xs ys : List String) → mem a (xs ++ ys) ≡ (mem a xs || mem a ys)
mem-append a [] ys = refl
mem-append a (x ∷ xs) ys = ground (arith, mem-append a xs ys)

pub mem-keep :
    (a : String) (p : String → Bool) (xs : List String) → mem a (keep p xs) ≡ (mem a xs && p a)
mem-keep a p [] = refl
mem-keep a p (x ∷ xs) = ground (arith, mem-keep a p xs, eq_iff x a)

pub keep-Distinct : (p : String → Bool) (xs : List String) → Distinct xs → Distinct (keep p xs)
keep-Distinct p [] h = h
keep-Distinct p (x ∷ xs) h = ground (arith, mem-keep x p xs, keep-Distinct p xs h.1)

-- How many items pass a test.
abbrev pub count_p : (String → Bool) → List String → ℕ
count_p p [] = 0
count_p p (x ∷ xs) = let rest = count_p p xs in if p x then suc rest else rest

-- A Go set of strings: adding a member again changes nothing.
unfoldable pub add : String → List String → List String
add a xs = if mem a xs then xs else xs ++ a ∷ []

pub mem-add : (a b : String) (xs : List String) → mem b (add a xs) ≡ (mem b xs || a == b)
unfolding add
mem-add a b xs = ground (arith, mem-append b xs (a ∷ []), eq_iff a b)

pub Distinct-snoc :
    (a : String) (xs : List String) → mem a xs ≡ false → Distinct xs → Distinct (xs ++ a ∷ [])
Distinct-snoc a [] h d = (refl, tt)
Distinct-snoc a (x ∷ xs) h d =
    ground (arith, mem-append x xs (a ∷ []), Distinct-snoc a xs, eq_iff x a, eq_iff a x)

pub add-Distinct : (a : String) (xs : List String) → Distinct xs → Distinct (add a xs)
unfolding add
add-Distinct a xs d = ground (arith, Distinct-snoc a xs)

pub Distinct-append :
    (xs ys : List String)
    → Distinct xs
    → Distinct ys
    → ((x : String) → mem x xs ≡ true → mem x ys ≡ false)
    → Distinct (xs ++ ys)
Distinct-append [] ys dx dy apart = dy
Distinct-append (x ∷ xs) ys dx dy apart = (
  ground (arith, mem-append x xs ys, apart x, eq_iff x x),
  Distinct-append xs ys dx.1 dy (λ a m. apart a (ground arith)),
)

pub all_of_mem :
    (p : String → Bool) (xs : List String) (x : String)
    → all p xs ≡ true
    → mem x xs ≡ true
    → p x ≡ true
all_of_mem p [] x h m = cc
all_of_mem p (y ∷ ys) x h m = ground (arith, all_of_mem p ys x, eq_iff y x)

pub mem_of_any :
    (p : String → Bool) (xs : List String)
    → any p xs ≡ true
    → (x : String) × (mem x xs ≡ true) × (p x ≡ true)
mem_of_any p [] h = absurd (cc)
mem_of_any p (y ∷ ys) h = elim (Bool-cases (p y)) [
  | inl e ↦ (y, ground (arith, eq_iff y y), e)
  | inr e ↦ let (x, m, q) = mem_of_any p ys (ground arith) in (x, ground arith, q)
]

pub List-cases {ℓ} :
    {A : Type ℓ} (xs : List A) → (xs ≡ []) ⊎ ((y : A) × (ys : List A) × (xs ≡ y ∷ ys))
List-cases [] = inl refl
List-cases (y ∷ ys) = inr (y, ys, refl)

abbrev pub without : String → List String → List String
without a = keep (λ x. not (x == a))

pub mem-without :
    (x a : String) (xs : List String) → mem x (without a xs) ≡ (mem x xs && not (x == a))
mem-without x a xs = mem-keep x (λ y. not (y == a)) xs

-- How often a text occurs.
abbrev pub occ : String → List String → ℕ
occ a [] = 0
occ a (x ∷ xs) = let rest = occ a xs in if x == a then suc rest else rest

pub occ-append : (a : String) (xs ys : List String) → occ a (xs ++ ys) ≡ occ a xs + occ a ys
occ-append a [] ys = omega arith
occ-append a (x ∷ xs) ys = ground (arith, occ-append a xs ys)

pub occ-without :
    (a b : String) (xs : List String) → occ a (without b xs) ≡ (if b == a then 0 else occ a xs)
occ-without a b [] = ground arith
occ-without a b (x ∷ xs) = ground (arith, occ-without a b xs, eq_iff x b, eq_iff x a, eq_iff b a)

pub mem-eq-occ : (a : String) (xs : List String) → mem a xs ≡ not (nat_eq (occ a xs) 0)
mem-eq-occ a [] = refl
mem-eq-occ a (x ∷ xs) = ground (arith, mem-eq-occ a xs)

pub occ-le-one : (a : String) (xs : List String) → Distinct xs → occ a xs ≤ 1
occ-le-one a [] d = omega arith
occ-le-one a (x ∷ xs) d = ground (arith, occ-le-one a xs d.1, mem-eq-occ x xs, eq_iff x a)
