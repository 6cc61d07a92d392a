-- ===== src/Base/Order.antt =====
-- The byte order of Go's strings (on UTF-8 that is the order of code points) and `sort.Strings`.
use Prim.Native.Char.{code}
use Prim.Native.String.{String}
use mathlib.Core.Path.{◌≡◌, refl, ◌∙◌}
use mathlib.Core.Bool.{Bool, true, false, ◌&&◌, ◌||◌}
use mathlib.Core.List.{List, [], ◌∷◌}
use native.Mathlib.Omega.{arith}
use text.Mathlib.Text.{◌==◌}
use text.Mathlib.TextEquality.{eq_iff}
use tkn_act.Base.Tests.{ltb, nat_eq, if◌then◌else◌}
use tkn_act.Base.Lists.{mem, Distinct}

-- s <= t
unfoldable pub str_le : String → String → Bool
str_le String.[] t = true
str_le (String.◌∷◌ c s) String.[] = false
str_le (String.◌∷◌ c s) (String.◌∷◌ d t) =
    let rest = str_le s t in ltb (code c) (code d) || nat_eq (code c) (code d) && rest

unfoldable pub insert_sorted : String → List String → List String
unfolding str_le
insert_sorted a [] = a ∷ []
insert_sorted a (x ∷ xs) = if str_le a x then a ∷ x ∷ xs else x ∷ insert_sorted a xs

-- sort.Strings
unfoldable pub sort : List String → List String
unfolding insert_sorted
sort [] = []
sort (x ∷ xs) = insert_sorted x (sort xs)

pub mem-insert_sorted :
    (b a : String) (xs : List String) → mem b (insert_sorted a xs) ≡ (a == b || mem b xs)
unfolding insert_sorted
mem-insert_sorted b a [] = refl
mem-insert_sorted b a (x ∷ xs) = ground (arith, mem-insert_sorted b a xs)

pub mem-sort : (b : String) (xs : List String) → mem b (sort xs) ≡ mem b xs
unfolding sort
mem-sort b [] = refl
mem-sort b (x ∷ xs) = ground (arith, mem-insert_sorted b x (sort xs), mem-sort b xs)

insert_sorted-Distinct :
    (a : String) (xs : List String) → mem a xs ≡ false → Distinct xs → Distinct (insert_sorted a xs)
unfolding insert_sorted
insert_sorted-Distinct a [] h d = (refl, tt)
insert_sorted-Distinct a (x ∷ xs) h d =
    ground (arith, insert_sorted-Distinct a xs, mem-insert_sorted x a xs, eq_iff x a, eq_iff a x)

pub sort-Distinct : (xs : List String) → Distinct xs → Distinct (sort xs)
unfolding sort
sort-Distinct [] d = d
sort-Distinct (x ∷ xs) d =
    insert_sorted-Distinct x (sort xs) (mem-sort x xs ∙ d.0) (sort-Distinct xs d.1)
