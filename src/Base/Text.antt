-- ===== src/Base/Text.antt =====
-- Operations of Go's `strings` and `strconv` packages on native texts, by their characters.
use Prim.Native.Char.{code}
use Prim.Native.String.{String}
use tkn_act.Base.Tests.{ltb, leb, nat_eq, if◌then◌else◌}
use mathlib.Core.List.{List, [], ◌∷◌}
use Prim.Native.Nat.{ℕ, zero, suc, ◌+◌, ◌-◌, ◌*◌, ◌/◌, ◌%◌}
use Prim.Native.String.{◌++◌}
use mathlib.Core.Path.{◌≡◌, refl}
use mathlib.Core.Bool.{Bool, true, false, ◌&&◌, ◌||◌}
use mathlib.Core.Option.{Option, none, some}
use text.Mathlib.Text.{◌==◌}

unfoldable pub digit : ℕ → String
digit zero = "0"
digit (suc zero) = "1"
digit (suc (suc zero)) = "2"
digit (suc (suc (suc zero))) = "3"
digit (suc (suc (suc (suc zero)))) = "4"
digit (suc (suc (suc (suc (suc zero))))) = "5"
digit (suc (suc (suc (suc (suc (suc zero)))))) = "6"
digit (suc (suc (suc (suc (suc (suc (suc zero))))))) = "7"
digit (suc (suc (suc (suc (suc (suc (suc (suc zero)))))))) = "8"
digit _ = "9"

unfoldable pub itoa_fuel : ℕ → ℕ → String
unfolding digit
itoa_fuel zero n = digit n
itoa_fuel (suc f) n =
    let front = itoa_fuel f (n / 10) in if ltb n 10 then digit n else front ++ digit (n % 10)

-- strconv.Itoa on a number that is not negative
unfoldable pub itoa : ℕ → String
unfolding itoa_fuel
itoa n = itoa_fuel n n

itoa_255 : itoa 255 ≡ "255"
unfolding itoa
itoa_255 = refl

-- strings.CutPrefix, as an option
unfoldable pub strip_prefix : String → String → Option String
strip_prefix String.[] s = some s
strip_prefix (String.◌∷◌ p ps) String.[] = none
strip_prefix (String.◌∷◌ p ps) (String.◌∷◌ c s) =
    let rest = strip_prefix ps s in if nat_eq (code p) (code c) then rest else none

unfoldable pub has_prefix : String → String → Bool
unfolding strip_prefix
has_prefix p s = elim (strip_prefix p s) [ none ↦ false | some _ ↦ true ]

-- strings.CutSuffix, as an option
unfoldable pub strip_suffix : String → String → Option String
strip_suffix p String.[] = if p == "" then some "" else none
strip_suffix p (String.◌∷◌ c s) =
    let rest = strip_suffix p s in
    if p == String.◌∷◌ c s
    then some ""
    else elim rest [ none ↦ none | some front ↦ some (String.◌∷◌ c front) ]

-- strings.Contains
unfoldable pub contains : String → String → Bool
unfolding has_prefix
contains p String.[] = p == ""
contains p (String.◌∷◌ c s) = has_prefix p (String.◌∷◌ c s) || contains p s

-- The text before the first character of a code, and the text after it.
unfoldable pub cut_first : ℕ → String → Option (String × String)
cut_first n String.[] = none
cut_first n (String.◌∷◌ c s) =
    let rest = cut_first n s in
    if nat_eq (code c) n
    then some ("", s)
    else elim rest [ none ↦ none | some (a, b) ↦ some (String.◌∷◌ c a, b) ]

-- The same at the last such character.
unfoldable pub cut_last : ℕ → String → Option (String × String)
cut_last n String.[] = none
cut_last n (String.◌∷◌ c s) = elim (cut_last n s) [
  | some (a, b) ↦ some (String.◌∷◌ c a, b)
  | none ↦ if nat_eq (code c) n then some ("", s) else none
]

-- The longest front whose characters pass a test, and the rest.
unfoldable pub span : (ℕ → Bool) → String → String × String
span p String.[] = ("", "")
span p (String.◌∷◌ c s) =
    let rest = span p s in
    if p (code c) then (String.◌∷◌ c rest.0, rest.1) else ("", String.◌∷◌ c s)

unfoldable pub all_codes : (ℕ → Bool) → String → Bool
all_codes p String.[] = true
all_codes p (String.◌∷◌ c s) = p (code c) && all_codes p s

abbrev pub is_digit : ℕ → Bool
is_digit c = leb b'0' c && leb c b'9'

-- [a-zA-Z0-9]
abbrev pub is_alnum : ℕ → Bool
is_alnum c = is_digit c || leb b'a' c && leb c b'z' || leb b'A' c && leb c b'Z'

-- \w
abbrev pub is_word : ℕ → Bool
is_word c = is_alnum c || nat_eq c b'_'

-- The first character passes a test.
unfoldable pub starts : (ℕ → Bool) → String → Bool
starts p String.[] = false
starts p (String.◌∷◌ c s) = p (code c)

-- strings.ToLower on ASCII texts, as a comparison: `s` in lower case is `t`
unfoldable pub lower_eq : String → String → Bool
lower_eq String.[] String.[] = true
lower_eq String.[] (String.◌∷◌ d t) = false
lower_eq (String.◌∷◌ c s) String.[] = false
lower_eq (String.◌∷◌ c s) (String.◌∷◌ d t) =
    let low = if leb b'A' (code c) && leb (code c) b'Z' then code c + 32 else code c in
    nat_eq low (code d) && lower_eq s t

-- strings.HasPrefix of a text and a prefix in upper case, on ASCII: `strings.ToUpper` of `p` starts `s`
unfoldable pub upper_prefix : String → String → Bool
upper_prefix String.[] s = true
upper_prefix (String.◌∷◌ p ps) String.[] = false
upper_prefix (String.◌∷◌ p ps) (String.◌∷◌ c s) =
    let up = if leb b'a' (code p) && leb (code p) b'z' then code p - 32 else code p in
    nat_eq up (code c) && upper_prefix ps s

-- strings.Count of one character
unfoldable pub count_code : ℕ → String → ℕ
count_code n String.[] = 0
count_code n (String.◌∷◌ c s) =
    let rest = count_code n s in if nat_eq (code c) n then suc rest else rest

-- The number of characters.
unfoldable pub size : String → ℕ
size String.[] = 0
size (String.◌∷◌ c s) = suc (size s)

-- strings.Index: the text before a pattern's first occurrence, and the text after the pattern
unfoldable pub cut_text : String → String → Option (String × String)
unfolding strip_prefix
cut_text p String.[] = if p == "" then some ("", "") else none
cut_text p (String.◌∷◌ c s) =
    let later = cut_text p s in
    elim (strip_prefix p (String.◌∷◌ c s)) [
      | some rest ↦ some ("", rest)
      | none ↦ elim later [ none ↦ none | some (a, b) ↦ some (String.◌∷◌ c a, b) ]
    ]

-- strings.SplitN on one character, with `n + 1` parts at most
unfoldable pub split_n : ℕ → ℕ → String → List String
unfolding cut_first
split_n zero c s = s ∷ []
split_n (suc n) c s = elim (cut_first c s) [ none ↦ s ∷ [] | some (a, b) ↦ a ∷ split_n n c b ]

-- The number that decimal digits write.
unfoldable pub decimal : ℕ → String → ℕ
decimal acc String.[] = acc
decimal acc (String.◌∷◌ c s) = decimal (acc * 10 + (code c - 48)) s
