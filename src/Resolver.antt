-- ===== src/Resolver.antt =====
-- internal/resolver/resolver.go: substitution of `$(...)` references. A text is walked character by
-- character; what a match covers is skipped. `encoding/json` is not part of the repository: its two
-- uses are the fields of a parameter `Json`.
pub mod Scope
pub mod Lookup
pub mod Text
pub mod Modes
pub mod Arrays
use Prim.Native.Char.{code}
use Prim.Native.String.{◌++◌ as str_append}
use tkn_act.Base.{
  ℕ, zero, suc, ◌+◌, ◌-◌, String, Bool, true, false, ◌&&◌, ◌||◌, not, ◌==◌, Option, none, some,
  List, [], ◌∷◌, ◌++◌, if◌then◌else◌, nat_eq, Map, lookup as find, Result, ok, err, ◌>>=◌,
}
use tkn_act.Base.Text.{
  strip_prefix, has_prefix, strip_suffix, span, is_alnum, is_word, starts, size, all_codes,
  cut_text,
}
use tkn_act.Resolver.Scope.{
  Context, Json, LookupError, step_ref_deferred, leave_literal, not_json_array, unknown_array_param,
  no_results, no_result, malformed_star, unrecognised_star,
}
use tkn_act.Resolver.Lookup.{lookup, lookup_allow_defer}

pub data Mode : Type 0 where
  strict defer_step defer_all : Mode

-- refPat: a letter or a digit, then letters, digits and the signs of a reference
abbrev pub is_key_code : ℕ → Bool
is_key_code c =
    is_word c || nat_eq c b'.' || nat_eq c b'[' || nat_eq c b']' || nat_eq c b'*' || nat_eq c b'-'

-- refPat at the start of a text: the key
unfoldable pub ref_at : String → Option String
unfolding strip_prefix starts span has_prefix
ref_at s = elim (strip_prefix "$(" s) [
  | none ↦ none
  | some t ↦
      let (key, rest) = span is_key_code t in
      if starts is_alnum t && has_prefix ")" rest then some key else none
]

-- strings.ReplaceAll; `skip` characters belong to the last match
unfoldable pub replace_from : String → String → ℕ → String → String
unfolding has_prefix size
replace_from old new skip String.[] = ""
replace_from old new zero (String.◌∷◌ c s) =
    let here = has_prefix old (String.◌∷◌ c s) in
    let rest = replace_from old new (if here then size old - 1 else 0) s in
    if here then str_append new rest else String.◌∷◌ c rest
replace_from old new (suc skip) (String.◌∷◌ c s) = replace_from old new skip s

abbrev pub sentinel : String
sentinel = "\0DOLLAR\0"

-- The reference stays as it stands.
abbrev pub is_left : Mode → LookupError → Bool
is_left mode leave_literal = true
is_left strict step_ref_deferred = false
is_left defer_step step_ref_deferred = true
is_left defer_all step_ref_deferred = true
is_left mode _ = false

abbrev pub lookup_in : Json → Context → Mode → String → Result LookupError String
lookup_in json ctx strict key = lookup json ctx key
lookup_in json ctx defer_step key = lookup json ctx key
lookup_in json ctx defer_all key = lookup_allow_defer json ctx key

module _ (json : Json) (ctx : Context) (mode : Mode) where
  -- What a reference is replaced by: none leaves it as it stands.
  unfoldable pub resolve : String → Result LookupError (Option String)
  unfolding lookup lookup_allow_defer
  resolve key = elim (lookup_in json ctx mode key) [
    | ok v ↦ ok (some v)
    | err e ↦ if is_left mode e then ok none else err e
  ]

  -- refPat.ReplaceAllStringFunc, up to the first error
  unfoldable pub scan_refs : ℕ → String → Result LookupError String
  unfolding ref_at resolve size
  scan_refs skip String.[] = ok ""
  scan_refs zero (String.◌∷◌ c s) =
      let here = ref_at (String.◌∷◌ c s) in
      let rest = scan_refs (elim here [ none ↦ 0 | some key ↦ size key + 2 ]) s in
      elim here [
        | none ↦ do r ← rest; ok (String.◌∷◌ c r)
        | some key ↦ do
          v ← resolve key
          r ← rest
          ok (str_append (elim v [ none ↦ str_append "$(" (str_append key ")") | some t ↦ t ]) r)
      ]
  scan_refs (suc skip) (String.◌∷◌ c s) = scan_refs skip s

  unfoldable pub substitute : String → Result LookupError String
  unfolding scan_refs replace_from
  substitute s = do
    out ← scan_refs 0 (replace_from "$$" sentinel 0 s)
    ok (replace_from sentinel "$" 0 out)

-- arrayStarRefPat: no parenthesis, no dollar and no white space
abbrev pub is_star_code : ℕ → Bool
is_star_code c = not (
    nat_eq c b'('
    || nat_eq c b')'
    || nat_eq c b'$'
    || nat_eq c b' '
    || nat_eq c 9
    || nat_eq c 10
    || nat_eq c 12
    || nat_eq c 13)

abbrev pub is_some_text : Option String → Bool
is_some_text none = false
is_some_text (some _) = true

unfoldable pub is_array_star_ref : String → Bool
unfolding strip_prefix strip_suffix all_codes
is_array_star_ref s = elim (strip_prefix "$(" s) [
  | none ↦ false
  | some t ↦
      elim (if is_some_text (strip_prefix "params." t)
        then strip_prefix "params." t
        else strip_prefix "tasks." t) [
          | none ↦ false
          | some u ↦ elim (strip_suffix "[*])" u) [
            | none ↦ false
            | some name ↦ all_codes is_star_code name
          ]
        ]
]

module _ (json : Json) (ctx : Context) where
  -- s[2 : len(s)-len("[*])")], and its two forms
  unfoldable pub expand_array_star : String → Result LookupError (List String)
  unfolding strip_prefix strip_suffix cut_text find
  expand_array_star s = elim (strip_prefix "$(" s) [
    | none ↦ err (unrecognised_star s)
    | some t ↦ elim (strip_suffix "[*])" t) [
      | none ↦ err (unrecognised_star s)
      | some inner ↦ elim (strip_prefix "params." inner) [
        | some name ↦ elim (find name ctx.array_params) [
          | some vals ↦ ok vals
          | none ↦ err (unknown_array_param name)
        ]
        | none ↦ elim (strip_prefix "tasks." inner) [
          | none ↦ err (unrecognised_star s)
          | some rest ↦ elim (cut_text ".results." rest) [
            | none ↦ err (malformed_star s)
            | some (task, name) ↦ elim (find task ctx.results) [
              | none ↦ err (no_results task)
              | some rs ↦ elim (find name rs) [
                | none ↦ err (no_result task name)
                | some raw ↦ elim (json.list_of raw) [
                  | some arr ↦ ok arr
                  | none ↦ err (not_json_array name)
                ]
              ]
            ]
          ]
        ]
      ]
    ]
  ]

  -- An item of a list: SubstituteArgs, SubstituteArgsDeferStepRefs and SubstituteArgsAllowStepRefs
  -- differ in the mode, and the last of them keeps a whole-array reference that fails.
  unfoldable pub substitute_arg : Mode → String → Result LookupError (List String)
  unfolding is_array_star_ref expand_array_star substitute
  substitute_arg mode a =
      if is_array_star_ref a
      then elim (expand_array_star a) [
        | ok vals ↦ ok vals
        | err e ↦ elim mode [ strict ↦ err e | defer_step ↦ err e | defer_all ↦ ok (a ∷ []) ]
      ]
      else do s ← substitute json ctx mode a; ok (s ∷ [])

  unfoldable pub substitute_args : Mode → List String → Result LookupError (List String)
  unfolding substitute_arg
  substitute_args mode [] = ok []
  substitute_args mode (a ∷ args) = do
    vals ← substitute_arg mode a
    rest ← substitute_args mode args
    ok (vals ++ rest)
