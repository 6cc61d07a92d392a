-- ===== src/Resolver/Text.antt =====
-- What a substitution leaves alone.
use Prim.Native.Char.{Char, code}
use tkn_act.Base.{ℕ, String, ◌≡◌, refl, Bool, true, false, ◌||◌, not, arith, none, nat_eq, ok}
use tkn_act.Base.Text.{strip_prefix, has_prefix, all_codes}
use tkn_act.Resolver.Scope.{Context, Json}
use tkn_act.Resolver.{Mode, ref_at, replace_from, sentinel, scan_refs, substitute}

-- neither a dollar nor the character that the sentinel starts with
abbrev pub is_plain : ℕ → Bool
is_plain c = not (nat_eq c b'$' || nat_eq c 0)

plain-dollars : (s : String) → all_codes is_plain s ≡ true → replace_from "$$" sentinel 0 s ≡ s
unfolding replace_from all_codes has_prefix strip_prefix
plain-dollars String.[] h = refl
plain-dollars (String.◌∷◌ c s) h = ground (arith, plain-dollars s)

plain-sentinel : (s : String) → all_codes is_plain s ≡ true → replace_from sentinel "$" 0 s ≡ s
unfolding replace_from all_codes has_prefix strip_prefix
plain-sentinel String.[] h = refl
plain-sentinel (String.◌∷◌ c s) h = ground (arith, plain-sentinel s)

ref_at-plain :
    (c : Char) (s : String) → nat_eq (code c) b'$' ≡ false → ref_at (String.◌∷◌ c s) ≡ none
unfolding ref_at strip_prefix
ref_at-plain c s h = ground (arith, h)

module _ (json : Json) (ctx : Context) (mode : Mode) where
  plain-scan_refs : (s : String) → all_codes is_plain s ≡ true → scan_refs json ctx mode 0 s ≡ ok s
  unfolding scan_refs all_codes
  plain-scan_refs String.[] h = refl
  plain-scan_refs (String.◌∷◌ c s) h =
      ground (arith, ref_at-plain c s (ground (arith, h)), plain-scan_refs s (ground (arith, h)))

  -- A text without a dollar sign, and without the character NUL that marks an escaped dollar, is
  -- not changed by a substitution in any mode, and no error comes of it.
  pub substitute-plain :
      (s : String) → all_codes is_plain s ≡ true → substitute json ctx mode s ≡ ok s
  unfolding substitute
  substitute-plain s h = rw (plain-dollars s h, plain-scan_refs s h, plain-sentinel s h) refl
