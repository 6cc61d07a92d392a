-- ===== src/Base/Integers.antt =====
-- Go's signed integers, where the source lets a value pass below zero. `negsuc n` is -(n + 1).
use Prim.Native.Nat.{ℕ, zero, suc, ◌+◌, ◌-◌, ◌*◌, ◌/◌, ◌%◌, ◌^◌, ◌≤◌}
use mathlib.Core.Path.{◌≡◌, sym, ap, ◌∙◌}
use mathlib.Core.Bool.{Bool}
use native.Mathlib.Omega.{arith}
use tkn_act.Base.Tests.{ltb, leb, if◌then◌else◌}

pub data ℤ : Type 0 where
  pos : ℕ → ℤ
  negsuc : ℕ → ℤ

abbrev pub pos_part : ℤ → ℕ
pos_part (pos n) = n
pos_part (negsuc n) = 0

abbrev pub neg_part : ℤ → ℕ
neg_part (pos n) = 0
neg_part (negsuc n) = suc n

-- a - b, as an integer.
abbrev pub sub_ℕ : ℕ → ℕ → ℤ
sub_ℕ a b = if leb b a then pos (a - b) else negsuc (b - a - 1)

infixl 65 ◌+ℤ◌ ◌-ℤ◌
infix 50 ◌≤ℤ◌
unfoldable pub ◌+ℤ◌ : ℤ → ℤ → ℤ
a +ℤ b = sub_ℕ (pos_part a + pos_part b) (neg_part a + neg_part b)

unfoldable pub ◌-ℤ◌ : ℤ → ℤ → ℤ
a -ℤ b = sub_ℕ (pos_part a + neg_part b) (neg_part a + pos_part b)

-- The int64 with the bits of a number below 2 ^ 64.
abbrev pub signed_64 : ℕ → ℤ
signed_64 w = if ltb w (2 ^ 63) then pos w else negsuc (2 ^ 64 - w - 1)

-- What an int64 holds of an integer.
abbrev pub wrap_64 : ℤ → ℤ
wrap_64 (pos n) = signed_64 (n % 2 ^ 64)
wrap_64 (negsuc n) = let r = n % 2 ^ 64 in if ltb r (2 ^ 63) then negsuc r else pos (2 ^ 64 - r - 1)

-- a * b on the bits of two int64
unfoldable pub mul_64 : ℕ → ℕ → ℕ
mul_64 a b = (a * b) % 2 ^ 64

-- a + b in int64
unfoldable pub add_64 : ℤ → ℤ → ℤ
unfolding ◌+ℤ◌
add_64 a b = wrap_64 (a +ℤ b)

abbrev pub ◌≤ℤ◌ : ℤ → ℤ → Type 0
a ≤ℤ b = pos_part a + neg_part b ≤ pos_part b + neg_part a

abbrev pub ltb_ℤ : ℤ → ℤ → Bool
ltb_ℤ a b = ltb (pos_part a + neg_part b) (pos_part b + neg_part a)

-- 0 < a
abbrev pub positive : ℤ → Bool
positive a = ltb_ℤ (pos 0) a

-- a--
abbrev pub dec : ℤ → ℤ
dec (pos zero) = negsuc 0
dec (pos (suc n)) = pos n
dec (negsuc n) = negsuc (suc n)

add_mul-mod : (q x : ℕ) → (2 ^ 64 * q + x) % 2 ^ 64 ≡ x % 2 ^ 64
add_mul-mod q x = omega arith

mod-mul_split : (q r b : ℕ) → (2 ^ 64 * q + r) * b ≡ 2 ^ 64 * (q * b) + r * b
mod-mul_split q r b = grind arith

-- A factor may be wrapped around before it is multiplied.
pub mul_64-mod : (a b : ℕ) → mul_64 (a % 2 ^ 64) b ≡ (a * b) % 2 ^ 64
unfolding mul_64
mul_64-mod a b =
    let q = a / 2 ^ 64 in
    let r = a % 2 ^ 64 in
    let split : a ≡ 2 ^ 64 * q + r = omega arith in
    sym (
      ap (λ n. (n * b) % 2 ^ 64) split
      ∙ ap (λ n. n % 2 ^ 64) (mod-mul_split q r b)
      ∙ add_mul-mod (q * b) (r * b))
