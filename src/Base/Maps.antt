-- ===== src/Base/Maps.antt =====
-- Go's maps with string keys: association lists in order of insertion, one entry to a key.
use Prim.Native.String.{String}
use mathlib.Core.Path.{◌≡◌, refl}
use mathlib.Core.Bool.{Bool, true, false, ◌||◌}
use mathlib.Core.Option.{Option, none, some}
use mathlib.Core.List.{List, [], ◌∷◌}
use native.Mathlib.Omega.{arith}
use text.Mathlib.Text.{◌==◌}
use text.Mathlib.TextEquality.{eq_iff}
use mathlib.Core.Logic.{inl, inr}
use tkn_act.Base.Tests.{if◌then◌else◌, Bool-cases}
use tkn_act.Base.Lists.{mem, Distinct, any}

abbrev pub Map {ℓ} : Type ℓ → Type ℓ
Map V = List (String × V)

abbrev pub is_some {ℓ} : {A : Type ℓ} → Option A → Bool
is_some none = false
is_some (some _) = true

abbrev pub or_else {ℓ} : {A : Type ℓ} → Option A → A → A
or_else none d = d
or_else (some a) d = a

-- the first where there is one, and else the second
abbrev pub option_or {ℓ} : {A : Type ℓ} → Option A → Option A → Option A
option_or (some a) o = some a
option_or none o = o

module _ {ℓ} {V : Type ℓ} where
  -- v, ok := m[key]
  unfoldable pub lookup : String → Map V → Option V
  lookup key [] = none
  lookup key ((name, value) ∷ rest) = if name == key then some value else lookup key rest

  -- m[key] = new
  unfoldable pub insert : String → V → Map V → Map V
  insert key new [] = (key, new) ∷ []
  insert key new ((name, value) ∷ rest) =
      if name == key then (name, new) ∷ rest else (name, value) ∷ insert key new rest

  -- delete(m, k)
  unfoldable pub delete : String → Map V → Map V
  delete k [] = []
  delete k ((j, v) ∷ m) = let rest = delete k m in if j == k then rest else (j, v) ∷ rest

  -- m[k] = f(m[k]) where k is there
  unfoldable pub modify : String → (V → V) → Map V → Map V
  modify k f [] = []
  modify k f ((j, v) ∷ m) = (j, if j == k then f v else v) ∷ modify k f m

  abbrev pub keys : Map V → List String
  keys [] = []
  keys ((k, v) ∷ m) = k ∷ keys m

  pub lookup-insert :
      (key name : String) (new : V) (m : Map V)
      → lookup name (insert key new m) ≡ (if key == name then some new else lookup name m)
  unfolding lookup insert
  lookup-insert key name new [] = refl
  lookup-insert key name new ((other, value) ∷ rest) =
      ground (
        arith,
        eq_iff other key,
        eq_iff key name,
        eq_iff other name,
        lookup-insert key name new rest,
      )

  pub mem-keys : (k : String) (m : Map V) → mem k (keys m) ≡ is_some (lookup k m)
  unfolding lookup
  mem-keys k [] = refl
  mem-keys k ((j, v) ∷ m) = ground (arith, mem-keys k m)

  pub mem-keys-insert :
      (k j : String) (v : V) (m : Map V) → mem j (keys (insert k v m)) ≡ (mem j (keys m) || k == j)
  unfolding insert
  mem-keys-insert k j v [] = ground arith
  mem-keys-insert k j v ((i, w) ∷ m) =
      ground (arith, eq_iff i k, eq_iff i j, eq_iff k j, mem-keys-insert k j v m)

  pub keys-Distinct-insert :
      (k : String) (v : V) (m : Map V) → Distinct (keys m) → Distinct (keys (insert k v m))
  unfolding insert
  keys-Distinct-insert k v [] d = (refl, tt)
  keys-Distinct-insert k v ((i, w) ∷ m) d =
      ground
        (arith, keys-Distinct-insert k v m d.1, mem-keys-insert k i v m, eq_iff i k, eq_iff k i)

  -- In a map an entry is found under its key.
  pub found_entry :
      (p : V → Bool) (gs : Map V)
      → any (λ e. p e.1) gs ≡ true
      → Distinct (keys gs)
      → (n : String) × (g : V) × (lookup n gs ≡ some g) × (p g ≡ true)
  unfolding lookup
  found_entry p [] h d = absurd (cc)
  found_entry p ((m, g) ∷ gs) h d = elim (Bool-cases (p g)) [
    | inl e ↦ (m, g, ground (arith, eq_iff m m), e)
    | inr e ↦
        let (n, g', l, q) = found_entry p gs (ground arith) d.1 in
        (n, g', ground (arith, l, mem-keys m gs, eq_iff m n, d.0), q)
  ]

  pub entry_found :
      (p : V → Bool) (gs : Map V) (n : String) (g : V)
      → lookup n gs ≡ some g
      → p g ≡ true
      → any (λ e. p e.1) gs ≡ true
  unfolding lookup
  entry_found p [] n g l q = cc
  entry_found p ((m, h) ∷ gs) n g l q = ground (arith, entry_found p gs n g)
