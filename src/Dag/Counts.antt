-- ===== src/Dag/Counts.antt =====
-- The table of in-degrees in closed form: through every round of `Levels` it counts, for each node
-- that is left, the predecessors that are left.
use tkn_act.Base.{
  ℕ, suc, String, ◌≡◌, refl, ap, ◌∙◌, sym, true, arith, eq_iff, List, [], ◌∷◌, if◌then◌else◌, mem,
  without, mem-without, Distinct, count_p, Map, delete, modify, keys,
}
use tkn_act.Base.Integers.{ℤ, pos, dec}
use tkn_act.Dag.{Graph, succs, preds, decrement}
use tkn_act.Dag.Build.{IsMirrored}

-- A table that holds `f n` at each node `n` of a list.
abbrev pub tabulate : (String → ℤ) → List String → Map ℤ
tabulate f [] = []
tabulate f (n ∷ ns) = (n, f n) ∷ tabulate f ns

pub tabulate_congr :
    (f g : String → ℤ) (ns : List String)
    → ((n : String) → f n ≡ g n)
    → tabulate f ns ≡ tabulate g ns
tabulate_congr f g [] h = refl
tabulate_congr f g (n ∷ ns) h = cc (h n, tabulate_congr f g ns h)

pub keys-tabulate : (f : String → ℤ) (ns : List String) → keys (tabulate f ns) ≡ ns
keys-tabulate f [] = refl
keys-tabulate f (n ∷ ns) = ap (λ t. n ∷ t) (keys-tabulate f ns)

pub delete-tabulate :
    (f : String → ℤ) (n : String) (ns : List String)
    → delete n (tabulate f ns) ≡ tabulate f (without n ns)
unfolding delete
delete-tabulate f n [] = refl
delete-tabulate f n (x ∷ ns) = ground (arith, delete-tabulate f n ns)

abbrev lowered : (String → ℤ) → List String → String → ℤ
lowered f vs k = if mem k vs then dec (f k) else f k

modify-tabulate :
    (f : String → ℤ) (v : String) (ns : List String)
    → modify v dec (tabulate f ns) ≡ tabulate (lowered f (v ∷ [])) ns
unfolding modify
modify-tabulate f v [] = refl
modify-tabulate f v (x ∷ ns) = ground (arith, modify-tabulate f v ns, eq_iff x v, eq_iff v x)

decrement-tabulate :
    (f : String → ℤ) (vs ns : List String)
    → Distinct vs
    → decrement vs (tabulate f ns) ≡ tabulate (lowered f vs) ns
unfolding decrement
decrement-tabulate f [] ns d = refl
decrement-tabulate f (v ∷ vs) ns d =
    ap (decrement vs) (modify-tabulate f v ns)
    ∙ decrement-tabulate (lowered f (v ∷ [])) vs ns d.1
    ∙ tabulate_congr (lowered (lowered f (v ∷ [])) vs) (lowered f (v ∷ vs)) ns
        (λ k. ground (arith, d.0, eq_iff v k))

-- The predecessors that are left.
abbrev pub degree : Graph → List String → String → ℕ
degree g left n = count_p (λ u. mem u left) (preds g n)

count_p-without :
    (n : String) (left us : List String)
    → mem n left ≡ true
    → Distinct us
    → (if mem n us
        then suc (count_p (λ u. mem u (without n left)) us)
        else count_p (λ u. mem u (without n left)) us)
      ≡ count_p (λ u. mem u left) us
count_p-without n left [] m d = refl
count_p-without n left (u ∷ us) m d =
    ground (arith, count_p-without n left us m d.1, mem-without u n left, eq_iff u n, d.0)

module _ (g : Graph) (mir : IsMirrored g) where
  degree-without :
      (n k : String) (left : List String)
      → mem n left ≡ true
      → pos (degree g (without n left) k) ≡ lowered (λ x. pos (degree g left x)) (succs g n) k
  degree-without n k left m =
      ground (arith, count_p-without n left (preds g k) m (mir.preds_distinct k), mir.mirrored n k)

  -- Removing one ready node keeps the table in its closed form.
  pub retire_one :
      (n : String) (left : List String)
      → mem n left ≡ true
      → decrement (succs g n) (delete n (tabulate (λ k. pos (degree g left k)) left))
        ≡ tabulate (λ k. pos (degree g (without n left) k)) (without n left)
  retire_one n left m =
      ap (decrement (succs g n)) (delete-tabulate (λ k. pos (degree g left k)) n left)
      ∙ decrement-tabulate (λ k. pos (degree g left k)) (succs g n) (without n left)
          (mir.succs_distinct n)
      ∙ sym (
          tabulate_congr (λ k. pos (degree g (without n left) k))
            (lowered (λ k. pos (degree g left k)) (succs g n)) (without n left)
            (λ k. degree-without n k left m))
