-- ===== src/Runstore/Retention/Sorted.antt =====
-- Facts about entries in the order of their numbers, for gc.go.
use tkn_act.Base.{
  ℕ, suc, ◌-◌, ◌<◌, ◌≡◌, refl, ap, ◌∙◌, arith, Bool, true, false, not, ◌&&◌, List, [], ◌∷◌,
  if◌then◌else◌, ltb, leb, nat_eq, length, keep, take, ◌⊎◌, inl, inr, Bool-cases, length-keep-le,
  subst,
}
use tkn_act.Runstore.{IndexEntry}
use tkn_act.Runstore.Valid.{below, IsIncreasing, below-keep}
use tkn_act.Runstore.Retention.{has_seq, insert_entry, sort_entries, drop_each}

abbrev pub In : IndexEntry → List IndexEntry → Type 0
In e [] = ⊥
In e (d ∷ ds) = (d ≡ e) ⊎ In e ds

-- How many entries have a higher number.
abbrev pub newer : ℕ → List IndexEntry → ℕ
newer s es = length (keep (λ e. ltb s e.seq) es)

insert_entry_lem :
    (e : IndexEntry) (es : List IndexEntry) → below e.seq es ≡ true → insert_entry e es ≡ e ∷ es
unfolding insert_entry
insert_entry_lem e [] h = refl
insert_entry_lem e (d ∷ ds) h = ground arith

pub sort_entries_lem : (es : List IndexEntry) → IsIncreasing es → sort_entries es ≡ es
unfolding sort_entries
sort_entries_lem [] h = refl
sort_entries_lem (e ∷ es) h =
    ap (insert_entry e) (sort_entries_lem es h.1) ∙ insert_entry_lem e es h.0

pub drop_each_lem :
    (es : List IndexEntry) (kept : ℕ → Bool) (s : ℕ)
    → drop_each es kept s ≡ (kept s && not (has_seq s es))
unfolding drop_each
drop_each_lem [] kept s = ground arith
drop_each_lem (e ∷ es) kept s =
    drop_each_lem es (λ t. if nat_eq e.seq t then false else kept t) s ∙ ground arith

pub lt_of_below : (s t : ℕ) (es : List IndexEntry) → below s es ≡ true → has_seq t es ≡ true → s < t
lt_of_below s t [] h m = absurd (cc)
lt_of_below s t (e ∷ es) h m = ground (arith, lt_of_below s t es)

pub has_seq-below : (s : ℕ) (es : List IndexEntry) → below s es ≡ true → has_seq s es ≡ false
has_seq-below s [] h = refl
has_seq-below s (e ∷ es) h = ground (arith, has_seq-below s es)

pub In-has_seq : (e : IndexEntry) (es : List IndexEntry) → In e es → has_seq e.seq es ≡ true
In-has_seq e [] m = absurd m
In-has_seq e (d ∷ ds) (inl p) = rw p (ground arith)
In-has_seq e (d ∷ ds) (inr m) = ground (arith, In-has_seq e ds m)

-- In order, the entries that pass a test hold an entry's number if it passes.
pub has_seq-keep :
    (p : IndexEntry → Bool) (e : IndexEntry) (es : List IndexEntry)
    → IsIncreasing es
    → In e es
    → has_seq e.seq (keep p es) ≡ p e
has_seq-keep p e [] h m = absurd m
has_seq-keep p e (d ∷ ds) h (inl q) =
    subst (λ x. has_seq x.seq (keep p (d ∷ ds)) ≡ p x) q
      (ground (arith, has_seq-below d.seq (keep p ds) (below-keep p d.seq ds h.0)))
has_seq-keep p e (d ∷ ds) h (inr m) =
    ground (arith, has_seq-keep p e ds h.1 m, lt_of_below d.seq e.seq ds h.0 (In-has_seq e ds m))

newer-below : (s : ℕ) (es : List IndexEntry) → below s es ≡ true → newer s es ≡ length es
newer-below s [] h = refl
newer-below s (e ∷ es) h = ground (arith, newer-below s es)

-- All but the last `n` entries are those with at least `n` newer ones.
pub has_seq-take :
    (s n : ℕ) (es : List IndexEntry)
    → IsIncreasing es
    → has_seq s (take (length es - n) es) ≡ (has_seq s es && leb n (newer s es))
has_seq-take s n [] h = ground arith
has_seq-take s n (e ∷ es) h = elim (Bool-cases (leb n (length es))) [
  | inl q ↦
      let step : suc (length es) - n ≡ suc (length es - n) = ground arith in
      rw step (
        ground (
          arith,
          has_seq-take s n es h.1,
          newer-below s es,
          lt_of_below e.seq s es h.0,
          eq_true s e,
        ))
  | inr q ↦
      let step : suc (length es) - n ≡ 0 = ground arith in
      rw step (ground (arith, length-keep-le (λ d. ltb s d.seq) es, lt_of_below e.seq s es h.0))
]
  where
    eq_true : (s : ℕ) (e : IndexEntry) → nat_eq e.seq s ≡ true → e.seq ≡ s
    eq_true s e q = ground arith

pub keep-keep :
    (p q : IndexEntry → Bool) (es : List IndexEntry)
    → keep q (keep p es) ≡ keep (λ e. p e && q e) es
keep-keep p q [] = refl
keep-keep p q (e ∷ es) = ground (arith, keep-keep p q es)
