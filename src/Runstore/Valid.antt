-- ===== src/Runstore/Valid.antt =====
-- The invariant of the index: the entries' numbers grow, and the next number is above them.
use tkn_act.Base.{
  ℕ, ◌+◌, ◌≡◌, refl, ◌∙◌, sym, subst, arith, Bool, true, false, ◌&&◌, some, List, [], ◌∷◌, ◌++◌,
  if◌then◌else◌, ltb, all, keep, ◌<◌,
}
use tkn_act.Runstore.{IndexEntry, Index, append, update_first, update, open_index}

-- The number is below those of all entries.
abbrev pub below : ℕ → List IndexEntry → Bool
below s es = all (λ e. ltb s e.seq) es

-- The number is above those of all entries.
abbrev pub above : ℕ → List IndexEntry → Bool
above s es = all (λ e. ltb e.seq s) es

abbrev pub IsIncreasing : List IndexEntry → Type 0
IsIncreasing [] = Unit
IsIncreasing (e ∷ es) = (below e.seq es ≡ true) × IsIncreasing es

pub record IsValid (i : Index) : Type 0 where
  pub increasing : IsIncreasing i.entries
  pub next : above i.next_seq i.entries ≡ true
  pub numbered : 0 < i.next_seq

pub below-append :
    (s : ℕ) (es ds : List IndexEntry) → below s (es ++ ds) ≡ (below s es && below s ds)
below-append s [] ds = refl
below-append s (e ∷ es) ds = ground (arith, below-append s es ds)

pub above-append :
    (s : ℕ) (es ds : List IndexEntry) → above s (es ++ ds) ≡ (above s es && above s ds)
above-append s [] ds = refl
above-append s (e ∷ es) ds = ground (arith, above-append s es ds)

pub above_suc : (s : ℕ) (es : List IndexEntry) → above s es ≡ true → above (s + 1) es ≡ true
above_suc s [] h = refl
above_suc s (e ∷ es) h = ground (arith, above_suc s es)

snoc-IsIncreasing :
    (es : List IndexEntry) (e : IndexEntry)
    → IsIncreasing es
    → above e.seq es ≡ true
    → IsIncreasing (es ++ e ∷ [])
snoc-IsIncreasing [] e h a = (refl, tt)
snoc-IsIncreasing (d ∷ ds) e h a =
    ground (arith, below-append d.seq ds (e ∷ []), snoc-IsIncreasing ds e h.1)

pub append-IsValid : (e : IndexEntry) (i : Index) → IsValid i → IsValid (append e i).0
unfolding append
append-IsValid e i v = record {
  increasing = snoc-IsIncreasing i.entries (record e { seq = i.next_seq }) v.increasing v.next;
  next =
      above-append (i.next_seq + 1) i.entries (record e { seq = i.next_seq } ∷ [])
      ∙ ground (arith, above_suc i.next_seq i.entries v.next);
  numbered = omega arith;
}

-- What is read of a file that holds a valid index is that index.
pub open_index-same : (i : Index) → IsValid i → open_index (some i) ≡ i
unfolding open_index
open_index-same i v = ground (arith, v.numbered)

module _ (n : ℕ) (mutator : IndexEntry → IndexEntry)
    (same_seq : (e : IndexEntry) → (mutator e).seq ≡ e.seq) where
  below-update_first :
      (s : ℕ) (es : List IndexEntry) → below s (update_first n mutator es) ≡ below s es
  unfolding update_first
  below-update_first s [] = refl
  below-update_first s (e ∷ es) = ground (arith, below-update_first s es, same_seq e)

  above-update_first :
      (s : ℕ) (es : List IndexEntry) → above s (update_first n mutator es) ≡ above s es
  unfolding update_first
  above-update_first s [] = refl
  above-update_first s (e ∷ es) = ground (arith, above-update_first s es, same_seq e)

  update_first-IsIncreasing :
      (es : List IndexEntry) → IsIncreasing es → IsIncreasing (update_first n mutator es)
  unfolding update_first
  update_first-IsIncreasing [] h = h
  update_first-IsIncreasing (e ∷ es) h =
      ground (arith, same_seq e, below-update_first e.seq es, update_first-IsIncreasing es h.1)

  pub update-IsValid : (i : Index) → IsValid i → IsValid (update n mutator i)
  unfolding update
  update-IsValid i v = record {
    increasing = update_first-IsIncreasing i.entries v.increasing;
    next = above-update_first i.next_seq i.entries ∙ v.next;
    numbered = v.numbered;
  }

module _ (p : IndexEntry → Bool) where
  pub below-keep : (s : ℕ) (es : List IndexEntry) → below s es ≡ true → below s (keep p es) ≡ true
  below-keep s [] h = refl
  below-keep s (e ∷ es) h = ground (arith, below-keep s es)

  pub above-keep : (s : ℕ) (es : List IndexEntry) → above s es ≡ true → above s (keep p es) ≡ true
  above-keep s [] h = refl
  above-keep s (e ∷ es) h = ground (arith, above-keep s es)

  pub keep-IsIncreasing : (es : List IndexEntry) → IsIncreasing es → IsIncreasing (keep p es)
  keep-IsIncreasing [] h = h
  keep-IsIncreasing (e ∷ es) h = ground (arith, below-keep e.seq es, keep-IsIncreasing es h.1)

  -- An index that keeps some entries, where it can be written.
  pub kept-IsValid :
      (written : Bool) (i j : Index)
      → j.entries ≡ (if written then keep p i.entries else i.entries)
      → j.next_seq ≡ i.next_seq
      → IsValid i
      → IsValid j
  kept-IsValid true i j es n v = record {
    increasing = subst IsIncreasing (sym es) (keep-IsIncreasing i.entries v.increasing);
    next = rw (es, n) (above-keep i.next_seq i.entries v.next);
    numbered = rw n v.numbered;
  }
  kept-IsValid false i j es n v = record {
    increasing = subst IsIncreasing (sym es) v.increasing;
    next = rw (es, n) v.next;
    numbered = rw n v.numbered;
  }
