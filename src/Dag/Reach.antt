-- ===== src/Dag/Reach.antt =====
-- `Descendants` finds exactly the nodes at the end of a path of one edge or more.
use tkn_act.Base.{
  ℕ, zero, suc, ◌+◌, ◌≤◌, ◌<◌, String, ◌≡◌, refl, ap, subst, sym, true, false, not, ◌&&◌, ◌||◌,
  some, arith, eq_iff, ◌⊎◌, ◌↔◌, inl, inr, List, [], ◌∷◌, ◌++◌, if◌then◌else◌, length, mem,
  mem-append, count_p, Map, lookup, or_else, Bool-cases, eq_of_eq, eq-cases, List-cases,
}
use mathlib.Core.Logic.{∥∥₁_elim}
use mathlib.Core.Bool.{So-prop}
use tkn_act.Base.Order.{sort, mem-sort}
use tkn_act.Dag.{Graph, Search, succs, push_unseen, search_loop, targets, descendants}

-- A path of at least one edge.
pub data Reaches (g : Graph) (u : String) : String → Type 0 where
  edge : {v : String} → mem v (succs g u) ≡ true → Reaches g u v
  step : {v w : String} → Reaches g u v → mem w (succs g v) ≡ true → Reaches g u w

seen-push_unseen :
    (x : String) (vs : List String) (s : Search)
    → mem x (push_unseen vs s).seen ≡ (mem x s.seen || mem x vs)
unfolding push_unseen
seen-push_unseen x [] s = ground arith
seen-push_unseen x (v ∷ vs) s = ground (
  arith,
  seen-push_unseen x vs
      (if mem v s.seen then s else record { seen = s.seen ++ v ∷ []; stack = v ∷ s.stack }),
  mem-append x s.seen (v ∷ []),
  eq_iff v x,
)

stack-push_unseen :
    (x : String) (vs : List String) (s : Search)
    → mem x (push_unseen vs s).stack ≡ (mem x s.stack || mem x vs && not (mem x s.seen))
unfolding push_unseen
stack-push_unseen x [] s = ground arith
stack-push_unseen x (v ∷ vs) s = ground (
  arith,
  stack-push_unseen x vs
      (if mem v s.seen then s else record { seen = s.seen ++ v ∷ []; stack = v ∷ s.stack }),
  mem-append x s.seen (v ∷ []),
  eq_iff v x,
)

unseen : List String → List String → ℕ
unseen seen = count_p (λ t. not (mem t seen))

unseen-snoc-le : (v : String) (seen ts : List String) → unseen (seen ++ v ∷ []) ts ≤ unseen seen ts
unfolding unseen
unseen-snoc-le v seen [] = omega arith
unseen-snoc-le v seen (t ∷ ts) =
    ground (arith, unseen-snoc-le v seen ts, mem-append t seen (v ∷ []))

unseen-snoc-lt :
    (v : String) (seen ts : List String)
    → mem v seen ≡ false
    → mem v ts ≡ true
    → unseen (seen ++ v ∷ []) ts < unseen seen ts
unfolding unseen
unseen-snoc-lt v seen [] n m = absurd (cc)
unseen-snoc-lt v seen (t ∷ ts) n m = ground (
  arith,
  unseen-snoc-lt v seen ts n,
  unseen-snoc-le v seen ts,
  mem-append t seen (v ∷ []),
  eq_iff t v,
  eq_iff v t,
)

unseen-le : (seen ts : List String) → unseen seen ts ≤ length ts
unfolding unseen
unseen-le seen [] = omega arith
unseen-le seen (t ∷ ts) = ground (arith, unseen-le seen ts)

mem-targets :
    (v u : String) (m : Map (List String))
    → mem v (or_else (lookup u m) []) ≡ true
    → mem v (targets m) ≡ true
unfolding lookup
mem-targets v u [] h = cc
mem-targets v u ((w, vs) ∷ m) h = ground (arith, mem-append v vs (targets m), mem-targets v u m)

abbrev work : List String → Search → ℕ
work ts s = unseen s.seen ts + length s.stack

-- A push pays with a target that is no longer unseen.
work-push_unseen :
    (ts vs : List String) (s : Search)
    → ((v : String) → mem v vs ≡ true → mem v ts ≡ true)
    → work ts (push_unseen vs s) ≤ work ts s
unfolding push_unseen
work-push_unseen ts [] s sub = omega arith
work-push_unseen ts (v ∷ vs) s sub =
    let next : Search =
      if mem v s.seen then s else record { seen = s.seen ++ v ∷ []; stack = v ∷ s.stack } in
    ground (
      arith,
      work-push_unseen ts vs next (λ w m. sub w (ground arith)),
      unseen-snoc-lt v s.seen ts,
      sub v,
      eq_iff v v,
    )

module _ (g : Graph) (start : String) where
  record Inv (s : Search) : Type 0 where
    sound : (v : String) → mem v s.seen ≡ true → Reaches g start v
    queued : (v : String) → mem v s.stack ≡ true → (v ≡ start) ⊎ (mem v s.seen ≡ true)
    closed :
        (u v : String)
        → (u ≡ start) ⊎ (mem u s.seen ≡ true)
        → mem v (succs g u) ≡ true
        → (mem u s.stack ≡ true) ⊎ (mem v s.seen ≡ true)

  begin : Search
  begin = record { seen = []; stack = start ∷ [] }

  Inv-begin : Inv begin
  unfolding begin
  Inv-begin = record {
    sound = λ v m. absurd (cc);
    queued = λ v m. inl (sym (eq_of_eq start v (ground arith)));
    closed = λ u v o m. ground (arith, eq_iff start u);
  }

  reached :
      (u v : String)
      → (u ≡ start) ⊎ Reaches g start u
      → mem v (succs g u) ≡ true
      → Reaches g start v
  reached u v (inl e) m = edge (subst (λ w. mem v (succs g w) ≡ true) e m)
  reached u v (inr r) m = step r m

  abbrev next : Search → String → List String → Search
  next s u rest = push_unseen (succs g u) (record s { stack = rest })

  Inv-next :
      (s : Search) (u : String) (rest : List String)
      → s.stack ≡ u ∷ rest
      → Inv s
      → Inv (next s u rest)
  Inv-next s u rest e h =
      let s' : Search = record s { stack = rest } in
      let seen = λ (x : String). seen-push_unseen x (succs g u) s' in
      let stack = λ (x : String). stack-push_unseen x (succs g u) s' in
      let top : mem u s.stack ≡ true = rw e (ground (arith, eq_iff u u)) in
      let from : (u ≡ start) ⊎ Reaches g start u = elim (h.queued u top) [
        | inl p ↦ inl p
        | inr m ↦ inr (h.sound u m)
      ] in
      record {
        sound = λ v m. elim (Bool-cases (mem v s.seen)) [
          | inl k ↦ h.sound v k
          | inr n ↦ reached u v from (ground (arith, seen v))
        ];
        queued = λ v m. ground (arith, seen v, stack v, h.queued v, ap (mem v) e);
        closed = λ x v o m. elim (eq-cases u x) [
          | inl p ↦
              let m' : mem v (succs g u) ≡ true = subst (λ w. mem v (succs g w) ≡ true) (sym p) m in
              inr (ground (arith, seen v))
          | inr n ↦ ground (arith, n, seen x, seen v, stack x, h.closed x v, ap (mem x) e)
        ];
      }

  -- The searched list holds what can be reached.
  finished :
      (s : Search) → s.stack ≡ [] → Inv s → (v : String) → Reaches g start v → mem v s.seen ≡ true
  finished s e h v (edge m) = ground (arith, h.closed start v (inl refl) m, ap (mem start) e)
  finished s e h v (step {v = u} r m) =
      ground (arith, h.closed u v (inr (finished s e h u r)) m, ap (mem u) e)

  search_loop-Reaches :
      (fuel : ℕ) (s : Search)
      → work (targets g.out) s < fuel
      → Inv s
      → (found : List String) × (search_loop g fuel s ≡ some found)
        × ((v : String) → (mem v found ≡ true) ↔ ∥ Reaches g start v ∥₁)
  unfolding search_loop
  search_loop-Reaches zero s b h = elim b [ ]
  search_loop-Reaches (suc fuel) s b h = elim (List-cases s.stack) [
    | inl e ↦ (
      s.seen,
      rw (e, search_loop),
      λ v. (λ m. ∣ h.sound v m ∣₁, λ r. ∥∥₁_elim r (So-prop _) (finished s e h v)),
    )
    | inr (u, rest, e) ↦
        let (found, r, all_found) =
          search_loop-Reaches fuel (next s u rest)
            (omega (
              arith,
              ap length e,
              work-push_unseen (targets g.out) (succs g u) (record s { stack = rest })
                  (λ v m. mem-targets v u g.out m),
            ))
            (Inv-next s u rest e h) in
        (found, rw (e, search_loop) r, all_found)
  ]

-- `Descendants` always ends, and lists exactly the nodes that a path of at least one edge reaches.
pub descendants-Reaches :
    (g : Graph) (start : String)
    → (found : List String) × (descendants g start ≡ some found)
      × ((v : String) → (mem v found ≡ true) ↔ ∥ Reaches g start v ∥₁)
unfolding descendants begin
descendants-Reaches g start =
    let (found, r, all_found) =
      search_loop-Reaches g start (length (targets g.out) + 2) (begin g start)
        (omega (arith, unseen-le [] (targets g.out))) (Inv-begin g start) in
    (sort found, rw (r, descendants), λ v. rw (mem-sort v found) (all_found v))
