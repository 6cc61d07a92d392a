-- ===== src/Engine/Schedule/Core.antt =====
-- How outcomes are recorded: one for each task, once. `w x` counts the places where a task waits.
use tkn_act.Base.{
  ℕ, ◌≤◌, ◌<◌, String, ◌≡◌, true, ◌&&◌, arith, ◌==◌, eq_iff, List, if◌then◌else◌, Map, lookup,
  insert, lookup-insert, is_some, nat_eq, mem,
}
use tkn_act.Engine.Outcome.{TaskOutcome}

-- A task of the graph waits in one place or has an outcome.
pub record IsAccounted (nodes : List String) (outcomes : Map TaskOutcome) (w : String → ℕ)
    : Type 0 where
  pub once : (x : String) → w x ≤ 1
  pub settled : (x : String) → is_some (lookup x outcomes) ≡ (mem x nodes && nat_eq (w x) 0)
  pub known : (x : String) → 0 < w x → mem x nodes ≡ true

-- A waiting task gets its outcome.
pub settle-IsAccounted :
    (nodes : List String) (outcomes : Map TaskOutcome) (w w' : String → ℕ) (t : String)
    (oc : TaskOutcome)
    → IsAccounted nodes outcomes w
    → w t ≡ 1
    → ((x : String) → w' x ≡ (if t == x then 0 else w x))
    → IsAccounted nodes (insert t oc outcomes) w'
settle-IsAccounted nodes outcomes w w' t oc h one change = record {
  once = λ x. ground (arith, change x, h.once x);
  settled = λ x.
      ground (arith, change x, h.settled x, h.known t, lookup-insert t x oc outcomes, eq_iff t x);
  known = λ x p. ground (arith, change x, h.known x);
}

-- A task moves from one place to another.
pub move-IsAccounted :
    (nodes : List String) (outcomes : Map TaskOutcome) (w w' : String → ℕ)
    → IsAccounted nodes outcomes w
    → ((x : String) → w' x ≡ w x)
    → IsAccounted nodes outcomes w'
move-IsAccounted nodes outcomes w w' h same = record {
  once = λ x. ground (arith, same x, h.once x);
  settled = λ x. ground (arith, same x, h.settled x);
  known = λ x p. ground (arith, same x, h.known x);
}
