-- ===== src/Engine/Schedule/Progress.antt =====
-- The loop over the levels comes to its end.
use tkn_act.Base.{
  ℕ, zero, suc, ◌+◌, ◌*◌, ◌<◌, String, ◌≡◌, true, arith, eq_iff, none, some, List, [], ◌∷◌, lookup,
  is_some, length, length-append, mem, concat, ◌⊎◌, inl, inr, ok, Bool-cases, Option-cases,
  List-cases,
}
use tkn_act.Dag.{levels}
use tkn_act.Tekton.{Kube, PipelineTask}
use tkn_act.Engine.Outcome.{TaskOutcome, failed, ran, text}
use tkn_act.Engine.Run.{Clock, stopped}
use tkn_act.Engine.Schedule.{
  Plan, Run, begin, idle, in_flight, Step, enter, pass_over, block, let_in, spawn, give_up, check,
  start, finish, Reach, here, next, held_back,
}
use tkn_act.Engine.Schedule.Invariant.{IsConsistent, waiting, Holds}
use tkn_act.Engine.Schedule.Steps.{step-Holds, reach-Holds, idle_pending}
use tkn_act.Engine.Schedule.Settling.{length-without-lt}
use tkn_act.Engine.Schedule.Safety.{begin-Holds, settled-all}

-- How many steps are left at most: a task is dispatched, reads the clock and finishes.
abbrev pub steps_left : Run → ℕ
steps_left r =
    length r.later
    + 5 * length (concat r.later)
    + 5 * length r.pending
    + 4 * length r.cleared
    + 3 * length r.spawned
    + 2 * length r.checked
    + length r.active

module _ {k : Kube} (p : Plan k) (con : IsConsistent p) where
  abbrev Onward : Run → Type 0
  Onward r = (s : Run) × Step p r s × (steps_left s < steps_left r)

  entry :
      (r : Run) (t : String)
      → Holds p r
      → 0 < waiting r t
      → (pt : PipelineTask k) × (lookup t p.main ≡ some pt)
  entry r t h w = elim (Option-cases (lookup t p.main)) [
    | inl n ↦ absurd (ground (arith, con.planned t, h.accounted.known t))
    | inr found ↦ found
  ]

  finish-Onward :
      (r : Run) (t : String) (ts : List String) → Holds p r → r.active ≡ t ∷ ts → Onward r
  finish-Onward r t ts h e =
      let (pt, f) = entry r t h (ground (arith, e, eq_iff t t)) in
      let m : mem t r.active ≡ true = ground (arith, e, eq_iff t t) in
      let oc : TaskOutcome = record {
        status = failed;
        message = text "";
        results = none;
        attempt = 1;
        matrix = none;
        skip = ran;
      } in
      (_, finish r t pt oc m f, omega (arith, length-without-lt t r.active m))

  spawned-Onward :
      (r : Run) (t : String) (ts : List String) → Holds p r → r.spawned ≡ t ∷ ts → Onward r
  spawned-Onward r t ts h e =
      let (pt, f) = entry r t h (ground (arith, e, eq_iff t t)) in
      let m : mem t r.spawned ≡ true = ground (arith, e, eq_iff t t) in
      let less = length-without-lt t r.spawned m in
      elim (Bool-cases (stopped r.clock)) [
        | inl off ↦ (_, give_up r t pt m f off, omega (arith, less))
        | inr on ↦ (_, check r t m on, omega (arith, less))
      ]

  checked-Onward : (r : Run) (t : String) (ts : List String) → r.checked ≡ t ∷ ts → Onward r
  checked-Onward r t ts e =
      let m : mem t r.checked ≡ true = ground (arith, e, eq_iff t t) in
      (_, start r t m, omega (arith, length-without-lt t r.checked m))

  cleared-Onward :
      (r : Run) (t : String) (ts : List String)
      → Holds p r
      → in_flight r ≡ 0
      → r.cleared ≡ t ∷ ts
      → 0 < p.max_parallel
      → Onward r
  cleared-Onward r t ts h a e room = elim (List-cases ts) [
    | inl n ↦ (_, spawn r t (ground (arith, e, n)) (omega (arith, a, room)), ground (arith, e))
    | inr (u, us, n) ↦ absurd (ground (arith, h.single, e, n))
  ]

  pending-Onward :
      (r : Run) (t : String) (ts : List String)
      → Holds p r
      → r.cleared ≡ []
      → r.pending ≡ t ∷ ts
      → Onward r
  pending-Onward r t ts h c e =
      let (pt, f) = entry r t h (ground (arith, e, eq_iff t t)) in
      elim (Option-cases (held_back p pt t r.state)) [
        | inr (msg, held) ↦ (_, block r t ts pt msg e c f held, ground (arith, e))
        | inl free ↦ (_, let_in r t ts pt e c f free, ground (arith, e, c))
      ]

  later-Onward :
      (r : Run) (l : List String) (ls : List (List String))
      → r.later ≡ l ∷ ls
      → idle r ≡ true
      → Onward r
  later-Onward r l ls e quiet =
      let size : length (concat r.later) ≡ length l + length (concat ls) =
        ground (arith, e, length-append l (concat ls)) in
      let more : length r.later ≡ suc (length ls) = ground (arith, e) in
      elim (Bool-cases (stopped r.clock)) [
        | inl off ↦ (_, pass_over r l ls e quiet off, omega (arith, size, more))
        | inr on ↦ (_, enter r l ls e quiet on, ground (arith, size, more, idle_pending r quiet))
      ]

  onward :
      (r : Run) → Holds p r → 0 < p.max_parallel → ((r.later ≡ []) × (idle r ≡ true)) ⊎ Onward r
  onward r h room = elim (List-cases r.active) [
    | inr (t, ts, e) ↦ inr (finish-Onward r t ts h e)
    | inl a ↦ elim (List-cases r.checked) [
      | inr (t, ts, e) ↦ inr (checked-Onward r t ts e)
      | inl b ↦ elim (List-cases r.spawned) [
        | inr (t, ts, e) ↦ inr (spawned-Onward r t ts h e)
        | inl c ↦ elim (List-cases r.cleared) [
          | inr (t, ts, e) ↦ inr (cleared-Onward r t ts h (ground (arith, a, b, c)) e room)
          | inl d ↦ elim (List-cases r.pending) [
            | inr (t, ts, e) ↦ inr (pending-Onward r t ts h d e)
            | inl e ↦ elim (List-cases r.later) [
              | inr (l, ls, f) ↦ inr (later-Onward r l ls f (ground (arith, a, b, c, d, e)))
              | inl f ↦ inl (f, ground (arith, a, b, c, d, e))
            ]
          ]
        ]
      ]
    ]
  ]

  reach_trans : {r s t : Run} → Reach p r s → Reach p s t → Reach p r t
  reach_trans way here = way
  reach_trans way (next on last) = next (reach_trans way on) last

  to_end :
      (n : ℕ) (r : Run)
      → Holds p r
      → 0 < p.max_parallel
      → steps_left r < n
      → (s : Run) × Reach p r s × (s.later ≡ []) × (idle s ≡ true)
  to_end zero r h room b = absurd (omega (arith, b))
  to_end (suc n) r h room b = elim (onward r h room) [
    | inl (d, quiet) ↦ (r, here, d, quiet)
    | inr (s, one, less) ↦
        let (e, on, d, quiet) = to_end n s (step-Holds p con h one) room (omega (arith, b, less)) in
        (e, reach_trans (next here one) on, d, quiet)
  ]

  -- Where MaxParallel is not 0, no state that the loop over the levels comes to is a dead end: from
  -- each of them the steps can go on until the levels are through and the last group has been
  -- waited for, and then exactly the tasks of the graph have an outcome.
  pub reach-can_end :
      (c : Clock) (ls : List (List String)) (r : Run)
      → levels p.graph ≡ ok ls
      → 0 < p.max_parallel
      → Reach p (begin c ls) r
      → (s : Run) × Reach p r s
        × (s.later ≡ [])
        × (idle s ≡ true)
        × ((x : String) → is_some (lookup x s.state.outcomes) ≡ mem x p.graph.nodes)
  reach-can_end c ls r lev room way =
      let h = reach-Holds p con (begin-Holds p con c ls lev) way in
      let (s, on, d, quiet) = to_end (suc (steps_left r)) r h room (omega arith) in
      (s, on, d, quiet, λ x. settled-all p con c ls lev s (reach_trans way on) d quiet x)
