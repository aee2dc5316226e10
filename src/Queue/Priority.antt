-- ===== src/Queue/Priority.antt =====
-- The order in which a dispatcher of src/queue.rs takes the tasks of a heap.
use Prim.Native.Nat.{compare}
use snerd_rust.Base.{
  ℕ, ◌≤◌, ◌≡◌, some, List, [], ◌∷◌, arith, All, true, ltb, ltb→lt, Bool-cases, inl, inr,
}
use snerd_rust.Task.{Externals, Task, score, cmp}
use snerd_rust.Queue.Schedule.{pop_max, pop}

module _ (x : Externals) (rank : x.F64 → ℕ) where
  -- Finite scores are in the order of their ranks.
  abbrev pub IsRanked : Type 0
  IsRanked =
      (a b : x.F64)
      → x.is_finite a ≡ true
      → x.is_finite b ≡ true
      → x.partial_cmp a b ≡ some (compare (rank a) (rank b))

  abbrev pub HasFiniteScore : Task x → Type 0
  HasFiniteScore t = x.is_finite (score x t) ≡ true

  -- The task's score is not above `n`.
  abbrev pub IsAtMost : ℕ → Task x → Type 0
  IsAtMost n t = rank (score x t) ≤ n

  weaken : (m n : ℕ) (ts : List (Task x)) → m ≤ n → All (IsAtMost m) ts → All (IsAtMost n) ts
  weaken m n [] h a = tt
  weaken m n (t ∷ ts) h (first, a) = (omega (arith, first, h), weaken m n ts h a)

  pop_max_greatest :
      (t : Task x) (ts : List (Task x))
      → IsRanked
      → HasFiniteScore t
      → All HasFiniteScore ts
      → HasFiniteScore (pop_max x t ts).0
        × All (IsAtMost (rank (score x (pop_max x t ts).0))) (pop_max x t ts).1
  unfolding pop_max cmp
  pop_max_greatest t [] ranked finite all_finite = (finite, tt)
  pop_max_greatest t (u ∷ us) ranked finite (next, all_finite) =
      let best = (pop_max x u us).0 in
      let (best_finite, others) = pop_max_greatest u us ranked next all_finite in
      let order = ranked (score x t) (score x best) finite best_finite in
      let rest = (pop_max x u us).1 in
      elim (Bool-cases (ltb (rank (score x t)) (rank (score x best)))) [
        | inl below ↦
            let same : pop_max x t (u ∷ us) ≡ (best, t ∷ rest) = ground (arith, order) in
            rw same (
              best_finite,
              (omega (arith, ltb→lt (rank (score x t)) (rank (score x best)) below), others),
            )
        | inr above ↦
            let highest : rank (score x best) ≤ rank (score x t) = ground arith in
            let same : pop_max x t (u ∷ us) ≡ (t, best ∷ rest) = ground (arith, order) in
            rw same (
              finite,
              (highest, weaken (rank (score x best)) (rank (score x t)) rest highest others),
            )
      ]

  -- Where finite scores are ordered, and every score in the heap is finite, a dispatcher takes a task with
  -- the greatest score: none that stays in the heap has a greater one.
  pub pop_greatest :
      (pq others : List (Task x)) (t : Task x)
      → IsRanked
      → All HasFiniteScore pq
      → pop x pq ≡ some (t, others)
      → All (IsAtMost (rank (score x t))) others
  unfolding pop
  pop_greatest [] others t ranked finite e = absurd (cc)
  pop_greatest (u ∷ us) others t ranked (first, finite) e =
      let popped : pop_max x u us ≡ (t, others) = cc e in
      rw popped at ((pop_max_greatest u us ranked first finite).1)
