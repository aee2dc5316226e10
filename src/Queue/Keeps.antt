-- ===== src/Queue/Keeps.antt =====
-- A property of the queue that `process_due_tasks` (src/queue.rs) keeps if each push keeps it.
use snerd_rust.Base.{
  ℕ, suc, ◌≡◌, ◌⊎◌, inl, inr, String, true, List, [], ◌∷◌, arith, Table, insert, ltb, Bool-cases,
  Option-cases,
}
use snerd_rust.Task.{Externals, Task}
use snerd_rust.Queue.{SnerdQueue}
use snerd_rust.Queue.Schedule.{
  push_to, is_due, target_pool, push_if_due, push_due, process_due_tasks, start_dispatchers,
  dispatchers, dedup,
}

module _ {x : Externals} {Limits : Type 0} (P : SnerdQueue x Limits → Type 0) (now : ℕ) where
  -- A push of a due task keeps the property.
  abbrev pub KeptByPush : Type 0
  KeptByPush =
      (pool : String) (t : Task x) (q : SnerdQueue x Limits)
      → is_due now t q ≡ true
      → P q
      → P (push_to pool t q)

  abbrev pub KeptByCounts : Type 0
  KeptByCounts =
      (q : SnerdQueue x Limits) (counts : Table ℕ)
      → P q
      → P (record q { dispatcher_counts = counts })

  pub push_if_due_cases :
      (t : Task x) (s : SnerdQueue x Limits × List String)
      → ((push_if_due now t s).0 ≡ s.0)
        ⊎ (pool : String) × (is_due now t s.0 ≡ true)
          × ((push_if_due now t s).0 ≡ push_to pool t s.0)
  unfolding push_if_due
  push_if_due_cases t (q, pools) = elim (Bool-cases (is_due now t q)) [
    | inl due ↦ elim (Option-cases (target_pool t q)) [
      | inl e ↦ inl (ground arith)
      | inr (pool, e) ↦ inr (pool, due, ground arith)
    ]
    | inr waiting ↦ inl (ground arith)
  ]

  pub push_due_keeps :
      (ts : List (Task x)) (s : SnerdQueue x Limits × List String)
      → KeptByPush
      → P s.0
      → P (push_due now ts s).0
  unfolding push_due
  push_due_keeps [] s push p = p
  push_due_keeps (t ∷ ts) s push p =
      push_due_keeps ts (push_if_due now t s) push (elim (push_if_due_cases t s) [
        | inl same ↦ rw same p
        | inr (pool, due, e) ↦ rw e (push pool t s.0 due p)
      ])

  pub start_dispatchers_keeps :
      (pools : List String) (q : SnerdQueue x Limits)
      → KeptByCounts
      → P q
      → P (start_dispatchers pools q).1
  unfolding start_dispatchers
  start_dispatchers_keeps [] q counts p = p
  start_dispatchers_keeps (pool ∷ pools) q counts p =
      let n = dispatchers pool q in
      elim (Bool-cases (ltb n 2)) [
        | inl few ↦ rw few (
            start_dispatchers_keeps pools _ counts
              (counts q (insert pool (suc n) q.dispatcher_counts) p))
        | inr enough ↦ rw enough (
            start_dispatchers_keeps pools _ counts (counts q (insert pool n q.dispatcher_counts) p))
      ]

  pub process_due_tasks_keeps :
      (ts : List (Task x)) (q : SnerdQueue x Limits)
      → KeptByPush
      → KeptByCounts
      → P q
      → P (process_due_tasks now ts q).1
  unfolding process_due_tasks
  process_due_tasks_keeps ts q push counts p =
      start_dispatchers_keeps (dedup (push_due now ts (q, [])).1) (push_due now ts (q, [])).0 counts
        (push_due_keeps ts (q, []) push p)
