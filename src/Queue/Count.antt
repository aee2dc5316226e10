-- ===== src/Queue/Count.antt =====
-- How often an id occurs in the heaps of src/queue.rs, and what its steps do to that.
use snerd_rust.Base.{
  ℕ, ◌+◌, ◌≡◌, refl, String, true, false, none, some, List, [], ◌∷◌, ◌++◌, arith, if◌then◌else◌,
  str_eq, eq_iff, contains, contains-cons, Table, lookup, insert,
}
use snerd_rust.Task.{Externals, Task, RetryableTask}
use snerd_rust.Queue.{SnerdQueue}
use snerd_rust.Queue.Schedule.{pop_max, pop, heap, push_to, is_due}

module _ {F64 : Type 0} (id : String) where
  unfoldable pub count : List (RetryableTask F64) → ℕ
  count [] = 0
  count (t ∷ ts) = (if str_eq t.task_id id then 1 else 0) + count ts

  unfoldable pub count_heaps : Table (List (RetryableTask F64)) → ℕ
  unfolding count
  count_heaps [] = 0
  count_heaps ((pool, pq) ∷ pqs) = count pq + count_heaps pqs

  -- The tasks that dispatchers or executions hold, each with its pool.
  unfoldable pub count_held : List (String × RetryableTask F64) → ℕ
  count_held [] = 0
  count_held ((pool, t) ∷ held) = (if str_eq t.task_id id then 1 else 0) + count_held held

  pub count_held-append :
      (hs ks : List (String × RetryableTask F64))
      → count_held (hs ++ ks) ≡ count_held hs + count_held ks
  unfolding count_held
  count_held-append [] ks = omega arith
  count_held-append ((pool, t) ∷ hs) ks = ground (arith, count_held-append hs ks)

  abbrev pub heap_of : String → Table (List (RetryableTask F64)) → List (RetryableTask F64)
  heap_of pool pqs = elim (lookup pool pqs) [ none ↦ [] | some pq ↦ pq ]

  pub count_heaps-insert :
      (pool : String) (pq : List (RetryableTask F64)) (pqs : Table (List (RetryableTask F64)))
      → count_heaps (insert pool pq pqs) + count (heap_of pool pqs) ≡ count_heaps pqs + count pq
  unfolding count_heaps count insert lookup
  count_heaps-insert pool pq [] = omega arith
  count_heaps-insert pool pq ((p, h) ∷ pqs) = ground (arith, count_heaps-insert pool pq pqs)

module _ (x : Externals) (id : String) where
  count-pop_max :
      (t : Task x) (ts : List (Task x))
      → (if str_eq (pop_max x t ts).0.task_id id then 1 else 0) + count id (pop_max x t ts).1
        ≡ count id (t ∷ ts)
  unfolding pop_max count
  count-pop_max t [] = refl
  count-pop_max t (u ∷ us) = ground (arith, count-pop_max u us)

-- 1 where the id is in the set, 0 elsewhere.
abbrev pub member : List String → String → ℕ
member ids id = if contains ids id then 1 else 0

module _ {x : Externals} {Limits : Type 0} where
  -- A task is in one heap, or held by one dispatcher (`held` counts those), exactly while its id
  -- is in `queued_tasks`.
  abbrev pub IsQueuedOnce : (String → ℕ) → SnerdQueue x Limits → Type 0
  IsQueuedOnce held q =
      (id : String) → count_heaps id q.shared_pqs + held id ≡ member q.queued_tasks id

  pub push_to-IsQueuedOnce :
      (held : String → ℕ) (pool : String) (t : Task x) (q : SnerdQueue x Limits)
      → contains q.queued_tasks t.task_id ≡ false
      → IsQueuedOnce held q
      → IsQueuedOnce held (push_to pool t q)
  unfolding push_to heap count
  push_to-IsQueuedOnce held pool t q new h id = ground (
    arith,
    h id,
    count_heaps-insert id pool (t ∷ heap pool q) q.shared_pqs,
    contains-cons t.task_id id q.queued_tasks,
    eq_iff t.task_id id,
  )

  pub due_new :
      (now : ℕ) (t : Task x) (q : SnerdQueue x Limits)
      → is_due now t q ≡ true
      → contains q.queued_tasks t.task_id ≡ false
  unfolding is_due
  due_new now t q due = ground arith

module _ (x : Externals) (id : String) where
  -- A pop takes one task out of one heap.
  pub count_heaps-pop :
      (pool : String) (pq others : List (Task x)) (t : Task x) (pqs : Table (List (Task x)))
      → lookup pool pqs ≡ some pq
      → pop x pq ≡ some (t, others)
      → count_heaps id (insert pool others pqs) + (if str_eq t.task_id id then 1 else 0)
        ≡ count_heaps id pqs
  unfolding pop
  count_heaps-pop pool [] others t pqs found popped = absurd (cc)
  count_heaps-pop pool (u ∷ us) others t pqs found popped =
      ground (arith, count_heaps-insert id pool others pqs, count-pop_max x id u us)
