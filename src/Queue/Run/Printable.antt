-- ===== src/Queue/Run/Printable.antt =====
-- The tasks that the processor and the dispatchers of src/queue.rs put into the heaps and take out of
-- them can be printed, if those that come in can.
use Prim.Native.Nat.{Ordering}
use snerd_rust.Base.{
  ℕ, zero, suc, ◌≡◌, inl, inr, refl, String, true, List, [], ◌∷◌, arith, lookup, insert,
  Option-cases,
}
use snerd_rust.Task.{Externals, Task, cmp}
use snerd_rust.FileStore.{is_printable, FileStore}
use snerd_rust.Queue.{SnerdQueue}
use snerd_rust.Queue.Schedule.{
  pops, push_to, ends, pop_max, pop, next_task, leave_dispatcher, push_due, process_due_tasks,
  dedup, push_if_due,
}
use snerd_rust.Queue.Keeps.{push_if_due_cases, start_dispatchers_keeps}
use snerd_rust.Queue.Run.Sound.{
  AllPrintable, HeapsPrintable, insert-HeapsPrintable, push_to-HeapsPrintable,
}

module _ (x : Externals) where
  choose-printable :
      (o : Ordering) (t best : Task x) (others : List (Task x))
      → is_printable x t ≡ true
      → AllPrintable x (best ∷ others)
      → let picked : Task x × List (Task x) = elim o [
        | Ordering.lt ↦ (best, t ∷ others)
        | _ ↦ (t, best ∷ others)
      ] in
        AllPrintable x (picked.0 ∷ picked.1)
  choose-printable Ordering.lt t best others p (b, h) = (b, (p, h))
  choose-printable Ordering.eq t best others p h = (p, h)
  choose-printable Ordering.gt t best others p h = (p, h)

  pop_max-printable :
      (t : Task x) (ts : List (Task x))
      → AllPrintable x (t ∷ ts)
      → AllPrintable x ((pop_max x t ts).0 ∷ (pop_max x t ts).1)
  unfolding pop_max
  pop_max-printable t [] h = h
  pop_max-printable t (u ∷ us) (p, h) =
      let (best, others) = pop_max x u us in
      choose-printable (cmp x t best) t best others p (pop_max-printable u us h)

module _ {x : Externals} {Limits : Type 0} where
  pub next_task_pops-printable :
      (pool : String) (t : Task x) (q q' : SnerdQueue x Limits)
      → next_task pool q ≡ (pops t, q')
      → HeapsPrintable x q.shared_pqs
      → (is_printable x t ≡ true) × HeapsPrintable x q'.shared_pqs × (q'.file_store ≡ q.file_store)
  unfolding next_task pop
  next_task_pops-printable pool t q q' e h = elim (Option-cases (lookup pool q.worker_pools)) [
    | inl no_pool ↦ absurd (ground arith)
    | inr (zero, full) ↦ absurd (ground arith)
    | inr (suc free, permit) ↦ elim (Option-cases (lookup pool q.shared_pqs)) [
      | inl no_heap ↦ absurd (ground arith)
      | inr ([], found) ↦ absurd (ground arith)
      | inr (u ∷ us, found) ↦
          let (p, others) = pop_max-printable x u us (h pool (u ∷ us) found) in
          let heaps = insert-HeapsPrintable x pool (pop_max x u us).1 q.shared_pqs others h in
          let picked : t ≡ (pop_max x u us).0 = ground arith in
          let left : q'.shared_pqs ≡ insert pool (pop_max x u us).1 q.shared_pqs = ground arith in
          (rw picked p, rw left heaps, ground arith)
    ]
  ]

  pub next_task_ends_store :
      (pool : String) (q q' : SnerdQueue x Limits)
      → next_task pool q ≡ (ends, q')
      → q'.file_store ≡ q.file_store
  unfolding next_task leave_dispatcher
  next_task_ends_store pool q q' e =
      let same : q' ≡ leave_dispatcher pool q = ground arith in rw same (ground arith)

  -- The store and the heaps.
  push_due-printable :
      (now : ℕ) (ts : List (Task x)) (s : SnerdQueue x Limits × List String) (store : FileStore x)
      → AllPrintable x ts
      → s.0.file_store ≡ store
      → HeapsPrintable x s.0.shared_pqs
      → ((push_due now ts s).0.file_store ≡ store)
        × HeapsPrintable x (push_due now ts s).0.shared_pqs
  unfolding push_due push_to
  push_due-printable now [] s store all same h = (same, h)
  push_due-printable now (t ∷ ts) s store (p, all) same h =
      elim (push_if_due_cases (λ (q : SnerdQueue x Limits). Unit {0}) now t s) [
        | inl waits ↦
            push_due-printable now ts (push_if_due now t s) store all (rw waits same) (rw waits h)
        | inr (pool, due, e) ↦
            push_due-printable now ts (push_if_due now t s) store all (rw e same)
              (rw e (push_to-HeapsPrintable x pool t s.0 p h))
      ]

  pub process_due_tasks-printable :
      (now : ℕ) (ts : List (Task x)) (q : SnerdQueue x Limits)
      → AllPrintable x ts
      → HeapsPrintable x q.shared_pqs
      → ((process_due_tasks now ts q).1.file_store ≡ q.file_store)
        × HeapsPrintable x (process_due_tasks now ts q).1.shared_pqs
  unfolding process_due_tasks
  process_due_tasks-printable now ts q all h =
      start_dispatchers_keeps
        (λ q'. (q'.file_store ≡ q.file_store) × HeapsPrintable x q'.shared_pqs) now
        (dedup (push_due now ts (q, [])).1) (push_due now ts (q, [])).0 (λ q' counts kept. kept)
        (push_due-printable now ts (q, []) q.file_store all refl h)
