-- ===== src/Queue/Run/Sound.antt =====
-- The operations of src/queue.rs keep the store of an engine sound, and put only tasks that can be printed
-- into its heaps.
use snerd_rust.Base.{
  ℕ, suc, ◌+◌, ◌≡◌, refl, ◌∙◌, String, true, false, Option, none, some, List, [], ◌∷◌, arith, All,
  Table, lookup, insert, lookup-insert, str_eq, ltb_ℤ, dec_i32, values, Bool-cases, Option-cases,
  inl, inr, Result, ok, err,
}
use snerd_rust.Task.{Externals, Task, update_retry_config, mark_deleted}
use snerd_rust.FileStore.{is_printable, Serde, SaveFaults, save_task, read_tasks}
use snerd_rust.FileStore.Compaction.Clean.{IsClean}
use snerd_rust.FileStore.Live.{IsSound, save-IsSound, delete-IsSound}
use snerd_rust.RateLimiter.{Codec}
use snerd_rust.Queue.{SnerdQueue, store_task}
use snerd_rust.Queue.Schedule.{push_to, heap}
use snerd_rust.Queue.Execute.{
  Queue, save_quietly, children, depends_on, rescheduled, next_run, blocked, forget_hash, complete,
  fail_children, on_success, on_failure, finish_task, drop_guard,
}

-- Every task of the list can be printed.
abbrev pub AllPrintable : (x : Externals) → List (Task x) → Type 0
AllPrintable x = All (λ t. is_printable x t ≡ true)

-- So can every task of the heaps.
abbrev pub HeapsPrintable : (x : Externals) → Table (List (Task x)) → Type 0
HeapsPrintable x pqs =
    (pool : String) (pq : List (Task x)) → lookup pool pqs ≡ some pq → AllPrintable x pq

module _ (x : Externals) where
  values-AllPrintable : (m : Table (Task x)) → IsClean x m → AllPrintable x (values m)
  values-AllPrintable [] c = tt
  values-AllPrintable ((k, t) ∷ m) (_, _, p, _, c) = (p, values-AllPrintable m c)

  children-AllPrintable :
      (id : String) (ts : List (Task x)) → AllPrintable x ts → AllPrintable x (children id ts)
  unfolding children
  children-AllPrintable id [] h = tt
  children-AllPrintable id (t ∷ ts) (p, h) = elim (Bool-cases (depends_on id t)) [
    | inl child ↦ rw child (p, children-AllPrintable id ts h)
    | inr other ↦ rw other (children-AllPrintable id ts h)
  ]

  pub insert-HeapsPrintable :
      (pool : String) (pq : List (Task x)) (pqs : Table (List (Task x)))
      → AllPrintable x pq
      → HeapsPrintable x pqs
      → HeapsPrintable x (insert pool pq pqs)
  insert-HeapsPrintable pool pq pqs all h other pq' found = elim (Bool-cases (str_eq pool other)) [
    | inl own ↦ let same : pq' ≡ pq = ground (arith, lookup-insert pool other pq pqs) in rw same all
    | inr differs ↦ h other pq' (ground (arith, lookup-insert pool other pq pqs))
  ]

  heap-AllPrintable :
      {Limits : Type 0} (pool : String) (q : SnerdQueue x Limits)
      → HeapsPrintable x q.shared_pqs
      → AllPrintable x (heap pool q)
  unfolding heap
  heap-AllPrintable pool q h = elim (Option-cases (lookup pool q.shared_pqs)) [
    | inl e ↦ let same : heap pool q ≡ [] = ground arith in rw same tt
    | inr (pq, e) ↦ let same : heap pool q ≡ pq = ground arith in rw same (h pool pq e)
  ]

  pub push_to-HeapsPrintable :
      {Limits : Type 0} (pool : String) (t : Task x) (q : SnerdQueue x Limits)
      → is_printable x t ≡ true
      → HeapsPrintable x q.shared_pqs
      → HeapsPrintable x (push_to pool t q).shared_pqs
  unfolding push_to
  push_to-HeapsPrintable pool t q p h =
      insert-HeapsPrintable pool (t ∷ heap pool q) q.shared_pqs (p, heap-AllPrintable pool q h) h

module _ {x : Externals} (serde : Serde x) (codec : Codec) where
  pub store_task-IsSound :
      (faults : SaveFaults) (metadata : Option ℕ) (t : Task x) (q : SnerdQueue x codec.Raw)
      → is_printable x t ≡ true
      → faults.sync ≡ false
      → ((line : String) → faults.torn line ≡ "")
      → IsSound serde q.file_store
      → IsSound serde (store_task serde faults metadata t q).1.file_store
  unfolding store_task save_task is_printable
  store_task-IsSound faults metadata t q p synced whole h =
      save-IsSound serde faults metadata (record t { deleted_at = none }) true q.file_store p synced
        whole h

  pub save_quietly-IsSound :
      (faults : SaveFaults) (metadata : Option ℕ) (t : Task x) (q : Queue serde codec)
      → is_printable x t ≡ true
      → faults.sync ≡ false
      → ((line : String) → faults.torn line ≡ "")
      → IsSound serde q.file_store
      → IsSound serde (save_quietly serde codec faults metadata t q).file_store
  unfolding save_quietly save_task
  save_quietly-IsSound faults metadata t q p synced whole h =
      save-IsSound serde faults metadata t true q.file_store p synced whole h

  complete-IsSound :
      (faults : SaveFaults) (clock : ℕ → ℕ) (instant : ℕ) (t : Task x) (q : Queue serde codec)
      → faults.sync ≡ false
      → ((line : String) → faults.torn line ≡ "")
      → IsSound serde q.file_store
      → IsSound serde (complete serde codec faults clock instant t q).file_store
  unfolding complete forget_hash
  complete-IsSound faults clock instant t q synced whole h =
      let deleted =
        delete-IsSound serde faults (clock 0) (clock 1) t.task_id q.file_store synced whole h in
      elim (Option-cases t.payload_hash) [ inl e ↦ rw e deleted | inr (hash, e) ↦ rw e deleted ]

  -- Bookkeeping does not change whether a task can be printed.
  blocked-printable :
      (clock : ℕ → ℕ) (id : String) (t : Task x)
      → is_printable x (blocked x clock id t) ≡ is_printable x t
  unfolding blocked mark_deleted update_retry_config is_printable
  blocked-printable clock id t = refl

  fail_children-IsSound :
      (faults : ℕ → SaveFaults) (clock : ℕ → ℕ) (id : String) (kids : List (Task x))
      (q : Queue serde codec)
      → ((i : ℕ) → (faults i).sync ≡ false)
      → ((i : ℕ) (line : String) → (faults i).torn line ≡ "")
      → AllPrintable x kids
      → IsSound serde q.file_store
      → IsSound serde (fail_children serde codec faults clock id kids q).file_store
  unfolding fail_children
  fail_children-IsSound faults clock id [] q synced whole p h = h
  fail_children-IsSound faults clock id (child ∷ kids) q synced whole (p, ps) h =
      fail_children-IsSound (λ i. faults (suc i)) (λ i. clock (4 + i)) id kids _
        (λ i. synced (suc i)) (λ i. whole (suc i)) ps
        (save_quietly-IsSound (faults 0) none (blocked x clock id child) q
          (blocked-printable clock id child ∙ p) (synced 0) (whole 0) h)

  on_success-IsSound :
      (faults : SaveFaults) (metadata : Option ℕ) (clock : ℕ → ℕ) (instant : ℕ) (t : Task x)
      (q : Queue serde codec)
      → is_printable x t ≡ true
      → faults.sync ≡ false
      → ((line : String) → faults.torn line ≡ "")
      → IsSound serde q.file_store
      → IsSound serde (on_success serde codec faults metadata clock instant t q).file_store
  unfolding on_success rescheduled is_printable
  on_success-IsSound faults metadata clock instant t q p synced whole h =
      elim (Option-cases (next_run x (clock 0) t)) [
        | inl e ↦
            let same : on_success serde codec faults metadata clock instant t q
                ≡ complete serde codec faults (λ i. clock (suc i)) instant t q =
              ground arith in
            rw same (complete-IsSound faults (λ i. clock (suc i)) instant t q synced whole h)
        | inr (next, e) ↦
            let same : on_success serde codec faults metadata clock instant t q
                ≡ save_quietly serde codec faults metadata (rescheduled next t) q =
              ground arith in
            rw same (save_quietly-IsSound faults metadata (rescheduled next t) q p synced whole h)
      ]

  on_failure-IsSound :
      (faults : ℕ → SaveFaults) (metadata : Option ℕ) (clock : ℕ → ℕ) (instant : ℕ) (e : String)
      (t : Task x) (q : Queue serde codec)
      → is_printable x t ≡ true
      → ((i : ℕ) → (faults i).sync ≡ false)
      → ((i : ℕ) (line : String) → (faults i).torn line ≡ "")
      → IsSound serde q.file_store
      → IsSound serde (on_failure serde codec faults metadata clock instant e t q).file_store
  unfolding on_failure update_retry_config is_printable read_tasks
  on_failure-IsSound faults metadata clock instant e t q p synced whole h =
      elim (Bool-cases (ltb_ℤ t.retry_count (dec_i32 t.max_retries))) [
        | inl again ↦ rw again (
            save_quietly-IsSound (faults 0) metadata
              (update_retry_config x (clock 0) (clock 1) (some e) t) q p (synced 0) (whole 0) h)
        | inr last ↦
            let tasks = values-AllPrintable x q.file_store.tasks_cache h.clean in
            let kids = children t.task_id (read_tasks q.file_store) in
            rw last (
              complete-IsSound (faults 0) clock instant t _ (synced 0) (whole 0) (
                fail_children-IsSound (λ i. faults (suc i)) (λ i. clock (2 + i)) t.task_id kids q
                  (λ i. synced (suc i)) (λ i. whole (suc i))
                  (children-AllPrintable x t.task_id (read_tasks q.file_store) tasks) h))
      ]

  pub finish_task-IsSound :
      (faults : ℕ → SaveFaults) (metadata : Option ℕ) (clock : ℕ → ℕ) (instant : ℕ)
      (result : Option (Result String (Unit {0}))) (t : Task x) (q : Queue serde codec)
      → is_printable x t ≡ true
      → ((i : ℕ) → (faults i).sync ≡ false)
      → ((i : ℕ) (line : String) → (faults i).torn line ≡ "")
      → IsSound serde q.file_store
      → IsSound serde (finish_task serde codec faults metadata clock instant result t q).file_store
  unfolding finish_task drop_guard
  finish_task-IsSound faults metadata clock instant none t q p synced whole h = h
  finish_task-IsSound faults metadata clock instant (some (ok u)) t q p synced whole h =
      on_success-IsSound (faults 0) metadata clock instant t q p (synced 0) (whole 0) h
  finish_task-IsSound faults metadata clock instant (some (err e)) t q p synced whole h =
      on_failure-IsSound faults metadata clock instant e t q p synced whole h
