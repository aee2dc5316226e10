-- ===== src/Queue/Frame/Pools.antt =====
-- Which steps of src/queue.rs leave the permits of the pools alone.
use snerd_rust.Base.{
  ℕ, suc, ◌+◌, ◌≡◌, refl, ◌∙◌, inl, inr, String, Option, none, some, List, [], ◌∷◌, arith, ltb_ℤ,
  dec_i32, Bool-cases, Result, ok, err,
}
use snerd_rust.Task.{Externals, Task}
use snerd_rust.FileStore.{Serde, SaveFaults, read_tasks}
use snerd_rust.RateLimiter.{Codec, Faults}
use snerd_rust.Queue.{SnerdQueue, take_hash, store_task}
use snerd_rust.Queue.Schedule.{leave_dispatcher, push_to, process_due_tasks}
use snerd_rust.Queue.Execute.{
  Queue, rate_check, save_quietly, children, forget_hash, complete, fail_children, on_success,
  on_failure, finish_task, drop_guard,
}
use snerd_rust.Queue.Keeps.{process_due_tasks_keeps}

module _ {x : Externals} {Limits : Type 0} where
  abbrev pub SamePools : SnerdQueue x Limits → SnerdQueue x Limits → Type 0
  SamePools q q' = q'.worker_pools ≡ q.worker_pools

  pub take_hash-SamePools : (t : Task x) (q : SnerdQueue x Limits) → SamePools q (take_hash t q).1
  unfolding take_hash
  take_hash-SamePools t q = ground arith

  pub leave_dispatcher-SamePools :
      (pool : String) (q : SnerdQueue x Limits) → SamePools q (leave_dispatcher pool q)
  unfolding leave_dispatcher
  leave_dispatcher-SamePools pool q = ground arith

  pub process_due_tasks-SamePools :
      (now : ℕ) (tasks : List (Task x)) (q : SnerdQueue x Limits)
      → SamePools q (process_due_tasks now tasks q).1
  unfolding push_to
  process_due_tasks-SamePools now tasks q =
      process_due_tasks_keeps (SamePools q) now tasks q (λ pool t q' due h. h) (λ q' counts h. h)
        refl

module _ {x : Externals} (serde : Serde x) (codec : Codec) where
  pub store_task-SamePools :
      (faults : SaveFaults) (metadata : Option ℕ) (t : Task x) (q : Queue serde codec)
      → SamePools q (store_task serde faults metadata t q).1
  unfolding store_task
  store_task-SamePools faults metadata t q = refl

  pub rate_check-SamePools :
      (faults : Faults codec.Raw) (now : ℕ) (t : Task x) (q : Queue serde codec)
      → SamePools q (rate_check serde codec faults now t q).1
  unfolding rate_check
  rate_check-SamePools faults now t q = ground arith

  complete-SamePools :
      (faults : SaveFaults) (clock : ℕ → ℕ) (instant : ℕ) (t : Task x) (q : Queue serde codec)
      → SamePools q (complete serde codec faults clock instant t q)
  unfolding complete forget_hash
  complete-SamePools faults clock instant t q = ground arith

  fail_children-SamePools :
      (faults : ℕ → SaveFaults) (clock : ℕ → ℕ) (id : String) (kids : List (Task x))
      (q : Queue serde codec)
      → SamePools q (fail_children serde codec faults clock id kids q)
  unfolding fail_children save_quietly
  fail_children-SamePools faults clock id [] q = refl
  fail_children-SamePools faults clock id (child ∷ kids) q =
      fail_children-SamePools (λ i. faults (suc i)) (λ i. clock (4 + i)) id kids _

  on_success-SamePools :
      (faults : SaveFaults) (metadata : Option ℕ) (clock : ℕ → ℕ) (instant : ℕ) (t : Task x)
      (q : Queue serde codec)
      → SamePools q (on_success serde codec faults metadata clock instant t q)
  unfolding on_success save_quietly
  on_success-SamePools faults metadata clock instant t q =
      ground (arith, complete-SamePools faults (λ i. clock (suc i)) instant t q)

  on_failure-SamePools :
      (faults : ℕ → SaveFaults) (metadata : Option ℕ) (clock : ℕ → ℕ) (instant : ℕ) (e : String)
      (t : Task x) (q : Queue serde codec)
      → SamePools q (on_failure serde codec faults metadata clock instant e t q)
  unfolding on_failure save_quietly
  on_failure-SamePools faults metadata clock instant e t q =
      elim (Bool-cases (ltb_ℤ t.retry_count (dec_i32 t.max_retries))) [
        | inl again ↦ rw again refl
        | inr last ↦ rw last (
            complete-SamePools (faults 0) clock instant t _
            ∙ fail_children-SamePools (λ i. faults (suc i)) (λ i. clock (2 + i)) t.task_id
                (children t.task_id (read_tasks q.file_store)) q)
      ]

  pub finish_task-SamePools :
      (faults : ℕ → SaveFaults) (metadata : Option ℕ) (clock : ℕ → ℕ) (instant : ℕ)
      (result : Option (Result String (Unit {0}))) (t : Task x) (q : Queue serde codec)
      → SamePools q (finish_task serde codec faults metadata clock instant result t q)
  unfolding finish_task drop_guard
  finish_task-SamePools faults metadata clock instant none t q = refl
  finish_task-SamePools faults metadata clock instant (some (ok u)) t q =
      on_success-SamePools (faults 0) metadata clock instant t q
  finish_task-SamePools faults metadata clock instant (some (err e)) t q =
      on_failure-SamePools faults metadata clock instant e t q
