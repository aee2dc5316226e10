-- ===== src/Queue/Frame.antt =====
-- Which steps of src/queue.rs leave the queued set, the executing set and the heaps alone.
pub mod Pools
use snerd_rust.Base.{
  ℕ, suc, ◌+◌, ◌≡◌, refl, ◌∙◌, inl, inr, String, Option, none, some, List, [], ◌∷◌, arith, lookup,
  ltb_ℤ, dec_i32, Bool-cases, Option-cases, Result, ok, err,
}
use snerd_rust.Task.{Externals, Task}
use snerd_rust.FileStore.{Serde, SaveFaults, read_tasks}
use snerd_rust.RateLimiter.{Codec, Faults}
use snerd_rust.Queue.{SnerdQueue, take_hash, store_task}
use snerd_rust.Queue.Schedule.{leave_dispatcher, drop_permit}
use snerd_rust.Queue.Execute.{
  Queue, rate_check, save_quietly, children, rescheduled, next_run, forget_hash, complete,
  fail_children, on_success, on_failure, finish_task, drop_guard,
}

module _ {x : Externals} {Limits : Type 0} where
  pub record SameSets (q q' : SnerdQueue x Limits) : Type 0 where
    pub queued : q'.queued_tasks ≡ q.queued_tasks
    pub executing : q'.executing_tasks ≡ q.executing_tasks
    pub heaps : q'.shared_pqs ≡ q.shared_pqs

  pub SameSets-refl : (q : SnerdQueue x Limits) → SameSets q q
  SameSets-refl q = record { queued = refl; executing = refl; heaps = refl }

  pub SameSets-trans : (p q r : SnerdQueue x Limits) → SameSets p q → SameSets q r → SameSets p r
  SameSets-trans p q r a b = record {
    queued = b.queued ∙ a.queued;
    executing = b.executing ∙ a.executing;
    heaps = b.heaps ∙ a.heaps;
  }

  pub drop_permit-SameSets :
      (pool : String) (q : SnerdQueue x Limits) → SameSets q (drop_permit pool q)
  unfolding drop_permit
  drop_permit-SameSets pool q = elim (Option-cases (lookup pool q.worker_pools)) [
    | inl e ↦ record { queued = ground arith; executing = ground arith; heaps = ground arith }
    | inr (n, e) ↦ record { queued = ground arith; executing = ground arith; heaps = ground arith }
  ]

  pub drop_permit_store :
      (pool : String) (q : SnerdQueue x Limits) → (drop_permit pool q).file_store ≡ q.file_store
  unfolding drop_permit
  drop_permit_store pool q = ground arith

  pub leave_dispatcher-SameSets :
      (pool : String) (q : SnerdQueue x Limits) → SameSets q (leave_dispatcher pool q)
  unfolding leave_dispatcher
  leave_dispatcher-SameSets pool q = elim (Option-cases (lookup pool q.dispatcher_counts)) [
    | inl e ↦ record { queued = ground arith; executing = ground arith; heaps = ground arith }
    | inr (n, e) ↦ record { queued = ground arith; executing = ground arith; heaps = ground arith }
  ]

module _ {x : Externals} {Limits : Type 0} where
  pub take_hash-SameSets : (t : Task x) (q : SnerdQueue x Limits) → SameSets q (take_hash t q).1
  unfolding take_hash
  take_hash-SameSets t q = record {
    queued = ground arith;
    executing = ground arith;
    heaps = ground arith;
  }

  pub take_hash_store :
      (t : Task x) (q : SnerdQueue x Limits) → (take_hash t q).1.file_store ≡ q.file_store
  unfolding take_hash
  take_hash_store t q = ground arith

module _ {x : Externals} (serde : Serde x) (codec : Codec) where
  pub store_task-SameSets :
      (faults : SaveFaults) (metadata : Option ℕ) (t : Task x) (q : SnerdQueue x codec.Raw)
      → SameSets q (store_task serde faults metadata t q).1
  unfolding store_task
  store_task-SameSets faults metadata t q = record { queued = refl; executing = refl; heaps = refl }

  pub rate_check-SameSets :
      (faults : Faults codec.Raw) (now : ℕ) (t : Task x) (q : Queue serde codec)
      → SameSets q (rate_check serde codec faults now t q).1
  unfolding rate_check
  rate_check-SameSets faults now t q = record {
    queued = ground arith;
    executing = ground arith;
    heaps = ground arith;
  }

  forget_hash-SameSets :
      (t : Task x) (q : Queue serde codec) → SameSets q (forget_hash serde codec t q)
  unfolding forget_hash
  forget_hash-SameSets t q = record {
    queued = ground arith;
    executing = ground arith;
    heaps = ground arith;
  }

  complete-SameSets :
      (faults : SaveFaults) (clock : ℕ → ℕ) (instant : ℕ) (t : Task x) (q : Queue serde codec)
      → SameSets q (complete serde codec faults clock instant t q)
  unfolding complete
  complete-SameSets faults clock instant t q =
      SameSets-trans q _ _ (record { queued = refl; executing = refl; heaps = refl })
        (forget_hash-SameSets t _)

  fail_children-SameSets :
      (faults : ℕ → SaveFaults) (clock : ℕ → ℕ) (id : String) (kids : List (Task x))
      (q : Queue serde codec)
      → SameSets q (fail_children serde codec faults clock id kids q)
  unfolding fail_children save_quietly
  fail_children-SameSets faults clock id [] q = SameSets-refl q
  fail_children-SameSets faults clock id (child ∷ kids) q =
      SameSets-trans q _ _ (record { queued = refl; executing = refl; heaps = refl })
        (fail_children-SameSets (λ i. faults (suc i)) (λ i. clock (4 + i)) id kids _)

  on_success-SameSets :
      (faults : SaveFaults) (metadata : Option ℕ) (clock : ℕ → ℕ) (instant : ℕ) (t : Task x)
      (q : Queue serde codec)
      → SameSets q (on_success serde codec faults metadata clock instant t q)
  unfolding on_success save_quietly
  on_success-SameSets faults metadata clock instant t q =
      elim (Option-cases (next_run x (clock 0) t)) [
        | inl e ↦
            let same : on_success serde codec faults metadata clock instant t q
                ≡ complete serde codec faults (λ i. clock (suc i)) instant t q =
              ground arith in
            rw same (complete-SameSets faults (λ i. clock (suc i)) instant t q)
        | inr (next, e) ↦
            let same : on_success serde codec faults metadata clock instant t q
                ≡ save_quietly serde codec faults metadata (rescheduled next t) q =
              ground arith in
            rw same (record { queued = refl; executing = refl; heaps = refl })
      ]

  on_failure-SameSets :
      (faults : ℕ → SaveFaults) (metadata : Option ℕ) (clock : ℕ → ℕ) (instant : ℕ) (e : String)
      (t : Task x) (q : Queue serde codec)
      → SameSets q (on_failure serde codec faults metadata clock instant e t q)
  unfolding on_failure save_quietly
  on_failure-SameSets faults metadata clock instant e t q =
      elim (Bool-cases (ltb_ℤ t.retry_count (dec_i32 t.max_retries))) [
        | inl again ↦ rw again (record { queued = refl; executing = refl; heaps = refl })
        | inr last ↦ rw last (
            SameSets-trans q _ _
              (fail_children-SameSets (λ i. faults (suc i)) (λ i. clock (2 + i)) t.task_id
                (children t.task_id (read_tasks q.file_store)) q)
              (complete-SameSets (faults 0) clock instant t _))
      ]

  -- The end of an execution takes the id out of the executing set, and changes no other set.
  pub finish_task_sets :
      (faults : ℕ → SaveFaults) (metadata : Option ℕ) (clock : ℕ → ℕ) (instant : ℕ)
      (result : Option (Result String (Unit {0}))) (t : Task x) (q : Queue serde codec)
      → SameSets (drop_guard t q) (finish_task serde codec faults metadata clock instant result t q)
  unfolding finish_task drop_guard
  finish_task_sets faults metadata clock instant none t q = SameSets-refl _
  finish_task_sets faults metadata clock instant (some (ok u)) t q =
      let h = on_success-SameSets (faults 0) metadata clock instant t q in
      record { queued = h.queued; executing = rw h.executing refl; heaps = h.heaps }
  finish_task_sets faults metadata clock instant (some (err e)) t q =
      let h = on_failure-SameSets faults metadata clock instant e t q in
      record { queued = h.queued; executing = rw h.executing refl; heaps = h.heaps }
