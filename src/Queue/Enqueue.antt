-- ===== src/Queue/Enqueue.antt =====
-- What `enqueue` of src/queue.rs answers and stores.
use snerd_rust.Base.{
  ℕ, ◌≡◌, refl, ◌≢◌, ◌⊎◌, inl, inr, String, Bool, true, false, Option, none, some, List, ◌∷◌, arith,
  if◌then◌else◌, str_eq, eq_iff, contains, contains-cons, lookup, lookup-insert, Bool-cases,
  Option-cases, Result-cases, Result, ok, err,
}
use snerd_rust.Task.{Externals, Task}
use snerd_rust.FileStore.{
  Serde, FileStore, SaveFaults, save_task, save_task_inner, update_cache, print, write_line,
}
use snerd_rust.FileStore.Cycle.{finished, deps_of, cycle_message}
use snerd_rust.FileStore.Cycle.Decides.{Reaches, detect_cycle_decides}
use snerd_rust.Queue.{
  SnerdQueue, QueueError, invalid_input, cycle_check, queue_result, admit, store_task, enqueue,
  take_hash,
}
use snerd_rust.Queue.Acyclic.{deps_none_start}
use snerd_rust.Queue.Saves.{IsCalm, Prints, save_ok}

module _ {x : Externals} where
  cycle_check_decides :
      (t : Task x) (s : FileStore x)
      → ((cycle_check t s ≡ finished (err (cycle_message t.task_id)))
          × Reaches s.tasks_cache (deps_of t) t.task_id)
        ⊎ ((cycle_check t s ≡ finished (ok tt)) × (¬ Reaches s.tasks_cache (deps_of t) t.task_id))
  unfolding cycle_check deps_of
  cycle_check_decides t s = elim (Option-cases t.trigger_after_ids) [
    | inl e ↦ rw e (inr (refl, deps_none_start s.tasks_cache t.task_id))
    | inr (ids, e) ↦ rw e (detect_cycle_decides s.tasks_cache t.task_id ids)
  ]

  -- What `enqueue` does with a task whose hash is not taken.
  pub data Answer (t : Task x) (s : FileStore x) (result : Result QueueError Bool)
      (s' : FileStore x) : Type 0 where
    refused :
        Reaches s.tasks_cache (deps_of t) t.task_id
        → result ≡ err (invalid_input (cycle_message t.task_id))
        → s' ≡ s
        → Answer t s result s'
    stored :
        (spawns : Bool)
        → (¬ Reaches s.tasks_cache (deps_of t) t.task_id)
        → result ≡ ok spawns
        → lookup t.task_id s'.tasks_cache ≡ some (record t { deleted_at = none })
        → ((id : String) → id ≢ t.task_id → lookup id s'.tasks_cache ≡ lookup id s.tasks_cache)
        → Answer t s result s'

module _ {x : Externals} (serde : Serde x) (faults : SaveFaults) (calm : IsCalm faults)
    (prints : Prints serde) where
  save_answers :
      (metadata : Option ℕ) (t : Task x) (s : FileStore x)
      → (spawns : Bool) × ((save_task serde faults metadata t s).0 ≡ ok spawns)
  unfolding save_task save_task_inner print write_line
  save_answers metadata t s =
      let (line, e) = prints t in
      elim (Result-cases (save_task serde faults metadata t s).0) [
        | inl answered ↦ answered
        | inr (e', failed) ↦
            absurd (ground (arith, calm.create_dir, calm.open_log, calm.write, calm.sync))
      ]

  pub save_stores :
      (metadata : Option ℕ) (t : Task x) (s : FileStore x) (id : String)
      → t.deleted_at ≡ none
      → lookup id (save_task serde faults metadata t s).1.tasks_cache
        ≡ (if str_eq t.task_id id then some t else lookup id s.tasks_cache)
  unfolding save_task update_cache
  save_stores metadata t s id live = ground (
    arith,
    save_ok serde faults calm prints metadata t true s,
    lookup-insert t.task_id id t s.tasks_cache,
  )

module _ {x : Externals} (serde : Serde x) {Limits : Type 0} where
  admit_hashes :
      (faults : SaveFaults) (metadata : Option ℕ) (t : Task x) (q : SnerdQueue x Limits)
      → (admit serde faults metadata t q).1.active_hashes ≡ q.active_hashes
  unfolding admit store_task
  admit_hashes faults metadata t q = ground arith

  -- A second task with the hash of a first is dropped and answered Ok, even where the first was
  -- refused, for a cycle or by the operating system, and is not in the store.
  pub enqueue_twice :
      (faults faults' : SaveFaults) (metadata metadata' : Option ℕ) (t t' : Task x) (hash : String)
      (q : SnerdQueue x Limits)
      → t.payload_hash ≡ some hash
      → t'.payload_hash ≡ some hash
      → enqueue serde faults' metadata' t' (enqueue serde faults metadata t q).1
        ≡ (ok false, (enqueue serde faults metadata t q).1)
  unfolding enqueue take_hash
  enqueue_twice faults faults' metadata metadata' t t' hash q e e' =
      let q₁ = (enqueue serde faults metadata t q).1 in
      let taken : contains q₁.active_hashes hash ≡ true =
        elim (Bool-cases (contains q.active_hashes hash)) [
          | inl known ↦ ground arith
          | inr new ↦ ground (
            arith,
            admit_hashes faults metadata t (record q { active_hashes = hash ∷ q.active_hashes }),
            contains-cons hash hash q.active_hashes,
            eq_iff hash hash,
          )
        ] in
      ground (arith, taken)

  admit_answers :
      (faults : SaveFaults) (metadata : Option ℕ) (t : Task x) (q : SnerdQueue x Limits)
      → IsCalm faults
      → Prints serde
      → Answer t q.file_store
          (admit serde faults metadata t q).0
          (admit serde faults metadata t q).1.file_store
  unfolding admit store_task queue_result
  admit_answers faults metadata t q calm prints = elim (cycle_check_decides t q.file_store) [
    | inl (found, cyclic) ↦ refused cyclic (ground arith) (ground arith)
    | inr (clear, fresh) ↦
        let live = record t { deleted_at = none } in
        let (spawns, answered) = save_answers serde faults calm prints metadata live q.file_store in
        let saved : (admit serde faults metadata t q).1.file_store
            ≡ (save_task serde faults metadata live q.file_store).1 =
          ground arith in
        stored spawns fresh (ground (arith, answered))
          (rw saved (
            ground (
              arith,
              save_stores serde faults calm prints metadata live q.file_store t.task_id refl,
              eq_iff t.task_id t.task_id,
            )))
          (λ id other. rw saved (
            ground (
              arith,
              save_stores serde faults calm prints metadata live q.file_store id refl,
              eq_iff t.task_id id,
            )))
  ]

  -- The hash of the task is not taken.
  abbrev pub IsNew : Task x → SnerdQueue x Limits → Type 0
  IsNew t q = (hash : String) → t.payload_hash ≡ some hash → contains q.active_hashes hash ≡ false

  new-enqueue :
      (faults : SaveFaults) (metadata : Option ℕ) (t : Task x) (q : SnerdQueue x Limits)
      → IsNew t q
      → (hashes : List String) × (enqueue serde faults metadata t q
          ≡ admit serde faults metadata t (record q { active_hashes = hashes }))
  unfolding enqueue take_hash
  new-enqueue faults metadata t q new = elim (Option-cases t.payload_hash) [
    | inl e ↦ (q.active_hashes, ground arith)
    | inr (hash, e) ↦ (hash ∷ q.active_hashes, ground (arith, new hash e))
  ]

  -- Where no call of the operating system fails and every task can be printed, a task whose hash is not
  -- taken is refused, and the store left as it is, if it is among the tasks that it waits for, directly or
  -- through tasks in the store; else it is stored as a live task under its id, and no other task changes.
  pub enqueue_answers :
      (faults : SaveFaults) (metadata : Option ℕ) (t : Task x) (q : SnerdQueue x Limits)
      → IsCalm faults
      → Prints serde
      → IsNew t q
      → Answer t q.file_store
          (enqueue serde faults metadata t q).0
          (enqueue serde faults metadata t q).1.file_store
  enqueue_answers faults metadata t q calm prints new =
      let (hashes, same) = new-enqueue faults metadata t q new in
      rw same (admit_answers faults metadata t (record q { active_hashes = hashes }) calm prints)
