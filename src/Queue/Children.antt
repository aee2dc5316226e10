-- ===== src/Queue/Children.antt =====
-- What the last failure of a task does to the tasks that wait for it, in src/queue.rs.
use snerd_rust.Base.{
  ℕ, suc, ◌+◌, ◌≡◌, refl, ◌≢◌, ap, ◌∙◌, inl, inr, String, true, false, Option, none, some, List, [],
  ◌∷◌, ◌++◌, arith, str_eq, eq_iff, contains, contains-without, lookup, remove, lookup-remove,
  lookup-remove_self, Bool-cases, Option-cases, ltb_ℤ, dec_i32, ok,
}
use snerd_rust.Task.{Externals, Task, mark_deleted, update_retry_config}
use snerd_rust.FileStore.{
  Serde, FileStore, SaveFaults, save_task, read_tasks, delete_task, update_cache,
  are_tasks_completed,
}
use snerd_rust.RateLimiter.{Codec}
use snerd_rust.Queue.{enqueue, take_hash}
use snerd_rust.Queue.Schedule.{deps_completed}
use snerd_rust.Queue.Execute.{
  Queue, save_quietly, blocked, children, forget_hash, complete, fail_children, on_failure,
}
use snerd_rust.Queue.Attempts.{held, fail_children_held}
use snerd_rust.Queue.Saves.{IsCalm, Prints, save_ok}

module _ {x : Externals} (serde : Serde x) (codec : Codec) where
  fail_children_hashes :
      (faults : ℕ → SaveFaults) (clock : ℕ → ℕ) (id : String) (kids : List (Task x))
      (q : Queue serde codec)
      → (fail_children serde codec faults clock id kids q).active_hashes ≡ q.active_hashes
  unfolding fail_children save_quietly
  fail_children_hashes faults clock id [] q = refl
  fail_children_hashes faults clock id (child ∷ kids) q =
      fail_children_hashes (λ i. faults (suc i)) (λ i. clock (4 + i)) id kids _

  -- After the last failure of a task, whatever fails, a payload hash that was taken stays taken unless it is
  -- the task's own: a task with it, such as one that waited for the failed task and was deleted with
  -- it, is dropped by `enqueue` and answered Ok.
  pub enqueue-on_failure :
      (faults : ℕ → SaveFaults) (clock : ℕ → ℕ) (instant : ℕ) (e hash : String) (t u : Task x)
      (q : Queue serde codec) (faults' : SaveFaults)
      → ltb_ℤ t.retry_count (dec_i32 t.max_retries) ≡ false
      → t.payload_hash ≢ some hash
      → contains q.active_hashes hash ≡ true
      → u.payload_hash ≡ some hash
      → enqueue serde faults' none u (on_failure serde codec faults none clock instant e t q)
        ≡ (ok false, on_failure serde codec faults none clock instant e t q)
  unfolding enqueue take_hash on_failure complete forget_hash
  enqueue-on_failure faults clock instant e hash t u q faults' last foreign taken same =
      let kids = children t.task_id (read_tasks q.file_store) in
      let kept = fail_children_hashes (λ i. faults (suc i)) (λ i. clock (2 + i)) t.task_id kids q in
      let still : contains (on_failure serde codec faults none clock instant e t q).active_hashes
            hash
          ≡ true =
        elim (Option-cases t.payload_hash) [
          | inl no_hash ↦ ground (arith, kept)
          | inr (own, has_hash) ↦ elim (Bool-cases (str_eq own hash)) [
            | inl equal ↦ absurd (foreign (has_hash ∙ ap some ((eq_iff own hash).0 equal)))
            | inr other ↦ ground (arith, kept, contains-without own hash q.active_hashes)
          ]
        ] in
      ground (arith, still)

module _ {x : Externals} (serde : Serde x) (codec : Codec) (faults : SaveFaults)
    (calm : IsCalm faults) (prints : Prints serde) where
  abbrev holds : String → Queue serde codec → Option (Task x)
  holds = held serde codec faults calm prints

  child_gone :
      (clock : ℕ → ℕ) (id : String) (child : Task x) (q : Queue serde codec)
      → holds child.task_id (save_quietly serde codec faults none (blocked x clock id child) q)
        ≡ none
  unfolding held save_quietly save_task
  child_gone clock id child q =
      let t = blocked x clock id child in
      let gone : update_cache x t q.file_store.tasks_cache
          ≡ remove child.task_id q.file_store.tasks_cache =
        unfold update_cache blocked mark_deleted update_retry_config in refl in
      ground (
        arith,
        save_ok serde faults calm prints none t true q.file_store,
        gone,
        lookup-remove_self child.task_id q.file_store.tasks_cache,
      )

  children_gone :
      (clock : ℕ → ℕ) (id : String) (hs ks : List (Task x)) (child : Task x) (q : Queue serde codec)
      → holds child.task_id (fail_children serde codec (λ _. faults) clock id (hs ++ child ∷ ks) q)
        ≡ none
  unfolding fail_children
  children_gone clock id [] ks child q =
      let q' = save_quietly serde codec faults none (blocked x clock id child) q in
      elim (fail_children_held serde codec faults calm prints (λ i. clock (4 + i)) id ks q'
        child.task_id) [ inl gone ↦ gone | inr same ↦ same ∙ child_gone clock id child q ]
  children_gone clock id (h ∷ hs) ks child q =
      children_gone (λ i. clock (4 + i)) id hs ks child
        (save_quietly serde codec faults none (blocked x clock id h) q)

  delete_held :
      (now later : ℕ) (id j : String) (s : FileStore x)
      → lookup j s.tasks_cache ≡ none
      → lookup j (delete_task serde faults now later id s).1.tasks_cache ≡ none
  unfolding delete_task
  delete_held now later id j s absent = elim (Option-cases (lookup id s.tasks_cache)) [
    | inl e ↦ ground arith
    | inr (t, e) ↦
        let dead = mark_deleted x now later t in
        let removed : update_cache x dead s.tasks_cache ≡ remove t.task_id s.tasks_cache =
          unfold update_cache mark_deleted in refl in
        ground (
          arith,
          save_ok serde faults calm prints none dead false s,
          removed,
          lookup-remove t.task_id j s.tasks_cache,
        )
  ]

  -- After the last failure of a task, a task that waits for a child of it, and for nothing else, counts as
  -- free of its dependencies, though the child has not been executed. No save fails here.
  pub deps_completed-on_failure :
      (clock : ℕ → ℕ) (instant : ℕ) (e : String) (t child g : Task x) (hs ks : List (Task x))
      (q : Queue serde codec)
      → ltb_ℤ t.retry_count (dec_i32 t.max_retries) ≡ false
      → children t.task_id (read_tasks q.file_store) ≡ hs ++ child ∷ ks
      → g.trigger_after_ids ≡ some (child.task_id ∷ [])
      → deps_completed g (on_failure serde codec (λ _. faults) none clock instant e t q).file_store
        ≡ true
  unfolding deps_completed are_tasks_completed on_failure complete forget_hash held
  deps_completed-on_failure clock instant e t child g hs ks q last kids waits =
      let q₁ =
        fail_children serde codec (λ _. faults) (λ i. clock (2 + i)) t.task_id
          (children t.task_id (read_tasks q.file_store)) q in
      let gone : holds child.task_id q₁ ≡ none =
        rw kids (children_gone (λ i. clock (2 + i)) t.task_id hs ks child q) in
      let absent = delete_held (clock 0) (clock 1) t.task_id child.task_id q₁.file_store gone in
      ground (arith, absent)
