-- ===== src/Queue/Saves.antt =====
-- A save and a deletion of src/file_store.rs of which no call fails, as src/queue.rs relies on them.
use snerd_rust.Base.{
  ℕ, ◌≡◌, refl, ◌⊎◌, inl, inr, String, Bool, false, Option, none, some, arith, eq_iff, lookup,
  remove, lookup-remove,
}
use snerd_rust.Task.{Externals, Task, mark_deleted}
use snerd_rust.FileStore.{
  Serde, FileStore, SaveFaults, save_task_inner, delete_task, update_cache, print, note_saved,
  write_line,
}

-- No call of the operating system fails in a save.
pub record IsCalm (faults : SaveFaults) : Type 0 where
  pub create_dir : faults.create_dir ≡ false
  pub open_log : faults.open_log ≡ false
  pub write : faults.write ≡ false
  pub sync : faults.sync ≡ false

module _ {x : Externals} (serde : Serde x) where
  abbrev pub Prints : Type 0
  Prints = (t : Task x) → (line : String) × (serde.to_json t ≡ some line)

  module _ (faults : SaveFaults) (calm : IsCalm faults) (prints : Prints) where
    pub save_ok :
        (metadata : Option ℕ) (t : Task x) (check : Bool) (s : FileStore x)
        → (save_task_inner serde faults metadata t check s).1.tasks_cache
          ≡ update_cache x t s.tasks_cache
    unfolding save_task_inner print note_saved write_line
    save_ok metadata t check s =
        let (line, e) = prints t in
        ground (arith, calm.create_dir, calm.open_log, calm.write, calm.sync)

    pub delete_ok :
        (now later : ℕ) (id : String) (s : FileStore x)
        → (lookup id s.tasks_cache ≡ none)
          ⊎ ((t : Task x) × (lookup id s.tasks_cache ≡ some t)
              × (t.deleted_at ≡ none)
              × (t.task_id ≡ id))
        → lookup id (delete_task serde faults now later id s).1.tasks_cache ≡ none
    unfolding delete_task
    delete_ok now later id s (inl e) = ground arith
    delete_ok now later id s (inr (t, e, live, own)) =
        let same : (delete_task serde faults now later id s).1.tasks_cache
            ≡ update_cache x (mark_deleted x now later t) s.tasks_cache =
          ground (arith, save_ok none (mark_deleted x now later t) false s) in
        let removed : update_cache x (mark_deleted x now later t) s.tasks_cache
            ≡ remove t.task_id s.tasks_cache =
          unfold update_cache mark_deleted in refl in
        ground (arith, same, removed, lookup-remove t.task_id id s.tasks_cache, eq_iff t.task_id id)
