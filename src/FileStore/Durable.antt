-- ===== src/FileStore/Durable.antt =====
-- The log of src/file_store.rs always replays to the cache, over saves, deletions and failures.
use snerd_rust.Base.{
  eq_iff, ℕ, ◌≡◌, sym, String, Bool, true, false, ◌||◌, Option, none, some, [], ◌∷◌, ◌++◌, arith,
  is_some, Table, lookup, lookup-insert, lookup-remove, str_eq, ◌⊎◌, Bool-cases, Option-cases, ok,
  inl, inr,
}
use snerd_rust.Task.{Externals, Task, mark_deleted}
use snerd_rust.FileStore.{
  is_printable, reloaded, reparsed, add_text, write_line, Serde, FileStore, no_counts, update_cache,
  read_lines, print, note_saved, lines_of, SaveFaults, save_task_inner, delete_task,
}
use snerd_rust.FileStore.Replay.{
  SameTasks, stable-reparsed, update_cache-SameTasks, read_printed, read_lines-append,
}

abbrev pub IsPrintableCache : (x : Externals) → Table (Task x) → Type 0
IsPrintableCache x cache =
    (id : String) (t : Task x) → lookup id cache ≡ some t → is_printable x t ≡ true

module _ {x : Externals} (serde : Serde x) where
  open serde use {to_json}

  -- Whatever the clock reads, a replay of the log has the tasks of the cache.
  abbrev pub IsDurable : FileStore x → Type 0
  IsDurable s =
      (clock : ℕ → ℕ)
      → SameTasks x s.tasks_cache (read_lines serde clock 0 (lines_of s.log) (no_counts x)).cache

  append-IsDurable :
      (t : Task x) (line : String) (s s' : FileStore x)
      → is_printable x t ≡ true
      → to_json t ≡ some line
      → s'.tasks_cache ≡ update_cache x t s.tasks_cache
      → s'.log ≡ some (lines_of s.log ++ line ∷ [])
      → IsDurable s
      → IsDurable s'
  unfolding lines_of
  append-IsDurable t line s s' p e cached logged h clock =
      let lines = lines_of s.log in
      let (j, split) = read_lines-append serde clock 0 lines line (no_counts x) in
      rw (cached, logged, split, read_printed serde t line (clock j) _ p e)
        (update_cache-SameTasks x t (reloaded x (clock j) (reparsed x t)) s.tasks_cache _
          (sym (stable-reparsed x (clock j) t)) (h clock))

  same-IsDurable :
      (s s' : FileStore x)
      → s'.tasks_cache ≡ s.tasks_cache
      → s'.log ≡ s.log
      → IsDurable s
      → IsDurable s'
  same-IsDurable s s' cached logged h clock = rw (cached, logged) (h clock)

  -- `save_task_inner` keeps the log and the cache together on every path but two: an error of
  -- `sync_all`, which is returned when the line is already in the file, and a write that fails half-way.
  pub save-IsDurable :
      (faults : SaveFaults) (metadata : Option ℕ) (t : Task x) (check : Bool) (s : FileStore x)
      → is_printable x t ≡ true
      → faults.sync ≡ false
      → ((line : String) → faults.torn line ≡ "")
      → s.unfinished ≡ false
      → IsDurable s
      → IsDurable (save_task_inner serde faults metadata t check s).1
  unfolding save_task_inner print note_saved write_line add_text
  save-IsDurable faults metadata t check s p synced whole finished h =
      let s' = (save_task_inner serde faults metadata t check s).1 in
      elim (Option-cases (to_json t)) [
        | inl e ↦ same-IsDurable s s' (ground arith) (ground arith) h
        | inr (line, e) ↦
            let nothing = (eq_iff (faults.torn line) "").1 (whole line) in
            elim (Bool-cases (faults.create_dir || faults.open_log || faults.write)) [
              | inl failed ↦ same-IsDurable s s' (ground arith) (ground arith) h
              | inr fine ↦ append-IsDurable t line s s' p e (ground arith) (ground arith) h
            ]
      ]

  -- The log replays to the cache, its last line is complete, and every cached task can be printed.
  pub record IsValid (s : FileStore x) : Type 0 where
    pub durable : IsDurable s
    pub printable : IsPrintableCache x s.tasks_cache
    pub finished : s.unfinished ≡ false

  pub update_cache-printable :
      (t : Task x) (cache : Table (Task x))
      → is_printable x t ≡ true
      → IsPrintableCache x cache
      → IsPrintableCache x (update_cache x t cache)
  unfolding update_cache
  update_cache-printable t cache p h id t' found = elim (Bool-cases (is_some t.deleted_at)) [
    | inl gone ↦ h id t' (ground (arith, lookup-remove t.task_id id cache))
    | inr live ↦ elim (Bool-cases (str_eq t.task_id id)) [
      | inl here ↦ ground (arith, lookup-insert t.task_id id t cache)
      | inr there ↦ h id t' (ground (arith, lookup-insert t.task_id id t cache))
    ]
  ]

  pub cache-save :
      (faults : SaveFaults) (metadata : Option ℕ) (t : Task x) (check : Bool) (s : FileStore x)
      → ((save_task_inner serde faults metadata t check s).1.tasks_cache ≡ s.tasks_cache)
        ⊎ ((save_task_inner serde faults metadata t check s).1.tasks_cache
            ≡ update_cache x t s.tasks_cache)
  unfolding save_task_inner print note_saved write_line
  cache-save faults metadata t check s = elim (Option-cases (to_json t)) [
    | inl e ↦ inl (ground arith)
    | inr (line, e) ↦
        elim (Bool-cases (faults.create_dir || faults.open_log || faults.write || faults.sync)) [
          | inl failed ↦ inl (ground arith)
          | inr fine ↦ inr (ground arith)
        ]
  ]

  save-finished :
      (faults : SaveFaults) (metadata : Option ℕ) (t : Task x) (check : Bool) (s : FileStore x)
      → ((line : String) → faults.torn line ≡ "")
      → s.unfinished ≡ false
      → (save_task_inner serde faults metadata t check s).1.unfinished ≡ false
  unfolding save_task_inner print note_saved write_line
  save-finished faults metadata t check s whole finished = elim (Option-cases (to_json t)) [
    | inl e ↦ ground (arith, finished)
    | inr (line, e) ↦
        let nothing = (eq_iff (faults.torn line) "").1 (whole line) in
        ground (arith, finished, nothing)
  ]

  pub save-IsValid :
      (faults : SaveFaults) (metadata : Option ℕ) (t : Task x) (check : Bool) (s : FileStore x)
      → is_printable x t ≡ true
      → faults.sync ≡ false
      → ((line : String) → faults.torn line ≡ "")
      → IsValid s
      → IsValid (save_task_inner serde faults metadata t check s).1
  save-IsValid faults metadata t check s p synced whole v = record {
    durable = save-IsDurable faults metadata t check s p synced whole v.finished v.durable;
    finished = save-finished faults metadata t check s whole v.finished;
    printable = elim (cache-save faults metadata t check s) [
      | inl same ↦ rw same v.printable
      | inr changed ↦ rw changed (update_cache-printable t s.tasks_cache p v.printable)
    ];
  }

  pub delete_cases :
      (faults : SaveFaults) (now later : ℕ) (task_id : String) (s : FileStore x)
      → (delete_task serde faults now later task_id s ≡ (ok false, s))
        ⊎ ((t : Task x) × (lookup task_id s.tasks_cache ≡ some t)
            × (delete_task serde faults now later task_id s
                ≡ save_task_inner serde faults none (mark_deleted x now later t) false s))
  unfolding delete_task
  delete_cases faults now later task_id s = elim (Option-cases (lookup task_id s.tasks_cache)) [
    | inl e ↦ inl (ground arith)
    | inr (t, e) ↦ elim (Bool-cases (is_some t.deleted_at)) [
      | inl gone ↦ inl (ground arith)
      | inr live ↦ inr (t, e, ground arith)
    ]
  ]

  -- `delete_task` keeps a valid store valid whatever fails before the sync of the log.
  pub delete-IsValid :
      (faults : SaveFaults) (now later : ℕ) (task_id : String) (s : FileStore x)
      → faults.sync ≡ false
      → ((line : String) → faults.torn line ≡ "")
      → IsValid s
      → IsValid (delete_task serde faults now later task_id s).1
  unfolding mark_deleted is_printable
  delete-IsValid faults now later task_id s synced whole v =
      elim (delete_cases faults now later task_id s) [
        | inl e ↦ rw e v
        | inr (t, found, e) ↦ rw e (
            save-IsValid faults none (mark_deleted x now later t) false s
              (v.printable task_id t found) synced whole v)
      ]
