-- ===== src/FileStore/Live.antt =====
-- The cache of src/file_store.rs has live tasks only, each once and under its own id.
use snerd_rust.Base.{
  ℕ, suc, ◌≡◌, String, Bool, true, false, Option, none, List, [], ◌∷◌, is_some, Table, Bool-cases,
  Option-cases, inl, inr, ok,
}
use snerd_rust.Task.{Externals, Task, mark_deleted}
use snerd_rust.FileStore.{
  is_printable, is_blank, Serde, FileStore, Counts, no_counts, update_cache, read_line, read_lines,
  new, lines_of, SaveFaults, save_task_inner, delete_task, CompactFaults, compact_log,
}
use snerd_rust.FileStore.Durable.{IsValid, cache-save, delete_cases, save-IsValid}
use snerd_rust.FileStore.Compaction.{compact_cases, compact-IsValid}
use snerd_rust.FileStore.Compaction.Clean.{
  IsClean, insert-IsClean, remove-IsClean, lookup-IsClean, compact_lines-IsClean,
}
use snerd_rust.FileStore.Recovery.{read_nothing, read_task, new_ok, new-IsValid}

module _ {x : Externals} (serde : Serde x) where
  open serde use {from_json, parse-printable}

  update_cache-IsClean :
      (t : Task x) (cache : Table (Task x))
      → is_printable x t ≡ true
      → IsClean x cache
      → IsClean x (update_cache x t cache)
  unfolding update_cache
  update_cache-IsClean t cache p c = elim (Bool-cases (is_some t.deleted_at)) [
    | inl gone ↦ rw gone (remove-IsClean x t.task_id cache c)
    | inr live ↦ rw live (insert-IsClean x t cache live p c)
  ]

  read_line-IsClean :
      (now : ℕ) (line : String) (c : Counts x)
      → IsClean x c.cache
      → IsClean x (read_line serde now line c).cache
  read_line-IsClean now line c h = elim (Bool-cases (is_blank line)) [
    | inl blank ↦ rw (read_nothing serde now line c (inl blank)) h
    | inr text ↦ elim (Option-cases (from_json now line)) [
      | inl e ↦ rw (read_nothing serde now line c (inr e)) h
      | inr (t, e) ↦
          rw (read_task serde now line c t text e)
            (update_cache-IsClean t c.cache (parse-printable now line t e) h)
    ]
  ]

  read_lines-IsClean :
      (clock : ℕ → ℕ) (i : ℕ) (lines : List String) (c : Counts x)
      → IsClean x c.cache
      → IsClean x (read_lines serde clock i lines c).cache
  unfolding read_lines
  read_lines-IsClean clock i [] c h = h
  read_lines-IsClean clock i (line ∷ lines) c h =
      read_lines-IsClean clock (suc i) lines _ (read_line-IsClean (clock i) line c h)

  -- The log replays to the cache, and the cache has live tasks that can be printed, each once.
  pub record IsSound (s : FileStore x) : Type 0 where
    pub valid : IsValid serde s
    pub clean : IsClean x s.tasks_cache

  pub new-IsSound :
      (clock : ℕ → ℕ) (log : Option (List String)) (s : FileStore x)
      → new serde clock false false log ≡ ok s
      → IsSound s
  new-IsSound clock log s e =
      let (logged, cached, ending) = new_ok serde clock log s e in
      record {
        valid = new-IsValid serde clock log s e;
        clean =
            rw cached
              (read_lines-IsClean clock 0 (lines_of log) (no_counts x) (unfold no_counts in tt));
      }

  pub save-IsSound :
      (faults : SaveFaults) (metadata : Option ℕ) (t : Task x) (check : Bool) (s : FileStore x)
      → is_printable x t ≡ true
      → faults.sync ≡ false
      → ((line : String) → faults.torn line ≡ "")
      → IsSound s
      → IsSound (save_task_inner serde faults metadata t check s).1
  save-IsSound faults metadata t check s p synced whole h = record {
    valid = save-IsValid serde faults metadata t check s p synced whole h.valid;
    clean = elim (cache-save serde faults metadata t check s) [
      | inl same ↦ rw same h.clean
      | inr changed ↦ rw changed (update_cache-IsClean t s.tasks_cache p h.clean)
    ];
  }

  pub delete-IsSound :
      (faults : SaveFaults) (now later : ℕ) (task_id : String) (s : FileStore x)
      → faults.sync ≡ false
      → ((line : String) → faults.torn line ≡ "")
      → IsSound s
      → IsSound (delete_task serde faults now later task_id s).1
  unfolding mark_deleted is_printable
  delete-IsSound faults now later task_id s synced whole h =
      elim (delete_cases serde faults now later task_id s) [
        | inl e ↦ rw e h
        | inr (t, found, e) ↦ rw e (
            save-IsSound faults none (mark_deleted x now later t) false s
              (lookup-IsClean x s.tasks_cache task_id t h.clean found) synced whole h)
      ]

  pub compact-IsSound :
      (faults : CompactFaults) (clock : ℕ → ℕ) (s : FileStore x)
      → IsSound s
      → IsSound (compact_log serde faults clock s).1
  compact-IsSound faults clock s h = record {
    valid = compact-IsValid serde faults clock s h.valid;
    clean = elim (compact_cases serde faults clock s) [
      | inl (logged, cached, ending) ↦ rw cached h.clean
      | inr (lines, printed, e, all_printed, logged, cached, ending) ↦
          rw cached (compact_lines-IsClean serde clock 0 lines [] tt)
    ];
  }
