-- ===== src/FileStore/Recovery.antt =====
-- Crash recovery of src/file_store.rs: a store reopened on the log of another has its tasks.
use snerd_rust.Base.{
  ℕ, suc, ◌≡◌, refl, sym, String, ◌∙◌, ap, true, false, Option, none, some, List, [], ◌∷◌, arith,
  All, lookup, Bool-cases, Option-cases, ok, inl, inr, ◌⊎◌,
}
use snerd_rust.Task.{Externals, Task}
use snerd_rust.FileStore.{
  is_printable, is_blank, reloaded, Serde, FileStore, Counts, no_counts, count_task, update_cache,
  read_line, read_lines, new, lines_of, SaveFaults, save_task, delete_task, CompactFaults,
  compact_log,
}
use snerd_rust.FileStore.Replay.{stable, SameTasks, update_cache-SameTasks}
use snerd_rust.FileStore.Durable.{
  IsValid, IsPrintableCache, update_cache-printable, save-IsValid, delete-IsValid,
}
use snerd_rust.FileStore.Compaction.{compact-IsValid}

-- One call on the store, with what fails in it and what the clock reads.
pub data Op (x : Externals) : Type 0 where
  save : SaveFaults → Option ℕ → Task x → Op x
  delete : SaveFaults → ℕ → ℕ → String → Op x
  compact : CompactFaults → (ℕ → ℕ) → Op x

-- The syncs of the log succeed, a write of it that fails leaves nothing, and the saved tasks can be printed.
abbrev pub IsOrdinary : (x : Externals) → Op x → Type 0
IsOrdinary x (save faults _ t) =
    (faults.sync ≡ false) × ((line : String) → faults.torn line ≡ "") × (is_printable x t ≡ true)
IsOrdinary x (delete faults _ _ _) =
    (faults.sync ≡ false) × ((line : String) → faults.torn line ≡ "")
IsOrdinary x (compact _ _) = Unit

module _ {x : Externals} (serde : Serde x) where
  open serde use {from_json, parse-printable, parse-reloaded}

  unfoldable pub step : Op x → FileStore x → FileStore x
  step (save faults metadata t) s = (save_task serde faults metadata t s).1
  step (delete faults now later task_id) s = (delete_task serde faults now later task_id s).1
  step (compact faults clock) s = (compact_log serde faults clock s).1

  unfoldable pub run : List (Op x) → FileStore x → FileStore x
  run [] s = s
  run (op ∷ ops) s = run ops (step op s)

  -- Saves, deletions and compactions, failing or not, keep a valid store valid.
  pub run-IsValid :
      (ops : List (Op x)) (s : FileStore x)
      → All (IsOrdinary x) ops
      → IsValid serde s
      → IsValid serde (run ops s)
  unfolding run step save_task
  run-IsValid [] s o v = v
  run-IsValid (save faults metadata t ∷ ops) s ((synced, whole, p), o) v =
      run-IsValid ops _ o (save-IsValid serde faults metadata t true s p synced whole v)
  run-IsValid (delete faults now later task_id ∷ ops) s ((synced, whole), o) v =
      run-IsValid ops _ o (delete-IsValid serde faults now later task_id s synced whole v)
  run-IsValid (compact faults clock ∷ ops) s (_, o) v =
      run-IsValid ops _ o (compact-IsValid serde faults clock s v)

  module _ (now : ℕ) (line : String) (c : Counts x) where
    pub read_nothing :
        (is_blank line ≡ true) ⊎ (from_json now line ≡ none) → read_line serde now line c ≡ c
    unfolding read_line
    read_nothing (inl blank) = ground arith
    read_nothing (inr e) = ground arith

    pub read_task :
        (t : Task x)
        → is_blank line ≡ false
        → from_json now line ≡ some t
        → (read_line serde now line c).cache ≡ update_cache x t c.cache
    unfolding read_line count_task
    read_task t text e = ground arith

  parse_none :
      (now later : ℕ) (line : String) → from_json now line ≡ none → from_json later line ≡ none
  parse_none now later line e = elim (Option-cases (from_json later line)) [
    | inl e' ↦ e'
    | inr (t, e') ↦ absurd (cc (parse-reloaded later now line t e'))
  ]

  -- The clock does not show in what a line does to the cache.
  read_line-SameTasks :
      (now later : ℕ) (line : String) (c c' : Counts x)
      → SameTasks x c.cache c'.cache
      → SameTasks x (read_line serde now line c).cache (read_line serde later line c').cache
  unfolding reloaded
  read_line-SameTasks now later line c c' h = elim (Bool-cases (is_blank line)) [
    | inl blank ↦ rw (read_nothing now line c (inl blank), read_nothing later line c' (inl blank)) h
    | inr text ↦ elim (Option-cases (from_json now line)) [
      | inl e ↦
          rw
            (
              read_nothing now line c (inr e),
              read_nothing later line c' (inr (parse_none now later line e)),
            )
            h
      | inr (t, e) ↦
          rw
            (
              read_task now line c t text e,
              read_task later line c' (reloaded x later t) text (parse-reloaded now later line t e),
            )
            (update_cache-SameTasks x t (reloaded x later t) c.cache c'.cache refl h)
    ]
  ]

  read_lines-SameTasks :
      (clock clock' : ℕ → ℕ) (i : ℕ) (lines : List String) (c c' : Counts x)
      → SameTasks x c.cache c'.cache
      → SameTasks x
          (read_lines serde clock i lines c).cache
          (read_lines serde clock' i lines c').cache
  unfolding read_lines
  read_lines-SameTasks clock clock' i [] c c' h = h
  read_lines-SameTasks clock clock' i (line ∷ lines) c c' h =
      read_lines-SameTasks clock clock' (suc i) lines _ _
        (read_line-SameTasks (clock i) (clock' i) line c c' h)

  read_line-printable :
      (now : ℕ) (line : String) (c : Counts x)
      → IsPrintableCache x c.cache
      → IsPrintableCache x (read_line serde now line c).cache
  read_line-printable now line c h = elim (Bool-cases (is_blank line)) [
    | inl blank ↦ rw (read_nothing now line c (inl blank)) h
    | inr text ↦ elim (Option-cases (from_json now line)) [
      | inl e ↦ rw (read_nothing now line c (inr e)) h
      | inr (t, e) ↦
          rw (read_task now line c t text e)
            (update_cache-printable serde t c.cache (parse-printable now line t e) h)
    ]
  ]

  read_lines-printable :
      (clock : ℕ → ℕ) (i : ℕ) (lines : List String) (c : Counts x)
      → IsPrintableCache x c.cache
      → IsPrintableCache x (read_lines serde clock i lines c).cache
  unfolding read_lines
  read_lines-printable clock i [] c h = h
  read_lines-printable clock i (line ∷ lines) c h =
      read_lines-printable clock (suc i) lines _ (read_line-printable (clock i) line c h)

  pub new_ok :
      (clock : ℕ → ℕ) (log : Option (List String)) (s : FileStore x)
      → new serde clock false false log ≡ ok s
      → (s.log ≡ log)
        × (s.tasks_cache ≡ (read_lines serde clock 0 (lines_of log) (no_counts x)).cache)
        × (s.unfinished ≡ false)
  unfolding new lines_of
  new_ok clock none s e = (ground arith, ground arith, ground arith)
  new_ok clock (some lines) s e = (ground arith, ground arith, ground arith)

  pub new_total :
      (clock : ℕ → ℕ) (log : Option (List String))
      → (s : FileStore x) × (new serde clock false false log ≡ ok s)
  unfolding new
  new_total clock none = (_, refl)
  new_total clock (some lines) = (_, refl)

  empty_printable : IsPrintableCache x (no_counts x).cache
  unfolding no_counts lookup
  empty_printable id t e = absurd (cc)

  -- A store opened on any log is valid.
  pub new-IsValid :
      (clock : ℕ → ℕ) (log : Option (List String)) (s : FileStore x)
      → new serde clock false false log ≡ ok s
      → IsValid serde s
  new-IsValid clock log s e =
      let (logged, cached, ending) = new_ok clock log s e in
      record {
        finished = ending;
        durable = λ clock'.
            rw (logged, cached)
              (read_lines-SameTasks clock clock' 0 (lines_of log) (no_counts x) (no_counts x)
                (λ id. refl));
        printable =
            rw cached (read_lines-printable clock 0 (lines_of log) (no_counts x) empty_printable);
      }

  -- A valid store can be opened again, and has its tasks.
  pub reopens :
      (clock : ℕ → ℕ) (s : FileStore x)
      → IsValid serde s
      → (s' : FileStore x) × (new serde clock false s.unfinished s.log ≡ ok s')
        × SameTasks x s'.tasks_cache s.tasks_cache
  reopens clock s v =
      let (s', e) = new_total clock s.log in
      (
        s',
        rw v.finished e,
        λ id. sym (
            v.durable clock id
            ∙ ap (λ c. stable x (lookup id c)) (sym (new_ok clock s.log s' e).1)),
      )
