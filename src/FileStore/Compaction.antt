-- ===== src/FileStore/Compaction.antt =====
-- `compact_log` of src/file_store.rs on the store.
pub mod Clean
pub mod Clock
use snerd_rust.Base.{
  ℕ, zero, suc, ◌+◌, ◌≤◌, ◌<◌, ◌≡◌, refl, sym, ◌∙◌, ap, String, Bool, true, false, Option, none,
  some, List, [], ◌∷◌, arith, if◌then◌else◌, ltb, is_some, eq_iff, str_eq, Table, lookup, insert,
  remove, values, has_key, lookup-insert, lookup-remove, Bool-cases, Option-cases, Result-cases, ok,
  err, inl, inr, ◌⊎◌, ◌>>=◌, ◌>>◌,
}
use snerd_rust.Task.{Externals, Task}
use snerd_rust.FileStore.{
  IoError, is_printable, is_blank, reloaded, Serde, FileStore, Counts, no_counts, update_cache,
  count_task, compact_task, read_line, read_lines, compact_line, compact_lines, print, print_all,
  lines_of, CompactFaults, rewrite_log, compact_log,
}
use snerd_rust.FileStore.Replay.{stable, SameTasks, read_printed}
use snerd_rust.FileStore.Durable.{IsValid, IsDurable, IsPrintableCache}
use snerd_rust.FileStore.Compaction.Clean.{
  IsClean, lookup-IsClean, read_print_all, compact_lines-IsClean,
}
use snerd_rust.FileStore.Compaction.Clock.{compact_lines-eq-read_lines}

module _ {x : Externals} (serde : Serde x) where
  open serde use {to_json, from_json, parse-printable, parse-updated_at}

  -- The log that a compaction leaves is the printed map, and the cache is the map.
  rewrite_ok :
      (faults : CompactFaults) (clock : ℕ → ℕ) (s : FileStore x)
      → (rewrite_log serde faults clock s).0 ≡ ok tt
      → (lines : List String) × (printed : List String) × (s.log ≡ some lines)
        × (print_all serde (values (compact_lines serde clock 0 lines [])) ≡ ok printed)
        × ((rewrite_log serde faults clock s).1.log ≡ some printed)
        × ((rewrite_log serde faults clock s).1.tasks_cache ≡ compact_lines serde clock 0 lines [])
        × ((rewrite_log serde faults clock s).1.unfinished ≡ false)
  unfolding rewrite_log
  rewrite_ok faults clock s h = elim (Option-cases s.log) [
    | inl e ↦ absurd (ground arith)
    | inr (lines, e) ↦
        elim (Result-cases (print_all serde (values (compact_lines serde clock 0 lines [])))) [
          | inl (printed, e') ↦ (lines, printed, e, e', ground arith, ground arith, ground arith)
          | inr (failure, e') ↦ absurd (ground arith)
        ]
  ]

  rewrite_err :
      (faults : CompactFaults) (clock : ℕ → ℕ) (s : FileStore x) (e : IoError)
      → (rewrite_log serde faults clock s).0 ≡ err e
      → rewrite_log serde faults clock s ≡ (err e, s)
  unfolding rewrite_log
  rewrite_err faults clock s e h = elim (Option-cases s.log) [
    | inl e ↦ ground arith
    | inr (lines, e) ↦
        elim (Result-cases (print_all serde (values (compact_lines serde clock 0 lines [])))) [
          | inl (printed, e') ↦ ground arith
          | inr (failure, e') ↦ ground arith
        ]
  ]

  pub compact_cases :
      (faults : CompactFaults) (clock : ℕ → ℕ) (s : FileStore x)
      → ((compact_log serde faults clock s).1.log ≡ s.log)
          × ((compact_log serde faults clock s).1.tasks_cache ≡ s.tasks_cache)
          × ((compact_log serde faults clock s).1.unfinished ≡ s.unfinished)
        ⊎ ((lines : List String) × (printed : List String) × (s.log ≡ some lines)
            × (print_all serde (values (compact_lines serde clock 0 lines [])) ≡ ok printed)
            × ((compact_log serde faults clock s).1.log ≡ some printed)
            × ((compact_log serde faults clock s).1.tasks_cache
                ≡ compact_lines serde clock 0 lines [])
            × ((compact_log serde faults clock s).1.unfinished ≡ false))
  unfolding compact_log
  compact_cases faults clock s = elim (Bool-cases s.compacting) [
    | inl busy ↦ inl (ground arith, ground arith, ground arith)
    | inr idle ↦
        let s' = record s { compacting = true } in
        elim (Result-cases (rewrite_log serde faults clock s').0) [
          | inl (u, done) ↦
              let (lines, printed, e₁, e₂, e₃, e₄, e₅) = rewrite_ok faults clock s' done in
              inr (lines, printed, e₁, e₂, rw (idle, e₃), rw (idle, e₄), rw (idle, e₅))
          | inr (e, failed) ↦
              let unchanged = rewrite_err faults clock s' e failed in
              inl (rw (idle, unchanged), rw (idle, unchanged), rw (idle, unchanged))
        ]
  ]

  empty_lookup :
      (m : Table (Task x)) (id : String)
      → (if has_key id m then lookup id m else none) ≡ lookup id m
  empty_lookup m id = elim (Option-cases (lookup id m)) [
    | inl e ↦ ground arith
    | inr (t, e) ↦ ground arith
  ]

  -- Whatever fails and whatever the clock reads, `compact_log` keeps a valid store valid: the log
  -- that it leaves replays to the cache that it leaves.
  pub compact-IsValid :
      (faults : CompactFaults) (clock : ℕ → ℕ) (s : FileStore x)
      → IsValid serde s
      → IsValid serde (compact_log serde faults clock s).1
  unfolding lines_of no_counts
  compact-IsValid faults clock s v = elim (compact_cases faults clock s) [
    | inl (logged, cached, ending) ↦ record {
      finished = rw ending v.finished;
      durable = rw (logged, cached) v.durable;
      printable = rw cached v.printable;
    }
    | inr (lines, printed, e, all_printed, logged, cached, ending) ↦
        let m = compact_lines serde clock 0 lines [] in
        let clean = compact_lines-IsClean serde clock 0 lines [] tt in
        record {
          finished = ending;
          durable = λ clock' id.
              rw (logged, cached)
                (sym (
                  read_print_all serde clock' 0 m printed (no_counts x) id clean all_printed
                  ∙ ap (stable x) (unfold lookup in empty_lookup m id)));
          printable = rw cached (λ id t. lookup-IsClean x m id t clean);
        }
  ]

  -- With a clock that advances from line to line, `compact_log` loses no update: the cache has
  -- the same tasks as before, up to the two fields that are not in the log.
  pub compact_log-SameTasks :
      (faults : CompactFaults) (clock : ℕ → ℕ) (s : FileStore x)
      → ((i : ℕ) → clock i < clock (suc i))
      → IsValid serde s
      → SameTasks x (compact_log serde faults clock s).1.tasks_cache s.tasks_cache
  unfolding lines_of no_counts lookup
  compact_log-SameTasks faults clock s advances v id = elim (compact_cases faults clock s) [
    | inl (logged, cached, ending) ↦ rw cached refl
    | inr (lines, printed, e, all_printed, logged, cached, ending) ↦
        let same =
          compact_lines-eq-read_lines serde clock advances 0 lines (no_counts x)
            (λ id t h. absurd (cc)) in
        rw (cached, same) (sym (rw e at (v.durable clock id)))
  ]
