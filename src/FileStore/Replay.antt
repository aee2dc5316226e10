-- ===== src/FileStore/Replay.antt =====
-- What a replay of the task log (src/file_store.rs, `rebuild_metadata`) makes of printed tasks.
use snerd_rust.Base.{
  ℕ, suc, ◌≡◌, refl, ap, String, true, Option, none, some, List, [], ◌∷◌, ◌++◌, arith, Table,
  lookup, lookup-insert, lookup-remove,
}
use snerd_rust.Task.{Externals, Task}
use snerd_rust.FileStore.{
  is_printable, reloaded, reparsed, reread_or_none, Serde, Counts, update_cache, count_task,
  read_line, read_lines,
}

module _ (x : Externals) where
  -- Two tasks, or none, up to the two fields that are not in the log, and to the rounding of their `f64`s.
  abbrev pub unrounded : Option x.F64 → Option x.F64
  unrounded none = none
  unrounded (some _) = some x.zero_score

  abbrev pub stable : Option (Task x) → Option (Task x)
  stable none = none
  stable (some t) = some (record t {
    retry_after_hours = x.zero_score;
    urgency_score = unrounded t.urgency_score;
    created_at = 0;
    updated_at = 0;
  })

  unrounded-reread : (score : Option x.F64) → unrounded (reread_or_none x score) ≡ unrounded score
  unfolding reread_or_none
  unrounded-reread none = refl
  unrounded-reread (some s) = refl

  pub stable-reparsed :
      (now : ℕ) (t : Task x) → stable (some (reloaded x now (reparsed x t))) ≡ stable (some t)
  unfolding reloaded reparsed
  stable-reparsed now t =
      ap
        (λ score. some (record t {
          retry_after_hours = x.zero_score;
          urgency_score = score;
          created_at = 0;
          updated_at = 0;
        }))
        (unrounded-reread t.urgency_score)

  -- The caches hold the same tasks, up to `created_at` and `updated_at` and the rounding of `f64`s.
  abbrev pub SameTasks : Table (Task x) → Table (Task x) → Type 0
  SameTasks a b = (id : String) → stable (lookup id a) ≡ stable (lookup id b)

  pub update_cache-SameTasks :
      (t t' : Task x) (a b : Table (Task x))
      → stable (some t) ≡ stable (some t')
      → SameTasks a b
      → SameTasks (update_cache x t a) (update_cache x t' b)
  unfolding update_cache
  update_cache-SameTasks t t' a b same h id = ground (
    arith,
    h id,
    lookup-insert t.task_id id t a,
    lookup-insert t'.task_id id t' b,
    lookup-remove t.task_id id a,
    lookup-remove t'.task_id id b,
  )

module _ {x : Externals} (serde : Serde x) where
  open serde use {to_json, from_json, parse-print, print-not_blank}

  -- A printed line is read as one update of the cache.
  pub read_printed :
      (t : Task x) (line : String) (now : ℕ) (c : Counts x)
      → is_printable x t ≡ true
      → to_json t ≡ some line
      → (read_line serde now line c).cache ≡ update_cache x (reloaded x now (reparsed x t)) c.cache
  unfolding read_line count_task
  read_printed t line now c p e =
      ground (arith, parse-print t line now p e, print-not_blank t line e)

  pub read_lines-append :
      (clock : ℕ → ℕ) (i : ℕ) (lines : List String) (line : String) (c : Counts x)
      → (j : ℕ) × (read_lines serde clock i (lines ++ line ∷ []) c
          ≡ read_line serde (clock j) line (read_lines serde clock i lines c))
  unfolding read_lines
  read_lines-append clock i [] line c = (i, refl)
  read_lines-append clock i (l ∷ lines) line c =
      read_lines-append clock (suc i) lines line (read_line serde (clock i) l c)
