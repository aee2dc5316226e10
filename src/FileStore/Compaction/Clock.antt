-- ===== src/FileStore/Compaction/Clock.antt =====
-- `compact_log` of src/file_store.rs picks the later of two lines by a field that is not in the
-- log, so by the readings of the clock while it reads the lines.
use snerd_rust.Base.{
  ℕ, suc, ◌≤◌, ◌<◌, ◌≡◌, refl, sym, ◌∙◌, ap, String, false, none, some, List, [], ◌∷◌, arith,
  eq_iff, str_eq, Table, lookup, insert, lookup-insert, lookup-remove, Bool-cases, Option-cases,
  inl, inr,
}
use snerd_rust.Task.{Externals, Task}
use snerd_rust.FileStore.{
  is_blank, Serde, Counts, no_counts, update_cache, count_task, compact_task, read_line, read_lines,
  compact_line, compact_lines,
}
use snerd_rust.FileStore.Compaction.Clean.{compact_line_cases}

module _ {x : Externals} (serde : Serde x) where
  open serde use {to_json, from_json, parse-printable, parse-updated_at}

  -- Every task of the map was read before `now`.
  abbrev pub Before : ℕ → Table (Task x) → Type 0
  Before now m = (id : String) (t : Task x) → lookup id m ≡ some t → t.updated_at < now

  compact_line-eq-read_line :
      (now : ℕ) (line : String) (c : Counts x)
      → Before now c.cache
      → compact_line serde now line c.cache ≡ (read_line serde now line c).cache
  unfolding compact_line compact_task read_line count_task update_cache
  compact_line-eq-read_line now line c before = elim (Option-cases (from_json now line)) [
    | inl e ↦ ground arith
    | inr (t, e) ↦ elim (Option-cases (lookup t.task_id c.cache)) [
      | inl new ↦ ground arith
      | inr (u, old) ↦ ground (arith, before t.task_id u old, parse-updated_at now line t e)
    ]
  ]

  Before-compact_line :
      (now next : ℕ) (line : String) (m : Table (Task x))
      → now < next
      → Before now m
      → Before next (compact_line serde now line m)
  Before-compact_line now next line m later before id t found =
      elim (compact_line_cases serde now line m) [
        | inl e ↦ omega (arith, before id t (sym (ap (lookup id) e) ∙ found))
        | inr (inl (k, e)) ↦
            let kept : lookup id m ≡ some t =
              ground (arith, lookup-remove k id m, ap (lookup id) e) in
            omega (arith, before id t kept)
        | inr (inr (u, parsed, live, e)) ↦ elim (Bool-cases (str_eq u.task_id id)) [
          | inl new ↦
              let same : u ≡ t = ground (arith, lookup-insert u.task_id id u m, ap (lookup id) e) in
              omega
                (arith, parse-updated_at now line u parsed, ap (λ (v : Task x). v.updated_at) same)
          | inr other ↦
              let kept : lookup id m ≡ some t =
                ground (arith, lookup-insert u.task_id id u m, ap (lookup id) e) in
              omega (arith, before id t kept)
        ]
      ]

  -- With a clock that advances from line to line, compaction keeps exactly the tasks that a
  -- replay of the log at the same readings keeps.
  pub compact_lines-eq-read_lines :
      (clock : ℕ → ℕ)
      → ((i : ℕ) → clock i < clock (suc i))
      → (i : ℕ) (lines : List String) (c : Counts x) → Before (clock i) c.cache
      → compact_lines serde clock i lines c.cache ≡ (read_lines serde clock i lines c).cache
  unfolding compact_lines read_lines
  compact_lines-eq-read_lines clock advances i [] c before = refl
  compact_lines-eq-read_lines clock advances i (line ∷ lines) c before =
      let same = compact_line-eq-read_line (clock i) line c before in
      rw same (
        compact_lines-eq-read_lines clock advances (suc i) lines (read_line serde (clock i) line c)
          (rw (← same)
            (Before-compact_line (clock i) (clock (suc i)) line c.cache (advances i) before)))

  -- Where the clock has not advanced between two lines for one task, both live, compaction keeps
  -- the task of the older line, and a replay of the log keeps that of the newer one.
  pub compact_lines_stalled :
      (clock : ℕ → ℕ) (a b : String) (t u : Task x)
      → clock 1 ≤ clock 0
      → (is_blank a ≡ false) × (from_json (clock 0) a ≡ some t) × (t.deleted_at ≡ none)
      → (is_blank b ≡ false) × (from_json (clock 1) b ≡ some u) × (u.deleted_at ≡ none)
      → t.task_id ≡ u.task_id
      → (lookup t.task_id (compact_lines serde clock 0 (a ∷ b ∷ []) []) ≡ some t)
        × (lookup t.task_id (read_lines serde clock 0 (a ∷ b ∷ []) (no_counts x)).cache ≡ some u)
  unfolding compact_lines read_lines compact_line compact_task read_line count_task update_cache
      no_counts insert lookup
  compact_lines_stalled clock a b t u stalled (text, parsed, live) (text', parsed', live') same =
      let first = parse-updated_at (clock 0) a t parsed in
      let second = parse-updated_at (clock 1) b u parsed' in
      (
        ground (arith, eq_iff t.task_id t.task_id, eq_iff t.task_id u.task_id),
        ground (arith, eq_iff t.task_id t.task_id, eq_iff t.task_id u.task_id),
      )
