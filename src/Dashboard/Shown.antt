-- ===== src/Dashboard/Shown.antt =====
-- What the dashboard (src/dashboard.rs) shows of a log.
use snerd_rust.Base.{
  ℕ, ◌+◌, ◌≤◌, ◌≡◌, refl, ◌≢◌, ◌∙◌, ap, All, inl, inr, String, Bool, true, false, map, Option, some,
  List, [], ◌∷◌, ◌++◌, arith, if◌then◌else◌, str_eq, eq_iff, length, Table, lookup, values,
  lookup-insert, Bool-cases, Option-cases,
}
use snerd_rust.FileStore.{is_blank}
use snerd_rust.Dashboard.{
  TaskValue, Status, failed, completed, dead_letter, TaskRow, row_of, Stats, dashboard_status,
  has_job_error, count_values, read_line, read_lines, read_deduped_tasks, stats_body,
}

count_bounds :
    (ts : List TaskValue)
    → (count_values ts).processed + (count_values ts).failures ≤ (count_values ts).enqueued
unfolding count_values
count_bounds [] = omega arith
count_bounds (t ∷ ts) = ground (arith, count_bounds ts)

-- The tasks counted as processed or failed are among those counted as enqueued, whatever the files hold.
stats_body_bounds :
    (parse : String → Option TaskValue) (files : List (Option (List String)))
    → (stats_body parse files).processed + (stats_body parse files).failures
      ≤ (stats_body parse files).enqueued
unfolding stats_body
stats_body_bounds parse files = count_bounds (values (read_deduped_tasks parse files))

abbrev pub is_finished : Status → Bool
is_finished completed = true
is_finished _ = false

abbrev pub is_dead : Status → Bool
is_dead dead_letter = true
is_dead _ = false

abbrev pub is_failure : Status → Bool
is_failure dead_letter = true
is_failure failed = true
is_failure _ = false

-- The rows whose status passes the test.
unfoldable pub tally : (Status → Bool) → List TaskRow → ℕ
tally test [] = 0
tally test (row ∷ rows) = (if test row.status then 1 else 0) + tally test rows

-- The rows of `/api/tasks`.
abbrev pub rows : (String → Option TaskValue) → ℕ → List (Option (List String)) → List TaskRow
rows parse now files = map (row_of now) (values (read_deduped_tasks parse files))

-- The counts and the rows of the same tasks.
record Agree (c : Stats) (shown : List TaskRow) : Type 0 where
  enqueued : c.enqueued ≡ length shown
  processed : c.processed ≡ tally is_finished shown
  some_failures : tally is_dead shown ≤ c.failures
  all_failures : c.failures ≤ tally is_failure shown

count_values-Agree : (now : ℕ) (ts : List TaskValue) → Agree (count_values ts) (map (row_of now) ts)
unfolding count_values tally row_of dashboard_status has_job_error
count_values-Agree now [] = omega arith
count_values-Agree now (t ∷ ts) =
    let h = count_values-Agree now ts in
    record {
      enqueued = ground (arith, h.enqueued);
      processed = ground (arith, h.processed);
      some_failures = ground (arith, h.some_failures);
      all_failures = ground (arith, h.all_failures);
    }

-- The two views of the same files agree, at whatever clock: as many tasks are counted as enqueued as there
-- are rows, as many as processed as there are rows shown as completed, and as failed at least those
-- shown as dead letters and at most those shown as failed or as dead letters; and no task is
-- counted as processed and as failed.
pub stats_body-rows :
    (parse : String → Option TaskValue) (now : ℕ) (files : List (Option (List String)))
    → ((stats_body parse files).enqueued ≡ length (rows parse now files))
      × ((stats_body parse files).processed ≡ tally is_finished (rows parse now files))
      × (tally is_dead (rows parse now files) ≤ (stats_body parse files).failures)
      × ((stats_body parse files).failures ≤ tally is_failure (rows parse now files))
      × ((stats_body parse files).processed + (stats_body parse files).failures
          ≤ (stats_body parse files).enqueued)
unfolding stats_body
stats_body-rows parse now files =
    let h = count_values-Agree now (values (read_deduped_tasks parse files)) in
    (h.enqueued, h.processed, h.some_failures, h.all_failures, stats_body_bounds parse files)

module _ (parse : String → Option TaskValue) where
  -- The line is not one of the task's.
  abbrev pub IsForeign : String → String → Type 0
  IsForeign tid line = (t : TaskValue) → parse line ≡ some t → t.task_id ≢ some tid

  read_line_foreign :
      (tid line : String) (m : Table TaskValue)
      → IsForeign tid line
      → lookup tid (read_line parse line m) ≡ lookup tid m
  unfolding read_line
  read_line_foreign tid line m foreign = elim (Option-cases (parse line)) [
    | inl e ↦ ground arith
    | inr (t, e) ↦ elim (Option-cases t.task_id) [
      | inl no_id ↦ ground arith
      | inr (j, id) ↦ elim (Bool-cases (str_eq j tid)) [
        | inl own ↦ absurd (foreign t e (id ∙ ap some ((eq_iff j tid).0 own)))
        | inr other ↦ ground (arith, lookup-insert j tid t m)
      ]
    ]
  ]

  read_lines_foreign :
      (tid : String) (lines : List String) (m : Table TaskValue)
      → All (IsForeign tid) lines
      → lookup tid (read_lines parse lines m) ≡ lookup tid m
  unfolding read_lines
  read_lines_foreign tid [] m foreign = refl
  read_lines_foreign tid (line ∷ lines) m (first, foreign) =
      read_lines_foreign tid lines (read_line parse line m) foreign
      ∙ read_line_foreign tid line m first

  read_lines-append :
      (hs ks : List String) (m : Table TaskValue)
      → read_lines parse (hs ++ ks) m ≡ read_lines parse ks (read_lines parse hs m)
  unfolding read_lines
  read_lines-append [] ks m = refl
  read_lines-append (h ∷ hs) ks m = read_lines-append hs ks (read_line parse h m)

  read_own :
      (tid line : String) (t : TaskValue) (m : Table TaskValue)
      → is_blank line ≡ false
      → parse line ≡ some t
      → t.task_id ≡ some tid
      → lookup tid (read_line parse line m) ≡ some t
  unfolding read_line
  read_own tid line t m text e own = ground (arith, lookup-insert tid tid t m, eq_iff tid tid)

  -- For each task the dashboard shows its last line in the log.
  pub read_deduped_tasks_latest :
      (hs ks : List String) (tid line : String) (t : TaskValue)
      → is_blank line ≡ false
      → parse line ≡ some t
      → t.task_id ≡ some tid
      → All (IsForeign tid) ks
      → lookup tid (read_deduped_tasks parse (some (hs ++ line ∷ ks) ∷ [])) ≡ some t
  unfolding read_deduped_tasks read_lines
  read_deduped_tasks_latest hs ks tid line t text e own foreign =
      ap (lookup tid) (read_lines-append hs (line ∷ ks) [])
      ∙ read_lines_foreign tid ks (read_line parse line (read_lines parse hs [])) foreign
      ∙ read_own tid line t (read_lines parse hs []) text e own
