-- ===== src/Dashboard.antt =====
-- src/dashboard.rs: the latest line of each task, the status that is shown for it, the rows and the
-- counts. Ring has the progress events, Server the HTTP server.
pub mod Ring
pub mod Server
pub mod Shown
mod Tests
use Prim.Native.String.{◌++◌ as ◌<>◌}
use mathlib.Core.Option
use snerd_rust.Base.{
  ℕ, suc, ◌+◌, ◌-◌, ◌≡◌, String, Bool, true, false, ◌&&◌, ◌||◌, Option, none, some, List, [], ◌∷◌,
  ◌++◌, if◌then◌else◌, ltb, leb, is_some, map, decimal, length, Table, insert, values, ℤ, pos,
  leb_ℤ,
}
use snerd_rust.FileStore.{is_blank}
use snerd_rust.Task.{RetryableTask}

-- What the code reads of a JSON value: a string under `taskId`, whether there is a `LastJobError` or
-- `lastJobError`, a `deletedAt` that is not null, integers, and an `executeAt` that parses as a time.
-- A value that is only copied is its JSON text.
pub record TaskValue : Type 0 where
  pub task_id : Option String
  pub upper_job_error : Bool
  pub lower_job_error : Bool
  pub deleted : Bool
  pub retry_count : Option ℤ
  pub max_retries : Option ℤ
  pub execute_at : Option ℕ
  pub retry_after_time : Option String
  pub task_type : Option String
  pub cron_expression : Option String
  pub webhook_url : Option String
  pub max_execution_seconds : Option String

-- How serde_json prints texts, numbers and times.
pub record Printer : Type 0 where
  pub text : String → String
  pub number : ℕ → String
  pub rfc3339 : ℕ → String

-- The value that serde_json prints for a task: options that are `None` are left out.
unfoldable pub value_of : {F64 : Type 0} → Printer → RetryableTask F64 → TaskValue
value_of p t = record {
  task_id = some t.task_id;
  upper_job_error = is_some t.last_job_error;
  lower_job_error = false;
  deleted = is_some t.deleted_at;
  retry_count = some t.retry_count;
  max_retries = some t.max_retries;
  execute_at = some t.execute_at;
  retry_after_time = some (p.rfc3339 t.retry_after_time);
  task_type = some (p.text t.task_type);
  cron_expression = Option.map p.text t.cron_expression;
  webhook_url = Option.map p.text t.webhook_url;
  max_execution_seconds = Option.map p.number t.max_execution_seconds;
}

pub data Status : Type 0 where
  dead_letter failed completed active queued : Status

unfoldable pub or_zero : Option ℤ → ℤ
or_zero none = pos 0
or_zero (some n) = n

unfoldable pub has_job_error : TaskValue → Bool
has_job_error t = t.upper_job_error || t.lower_job_error

unfoldable pub is_reached : ℕ → Option ℕ → Bool
is_reached now none = false
is_reached now (some et) = leb et now

unfoldable pub dashboard_status : ℕ → TaskValue → Status
unfolding has_job_error or_zero is_reached
dashboard_status now t =
    if t.deleted
    then (if has_job_error t && leb_ℤ (or_zero t.max_retries) (or_zero t.retry_count)
        then dead_letter
        else if has_job_error t
        then failed
        else completed)
    else if has_job_error t
    then failed
    else if is_reached now t.execute_at
    then active
    else queued

-- A row of `/api/tasks`; the copies are JSON texts, `null` where the line has no such field.
pub record TaskRow : Type 0 where
  pub id : Option String
  pub kind : String
  pub status : Status
  pub progress : ℕ
  pub retry_count : ℤ
  pub max_retries : ℤ
  pub retry_after_time : String
  pub cron_expression : String
  pub webhook_url : String
  pub max_execution_seconds : String

unfoldable pub or_text : String → Option String → String
or_text default none = default
or_text default (some text) = text

unfoldable pub row_of : ℕ → TaskValue → TaskRow
unfolding or_text or_zero
row_of now t = record {
  id = t.task_id;
  kind = or_text "null" t.task_type;
  status = dashboard_status now t;
  progress = 0;
  retry_count = or_zero t.retry_count;
  max_retries = or_zero t.max_retries;
  retry_after_time = or_text "" t.retry_after_time;
  cron_expression = or_text "null" t.cron_expression;
  webhook_url = or_text "null" t.webhook_url;
  max_execution_seconds = or_text "null" t.max_execution_seconds;
}

pub record Stats : Type 0 where
  pub enqueued : ℕ
  pub processed : ℕ
  pub failures : ℕ

-- The counts over the latest lines.
unfoldable pub count_values : List TaskValue → Stats
unfolding has_job_error
count_values [] = record { enqueued = 0; processed = 0; failures = 0 }
count_values (t ∷ ts) =
    let c = count_values ts in
    if t.deleted
    then (if has_job_error t
        then record c { enqueued = suc c.enqueued; failures = suc c.failures }
        else record c { enqueued = suc c.enqueued; processed = suc c.processed })
    else record c { enqueued = suc c.enqueued }

module _ (parse : String → Option TaskValue) where
  unfoldable pub read_line : String → Table TaskValue → Table TaskValue
  read_line line tasks_map = if is_blank line then tasks_map else elim (parse line) [
    | none ↦ tasks_map
    | some t ↦ elim t.task_id [ none ↦ tasks_map | some tid ↦ insert tid t tasks_map ]
  ]

  unfoldable pub read_lines : List String → Table TaskValue → Table TaskValue
  unfolding read_line
  read_lines [] tasks_map = tasks_map
  read_lines (line ∷ lines) tasks_map = read_lines lines (read_line line tasks_map)

  -- A file that cannot be opened is left out.
  unfoldable pub read_files : List (Option (List String)) → Table TaskValue → Table TaskValue
  unfolding read_lines
  read_files [] tasks_map = tasks_map
  read_files (none ∷ files) tasks_map = read_files files tasks_map
  read_files (some lines ∷ files) tasks_map = read_files files (read_lines lines tasks_map)

  -- `read_deduped_tasks_multiple`
  unfoldable pub read_deduped_tasks : List (Option (List String)) → Table TaskValue
  unfolding read_files
  read_deduped_tasks files = read_files files []

  -- The counts of `stats_body_multiple`.
  unfoldable pub stats_body : List (Option (List String)) → Stats
  unfolding read_deduped_tasks count_values
  stats_body files = count_values (values (read_deduped_tasks files))

  -- `tasks_body_multiple`; `print` is serde_json's `to_string` of the rows.
  unfoldable pub tasks_body :
      (List TaskRow → Option String) → ℕ → List (Option (List String)) → String
  unfolding or_text
  tasks_body print now files =
      or_text "[]" (print (map (row_of now) (values (read_deduped_tasks files))))

-- The text of `stats_body_multiple`.
unfoldable pub stats_text : Stats → String
stats_text c =
    "{\"enqueued\":"
    <> (decimal c.enqueued
        <> (",\"processed\":"
            <> (decimal c.processed <> (",\"failed\":" <> (decimal c.failures <> "}")))))
