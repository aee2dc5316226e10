-- ===== src/Task/Sample.antt =====
-- Concrete externals and tasks, for the tests of the other modules: `f64` as whole numbers of hours.
use Prim.Native.Nat.{compare}
use snerd_rust.Base.{ℕ, ◌*◌, String, true, Option, none, some, List, pos}
use snerd_rust.Task.{Externals, Task}

abbrev pub sample : Externals
sample = record {
  F64 = ℕ;
  zero_score = 0;
  partial_cmp = λ a b. some (compare a b);
  hours_to_seconds = λ hours. pos (hours * 3600);
  is_finite = λ _. true;
  reread = λ hours. hours;
  parse_from_rfc3339 = λ _. none;
  next_tick = λ _ _. none;
  xxh64_hex = λ s. s;
}

-- A live task with its dependencies.
abbrev pub task : String → Option (List String) → Task sample
task id deps = record {
  task_id = id;
  retry_count = pos 0;
  max_retries = pos 2;
  retry_after_hours = 1;
  retry_after_time = 0;
  task_data = "{}";
  task_type = "mail";
  last_error_obj = none;
  last_job_error = none;
  rate_limit_group = none;
  max_per_minute = none;
  auto_dedupe = none;
  urgency_score = none;
  payload_hash = none;
  deleted_at = none;
  execute_at = 0;
  cron_expression = none;
  webhook_url = none;
  max_execution_seconds = none;
  pool = none;
  trigger_after_ids = deps;
  created_at = 0;
  updated_at = 0;
}
