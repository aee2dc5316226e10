-- ===== src/Task.antt =====
-- src/task.rs: the task record, its constructor, its retry bookkeeping and its priority.
pub mod Cron
mod Tests
pub mod Sample
use Prim.Native.Nat.{Ordering}
use Prim.Native.String.{◌++◌ as ◌<>◌}
use snerd_rust.Base.{
  ℕ, suc, ◌+◌, ◌-◌, ◌*◌, String, Bool, true, false, Option, none, some, List, if◌then◌else◌, ℤ, pos,
  negsuc, inc_i32,
}
use snerd_rust.Membership.{second}
use snerd_rust.Task.Cron.{parse_cron_syntax}

-- What the program takes from its environment: `f64` with the operations in use, chrono's parser,
-- the cron crate's first tick after an instant, and the hexadecimal xxh64 of a text.
pub record Externals : Type 1 where
  pub F64 : Type 0
  pub zero_score : F64
  pub partial_cmp : F64 → F64 → Option Ordering
  -- `(hours * 3600.0) as i64`
  pub hours_to_seconds : F64 → ℤ
  pub is_finite : F64 → Bool
  -- What serde_json reads where it has printed a finite number: the number itself, or one close to it.
  pub reread : F64 → F64
  pub parse_from_rfc3339 : String → Option ℕ
  pub next_tick : String → ℕ → Option ℕ
  pub xxh64_hex : String → String

pub record JobErrorReturn : Type 0 where
  pub error_string : String
  pub retry_worthy : Bool

-- `i32` fields are ℤ, `u64` fields and instants are ℕ.
pub record RetryableTask (F64 : Type 0) : Type 0 where
  pub task_id : String
  pub retry_count : ℤ
  pub max_retries : ℤ
  pub retry_after_hours : F64
  pub retry_after_time : ℕ
  pub task_data : String
  pub task_type : String
  pub last_error_obj : Option String
  pub last_job_error : Option JobErrorReturn
  pub rate_limit_group : Option String
  pub max_per_minute : Option ℤ
  pub auto_dedupe : Option Bool
  pub urgency_score : Option F64
  pub payload_hash : Option String
  pub deleted_at : Option ℕ
  pub execute_at : ℕ
  pub cron_expression : Option String
  pub webhook_url : Option String
  pub max_execution_seconds : Option ℕ
  pub pool : Option String
  pub trigger_after_ids : Option (List String)
  pub created_at : ℕ
  pub updated_at : ℕ

-- `now + chrono::Duration::seconds(seconds)`. Chrono's panic outside its range is not modelled.
unfoldable pub add_seconds : ℕ → ℤ → ℕ
add_seconds now (pos s) = now + s * second
add_seconds now (negsuc s) = now - suc s * second

unfoldable pub or_false : Option Bool → Bool
or_false none = false
or_false (some b) = b

module _ (x : Externals) where
  open x use {
    F64, zero_score, partial_cmp, hours_to_seconds, parse_from_rfc3339, next_tick, xxh64_hex,
  }

  abbrev pub Task : Type 0
  Task = RetryableTask F64

  -- An explicit time wins, parsed or not; without one a cron expression gives its first tick.
  -- `later` is the second reading of the clock.
  unfoldable pub first_execution : ℕ → ℕ → Option String → Option String → ℕ
  first_execution now later (some exec_str) cron = elim (parse_from_rfc3339 exec_str) [
    | none ↦ now
    | some parsed_time ↦ parsed_time
  ]
  first_execution now later none (some cron_expr) = elim (next_tick cron_expr later) [
    | none ↦ now
    | some next ↦ next
  ]
  first_execution now later none none = now

  unfoldable pub parsed_cron : Option String → Option String
  parsed_cron none = none
  parsed_cron (some c) = some (parse_cron_syntax c)

  -- `RetryableTask::new`; `now` and `later` are the readings of the clock.
  unfoldable pub new :
      (now later : ℕ) (task_id task_type task_data : String) (max_retries : ℤ)
      (retry_after_hours : F64) (rate_limit_group : Option String) (max_per_minute : Option ℤ)
      (auto_dedupe : Option Bool) (urgency_score : Option F64)
      (execute_at_opt cron_opt : Option String) (webhook_url : Option String)
      (max_execution_seconds : Option ℕ) (pool : Option String)
      (trigger_after_ids : Option (List String))
      → Task
  unfolding first_execution parsed_cron or_false
  new now later task_id task_type task_data max_retries retry_after_hours rate_limit_group
        max_per_minute auto_dedupe urgency_score execute_at_opt cron_opt webhook_url
        max_execution_seconds pool trigger_after_ids =
      let cron = parsed_cron cron_opt in
      record {
        task_id = task_id;
        retry_count = pos 0;
        max_retries = max_retries;
        retry_after_hours = retry_after_hours;
        retry_after_time = now;
        task_data = task_data;
        task_type = task_type;
        last_error_obj = none;
        last_job_error = none;
        rate_limit_group = rate_limit_group;
        max_per_minute = max_per_minute;
        auto_dedupe = auto_dedupe;
        urgency_score = urgency_score;
        payload_hash =
            if or_false auto_dedupe then some (xxh64_hex (task_type <> task_data)) else none;
        deleted_at = none;
        execute_at = first_execution now later execute_at_opt cron;
        cron_expression = cron;
        webhook_url = webhook_url;
        max_execution_seconds = max_execution_seconds;
        pool = pool;
        trigger_after_ids = trigger_after_ids;
        created_at = now;
        updated_at = now;
      }

  unfoldable pub mark_deleted : ℕ → ℕ → Task → Task
  mark_deleted now later t = record t { deleted_at = some now; updated_at = later }

  unfoldable pub job_error : Option String → Option JobErrorReturn
  job_error none = none
  job_error (some msg) = some (record { error_string = msg; retry_worthy = true })

  unfoldable pub update_retry_config : ℕ → ℕ → Option String → Task → Task
  unfolding job_error
  update_retry_config now later error_msg t = record t {
    retry_count = inc_i32 t.retry_count;
    retry_after_time = add_seconds now (hours_to_seconds t.retry_after_hours);
    last_error_obj = error_msg;
    last_job_error = job_error error_msg;
    updated_at = later;
  }

  unfoldable pub score : Task → F64
  score t = elim t.urgency_score [ none ↦ zero_score | some s ↦ s ]

  -- `Ord::cmp` of `PriorityTask`
  unfoldable pub cmp : Task → Task → Ordering
  unfolding score
  cmp a b = elim (partial_cmp (score a) (score b)) [ none ↦ Ordering.eq | some o ↦ o ]
