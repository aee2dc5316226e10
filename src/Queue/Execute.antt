-- ===== src/Queue/Execute.antt =====
-- From the pop of a task to the end of its execution, in src/queue.rs.
use Prim.Native.String.{◌++◌ as ◌<>◌}
use snerd_rust.Base.{
  ℕ, suc, ◌+◌, String, Bool, true, false, Option, none, some, List, [], ◌∷◌, if◌then◌else◌, decimal,
  has_key, contains, without, Table, lookup, insert, Result, ok, err, pos, ltb_ℤ, dec_i32,
}
use snerd_rust.Task.{Externals, Task, RetryableTask, add_seconds, update_retry_config, mark_deleted}
use snerd_rust.FileStore.{Serde, SaveFaults, read_tasks, save_task, delete_task}
use snerd_rust.RateLimiter.{Codec, Faults, check_and_increment}
use snerd_rust.Queue.{SnerdQueue}
use snerd_rust.Queue.Schedule.{drop_permit}

-- What becomes of a popped task: put off by its rate limit, dropped since its id is executing
-- already, or spawned.
pub data Turn : Type 0 where
  put_off skipped spawned : Turn

-- What a webhook answers, and what a handler does.
pub data Response : Type 0 where
  success timed_out : Response
  status : String → Response
  failed : String → Response
  panicked : String → Response

pub data Handled : Type 0 where
  returned : Result String (Unit {0}) → Handled
  panicked : String → Handled
  late : Handled

-- The environment of an execution: the webhook's answer, and the registered handlers by task type.
pub record World (x : Externals) : Type 0 where
  pub post : String → Task x → Response
  pub task_handlers : Table (String → Handled)

unfoldable pub secs_of : Option ℕ → ℕ
secs_of none = 0
secs_of (some secs) = secs

unfoldable pub webhook_result : Option ℕ → Response → Result String (Unit {0})
unfolding secs_of
webhook_result secs success = ok tt
webhook_result secs (status code) = err ("Webhook returned non-2xx status: " <> code)
webhook_result secs timed_out =
    err ("Webhook execution timed out after " <> decimal (secs_of secs) <> " seconds")
webhook_result secs (failed e) = err ("Webhook request failed: " <> e)
webhook_result secs (Response.panicked e) = err ("Webhook task panic: " <> e)

unfoldable pub handler_result : Option ℕ → Handled → Result String (Unit {0})
unfolding secs_of
handler_result secs (returned result) = result
handler_result secs (Handled.panicked e) = err ("Task panic: " <> e)
handler_result secs late =
    err ("Task execution timed out after " <> decimal (secs_of secs) <> " seconds")

unfoldable pub depends_on : {F64 : Type 0} → String → RetryableTask F64 → Bool
depends_on id t = elim t.trigger_after_ids [ none ↦ false | some deps ↦ contains deps id ]

unfoldable pub children :
    {F64 : Type 0} → String → List (RetryableTask F64) → List (RetryableTask F64)
unfolding depends_on
children id [] = []
children id (t ∷ ts) = let rest = children id ts in if depends_on id t then t ∷ rest else rest

-- The task of a run by a schedule, for its next tick.
unfoldable pub rescheduled : {F64 : Type 0} → ℕ → RetryableTask F64 → RetryableTask F64
rescheduled next t = record t {
  execute_at = next;
  retry_count = pos 0;
  last_error_obj = none;
  last_job_error = none;
}

module _ (x : Externals) where
  -- The task of a child that a parent has failed.
  unfoldable pub blocked : (ℕ → ℕ) → String → Task x → Task x
  blocked clock id t =
      mark_deleted x (clock 2) (clock 3)
        (update_retry_config x (clock 0) (clock 1) (some ("blocked_by_failed_parent: " <> id)) t)

  -- The next tick of the task's schedule, if it has one.
  unfoldable pub next_run : ℕ → Task x → Option ℕ
  next_run now t = elim t.cron_expression [
    | none ↦ none
    | some cron_expr ↦ x.next_tick cron_expr now
  ]

module _ {x : Externals} where
  -- `none`: neither a webhook nor a handler.
  unfoldable pub attempt : World x → Task x → Option (Result String (Unit {0}))
  unfolding webhook_result handler_result
  attempt world t = elim t.webhook_url [
    | some url ↦ some (webhook_result t.max_execution_seconds (world.post url t))
    | none ↦ elim (lookup t.task_type world.task_handlers) [
      | none ↦ none
      | some h ↦ some (handler_result t.max_execution_seconds (h t.task_data))
    ]
  ]

  -- `drop` of the `ExecutingGuard`
  unfoldable pub drop_guard : {Limits : Type 0} → Task x → SnerdQueue x Limits → SnerdQueue x Limits
  drop_guard t q = record q { executing_tasks = without t.task_id q.executing_tasks }

  -- Whether the execution is given up before it starts: its id is completed.
  unfoldable pub is_completed : {Limits : Type 0} → Task x → SnerdQueue x Limits → Bool
  is_completed t q = has_key t.task_id q.completed_tasks

module _ {x : Externals} (serde : Serde x) (codec : Codec) where
  abbrev pub Queue : Type 0
  Queue = SnerdQueue x codec.Raw

  -- Whether the rate limit lets the task run. A limiter that fails counts as a refusal.
  unfoldable pub rate_check : Faults codec.Raw → ℕ → Task x → Queue → Bool × Queue
  rate_check faults now t q = elim t.rate_limit_group [
    | none ↦ (true, q)
    | some group ↦ elim t.max_per_minute [
      | none ↦ (true, q)
      | some limit ↦
          let (answer, limits) = check_and_increment codec faults group limit now q.rate_limits in
          (elim answer [ ok allow ↦ allow | err _ ↦ false ], record q { rate_limits = limits })
    ]
  ]

  -- `let _ = q.file_store.save_task(…)`
  unfoldable pub save_quietly : SaveFaults → Option ℕ → Task x → Queue → Queue
  save_quietly faults metadata t q = record q {
    file_store = (save_task serde faults metadata t q.file_store).1;
  }

  unfoldable pub put_off_task : SaveFaults → Option ℕ → ℕ → Task x → Queue → Queue
  unfolding save_quietly
  put_off_task faults metadata now t q =
      let q' =
        save_quietly faults metadata (record t { retry_after_time = add_seconds now (pos 60) }) q in
      record q' { queued_tasks = without t.task_id q'.queued_tasks }

  -- From queued to executing, under both locks.
  unfoldable pub move_to_executing : String → Task x → Queue → Turn × Queue
  move_to_executing pool t q =
      let q' = record q { queued_tasks = without t.task_id q.queued_tasks } in
      if contains q.executing_tasks t.task_id
      then (skipped, drop_permit pool q')
      else (spawned, record q' { executing_tasks = t.task_id ∷ q.executing_tasks })

  -- What a dispatcher does with the task it has popped.
  unfoldable pub dispatch :
      Faults codec.Raw → SaveFaults → Option ℕ → (ℕ → ℕ) → String → Task x → Queue → Turn × Queue
  unfolding rate_check put_off_task move_to_executing
  dispatch limiter faults metadata clock pool t q =
      let (allowed, q') = rate_check limiter (clock 0) t q in
      if allowed
      then move_to_executing pool t q'
      else (put_off, drop_permit pool (put_off_task faults metadata (clock 1) t q'))

  unfoldable pub forget_hash : Task x → Queue → Queue
  forget_hash t q = elim t.payload_hash [
    | none ↦ q
    | some hash ↦ record q { active_hashes = without hash q.active_hashes }
  ]

  -- `instant` is the reading of the monotonic clock.
  unfoldable pub complete : SaveFaults → (ℕ → ℕ) → ℕ → Task x → Queue → Queue
  unfolding forget_hash
  complete faults clock instant t q =
      let store = (delete_task serde faults (clock 0) (clock 1) t.task_id q.file_store).1 in
      forget_hash t (record q {
        completed_tasks = insert t.task_id instant q.completed_tasks;
        file_store = store;
      })

  -- `faults i` is what fails in the save of child `i`.
  unfoldable pub fail_children : (ℕ → SaveFaults) → (ℕ → ℕ) → String → List (Task x) → Queue → Queue
  unfolding save_quietly blocked
  fail_children faults clock id [] q = q
  fail_children faults clock id (child ∷ kids) q =
      fail_children (λ i. faults (suc i)) (λ i. clock (4 + i)) id kids
        (save_quietly (faults 0) none (blocked x clock id child) q)

  unfoldable pub on_success : SaveFaults → Option ℕ → (ℕ → ℕ) → ℕ → Task x → Queue → Queue
  unfolding save_quietly complete rescheduled next_run
  on_success faults metadata clock instant t q = elim (next_run x (clock 0) t) [
    | some next ↦ save_quietly faults metadata (rescheduled next t) q
    | none ↦ complete faults (λ i. clock (suc i)) instant t q
  ]

  -- The dead-letter webhook or handler is told after the children are failed; it changes nothing. What
  -- fails is `faults 0` for the task's own save or deletion, and `faults (1 + i)` for that of child `i`.
  unfoldable pub on_failure :
      (ℕ → SaveFaults) → Option ℕ → (ℕ → ℕ) → ℕ → String → Task x → Queue → Queue
  unfolding save_quietly complete fail_children children read_tasks
  on_failure faults metadata clock instant e t q =
      if ltb_ℤ t.retry_count (dec_i32 t.max_retries)
      then save_quietly (faults 0) metadata (update_retry_config x (clock 0) (clock 1) (some e) t) q
      else complete (faults 0) clock instant t (
          fail_children (λ i. faults (suc i)) (λ i. clock (2 + i)) t.task_id
            (children t.task_id (read_tasks q.file_store)) q)

  -- The end of an execution: what the attempt gave is noted, and the guard is dropped.
  unfoldable pub finish_task :
      (ℕ → SaveFaults)
      → Option ℕ
      → (ℕ → ℕ)
      → ℕ
      → Option (Result String (Unit {0}))
      → Task x
      → Queue
      → Queue
  unfolding on_success on_failure drop_guard
  finish_task faults metadata clock instant none t q = drop_guard t q
  finish_task faults metadata clock instant (some (ok _)) t q =
      drop_guard t (on_success (faults 0) metadata clock instant t q)
  finish_task faults metadata clock instant (some (err e)) t q =
      drop_guard t (on_failure faults metadata clock instant e t q)

  -- `execute_task` without interruption, then the drop of the permit.
  unfoldable pub execute_task :
      World x → (ℕ → SaveFaults) → Option ℕ → (ℕ → ℕ) → ℕ → String → Task x → Queue → Queue
  unfolding attempt is_completed finish_task
  execute_task world faults metadata clock instant pool t q =
      if is_completed t q
      then drop_permit pool q
      else drop_permit pool (finish_task faults metadata clock instant (attempt world t) t q)
