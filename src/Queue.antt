-- ===== src/Queue.antt =====
-- src/queue.rs: the state of an engine over one task log, its construction, and `enqueue`. A
-- mutex that a panic has poisoned is not modelled.
pub mod Schedule
pub mod Execute
pub mod Acyclic
pub mod Race
pub mod Keeps
pub mod Count
pub mod Frame
pub mod Run
pub mod Attempts
pub mod Saves
pub mod Due
pub mod Stuck
pub mod Priority
pub mod Children
pub mod Enqueue
pub mod Sample
mod Tests
use snerd_rust.Base.{
  ℕ, zero, suc, ◌-◌, ◌*◌, ◌≡◌, String, Bool, true, false, Option, none, some, List, [], ◌∷◌,
  if◌then◌else◌, ltb, has_key, is_some, contains, without, Table, lookup, insert, remove, Result,
  ok, err,
}
use snerd_rust.Membership.{second}
use snerd_rust.Task.{Externals, Task, RetryableTask}
use snerd_rust.FileStore.{IoError, Serde, FileStore, SaveFaults, read_tasks, save_task}
use snerd_rust.FileStore.Cycle.{Outcome, finished, out_of_fuel, detect_cycle}

-- `COMPLETED_TTL`
abbrev pub completed_ttl : ℕ
completed_ttl = 60 * second

-- A pool maps to its free permits in `worker_pools`, to its heap in `shared_pqs` (in no order: `pop`
-- looks for the greatest), and to the number of its dispatchers in `dispatcher_counts`. `Limits`
-- is the content of the rate limiter's file.
pub record SnerdQueue (x : Externals) (Limits : Type 0) : Type 0 where
  pub file_store : FileStore x
  pub rate_limits : Limits
  pub active_hashes : List String
  pub executing_tasks : List String
  pub queued_tasks : List String
  pub completed_tasks : Table ℕ
  pub worker_pools : Table ℕ
  pub shared_pqs : Table (List (Task x))
  pub dispatcher_counts : Table ℕ

pub data QueueError : Type 0 where
  invalid_input : String → QueueError
  io_error : IoError → QueueError
  diverged : QueueError

-- `retain` on the completed tasks.
unfoldable pub evict_expired_completed : ℕ → ℕ → Table ℕ → Table ℕ
evict_expired_completed now ttl [] = []
evict_expired_completed now ttl ((id, completed_at) ∷ completed) =
    let rest = evict_expired_completed now ttl completed in
    if ltb (now - completed_at) ttl then (id, completed_at) ∷ rest else rest

-- The hashes of the live tasks in the store.
unfoldable pub hashes_of : {F64 : Type 0} → List (RetryableTask F64) → List String
hashes_of [] = []
hashes_of (t ∷ ts) =
    let rest = hashes_of ts in
    if is_some t.deleted_at
    then rest
    else elim t.payload_hash [ none ↦ rest | some hash ↦ hash ∷ rest ]

-- Each pool with the value that `new_with_pools` starts it with; the pool `default` is added.
unfoldable pub pool_table : {V : Type 0} → (ℕ → V) → Table ℕ → Table V
pool_table start [] = []
pool_table start ((pool, capacity) ∷ pools) = insert pool (start capacity) (pool_table start pools)

unfoldable pub with_default : Table ℕ → Table ℕ
with_default pools = if has_key "default" pools then pools else insert "default" 100 pools

unfoldable pub queue_result : {A : Type 0} → Result IoError A → Result QueueError A
queue_result (ok a) = ok a
queue_result (err e) = err (io_error e)

module _ {x : Externals} where
  -- `new_with_pools`, the storage lock taken.
  unfoldable pub new_with_pools :
      {Limits : Type 0} → FileStore x → Limits → Table ℕ → SnerdQueue x Limits
  unfolding hashes_of pool_table with_default read_tasks
  new_with_pools file_store rate_limits pools = record {
    file_store = file_store;
    rate_limits = rate_limits;
    active_hashes = hashes_of (read_tasks file_store);
    executing_tasks = [];
    queued_tasks = [];
    completed_tasks = [];
    worker_pools = pool_table (λ capacity. capacity) (with_default pools);
    shared_pqs = pool_table (λ _. []) (with_default pools);
    dispatcher_counts = pool_table (λ _. 0) (with_default pools);
  }

  unfoldable pub cycle_check : Task x → FileStore x → Outcome
  cycle_check t s = elim t.trigger_after_ids [
    | none ↦ finished (ok tt)
    | some deps ↦ detect_cycle s.tasks_cache t.task_id deps
  ]

  -- Whether the task's hash is new; a new one is taken.
  unfoldable pub take_hash :
      {Limits : Type 0} → Task x → SnerdQueue x Limits → Bool × SnerdQueue x Limits
  take_hash t q = elim t.payload_hash [
    | none ↦ (true, q)
    | some hash ↦
        if contains q.active_hashes hash
        then (false, q)
        else (true, record q { active_hashes = hash ∷ q.active_hashes })
  ]

module _ {x : Externals} (serde : Serde x) {Limits : Type 0} where
  -- The save at the end of `enqueue`. The Boolean says whether a compaction is spawned.
  unfoldable pub store_task :
      SaveFaults
      → Option ℕ
      → Task x
      → SnerdQueue x Limits
      → Result QueueError Bool × SnerdQueue x Limits
  unfolding queue_result
  store_task faults metadata t q =
      let (result, store) =
        save_task serde faults metadata (record t { deleted_at = none }) q.file_store in
      (queue_result result, record q { file_store = store })

  -- `enqueue` from the check for cycles on, where nothing comes between the check and the save. No lock
  -- is held from one to the other, so `Step` of Queue/Run.antt has them apart.
  unfoldable pub admit :
      SaveFaults
      → Option ℕ
      → Task x
      → SnerdQueue x Limits
      → Result QueueError Bool × SnerdQueue x Limits
  unfolding store_task cycle_check
  admit faults metadata t q = elim (cycle_check t q.file_store) [
    | out_of_fuel ↦ (err diverged, q)
    | finished (err e) ↦ (err (invalid_input e), q)
    | finished (ok _) ↦ store_task faults metadata t q
  ]

  -- The hash check, under the lock of the hashes, and the rest, with nothing between them.
  unfoldable pub enqueue :
      SaveFaults
      → Option ℕ
      → Task x
      → SnerdQueue x Limits
      → Result QueueError Bool × SnerdQueue x Limits
  unfolding take_hash admit
  enqueue faults metadata t q =
      let (new, q') = take_hash t q in if new then admit faults metadata t q' else (ok false, q')
