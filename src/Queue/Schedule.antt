-- ===== src/Queue/Schedule.antt =====
-- `process_due_tasks` and the dispatchers of src/queue.rs. A step is what one holding of the locks does.
use Prim.Native.Nat.{Ordering}
use snerd_rust.Base.{
  ℕ, zero, suc, ◌-◌, String, Bool, true, ◌&&◌, not, Option, none, some, List, [], ◌∷◌,
  if◌then◌else◌, leb, ltb, has_key, is_some, contains, lookup, insert,
}
use snerd_rust.Task.{Externals, Task, RetryableTask, cmp}
use snerd_rust.FileStore.{FileStore, are_tasks_completed}
use snerd_rust.Queue.{SnerdQueue}

unfoldable pub pool_of : {F64 : Type 0} → RetryableTask F64 → String
pool_of t = elim t.pool [ none ↦ "default" | some pool ↦ pool ]

-- `sort` and `dedup`, but for the order, in which nothing is read.
unfoldable pub dedup : List String → List String
dedup [] = []
dedup (p ∷ pools) = let rest = dedup pools in if contains rest p then rest else p ∷ rest

-- What a dispatcher does in one round: it waits for a permit, it ends, or it has a task.
pub data Popped (F64 : Type 0) : Type 0 where
  waits ends : Popped F64
  pops : RetryableTask F64 → Popped F64

module _ (x : Externals) where
  -- The heap's greatest task, the first of those that compare equal, and the others.
  unfoldable pub pop_max : Task x → List (Task x) → Task x × List (Task x)
  pop_max t [] = (t, [])
  pop_max t (u ∷ us) =
      let (best, others) = pop_max u us in
      elim (cmp x t best) [ Ordering.lt ↦ (best, t ∷ others) | _ ↦ (t, best ∷ others) ]

  unfoldable pub pop : List (Task x) → Option (Task x × List (Task x))
  unfolding pop_max
  pop [] = none
  pop (t ∷ ts) = some (pop_max t ts)

module _ {x : Externals} where
  unfoldable pub deps_completed : Task x → FileStore x → Bool
  deps_completed t s = elim t.trigger_after_ids [
    | none ↦ true
    | some dep_ids ↦ are_tasks_completed dep_ids s
  ]

module _ {x : Externals} {Limits : Type 0} where
  -- The conditions under which a task is pushed.
  unfoldable pub is_due : ℕ → Task x → SnerdQueue x Limits → Bool
  unfolding deps_completed
  is_due now t q =
      deps_completed t q.file_store
      && leb t.execute_at now
      && leb t.retry_after_time now
      && not (is_some t.deleted_at)
      && not (contains q.executing_tasks t.task_id)
      && not (contains q.queued_tasks t.task_id)

  -- The pool whose heap takes the task, if there is one.
  unfoldable pub target_pool : Task x → SnerdQueue x Limits → Option String
  unfolding pool_of
  target_pool t q =
      if has_key (pool_of t) q.shared_pqs
      then some (pool_of t)
      else if has_key "default" q.shared_pqs
      then some "default"
      else none

  unfoldable pub heap : String → SnerdQueue x Limits → List (Task x)
  heap pool q = elim (lookup pool q.shared_pqs) [ none ↦ [] | some pq ↦ pq ]

  unfoldable pub push_to : String → Task x → SnerdQueue x Limits → SnerdQueue x Limits
  unfolding heap
  push_to pool t q = record q {
    queued_tasks = t.task_id ∷ q.queued_tasks;
    shared_pqs = insert pool (t ∷ heap pool q) q.shared_pqs;
  }

  -- One round of the loop. The list holds the pools to dispatch.
  unfoldable pub push_if_due :
      ℕ → Task x → SnerdQueue x Limits × List String → SnerdQueue x Limits × List String
  unfolding is_due target_pool push_to
  push_if_due now t (q, pools) =
      if is_due now t q
      then elim (target_pool t q) [
        | none ↦ (q, pools)
        | some pool ↦ (push_to pool t q, pool ∷ pools)
      ]
      else (q, pools)

  unfoldable pub push_due :
      ℕ → List (Task x) → SnerdQueue x Limits × List String → SnerdQueue x Limits × List String
  unfolding push_if_due
  push_due now [] state = state
  push_due now (t ∷ ts) state = push_due now ts (push_if_due now t state)

  unfoldable pub dispatchers : String → SnerdQueue x Limits → ℕ
  dispatchers pool q = elim (lookup pool q.dispatcher_counts) [ none ↦ 0 | some count ↦ count ]

  -- Counts a dispatcher for each pool that has fewer than two, and lists those that are spawned.
  unfoldable pub start_dispatchers :
      List String → SnerdQueue x Limits → List String × SnerdQueue x Limits
  unfolding dispatchers
  start_dispatchers [] q = ([], q)
  start_dispatchers (pool ∷ pools) q =
      let count = dispatchers pool q in
      let counted =
        start_dispatchers pools
          (record q { dispatcher_counts = insert pool (suc count) q.dispatcher_counts }) in
      let entered =
        start_dispatchers pools
          (record q { dispatcher_counts = insert pool count q.dispatcher_counts }) in
      if ltb count 2 then (pool ∷ counted.0, counted.1) else entered

  -- `tasks` is what `read_tasks` gave before the locks were taken.
  unfoldable pub process_due_tasks :
      ℕ → List (Task x) → SnerdQueue x Limits → List String × SnerdQueue x Limits
  unfolding push_due start_dispatchers dedup
  process_due_tasks now tasks q =
      let (q', pools) = push_due now tasks (q, []) in start_dispatchers (dedup pools) q'

  -- The count of a running dispatcher is not 0, so the subtraction does not stop there.
  unfoldable pub leave_dispatcher : String → SnerdQueue x Limits → SnerdQueue x Limits
  leave_dispatcher pool q = elim (lookup pool q.dispatcher_counts) [
    | none ↦ q
    | some count ↦ record q { dispatcher_counts = insert pool (count - 1) q.dispatcher_counts }
  ]

  -- `drop(permit)`
  unfoldable pub drop_permit : String → SnerdQueue x Limits → SnerdQueue x Limits
  drop_permit pool q = elim (lookup pool q.worker_pools) [
    | none ↦ q
    | some free ↦ record q { worker_pools = insert pool (suc free) q.worker_pools }
  ]

  -- The permit, then the greatest task of the pool's heap. A dispatcher whose pool has no
  -- semaphore ends, and so does one that finds the heap empty; it gives its permit back.
  unfoldable pub next_task : String → SnerdQueue x Limits → Popped x.F64 × SnerdQueue x Limits
  unfolding pop leave_dispatcher
  next_task pool q = elim (lookup pool q.worker_pools) [
    | none ↦ (ends, leave_dispatcher pool q)
    | some zero ↦ (waits, q)
    | some (suc free) ↦ elim (lookup pool q.shared_pqs) [
      | none ↦ (ends, leave_dispatcher pool q)
      | some pq ↦ elim (pop x pq) [
        | none ↦ (ends, leave_dispatcher pool q)
        | some (t, others) ↦ (
          pops t,
          record q {
            worker_pools = insert pool free q.worker_pools;
            shared_pqs = insert pool others q.shared_pqs;
          },
        )
      ]
    ]
  ]
