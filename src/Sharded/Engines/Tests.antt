-- ===== src/Sharded/Engines/Tests.antt =====
-- Two engines of one daemon (src/sharded_queue.rs), of which the second queues a task.
use snerd_rust.Base.{
  ◌+◌, ◌≤◌, ◌≡◌, ◌≢◌, refl, String, none, [], ◌∷◌, contains, without, lookup, insert,
}
use snerd_rust.Task.{Task}
use snerd_rust.Task.Sample.{sample, task}
use snerd_rust.FileStore.{read_tasks, are_tasks_completed}
use snerd_rust.FileStore.Sample.{sample_serde}
use snerd_rust.Queue.{hashes_of}
use snerd_rust.Queue.Sample.{codec, store_of}
use snerd_rust.Queue.Schedule.{
  process_due_tasks, push_due, push_if_due, is_due, deps_completed, target_pool, pool_of, push_to,
  heap, dedup, start_dispatchers, dispatchers, next_task, pop, pop_max,
}
use snerd_rust.Queue.Execute.{dispatch}
use snerd_rust.Queue.Run.{Engine, started, schedules}
use snerd_rust.Queue.Run.Counted.{permits}
use snerd_rust.Sharded.Engines.{
  Own, Daemon, new_with_shared_pools, new_pools, engine_of, shared_of, own_of, opens, steps,
  DaemonSteps, start, next, new_daemon,
}
use snerd_rust.Sharded.Engines.Permits.{all_taken, all_running, daemon_permits}

program : Unit {0}
unfolding new_with_shared_pools new_pools engine_of shared_of own_of hashes_of read_tasks
    process_due_tasks push_due push_if_due is_due deps_completed target_pool pool_of push_to heap
    dedup start_dispatchers dispatchers next_task pop pop_max contains without lookup insert
    are_tasks_completed started dispatch
program = tt

abbrev one : Task sample
one = task "1" none

abbrev after_step : String → Engine sample codec → Daemon sample codec → Daemon sample codec
after_step shard e d = record {
  shared = shared_of codec e;
  engines = insert shard (own_of codec e) d.engines;
}

abbrev first_own : Own sample
first_own = new_with_shared_pools (store_of [])

abbrev second_own : Own sample
second_own = new_with_shared_pools (store_of (one ∷ []))

abbrev one_engine : Daemon sample codec
one_engine = record { shared = new_pools none; engines = ("shard-0", first_own) ∷ [] }

abbrev two_engines : Daemon sample codec
two_engines = record {
  shared = new_pools none;
  engines = ("shard-0", first_own) ∷ ("shard-1", second_own) ∷ [];
}

-- The second engine queues its task.
abbrev idle : Engine sample codec
idle = engine_of codec two_engines.shared second_own

abbrev queued : Engine sample codec
queued = record idle { queue = (process_due_tasks 5 (one ∷ []) idle.queue).1 }

abbrev due : Daemon sample codec
due = after_step "shard-1" queued two_engines

booting : DaemonSteps sample_serde codec (new_daemon sample codec none) due
unfolding program
booting =
    next {b = two_engines}
      (next {b = one_engine}
        (next start (opens "shard-0" (store_of []) (new_daemon sample codec none) refl))
        (opens "shard-1" (store_of (one ∷ [])) one_engine refl))
      (steps "shard-1" second_own queued two_engines refl (schedules 5 (one ∷ []) idle))

daemon_permits_example :
    (permits "default" due.shared.worker_pools + all_taken "default" due.engines ≡ 100)
    × (all_running "default" due.engines ≤ 100)
    × ((pool : String)
        → pool ≢ "default"
        → (permits pool due.shared.worker_pools ≡ 0) × (all_running pool due.engines ≡ 0))
daemon_permits_example = daemon_permits sample_serde codec none due booting
