-- ===== src/Sharded/Engines.antt =====
-- The engines of one daemon (src/sharded_queue.rs, and `new_with_shared_pools` of src/queue.rs): what they
-- share, what each has for itself, and their steps in any order.
pub mod Permits
mod Tests
use snerd_rust.Base.{ℕ, ◌≡◌, String, Option, none, some, List, [], ◌∷◌, Table, lookup, insert}
use snerd_rust.Task.{Externals, Task}
use snerd_rust.FileStore.{Serde, FileStore, read_tasks}
use snerd_rust.RateLimiter.{Codec}
use snerd_rust.Queue.{SnerdQueue, hashes_of}
use snerd_rust.Queue.Run.{Engine}
use snerd_rust.Queue.Run

-- What all engines of a daemon share: the permits, the heaps and the counts of dispatchers by pool, and
-- the file of the rate limiter, which `RateLimiter::new` puts into the directory of the queue.
pub record Shared (x : Externals) (Limits : Type 0) : Type 0 where
  pub worker_pools : Table ℕ
  pub shared_pqs : Table (List (Task x))
  pub dispatcher_counts : Table ℕ
  pub rate_limits : Limits

-- What one engine has for itself, with the tasks that its dispatchers have popped and those that it
-- executes, each with the pool of its permit.
pub record Own (x : Externals) : Type 0 where
  pub file_store : FileStore x
  pub active_hashes : List String
  pub executing_tasks : List String
  pub queued_tasks : List String
  pub completed_tasks : Table ℕ
  pub in_hand : List (String × Task x)
  pub running : List (String × Task x)

module _ {x : Externals} where
  -- `new_with_shared_pools`, the storage lock taken.
  unfoldable pub new_with_shared_pools : FileStore x → Own x
  unfolding hashes_of read_tasks
  new_with_shared_pools file_store = record {
    file_store = file_store;
    active_hashes = hashes_of (read_tasks file_store);
    executing_tasks = [];
    queued_tasks = [];
    completed_tasks = [];
    in_hand = [];
    running = [];
  }

  -- The pools that `SnerdShardedQueue::new` makes.
  unfoldable pub new_pools : {Limits : Type 0} → Limits → Shared x Limits
  new_pools rate_limits = record {
    worker_pools = ("default", 100) ∷ [];
    shared_pqs = ("default", []) ∷ [];
    dispatcher_counts = ("default", 0) ∷ [];
    rate_limits = rate_limits;
  }

  module _ (codec : Codec) where
    -- An engine as its own code sees it.
    unfoldable pub engine_of : Shared x codec.Raw → Own x → Engine x codec
    engine_of shared own = record {
      queue = record {
        file_store = own.file_store;
        rate_limits = shared.rate_limits;
        active_hashes = own.active_hashes;
        executing_tasks = own.executing_tasks;
        queued_tasks = own.queued_tasks;
        completed_tasks = own.completed_tasks;
        worker_pools = shared.worker_pools;
        shared_pqs = shared.shared_pqs;
        dispatcher_counts = shared.dispatcher_counts;
      };
      in_hand = own.in_hand;
      running = own.running;
    }

    unfoldable pub shared_of : Engine x codec → Shared x codec.Raw
    shared_of e = record {
      worker_pools = e.queue.worker_pools;
      shared_pqs = e.queue.shared_pqs;
      dispatcher_counts = e.queue.dispatcher_counts;
      rate_limits = e.queue.rate_limits;
    }

    unfoldable pub own_of : Engine x codec → Own x
    own_of e = record {
      file_store = e.queue.file_store;
      active_hashes = e.queue.active_hashes;
      executing_tasks = e.queue.executing_tasks;
      queued_tasks = e.queue.queued_tasks;
      completed_tasks = e.queue.completed_tasks;
      in_hand = e.in_hand;
      running = e.running;
    }

-- The engines that have threads, by shard: also those that `reconcile_shards` has taken out of the map.
pub record Daemon (x : Externals) (codec : Codec) : Type 0 where
  pub shared : Shared x codec.Raw
  pub engines : Table (Own x)

module _ {x : Externals} (serde : Serde x) (codec : Codec) where
  pub data DaemonStep : Daemon x codec → Daemon x codec → Type 0 where
    opens :
        (shard : String) (file_store : FileStore x) (d : Daemon x codec)
        → lookup shard d.engines ≡ none
        → DaemonStep d
            (record d { engines = insert shard (new_with_shared_pools file_store) d.engines })
    steps :
        (shard : String) (own : Own x) (e : Engine x codec) (d : Daemon x codec)
        → lookup shard d.engines ≡ some own
        → Run.Step serde codec (engine_of codec d.shared own) e
        → DaemonStep d (record {
          shared = shared_of codec e;
          engines = insert shard (own_of codec e) d.engines;
        })

  pub data DaemonSteps (a : Daemon x codec) : Daemon x codec → Type 0 where
    start : DaemonSteps a a
    next : {b c : Daemon x codec} → DaemonSteps a b → DaemonStep b c → DaemonSteps a c

-- A daemon that has just been made.
abbrev pub new_daemon : (x : Externals) (codec : Codec) → codec.Raw → Daemon x codec
new_daemon x codec rate_limits = record { shared = new_pools rate_limits; engines = [] }
