-- ===== src/Queue/Tests/Recovered.antt =====
-- An engine of src/queue.rs that saves a task and schedules it, and the reopening of its log.
use snerd_rust.Base.{none, [], ◌∷◌}
use snerd_rust.Task.Sample.{sample}
use snerd_rust.FileStore.{FileStore}
use snerd_rust.FileStore.Sample.{sample_serde}
use snerd_rust.Queue.{SnerdQueue, take_hash, store_task, new_with_pools}
use snerd_rust.Queue.Schedule.{process_due_tasks}
use snerd_rust.Queue.Run.{Engine, takes_hash, stores, schedules, Steps, done, after}
use snerd_rust.Queue.Run.Once.{booted}
use snerd_rust.Queue.Sample.{codec, calm, store_of}
use snerd_rust.Queue.Tests.{one}

abbrev empty : SnerdQueue sample codec.Raw
empty = new_with_pools (store_of []) none (("default", 2) ∷ [])

abbrev hashed : Engine sample codec
hashed = record (booted sample_serde codec empty) { queue = (take_hash one empty).1 }

abbrev saved : Engine sample codec
saved = record hashed { queue = (store_task sample_serde calm none one hashed.queue).1 }

abbrev scheduled : Engine sample codec
scheduled = record saved { queue = (process_due_tasks 5 (one ∷ []) saved.queue).1 }

day : Steps sample_serde codec (booted sample_serde codec empty) scheduled
day =
    after _ saved scheduled
      (after _ hashed saved
        (after _ (booted sample_serde codec empty) hashed (done (booted sample_serde codec empty))
          (takes_hash one (booted sample_serde codec empty)))
        (stores calm none one hashed))
      (schedules 5 (one ∷ []) saved)
