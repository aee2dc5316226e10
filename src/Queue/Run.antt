-- ===== src/Queue/Run.antt =====
-- Runs of the steps of src/queue.rs, in any order: the callers of `enqueue`, the periodic processor, the
-- dispatchers and the executions of one engine. `enqueue` is two steps, its hash and its save; a round of
-- the processor, the pop of a task, what a dispatcher does with it, and the end of an execution are one
-- step each, though the code takes several locks in turn for them.
pub mod Effects
pub mod Once
pub mod Permits
pub mod Counted
pub mod Sound
pub mod Printable
pub mod Recovery
use Prim.Native.Nat.{Ordering}
use snerd_rust.Base.{
  ℕ, zero, suc, ◌+◌, ◌≤◌, ◌≡◌, refl, ap, sym, ◌⊎◌, inl, inr, String, Bool, true, false, Option,
  none, some, List, [], ◌∷◌, ◌++◌, arith, if◌then◌else◌, str_eq, eq_iff, contains, without,
  contains-without, contains-cons, Table, lookup, insert, Bool-cases, Option-cases, Result,
}
use snerd_rust.Task.{Externals, Task}
use snerd_rust.FileStore.{Serde, SaveFaults, CompactFaults, compact_log}
use snerd_rust.RateLimiter.{Codec, Faults}
use snerd_rust.Queue.{SnerdQueue, take_hash, store_task, evict_expired_completed}
use snerd_rust.Queue.Schedule.{
  Popped, waits, ends, pops, pop, pop_max, next_task, drop_permit, leave_dispatcher,
  process_due_tasks, push_to, is_due,
}
use snerd_rust.Queue.Execute.{
  Queue, Turn, put_off, skipped, spawned, dispatch, rate_check, move_to_executing, put_off_task,
  save_quietly, is_completed, finish_task, drop_guard,
}
use snerd_rust.Queue.Count.{
  count, count_heaps, count_held, count_held-append, count_heaps-pop, member, IsQueuedOnce,
  push_to-IsQueuedOnce, due_new,
}
use snerd_rust.Queue.Keeps.{process_due_tasks_keeps}
use snerd_rust.Queue.Frame.{
  SameSets, drop_permit-SameSets, leave_dispatcher-SameSets, take_hash-SameSets,
  store_task-SameSets, rate_check-SameSets, finish_task_sets,
}

-- An engine, the tasks that its dispatchers have popped, and the tasks in execution, with their pools.
pub record Engine (x : Externals) (codec : Codec) : Type 0 where
  pub queue : SnerdQueue x codec.Raw
  pub in_hand : List (String × Task x)
  pub running : List (String × Task x)

-- What is in execution after a turn of a dispatcher.
unfoldable pub started : {A : Type 0} → Turn → A → List A → List A
started spawned held running = held ∷ running
started put_off held running = running
started skipped held running = running

module _ {x : Externals} (serde : Serde x) (codec : Codec) where
  pub data Step : Engine x codec → Engine x codec → Type 0 where
    -- `enqueue` takes the hash, and saves later, at which time another caller may have saved.
    takes_hash :
        (t : Task x) (e : Engine x codec) → Step e (record e { queue = (take_hash t e.queue).1 })
    stores :
        (faults : SaveFaults) (metadata : Option ℕ) (t : Task x) (e : Engine x codec)
        → Step e (record e { queue = (store_task serde faults metadata t e.queue).1 })
    -- `tasks` is what the store held at any time before.
    schedules :
        (now : ℕ) (tasks : List (Task x)) (e : Engine x codec)
        → Step e (record e { queue = (process_due_tasks now tasks e.queue).1 })
    pops_task :
        (pool : String) (t : Task x) (q : SnerdQueue x codec.Raw) (e : Engine x codec)
        → next_task pool e.queue ≡ (pops t, q)
        → Step e (record e { queue = q; in_hand = (pool, t) ∷ e.in_hand })
    finds_none :
        (pool : String) (q : SnerdQueue x codec.Raw) (e : Engine x codec)
        → next_task pool e.queue ≡ (ends, q)
        → Step e (record e { queue = q })
    dispatches :
        (limiter : Faults codec.Raw) (faults : SaveFaults) (metadata : Option ℕ) (clock : ℕ → ℕ)
        (pool : String) (t : Task x) (hs ks running : List (String × Task x))
        (q : SnerdQueue x codec.Raw)
        → Step
            (record { queue = q; in_hand = hs ++ (pool, t) ∷ ks; running = running })
            (record {
              queue = (dispatch serde codec limiter faults metadata clock pool t q).1;
              in_hand = hs ++ ks;
              running =
                  started
                    (dispatch serde codec limiter faults metadata clock pool t q).0
                    (pool, t)
                    running;
            })
    gives_up :
        (pool : String) (t : Task x) (in_hand hs ks : List (String × Task x))
        (q : SnerdQueue x codec.Raw)
        → is_completed t q ≡ true
        → Step
            (record { queue = q; in_hand = in_hand; running = hs ++ (pool, t) ∷ ks })
            (record { queue = drop_permit pool q; in_hand = in_hand; running = hs ++ ks })
    finishes :
        (faults : ℕ → SaveFaults) (metadata : Option ℕ) (clock : ℕ → ℕ) (instant : ℕ)
        (result : Option (Result String (Unit {0}))) (pool : String) (t : Task x)
        (in_hand hs ks : List (String × Task x)) (q : SnerdQueue x codec.Raw)
        → Step
            (record { queue = q; in_hand = in_hand; running = hs ++ (pool, t) ∷ ks })
            (record {
              queue =
                  drop_permit pool
                    (finish_task serde codec faults metadata clock instant result t q);
              in_hand = in_hand;
              running = hs ++ ks;
            })
    sweeps :
        (now ttl : ℕ) (e : Engine x codec)
        → Step e (record e {
          queue = record e.queue {
            completed_tasks = evict_expired_completed now ttl e.queue.completed_tasks;
          };
        })
    compacts :
        (faults : CompactFaults) (clock : ℕ → ℕ) (e : Engine x codec)
        → Step e (record e {
          queue = record e.queue {
            file_store = (compact_log serde faults clock e.queue.file_store).1;
          };
        })

  pub data Steps : Engine x codec → Engine x codec → Type 0 where
    done : (e : Engine x codec) → Steps e e
    after : (a b c : Engine x codec) → Steps a b → Step b c → Steps a c

  -- No id is in execution twice, and an id in execution is in the executing set.
  abbrev pub IsRunOnce : Engine x codec → Type 0
  IsRunOnce e = (id : String) → count_held id e.running ≤ member e.queue.executing_tasks id

  -- A task is in one heap, or in the hand of one dispatcher, exactly while its id is in the queued set;
  -- and no id is in execution twice.
  pub record IsConsistent (e : Engine x codec) : Type 0 where
    pub queued_once : IsQueuedOnce (λ id. count_held id e.in_hand) e.queue
    pub run_once : IsRunOnce e
