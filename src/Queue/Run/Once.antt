-- ===== src/Queue/Run/Once.antt =====
-- Every step of src/queue.rs keeps the bookkeeping consistent: no task is queued or executed twice.
use snerd_rust.Base.{
  ℕ, ◌+◌, ◌≤◌, ◌≡◌, refl, ◌⊎◌, inl, inr, String, Option, List, [], ◌∷◌, ◌++◌, arith, eq_iff,
  contains, contains-without, contains-cons, Table,
}
use snerd_rust.Task.{Externals, Task}
use snerd_rust.FileStore.{Serde, FileStore, SaveFaults}
use snerd_rust.RateLimiter.{Codec, Faults}
use snerd_rust.Queue.{SnerdQueue, new_with_pools, pool_table, with_default}
use snerd_rust.Queue.Schedule.{pops, next_task, drop_permit, process_due_tasks, push_to}
use snerd_rust.Queue.Execute.{dispatch, finish_task, drop_guard}
use snerd_rust.Queue.Count.{
  count, count_heaps, count_held, count_held-append, count_heaps-insert, push_to-IsQueuedOnce,
  due_new,
}
use snerd_rust.Queue.Keeps.{process_due_tasks_keeps}
use snerd_rust.Queue.Frame.{
  SameSets, SameSets-trans, drop_permit-SameSets, take_hash-SameSets, store_task-SameSets,
  finish_task_sets,
}
use snerd_rust.Queue.Run.{
  Engine, started, Step, takes_hash, stores, schedules, pops_task, finds_none, dispatches, gives_up,
  finishes, sweeps, compacts, Steps, done, after, IsConsistent,
}
use snerd_rust.Queue.Run.Effects.{
  same-IsQueuedOnce, next_task_pops, next_task_ends, dispatch_effect,
}

module _ {x : Externals} (serde : Serde x) (codec : Codec) where
  same-IsConsistent :
      (q : SnerdQueue x codec.Raw) (e : Engine x codec)
      → SameSets e.queue q
      → IsConsistent serde codec e
      → IsConsistent serde codec (record e { queue = q })
  same-IsConsistent q e same h = record {
    queued_once = same-IsQueuedOnce (λ id. count_held id e.in_hand) e.queue q same h.queued_once;
    run_once = λ id. ground (arith, h.run_once id, same.executing);
  }

  schedules-IsConsistent :
      (now : ℕ) (tasks : List (Task x)) (e : Engine x codec)
      → IsConsistent serde codec e
      → IsConsistent serde codec (record e { queue = (process_due_tasks now tasks e.queue).1 })
  schedules-IsConsistent now tasks e h =
      process_due_tasks_keeps (λ q. IsConsistent serde codec (record e { queue = q })) now tasks
        e.queue
        (λ pool t q due c. record {
          queued_once =
              push_to-IsQueuedOnce (λ id. count_held id e.in_hand) pool t q (due_new now t q due)
                c.queued_once;
          run_once = unfold push_to in c.run_once;
        })
        (λ q counts c. record { queued_once = c.queued_once; run_once = c.run_once }) h

  pops_task-IsConsistent :
      (pool : String) (t : Task x) (q : SnerdQueue x codec.Raw) (e : Engine x codec)
      → next_task pool e.queue ≡ (pops t, q)
      → IsConsistent serde codec e
      → IsConsistent serde codec (record e { queue = q; in_hand = (pool, t) ∷ e.in_hand })
  unfolding count_held
  pops_task-IsConsistent pool t q e popped h =
      let (queued, executing, heaps) = next_task_pops pool t e.queue q popped in
      record {
        queued_once = λ id. ground (arith, h.queued_once id, queued, heaps id);
        run_once = λ id. ground (arith, h.run_once id, executing);
      }

  dispatches-IsConsistent :
      (limiter : Faults codec.Raw) (faults : SaveFaults) (metadata : Option ℕ) (clock : ℕ → ℕ)
      (pool : String) (t : Task x) (hs ks running : List (String × Task x))
      (q : SnerdQueue x codec.Raw)
      → IsConsistent serde codec
          (record { queue = q; in_hand = hs ++ (pool, t) ∷ ks; running = running })
      → IsConsistent serde codec (record {
        queue = (dispatch serde codec limiter faults metadata clock pool t q).1;
        in_hand = hs ++ ks;
        running =
            started
              (dispatch serde codec limiter faults metadata clock pool t q).0
              (pool, t)
              running;
      })
  unfolding count_held started
  dispatches-IsConsistent limiter faults metadata clock pool t hs ks running q h =
      let effect = dispatch_effect serde codec limiter faults metadata clock pool t q in
      record {
        queued_once = λ id. ground (
          arith,
          h.queued_once id,
          effect.queued,
          effect.heaps,
          contains-without t.task_id id q.queued_tasks,
          count_held-append id hs ((pool, t) ∷ ks),
          count_held-append id hs ks,
          h.queued_once t.task_id,
          eq_iff t.task_id id,
        );
        run_once = λ id. elim effect.executing [
          | inl (turn, new, executing) ↦
              rw (turn, executing)
                (ground (
                  arith,
                  h.run_once id,
                  new,
                  contains-cons t.task_id id q.executing_tasks,
                  eq_iff t.task_id id,
                ))
          | inr (unchanged, executing) ↦ rw (unchanged running pool, executing) (h.run_once id)
        ];
      }

  leaves-IsConsistent :
      (pool : String) (t : Task x) (in_hand hs ks : List (String × Task x))
      (q q' : SnerdQueue x codec.Raw)
      → SameSets q q' ⊎ SameSets (drop_guard t q) q'
      → IsConsistent serde codec
          (record { queue = q; in_hand = in_hand; running = hs ++ (pool, t) ∷ ks })
      → IsConsistent serde codec (record { queue = q'; in_hand = in_hand; running = hs ++ ks })
  unfolding count_held drop_guard
  leaves-IsConsistent pool t in_hand hs ks q q' (inl same) h = record {
    queued_once = same-IsQueuedOnce (λ id. count_held id in_hand) q q' same h.queued_once;
    run_once = λ id. ground (
      arith,
      h.run_once id,
      same.executing,
      count_held-append id hs ((pool, t) ∷ ks),
      count_held-append id hs ks,
    );
  }
  leaves-IsConsistent pool t in_hand hs ks q q' (inr same) h = record {
    queued_once =
        same-IsQueuedOnce (λ id. count_held id in_hand) (drop_guard t q) q' same h.queued_once;
    run_once = λ id. ground (
      arith,
      h.run_once id,
      same.executing,
      contains-without t.task_id id q.executing_tasks,
      count_held-append id hs ((pool, t) ∷ ks),
      count_held-append id hs ks,
      eq_iff t.task_id id,
    );
  }

  Step-IsConsistent :
      (a b : Engine x codec)
      → Step serde codec a b
      → IsConsistent serde codec a
      → IsConsistent serde codec b
  Step-IsConsistent _ _ (takes_hash t e) h = same-IsConsistent _ e (take_hash-SameSets t e.queue) h
  Step-IsConsistent _ _ (stores faults metadata t e) h =
      same-IsConsistent _ e (store_task-SameSets serde codec faults metadata t e.queue) h
  Step-IsConsistent _ _ (schedules now tasks e) h = schedules-IsConsistent now tasks e h
  Step-IsConsistent _ _ (pops_task pool t q e popped) h = pops_task-IsConsistent pool t q e popped h
  Step-IsConsistent _ _ (finds_none pool q e found) h =
      same-IsConsistent q e (next_task_ends pool e.queue q found) h
  Step-IsConsistent _ _ (dispatches limiter faults metadata clock pool t hs ks running q) h =
      dispatches-IsConsistent limiter faults metadata clock pool t hs ks running q h
  Step-IsConsistent _ _ (gives_up pool t in_hand hs ks q completed) h =
      leaves-IsConsistent pool t in_hand hs ks q _ (inl (drop_permit-SameSets pool q)) h
  Step-IsConsistent _ _ (finishes faults metadata clock instant result pool t in_hand hs ks q) h =
      let finished = finish_task serde codec faults metadata clock instant result t q in
      leaves-IsConsistent pool t in_hand hs ks q (drop_permit pool finished)
        (inr (
          SameSets-trans (drop_guard t q) finished (drop_permit pool finished)
            (finish_task_sets serde codec faults metadata clock instant result t q)
            (drop_permit-SameSets pool finished)))
        h
  Step-IsConsistent _ _ (sweeps now ttl e) h = record {
    queued_once = h.queued_once;
    run_once = h.run_once;
  }
  Step-IsConsistent _ _ (compacts faults clock e) h = record {
    queued_once = h.queued_once;
    run_once = h.run_once;
  }

  -- Whatever fails, and in whatever order the callers of `enqueue`, the processor, the dispatchers, the
  -- executions, the sweeper and compaction take their steps, the bookkeeping stays consistent: an id
  -- is in the heaps and the hands of dispatchers together at most once, and exactly while it is in
  -- the queued set; and no id is in execution twice, or without being in the executing set.
  pub steps-IsConsistent :
      (a b : Engine x codec)
      → Steps serde codec a b
      → IsConsistent serde codec a
      → IsConsistent serde codec b
  steps-IsConsistent _ _ (done e) h = h
  steps-IsConsistent _ _ (after a b c steps step) h =
      Step-IsConsistent b c step (steps-IsConsistent a b steps h)

  count_heaps-pool_table :
      (id : String) (pools : Table ℕ)
      → count_heaps {F64 = x.F64} id (pool_table (λ _. []) pools) ≡ 0
  unfolding pool_table count_heaps count
  count_heaps-pool_table id [] = refl
  count_heaps-pool_table id ((pool, capacity) ∷ pools) = ground (
    arith,
    count_heaps-pool_table id pools,
    count_heaps-insert {F64 = x.F64} id pool [] (pool_table (λ _. []) pools),
  )

  -- An engine that has just been made.
  abbrev pub booted : SnerdQueue x codec.Raw → Engine x codec
  booted q = record { queue = q; in_hand = []; running = [] }

  pub booted-IsConsistent :
      (store : FileStore x) (limits : codec.Raw) (pools : Table ℕ)
      → IsConsistent serde codec (booted (new_with_pools store limits pools))
  unfolding new_with_pools count_held contains
  booted-IsConsistent store limits pools = record {
    queued_once = λ id. ground (arith, count_heaps-pool_table id (with_default pools));
    run_once = λ id. ground arith;
  }

  -- From the construction of an engine on, whatever fails, and in whatever order the callers of
  -- `enqueue`, the processor, the dispatchers, the executions, the sweeper and compaction take their
  -- steps, no id is in execution twice at a time, and no id is twice in the heaps and the hands of
  -- the dispatchers together.
  pub never_twice :
      (store : FileStore x) (limits : codec.Raw) (pools : Table ℕ) (e : Engine x codec)
      → Steps serde codec (booted (new_with_pools store limits pools)) e
      → (id : String)
      → (count_held id e.running ≤ 1)
        × (count_heaps id e.queue.shared_pqs + count_held id e.in_hand ≤ 1)
  never_twice store limits pools e steps id =
      let h = steps-IsConsistent _ e steps (booted-IsConsistent store limits pools) in
      (ground (arith, h.run_once id), ground (arith, h.queued_once id))
