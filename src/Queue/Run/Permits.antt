-- ===== src/Queue/Run/Permits.antt =====
-- The semaphores of the pools of src/queue.rs: what the steps do to the permits.
use snerd_rust.Base.{
  ℕ, zero, suc, ◌+◌, ◌≤◌, ◌≡◌, refl, ◌⊎◌, inl, inr, String, Option, some, List, ◌∷◌, ◌++◌, arith,
  contains, without, Table, lookup, insert, Bool-cases, Option-cases,
}
use snerd_rust.Task.{Externals, Task}
use snerd_rust.FileStore.{Serde, FileStore, SaveFaults}
use snerd_rust.RateLimiter.{Codec, Faults}
use snerd_rust.Queue.{SnerdQueue, new_with_pools, pool_table, with_default}
use snerd_rust.Queue.Schedule.{pops, ends, next_task, drop_permit, leave_dispatcher}
use snerd_rust.Queue.Execute.{
  Queue, spawned, dispatch, rate_check, move_to_executing, put_off_task, save_quietly,
}
use snerd_rust.Queue.Frame.Pools.{
  SamePools, leave_dispatcher-SamePools, process_due_tasks-SamePools, take_hash-SamePools,
  store_task-SamePools, rate_check-SamePools, finish_task-SamePools,
}
use snerd_rust.Queue.Run.{
  Engine, started, Step, takes_hash, stores, schedules, pops_task, finds_none, dispatches, gives_up,
  finishes, sweeps, compacts, Steps, done, after,
}
use snerd_rust.Queue.Run.Once.{booted}
use snerd_rust.Queue.Run.Counted.{
  permits, holders, holders-append, released, IsCounted, released-IsCounted, taken-IsCounted,
  same-IsCounted,
}

module _ {x : Externals} {Limits : Type 0} where
  drop_permit-released :
      (pool : String) (q : SnerdQueue x Limits)
      → (drop_permit pool q).worker_pools ≡ released pool q.worker_pools
  unfolding drop_permit
  drop_permit-released pool q = ground arith

  next_task_takes :
      (pool : String) (t : Task x) (q q' : SnerdQueue x Limits)
      → next_task pool q ≡ (pops t, q')
      → (free : ℕ) × (lookup pool q.worker_pools ≡ some (suc free))
        × (q'.worker_pools ≡ insert pool free q.worker_pools)
  unfolding next_task
  next_task_takes pool t q q' e = elim (Option-cases (lookup pool q.worker_pools)) [
    | inl no_pool ↦ absurd (ground arith)
    | inr (zero, full) ↦ absurd (ground arith)
    | inr (suc free, permit) ↦ (free, permit, ground arith)
  ]

  next_task_ends-SamePools :
      (pool : String) (q q' : SnerdQueue x Limits) → next_task pool q ≡ (ends, q') → SamePools q q'
  unfolding next_task
  next_task_ends-SamePools pool q q' e =
      let left = leave_dispatcher-SamePools pool q in
      let same : q' ≡ leave_dispatcher pool q = ground arith in rw same left

module _ {x : Externals} (serde : Serde x) (codec : Codec) where
  -- Only a task that is spawned keeps the permit.
  dispatch_permit :
      (limiter : Faults codec.Raw) (faults : SaveFaults) (metadata : Option ℕ) (clock : ℕ → ℕ)
      (pool : String) (t : Task x) (q : Queue serde codec)
      → let turn = dispatch serde codec limiter faults metadata clock pool t q in
        (turn.0 ≡ spawned) × (turn.1.worker_pools ≡ q.worker_pools)
        ⊎ ((running : List (String × Task x)) → started turn.0 (pool, t) running ≡ running)
          × (turn.1.worker_pools ≡ released pool q.worker_pools)
  unfolding dispatch move_to_executing put_off_task save_quietly started
  dispatch_permit limiter faults metadata clock pool t q =
      let checked = rate_check serde codec limiter (clock 0) t q in
      let same = rate_check-SamePools serde codec limiter (clock 0) t q in
      elim (Bool-cases checked.0) [
        | inr refused ↦ inr (
          rw refused (λ running. refl),
          ground (
            arith,
            same,
            drop_permit-released pool
                (put_off_task serde codec faults metadata (clock 1) t checked.1),
          ),
        )
        | inl allowed ↦ elim (Bool-cases (contains checked.1.executing_tasks t.task_id)) [
          | inl busy ↦ inr (
            λ running. ground arith,
            ground (
              arith,
              same,
              drop_permit-released pool
                  (record checked.1 { queued_tasks = without t.task_id checked.1.queued_tasks }),
            ),
          )
          | inr idle ↦ inl (ground arith, ground (arith, same))
        ]
      ]

  -- The tasks in the hands of dispatchers and those in execution hold the permits that are not free.
  abbrev pub IsBalanced : (String → ℕ) → Table ℕ → Engine x codec → Type 0
  IsBalanced capacity first e =
      IsCounted capacity first (λ pool. holders pool e.in_hand + holders pool e.running)
        e.queue.worker_pools

  ends-IsBalanced :
      (capacity : String → ℕ) (first : Table ℕ) (pool : String) (t : Task x)
      (in_hand hs ks : List (String × Task x)) (q q' : Queue serde codec)
      → SamePools q q'
      → IsBalanced capacity first
          (record { queue = q; in_hand = in_hand; running = hs ++ (pool, t) ∷ ks })
      → IsBalanced capacity first
          (record { queue = drop_permit pool q'; in_hand = in_hand; running = hs ++ ks })
  unfolding holders
  ends-IsBalanced capacity first pool t in_hand hs ks q q' same h =
      rw (drop_permit-released pool q') (
        rw same (
          released-IsCounted capacity first pool _ _ q.worker_pools
            (λ p. ground (arith, holders-append p hs ((pool, t) ∷ ks), holders-append p hs ks)) h))

  dispatches-IsBalanced :
      (capacity : String → ℕ) (first : Table ℕ) (limiter : Faults codec.Raw) (faults : SaveFaults)
      (metadata : Option ℕ) (clock : ℕ → ℕ) (pool : String) (t : Task x)
      (hs ks running : List (String × Task x)) (q : Queue serde codec)
      → IsBalanced capacity first
          (record { queue = q; in_hand = hs ++ (pool, t) ∷ ks; running = running })
      → IsBalanced capacity first (record {
        queue = (dispatch serde codec limiter faults metadata clock pool t q).1;
        in_hand = hs ++ ks;
        running =
            started
              (dispatch serde codec limiter faults metadata clock pool t q).0
              (pool, t)
              running;
      })
  unfolding holders started
  dispatches-IsBalanced capacity first limiter faults metadata clock pool t hs ks running q h =
      elim (dispatch_permit limiter faults metadata clock pool t q) [
        | inl (turn, same) ↦
            rw (turn, same)
              (same-IsCounted capacity first _ _ q.worker_pools
                (λ p. ground (arith, holders-append p hs ((pool, t) ∷ ks), holders-append p hs ks))
                h)
        | inr (unchanged, dropped) ↦
            rw (unchanged running, dropped)
              (released-IsCounted capacity first pool _ _ q.worker_pools
                (λ p. ground (arith, holders-append p hs ((pool, t) ∷ ks), holders-append p hs ks))
                h)
      ]

  pub Step-IsBalanced :
      (capacity : String → ℕ) (first : Table ℕ) (a b : Engine x codec)
      → Step serde codec a b
      → IsBalanced capacity first a
      → IsBalanced capacity first b
  unfolding holders
  Step-IsBalanced capacity first _ _ (takes_hash t e) h = rw (take_hash-SamePools t e.queue) h
  Step-IsBalanced capacity first _ _ (stores faults metadata t e) h =
      rw (store_task-SamePools serde codec faults metadata t e.queue) h
  Step-IsBalanced capacity first _ _ (schedules now tasks e) h =
      rw (process_due_tasks-SamePools now tasks e.queue) h
  Step-IsBalanced capacity first _ _ (pops_task pool t q e popped) h =
      let (free, found, taken) = next_task_takes pool t e.queue q popped in
      rw taken (
        taken-IsCounted capacity first pool free _ _ e.queue.worker_pools found (λ p. omega arith)
          h)
  Step-IsBalanced capacity first _ _ (finds_none pool q e found) h =
      rw (next_task_ends-SamePools pool e.queue q found) h
  Step-IsBalanced capacity first _ _
        (dispatches limiter faults metadata clock pool t hs ks running q) h =
      dispatches-IsBalanced capacity first limiter faults metadata clock pool t hs ks running q h
  Step-IsBalanced capacity first _ _ (gives_up pool t in_hand hs ks q completed) h =
      ends-IsBalanced capacity first pool t in_hand hs ks q q refl h
  Step-IsBalanced capacity first _ _
        (finishes faults metadata clock instant result pool t in_hand hs ks q) h =
      ends-IsBalanced capacity first pool t in_hand hs ks q _
        (finish_task-SamePools serde codec faults metadata clock instant result t q) h
  Step-IsBalanced capacity first _ _ (sweeps now ttl e) h = h
  Step-IsBalanced capacity first _ _ (compacts faults clock e) h = h

  steps-IsBalanced :
      (capacity : String → ℕ) (first : Table ℕ) (a b : Engine x codec)
      → Steps serde codec a b
      → IsBalanced capacity first a
      → IsBalanced capacity first b
  steps-IsBalanced capacity first _ _ (done e) h = h
  steps-IsBalanced capacity first _ _ (after a b c steps step) h =
      Step-IsBalanced capacity first b c step (steps-IsBalanced capacity first a b steps h)

  -- From the construction of an engine on, whatever fails and in whatever order the steps are taken, no
  -- permit of a pool is lost or made up: those that are free, those of the tasks in the hands of
  -- dispatchers and those of the tasks in execution are together the pool's capacity. So never are
  -- more tasks of a pool in execution than it has permits.
  pub permits_balance :
      (store : FileStore x) (limits : codec.Raw) (pools : Table ℕ) (e : Engine x codec)
      → Steps serde codec (booted serde codec (new_with_pools store limits pools)) e
      → (pool : String)
      → (permits pool e.queue.worker_pools + holders pool e.in_hand + holders pool e.running
          ≡ permits pool (pool_table (λ capacity. capacity) (with_default pools)))
        × (holders pool e.running
            ≤ permits pool (pool_table (λ capacity. capacity) (with_default pools)))
  unfolding new_with_pools holders
  permits_balance store limits pools e steps pool =
      let start = pool_table (λ capacity. capacity) (with_default pools) in
      let h =
        steps-IsBalanced (λ p. permits p start) start _ e steps
          (record {
            total = λ p. omega arith;
            absent = λ p none_left. refl;
            known = λ p gone. gone;
          }) in
      (omega (arith, h.total pool), omega (arith, h.total pool))
