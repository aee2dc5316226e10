-- ===== src/Sharded/Engines/Permits.antt =====
-- How many tasks the engines of one daemon execute at a time (src/sharded_queue.rs).
use snerd_rust.Base.{
  ℕ, ◌+◌, ◌-◌, ◌≤◌, ◌≡◌, ◌≢◌, refl, String, none, some, [], ◌∷◌, arith, Table, lookup, insert,
  eq_iff,
}
use snerd_rust.Task.{Externals}
use snerd_rust.FileStore.{Serde}
use snerd_rust.RateLimiter.{Codec}
use snerd_rust.Queue.Run.{Engine}
use snerd_rust.Queue.Run
use snerd_rust.Queue.Run.Permits.{IsBalanced, Step-IsBalanced}
use snerd_rust.Queue.Run.Counted.{permits, holders, IsCounted}
use snerd_rust.Sharded.Engines.{
  Own, Daemon, new_with_shared_pools, new_pools, engine_of, shared_of, own_of, DaemonStep, opens,
  steps, DaemonSteps, start, next, new_daemon,
}

module _ {x : Externals} where
  -- The permits of a pool that one engine has taken.
  unfoldable pub taken : String → Own x → ℕ
  taken pool own = holders pool own.in_hand + holders pool own.running

  unfoldable pub all_taken : String → Table (Own x) → ℕ
  unfolding taken
  all_taken pool [] = 0
  all_taken pool ((shard, own) ∷ engines) = taken pool own + all_taken pool engines

  -- The tasks of a pool that are in execution in all engines.
  unfoldable pub all_running : String → Table (Own x) → ℕ
  all_running pool [] = 0
  all_running pool ((shard, own) ∷ engines) = holders pool own.running + all_running pool engines

  all_running-le :
      (pool : String) (engines : Table (Own x)) → all_running pool engines ≤ all_taken pool engines
  unfolding all_running all_taken
  all_running-le pool [] = omega arith
  all_running-le pool ((shard, own) ∷ engines) = omega (arith, all_running-le pool engines)

  all_taken-insert :
      (pool shard : String) (old new : Own x) (engines : Table (Own x))
      → lookup shard engines ≡ some old
      → all_taken pool (insert shard new engines) + taken pool old
        ≡ all_taken pool engines + taken pool new
  unfolding all_taken lookup insert
  all_taken-insert pool shard old new [] h = absurd (cc h)
  all_taken-insert pool shard old new ((s, own) ∷ engines) h =
      ground (arith, all_taken-insert pool shard old new engines)

  all_taken_new :
      (pool shard : String) (new : Own x) (engines : Table (Own x))
      → lookup shard engines ≡ none
      → all_taken pool (insert shard new engines) ≡ all_taken pool engines + taken pool new
  unfolding all_taken lookup insert
  all_taken_new pool shard new [] h = omega arith
  all_taken_new pool shard new ((s, own) ∷ engines) h =
      ground (arith, all_taken_new pool shard new engines)

  taken-le :
      (pool shard : String) (own : Own x) (engines : Table (Own x))
      → lookup shard engines ≡ some own
      → taken pool own ≤ all_taken pool engines
  unfolding all_taken lookup
  taken-le pool shard own [] h = absurd (cc h)
  taken-le pool shard own ((s, o) ∷ engines) h = ground (arith, taken-le pool shard own engines)

module _ {x : Externals} (serde : Serde x) (codec : Codec) (first : Table ℕ) where
  -- The engines together hold the permits that are not free.
  abbrev AreBalanced : Daemon x codec → Type 0
  AreBalanced d =
      IsCounted (λ pool. permits pool first) first (λ pool. all_taken pool d.engines)
        d.shared.worker_pools

  Step-AreBalanced :
      (shard : String) (own : Own x) (e : Engine x codec) (d : Daemon x codec)
      → lookup shard d.engines ≡ some own
      → Run.Step serde codec (engine_of codec d.shared own) e
      → AreBalanced d
      → AreBalanced
          (record { shared = shared_of codec e; engines = insert shard (own_of codec e) d.engines })
  unfolding engine_of shared_of own_of taken permits
  Step-AreBalanced shard own e d found step h =
      let others = λ (pool : String). all_taken pool d.engines - taken pool own in
      let alone = λ (pool : String). permits pool first - others pool in
      let before : IsBalanced serde codec alone first (engine_of codec d.shared own) = record {
        total = λ pool. omega (arith, h.total pool, taken-le pool shard own d.engines found);
        absent =
            λ pool gone. omega (arith, h.absent pool gone, taken-le pool shard own d.engines found);
        known = h.known;
      } in
      let after =
        Step-IsBalanced serde codec alone first (engine_of codec d.shared own) e step before in
      let total : (pool : String)
          → permits pool e.queue.worker_pools
              + all_taken pool (insert shard (own_of codec e) d.engines)
            ≡ permits pool first =
        λ pool. omega (
          arith,
          after.total pool,
          h.total pool,
          taken-le pool shard own d.engines found,
          all_taken-insert pool shard own (own_of codec e) d.engines found,
        ) in
      record {
        total = total;
        absent = λ pool gone. ground (arith, total pool, after.known pool gone);
        known = after.known;
      }

  DaemonStep-AreBalanced :
      {a b : Daemon x codec} → DaemonStep serde codec a b → AreBalanced a → AreBalanced b
  unfolding new_with_shared_pools taken holders
  DaemonStep-AreBalanced (opens shard file_store d fresh) h = record {
    total = λ pool. omega (
      arith,
      h.total pool,
      all_taken_new pool shard (new_with_shared_pools file_store) d.engines fresh,
    );
    absent = λ pool gone. omega (
      arith,
      h.absent pool gone,
      all_taken_new pool shard (new_with_shared_pools file_store) d.engines fresh,
    );
    known = h.known;
  }
  DaemonStep-AreBalanced (steps shard own e d found step) h =
      Step-AreBalanced shard own e d found step h

  steps-AreBalanced :
      {a b : Daemon x codec} → DaemonSteps serde codec a b → AreBalanced a → AreBalanced b
  steps-AreBalanced start h = h
  steps-AreBalanced (next before step) h = DaemonStep-AreBalanced step (steps-AreBalanced before h)

module _ {x : Externals} (serde : Serde x) (codec : Codec) where
  -- However many shards a daemon has engines for, whatever fails, and in whatever order the engines take
  -- their steps: the free permits of the pool `default` and those that the engines have taken are always
  -- 100, so at most 100 tasks are in execution at a time in all engines together; there is no permit of
  -- any other pool, and no task is in execution with one. (A task that names another pool runs with a
  -- permit of `default`.)
  pub daemon_permits :
      (rate_limits : codec.Raw) (d : Daemon x codec)
      → DaemonSteps serde codec (new_daemon x codec rate_limits) d
      → (permits "default" d.shared.worker_pools + all_taken "default" d.engines ≡ 100)
        × (all_running "default" d.engines ≤ 100)
        × ((pool : String)
            → pool ≢ "default"
            → (permits pool d.shared.worker_pools ≡ 0) × (all_running pool d.engines ≡ 0))
  unfolding new_pools all_taken lookup permits
  daemon_permits rate_limits d run =
      let first = (new_pools {x = x} rate_limits).worker_pools in
      let h = steps-AreBalanced serde codec first run (record {
        total = λ pool. omega arith;
        absent = λ pool gone. refl;
        known = λ pool gone. gone;
      }) in
      (
        h.total "default",
        omega (arith, h.total "default", all_running-le "default" d.engines),
        λ pool other. (
          ground (arith, h.total pool, eq_iff "default" pool),
          ground (arith, h.total pool, all_running-le pool d.engines, eq_iff "default" pool),
        ),
      )
