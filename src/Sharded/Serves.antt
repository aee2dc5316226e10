-- ===== src/Sharded/Serves.antt =====
-- Which engine `enqueue` of src/sharded_queue.rs gives a task to.
use snerd_rust.Base.{
  ℕ, ◌≡◌, ◌≢◌, inl, inr, String, Bool, true, Option, some, [], ◌∷◌, arith, str_eq, eq_iff, contains,
  keys, Table, lookup, lookup-insert, Bool-cases, Result, ok, err,
}
use snerd_rust.Task.{Externals, Task}
use snerd_rust.FileStore.{Serde, SaveFaults}
use snerd_rust.Sharding.Route.{route_shard, route_shard-contains}
use snerd_rust.Queue
use snerd_rust.Queue.{take_hash}
use snerd_rust.Queue.{SnerdQueue, QueueError}
use snerd_rust.Sharded.{
  SnerdShardedQueue, ShardedError, queue_error, identified, enqueue_on, enqueue,
}

contains-keys :
    {V : Type 0} (m : Table V) (k : String)
    → contains (keys m) k ≡ true
    → (v : V) × (lookup k m ≡ some v)
unfolding contains lookup
contains-keys [] k h = absurd (cc)
contains-keys ((j, v) ∷ m) k h = elim (Bool-cases (str_eq j k)) [
  | inl own ↦ (v, ground arith)
  | inr other ↦ let (w, e) = contains-keys m k (ground arith) in (w, ground arith)
]

module _ {x : Externals} (serde : Serde x) {Raw Limits : Type 0} where
  -- The answer of the engine of one shard is the answer, and no other engine is changed.
  pub record IsServedBy (faults : SaveFaults) (metadata : Option ℕ) (t : Task x) (shard : String)
      (q : SnerdQueue x Limits) (sq : SnerdShardedQueue Raw (SnerdQueue x Limits))
      (result : Result ShardedError Bool) (sq' : SnerdShardedQueue Raw (SnerdQueue x Limits))
      : Type 0 where
    pub found : lookup shard sq.shards ≡ some q
    pub answered :
        (spawns : Bool)
        → (Queue.enqueue serde faults metadata t q).0 ≡ ok spawns
        → result ≡ ok spawns
    pub failed :
        (e : QueueError)
        → (Queue.enqueue serde faults metadata t q).0 ≡ err e
        → result ≡ err (queue_error e)
    pub changed : lookup shard sq'.shards ≡ some (Queue.enqueue serde faults metadata t q).1
    pub others : (j : String) → shard ≢ j → lookup j sq'.shards ≡ lookup j sq.shards

  enqueue_on-IsServedBy :
      (faults : SaveFaults) (metadata : Option ℕ) (t : Task x) (shard : String)
      (q : SnerdQueue x Limits) (sq : SnerdShardedQueue Raw (SnerdQueue x Limits))
      → lookup shard sq.shards ≡ some q
      → IsServedBy faults metadata t shard q sq
          (enqueue_on serde faults metadata t shard sq).0
          (enqueue_on serde faults metadata t shard sq).1
  unfolding enqueue_on
  enqueue_on-IsServedBy faults metadata t shard q sq e =
      let q' = (Queue.enqueue serde faults metadata t q).1 in
      record {
        found = e;
        answered = λ spawns h. ground arith;
        failed = λ err h. ground arith;
        changed = ground (arith, lookup-insert shard shard q' sq.shards, eq_iff shard shard);
        others = λ j ne. ground (arith, lookup-insert shard j q' sq.shards, eq_iff shard j);
      }

  -- A daemon that has an engine gives each task, with a fresh id if it came without one, to the engine of
  -- the shard that its id is routed to among the shards in the map, answers what that engine answers,
  -- and changes no other engine.
  pub enqueue-IsServedBy :
      (faults : SaveFaults) (metadata : Option ℕ) (fresh_id : String) (t : Task x)
      (sq : SnerdShardedQueue Raw (SnerdQueue x Limits))
      → keys sq.shards ≢ []
      → (shard : String) × (q : SnerdQueue x Limits) × (route_shard
            (identified fresh_id t).task_id
            (keys sq.shards)
          ≡ some shard)
        × IsServedBy faults metadata
            (identified fresh_id t)
            shard
            q
            sq
            (enqueue serde faults metadata fresh_id t sq).0
            (enqueue serde faults metadata fresh_id t sq).1
  unfolding enqueue take_hash
  enqueue-IsServedBy faults metadata fresh_id t sq some_shard =
      let task = identified fresh_id t in
      let (shard, routed, owned) = route_shard-contains task.task_id (keys sq.shards) some_shard in
      let (q, found) = contains-keys sq.shards shard owned in
      let same : enqueue serde faults metadata fresh_id t sq
          ≡ enqueue_on serde faults metadata task shard sq =
        ground arith in
      (shard, q, routed, rw same (enqueue_on-IsServedBy faults metadata task shard q sq found))
