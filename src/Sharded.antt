-- ===== src/Sharded.antt =====
-- src/sharded_queue.rs: a daemon with one engine for each shard that it owns: the rounds of its heartbeat,
-- and `enqueue`.
pub mod Rounds
pub mod Stranded
pub mod Serves
pub mod Handlers
pub mod Host
pub mod Engines
mod Tests
use snerd_rust.Base.{
  ℕ, ◌≡◌, String, Bool, true, false, Option, none, some, List, [], ◌∷◌, if◌then◌else◌, contains,
  without, Table, lookup, insert, has_key, keys, Result, ok, err,
}
use snerd_rust.Membership.{Membership, ClaimOutcome, claimed, renewed, taken_over, claimable_shards}
use snerd_rust.Membership.Store
use snerd_rust.Membership.Store.{Codec, Dir, Faults}
use snerd_rust.Membership.Calls.{Call, run}
use snerd_rust.Sharding.Route.{route_shard}
use snerd_rust.Task.{Externals, Task, RetryableTask}
use snerd_rust.Task.Cron.{is_empty}
use snerd_rust.FileStore.{Serde, SaveFaults}
use snerd_rust.Queue.{SnerdQueue, QueueError}
use snerd_rust.Queue

-- The directory's membership, the engine of each shard in `shards`, and the shards whose processor loop
-- has been started and not been told to stop; it has a clone of the engine.
pub record SnerdShardedQueue (Raw E : Type 0) : Type 0 where
  pub membership : Dir Raw
  pub shards : Table E
  pub processors : List String

-- One round of the heartbeat: the daemon, its clock, what fails in it, and for each shard whether
-- `try_lock_shard` takes the lock.
pub record Round (Raw : Type 0) : Type 0 where
  pub owner : String
  pub now : ℕ
  pub skew : ℕ
  pub load_faults : Faults Raw
  pub claim_faults : String → Faults Raw
  pub revert_faults : String → Faults Raw
  pub locks : String → Bool
  -- What other daemons do to the membership before the claim of a shard, and before its rollback: each
  -- of these calls takes the lock of the membership anew.
  pub before_claim : String → List (Call Raw)
  pub before_revert : String → List (Call Raw)

-- Whether the outcome of a claim starts an engine.
unfoldable pub starts : ClaimOutcome → Bool
starts claimed = true
starts renewed = false
starts (taken_over _) = true

unfoldable pub without_all : List String → List String → List String
without_all [] ids = ids
without_all (k ∷ ks) ids = without k (without_all ks ids)

module _ {E : Type 0} where
  unfoldable pub retain : List String → Table E → Table E
  retain owned [] = []
  retain owned ((shard, e) ∷ shards) =
      let rest = retain owned shards in if contains owned shard then (shard, e) ∷ rest else rest

  module _ {Raw : Type 0} where
    -- `open_engine` is the engine on the shard's log. Where its construction panics is in `Host`.
    unfoldable pub instantiate_shard :
        (String → E) → String → SnerdShardedQueue Raw E → SnerdShardedQueue Raw E
    instantiate_shard open_engine shard sq = if has_key shard sq.shards then sq else record sq {
      shards = insert shard (open_engine shard) sq.shards;
      processors = shard ∷ sq.processors;
    }

    -- The engines of shards that are not owned are taken out of the map. Their processors run on.
    unfoldable pub reconcile_shards :
        List String → SnerdShardedQueue Raw E → SnerdShardedQueue Raw E
    unfolding retain
    reconcile_shards owned sq = record sq { shards = retain owned sq.shards }

    -- Tells the processors of the engines in the map to stop, and drops the engines.
    unfoldable pub shutdown : SnerdShardedQueue Raw E → SnerdShardedQueue Raw E
    unfolding without_all
    shutdown sq = record sq { shards = []; processors = without_all (keys sq.shards) sq.processors }

module _ (codec : Codec) {E : Type 0} (open_engine : String → E) (r : Round codec.Raw) where
  abbrev pub Daemon : Type 0
  Daemon = SnerdShardedQueue codec.Raw E

  -- What follows a claim that succeeded. The list holds the shards owned in this round.
  unfoldable pub take_shard : ClaimOutcome → String → Daemon × List String → Daemon × List String
  unfolding starts instantiate_shard
  take_shard outcome shard (sq, owned) =
      if r.locks shard
      then (if starts outcome then instantiate_shard open_engine shard sq else sq, shard ∷ owned)
      else (
        record sq {
          membership =
              (Store.revert_claim codec (r.revert_faults shard) shard r.owner
                (run codec (r.before_revert shard) sq.membership)).1;
        },
        owned,
      )

  unfoldable pub claim_shard : String → Daemon × List String → Daemon × List String
  unfolding take_shard
  claim_shard shard (sq, owned) =
      let (result, dir) =
        Store.claim codec (r.claim_faults shard) shard r.owner r.now r.skew
          (run codec (r.before_claim shard) sq.membership) in
      let sq' = record sq { membership = dir } in
      elim result [ err _ ↦ (sq', owned) | ok outcome ↦ take_shard outcome shard (sq', owned) ]

  unfoldable pub claim_shards : List String → Daemon × List String → Daemon × List String
  unfolding claim_shard
  claim_shards [] state = state
  claim_shards (shard ∷ shards) state = claim_shards shards (claim_shard shard state)

  unfoldable pub claim_loaded :
      {Err : Type 0} → Result Err Membership → Daemon → Daemon × List String
  unfolding claim_shards
  claim_loaded (err _) sq = (sq, [])
  claim_loaded (ok m) sq = claim_shards (claimable_shards m r.now r.skew r.owner) (sq, [])

  -- One round of the loop of `start_membership_heartbeat`.
  unfoldable pub heartbeat : Daemon → Daemon
  unfolding claim_loaded reconcile_shards
  heartbeat sq =
      let (loaded, dir) = Store.load codec r.load_faults sq.membership in
      let (taken, owned) = claim_loaded loaded (record sq { membership = dir }) in
      reconcile_shards owned taken

-- `fresh_id` is a new UUID.
unfoldable pub identified : {F64 : Type 0} → String → RetryableTask F64 → RetryableTask F64
unfolding is_empty
identified fresh_id t = if is_empty t.task_id then record t { task_id = fresh_id } else t

pub data ShardedError : Type 0 where
  standby not_found : ShardedError
  queue_error : QueueError → ShardedError

module _ {x : Externals} (serde : Serde x) {Raw Limits : Type 0} where
  unfoldable pub enqueue_on :
      SaveFaults
      → Option ℕ
      → Task x
      → String
      → SnerdShardedQueue Raw (SnerdQueue x Limits)
      → Result ShardedError Bool × SnerdShardedQueue Raw (SnerdQueue x Limits)
  enqueue_on faults metadata t shard sq = elim (lookup shard sq.shards) [
    | none ↦ (err not_found, sq)
    | some q ↦
        let (result, q') = Queue.enqueue serde faults metadata t q in
        (
          elim result [ ok spawns ↦ ok spawns | err e ↦ err (queue_error e) ],
          record sq { shards = insert shard q' sq.shards },
        )
  ]

  unfoldable pub enqueue :
      SaveFaults
      → Option ℕ
      → String
      → Task x
      → SnerdShardedQueue Raw (SnerdQueue x Limits)
      → Result ShardedError Bool × SnerdShardedQueue Raw (SnerdQueue x Limits)
  unfolding identified enqueue_on
  enqueue faults metadata fresh_id t sq =
      let task = identified fresh_id t in
      elim (route_shard task.task_id (keys sq.shards)) [
        | none ↦ (err standby, sq)
        | some shard ↦ enqueue_on faults metadata task shard sq
      ]
