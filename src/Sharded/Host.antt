-- ===== src/Sharded/Host.antt =====
-- The heartbeat of src/sharded_queue.rs on the locks of its host: `try_lock_shard` before an engine is
-- made, and the storage lock that `new_with_shared_pools` of src/queue.rs takes or panics.
pub mod Effects
pub mod Entry
pub mod Refines
pub mod Busy
pub mod Fleet
use snerd_rust.Base.{
  ℕ, String, Bool, ◌||◌, Option, none, some, List, [], ◌∷◌, if◌then◌else◌, has_key, Result, ok, err,
  Exec, pure, continue, ◌>>=◌, ◌>>◌,
}
use snerd_rust.Membership.{Membership, ClaimOutcome, claimable_shards}
use snerd_rust.Membership.Store
use snerd_rust.Membership.Store.{Codec, Faults}
use snerd_rust.Membership.Calls.{Call, run}
use snerd_rust.RateLimiter.{FilePath}
use snerd_rust.Sharding.Lock.{
  Locks, LockFaults, is_locked, unlock, storage_lock_path, try_lock_shard,
}
use snerd_rust.Sharded.{SnerdShardedQueue, starts, instantiate_shard, reconcile_shards}

-- A daemon, and the locks that all processes of its host hold.
pub record Host (Raw E : Type 0) : Type 0 where
  pub daemon : SnerdShardedQueue Raw E
  pub locks : Locks

-- One round: the daemon, its clock, and what fails in it; `engine_panics` are the shards whose engine
-- cannot be made for another reason than a lock that is taken.
pub record HostRound (Raw : Type 0) : Type 0 where
  pub owner : String
  pub now : ℕ
  pub skew : ℕ
  pub load_faults : Faults Raw
  pub claim_faults : String → Faults Raw
  pub revert_faults : String → Faults Raw
  pub lock_faults : String → LockFaults
  pub engine_panics : String → Bool
  -- What other daemons do to the membership before the claim of a shard, and before its rollback: each
  -- of these calls takes the lock of the membership anew.
  pub before_claim : String → List (Call Raw)
  pub before_revert : String → List (Call Raw)

-- The task of the heartbeat has panicked, and runs no further round.
pub data Panic : Type 0 where
  panicked : Panic

-- The pattern `Ok(Some(_lock))`.
unfoldable pub taken_lock : {Err : Type 0} → Result Err (Option FilePath) → Option FilePath
taken_lock (ok lock) = lock
taken_lock (err _) = none

module _ (codec : Codec) {E : Type 0} (open_engine : String → E) (queue_dir : FilePath)
    (r : HostRound codec.Raw) where
  abbrev pub M : Type 0 → Type 0
  M A = Exec (Host codec.Raw E) Panic A

  -- The new engine holds its storage lock, and the lock of the shard is dropped before it is made.
  unfoldable pub instantiate_on_host : FilePath → String → M (Unit {0})
  unfolding instantiate_shard
  instantiate_on_host lock shard h =
      let free = unlock lock h.locks in
      let storage = storage_lock_path queue_dir shard in
      if has_key shard h.daemon.shards
      then (ok tt, record h { locks = free })
      else if r.engine_panics shard || is_locked storage free
      then (err panicked, record h { locks = free })
      else (
        ok tt,
        record { daemon = instantiate_shard open_engine shard h.daemon; locks = storage ∷ free },
      )

  -- What followed a claim that succeeded: the shards owned in this round.
  unfoldable pub take_on_host : ClaimOutcome → String → List String → M (List String)
  unfolding starts instantiate_on_host taken_lock
  take_on_host outcome shard owned h =
      let (taken, locks) = try_lock_shard (r.lock_faults shard) queue_dir shard h.locks in
      elim (taken_lock taken) [
        | some lock ↦
            if starts outcome
            then (instantiate_on_host lock shard >> pure (shard ∷ owned))
                (record h { locks = locks })
            else (ok (shard ∷ owned), record h { locks = unlock lock locks })
        | none ↦ (
          ok owned,
          record {
            daemon = record h.daemon {
              membership =
                  (Store.revert_claim codec (r.revert_faults shard) shard r.owner
                    (run codec (r.before_revert shard) h.daemon.membership)).1;
            };
            locks = locks;
          },
        )
      ]

  unfoldable pub claim_on_host : String → List String → M (List String)
  unfolding take_on_host
  claim_on_host shard owned h =
      let (result, dir) =
        Store.claim codec (r.claim_faults shard) shard r.owner r.now r.skew
          (run codec (r.before_claim shard) h.daemon.membership) in
      let h' = record h { daemon = record h.daemon { membership = dir } } in
      elim result [ err _ ↦ (ok owned, h') | ok outcome ↦ take_on_host outcome shard owned h' ]

  unfoldable pub claim_all_on_host : List String → List String → M (List String)
  unfolding claim_on_host
  claim_all_on_host [] owned h = (ok owned, h)
  claim_all_on_host (shard ∷ shards) owned h =
      let (result, h') = claim_on_host shard owned h in
      elim result [ err e ↦ (err e, h') | ok owned' ↦ claim_all_on_host shards owned' h' ]

  unfoldable pub claim_loaded_on_host : {Err : Type 0} → Result Err Membership → M (List String)
  unfolding claim_all_on_host
  claim_loaded_on_host (err _) h = (ok [], h)
  claim_loaded_on_host (ok m) h = claim_all_on_host (claimable_shards m r.now r.skew r.owner) [] h

  -- One round of the loop of `start_membership_heartbeat`.
  unfoldable pub heartbeat_on_host : M (Unit {0})
  unfolding claim_loaded_on_host reconcile_shards
  heartbeat_on_host h =
      let (loaded, dir) = Store.load codec r.load_faults h.daemon.membership in
      let (result, h') =
        claim_loaded_on_host loaded (record h { daemon = record h.daemon { membership = dir } }) in
      elim result [
        | err e ↦ (err e, h')
        | ok owned ↦ (ok tt, record h' { daemon = reconcile_shards owned h'.daemon })
      ]
