-- ===== src/Sharded/Host/Refines.antt =====
-- The heartbeat on the locks of the host (src/sharded_queue.rs) against the heartbeat that is told for
-- each shard whether its lock can be taken.
use snerd_rust.Base.{
  ◌≡◌, refl, ap, inl, inr, String, false, not, ◌&&◌, ◌||◌, List, [], ◌∷◌, arith, Bool-cases,
  Result-cases, Result, ok, err,
}
use snerd_rust.Membership.{Membership, ClaimOutcome, claimable_shards}
use snerd_rust.Membership.Store
use snerd_rust.Membership.Store.{Codec}
use snerd_rust.Membership.Calls.{run}
use snerd_rust.RateLimiter.{FilePath}
use snerd_rust.Sharding.Lock.{
  Locks, is_locked, unlock, shard_lock_path, storage_lock_path, try_lock_shard, unlock_taken,
  is_locked-cons, storage-shard,
}
use snerd_rust.Sharded.{
  Round, Daemon, reconcile_shards, take_shard, claim_shard, claim_shards, claim_loaded, heartbeat,
}
use snerd_rust.Sharded.Host.{
  Host, HostRound, taken_lock, instantiate_on_host, take_on_host, claim_on_host, claim_all_on_host,
  claim_loaded_on_host, heartbeat_on_host,
}

module _ (queue_dir : FilePath) where
  -- The same shards can be locked.
  abbrev pub SameShardLocks : Locks → Locks → Type 0
  SameShardLocks before after =
      (k : String)
      → is_locked (shard_lock_path queue_dir k) after
        ≡ is_locked (shard_lock_path queue_dir k) before

  storage_taken :
      (shard : String) (locks : Locks)
      → SameShardLocks locks (storage_lock_path queue_dir shard ∷ locks)
  storage_taken shard locks k = ground (
    arith,
    is_locked-cons (storage_lock_path queue_dir shard) (shard_lock_path queue_dir k) locks,
    storage-shard queue_dir shard k,
  )

module _ (codec : Codec) {E : Type 0} (open_engine : String → E) (queue_dir : FilePath)
    (r : HostRound codec.Raw) (start : Locks) where
  -- The round as its shard locks show it.
  unfoldable pub seen : Round codec.Raw
  seen = record {
    owner = r.owner;
    now = r.now;
    skew = r.skew;
    load_faults = r.load_faults;
    claim_faults = r.claim_faults;
    revert_faults = r.revert_faults;
    before_claim = r.before_claim;
    before_revert = r.before_revert;
    locks = λ shard.
        not ((r.lock_faults shard).create_dir || (r.lock_faults shard).open_file)
        && not
            ((r.lock_faults shard).take_lock || is_locked (shard_lock_path queue_dir shard) start);
  }

  take_on_host-take_shard :
      (outcome : ClaimOutcome) (shard : String) (owned owned' : List String) (h : Host codec.Raw E)
      → SameShardLocks queue_dir start h.locks
      → (take_on_host codec open_engine queue_dir r outcome shard owned h).0 ≡ ok owned'
      → ((take_on_host codec open_engine queue_dir r outcome shard owned h).1.daemon, owned')
          ≡ take_shard codec open_engine seen outcome shard (h.daemon, owned)
        × SameShardLocks queue_dir start
            (take_on_host codec open_engine queue_dir r outcome shard owned h).1.locks
  unfolding take_on_host take_shard instantiate_on_host try_lock_shard taken_lock seen
  take_on_host-take_shard outcome shard owned owned' h same done =
      let path = shard_lock_path queue_dir shard in
      elim (Bool-cases (seen.locks shard)) [
        | inr refused ↦ (ground (arith, same shard), λ k. ground (arith, same k, same shard))
        | inl locked ↦
            let free : is_locked path h.locks ≡ false = ground (arith, same shard) in
            (
              ground (arith, free),
              λ k. ground (
                arith,
                free,
                unlock_taken path (shard_lock_path queue_dir k) h.locks free,
                same k,
                storage_taken queue_dir shard (unlock path (path ∷ h.locks)) k,
              ),
            )
      ]

  claim_on_host-claim_shard :
      (shard : String) (owned owned' : List String) (h : Host codec.Raw E)
      → SameShardLocks queue_dir start h.locks
      → (claim_on_host codec open_engine queue_dir r shard owned h).0 ≡ ok owned'
      → ((claim_on_host codec open_engine queue_dir r shard owned h).1.daemon, owned')
          ≡ claim_shard codec open_engine seen shard (h.daemon, owned)
        × SameShardLocks queue_dir start
            (claim_on_host codec open_engine queue_dir r shard owned h).1.locks
  unfolding claim_on_host claim_shard seen
  claim_on_host-claim_shard shard owned owned' h same done =
      let claims =
        Store.claim codec (r.claim_faults shard) shard r.owner r.now r.skew
          (run codec (r.before_claim shard) h.daemon.membership) in
      let h' : Host codec.Raw E = record h { daemon = record h.daemon { membership = claims.1 } } in
      elim (Result-cases claims.0) [
        | inr (e, refused) ↦ (ground arith, λ k. ground (arith, same k))
        | inl (outcome, granted) ↦
            let (takes, stays) =
              take_on_host-take_shard outcome shard owned owned' h' same (ground arith) in
            (ground (arith, takes), λ k. ground (arith, stays k))
      ]

  claim_all_on_host-claim_shards :
      (shards owned owned' : List String) (h : Host codec.Raw E)
      → SameShardLocks queue_dir start h.locks
      → (claim_all_on_host codec open_engine queue_dir r shards owned h).0 ≡ ok owned'
      → ((claim_all_on_host codec open_engine queue_dir r shards owned h).1.daemon, owned')
          ≡ claim_shards codec open_engine seen shards (h.daemon, owned)
        × SameShardLocks queue_dir start
            (claim_all_on_host codec open_engine queue_dir r shards owned h).1.locks
  unfolding claim_all_on_host claim_shards
  claim_all_on_host-claim_shards [] owned owned' h same done = (ground arith, same)
  claim_all_on_host-claim_shards (shard ∷ shards) owned owned' h same done =
      let first = claim_on_host codec open_engine queue_dir r shard owned h in
      elim (Result-cases first.0) [
        | inr (e, fails) ↦ absurd (ground arith)
        | inl (next, e) ↦
            let (claims, stays) = claim_on_host-claim_shard shard owned next h same e in
            let (rest, kept) =
              claim_all_on_host-claim_shards shards next owned' first.1 stays (ground arith) in
            let into = ap (claim_shards codec open_engine seen shards) claims in
            (ground (arith, e, rest, into), λ k. ground (arith, e, kept k))
      ]

  claim_loaded_on_host-claim_loaded :
      {Err : Type 0} (loaded : Result Err Membership) (owned' : List String) (h : Host codec.Raw E)
      → SameShardLocks queue_dir start h.locks
      → (claim_loaded_on_host codec open_engine queue_dir r loaded h).0 ≡ ok owned'
      → ((claim_loaded_on_host codec open_engine queue_dir r loaded h).1.daemon, owned')
          ≡ claim_loaded codec open_engine seen loaded h.daemon
        × SameShardLocks queue_dir start
            (claim_loaded_on_host codec open_engine queue_dir r loaded h).1.locks
  unfolding claim_loaded_on_host claim_loaded seen
  claim_loaded_on_host-claim_loaded (err e) owned' h same done = (ground arith, same)
  claim_loaded_on_host-claim_loaded (ok m) owned' h same done =
      claim_all_on_host-claim_shards (claimable_shards m r.now r.skew r.owner) [] owned' h same done

module _ (codec : Codec) {E : Type 0} (open_engine : String → E) (queue_dir : FilePath)
    (r : HostRound codec.Raw) where
  -- A round that does not panic does to the daemon what the heartbeat does that is told for each shard
  -- whether its lock is free at the start of the round and can be taken; and after the round the locks
  -- of shards that are held are those that were held before, so no engine keeps one.
  pub heartbeat_on_host-heartbeat :
      (h : Host codec.Raw E)
      → (heartbeat_on_host codec open_engine queue_dir r h).0 ≡ ok tt
      → (heartbeat_on_host codec open_engine queue_dir r h).1.daemon
          ≡ heartbeat codec open_engine (seen codec open_engine queue_dir r h.locks) h.daemon
        × SameShardLocks queue_dir h.locks
            (heartbeat_on_host codec open_engine queue_dir r h).1.locks
  unfolding heartbeat_on_host heartbeat seen
  heartbeat_on_host-heartbeat h done =
      let loads = Store.load codec r.load_faults h.daemon.membership in
      let h' : Host codec.Raw E = record h { daemon = record h.daemon { membership = loads.1 } } in
      let claims = claim_loaded_on_host codec open_engine queue_dir r loads.0 h' in
      elim (Result-cases claims.0) [
        | inr (e, fails) ↦ absurd (ground arith)
        | inl (owned, e) ↦
            let (same, stays) =
              claim_loaded_on_host-claim_loaded codec open_engine queue_dir r h.locks loads.0 owned
                h' (λ k. refl) e in
            let into =
              ap
                (λ (st : Daemon codec open_engine (seen codec open_engine queue_dir r h.locks)
                    × List String).
                  reconcile_shards st.1 st.0)
                same in
            (ground (arith, e, into), λ k. ground (arith, e, stays k))
      ]
