-- ===== src/Sharded/Host/Effects.antt =====
-- What the turn of one shard in a round of the heartbeat (src/sharded_queue.rs) does to the engines and
-- to the locks of the host.
use snerd_rust.Base.{
  ◌≡◌, ◌⊎◌, inl, inr, String, false, ◌||◌, List, ◌∷◌, arith, Bool-cases, Result-cases, none,
  Option-cases, lookup, insert,
}
use snerd_rust.Membership.{ClaimOutcome}
use snerd_rust.Membership.Store
use snerd_rust.Membership.Store.{Codec, Dir}
use snerd_rust.Membership.Calls.{run}
use snerd_rust.RateLimiter.{FilePath}
use snerd_rust.Sharding.Lock.{
  path_eq, is_locked, unlock, shard_lock_path, storage_lock_path, try_lock_shard, unlock_taken,
  is_locked-cons,
}
use snerd_rust.Sharded.{starts, instantiate_shard}
use snerd_rust.Sharded.Host.{
  Host, HostRound, taken_lock, instantiate_on_host, take_on_host, claim_on_host,
}

module _ {Raw E : Type 0} (h h' : Host Raw E) where
  -- No engine is made, and no lock is held that was not held before.
  pub record IsQuiet : Type 0 where
    pub shards : h'.daemon.shards ≡ h.daemon.shards
    pub processors : h'.daemon.processors ≡ h.daemon.processors
    pub locks : (q : FilePath) → is_locked q h'.locks ≡ is_locked q h.locks

  -- The engine of the shard is made and takes its storage lock, which was free.
  pub record IsStarted (queue_dir : FilePath) (shard : String) : Type 0 where
    pub absent : lookup shard h.daemon.shards ≡ none
    pub engine : E
    pub shards : h'.daemon.shards ≡ insert shard engine h.daemon.shards
    pub processors : h'.daemon.processors ≡ shard ∷ h.daemon.processors
    pub free : is_locked (storage_lock_path queue_dir shard) h.locks ≡ false
    pub locks :
        (q : FilePath)
        → is_locked q h'.locks
          ≡ (path_eq (storage_lock_path queue_dir shard) q || is_locked q h.locks)

module _ (codec : Codec) {E : Type 0} (open_engine : String → E) (queue_dir : FilePath)
    (r : HostRound codec.Raw) where
  instantiate_on_host_cases :
      (shard : String) (h : Host codec.Raw E)
      → let path = shard_lock_path queue_dir shard in
        let h' =
          (instantiate_on_host codec open_engine queue_dir r path shard
            (record h { locks = path ∷ h.locks })).1 in
        is_locked path h.locks ≡ false → IsQuiet h h' ⊎ IsStarted h h' queue_dir shard
  unfolding instantiate_on_host instantiate_shard
  instantiate_on_host_cases shard h free =
      let path = shard_lock_path queue_dir shard in
      let storage = storage_lock_path queue_dir shard in
      let locks = unlock path (path ∷ h.locks) in
      let same = λ (q : FilePath). unlock_taken path q h.locks free in
      elim (Option-cases (lookup shard h.daemon.shards)) [
        | inr (e, found) ↦ inl (record {
          shards = ground arith;
          processors = ground arith;
          locks = λ q. ground (arith, same q);
        })
        | inl absent ↦ elim (Bool-cases (r.engine_panics shard || is_locked storage locks)) [
          | inl panics ↦ inl (record {
            shards = ground arith;
            processors = ground arith;
            locks = λ q. ground (arith, same q);
          })
          | inr makes ↦ inr (record {
            absent = absent;
            engine = open_engine shard;
            shards = ground arith;
            processors = ground arith;
            free = ground (arith, same storage);
            locks = λ q. ground (arith, same q, is_locked-cons storage q locks);
          })
        ]
      ]

  take_on_host_cases :
      (outcome : ClaimOutcome) (shard : String) (owned : List String) (h : Host codec.Raw E)
      → let h' = (take_on_host codec open_engine queue_dir r outcome shard owned h).1 in
        IsQuiet h h' ⊎ IsStarted h h' queue_dir shard
  unfolding take_on_host try_lock_shard taken_lock
  take_on_host_cases outcome shard owned h =
      let path = shard_lock_path queue_dir shard in
      let faults =
        (r.lock_faults shard).create_dir
        || (r.lock_faults shard).open_file
        || (r.lock_faults shard).take_lock in
      let h' = (take_on_host codec open_engine queue_dir r outcome shard owned h).1 in
      let held : Host codec.Raw E = record h { locks = path ∷ h.locks } in
      let made = instantiate_on_host codec open_engine queue_dir r path shard held in
      elim (Bool-cases (faults || is_locked path h.locks)) [
        | inl refused ↦
            inl (record {
              shards = ground arith;
              processors = ground arith;
              locks = λ q. ground arith;
            })
        | inr taken ↦
            let free : is_locked path h.locks ≡ false = ground arith in
            elim (Bool-cases (starts outcome)) [
              | inr renews ↦ inl (record {
                shards = ground arith;
                processors = ground arith;
                locks = λ q. ground (arith, unlock_taken path q h.locks free);
              })
              | inl starting ↦
                  let same : h' ≡ made.1 = elim (Result-cases made.0) [
                    | inl (u, e) ↦ ground arith
                    | inr (e, panics) ↦ ground arith
                  ] in
                  rw same (instantiate_on_host_cases shard h free)
            ]
      ]

  pub claim_on_host_cases :
      (shard : String) (owned : List String) (h : Host codec.Raw E)
      → let h' = (claim_on_host codec open_engine queue_dir r shard owned h).1 in
        IsQuiet h h' ⊎ IsStarted h h' queue_dir shard
  unfolding claim_on_host
  claim_on_host_cases shard owned h =
      let claims =
        Store.claim codec (r.claim_faults shard) shard r.owner r.now r.skew
          (run codec (r.before_claim shard) h.daemon.membership) in
      let h₁ : Host codec.Raw E = record h { daemon = record h.daemon { membership = claims.1 } } in
      let h' = (claim_on_host codec open_engine queue_dir r shard owned h).1 in
      elim (Result-cases claims.0) [
        | inr (e, refused) ↦
            inl (record {
              shards = ground arith;
              processors = ground arith;
              locks = λ q. ground arith;
            })
        | inl (outcome, granted) ↦
            let taken = (take_on_host codec open_engine queue_dir r outcome shard owned h₁).1 in
            let same : h' ≡ taken = ground arith in
            rw same (elim (take_on_host_cases outcome shard owned h₁) [
              | inl quiet ↦ inl (record {
                shards = quiet.shards;
                processors = quiet.processors;
                locks = quiet.locks;
              })
              | inr started ↦ inr (record {
                absent = started.absent;
                engine = started.engine;
                shards = started.shards;
                processors = started.processors;
                free = started.free;
                locks = started.locks;
              })
            ])
      ]
