-- ===== src/Sharded/Host/Fleet.antt =====
-- All daemons of one host on a queue directory (src/sharded_queue.rs): the turns of their heartbeats in
-- any order, with losses, shutdowns and crashes between them.
pub mod Exclusive
pub mod Serving
pub mod Counts
use snerd_rust.Base.{
  ℕ, ◌+◌, String, Bool, List, [], ◌∷◌, ◌++◌, if◌then◌else◌, str_eq, without, contains, Table, ◌≡◌,
  true, none, lookup,
}
use snerd_rust.Membership.Store.{Codec, Dir}
use snerd_rust.RateLimiter.{FilePath}
use snerd_rust.Sharding.Lock.{Locks, unlock, storage_lock_path}
use snerd_rust.Sharded.{SnerdShardedQueue, retain}
use snerd_rust.Sharded.Host.{Host, HostRound, claim_on_host}

-- What a daemon has for itself.
pub record Member (E : Type 0) : Type 0 where
  pub shards : Table E
  pub processors : List String

pub record Fleet (Raw E : Type 0) : Type 0 where
  pub membership : Dir Raw
  pub locks : Locks
  pub daemons : List (Member E)

module _ {Raw E : Type 0} where
  -- A daemon as its own code sees it.
  unfoldable pub host_of : Dir Raw → Locks → Member E → Host Raw E
  host_of dir locks d = record {
    daemon = record { membership = dir; shards = d.shards; processors = d.processors };
    locks = locks;
  }

  unfoldable pub member_of : Host Raw E → Member E
  member_of h = record { shards = h.daemon.shards; processors = h.daemon.processors }

-- The storage locks of the processors are dropped.
unfoldable pub unlock_all : FilePath → List String → Locks → Locks
unfolding unlock storage_lock_path
unlock_all queue_dir [] locks = locks
unlock_all queue_dir (shard ∷ shards) locks =
    unlock (storage_lock_path queue_dir shard) (unlock_all queue_dir shards locks)

module _ (codec : Codec) {E : Type 0} (open_engine : String → E) (queue_dir : FilePath) where
  -- `turn` is one turn of the loop over the claimable shards, also one that panics; `reconcile` the end
  -- of a round. `writes` is any other change of the membership, by a load, a renewal or another host.
  -- `ends` is the drop of the last clone of an engine that has left the map; its storage lock goes with it.
  -- `crashes` is the end of a process, with all its locks.
  pub data FleetStep : Fleet codec.Raw E → Fleet codec.Raw E → Type 0 where
    joins :
        (dir : Dir codec.Raw) (locks : Locks) (ds : List (Member E))
        → FleetStep
            (record { membership = dir; locks = locks; daemons = ds })
            (record {
              membership = dir;
              locks = locks;
              daemons = record { shards = []; processors = [] } ∷ ds;
            })
    writes :
        (dir dir' : Dir codec.Raw) (locks : Locks) (ds : List (Member E))
        → FleetStep
            (record { membership = dir; locks = locks; daemons = ds })
            (record { membership = dir'; locks = locks; daemons = ds })
    turn :
        (dir : Dir codec.Raw) (locks : Locks) (hs ks : List (Member E)) (d : Member E)
        (r : HostRound codec.Raw) (shard : String) (owned : List String) (h' : Host codec.Raw E)
        → (claim_on_host codec open_engine queue_dir r shard owned (host_of dir locks d)).1 ≡ h'
        → FleetStep
            (record { membership = dir; locks = locks; daemons = hs ++ d ∷ ks })
            (record {
              membership = h'.daemon.membership;
              locks = h'.locks;
              daemons = hs ++ member_of h' ∷ ks;
            })
    reconcile :
        (dir : Dir codec.Raw) (locks : Locks) (hs ks : List (Member E)) (d : Member E)
        (owned : List String)
        → FleetStep
            (record { membership = dir; locks = locks; daemons = hs ++ d ∷ ks })
            (record {
              membership = dir;
              locks = locks;
              daemons = hs ++ record d { shards = retain owned d.shards } ∷ ks;
            })
    shuts_down :
        (dir : Dir codec.Raw) (locks : Locks) (hs ks : List (Member E)) (d : Member E)
        → FleetStep
            (record { membership = dir; locks = locks; daemons = hs ++ d ∷ ks })
            (record {
              membership = dir;
              locks = locks;
              daemons = hs ++ record d { shards = [] } ∷ ks;
            })
    ends :
        (dir : Dir codec.Raw) (locks : Locks) (hs ks : List (Member E)) (d : Member E)
        (shard : String)
        → contains d.processors shard ≡ true
        → lookup shard d.shards ≡ none
        → FleetStep
            (record { membership = dir; locks = locks; daemons = hs ++ d ∷ ks })
            (record {
              membership = dir;
              locks = unlock (storage_lock_path queue_dir shard) locks;
              daemons = hs ++ record d { processors = without shard d.processors } ∷ ks;
            })
    crashes :
        (dir : Dir codec.Raw) (locks : Locks) (hs ks : List (Member E)) (d : Member E)
        → FleetStep
            (record { membership = dir; locks = locks; daemons = hs ++ d ∷ ks })
            (record {
              membership = dir;
              locks = unlock_all queue_dir d.processors locks;
              daemons = hs ++ ks;
            })

  -- A run of any number of steps.
  pub data FleetRun : Fleet codec.Raw E → Fleet codec.Raw E → Type 0 where
    starts : (f : Fleet codec.Raw E) → FleetRun f f
    goes_on : (f g h : Fleet codec.Raw E) → FleetRun f g → FleetStep g h → FleetRun f h

-- How many processors of the shard run.
unfoldable pub copies : String → List String → ℕ
copies shard [] = 0
copies shard (k ∷ ks) = (if str_eq k shard then 1 else 0) + copies shard ks

unfoldable pub running : {E : Type 0} → String → List (Member E) → ℕ
unfolding copies
running shard [] = 0
running shard (d ∷ ds) = copies shard d.processors + running shard ds
