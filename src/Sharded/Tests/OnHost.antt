-- ===== src/Sharded/Tests/OnHost.antt =====
mod Fleet
use snerd_rust.Base.{
  ℕ, ◌+◌, ◌≡◌, ◌≢◌, refl, true, false, none, some, List, [], ◌∷◌, arith, lookup, ok, err,
}
use snerd_rust.Membership.{Membership, may_claim}
use snerd_rust.Membership.Store.{Faults}
use snerd_rust.Membership.Store.Atomic.{IsCalm, stored}
use snerd_rust.Membership.Claimable.{IsShard, Prints}
use snerd_rust.RateLimiter.{FilePath}
use snerd_rust.Sharding.Lock.{
  path_eq, is_locked, unlock, shard_lock_path, storage_lock_path, try_lock_shard,
}
use snerd_rust.Sharded.{SnerdShardedQueue, heartbeat}
use snerd_rust.Sharded.Host.{
  Host, HostRound, Panic, panicked, taken_lock, instantiate_on_host, take_on_host, claim_on_host,
  claim_all_on_host, claim_loaded_on_host, heartbeat_on_host,
}
use snerd_rust.Sharded.Host.Refines.{SameShardLocks, seen, heartbeat_on_host-heartbeat}
use snerd_rust.Sharded.Host.Busy.{heartbeat_on_host_busy}
use snerd_rust.Sharded.Tests.{program, codec, start, calm, idle, engine, serving}

on_host : Unit {0}
unfolding program path_eq is_locked unlock shard_lock_path storage_lock_path try_lock_shard
    taken_lock instantiate_on_host take_on_host claim_on_host claim_all_on_host claim_loaded_on_host
    heartbeat_on_host seen
on_host = tt

abbrev queue_dir : FilePath
queue_dir = "queue" ∷ []

abbrev host_round : ℕ → HostRound Membership
host_round now = record {
  owner = "a@pid-1";
  now = now;
  skew = 5;
  load_faults = calm;
  claim_faults = λ _. calm;
  revert_faults = λ _. calm;
  lock_faults = λ _. record { create_dir = false; open_file = false; take_lock = false };
  engine_panics = λ _. false;
  before_claim = λ _. [];
  before_revert = λ _. [];
}

-- In this round the lock of the shard cannot be opened.
abbrev contended : HostRound Membership
contended = record (host_round 200) {
  lock_faults = λ _. record { create_dir = false; open_file = true; take_lock = false };
}

abbrev first : Host Membership ℕ
first =
    (heartbeat_on_host codec engine queue_dir (host_round 100)
      (record { daemon = idle; locks = [] })).1

abbrev lost : Host Membership ℕ
lost = (heartbeat_on_host codec engine queue_dir contended first).1

first_serves : lookup "shard-0" first.daemon.shards ≡ some 7
unfolding on_host
first_serves = refl

first_locks : first.locks ≡ storage_lock_path queue_dir "shard-0" ∷ []
unfolding on_host
first_locks = refl

first_done :
    (heartbeat_on_host codec engine queue_dir
      (host_round 100)
      (record { daemon = idle; locks = [] })).0
    ≡ ok tt
unfolding on_host
first_done = refl

calm-IsCalm : IsCalm calm
calm-IsCalm = record {
  open_lock = refl;
  take_lock = refl;
  read = refl;
  create = refl;
  write = refl;
  sync = refl;
  rename = refl;
}

codec-Prints : Prints codec
codec-Prints m = (m, refl)

lost_stored : stored codec lost.daemon.membership ≡ some (record start { version = 3 })
unfolding on_host
lost_stored = refl

lost-IsShard : IsShard (record start { version = 3 }) "shard-0"
unfolding on_host
lost-IsShard = (0, omega arith, refl)

lost_free : lookup "shard-0" (record start { version = 3 }).claims ≡ none
unfolding on_host
lost_free = refl

lost_claimable :
    may_claim (lookup "shard-0" (record start { version = 3 }).claims) 300 5 "a@pid-1" ≡ true
unfolding on_host may_claim
lost_claimable = refl

lost_absent : lookup "shard-0" lost.daemon.shards ≡ none
unfolding on_host
lost_absent = refl

lost_unlocked : is_locked (shard_lock_path queue_dir "shard-0") lost.locks ≡ false
unfolding on_host
lost_unlocked = refl

lost_busy : is_locked (storage_lock_path queue_dir "shard-0") lost.locks ≡ true
unfolding on_host
lost_busy = refl

heartbeat_on_host-heartbeat_example :
    (first.daemon ≡ heartbeat codec engine (seen codec engine queue_dir (host_round 100) []) idle)
    × SameShardLocks queue_dir [] first.locks
heartbeat_on_host-heartbeat_example =
    heartbeat_on_host-heartbeat codec engine queue_dir (host_round 100)
      (record { daemon = idle; locks = [] }) first_done

heartbeat_on_host_busy_example :
    (heartbeat_on_host codec engine queue_dir (host_round 300) lost).0 ≡ err panicked
heartbeat_on_host_busy_example =
    heartbeat_on_host_busy codec engine queue_dir (host_round 300) lost
      (record start { version = 3 }) "shard-0" (λ k. (tt, tt)) calm-IsCalm calm-IsCalm codec-Prints
      refl refl refl lost_stored lost-IsShard lost_claimable (λ claim e. absurd (cc (e, lost_free)))
      lost_absent lost_unlocked lost_busy
