-- ===== src/Sharded/Host/Fleet/Counts.antt =====
-- How many processors of a shard run in a list of daemons (src/sharded_queue.rs).
use snerd_rust.Base.{
  ◌+◌, ◌≤◌, ◌≡◌, refl, String, true, List, [], ◌∷◌, ◌++◌, arith, if◌then◌else◌, str_eq, eq_iff,
  without, contains,
}
use snerd_rust.RateLimiter.{FilePath}
use snerd_rust.Sharding.Lock.{
  Locks, is_locked, storage_lock_path, is_locked-unlock, storage-storage,
}
use snerd_rust.Sharded.Host.Fleet.{Member, unlock_all, copies, running}

pub running-append :
    {E : Type 0} (shard : String) (ds es : List (Member E))
    → running shard (ds ++ es) ≡ running shard ds + running shard es
unfolding running
running-append shard [] es = omega arith
running-append shard (d ∷ ds) es = omega (arith, running-append shard ds es)

running-cons :
    {E : Type 0} (shard : String) (d : Member E) (ds : List (Member E))
    → running shard (d ∷ ds) ≡ copies shard d.processors + running shard ds
unfolding running
running-cons shard d ds = refl

pub copies-without :
    (shard k : String) (ks : List String)
    → copies shard (without k ks) ≡ (if str_eq k shard then 0 else copies shard ks)
unfolding copies without
copies-without shard k [] = ground arith
copies-without shard k (j ∷ ks) =
    ground (arith, copies-without shard k ks, eq_iff j k, eq_iff j shard, eq_iff k shard)

pub copies-contains :
    (shard : String) (ks : List String) → contains ks shard ≡ true → 1 ≤ copies shard ks
unfolding copies contains
copies-contains shard [] h = absurd (cc h)
copies-contains shard (k ∷ ks) h = ground (arith, copies-contains shard ks)

pub is_locked-unlock_all :
    (queue_dir : FilePath) (shard : String) (ks : List String) (locks : Locks)
    → copies shard ks ≡ 0
    → is_locked (storage_lock_path queue_dir shard) (unlock_all queue_dir ks locks)
      ≡ is_locked (storage_lock_path queue_dir shard) locks
unfolding copies unlock_all
is_locked-unlock_all queue_dir shard [] locks none_runs = refl
is_locked-unlock_all queue_dir shard (k ∷ ks) locks none_runs = ground (
  arith,
  is_locked-unlock_all queue_dir shard ks locks,
  is_locked-unlock (storage_lock_path queue_dir k) (storage_lock_path queue_dir shard)
      (unlock_all queue_dir ks locks),
  storage-storage queue_dir k shard,
)
