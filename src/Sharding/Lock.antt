-- ===== src/Sharding/Lock.antt =====
-- The locks on files that the processes of one host hold: `try_lock_shard` of src/sharding.rs, and the
-- paths of the lock of a shard and of the storage lock of its engine (src/queue.rs).
use Prim.Native.String.{◌++◌ as ◌<>◌}
use Prim.Native.String.append
use snerd_rust.Base.{
  ◌≡◌, refl, ◌↔◌, String, Bool, true, false, ◌&&◌, ◌||◌, Option, none, some, List, [], ◌∷◌, arith,
  if◌then◌else◌, str_eq, eq_iff, Result, ok, err,
}
use snerd_rust.RateLimiter.{FilePath, IoError, io}
use snerd_rust.RateLimiter.Location.{shard_dir}

-- The files on which a process has an exclusive flock. A file has one holder at most, and a second
-- handle in the holder's own process is refused like any other.
abbrev pub Locks : Type 0
Locks = List FilePath

unfoldable pub path_eq : FilePath → FilePath → Bool
path_eq [] [] = true
path_eq [] (y ∷ ys) = false
path_eq (x ∷ xs) [] = false
path_eq (x ∷ xs) (y ∷ ys) = str_eq x y && path_eq xs ys

unfoldable pub is_locked : FilePath → Locks → Bool
unfolding path_eq
is_locked p [] = false
is_locked p (q ∷ locks) = path_eq q p || is_locked p locks

-- A handle is dropped.
unfoldable pub unlock : FilePath → Locks → Locks
unfolding path_eq
unlock p [] = []
unlock p (q ∷ locks) = let rest = unlock p locks in if path_eq q p then rest else q ∷ rest

unfoldable pub shard_lock_path : FilePath → String → FilePath
unfolding shard_dir
shard_lock_path queue_dir shard = ".lock" ∷ shard_dir queue_dir shard

unfoldable pub tasks_log_path : FilePath → String → FilePath
unfolding shard_dir
tasks_log_path queue_dir shard = "tasks.log" ∷ "tasks" ∷ shard_dir queue_dir shard

-- `lock_path.push(".lock")` on the text of a path.
unfoldable pub storage_lock_of : FilePath → FilePath
storage_lock_of [] = ".lock" ∷ []
storage_lock_of (last ∷ parent) = (last <> ".lock") ∷ parent

unfoldable pub storage_lock_path : FilePath → String → FilePath
unfolding storage_lock_of tasks_log_path
storage_lock_path queue_dir shard = storage_lock_of (tasks_log_path queue_dir shard)

-- The calls of the operating system in `try_lock_shard` that fail; `take_lock` says that the flock fails
-- for another reason than a holder.
pub record LockFaults : Type 0 where
  pub create_dir : Bool
  pub open_file : Bool
  pub take_lock : Bool

-- The path stands for the ShardLock that holds it. The process id that is written into the file, where
-- nothing reads it, is left out.
unfoldable pub try_lock_shard :
    LockFaults → FilePath → String → Locks → Result IoError (Option FilePath) × Locks
unfolding is_locked shard_lock_path
try_lock_shard faults queue_dir shard locks =
    let path = shard_lock_path queue_dir shard in
    if faults.create_dir || faults.open_file
    then (err io, locks)
    else if faults.take_lock || is_locked path locks
    then (ok none, locks)
    else (ok (some path), path ∷ locks)

pub path_eq_iff : (p q : FilePath) → (path_eq p q ≡ true) ↔ (p ≡ q)
unfolding path_eq
path_eq_iff [] [] = ((λ e. refl), (λ e. refl))
path_eq_iff [] (y ∷ ys) = ((λ e. cc e), (λ e. cc e))
path_eq_iff (x ∷ xs) [] = ((λ e. cc e), (λ e. cc e))
path_eq_iff (x ∷ xs) (y ∷ ys) = (
  (λ e. ground (arith, eq_iff x y, path_eq_iff xs ys)),
  (λ e. ground (arith, eq_iff x y, path_eq_iff xs ys)),
)

pub is_locked-unlock :
    (p q : FilePath) (locks : Locks)
    → is_locked q (unlock p locks) ≡ (if path_eq p q then false else is_locked q locks)
unfolding is_locked unlock
is_locked-unlock p q [] = ground arith
is_locked-unlock p q (r ∷ locks) =
    ground (arith, is_locked-unlock p q locks, path_eq_iff p q, path_eq_iff r p, path_eq_iff r q)

pub is_locked-cons :
    (p q : FilePath) (locks : Locks) → is_locked q (p ∷ locks) ≡ (path_eq p q || is_locked q locks)
unfolding is_locked
is_locked-cons p q locks = refl

-- A lock is taken and dropped again.
pub unlock_taken :
    (p q : FilePath) (locks : Locks)
    → is_locked p locks ≡ false
    → is_locked q (unlock p (p ∷ locks)) ≡ is_locked q locks
unlock_taken p q locks free =
    ground
      (arith, is_locked-unlock p q (p ∷ locks), is_locked-cons p q locks, path_eq_iff p q, free)

-- The lock of a shard is not the storage lock of any engine.
pub storage-shard :
    (queue_dir : FilePath) (k j : String)
    → path_eq (storage_lock_path queue_dir k) (shard_lock_path queue_dir j) ≡ false
unfolding path_eq storage_lock_path storage_lock_of tasks_log_path shard_lock_path
storage-shard queue_dir k j =
    let starts_with_t = append.cons "t" "asks.log" ".lock" in
    ground (arith, starts_with_t, eq_iff ("tasks.log" <> ".lock") ".lock")

pub shard-storage :
    (queue_dir : FilePath) (k j : String)
    → path_eq (shard_lock_path queue_dir k) (storage_lock_path queue_dir j) ≡ false
unfolding path_eq storage_lock_path storage_lock_of tasks_log_path shard_lock_path
shard-storage queue_dir k j =
    let starts_with_t = append.cons "t" "asks.log" ".lock" in
    ground (arith, starts_with_t, eq_iff ".lock" ("tasks.log" <> ".lock"))

pub path_eq_refl : (p : FilePath) → path_eq p p ≡ true
path_eq_refl p = (path_eq_iff p p).1 refl

pub storage-storage :
    (queue_dir : FilePath) (k j : String)
    → path_eq (storage_lock_path queue_dir k) (storage_lock_path queue_dir j) ≡ str_eq k j
unfolding path_eq storage_lock_path storage_lock_of tasks_log_path shard_dir
storage-storage queue_dir k j =
    ground (arith, eq_iff ("tasks.log" <> ".lock") ("tasks.log" <> ".lock"), path_eq_refl queue_dir)

pub shard-shard :
    (queue_dir : FilePath) (k j : String)
    → path_eq (shard_lock_path queue_dir k) (shard_lock_path queue_dir j) ≡ str_eq k j
unfolding path_eq shard_lock_path shard_dir
shard-shard queue_dir k j = ground (arith, path_eq_refl queue_dir)
