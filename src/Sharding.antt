-- ===== src/Sharding.antt =====
-- src/sharding.rs: what a queue directory is at boot, adoption of a legacy one, and routing.
pub mod Route
pub mod Boot
pub mod Lock
mod Tests
use snerd_rust.Base.{
  ℕ, ◌≡◌, String, Bool, true, false, Option, none, some, if◌then◌else◌, is_some, Result, ok, err,
  Exec, pure, puts, fails_if, continue, ◌>>=◌, ◌>>◌,
}
use snerd_rust.Membership.{MembershipError, Membership}
use snerd_rust.Membership.Store
use snerd_rust.Membership.Store.{Codec, Dir, Faults}

pub data StorageLayout : Type 0 where
  sharded legacy fresh : StorageLayout

-- The files of a queue directory that the boot looks at. `Log` is the content of a task log; of
-- a lock file only its presence counts. `lock_held` says that another process holds the flock on
-- the legacy lock file.
pub record QueueDir (Raw Log : Type 0) : Type 0 where
  pub dir : Dir Raw
  pub legacy_log : Option Log
  pub legacy_lock : Bool
  pub lock_held : Bool
  pub shard0_log : Option Log
  pub shard0_lock : Bool

pub data BootError : Type 0 where
  membership_error : MembershipError → BootError
  another_daemon io panicked : BootError

-- The calls of the operating system in `migrate_legacy_unlocked` that fail.
pub record MigrateFaults : Type 0 where
  pub open_probe : Bool
  pub create_dir : Bool
  pub rename_log : Bool
  pub rename_lock : Bool

module _ {Raw Log : Type 0} where
  unfoldable pub detect_layout : QueueDir Raw Log → StorageLayout
  detect_layout d =
      if is_some d.dir.file then sharded else if is_some d.legacy_log then legacy else fresh

module _ (Raw Log : Type 0) where
  abbrev pub M : Type 0 → Type 0
  M A = Exec (QueueDir Raw Log) BootError A

  -- An operation of the membership store.
  unfoldable pub on_store : {A : Type 0} → Exec (Dir Raw) MembershipError A → M A
  on_store f d =
      let (result, dir) = f d.dir in
      (elim result [ ok a ↦ ok a | err e ↦ err (membership_error e) ], record d { dir = dir })

  unfoldable pub probe_lock : MigrateFaults → M (Unit {0})
  probe_lock faults d =
      if d.legacy_lock
      then if faults.open_probe
        then (err io, d)
        else if d.lock_held
        then (err another_daemon, d)
        else (ok tt, d)
      else (ok tt, d)

  -- `rename` of the log fails where there is none.
  unfoldable pub rename_log : MigrateFaults → M (Unit {0})
  rename_log faults d = if faults.rename_log then (err io, d) else elim d.legacy_log [
    | none ↦ (err io, d)
    | some log ↦ (ok tt, record d { legacy_log = none; shard0_log = some log })
  ]

  unfoldable pub rename_lock : MigrateFaults → M (Unit {0})
  rename_lock faults d =
      if d.legacy_lock
      then if faults.rename_lock
        then (err io, d)
        else (ok tt, record d { legacy_lock = false; shard0_lock = true })
      else (ok tt, d)

  -- The removal of the empty legacy directory is best effort and leaves no trace in the state.
  unfoldable pub migrate_legacy_unlocked : MigrateFaults → M (Unit {0})
  unfolding probe_lock rename_log rename_lock
  migrate_legacy_unlocked faults = do
    probe_lock faults
    fails_if faults.create_dir io
    rename_log faults
    rename_lock faults

module _ (codec : Codec) (Log : Type 0) (faults : Faults codec.Raw) where
  open codec use {Raw}

  unfoldable pub exists : QueueDir Raw Log → Bool
  exists d = is_some d.dir.file

  -- `with_lock_held` panics where the lock file cannot be opened or locked.
  unfoldable pub with_lock_held : {A : Type 0} → M Raw Log A → M Raw Log A
  with_lock_held f = do fails_if faults.open_lock panicked; fails_if faults.take_lock panicked; f

  unfoldable pub load_shards : M Raw Log ℕ
  unfolding on_store
  load_shards = do m ← on_store Raw Log (Store.read_unlocked codec faults); pure m.shards

  -- The two closures that `resolve_layout` runs under the membership lock.
  unfoldable pub adopt : MigrateFaults → String → M Raw Log ℕ
  adopt migrate queue_name d =
      if exists d
      then load_shards d
      else (do
        migrate_legacy_unlocked Raw Log migrate
        on_store Raw Log (Store.init_unlocked codec faults queue_name 1)
        pure 1)
          d

  unfoldable pub create : String → ℕ → M Raw Log ℕ
  create queue_name requested_shards d =
      if exists d
      then load_shards d
      else (do
        on_store Raw Log (Store.init_unlocked codec faults queue_name requested_shards)
        load_shards)
          d

  -- The `match` of `resolve_layout`.
  unfoldable pub boot_as : StorageLayout → MigrateFaults → String → ℕ → M Raw Log ℕ
  boot_as sharded migrate queue_name requested_shards = do
    m ← on_store Raw Log (Store.load codec faults)
    pure m.shards
  boot_as legacy migrate queue_name requested_shards = with_lock_held (adopt migrate queue_name)
  boot_as fresh migrate queue_name requested_shards =
      with_lock_held (create queue_name requested_shards)

  -- The layout is looked at without the lock; `between` is what other processes do to the
  -- directory before the lock is taken.
  unfoldable pub resolve_layout :
      MigrateFaults
      → (between : QueueDir Raw Log → QueueDir Raw Log) (queue_name : String) (requested_shards : ℕ)
      → M Raw Log ℕ
  unfolding boot_as
  resolve_layout migrate between queue_name requested_shards d =
      boot_as (detect_layout d) migrate queue_name requested_shards (between d)
