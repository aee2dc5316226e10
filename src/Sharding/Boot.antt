-- ===== src/Sharding/Boot.antt =====
-- What `resolve_layout` (src/sharding.rs) promises at boot.
use snerd_rust.Base.{
  ℕ, ◌≡◌, String, true, false, not, ◌&&◌, ◌||◌, none, some, [], arith, is_some, Bool-cases,
  Option-cases, Result-cases, Result, ok, err, inl, inr, ◌⊎◌,
}
use snerd_rust.Membership.{Membership}
use snerd_rust.Membership.Store
use snerd_rust.Membership.Store.{Codec, Dir, Faults, parse, serialize}
use snerd_rust.Membership.Store.Atomic.{IsCalm, stored, init_ok}
use snerd_rust.Sharding.{
  StorageLayout, sharded, legacy, fresh, QueueDir, BootError, another_daemon, MigrateFaults,
  detect_layout, on_store, probe_lock, migrate_legacy_unlocked, exists, with_lock_held, load_shards,
  adopt, create, boot_as, resolve_layout,
}

module _ (codec : Codec) (Log : Type 0) (faults : Faults codec.Raw) (migrate : MigrateFaults) where
  open codec use {Raw, to_json, from_json, parse-print}

  -- The stored membership has so many shards.
  abbrev pub HasShards : ℕ → QueueDir Raw Log → Type 0
  HasShards n d = (m : Membership) × (stored codec d.dir ≡ some m) × (m.shards ≡ n)

  load_shards_ok :
      (d : QueueDir Raw Log) (n : ℕ)
      → (load_shards codec Log faults d).0 ≡ ok n
      → HasShards n (load_shards codec Log faults d).1
  unfolding load_shards on_store Store.read_unlocked parse stored
  load_shards_ok d n h = elim (Option-cases (stored codec d.dir)) [
    | inl e ↦ absurd (ground arith)
    | inr (m, e) ↦ (m, ground arith, ground arith)
  ]

  create_ok :
      (queue : String) (requested : ℕ) (d : QueueDir Raw Log) (n : ℕ)
      → (create codec Log faults queue requested d).0 ≡ ok n
      → HasShards n (create codec Log faults queue requested d).1
  unfolding create on_store
  create_ok queue requested d n h = elim (Bool-cases (exists codec Log faults d)) [
    | inl there ↦
        let same : create codec Log faults queue requested d ≡ load_shards codec Log faults d =
          ground arith in
        rw same (load_shards_ok d n (rw same at h))
    | inr absent ↦ elim (Result-cases (Store.init_unlocked codec faults queue requested d.dir).0) [
      | inl (u, done) ↦
          let d' = record d { dir = (Store.init_unlocked codec faults queue requested d.dir).1 } in
          let same : create codec Log faults queue requested d ≡ load_shards codec Log faults d' =
            ground arith in
          rw same (load_shards_ok d' n (rw same at h))
      | inr (e, failed) ↦ absurd (ground arith)
    ]
  ]

  adopt_ok :
      (queue : String) (d : QueueDir Raw Log) (n : ℕ)
      → (adopt codec Log faults migrate queue d).0 ≡ ok n
      → HasShards n (adopt codec Log faults migrate queue d).1
  unfolding adopt on_store
  adopt_ok queue d n h = elim (Bool-cases (exists codec Log faults d)) [
    | inl there ↦
        let same : adopt codec Log faults migrate queue d ≡ load_shards codec Log faults d =
          ground arith in
        rw same (load_shards_ok d n (rw same at h))
    | inr absent ↦
        let moved = migrate_legacy_unlocked Raw Log migrate d in
        elim (Result-cases (Store.init_unlocked codec faults queue 1 moved.1.dir).0) [
          | inl (u, done) ↦ (
            record { queue = queue; shards = 1; version = 0; claims = [] },
            ground (arith, init_ok codec faults queue 1 moved.1.dir),
            ground arith,
          )
          | inr (e, failed) ↦ absurd (ground arith)
        ]
  ]

  with_lock_ok :
      (f : QueueDir Raw Log → Result BootError ℕ × QueueDir Raw Log) (d : QueueDir Raw Log) (n : ℕ)
      → (with_lock_held codec Log faults f d).0 ≡ ok n
      → with_lock_held codec Log faults f d ≡ f d
  unfolding with_lock_held
  with_lock_ok f d n h = ground arith

  boot_as_ok :
      (layout : StorageLayout) (queue : String) (requested n : ℕ) (d : QueueDir Raw Log)
      → (boot_as codec Log faults layout migrate queue requested d).0 ≡ ok n
      → HasShards n (boot_as codec Log faults layout migrate queue requested d).1
  unfolding boot_as on_store Store.load Store.with_lock Store.read_unlocked parse stored
  boot_as_ok sharded queue requested n d h = elim (Option-cases (stored codec d.dir)) [
    | inl e ↦ absurd (ground arith)
    | inr (m, e) ↦ (m, ground arith, ground arith)
  ]
  boot_as_ok legacy queue requested n d h =
      let same = with_lock_ok (adopt codec Log faults migrate queue) d n h in
      rw same (adopt_ok queue d n (rw same at h))
  boot_as_ok fresh queue requested n d h =
      let same = with_lock_ok (create codec Log faults queue requested) d n h in
      rw same (create_ok queue requested d n (rw same at h))

  -- A boot that succeeds, whatever other processes do before it holds the lock and whatever else
  -- fails, leaves a stored membership, and returns the shard count of that membership.
  pub resolve_layout_ok :
      (between : QueueDir Raw Log → QueueDir Raw Log) (queue : String) (requested n : ℕ)
      (d : QueueDir Raw Log)
      → (resolve_layout codec Log faults migrate between queue requested d).0 ≡ ok n
      → HasShards n (resolve_layout codec Log faults migrate between queue requested d).1
  unfolding resolve_layout
  resolve_layout_ok between queue requested n d h =
      boot_as_ok (detect_layout d) queue requested n (between d) h

  -- Once a queue has its membership, a boot returns that count whatever is requested, and leaves
  -- the directory as it is.
  pub resolve_layout_authoritative :
      (queue : String) (requested n : ℕ) (d : QueueDir Raw Log)
      → IsCalm faults
      → HasShards n d
      → resolve_layout codec Log faults migrate (λ e. e) queue requested d ≡ (ok n, d)
  unfolding resolve_layout on_store detect_layout Store.load Store.with_lock Store.read_unlocked
      parse stored
  resolve_layout_authoritative queue requested n d calm (m, e, shards) =
      elim (Option-cases d.dir.file) [
        | inl e' ↦ absurd (ground arith)
        | inr (raw, e') ↦ ground arith
      ]

  -- A legacy directory whose lock is held by a running daemon is refused and left as it is.
  pub resolve_layout_busy :
      (queue : String) (requested : ℕ) (d : QueueDir Raw Log)
      → IsCalm faults
      → migrate.open_probe ≡ false
      → detect_layout d ≡ legacy
      → d.legacy_lock ≡ true
      → d.lock_held ≡ true
      → resolve_layout codec Log faults migrate (λ e. e) queue requested d ≡ (err another_daemon, d)
  unfolding resolve_layout with_lock_held adopt exists migrate_legacy_unlocked probe_lock
      detect_layout
  resolve_layout_busy queue requested d calm probed is_legacy locked held = ground arith

  -- The task log is where it was, or it is the log of shard 0, whole.
  abbrev pub KeepsLog : QueueDir Raw Log → QueueDir Raw Log → Type 0
  KeepsLog d d' =
      (d'.legacy_log ≡ d.legacy_log) ⊎ (d'.legacy_log ≡ none) × (d'.shard0_log ≡ d.legacy_log)

  migrate_keeps :
      (d : QueueDir Raw Log) (log : Log)
      → d.legacy_log ≡ some log
      → KeepsLog d (migrate_legacy_unlocked Raw Log migrate d).1
  unfolding migrate_legacy_unlocked
  migrate_keeps d log e =
      elim (Bool-cases (
        (not d.legacy_lock || not migrate.open_probe && not d.lock_held)
        && not migrate.create_dir
        && not migrate.rename_log)) [
          | inl moved ↦ inr (ground arith, ground arith)
          | inr stopped ↦ inl (ground arith)
        ]

  adopt_logs :
      (queue : String) (d : QueueDir Raw Log)
      → exists codec Log faults d ≡ false
      → ((adopt codec Log faults migrate queue d).1.legacy_log
          ≡ (migrate_legacy_unlocked Raw Log migrate d).1.legacy_log)
        × ((adopt codec Log faults migrate queue d).1.shard0_log
            ≡ (migrate_legacy_unlocked Raw Log migrate d).1.shard0_log)
  unfolding adopt on_store
  adopt_logs queue d absent = (ground arith, ground arith)

  -- Whatever fails, the boot of a legacy directory does not lose the task log: it is where it was,
  -- or it is the log of shard 0, whole.
  pub resolve_layout-KeepsLog :
      (queue : String) (requested : ℕ) (d : QueueDir Raw Log)
      → detect_layout d ≡ legacy
      → KeepsLog d (resolve_layout codec Log faults migrate (λ e. e) queue requested d).1
  unfolding resolve_layout detect_layout with_lock_held exists
  resolve_layout-KeepsLog queue requested d is_legacy = elim (Option-cases d.legacy_log) [
    | inl e ↦ absurd (ground arith)
    | inr (log, e) ↦
        let r = resolve_layout codec Log faults migrate (λ e. e) queue requested d in
        let absent : is_some d.dir.file ≡ false = ground arith in
        let (legacy_log, shard0_log) = adopt_logs queue d absent in
        elim (Bool-cases (faults.open_lock || faults.take_lock)) [
          | inl failed ↦ inl (ground arith)
          | inr locked ↦ elim (migrate_keeps d log e) [
            | inl kept ↦ inl (ground arith)
            | inr (gone, moved) ↦ inr (ground arith, ground arith)
          ]
        ]
  ]
