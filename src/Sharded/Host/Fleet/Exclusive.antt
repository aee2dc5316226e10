-- ===== src/Sharded/Host/Fleet/Exclusive.antt =====
-- No two daemons of a host run an engine on the same shard (src/sharded_queue.rs, src/queue.rs).
use mathlib.Core.Path.{subst}
use snerd_rust.Base.{
  ℕ, ◌+◌, ◌≤◌, ◌≡◌, refl, ◌∙◌, ◌⊎◌, inl, inr, String, Bool, true, false, List, [], ◌∷◌, ◌++◌, arith,
  if◌then◌else◌, str_eq, eq_iff, without, contains, Bool-cases, le_cases, sym, ap,
}
use snerd_rust.Membership.Store.{Codec, Dir}
use snerd_rust.RateLimiter.{FilePath}
use snerd_rust.Sharding.Lock.{
  Locks, is_locked, unlock, storage_lock_path, is_locked-unlock, storage-storage,
}
use snerd_rust.Sharded.{retain}
use snerd_rust.Sharded.Host.{Host}
use snerd_rust.Sharded.Host.Effects.{IsQuiet, IsStarted, claim_on_host_cases}
use snerd_rust.Sharded.Host.Fleet.{
  Member, Fleet, host_of, member_of, unlock_all, FleetStep, joins, writes, turn, reconcile,
  shuts_down, ends, crashes, FleetRun, starts, goes_on, copies, running,
}
use snerd_rust.Sharded.Host.Fleet.Counts.{
  running-append, copies-without, copies-contains, is_locked-unlock_all,
}

module _ (codec : Codec) {E : Type 0} (open_engine : String → E) (queue_dir : FilePath) where
  -- At most one processor of a shard runs, and then the storage lock of the shard is taken.
  pub record IsExclusive (f : Fleet codec.Raw E) : Type 0 where
    pub single : (shard : String) → running shard f.daemons ≤ 1
    pub locked :
        (shard : String)
        → 1 ≤ running shard f.daemons
        → is_locked (storage_lock_path queue_dir shard) f.locks ≡ true

  -- How the processors of a shard in one daemon, and the storage lock of the shard, may change: no more
  -- run and the lock stays as it is, one more runs with a lock that was free, or none is left.
  abbrev MayChange : ℕ → ℕ → Bool → Bool → Type 0
  MayChange before after lock lock' =
      (after ≤ before) × (lock' ≡ lock)
      ⊎ (after ≡ before + 1) × (lock ≡ false) × (lock' ≡ true)
      ⊎ (1 ≤ before) × (after ≡ 0)

  one_changes :
      (others before after : ℕ) (lock lock' : Bool)
      → MayChange before after lock lock'
      → others + before ≤ 1
      → (1 ≤ others + before → lock ≡ true)
      → (others + after ≤ 1) × (1 ≤ others + after → lock' ≡ true)
  one_changes others before after lock lock' (inl (fewer, same)) single locked =
      (omega arith, λ runs. same ∙ locked (omega arith))
  one_changes others before after lock lock' (inr (inl (more, free, taken))) single locked =
      elim (le_cases 0 (others + before) (omega arith)) [
        | inl e ↦ (omega arith, λ runs. taken)
        | inr runs ↦ absurd (cc (free, locked runs))
      ]
  one_changes others before after lock lock' (inr (inr (ran, ended))) single locked =
      (omega arith, λ runs. absurd (omega arith))

  -- One daemon is replaced by others, of which one at most runs processors.
  replaced-IsExclusive :
      (dir dir' : Dir codec.Raw) (locks locks' : Locks) (hs ks ds ds' : List (Member E))
      → ((shard : String)
          → MayChange
              (running shard ds)
              (running shard ds')
              (is_locked (storage_lock_path queue_dir shard) locks)
              (is_locked (storage_lock_path queue_dir shard) locks'))
      → IsExclusive (record { membership = dir; locks = locks; daemons = hs ++ (ds ++ ks) })
      → IsExclusive (record { membership = dir'; locks = locks'; daemons = hs ++ (ds' ++ ks) })
  replaced-IsExclusive dir dir' locks locks' hs ks ds ds' changes h =
      let total : (shard : String) (es : List (Member E))
          → running shard (hs ++ (es ++ ks))
            ≡ (running shard hs + running shard ks) + running shard es =
        λ shard es. omega (arith, running-append shard hs (es ++ ks), running-append shard es ks) in
      let change = λ (shard : String).
        one_changes (running shard hs + running shard ks) (running shard ds) (running shard ds') _ _
          (changes shard) (omega (arith, total shard ds, h.single shard))
          (λ runs. h.locked shard (omega (arith, total shard ds))) in
      record {
        single = λ shard. omega (arith, total shard ds', (change shard).0);
        locked = λ shard runs. (change shard).1 (omega (arith, total shard ds'));
      }

  turn_changes :
      (dir : Dir codec.Raw) (locks : Locks) (d : Member E) (shard : String) (h' : Host codec.Raw E)
      (k : String)
      → let h = host_of dir locks d in
        IsQuiet h h' ⊎ IsStarted h h' queue_dir shard
        → MayChange
            (running k (d ∷ []))
            (running k (member_of h' ∷ []))
            (is_locked (storage_lock_path queue_dir k) locks)
            (is_locked (storage_lock_path queue_dir k) h'.locks)
  unfolding running host_of member_of copies
  turn_changes dir locks d shard h' k (inl quiet) =
      let same = ap (copies k) quiet.processors in
      inl (omega (arith, same), quiet.locks (storage_lock_path queue_dir k))
  turn_changes dir locks d shard h' k (inr started) =
      let storage = storage_lock_path queue_dir k in
      let more : copies k h'.daemon.processors
          ≡ (if str_eq shard k then 1 else 0) + copies k d.processors =
        ap (copies k) started.processors in
      elim (Bool-cases (str_eq shard k)) [
        | inl own ↦
            let same = (eq_iff shard k).0 own in
            inr (
              inl (
                ground (arith, more),
                ap (λ j. is_locked (storage_lock_path queue_dir j) locks) (sym same) ∙ started.free,
                ground (arith, started.locks storage, storage-storage queue_dir shard k),
              ))
        | inr other ↦ inl (
          ground (arith, more),
          ground (arith, started.locks storage, storage-storage queue_dir shard k),
        )
      ]

  ends_changes :
      (d : Member E) (shard : String) (locks : Locks) (k : String)
      → contains d.processors shard ≡ true
      → MayChange
          (running k (d ∷ []))
          (running k (record d { processors = without shard d.processors } ∷ []))
          (is_locked (storage_lock_path queue_dir k) locks)
          (is_locked
            (storage_lock_path queue_dir k)
            (unlock (storage_lock_path queue_dir shard) locks))
  unfolding running
  ends_changes d shard locks k runs =
      let left = copies-without k shard d.processors in
      elim (Bool-cases (str_eq shard k)) [
        | inl own ↦
            let same = ap (λ j. copies j d.processors) ((eq_iff shard k).0 own) in
            let ran = copies-contains shard d.processors runs in
            inr (inr (omega (arith, same, ran), ground (arith, left)))
        | inr other ↦ inl (
          ground (arith, left),
          ground (
            arith,
            is_locked-unlock (storage_lock_path queue_dir shard) (storage_lock_path queue_dir k)
                locks,
            storage-storage queue_dir shard k,
          ),
        )
      ]

  crash_changes :
      (d : Member E) (locks : Locks) (k : String)
      → MayChange
          (running k (d ∷ []))
          (running {E = E} k [])
          (is_locked (storage_lock_path queue_dir k) locks)
          (is_locked (storage_lock_path queue_dir k) (unlock_all queue_dir d.processors locks))
  unfolding running
  crash_changes d locks k = elim (le_cases 0 (copies k d.processors) (omega arith)) [
    | inl e ↦ inl (omega arith, is_locked-unlock_all queue_dir k d.processors locks (sym e))
    | inr ran ↦ inr (inr (omega arith, refl))
  ]

  Step-IsExclusive :
      (f g : Fleet codec.Raw E)
      → FleetStep codec open_engine queue_dir f g
      → IsExclusive f
      → IsExclusive g
  unfolding running host_of member_of
  Step-IsExclusive _ _ (joins dir locks ds) h =
      replaced-IsExclusive dir dir locks locks [] ds []
        (record { shards = []; processors = [] } ∷ []) (λ shard. inl (omega arith, refl)) h
  Step-IsExclusive _ _ (writes dir dir' locks ds) h = record {
    single = h.single;
    locked = h.locked;
  }
  Step-IsExclusive _ _ (turn dir locks hs ks d r shard owned h' turned) h =
      let cases =
        claim_on_host_cases codec open_engine queue_dir r shard owned (host_of dir locks d) in
      replaced-IsExclusive dir h'.daemon.membership locks h'.locks hs ks (d ∷ [])
        (member_of h' ∷ [])
        (λ k. turn_changes dir locks d shard h' k (
          subst
            (λ (e : Host codec.Raw E).
              IsQuiet (host_of dir locks d) e ⊎ IsStarted (host_of dir locks d) e queue_dir shard)
            turned cases))
        h
  Step-IsExclusive _ _ (reconcile dir locks hs ks d owned) h =
      replaced-IsExclusive dir dir locks locks hs ks (d ∷ [])
        (record d { shards = retain owned d.shards } ∷ []) (λ shard. inl (omega arith, refl)) h
  Step-IsExclusive _ _ (shuts_down dir locks hs ks d) h =
      replaced-IsExclusive dir dir locks locks hs ks (d ∷ []) (record d { shards = [] } ∷ [])
        (λ shard. inl (omega arith, refl)) h
  Step-IsExclusive _ _ (ends dir locks hs ks d shard runs left) h =
      replaced-IsExclusive dir dir locks (unlock (storage_lock_path queue_dir shard) locks) hs ks
        (d ∷ []) (record d { processors = without shard d.processors } ∷ [])
        (λ k. ends_changes d shard locks k runs) h
  Step-IsExclusive _ _ (crashes dir locks hs ks d) h =
      replaced-IsExclusive dir dir locks (unlock_all queue_dir d.processors locks) hs ks (d ∷ []) []
        (λ shard. crash_changes d locks shard) h

  run-IsExclusive :
      (f g : Fleet codec.Raw E)
      → FleetRun codec open_engine queue_dir f g
      → IsExclusive f
      → IsExclusive g
  run-IsExclusive _ _ (starts f) h = h
  run-IsExclusive _ _ (goes_on f g i run step) h =
      Step-IsExclusive g i step (run-IsExclusive f g run h)

  empty-IsExclusive :
      (dir : Dir codec.Raw) (locks : Locks)
      → IsExclusive (record { membership = dir; locks = locks; daemons = [] })
  unfolding running
  empty-IsExclusive dir locks = record {
    single = λ shard. omega arith;
    locked = λ shard runs. absurd (omega arith);
  }

  -- On the locks of one host: from a directory on which no daemon runs, whatever the membership says and
  -- whatever fails, however the turns of any number of daemons follow each other, with shards lost,
  -- daemons shut down and crashed in between, at most one engine runs on each shard.
  pub one_engine :
      (dir : Dir codec.Raw) (locks : Locks) (f : Fleet codec.Raw E)
      → FleetRun codec open_engine queue_dir
          (record { membership = dir; locks = locks; daemons = [] })
          f
      → (shard : String) → running shard f.daemons ≤ 1
  one_engine dir locks f run = (run-IsExclusive _ f run (empty-IsExclusive dir locks)).single
