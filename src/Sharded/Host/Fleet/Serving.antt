-- ===== src/Sharded/Host/Fleet/Serving.antt =====
-- No two daemons of a host serve the same shard (src/sharded_queue.rs): an engine in the map of a daemon is
-- one that runs.
use snerd_rust.Base.{
  ℕ, ◌+◌, ◌≤◌, ◌≡◌, ap, ◌⊎◌, inl, inr, String, true, List, [], ◌∷◌, arith, if◌then◌else◌, str_eq,
  eq_iff, All, All-remove, All-put, has_key, lookup, lookup-insert,
}
use snerd_rust.Membership.Store.{Codec, Dir}
use snerd_rust.RateLimiter.{FilePath}
use snerd_rust.Sharding.Lock.{Locks}
use snerd_rust.Sharded.{retain}
use snerd_rust.Sharded.Rounds.{lookup-retain}
use snerd_rust.Sharded.Host.{Host}
use snerd_rust.Sharded.Host.Effects.{IsQuiet, IsStarted, claim_on_host_cases}
use snerd_rust.Sharded.Host.Fleet.{
  Member, Fleet, host_of, member_of, FleetStep, joins, writes, turn, reconcile, shuts_down, ends,
  crashes, FleetRun, starts, goes_on, copies, running,
}
use snerd_rust.Sharded.Host.Fleet.Counts.{copies-without}
use snerd_rust.Sharded.Host.Fleet.Exclusive.{one_engine}

-- How many daemons have an engine for the shard in their map, where `enqueue` finds it.
unfoldable pub serving : {E : Type 0} → String → List (Member E) → ℕ
serving shard [] = 0
serving shard (d ∷ ds) = (if has_key shard d.shards then 1 else 0) + serving shard ds

-- Every engine in the map runs.
abbrev IsRunning : {E : Type 0} → Member E → Type 0
IsRunning d = (shard : String) → has_key shard d.shards ≡ true → 1 ≤ copies shard d.processors

serving-running :
    {E : Type 0} (shard : String) (ds : List (Member E))
    → All IsRunning ds
    → serving shard ds ≤ running shard ds
unfolding serving running
serving-running shard [] h = omega arith
serving-running shard (d ∷ ds) (own, h) = ground (arith, own shard, serving-running shard ds h)

module _ (codec : Codec) {E : Type 0} (open_engine : String → E) (queue_dir : FilePath) where
  turn-IsRunning :
      (h h' : Host codec.Raw E) (shard : String)
      → IsQuiet h h' ⊎ IsStarted h h' queue_dir shard
      → IsRunning (member_of h)
      → IsRunning (member_of h')
  unfolding member_of copies
  turn-IsRunning h h' shard (inl quiet) own k has =
      let same = ap (copies k) quiet.processors in
      let before = ap (has_key k) quiet.shards in ground (arith, own k, same, before, has)
  turn-IsRunning h h' shard (inr started) own k has =
      let more : copies k h'.daemon.processors
          ≡ (if str_eq shard k then 1 else 0) + copies k h.daemon.processors =
        ap (copies k) started.processors in
      let before = ap (has_key k) started.shards in
      ground (arith, own k, more, before, has, lookup-insert shard k started.engine h.daemon.shards)

  Step-IsRunning :
      (f g : Fleet codec.Raw E)
      → FleetStep codec open_engine queue_dir f g
      → All IsRunning f.daemons
      → All IsRunning g.daemons
  unfolding host_of member_of
  Step-IsRunning _ _ (joins dir locks ds) h = (λ k has. absurd (unfold lookup in cc has), h)
  Step-IsRunning _ _ (writes dir dir' locks ds) h = h
  Step-IsRunning _ _ (turn dir locks hs ks d r shard owned h' turned) h =
      let (own, others) = All-remove IsRunning hs ks d h in
      let cases =
        claim_on_host_cases codec open_engine queue_dir r shard owned (host_of dir locks d) in
      All-put IsRunning hs ks (member_of h')
        (turn-IsRunning (host_of dir locks d) h' shard (rw (← turned) cases) own) others
  Step-IsRunning _ _ (reconcile dir locks hs ks d owned) h =
      let (own, others) = All-remove IsRunning hs ks d h in
      All-put IsRunning hs ks (record d { shards = retain owned d.shards })
        (λ k has. ground (arith, own k, has, lookup-retain owned k d.shards)) others
  Step-IsRunning _ _ (shuts_down dir locks hs ks d) h =
      let (own, others) = All-remove IsRunning hs ks d h in
      All-put IsRunning hs ks (record d { shards = [] }) (λ k has. absurd (unfold lookup in cc has))
        others
  Step-IsRunning _ _ (ends dir locks hs ks d shard runs left) h =
      let (own, others) = All-remove IsRunning hs ks d h in
      All-put IsRunning hs ks _
        (λ k has.
          ground (arith, own k, has, left, copies-without k shard d.processors, eq_iff shard k))
        others
  Step-IsRunning _ _ (crashes dir locks hs ks d) h = (All-remove IsRunning hs ks d h).1

  run-IsRunning :
      (f g : Fleet codec.Raw E)
      → FleetRun codec open_engine queue_dir f g
      → All IsRunning f.daemons
      → All IsRunning g.daemons
  run-IsRunning _ _ (starts f) h = h
  run-IsRunning _ _ (goes_on f g i run step) h = Step-IsRunning g i step (run-IsRunning f g run h)

  -- On the locks of one host: from a directory on which no daemon runs, whatever the membership says and
  -- whatever fails, however the turns of any number of daemons follow each other, with shards lost,
  -- daemons shut down and crashed in between, at most one engine runs on each shard, and at most one
  -- daemon has an engine for it in its map.
  pub one_server :
      (dir : Dir codec.Raw) (locks : Locks) (f : Fleet codec.Raw E)
      → FleetRun codec open_engine queue_dir
          (record { membership = dir; locks = locks; daemons = [] })
          f
      → (shard : String) → (running shard f.daemons ≤ 1) × (serving shard f.daemons ≤ 1)
  one_server dir locks f run shard =
      let one = one_engine codec open_engine queue_dir dir locks f run shard in
      (one, omega (arith, one, serving-running shard f.daemons (run-IsRunning _ f run tt)))
