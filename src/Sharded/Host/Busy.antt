-- ===== src/Sharded/Host/Busy.antt =====
-- The heartbeat of src/sharded_queue.rs at a shard whose storage lock an engine holds, of this daemon or
-- of another.
use snerd_rust.Base.{
  ◌+◌, ◌≡◌, refl, ◌≢◌, inl, inr, ap, String, true, false, Option, none, some, List, [], ◌∷◌, arith,
  str_eq, eq_iff, contains, lookup, Bool-cases, Option-cases, Result-cases, ok, err,
}
use snerd_rust.Membership.{
  Claim, Membership, ClaimOutcome, claimed, taken_over, claimable_shards, lease_duration, may_claim,
  is_lapsed,
}
use snerd_rust.Membership.Store
use snerd_rust.Membership.Store.{
  Codec, Dir, Faults, set_claim, drop_claim, bumped, claim_change, revert_change,
}
use snerd_rust.Membership.Store.Atomic.{IsCalm, stored, mutate_total}
use snerd_rust.Membership.Calls.{run}
use snerd_rust.Membership.Claimable.{IsShard, Prints, claimable_iff}
use snerd_rust.RateLimiter.{FilePath}
use snerd_rust.Sharding.Lock.{
  is_locked, shard_lock_path, storage_lock_path, try_lock_shard, unlock_taken,
}
use snerd_rust.Sharded.{starts}
use snerd_rust.Sharded.Host.{
  Host, HostRound, panicked, taken_lock, instantiate_on_host, take_on_host, claim_on_host,
  claim_all_on_host, claim_loaded_on_host, heartbeat_on_host,
}
use snerd_rust.Sharded.Host.Entry.{Entry, AreElsewhere, run-Entry, IsBusy, claim_on_host-IsBusy}

module _ (codec : Codec) {E : Type 0} (open_engine : String → E) (queue_dir : FilePath)
    (r : HostRound codec.Raw) (shard : String) (c : Option Claim)
    (elsewhere : AreElsewhere codec shard c r) where
  -- The claim of the shard is granted, and starts an engine.
  claim_starts :
      (m : Membership)
      → may_claim c r.now r.skew r.owner ≡ true
      → ((claim : Claim) → c ≡ some claim → claim.owner ≢ r.owner)
      → Entry codec shard c m
      → (outcome : ClaimOutcome) × (claim_change shard r.owner r.now r.skew m
          ≡ ok (outcome, set_claim m shard r.owner (r.now + lease_duration)))
        × (starts outcome ≡ true)
  unfolding claim_change may_claim is_lapsed starts
  claim_starts m may other entry = elim (Option-cases c) [
    | inl e ↦ (claimed, ground arith, refl)
    | inr (claim, e) ↦
        (taken_over claim.owner, ground (arith, e, other claim e, eq_iff claim.owner r.owner), refl)
  ]

  claim_on_host_busy :
      (owned : List String) (h : Host codec.Raw E)
      → IsCalm (r.claim_faults shard)
      → Prints codec
      → (r.lock_faults shard).create_dir ≡ false
      → (r.lock_faults shard).open_file ≡ false
      → (r.lock_faults shard).take_lock ≡ false
      → may_claim c r.now r.skew r.owner ≡ true
      → ((claim : Claim) → c ≡ some claim → claim.owner ≢ r.owner)
      → IsBusy codec shard c queue_dir h
      → (claim_on_host codec open_engine queue_dir r shard owned h).0 ≡ err panicked
  unfolding claim_on_host take_on_host instantiate_on_host try_lock_shard taken_lock Store.claim
  claim_on_host_busy owned h calm prints created opened flocked may other busy =
      let path = shard_lock_path queue_dir shard in
      let (m, e, entry) =
        run-Entry codec shard c (r.before_claim shard) h.daemon.membership (elsewhere shard).0
          busy.entry in
      let (outcome, changed, starting) = claim_starts m may other entry in
      let m' = set_claim m shard r.owner (r.now + lease_duration) in
      let (raw, printed) = prints (bumped codec m') in
      let granted =
        mutate_total codec (r.claim_faults shard) (claim_change shard r.owner r.now r.skew)
          (run codec (r.before_claim shard) h.daemon.membership) m m' outcome raw calm e changed
          printed in
      let still = unlock_taken path (storage_lock_path queue_dir shard) h.locks busy.free in
      ground (
        arith, granted, starting, created, opened, flocked, busy.free, busy.absent, busy.busy,
        still,
      )

  claim_all_on_host_busy :
      (shards owned : List String) (h : Host codec.Raw E)
      → IsCalm (r.claim_faults shard)
      → Prints codec
      → (r.lock_faults shard).create_dir ≡ false
      → (r.lock_faults shard).open_file ≡ false
      → (r.lock_faults shard).take_lock ≡ false
      → may_claim c r.now r.skew r.owner ≡ true
      → ((claim : Claim) → c ≡ some claim → claim.owner ≢ r.owner)
      → contains shards shard ≡ true
      → IsBusy codec shard c queue_dir h
      → (claim_all_on_host codec open_engine queue_dir r shards owned h).0 ≡ err panicked
  unfolding claim_all_on_host contains
  claim_all_on_host_busy [] owned h calm prints created opened flocked may other listed busy =
      absurd (cc listed)
  claim_all_on_host_busy (k ∷ shards) owned h calm prints created opened flocked may other listed
        busy =
      let turn = λ (j : String). claim_on_host codec open_engine queue_dir r j owned h in
      elim (Bool-cases (str_eq k shard)) [
        | inl own ↦
            let panics =
              claim_on_host_busy owned h calm prints created opened flocked may other busy in
            let same = ap turn ((eq_iff k shard).0 own) in ground (arith, panics, same)
        | inr differs ↦ elim (Result-cases (turn k).0) [
          | inr (panicked, e) ↦ ground arith
          | inl (next, e) ↦
              let kept =
                claim_on_host-IsBusy codec open_engine queue_dir r shard c elsewhere k owned h
                  (λ q. absurd (ground (arith, eq_iff k shard))) busy in
              let rest =
                claim_all_on_host_busy shards next (turn k).1 calm prints created opened flocked may
                  other (ground arith) kept in
              ground (arith, e, rest)
        ]
      ]

load_ok :
    (codec : Codec) (faults : Faults codec.Raw) (d : Dir codec.Raw) (m : Membership)
    → IsCalm faults
    → stored codec d ≡ some m
    → Store.load codec faults d ≡ (ok m, d)
unfolding Store.load Store.with_lock Store.read_unlocked Store.parse stored
load_ok codec faults d m calm e = ground arith

-- A round that finds a shard without a claim, or with a lapsed claim of another daemon, while an engine
-- still holds the shard's storage lock: if the round can read the membership, no call fails in its claim
-- of the shard and in the opening of the shard's lock, that lock is free and the daemon has no engine
-- for the shard in its map, and what other daemons do to the membership in the round is not on this
-- shard, then the heartbeat panics, whatever else happens in the round.
pub heartbeat_on_host_busy :
    (codec : Codec) {E : Type 0} (open_engine : String → E) (queue_dir : FilePath)
    (r : HostRound codec.Raw) (h : Host codec.Raw E) (m : Membership) (shard : String)
    → AreElsewhere codec shard (lookup shard m.claims) r
    → IsCalm r.load_faults
    → IsCalm (r.claim_faults shard)
    → Prints codec
    → (r.lock_faults shard).create_dir ≡ false
    → (r.lock_faults shard).open_file ≡ false
    → (r.lock_faults shard).take_lock ≡ false
    → stored codec h.daemon.membership ≡ some m
    → IsShard m shard
    → may_claim (lookup shard m.claims) r.now r.skew r.owner ≡ true
    → ((claim : Claim) → lookup shard m.claims ≡ some claim → claim.owner ≢ r.owner)
    → lookup shard h.daemon.shards ≡ none
    → is_locked (shard_lock_path queue_dir shard) h.locks ≡ false
    → is_locked (storage_lock_path queue_dir shard) h.locks ≡ true
    → (heartbeat_on_host codec open_engine queue_dir r h).0 ≡ err panicked
unfolding heartbeat_on_host claim_loaded_on_host
heartbeat_on_host_busy codec open_engine queue_dir r h m shard elsewhere calm claim_calm prints
      created opened flocked e is_shard may other absent free busy =
    let listed = (claimable_iff m r.now r.skew r.owner shard).1 (is_shard, may) in
    let panics =
      claim_all_on_host_busy codec open_engine queue_dir r shard (lookup shard m.claims) elsewhere
        (claimable_shards m r.now r.skew r.owner) [] h claim_calm prints created opened flocked may
        other listed (record { absent = absent; free = free; busy = busy; entry = (m, e, refl) }) in
    ground (arith, load_ok codec r.load_faults h.daemon.membership m calm e, panics)
