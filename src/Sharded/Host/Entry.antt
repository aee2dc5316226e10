-- ===== src/Sharded/Host/Entry.antt =====
-- A turn of the heartbeat (src/sharded_queue.rs) for one shard leaves the entry of another, its locks and
-- its engine as they are.
use snerd_rust.Base.{
  ℕ, ◌+◌, ◌≡◌, ◌≢◌, inl, inr, ap, ◌∙◌, String, true, false, ◌||◌, Option, none, List, [], ◌∷◌,
  arith, All, Option-cases, eq_iff, lookup, lookup-insert, lookup-remove, Bool-cases, Result-cases,
}
use snerd_rust.Membership.{Claim, Membership, ClaimOutcome, lease_duration}
use snerd_rust.Membership.Store
use snerd_rust.Membership.Store.{
  Codec, Dir, Faults, set_claim, drop_claim, bumped, claim_change, revert_change, renew_change,
  release_change,
}
use snerd_rust.Membership.Claims.{change_effect}
use snerd_rust.Membership.Calls.{
  Call, claim_call, renew_call, revert_call, release_call, init_call, step, run, Stored,
  mutate_keeps, init_keeps,
}
use snerd_rust.RateLimiter.{FilePath}
use snerd_rust.Sharding.Lock.{
  is_locked, shard_lock_path, storage_lock_path, try_lock_shard, storage-shard,
}
use snerd_rust.Sharded.{instantiate_shard}
use snerd_rust.Sharded.Host.Effects.{claim_on_host_cases}
use snerd_rust.Sharded.Host.{
  Host, HostRound, taken_lock, instantiate_on_host, take_on_host, claim_on_host,
}

module _ (codec : Codec) (shard : String) (c : Option Claim) where
  -- The shard's entry in the membership.
  abbrev pub Entry : Membership → Type 0
  Entry m = lookup shard m.claims ≡ c

  claim-Entry :
      (faults : Faults codec.Raw) (k owner : String) (now skew : ℕ) (d : Dir codec.Raw)
      → k ≢ shard
      → Stored codec Entry d
      → Stored codec Entry (Store.claim codec faults k owner now skew d).1
  unfolding Store.claim set_claim bumped
  claim-Entry faults k owner now skew d ne =
      mutate_keeps codec Entry faults (claim_change k owner now skew)
        (λ m m' out kept changed.
          let effect = change_effect k owner now skew m m' out changed in
          rw effect (
            ground (
              arith,
              lookup-insert k shard (record { owner = owner; lease_expiry = now + lease_duration })
                  m.claims,
              eq_iff k shard,
            )))
        d

  revert-Entry :
      (faults : Faults codec.Raw) (k owner : String) (d : Dir codec.Raw)
      → k ≢ shard
      → Stored codec Entry d
      → Stored codec Entry (Store.revert_claim codec faults k owner d).1
  unfolding Store.revert_claim drop_claim bumped revert_change
  revert-Entry faults k owner d ne =
      mutate_keeps codec Entry faults (revert_change k owner)
        (λ m m' out kept changed. ground (arith, lookup-remove k shard m.claims, eq_iff k shard)) d

  renew-Entry :
      (faults : Faults codec.Raw) (k owner : String) (now : ℕ) (d : Dir codec.Raw)
      → k ≢ shard
      → Stored codec Entry d
      → Stored codec Entry (Store.renew codec faults k owner now d).1
  unfolding Store.renew set_claim bumped renew_change
  renew-Entry faults k owner now d ne =
      mutate_keeps codec Entry faults (renew_change k owner now)
        (λ m m' out kept changed. elim (Option-cases (lookup k m.claims)) [
          | inl e ↦ absurd (ground arith)
          | inr (own, e) ↦ ground (
            arith,
            lookup-insert k shard
                (record { owner = own.owner; lease_expiry = now + lease_duration }) m.claims,
            eq_iff k shard,
          )
        ])
        d

  release-Entry :
      (faults : Faults codec.Raw) (k owner : String) (d : Dir codec.Raw)
      → k ≢ shard
      → Stored codec Entry d
      → Stored codec Entry (Store.release codec faults k owner d).1
  unfolding Store.release drop_claim bumped release_change
  release-Entry faults k owner d ne =
      mutate_keeps codec Entry faults (release_change k owner)
        (λ m m' out kept changed. ground (arith, lookup-remove k shard m.claims, eq_iff k shard)) d

  -- The call is not on the shard.
  unfoldable pub IsElsewhere : Call codec.Raw → Type 0
  IsElsewhere (claim_call _ k _ _ _) = k ≢ shard
  IsElsewhere (renew_call _ k _ _) = k ≢ shard
  IsElsewhere (revert_call _ k _) = k ≢ shard
  IsElsewhere (release_call _ k _) = k ≢ shard
  IsElsewhere (init_call _ _ _) = Unit

  step-Entry :
      (call : Call codec.Raw) (d : Dir codec.Raw)
      → IsElsewhere call
      → Stored codec Entry d
      → Stored codec Entry (step codec call d)
  unfolding step IsElsewhere
  step-Entry (claim_call faults k owner now skew) d = claim-Entry faults k owner now skew d
  step-Entry (renew_call faults k owner now) d = renew-Entry faults k owner now d
  step-Entry (revert_call faults k owner) d = revert-Entry faults k owner d
  step-Entry (release_call faults k owner) d = release-Entry faults k owner d
  step-Entry (init_call faults queue shards) d = λ _. init_keeps codec Entry faults queue shards d

  pub run-Entry :
      (calls : List (Call codec.Raw)) (d : Dir codec.Raw)
      → All IsElsewhere calls
      → Stored codec Entry d
      → Stored codec Entry (run codec calls d)
  unfolding run
  run-Entry [] d all entry = entry
  run-Entry (call ∷ calls) d (elsewhere, all) entry =
      run-Entry calls (step codec call d) all (step-Entry call d elsewhere entry)

  -- So are the calls of other daemons in the round.
  abbrev pub AreElsewhere : HostRound codec.Raw → Type 0
  AreElsewhere r =
      (k : String) → All IsElsewhere (r.before_claim k) × All IsElsewhere (r.before_revert k)

  -- The shard has no engine in the daemon's map, its lock is free, but its storage lock is taken.
  pub record IsBusy {E : Type 0} (queue_dir : FilePath) (h : Host codec.Raw E) : Type 0 where
    pub absent : lookup shard h.daemon.shards ≡ none
    pub free : is_locked (shard_lock_path queue_dir shard) h.locks ≡ false
    pub busy : is_locked (storage_lock_path queue_dir shard) h.locks ≡ true
    pub entry : Stored codec Entry h.daemon.membership

module _ (codec : Codec) {E : Type 0} (open_engine : String → E) (queue_dir : FilePath)
    (r : HostRound codec.Raw) (shard : String) (c : Option Claim)
    (elsewhere : AreElsewhere codec shard c r) where
  take_on_host-Entry :
      (outcome : ClaimOutcome) (k : String) (owned : List String) (h : Host codec.Raw E)
      → k ≢ shard
      → Stored codec (Entry codec shard c) h.daemon.membership
      → Stored codec
          (Entry codec shard c)
          (take_on_host codec open_engine queue_dir r outcome k owned h).1.daemon.membership
  unfolding take_on_host instantiate_on_host instantiate_shard try_lock_shard taken_lock
  take_on_host-Entry outcome k owned h ne entry =
      let path = shard_lock_path queue_dir k in
      let refused =
        (r.lock_faults k).create_dir
        || (r.lock_faults k).open_file
        || (r.lock_faults k).take_lock
        || is_locked path h.locks in
      let after =
        (take_on_host codec open_engine queue_dir r outcome k owned h).1.daemon.membership in
      let reverted =
        (Store.revert_claim codec (r.revert_faults k) k r.owner
          (run codec (r.before_revert k) h.daemon.membership)).1 in
      let held : Host codec.Raw E = record h { locks = path ∷ h.locks } in
      elim (Bool-cases refused) [
        | inl e ↦
            let same : after ≡ reverted = ground arith in
            rw same (
              revert-Entry codec shard c (r.revert_faults k) k r.owner
                (run codec (r.before_revert k) h.daemon.membership) ne
                (run-Entry codec shard c (r.before_revert k) h.daemon.membership (elsewhere k).1
                  entry))
        | inr e ↦
            let same : after ≡ h.daemon.membership =
              elim (Result-cases
                (instantiate_on_host codec open_engine queue_dir r path k held).0) [
                  | inl (u, made) ↦ ground arith
                  | inr (p, panics) ↦ ground arith
                ] in
            rw same entry
      ]

  claim_on_host-Entry :
      (k : String) (owned : List String) (h : Host codec.Raw E)
      → k ≢ shard
      → Stored codec (Entry codec shard c) h.daemon.membership
      → Stored codec
          (Entry codec shard c)
          (claim_on_host codec open_engine queue_dir r k owned h).1.daemon.membership
  unfolding claim_on_host
  claim_on_host-Entry k owned h ne entry =
      let claims =
        Store.claim codec (r.claim_faults k) k r.owner r.now r.skew
          (run codec (r.before_claim k) h.daemon.membership) in
      let h₁ : Host codec.Raw E = record h { daemon = record h.daemon { membership = claims.1 } } in
      let kept =
        claim-Entry codec shard c (r.claim_faults k) k r.owner r.now r.skew
          (run codec (r.before_claim k) h.daemon.membership) ne
          (run-Entry codec shard c (r.before_claim k) h.daemon.membership (elsewhere k).0 entry) in
      let after = (claim_on_host codec open_engine queue_dir r k owned h).1.daemon.membership in
      elim (Result-cases claims.0) [
        | inr (e, refused) ↦ let same : after ≡ claims.1 = ground arith in rw same kept
        | inl (outcome, granted) ↦
            let same : after
                ≡ (take_on_host codec open_engine queue_dir r outcome k owned
                    h₁).1.daemon.membership =
              ground arith in
            rw same (take_on_host-Entry outcome k owned h₁ ne kept)
      ]

  pub claim_on_host-IsBusy :
      (k : String) (owned : List String) (h : Host codec.Raw E)
      → k ≢ shard
      → IsBusy codec shard c queue_dir h
      → IsBusy codec shard c queue_dir (claim_on_host codec open_engine queue_dir r k owned h).1
  claim_on_host-IsBusy k owned h ne busy =
      let lock = shard_lock_path queue_dir shard in
      let storage = storage_lock_path queue_dir shard in
      let entry = claim_on_host-Entry k owned h ne busy.entry in
      elim (claim_on_host_cases codec open_engine queue_dir r k owned h) [
        | inl quiet ↦ record {
          absent = ap (lookup shard) quiet.shards ∙ busy.absent;
          free = quiet.locks lock ∙ busy.free;
          busy = quiet.locks storage ∙ busy.busy;
          entry = entry;
        }
        | inr started ↦ record {
          absent = ground (
            arith,
            started.shards,
            lookup-insert k shard started.engine h.daemon.shards,
            eq_iff k shard,
            busy.absent,
          );
          free = ground (arith, started.locks lock, storage-shard queue_dir k shard, busy.free);
          busy = ground (arith, started.locks storage, busy.busy);
          entry = entry;
        }
      ]
