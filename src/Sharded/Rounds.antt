-- ===== src/Sharded/Rounds.antt =====
-- What a round of the heartbeat of src/sharded_queue.rs promises.
use snerd_rust.Base.{
  ℕ, ◌+◌, ◌≤◌, ◌≡◌, refl, ◌≢◌, sym, ap, ◌∙◌, ◌⊎◌, inl, inr, String, true, none, some, List, [], ◌∷◌,
  arith, All, if◌then◌else◌, str_eq, eq_iff, contains, contains-cons, Table, lookup, Bool-cases,
  Result-cases, Result, ok, err,
}
use snerd_rust.Membership.{Membership, ClaimOutcome, claimable_shards, lease_duration}
use snerd_rust.Membership.Store
use snerd_rust.Membership.Store.{Codec, Dir, Faults}
use snerd_rust.Membership.Claims.{claim_granted}
use snerd_rust.Membership.Leases.{Held, Respects, step_keeps, run-Held}
use snerd_rust.Membership.Calls.{Stored, claim_call, revert_call, step, run}
use snerd_rust.Sharded.{
  Round, retain, instantiate_shard, reconcile_shards, Daemon, take_shard, claim_shard, claim_shards,
  claim_loaded, heartbeat,
}

module _ {E : Type 0} where
  pub lookup-retain :
      (owned : List String) (shard : String) (shards : Table E)
      → lookup shard (retain owned shards)
        ≡ (if contains owned shard then lookup shard shards else none)
  unfolding lookup retain
  lookup-retain owned shard [] = ground arith
  lookup-retain owned shard ((s, e) ∷ shards) =
      ground (arith, lookup-retain owned shard shards, eq_iff s shard)

module _ (codec : Codec) {E : Type 0} (open_engine : String → E) (r : Round codec.Raw) where
  -- The daemon's lease on the shard, until `expiry` at least, is stored.
  abbrev pub Holds : String → ℕ → Dir codec.Raw → Type 0
  Holds shard expiry = Stored codec (Held codec shard r.owner expiry)

  -- What other daemons do in the round leaves the daemon its lease on the shard.
  abbrev pub Keeps : String → ℕ → Type 0
  Keeps s expiry =
      (k : String) (d : Dir codec.Raw)
      → Holds s expiry d
      → Holds s expiry (run codec (r.before_claim k) d)
        × Holds s expiry (run codec (r.before_revert k) d)

  -- The calls of other daemons in the round are at clocks that are not past the lease that the round gives
  -- and the skew margin, and calls in this daemon's name neither release nor shorten it.
  abbrev pub AreInTime : Type 0
  AreInTime =
      (s k : String)
      → All (Respects codec s r.owner (r.now + lease_duration)) (r.before_claim k)
        × All (Respects codec s r.owner (r.now + lease_duration)) (r.before_revert k)

  in_time-Keeps : AreInTime → (s : String) → Keeps s (r.now + lease_duration)
  in_time-Keeps in_time s k d h = (
    run-Held codec s r.owner (r.now + lease_duration) (r.before_claim k) d (in_time s k).0 h,
    run-Held codec s r.owner (r.now + lease_duration) (r.before_revert k) d (in_time s k).1 h,
  )

  claim-Holds :
      (faults : Faults codec.Raw) (shard s : String) (expiry : ℕ) (d : Dir codec.Raw)
      → expiry ≤ r.now + lease_duration
      → Holds s expiry d
      → Holds s expiry (Store.claim codec faults shard r.owner r.now r.skew d).1
  claim-Holds faults shard s expiry d late h =
      unfold step in
      step_keeps codec s r.owner expiry (claim_call faults shard r.owner r.now r.skew) d
        (unfold Respects in inr (inr (refl, late))) h

  revert-Holds :
      (faults : Faults codec.Raw) (shard s : String) (expiry : ℕ) (d : Dir codec.Raw)
      → shard ≢ s
      → Holds s expiry d
      → Holds s expiry (Store.revert_claim codec faults shard r.owner d).1
  revert-Holds faults shard s expiry d ne h =
      unfold step in
      step_keeps codec s r.owner expiry (revert_call faults shard r.owner) d
        (unfold Respects in inl ne) h

  -- A shard whose lock is free stays with the daemon through its own claims and rollbacks.
  pub claim_shard-Holds :
      (shard s : String) (expiry : ℕ) (state : Daemon codec open_engine r × List String)
      → Keeps s expiry
      → expiry ≤ r.now + lease_duration
      → r.locks s ≡ true
      → Holds s expiry state.0.membership
      → Holds s expiry (claim_shard codec open_engine r shard state).0.membership
  unfolding claim_shard take_shard
  claim_shard-Holds shard s expiry (sq, owned) keeps late locked h =
      let faults = r.claim_faults shard in
      let claims =
        Store.claim codec faults shard r.owner r.now r.skew
          (run codec (r.before_claim shard) sq.membership) in
      let h' =
        claim-Holds faults shard s expiry (run codec (r.before_claim shard) sq.membership) late
          (keeps shard sq.membership h).0 in
      elim (Result-cases claims.0) [
        | inr (e, refused) ↦
            let same : (claim_shard codec open_engine r shard (sq, owned)).0.membership ≡ claims.1 =
              ground arith in
            rw same h'
        | inl (outcome, granted) ↦ elim (Bool-cases (r.locks shard)) [
          | inl free ↦
              let same : (claim_shard codec open_engine r shard (sq, owned)).0.membership
                  ≡ claims.1 =
                unfold instantiate_shard in ground arith in
              rw same h'
          | inr taken ↦
              let same : (claim_shard codec open_engine r shard (sq, owned)).0.membership
                  ≡ (Store.revert_claim codec (r.revert_faults shard) shard r.owner
                      (run codec (r.before_revert shard) claims.1)).1 =
                ground arith in
              rw same (
                revert-Holds (r.revert_faults shard) shard s expiry
                  (run codec (r.before_revert shard) claims.1)
                  (λ e. absurd (ground (arith, ap r.locks e))) (keeps shard claims.1 h').1)
        ]
      ]

  -- Each shard that the round owns has been locked, and its new lease is stored.
  abbrev pub IsHeld : Daemon codec open_engine r × List String → Type 0
  IsHeld state =
      (s : String)
      → contains state.1 s ≡ true
      → (r.locks s ≡ true) × Holds s (r.now + lease_duration) state.0.membership

  claim_shard_owned :
      (shard s : String) (state : Daemon codec open_engine r × List String)
      → contains (claim_shard codec open_engine r shard state).1 s ≡ true
      → (contains state.1 s ≡ true)
        ⊎ (shard ≡ s)
          × (r.locks shard ≡ true)
          × ((outcome : ClaimOutcome) × ((Store.claim codec
                  (r.claim_faults shard)
                  shard
                  r.owner
                  r.now
                  r.skew
                  (run codec (r.before_claim shard) state.0.membership)).0
                ≡ ok outcome))
  unfolding claim_shard take_shard
  claim_shard_owned shard s (sq, owned) m =
      elim (Result-cases
        (Store.claim codec (r.claim_faults shard) shard r.owner r.now r.skew
          (run codec (r.before_claim shard) sq.membership)).0) [
            | inr (e, refused) ↦ inl (ground arith)
            | inl (outcome, granted) ↦ elim (Bool-cases (r.locks shard)) [
              | inr taken ↦ inl (ground arith)
              | inl free ↦ elim (Bool-cases (str_eq shard s)) [
                | inl own ↦ inr ((eq_iff shard s).0 own, free, (outcome, granted))
                | inr other ↦ inl (ground (arith, contains-cons shard s owned))
              ]
            ]
          ]

  claim_new-Holds :
      (faults : Faults codec.Raw) (shard : String) (d : Dir codec.Raw) (outcome : ClaimOutcome)
      → (Store.claim codec faults shard r.owner r.now r.skew d).0 ≡ ok outcome
      → Holds shard
          (r.now + lease_duration)
          (Store.claim codec faults shard r.owner r.now r.skew d).1
  claim_new-Holds faults shard d outcome granted =
      let (m, m', e, e', g) =
        claim_granted codec shard r.owner r.now r.skew d faults outcome granted in
      (m', e', (_, g.held, refl, omega arith))

  claim_shard-membership :
      (shard : String) (state : Daemon codec open_engine r × List String)
      → r.locks shard ≡ true
      → (claim_shard codec open_engine r shard state).0.membership
        ≡ (Store.claim codec
            (r.claim_faults shard)
            shard
            r.owner
            r.now
            r.skew
            (run codec (r.before_claim shard) state.0.membership)).1
  unfolding claim_shard take_shard instantiate_shard
  claim_shard-membership shard (sq, owned) free = ground arith

  claim_shard-IsHeld :
      (in_time : AreInTime) (shard : String) (state : Daemon codec open_engine r × List String)
      → IsHeld state
      → IsHeld (claim_shard codec open_engine r shard state)
  claim_shard-IsHeld in_time shard state h s m = elim (claim_shard_owned shard s state m) [
    | inl old ↦
        let (locked, holds) = h s old in
        (
          locked,
          claim_shard-Holds shard s (r.now + lease_duration) state (in_time-Keeps in_time s)
              (omega arith) locked holds,
        )
    | inr (same, free, (outcome, granted)) ↦
        let new =
          claim_new-Holds (r.claim_faults shard) shard
            (run codec (r.before_claim shard) state.0.membership) outcome granted in
        (ap r.locks (sym same) ∙ free, rw (← same, claim_shard-membership shard state free) new)
  ]

  claim_shards-IsHeld :
      (in_time : AreInTime) (shards : List String)
      (state : Daemon codec open_engine r × List String)
      → IsHeld state
      → IsHeld (claim_shards codec open_engine r shards state)
  unfolding claim_shards
  claim_shards-IsHeld in_time [] state h = h
  claim_shards-IsHeld in_time (shard ∷ shards) state h =
      claim_shards-IsHeld in_time shards (claim_shard codec open_engine r shard state)
        (claim_shard-IsHeld in_time shard state h)

  claim_loaded-IsHeld :
      {Err : Type 0} (in_time : AreInTime) (loaded : Result Err Membership)
      (sq : Daemon codec open_engine r)
      → IsHeld (claim_loaded codec open_engine r loaded sq)
  unfolding claim_loaded contains
  claim_loaded-IsHeld in_time (err _) sq = λ s m. absurd (cc)
  claim_loaded-IsHeld in_time (ok m) sq =
      claim_shards-IsHeld in_time (claimable_shards m r.now r.skew r.owner) (sq, [])
        (λ s h. absurd (cc))

  -- After a round of the heartbeat, whatever fails in it and whatever other daemons do to the membership
  -- between its claims, the daemon has an engine in its map only for shards whose lease it holds in the
  -- stored membership until a lease's duration after the round's clock; engines that it has taken out
  -- of the map may still run. The clocks of the others are taken not to be past that lease and the skew
  -- margin, and no call in this daemon's name comes between that releases or shortens a lease.
  pub heartbeat-Holds :
      (sq : Daemon codec open_engine r) (s : String) (e : E)
      → AreInTime
      → lookup s (heartbeat codec open_engine r sq).shards ≡ some e
      → Holds s (r.now + lease_duration) (heartbeat codec open_engine r sq).membership
  unfolding heartbeat reconcile_shards
  heartbeat-Holds sq s e in_time found =
      let loads = Store.load codec r.load_faults sq.membership in
      let state = claim_loaded codec open_engine r loads.0 (record sq { membership = loads.1 }) in
      let owned : contains state.1 s ≡ true =
        ground (arith, lookup-retain state.1 s state.0.shards) in
      (claim_loaded-IsHeld in_time loads.0 (record sq { membership = loads.1 }) s owned).1
