-- ===== src/Sharded/Stranded.antt =====
-- How a daemon of src/sharded_queue.rs comes to hold shards that it does not serve.
use mathlib.Core.Path.{subst}
use snerd_rust.Base.{
  ◌≡◌, refl, sym, ap, ◌∙◌, inl, inr, String, true, false, none, List, [], ◌∷◌, arith, str_eq,
  eq_iff, All, contains, Table, lookup, lookup-insert, Bool-cases, Result-cases, Result, ok, err,
}
use snerd_rust.Membership.{Membership, MembershipError, ClaimOutcome, claimable_shards}
use snerd_rust.Membership.Store
use snerd_rust.Membership.Store.{Codec, Dir, Faults}
use snerd_rust.Membership.Claims.{was_free, was_own, was_lapsed, claim_granted}
use snerd_rust.Membership.Leases.{Held}
use snerd_rust.Membership.Calls.{Stored, run}
use snerd_rust.Sharded.{
  SnerdShardedQueue, Round, starts, retain, instantiate_shard, reconcile_shards, Daemon, take_shard,
  claim_shard, claim_shards, claim_loaded, heartbeat, shutdown, without_all,
}
use snerd_rust.Sharded.Rounds.{lookup-retain, claim_shard-Holds, Holds, Keeps}

module _ (codec : Codec) {E : Type 0} (open_engine : String → E) (r : Round codec.Raw) where
  -- A claim of a shard that the daemon holds already is a renewal, which starts no engine.
  claim_held-renewed :
      (faults : Faults codec.Raw) (shard : String) (d : Dir codec.Raw) (outcome : ClaimOutcome)
      → Holds codec open_engine r shard 0 d
      → (Store.claim codec faults shard r.owner r.now r.skew d).0 ≡ ok outcome
      → starts outcome ≡ false
  unfolding starts
  claim_held-renewed faults shard d outcome (m₀, e₀, (c, found, own, late)) granted =
      let (m, m', e, e', g) =
        claim_granted codec shard r.owner r.now r.skew d faults outcome granted in
      let same : m ≡ m₀ = cc (sym e ∙ e₀) in
      elim g.reason [
        | was_free absent out ↦
            absurd (ground (arith, ap (λ (n : Membership). lookup shard n.claims) same))
        | was_own c' there mine out ↦ rw out refl
        | was_lapsed c' there other lapsed out ↦
            absurd (other (ground (arith, ap (λ (n : Membership). lookup shard n.claims) same)))
      ]

  -- The daemon holds the shard and has no engine for it.
  pub record IsStranded (shard : String) (sq : Daemon codec open_engine r) : Type 0 where
    pub holds : Holds codec open_engine r shard 0 sq.membership
    pub absent : lookup shard sq.shards ≡ none

  claim_shard-IsStranded :
      (k shard : String) (state : Daemon codec open_engine r × List String)
      → Keeps codec open_engine r shard 0
      → r.locks shard ≡ true
      → IsStranded shard state.0
      → IsStranded shard (claim_shard codec open_engine r k state).0
  unfolding claim_shard take_shard instantiate_shard
  claim_shard-IsStranded k shard (sq, owned) keeps free h = record {
    holds =
        claim_shard-Holds codec open_engine r k shard 0 (sq, owned) keeps (omega arith) free
          h.holds;
    absent =
        elim (Result-cases
          (Store.claim codec (r.claim_faults k) k r.owner r.now r.skew
            (run codec (r.before_claim k) sq.membership)).0) [
              | inr (e, refused) ↦ ground (arith, h.absent)
              | inl (outcome, granted) ↦ elim (Bool-cases (str_eq k shard)) [
                | inl own ↦
                    let same = (eq_iff k shard).0 own in
                    let idle =
                      claim_held-renewed (r.claim_faults k) k
                        (run codec (r.before_claim k) sq.membership) outcome
                        (subst
                          (λ j.
                            Holds codec open_engine r j 0
                              (run codec (r.before_claim k) sq.membership))
                          (sym same) (keeps k sq.membership h.holds).0)
                        granted in
                    ground (arith, h.absent, idle)
                | inr other ↦
                    ground (arith, h.absent, lookup-insert k shard (open_engine k) sq.shards)
              ]
            ];
  }

  claim_shards-IsStranded :
      (shards : List String) (shard : String) (state : Daemon codec open_engine r × List String)
      → Keeps codec open_engine r shard 0
      → r.locks shard ≡ true
      → IsStranded shard state.0
      → IsStranded shard (claim_shards codec open_engine r shards state).0
  unfolding claim_shards
  claim_shards-IsStranded [] shard state keeps free h = h
  claim_shards-IsStranded (k ∷ shards) shard state keeps free h =
      claim_shards-IsStranded shards shard (claim_shard codec open_engine r k state) keeps free
        (claim_shard-IsStranded k shard state keeps free h)

  claim_loaded-IsStranded :
      {Err : Type 0} (loaded : Result Err Membership) (shard : String)
      (sq : Daemon codec open_engine r)
      → Keeps codec open_engine r shard 0
      → r.locks shard ≡ true
      → IsStranded shard sq
      → IsStranded shard (claim_loaded codec open_engine r loaded sq).0
  unfolding claim_loaded
  claim_loaded-IsStranded (err _) shard sq keeps free h = h
  claim_loaded-IsStranded (ok m) shard sq keeps free h =
      claim_shards-IsStranded (claimable_shards m r.now r.skew r.owner) shard (sq, []) keeps free h

  load_same : (d : Dir codec.Raw) → (Store.load codec r.load_faults d).1 ≡ d
  unfolding Store.load Store.with_lock Store.read_unlocked
  load_same d = ground arith

  heartbeat-IsStranded :
      (shard : String) (sq : Daemon codec open_engine r)
      → Keeps codec open_engine r shard 0
      → r.locks shard ≡ true
      → IsStranded shard sq
      → IsStranded shard (heartbeat codec open_engine r sq)
  unfolding heartbeat reconcile_shards
  heartbeat-IsStranded shard sq keeps free h =
      let loads = Store.load codec r.load_faults sq.membership in
      let state = claim_loaded codec open_engine r loads.0 (record sq { membership = loads.1 }) in
      let kept =
        claim_loaded-IsStranded loads.0 shard (record sq { membership = loads.1 }) keeps free
          (record { holds = rw (load_same sq.membership) h.holds; absent = h.absent }) in
      record {
        holds = kept.holds;
        absent = ground (arith, lookup-retain state.1 shard state.0.shards, kept.absent);
      }

  -- A round in which the membership cannot be read takes every engine out of the map.
  failed_load-IsStranded :
      (shard : String) (sq : Daemon codec open_engine r) (e : MembershipError)
      → (Store.load codec r.load_faults sq.membership).0 ≡ err e
      → Holds codec open_engine r shard 0 sq.membership
      → IsStranded shard (heartbeat codec open_engine r sq)
  unfolding heartbeat reconcile_shards claim_loaded contains
  failed_load-IsStranded shard sq e failed holds =
      let same : (heartbeat codec open_engine r sq)
          ≡ record sq { membership = sq.membership; shards = retain [] sq.shards } =
        ground (arith, load_same sq.membership) in
      rw same (record { holds = holds; absent = ground (arith, lookup-retain [] shard sq.shards) })

  retain_none : (shards : Table E) → retain [] shards ≡ []
  unfolding retain contains
  retain_none [] = refl
  retain_none (s ∷ shards) = retain_none shards

  -- Where the membership cannot be read, the round drops every engine, and stops no processor; a shutdown
  -- after it does not stop them either.
  pub shutdown-failed_load :
      (sq : Daemon codec open_engine r) (e : MembershipError)
      → (Store.load codec r.load_faults sq.membership).0 ≡ err e
      → ((heartbeat codec open_engine r sq).shards ≡ [])
        × ((shutdown (heartbeat codec open_engine r sq)).processors ≡ sq.processors)
  unfolding heartbeat reconcile_shards claim_loaded shutdown without_all
  shutdown-failed_load sq e failed =
      (ground (arith, retain_none sq.shards), ground (arith, retain_none sq.shards))

module _ (codec : Codec) {E : Type 0} (open_engine : String → E) where
  unfoldable pub heartbeats :
      List (Round codec.Raw) → SnerdShardedQueue codec.Raw E → SnerdShardedQueue codec.Raw E
  heartbeats [] sq = sq
  heartbeats (r ∷ rs) sq = heartbeats rs (heartbeat codec open_engine r sq)

  heartbeats-absent :
      (owner shard : String) (rs : List (Round codec.Raw)) (sq : SnerdShardedQueue codec.Raw E)
      → All
          (λ (r : Round codec.Raw).
            (r.owner ≡ owner) × (r.locks shard ≡ true) × Keeps codec open_engine r shard 0)
          rs
      → Stored codec (Held codec shard owner 0) sq.membership
      → lookup shard sq.shards ≡ none
      → (lookup shard (heartbeats rs sq).shards ≡ none)
        × Stored codec (Held codec shard owner 0) (heartbeats rs sq).membership
  unfolding heartbeats
  heartbeats-absent owner shard [] sq all_own holds absent = (absent, holds)
  heartbeats-absent owner shard (r ∷ rs) sq ((own, free, keeps), all_own) holds absent =
      let next =
        heartbeat-IsStranded codec open_engine r shard sq keeps free
          (record { holds = rw own holds; absent = absent }) in
      heartbeats-absent owner shard rs (heartbeat codec open_engine r sq) all_own
        (rw (← own) next.holds) next.absent

  -- Where the membership cannot be read in one round, a shard that the daemon holds loses its engine, and
  -- has none in its map after any later rounds of this daemon in which the shard's lock is free, though
  -- the daemon still holds the shard's claim after them. An engine of before may still run. Other
  -- daemons are taken not to change the membership between two rounds, and what they do within a later
  -- round to leave the claim of the shard to this daemon.
  pub heartbeats-failed_load :
      (r : Round codec.Raw) (rs : List (Round codec.Raw)) (shard : String)
      (sq : SnerdShardedQueue codec.Raw E) (e : MembershipError)
      → (Store.load codec r.load_faults sq.membership).0 ≡ err e
      → Stored codec (Held codec shard r.owner 0) sq.membership
      → All
          (λ (later : Round codec.Raw).
            (later.owner ≡ r.owner)
            × (later.locks shard ≡ true)
            × Keeps codec open_engine later shard 0)
          rs
      → (lookup shard (heartbeats rs (heartbeat codec open_engine r sq)).shards ≡ none)
        × Stored codec
            (Held codec shard r.owner 0)
            (heartbeats rs (heartbeat codec open_engine r sq)).membership
  heartbeats-failed_load r rs shard sq e failed holds all_own =
      let start = failed_load-IsStranded codec open_engine r shard sq e failed holds in
      heartbeats-absent r.owner shard rs (heartbeat codec open_engine r sq) all_own start.holds
        start.absent
