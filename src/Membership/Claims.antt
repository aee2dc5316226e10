-- ===== src/Membership/Claims.antt =====
-- What `claim` and `claimable_shards` of src/membership.rs promise.
use snerd_rust.Base.{
  ℕ, ◌+◌, ◌%◌, ◌^◌, ◌≤◌, ◌<◌, ◌≡◌, refl, ◌≢◌, inl, inr, String, true, Option, none, some, arith,
  eq_iff, str_eq, lookup, lookup-insert, lookup-insert_self, Option-cases, Bool-cases, ok, err,
}
use snerd_rust.Membership.{
  Claim, Membership, ClaimOutcome, claimed, renewed, taken_over, owned_by_other, lease_duration,
  may_claim,
}
use snerd_rust.Membership.Store.{Codec, Dir, Faults, claim_change, set_claim, bumped, claim}
use snerd_rust.Membership.Store.Atomic.{IsCalm, stored, mutate_ok, mutate_reject}

-- Why a claim may be granted, by what the table held for the shard.
pub data Reason (before : Option Claim) (owner : String) (now skew : ℕ) (out : ClaimOutcome)
    : Type 0 where
  was_free : before ≡ none → out ≡ claimed → Reason before owner now skew out
  was_own :
      (c : Claim)
      → before ≡ some c
      → c.owner ≡ owner
      → out ≡ renewed
      → Reason before owner now skew out
  was_lapsed :
      (c : Claim)
      → before ≡ some c
      → c.owner ≢ owner
      → c.lease_expiry + skew < now
      → out ≡ taken_over c.owner
      → Reason before owner now skew out

-- A granted claim: the caller holds the shard for the lease duration, nothing else has changed.
pub record Grant (shard owner : String) (now skew : ℕ) (m m' : Membership) (out : ClaimOutcome)
    : Type 0 where
  pub held :
      lookup shard m'.claims ≡ some (record { owner = owner; lease_expiry = now + lease_duration })
  pub others : (j : String) → shard ≢ j → lookup j m'.claims ≡ lookup j m.claims
  pub queue : m'.queue ≡ m.queue
  pub shards : m'.shards ≡ m.shards
  pub version : m'.version ≡ (m.version + 1) % 2 ^ 64
  pub reason : Reason (lookup shard m.claims) owner now skew out

module _ (shard owner : String) (now skew : ℕ) (m : Membership) where
  change-Reason :
      (m' : Membership) (out : ClaimOutcome)
      → claim_change shard owner now skew m ≡ ok (out, m')
      → Reason (lookup shard m.claims) owner now skew out
  unfolding claim_change
  change-Reason m' out h = elim (Option-cases (lookup shard m.claims)) [
    | inl e ↦ was_free e (ground arith)
    | inr (c, e) ↦ elim (Bool-cases (str_eq c.owner owner)) [
      | inl own ↦ was_own c e ((eq_iff c.owner owner).0 own) (ground arith)
      | inr other ↦
          was_lapsed c e (ground (arith, eq_iff c.owner owner)) (ground arith) (ground arith)
    ]
  ]

  pub change_effect :
      (m' : Membership) (out : ClaimOutcome)
      → claim_change shard owner now skew m ≡ ok (out, m')
      → m' ≡ set_claim m shard owner (now + lease_duration)
  unfolding claim_change
  change_effect m' out h = ground arith

  -- `claim` accepts exactly what the filter of `claimable_shards` lets through.
  pub change_accepts :
      may_claim (lookup shard m.claims) now skew owner ≡ true
      → (out : ClaimOutcome) × (claim_change shard owner now skew m
          ≡ ok (out, set_claim m shard owner (now + lease_duration)))
  unfolding claim_change may_claim
  change_accepts h = elim (Option-cases (lookup shard m.claims)) [
    | inl e ↦ (claimed, ground arith)
    | inr (c, e) ↦ elim (Bool-cases (str_eq c.owner owner)) [
      | inl own ↦ (renewed, ground arith)
      | inr other ↦ (taken_over c.owner, ground arith)
    ]
  ]

  pub change_accepted :
      (m' : Membership) (out : ClaimOutcome)
      → claim_change shard owner now skew m ≡ ok (out, m')
      → may_claim (lookup shard m.claims) now skew owner ≡ true
  unfolding claim_change may_claim
  change_accepted m' out h = ground arith

module _ (codec : Codec) (shard owner : String) (now skew : ℕ) (d : Dir codec.Raw) where
  -- A claim that succeeds, whatever else fails, was free, the caller's own or lapsed beyond the
  -- skew margin; the stored membership then names the caller for the lease duration, keeps every
  -- other shard's claim, and has the next version.
  pub claim_granted :
      (faults : Faults codec.Raw) (out : ClaimOutcome)
      → (claim codec faults shard owner now skew d).0 ≡ ok out
      → (m m' : Membership) × (stored codec d ≡ some m)
        × (stored codec (claim codec faults shard owner now skew d).1 ≡ some m')
        × Grant shard owner now skew m m' out
  unfolding claim bumped set_claim
  claim_granted faults out h =
      let (m, m', e, changed, e') = mutate_ok codec faults _ d out h in
      let effect = change_effect shard owner now skew m m' out changed in
      (
        m,
        bumped codec m',
        e,
        e',
        record {
          held = rw effect (lookup-insert_self shard _ m.claims);
          others = λ j ne. rw effect (
              ground (
                arith,
                lookup-insert shard j
                    (record { owner = owner; lease_expiry = now + lease_duration }) m.claims,
                eq_iff shard j,
              ));
          queue = rw effect refl;
          shards = rw effect refl;
          version = rw effect refl;
          reason = change-Reason shard owner now skew m m' out changed;
        },
      )

  -- A live claim of another owner, not lapsed beyond the skew margin, is refused by name and the
  -- directory stays as it was.
  pub claim_refused :
      (faults : Faults codec.Raw) (m : Membership) (c : Claim)
      → IsCalm faults
      → stored codec d ≡ some m
      → lookup shard m.claims ≡ some c
      → c.owner ≢ owner
      → now ≤ c.lease_expiry + skew
      → claim codec faults shard owner now skew d ≡ (err (owned_by_other shard c.owner), d)
  unfolding claim claim_change
  claim_refused faults m c calm e found other live =
      mutate_reject codec faults _ d m _ calm e (ground (arith, eq_iff c.owner owner))
