-- ===== src/Membership/Claimable.antt =====
-- `claimable_shards` of src/membership.rs agrees with `claim`.
use snerd_rust.Base.{
  ℕ, zero, suc, ◌+◌, ◌≤◌, ◌<◌, ◌≡◌, ap, ◌↔◌, inl, inr, String, true, ◌&&◌, some, arith, eq_iff,
  str_eq, Table, contains, lookup, Bool-cases, le_cases, ok,
}
use snerd_rust.Membership.{
  Claim, Membership, ClaimOutcome, lease_duration, may_claim, shard_key, claimable_from,
  claimable_shards,
}
use snerd_rust.Membership.Store.{Codec, Dir, Faults, set_claim, bumped, claim}
use snerd_rust.Membership.Store.Atomic.{IsCalm, stored, mutate_ok, mutate_total}
use snerd_rust.Membership.Claims.{change_accepts, change_accepted}

module _ (claims : Table Claim) (now skew : ℕ) (owner : String) where
  abbrev Free : String → Type 0
  Free key = may_claim (lookup key claims) now skew owner ≡ true

  claimable_from_sound :
      (index count : ℕ) (key : String)
      → contains (claimable_from index count claims now skew owner) key ≡ true
      → (i : ℕ) × (i < index + count) × (shard_key i ≡ key) × Free key
  unfolding claimable_from contains
  claimable_from_sound index zero key h = absurd (cc)
  claimable_from_sound index (suc count) key h =
      elim (Bool-cases
        (str_eq (shard_key index) key && may_claim (lookup key claims) now skew owner)) [
          | inl here ↦
              (index, omega arith, ground (arith, eq_iff (shard_key index) key), ground arith)
          | inr later ↦
              let (i, hi, e, f) =
                claimable_from_sound (suc index) count key
                  (ground (arith, eq_iff (shard_key index) key)) in
              (i, omega arith, e, f)
        ]

  claimable_from_complete :
      (index count i : ℕ)
      → index ≤ i
      → i < index + count
      → Free (shard_key i)
      → contains (claimable_from index count claims now skew owner) (shard_key i) ≡ true
  unfolding claimable_from contains
  claimable_from_complete index zero i lo hi f = absurd (omega arith)
  claimable_from_complete index (suc count) i lo hi f = elim (le_cases index i lo) [
    | inl e ↦ ground (arith, eq_iff (shard_key index) (shard_key i), ap shard_key e)
    | inr later ↦ ground (arith, claimable_from_complete (suc index) count i later)
  ]

-- The table says that `key` names shard `i` of the queue.
abbrev pub IsShard : Membership → String → Type 0
IsShard m key = (i : ℕ) × (i < m.shards) × (shard_key i ≡ key)

pub claimable_iff :
    (m : Membership) (now skew : ℕ) (owner key : String)
    → (contains (claimable_shards m now skew owner) key ≡ true)
      ↔ (IsShard m key × (may_claim (lookup key m.claims) now skew owner ≡ true))
unfolding claimable_shards
claimable_iff m now skew owner key = (
  λ h.
      let (i, hi, e, f) = claimable_from_sound m.claims now skew owner 0 m.shards key h in
      ((i, omega arith, e), f),
  λ ((i, hi, e), f). rw (← e) (
      claimable_from_complete m.claims now skew owner 0 m.shards i (omega arith) (omega arith)
        (rw e f)),
)

-- serde_json prints every membership.
abbrev pub Prints : Codec → Type 0
Prints codec = (m : Membership) → (raw : codec.Raw) × (codec.to_json m ≡ some raw)

module _ (codec : Codec) (faults : Faults codec.Raw) (d : Dir codec.Raw) (m : Membership) where
  -- Where no call of the operating system fails and every membership can be printed, the shards
  -- listed as claimable are exactly the shards of the queue that `claim` would grant.
  pub claimable_iff_claim :
      (shard owner : String) (now skew : ℕ)
      → IsCalm faults
      → Prints codec
      → stored codec d ≡ some m
      → (contains (claimable_shards m now skew owner) shard ≡ true) ↔ (
          IsShard m shard
          × ((out : ClaimOutcome) × ((claim codec faults shard owner now skew d).0 ≡ ok out)))
  unfolding claim
  claimable_iff_claim shard owner now skew calm prints e = (
    λ h.
        let (is_shard, accepted) = (claimable_iff m now skew owner shard).0 h in
        let (out, changed) = change_accepts shard owner now skew m accepted in
        let m' = set_claim m shard owner (now + lease_duration) in
        let (raw, printed) = prints (bumped codec m') in
        (is_shard, (out, mutate_total codec faults _ d m m' out raw calm e changed printed)),
    λ (is_shard, (out, granted)).
        let (m₀, m', e₀, changed, _) = mutate_ok codec faults _ d out granted in
        (claimable_iff m now skew owner shard).1
          (is_shard, change_accepted shard owner now skew m m' out (cc)),
  )
