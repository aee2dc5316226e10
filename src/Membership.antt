-- ===== src/Membership.antt =====
-- src/membership.rs: who owns which shard. Types and the pure functions; the operations on the
-- queue directory stand in `Store`.
pub mod Identity
pub mod Store
pub mod Claims
pub mod Leases
pub mod Calls
pub mod Claimable
mod Tests
use Prim.Native.String.{◌++◌ as ◌<>◌}
use snerd_rust.Base.{
  ℕ, suc, zero, ◌+◌, ◌*◌, String, Bool, true, false, ◌||◌, Option, none, some, List, [], ◌∷◌, ltb,
  if◌then◌else◌, str_eq, Table, lookup, decimal,
}

-- Instants are nanoseconds since the earliest `DateTime<Utc>`, durations are nanoseconds.
abbrev pub second : ℕ
second = 1000000000

abbrev pub lease_duration : ℕ
lease_duration = 30 * second

abbrev pub default_skew_margin : ℕ
default_skew_margin = 5 * second

-- `io` stands for every `io::Error`, and `corrupt` for its message too.
pub data MembershipError : Type 0 where
  io not_initialized already_initialized corrupt : MembershipError
  owned_by_other : String → String → MembershipError
  lease_lost : String → MembershipError

pub record Claim : Type 0 where
  pub owner : String
  pub lease_expiry : ℕ

pub record Membership : Type 0 where
  pub queue : String
  pub shards : ℕ
  pub version : ℕ
  pub claims : Table Claim

pub data ClaimOutcome : Type 0 where
  claimed renewed : ClaimOutcome
  taken_over : String → ClaimOutcome

unfoldable pub shard_key : ℕ → String
shard_key index = "shard-" <> decimal index

unfoldable pub is_lapsed : Claim → ℕ → ℕ → Bool
is_lapsed claim now skew = ltb (claim.lease_expiry + skew) now

-- The test of the filter in `claimable_shards`.
unfoldable pub may_claim : Option Claim → ℕ → ℕ → String → Bool
unfolding is_lapsed
may_claim none now skew owner = true
may_claim (some claim) now skew owner = str_eq claim.owner owner || is_lapsed claim now skew

-- The indices `from`, `from + 1`, …, `count` of them, through `shard_key` and the filter.
claimable_from : ℕ → ℕ → Table Claim → ℕ → ℕ → String → List String
unfolding may_claim
claimable_from index zero claims now skew owner = []
claimable_from index (suc count) claims now skew owner =
    let rest = claimable_from (suc index) count claims now skew owner in
    let key = shard_key index in
    if may_claim (lookup key claims) now skew owner then key ∷ rest else rest

unfoldable pub claimable_shards : Membership → ℕ → ℕ → String → List String
unfolding claimable_from
claimable_shards m now skew owner = claimable_from 0 m.shards m.claims now skew owner
