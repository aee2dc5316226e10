-- ===== src/Membership/Store.antt =====
-- `MembershipStore` of src/membership.rs on one queue directory. Every method runs under the flock
-- on `.membership.lock`, so it is one atomic step on the directory; what the operating system can
-- refuse is given call by call.
pub mod Atomic
use snerd_rust.Base.{
  ℕ, ◌+◌, ◌%◌, ◌^◌, ◌≡◌, String, Bool, Option, none, some, [], if◌then◌else◌, str_eq, lookup,
  insert, remove, is_some, Result, ok, err, Exec, pure, lift, puts, fails_if, ◌>>=◌, ◌>>◌,
}
use snerd_rust.Membership.{
  MembershipError, io, not_initialized, already_initialized, corrupt, owned_by_other, lease_lost,
  Membership, ClaimOutcome, claimed, renewed, taken_over, lease_duration, is_lapsed,
}

-- serde_json on a `Membership`: what is printed is parsed back. `to_json` has its error case.
pub record Codec : Type 1 where
  pub Raw : Type 0
  pub to_json : Membership → Option Raw
  pub from_json : Raw → Option Membership
  pub parse-print : (m : Membership) (raw : Raw) → to_json m ≡ some raw → from_json raw ≡ some m

-- `membership.json` and `membership.json.tmp` of the queue directory.
pub record Dir (Raw : Type 0) : Type 0 where
  pub file : Option Raw
  pub tmp : Option Raw

-- The calls of the operating system that fail in one run of a method, and what a failing
-- `write_all` has left in the temporary file. `read` is an error other than `NotFound`.
pub record Faults (Raw : Type 0) : Type 0 where
  pub open_lock : Bool
  pub take_lock : Bool
  pub read : Bool
  pub create : Bool
  pub write : Bool
  pub sync : Bool
  pub rename : Bool
  pub torn : Raw

-- What a closure given to `mutate` returns: its result and the changed membership, or an error.
abbrev pub Change : Type 0 → Type 0
Change A = Result MembershipError (A × Membership)

unfoldable pub set_claim : Membership → String → String → ℕ → Membership
set_claim m shard owner expiry = record m {
  claims = insert shard (record { owner = owner; lease_expiry = expiry }) m.claims;
}

unfoldable pub drop_claim : Membership → String → Membership
drop_claim m shard = record m { claims = remove shard m.claims }

-- The closures of `claim`, `revert_claim`, `renew` and `release`.
unfoldable pub claim_change : String → String → ℕ → ℕ → Membership → Change ClaimOutcome
unfolding set_claim is_lapsed
claim_change shard owner now skew m =
    let taken = set_claim m shard owner (now + lease_duration) in
    elim (lookup shard m.claims) [
      | none ↦ ok (claimed, taken)
      | some existing ↦
          if str_eq existing.owner owner
          then ok (renewed, taken)
          else if is_lapsed existing now skew
          then ok (taken_over existing.owner, taken)
          else err (owned_by_other shard existing.owner)
    ]

unfoldable pub revert_change : String → String → Membership → Change (Unit {0})
unfolding drop_claim
revert_change shard owner m = elim (lookup shard m.claims) [
  | none ↦ ok (tt, m)
  | some claim ↦ if str_eq claim.owner owner then ok (tt, drop_claim m shard) else ok (tt, m)
]

unfoldable pub renew_change : String → String → ℕ → Membership → Change (Unit {0})
unfolding set_claim
renew_change shard owner now m = elim (lookup shard m.claims) [
  | none ↦ err (lease_lost shard)
  | some claim ↦
      if str_eq claim.owner owner
      then ok (tt, set_claim m shard claim.owner (now + lease_duration))
      else err (lease_lost shard)
]

unfoldable pub release_change : String → String → Membership → Change (Unit {0})
unfolding drop_claim
release_change shard owner m = elim (lookup shard m.claims) [
  | none ↦ err (lease_lost shard)
  | some claim ↦
      if str_eq claim.owner owner then ok (tt, drop_claim m shard) else err (lease_lost shard)
]

module _ (codec : Codec) where
  open codec use {Raw, to_json, from_json}

  abbrev pub M : Type 0 → Type 0
  M A = Exec (Dir Raw) MembershipError A

  unfoldable pub parse : Option Raw → Result MembershipError Membership
  parse none = err not_initialized
  parse (some raw) = elim (from_json raw) [ none ↦ err corrupt | some m ↦ ok m ]

  unfoldable pub serialize : Membership → Result MembershipError Raw
  serialize m = elim (to_json m) [ none ↦ err corrupt | some raw ↦ ok raw ]

  unfoldable pub bumped : Membership → Membership
  bumped m = record m { version = (m.version + 1) % 2 ^ 64 }

  module _ (faults : Faults Raw) where
    unfoldable pub with_lock : {A : Type 0} → M A → M A
    with_lock f = do fails_if faults.open_lock io; fails_if faults.take_lock io; f

    unfoldable pub read_unlocked : M Membership
    read_unlocked dir = (if faults.read then err io else parse dir.file, dir)

    unfoldable pub write_unlocked : Membership → M (Unit {0})
    write_unlocked m = do
      bytes ← lift (serialize m)
      fails_if faults.create io
      puts (λ dir. record dir { tmp = some (if faults.write then faults.torn else bytes) })
      fails_if faults.write io
      fails_if faults.sync io
      fails_if faults.rename io
      puts (λ dir. record dir { file = dir.tmp; tmp = none })

    unfoldable pub mutate : {A : Type 0} → (Membership → Change A) → M A
    mutate f =
        with_lock
          (do m ← read_unlocked; (out, m') ← lift (f m); write_unlocked (bumped m'); pure out)

    unfoldable pub init_unlocked : String → ℕ → M (Unit {0})
    init_unlocked queue shards dir =
        if is_some dir.file
        then (err already_initialized, dir)
        else write_unlocked (record { queue = queue; shards = shards; version = 0; claims = [] })
            dir

    unfoldable pub init : String → ℕ → M (Unit {0})
    init queue shards = with_lock (init_unlocked queue shards)

    unfoldable pub load : M Membership
    load = with_lock read_unlocked

    unfoldable pub claim : String → String → ℕ → ℕ → M ClaimOutcome
    claim shard owner now skew = mutate (claim_change shard owner now skew)

    unfoldable pub revert_claim : String → String → M (Unit {0})
    revert_claim shard owner = mutate (revert_change shard owner)

    unfoldable pub renew : String → String → ℕ → M (Unit {0})
    renew shard owner now = mutate (renew_change shard owner now)

    unfoldable pub release : String → String → M (Unit {0})
    release shard owner = mutate (release_change shard owner)
