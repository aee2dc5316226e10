-- ===== src/Membership/Tests.antt =====
-- Runs of the model of src/membership.rs, and its theorems at concrete inputs.
use Prim.Native.String.{◌++◌ as ◌<>◌}
use snerd_rust.Base.{
  ℕ, ◌*◌, ◌^◌, leb, ltb, if◌then◌else◌, ◌+◌, ◌≡◌, refl, ◌≢◌, sym, ◌↔◌, inl, inr, String, true,
  false, none, some, List, [], ◌∷◌, arith, eq_iff, All, contains, lookup, insert, decimal,
  parse_digits, ok, err, some,
}
use snerd_rust.Membership.{
  Claim, Membership, MembershipError, ClaimOutcome, claimed, lease_duration, shard_key,
  claimable_shards, second,
}
use snerd_rust.Membership.Store.{
  Codec, Dir, Faults, claim_change, mutate, claim, revert_claim, renew, release, init,
  init_unlocked, with_lock, read_unlocked, write_unlocked, bumped, parse, serialize,
}
use snerd_rust.Membership.Identity.{owner_id, host_name, skew_margin_from, parse_i64, max_seconds}
use snerd_rust.Membership.Identity.Unique.{owner_id_iff}
use snerd_rust.Membership.Identity.Margin.{skew_margin_from-decimal}
use snerd_rust.Membership.Store.Atomic.{IsCalm, stored, mutate_err}
use snerd_rust.Membership.Claims.{Grant, claim_granted}
use snerd_rust.Membership.Claimable.{IsShard, claimable_iff_claim}
use snerd_rust.Membership.Leases.{Held, Respects, claim_protects}
use snerd_rust.Membership.Calls.{Call, claim_call, renew_call, release_call, run, step, Stored}

program : Unit {0}
unfolding claim revert_claim renew release init init_unlocked mutate with_lock read_unlocked
    write_unlocked bumped parse serialize claim_change lookup insert run step stored shard_key
    decimal claimable_shards contains
program = tt

abbrev codec : Codec
codec = record {
  Raw = Membership;
  to_json = λ m. some m;
  from_json = λ raw. some raw;
  parse-print = λ m raw e. sym e;
}

abbrev start : Membership
start = record { queue = "q"; shards = 2; version = 0; claims = [] }

abbrev calm : Faults Membership
calm = record {
  open_lock = false;
  take_lock = false;
  read = false;
  create = false;
  write = false;
  sync = false;
  rename = false;
  torn = start;
}

abbrev full_disk : Faults Membership
full_disk = record calm { write = true }

calm-IsCalm : IsCalm calm
calm-IsCalm = record {
  open_lock = refl;
  take_lock = refl;
  read = refl;
  create = refl;
  write = refl;
  sync = refl;
  rename = refl;
}

abbrev d0 : Dir Membership
d0 = record { file = some start; tmp = none }

granted : (claim codec calm "shard-0" "a@pid-1" 100 0 d0).0 ≡ ok claimed
unfolding program
granted = refl

disk_full : (claim codec full_disk "shard-0" "a@pid-1" 100 0 d0).0 ≡ err MembershipError.io
unfolding program
disk_full = refl

different : ◌≢◌ {A = String} "b@pid-2" "a@pid-1"
different = ground (arith, eq_iff "b@pid-2" "a@pid-1")

abbrev calls : List (Call Membership)
calls =
    claim_call calm "shard-0" "b@pid-2" 200 0
    ∷ renew_call full_disk "shard-0" "a@pid-1" 150
    ∷ release_call calm "shard-0" "b@pid-2"
    ∷ []

calls-Respects : All (Respects codec "shard-0" "a@pid-1" (100 + lease_duration)) calls
unfolding Respects
calls-Respects =
    (inr (inl (different, omega arith)), (inr (inr (omega arith)), (inr different, tt)))

claim_protects_example :
    Stored codec
      (Held codec "shard-0" "a@pid-1" (100 + lease_duration))
      (run codec calls (claim codec calm "shard-0" "a@pid-1" 100 0 d0).1)
claim_protects_example =
    claim_protects codec calm "shard-0" "a@pid-1" 100 0 d0 claimed calls granted calls-Respects

claim_granted_example :
    (m : Membership) × (m' : Membership) × (stored codec d0 ≡ some m)
    × (stored codec (claim codec calm "shard-0" "a@pid-1" 100 0 d0).1 ≡ some m')
    × Grant "shard-0" "a@pid-1" 100 0 m m' claimed
claim_granted_example = claim_granted codec "shard-0" "a@pid-1" 100 0 d0 calm claimed granted

abbrev theirs : Claim
theirs = record { owner = "a@pid-1"; lease_expiry = 500 }

abbrev taken : Membership
taken = record start { claims = ("shard-0", theirs) ∷ [] }

abbrev d1 : Dir Membership
d1 = record { file = some taken; tmp = none }

d1-stored : stored codec d1 ≡ some taken
unfolding program
d1-stored = refl

found : lookup "shard-0" taken.claims ≡ some theirs
unfolding program
found = refl

claimable_iff_claim_example :
    (contains (claimable_shards taken 505 5 "b@pid-2") "shard-1" ≡ true) ↔ (
      IsShard taken "shard-1"
      × ((out : ClaimOutcome) × ((claim codec calm "shard-1" "b@pid-2" 505 5 d1).0 ≡ ok out)))
claimable_iff_claim_example =
    claimable_iff_claim codec calm d1 taken "shard-1" "b@pid-2" 505 5 calm-IsCalm (λ m. (m, refl))
      d1-stored

claimable_run : claimable_shards taken 505 5 "b@pid-2" ≡ "shard-1" ∷ []
unfolding program
claimable_run = refl

mutate_err_example :
    (mutate codec full_disk (claim_change "shard-0" "a@pid-1" 100 0) d0).1.file ≡ d0.file
unfolding program
mutate_err_example =
    mutate_err codec full_disk (claim_change "shard-0" "a@pid-1" 100 0) d0 MembershipError.io refl

-- Two hosts without a name in the environment.
owner_id_iff_example :
    (owner_id none none 1 ≡ owner_id (some "unknown-host") none 1)
    ↔ (host_name none none ≡ host_name (some "unknown-host") none) × (◌≡◌ {A = ℕ} 1 1)
owner_id_iff_example = owner_id_iff none none (some "unknown-host") none 1 1

identity : owner_id none (some "DESK") 42 ≡ "DESK@pid-42"
unfolding owner_id decimal
identity = refl

skew_margin_from-decimal_example :
    (skew_margin_from none ≡ some (5 * second))
    × (skew_margin_from (some (decimal 9)) ≡ (
        if leb 9 max_seconds
        then some (9 * second)
        else if ltb 9 (2 ^ 63)
        then none
        else some (5 * second)))
    × (skew_margin_from (some ("-" <> decimal 9))
        ≡ (if leb 9 (2 ^ 63) then some 0 else some (5 * second)))
skew_margin_from-decimal_example = skew_margin_from-decimal 9

no_number : skew_margin_from (some "soon") ≡ some (5 * second)
unfolding skew_margin_from parse_i64 parse_digits
no_number = refl
