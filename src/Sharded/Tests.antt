-- ===== src/Sharded/Tests.antt =====
-- Runs of the model of src/sharded_queue.rs, and its theorems at concrete inputs.
mod OnHost
use snerd_rust.Base.{
  ℕ, ◌+◌, ◌≡◌, refl, ◌≢◌, sym, String, true, false, none, some, List, [], ◌∷◌, arith, All, contains,
  decimal, keys, lookup, insert, remove, err,
}
use snerd_rust.Membership.{Membership, MembershipError, lease_duration, shard_key, claimable_shards}
use snerd_rust.Membership.Store
use snerd_rust.Membership.Store.{Codec, Dir, Faults}
use snerd_rust.Membership.Store.Atomic.{stored}
use snerd_rust.Membership.Leases.{Held}
use snerd_rust.Membership.Calls.{Stored, run}
use snerd_rust.Task.Sample.{sample, task}
use snerd_rust.FileStore.{SaveFaults, FileStore}
use snerd_rust.FileStore.Sample.{sample_serde}
use snerd_rust.Sharding.Route.{route_shard}
use snerd_rust.Queue.{SnerdQueue, new_with_pools}
use snerd_rust.Sharded.{
  SnerdShardedQueue, Round, starts, retain, instantiate_shard, reconcile_shards, take_shard,
  claim_shard, claim_shards, claim_loaded, heartbeat, identified, enqueue, shutdown,
}
use snerd_rust.Sharded.Rounds.{Holds, Keeps, AreInTime, heartbeat-Holds}
use snerd_rust.Sharded.Stranded.{heartbeats, heartbeats-failed_load, shutdown-failed_load}
use snerd_rust.Sharded.Serves.{IsServedBy, enqueue-IsServedBy}

program : Unit {0}
unfolding heartbeat claim_loaded claim_shards claim_shard take_shard instantiate_shard starts
    reconcile_shards retain Store.claim Store.revert_claim Store.revert_change Store.mutate
    Store.claim_change Store.set_claim Store.with_lock Store.read_unlocked Store.write_unlocked
    Store.bumped Store.parse Store.serialize Store.load claimable_shards shard_key decimal contains
    lookup insert remove stored run
program = tt

abbrev codec : Codec
codec = record {
  Raw = Membership;
  to_json = λ m. some m;
  from_json = λ raw. some raw;
  parse-print = λ m raw e. sym e;
}

abbrev start : Membership
start = record { queue = "q"; shards = 1; version = 0; claims = [] }

abbrev calm : Faults Membership
calm = record {
  open_lock = false;
  take_lock = false;
  read = false;
  create = false;
  write = false;
  sync = false;
  rename = false;
  torn = start;
}

abbrev round : ℕ → Round Membership
round now = record {
  owner = "a@pid-1";
  now = now;
  skew = 5;
  load_faults = calm;
  claim_faults = λ _. calm;
  revert_faults = λ _. calm;
  locks = λ _. true;
  before_claim = λ _. [];
  before_revert = λ _. [];
}

abbrev engine : String → ℕ
engine shard = 7

abbrev idle : SnerdShardedQueue Membership ℕ
idle = record {
  membership = record { file = some start; tmp = none };
  shards = [];
  processors = [];
}

abbrev serving : SnerdShardedQueue Membership ℕ
serving = heartbeat codec engine (round 100) idle

serves : lookup "shard-0" serving.shards ≡ some 7
unfolding program
serves = refl

round-AreInTime : AreInTime codec engine (round 100)
round-AreInTime s k = (tt, tt)

heartbeat-Holds_example :
    Holds codec engine (round 100) "shard-0" (100 + lease_duration) serving.membership
heartbeat-Holds_example =
    heartbeat-Holds codec engine (round 100) idle "shard-0" 7 round-AreInTime serves

-- A round whose read of the membership fails.
abbrev blind : Round Membership
blind = record (round 200) { load_faults = record calm { read = true } }

load_fails : (Store.load codec blind.load_faults serving.membership).0 ≡ err MembershipError.io
unfolding program
load_fails = refl

serving-Held : Stored codec (Held codec "shard-0" "a@pid-1" 0) serving.membership
serving-Held =
    let (m, e, (c, found, own, late)) =
      heartbeat-Holds codec engine (round 100) idle "shard-0" 7 round-AreInTime serves in
    (m, e, (c, found, own, omega arith))

abbrev later : List (Round Membership)
later = round 300 ∷ round 400 ∷ []

later-own :
    All
      (λ (r : Round Membership).
        (r.owner ≡ "a@pid-1") × (r.locks "shard-0" ≡ true) × Keeps codec engine r "shard-0" 0)
      later
unfolding run
later-own = ((refl, refl, λ k d h. (h, h)), ((refl, refl, λ k d h. (h, h)), tt))

heartbeats-failed_load_example :
    (lookup "shard-0" (heartbeats codec engine later (heartbeat codec engine blind serving)).shards
      ≡ none)
    × Stored codec
        (Held codec "shard-0" "a@pid-1" 0)
        (heartbeats codec engine later (heartbeat codec engine blind serving)).membership
heartbeats-failed_load_example =
    heartbeats-failed_load codec engine blind later "shard-0" serving MembershipError.io load_fails
      serving-Held later-own

abbrev store : FileStore sample
store = record {
  log = none;
  unfinished = false;
  total_tasks = 0;
  deleted_tasks = 0;
  append_count = 0;
  compacting = false;
  tasks_cache = [];
}

abbrev two_shards : SnerdShardedQueue Membership (SnerdQueue sample ℕ)
two_shards = record {
  membership = record { file = some start; tmp = none };
  shards = ("shard-0", new_with_pools store 0 []) ∷ ("shard-1", new_with_pools store 0 []) ∷ [];
  processors = [];
}

some_shard : keys two_shards.shards ≢ []
some_shard e = absurd (cc)

abbrev calm_saves : SaveFaults
calm_saves = record {
  create_dir = false;
  open_log = false;
  write = false;
  torn = λ _. "";
  sync = false;
}

enqueue-IsServedBy_example :
    (shard : String) × (q : SnerdQueue sample ℕ) × (route_shard
        (identified "id-1" (task "" none)).task_id
        (keys two_shards.shards)
      ≡ some shard)
    × IsServedBy sample_serde calm_saves none
        (identified "id-1" (task "" none))
        shard
        q
        two_shards
        (enqueue sample_serde calm_saves none "id-1" (task "" none) two_shards).0
        (enqueue sample_serde calm_saves none "id-1" (task "" none) two_shards).1
enqueue-IsServedBy_example =
    enqueue-IsServedBy sample_serde calm_saves none "id-1" (task "" none) two_shards some_shard

still_running : serving.processors ≡ "shard-0" ∷ []
unfolding program
still_running = refl
