-- ===== src/Sharded/Tests/OnHost/Fleet.antt =====
-- Two daemons of src/sharded_queue.rs on one host: the second takes over a lapsed claim while the engine
-- of the first still runs.
use snerd_rust.Base.{ℕ, ◌+◌, ◌≤◌, ◌≡◌, refl, String, List, [], ◌∷◌, Result, err}
use snerd_rust.Membership.{Membership, lease_duration}
use snerd_rust.Sharded.Host.{Host, HostRound, Panic, panicked, claim_on_host}
use snerd_rust.Sharded.Host.Fleet.{
  Member, Fleet, host_of, member_of, joins, turn, FleetRun, starts, goes_on, copies, running,
}
use snerd_rust.Sharded.Host.Fleet.Serving.{serving, one_server}
use snerd_rust.Sharded.Tests.{codec, idle, engine}
use snerd_rust.Sharded.Tests.OnHost.{on_host, queue_dir, host_round}

fleet : Unit {0}
unfolding on_host host_of member_of copies running
fleet = tt

abbrev newcomer : Member ℕ
newcomer = record { shards = []; processors = [] }

-- The first daemon claims the shard and starts its engine.
abbrev served : Host Membership ℕ
served =
    (claim_on_host codec engine queue_dir (host_round 100) "shard-0" []
      (host_of idle.membership [] newcomer)).1

-- A round of another daemon, after the lease of the first has lapsed.
abbrev challenge : HostRound Membership
challenge = record (host_round (lease_duration + 200)) { owner = "b@pid-2" }

abbrev challenged : Result Panic (List String) × Host Membership ℕ
challenged =
    claim_on_host codec engine queue_dir challenge "shard-0" []
      (host_of served.daemon.membership served.locks newcomer)

challenge_panics : challenged.0 ≡ err panicked
unfolding fleet
challenge_panics = refl

abbrev empty : Fleet Membership ℕ
empty = record { membership = idle.membership; locks = []; daemons = [] }

abbrev two : Fleet Membership ℕ
two = record {
  membership = challenged.1.daemon.membership;
  locks = challenged.1.locks;
  daemons = member_of challenged.1 ∷ member_of served ∷ [];
}

two_run : FleetRun codec engine queue_dir empty two
two_run =
    goes_on _ _ two
      (goes_on _ _ _
        (goes_on _ _ _ (goes_on empty _ _ (starts empty) (joins idle.membership [] []))
          (turn idle.membership [] [] [] newcomer (host_round 100) "shard-0" [] served refl))
        (joins served.daemon.membership served.locks (member_of served ∷ [])))
      (turn served.daemon.membership served.locks [] (member_of served ∷ []) newcomer challenge
        "shard-0" [] challenged.1 refl)

two_engines : running "shard-0" two.daemons ≡ 1
unfolding fleet
two_engines = refl

one_server_example : (running "shard-0" two.daemons ≤ 1) × (serving "shard-0" two.daemons ≤ 1)
one_server_example = one_server codec engine queue_dir idle.membership [] two two_run "shard-0"
