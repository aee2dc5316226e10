-- ===== src/Sharded/Handlers/Tests.antt =====
-- A run of the registration of handlers (src/sharded_queue.rs), and its theorem at the end of the run.
use snerd_rust.Base.{ℕ, ◌≡◌, refl, String, some, List, [], ◌∷◌, Table, lookup, insert}
use snerd_rust.Sharded.Handlers.{
  Delivery, Registry, register_on, copied, instantiate, waiting_for, delivering_for, under_way,
  registers, locks, delivers, unlocks, instantiates, Steps, start, next, booted,
}
use snerd_rust.Sharded.Handlers.Reach.{handlers_reach}

-- Shard 0 is claimed; a handler is put in the map; shard 1 is claimed before the lock is taken; then the
-- handler is given to both engines.
abbrev engine₀ : Registry ℕ
engine₀ = instantiate "shard-0" booted

abbrev put_in : Registry ℕ
put_in = record engine₀ {
  task_handlers = insert "mail" 7 engine₀.task_handlers;
  waiting = ("mail", 7) ∷ engine₀.waiting;
}

abbrev both : Table (Table ℕ)
both = (instantiate "shard-1" put_in).shards

abbrev delivery : List String → Delivery ℕ
delivery shards = record { kind = "mail"; handler = 7; remaining = shards }

abbrev registry : Table (Table ℕ) → List (String × ℕ) → List (Delivery ℕ) → Registry ℕ
registry shards waiting delivering = record {
  task_handlers = ("mail", 7) ∷ [];
  shards = shards;
  waiting = waiting;
  delivering = delivering;
}

abbrev told₀ : Table (Table ℕ)
told₀ = register_on "shard-0" "mail" 7 both

abbrev told₁ : Table (Table ℕ)
told₁ = register_on "shard-1" "mail" 7 told₀

run : Steps booted (registry told₁ [] [])
unfolding register_on copied instantiate waiting_for delivering_for lookup insert
run =
    next
      (next
        (next
          (next
            (next
              (next (next start (instantiates "shard-0" booted refl))
                (registers "mail" 7 engine₀ refl))
              (instantiates "shard-1" put_in refl))
            (locks "mail" 7 [] [] (("mail", 7) ∷ []) both []))
          (delivers "mail" 7 "shard-0" ("shard-1" ∷ []) [] [] (("mail", 7) ∷ []) both []))
        (delivers "mail" 7 "shard-1" [] [] [] (("mail", 7) ∷ []) told₀ []))
      (unlocks "mail" 7 [] [] (("mail", 7) ∷ []) told₁ [])

settled : under_way "mail" (registry told₁ [] []) ≡ 0
unfolding waiting_for delivering_for
settled = refl

abbrev mailing : Table ℕ
mailing = ("mail", 7) ∷ []

found : lookup "shard-1" told₁ ≡ some mailing
unfolding register_on copied instantiate lookup insert
found = refl

handlers_reach_example : lookup "mail" mailing ≡ lookup "mail" (registry told₁ [] []).task_handlers
handlers_reach_example =
    handlers_reach (registry told₁ [] []) "mail" "shard-1" mailing run settled found
