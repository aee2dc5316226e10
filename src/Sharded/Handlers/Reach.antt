-- ===== src/Sharded/Handlers/Reach.antt =====
-- Every engine of a daemon has the daemon's handlers (src/sharded_queue.rs).
use snerd_rust.Base.{
  ◌≡◌, inl, inr, String, none, some, List, [], ◌∷◌, ◌++◌, arith, if◌then◌else◌, str_eq, eq_iff,
  contains, Table, lookup, insert, lookup-insert, lookup-insert_self, All-remove, All-put, has_key,
  keys, contains-cons, Bool-cases, Option-cases,
}
use snerd_rust.Sharded.{retain}
use snerd_rust.Sharded.Rounds.{lookup-retain}
use snerd_rust.Sharded.Handlers.{
  Delivery, Registry, register_on, copied, instantiate, waiting_for, delivering_for, under_way,
  Step, registers, locks, delivers, unlocks, instantiates, reconciles, Steps, start, next, booted,
}
use snerd_rust.Sharded.Handlers.Informed.{
  IsInformed, Delivers, WaitsFor, contains-keys, delivering-insert, delivering_for-append,
  lookup-copied, owed_by, owed_by-append, owed_by-le, waiting-insert, waiting_for-append,
}

module _ {H : Type 0} where
  registers-IsInformed :
      (kind : String) (handler : H) (r : Registry H)
      → under_way kind r ≡ 0
      → IsInformed r
      → IsInformed (record r {
        task_handlers = insert kind handler r.task_handlers;
        waiting = (kind, handler) ∷ r.waiting;
      })
  unfolding waiting_for
  registers-IsInformed kind handler r quiet h = record {
    waiting = (
      lookup-insert_self kind handler r.task_handlers,
      waiting-insert kind handler r.task_handlers r.waiting (omega arith) h.waiting,
    );
    delivering =
        delivering-insert kind handler r.task_handlers r.delivering (omega arith) h.delivering;
    alone = λ k. ground (arith, h.alone k, eq_iff kind k);
    told = λ k shard handlers settled found. ground (
      arith,
      h.told k shard handlers,
      lookup-insert kind k handler r.task_handlers,
      eq_iff kind k,
    );
  }

  locks-IsInformed :
      (kind : String) (handler : H) (hs ks : List (String × H)) (handlers : Table H)
      (shards : Table (Table H)) (delivering : List (Delivery H))
      → IsInformed (record {
        task_handlers = handlers;
        shards = shards;
        waiting = hs ++ (kind, handler) ∷ ks;
        delivering = delivering;
      })
      → IsInformed (record {
        task_handlers = handlers;
        shards = shards;
        waiting = hs ++ ks;
        delivering =
            record { kind = kind; handler = handler; remaining = keys shards } ∷ delivering;
      })
  unfolding waiting_for delivering_for owed_by
  locks-IsInformed kind handler hs ks handlers shards delivering h =
      let (own, others) = All-remove (WaitsFor handlers) hs ks (kind, handler) h.waiting in
      record {
        waiting = others;
        delivering = (own, h.delivering);
        alone = λ k. ground (
          arith,
          h.alone k,
          waiting_for-append k hs ((kind, handler) ∷ ks),
          waiting_for-append k hs ks,
        );
        told = λ k shard engine settled found. ground (
          arith,
          h.told k shard engine,
          contains-keys shard shards engine found,
          waiting_for-append k hs ((kind, handler) ∷ ks),
          waiting_for-append k hs ks,
        );
      }

  lookup-register_on :
      (shard other kind : String) (handler : H) (shards : Table (Table H)) (engine : Table H)
      → lookup other shards ≡ some engine
      → lookup other (register_on shard kind handler shards)
        ≡ some (if str_eq shard other then insert kind handler engine else engine)
  unfolding register_on
  lookup-register_on shard other kind handler shards engine found =
      elim (Option-cases (lookup shard shards)) [
        | inl absent ↦ ground (arith, eq_iff shard other)
        | inr (own, e) ↦
            ground (
              arith,
              lookup-insert shard other (insert kind handler own) shards,
              eq_iff shard other,
            )
      ]

  register_on-none :
      (shard other kind : String) (handler : H) (shards : Table (Table H))
      → lookup other shards ≡ none
      → lookup other (register_on shard kind handler shards) ≡ none
  unfolding register_on
  register_on-none shard other kind handler shards absent =
      elim (Option-cases (lookup shard shards)) [
        | inl e ↦ ground arith
        | inr (own, e) ↦
            ground (
              arith,
              lookup-insert shard other (insert kind handler own) shards,
              eq_iff shard other,
            )
      ]

  delivers-IsInformed :
      (kind : String) (handler : H) (shard : String) (others : List String)
      (hs ks : List (Delivery H)) (handlers : Table H) (shards : Table (Table H))
      (waiting : List (String × H))
      → IsInformed (record {
        task_handlers = handlers;
        shards = shards;
        waiting = waiting;
        delivering =
            hs ++ record { kind = kind; handler = handler; remaining = shard ∷ others } ∷ ks;
      })
      → IsInformed (record {
        task_handlers = handlers;
        shards = register_on shard kind handler shards;
        waiting = waiting;
        delivering = hs ++ record { kind = kind; handler = handler; remaining = others } ∷ ks;
      })
  unfolding delivering_for owed_by
  delivers-IsInformed kind handler shard others hs ks handlers shards waiting h =
      let before : Delivery H = record {
        kind = kind;
        handler = handler;
        remaining = shard ∷ others;
      } in
      let later : Delivery H = record { kind = kind; handler = handler; remaining = others } in
      let (own, rest) = All-remove (Delivers handlers) hs ks before h.delivering in
      record {
        waiting = h.waiting;
        delivering = All-put (Delivers handlers) hs ks later own rest;
        alone = λ k. ground (
          arith,
          h.alone k,
          delivering_for-append k hs (before ∷ ks),
          delivering_for-append k hs (later ∷ ks),
        );
        told = λ k s engine settled found. elim (Option-cases (lookup s shards)) [
          | inl absent ↦
              absurd (ground (arith, register_on-none shard s kind handler shards absent))
          | inr (old, present) ↦ ground (
            arith,
            lookup-register_on shard s kind handler shards old present,
            h.told k s old,
            lookup-insert kind k handler old,
            eq_iff kind k,
            eq_iff shard s,
            owed_by-append k s hs (before ∷ ks),
            owed_by-append k s hs (later ∷ ks),
            contains-cons shard s others,
          )
        ];
      }

  unlocks-IsInformed :
      (kind : String) (handler : H) (hs ks : List (Delivery H)) (handlers : Table H)
      (shards : Table (Table H)) (waiting : List (String × H))
      → IsInformed (record {
        task_handlers = handlers;
        shards = shards;
        waiting = waiting;
        delivering = hs ++ record { kind = kind; handler = handler; remaining = [] } ∷ ks;
      })
      → IsInformed (record {
        task_handlers = handlers;
        shards = shards;
        waiting = waiting;
        delivering = hs ++ ks;
      })
  unfolding delivering_for owed_by contains
  unlocks-IsInformed kind handler hs ks handlers shards waiting h =
      let over : Delivery H = record { kind = kind; handler = handler; remaining = [] } in
      record {
        waiting = h.waiting;
        delivering = (All-remove (Delivers handlers) hs ks over h.delivering).1;
        alone = λ k. ground (
          arith,
          h.alone k,
          delivering_for-append k hs (over ∷ ks),
          delivering_for-append k hs ks,
        );
        told = λ k s engine settled found.
            h.told k s engine
              (ground (arith, owed_by-append k s hs (over ∷ ks), owed_by-append k s hs ks)) found;
      }

  instantiates-IsInformed :
      (shard : String) (r : Registry H) → IsInformed r → IsInformed (instantiate shard r)
  unfolding instantiate
  instantiates-IsInformed shard r h = elim (Bool-cases (has_key shard r.shards)) [
    | inl known ↦ rw known h
    | inr new ↦ rw new (record {
      waiting = h.waiting;
      delivering = h.delivering;
      alone = h.alone;
      told = λ kind s engine settled found. ground (
        arith,
        h.told kind s engine,
        lookup-insert shard s (copied r.task_handlers) r.shards,
        lookup-copied kind r.task_handlers,
      );
    })
  ]

  reconciles-IsInformed :
      (owned : List String) (r : Registry H)
      → IsInformed r
      → IsInformed (record r { shards = retain owned r.shards })
  reconciles-IsInformed owned r h = record {
    waiting = h.waiting;
    delivering = h.delivering;
    alone = h.alone;
    told = λ kind s engine settled found.
        ground (arith, h.told kind s engine, lookup-retain owned s r.shards);
  }

  Step-IsInformed : {a b : Registry H} → Step a b → IsInformed a → IsInformed b
  Step-IsInformed (registers kind handler r quiet) h = registers-IsInformed kind handler r quiet h
  Step-IsInformed (locks kind handler hs ks handlers shards delivering) h =
      locks-IsInformed kind handler hs ks handlers shards delivering h
  Step-IsInformed (delivers kind handler shard others hs ks handlers shards waiting) h =
      delivers-IsInformed kind handler shard others hs ks handlers shards waiting h
  Step-IsInformed (unlocks kind handler hs ks handlers shards waiting) h =
      unlocks-IsInformed kind handler hs ks handlers shards waiting h
  Step-IsInformed (instantiates shard r free) h = instantiates-IsInformed shard r h
  Step-IsInformed (reconciles owned r free) h = reconciles-IsInformed owned r h

  steps-IsInformed : {a b : Registry H} → Steps a b → IsInformed a → IsInformed b
  steps-IsInformed start h = h
  steps-IsInformed (next steps step) h = Step-IsInformed step (steps-IsInformed steps h)

  -- However handlers are registered, and shards claimed and lost, between the statements of the
  -- registrations, if no type is registered again before its registration is over: where no
  -- registration of a type is under way, the engine of every shard has for that type the handler
  -- that the daemon has, or none where it has none.
  pub handlers_reach :
      (r : Registry H) (kind shard : String) (engine : Table H)
      → Steps booted r
      → under_way kind r ≡ 0
      → lookup shard r.shards ≡ some engine
      → lookup kind engine ≡ lookup kind r.task_handlers
  unfolding waiting_for delivering_for lookup
  handlers_reach r kind shard engine steps quiet found =
      let h = steps-IsInformed steps (record {
        waiting = tt;
        delivering = tt;
        alone = λ k. omega arith;
        told = λ k s handlers settled absent. absurd (cc absent);
      }) in
      h.told kind shard engine (omega (arith, owed_by-le kind shard r.delivering)) found
