-- ===== src/Sharded/Handlers.antt =====
-- The registration of task handlers in src/sharded_queue.rs, as steps between which other threads run. A
-- handler that is registered while shards are claimed and lost has to reach every engine.
pub mod Informed
pub mod Reach
mod Tests
use snerd_rust.Base.{
  ℕ, suc, ◌+◌, ◌≡◌, String, Option, none, some, List, [], ◌∷◌, ◌++◌, if◌then◌else◌, str_eq,
  contains, Table, lookup, insert, has_key, keys,
}
use snerd_rust.Sharded.{retain}

-- A registration that holds the read lock on the shards, and the shards that it has still to tell.
pub record Delivery (H : Type 0) : Type 0 where
  pub kind : String
  pub handler : H
  pub remaining : List String

-- The daemon's handlers by task type, those of the engine of each shard, the registrations that wait
-- for the lock on the shards, and those that hold it.
pub record Registry (H : Type 0) : Type 0 where
  pub task_handlers : Table H
  pub shards : Table (Table H)
  pub waiting : List (String × H)
  pub delivering : List (Delivery H)

module _ {H : Type 0} where
  -- `register_task_handler` of the engine of one shard (src/queue.rs).
  unfoldable pub register_on : String → String → H → Table (Table H) → Table (Table H)
  register_on shard kind handler shards = elim (lookup shard shards) [
    | none ↦ shards
    | some handlers ↦ insert shard (insert kind handler handlers) shards
  ]

  -- The copy of the daemon's handlers for a new engine.
  unfoldable pub copied : Table H → Table H
  copied [] = []
  copied ((kind, handler) ∷ handlers) = insert kind handler (copied handlers)

  -- `instantiate_shard`, as far as the handlers go.
  unfoldable pub instantiate : String → Registry H → Registry H
  unfolding copied
  instantiate shard r =
      if has_key shard r.shards
      then r
      else record r { shards = insert shard (copied r.task_handlers) r.shards }

  -- How many registrations of a task type are on their way.
  unfoldable pub waiting_for : String → List (String × H) → ℕ
  waiting_for kind [] = 0
  waiting_for kind ((k, h) ∷ ws) = (if str_eq k kind then 1 else 0) + waiting_for kind ws

  unfoldable pub delivering_for : String → List (Delivery H) → ℕ
  delivering_for kind [] = 0
  delivering_for kind (d ∷ ds) = (if str_eq d.kind kind then 1 else 0) + delivering_for kind ds

  abbrev pub under_way : String → Registry H → ℕ
  under_way kind r = waiting_for kind r.waiting + delivering_for kind r.delivering

  pub data Step : Registry H → Registry H → Type 0 where
    -- The first statement of `register_task_handler`. The type is not being registered already.
    registers :
        (kind : String) (handler : H) (r : Registry H)
        → under_way kind r ≡ 0
        → Step r (record r {
          task_handlers = insert kind handler r.task_handlers;
          waiting = (kind, handler) ∷ r.waiting;
        })
    -- `self.shards.read().await`
    locks :
        (kind : String) (handler : H) (hs ks : List (String × H)) (handlers : Table H)
        (shards : Table (Table H)) (delivering : List (Delivery H))
        → Step
            (record {
              task_handlers = handlers;
              shards = shards;
              waiting = hs ++ (kind, handler) ∷ ks;
              delivering = delivering;
            })
            (record {
              task_handlers = handlers;
              shards = shards;
              waiting = hs ++ ks;
              delivering =
                  record { kind = kind; handler = handler; remaining = keys shards } ∷ delivering;
            })
    -- One round of the loop over the shards.
    delivers :
        (kind : String) (handler : H) (shard : String) (others : List String)
        (hs ks : List (Delivery H)) (handlers : Table H) (shards : Table (Table H))
        (waiting : List (String × H))
        → Step
            (record {
              task_handlers = handlers;
              shards = shards;
              waiting = waiting;
              delivering =
                  hs ++ record { kind = kind; handler = handler; remaining = shard ∷ others } ∷ ks;
            })
            (record {
              task_handlers = handlers;
              shards = register_on shard kind handler shards;
              waiting = waiting;
              delivering = hs ++ record { kind = kind; handler = handler; remaining = others } ∷ ks;
            })
    -- The end of the loop, where the lock is dropped.
    unlocks :
        (kind : String) (handler : H) (hs ks : List (Delivery H)) (handlers : Table H)
        (shards : Table (Table H)) (waiting : List (String × H))
        → Step
            (record {
              task_handlers = handlers;
              shards = shards;
              waiting = waiting;
              delivering = hs ++ record { kind = kind; handler = handler; remaining = [] } ∷ ks;
            })
            (record {
              task_handlers = handlers;
              shards = shards;
              waiting = waiting;
              delivering = hs ++ ks;
            })
    -- The write lock on the shards, which nobody holds for reading.
    instantiates :
        (shard : String) (r : Registry H) → r.delivering ≡ [] → Step r (instantiate shard r)
    -- `reconcile_shards`, under the write lock.
    reconciles :
        (owned : List String) (r : Registry H)
        → r.delivering ≡ []
        → Step r (record r { shards = retain owned r.shards })

  pub data Steps (a : Registry H) : Registry H → Type 0 where
    start : Steps a a
    next : {b c : Registry H} → Steps a b → Step b c → Steps a c

-- A daemon that has just been made has no handlers and no engines.
abbrev pub booted : {H : Type 0} → Registry H
booted = record { task_handlers = []; shards = []; waiting = []; delivering = [] }
