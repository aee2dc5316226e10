-- ===== src/Sharded/Handlers/Informed.antt =====
-- What the registrations under way (src/sharded_queue.rs) have still to tell the engines.
use snerd_rust.Base.{
  ℕ, ◌+◌, ◌≡◌, ◌≤◌, refl, String, true, some, List, [], ◌∷◌, ◌++◌, arith, All, if◌then◌else◌,
  str_eq, eq_iff, contains, Table, lookup, insert, lookup-insert, keys, ◌&&◌,
}
use snerd_rust.Sharded.Handlers.{Delivery, Registry, copied, waiting_for, delivering_for, under_way}

pub contains-keys {ℓ} :
    {V : Type ℓ} (shard : String) (m : Table V) (v : V)
    → lookup shard m ≡ some v
    → contains (keys m) shard ≡ true
unfolding lookup contains
contains-keys shard [] v h = absurd (cc h)
contains-keys shard ((k, w) ∷ m) v h = ground (arith, contains-keys shard m v)

module _ {H : Type 0} where
  -- How many registrations of the type have still to tell the engine of the shard.
  unfoldable pub owed_by : String → String → List (Delivery H) → ℕ
  owed_by kind shard [] = 0
  owed_by kind shard (d ∷ ds) =
      (if str_eq d.kind kind && contains d.remaining shard then 1 else 0) + owed_by kind shard ds

  abbrev pub owed : String → String → Registry H → ℕ
  owed kind shard r = waiting_for kind r.waiting + owed_by kind shard r.delivering

  abbrev pub WaitsFor : Table H → String × H → Type 0
  WaitsFor handlers w = lookup w.0 handlers ≡ some w.1

  abbrev pub Delivers : Table H → Delivery H → Type 0
  Delivers handlers d = lookup d.kind handlers ≡ some d.handler

  -- A registration under way is the latest of its type and the only one; an engine that it has not still
  -- to tell has the daemon's handler of the type.
  pub record IsInformed (r : Registry H) : Type 0 where
    pub waiting : All (WaitsFor r.task_handlers) r.waiting
    pub delivering : All (Delivers r.task_handlers) r.delivering
    pub alone : (kind : String) → under_way kind r ≤ 1
    pub told :
        (kind shard : String) (handlers : Table H)
        → owed kind shard r ≡ 0
        → lookup shard r.shards ≡ some handlers
        → lookup kind handlers ≡ lookup kind r.task_handlers

  pub waiting_for-append :
      (kind : String) (hs ks : List (String × H))
      → waiting_for kind (hs ++ ks) ≡ waiting_for kind hs + waiting_for kind ks
  unfolding waiting_for
  waiting_for-append kind [] ks = omega arith
  waiting_for-append kind ((k, h) ∷ hs) ks = ground (arith, waiting_for-append kind hs ks)

  pub delivering_for-append :
      (kind : String) (hs ks : List (Delivery H))
      → delivering_for kind (hs ++ ks) ≡ delivering_for kind hs + delivering_for kind ks
  unfolding delivering_for
  delivering_for-append kind [] ks = omega arith
  delivering_for-append kind (d ∷ hs) ks = ground (arith, delivering_for-append kind hs ks)

  pub owed_by-append :
      (kind shard : String) (hs ks : List (Delivery H))
      → owed_by kind shard (hs ++ ks) ≡ owed_by kind shard hs + owed_by kind shard ks
  unfolding owed_by
  owed_by-append kind shard [] ks = omega arith
  owed_by-append kind shard (d ∷ hs) ks = ground (arith, owed_by-append kind shard hs ks)

  pub lookup-copied :
      (kind : String) (handlers : Table H) → lookup kind (copied handlers) ≡ lookup kind handlers
  unfolding copied lookup
  lookup-copied kind [] = refl
  lookup-copied kind ((k, h) ∷ handlers) =
      ground (arith, lookup-insert k kind h (copied handlers), lookup-copied kind handlers)

  -- A registration of another type does not disturb those under way.
  pub waiting-insert :
      (kind : String) (handler : H) (handlers : Table H) (ws : List (String × H))
      → waiting_for kind ws ≡ 0
      → All (WaitsFor handlers) ws
      → All (WaitsFor (insert kind handler handlers)) ws
  unfolding waiting_for
  waiting-insert kind handler handlers [] none_waits h = tt
  waiting-insert kind handler handlers ((k, w) ∷ ws) none_waits (h, hs) = (
    ground (arith, lookup-insert kind k handler handlers, eq_iff k kind, eq_iff kind k),
    waiting-insert kind handler handlers ws (ground arith) hs,
  )

  pub delivering-insert :
      (kind : String) (handler : H) (handlers : Table H) (ds : List (Delivery H))
      → delivering_for kind ds ≡ 0
      → All (Delivers handlers) ds
      → All (Delivers (insert kind handler handlers)) ds
  unfolding delivering_for
  delivering-insert kind handler handlers [] none_left h = tt
  delivering-insert kind handler handlers (d ∷ ds) none_left (h, hs) = (
    ground
        (arith, lookup-insert kind d.kind handler handlers, eq_iff d.kind kind, eq_iff kind d.kind),
    delivering-insert kind handler handlers ds (ground arith) hs,
  )

  pub owed_by-le :
      (kind shard : String) (ds : List (Delivery H))
      → owed_by kind shard ds ≤ delivering_for kind ds
  unfolding owed_by delivering_for
  owed_by-le kind shard [] = omega arith
  owed_by-le kind shard (d ∷ ds) = ground (arith, owed_by-le kind shard ds)
