-- ===== src/Queue/Race.antt =====
-- Two calls of `enqueue` of src/queue.rs at a time, whose checks for cycles both come before their saves.
use snerd_rust.Base.{
  ◌≡◌, refl, ◌≢◌, sym, ℕ, String, true, Option, none, some, [], ◌∷◌, arith, str_eq, eq_iff,
  contains, lookup, inl, inr, if◌then◌else◌,
}
use snerd_rust.Task.{Externals, Task}
use snerd_rust.FileStore.{Serde, FileStore, SaveFaults}
use snerd_rust.FileStore.Cycle.{finished, deps, deps_of}
use snerd_rust.FileStore.Cycle.Decides.{Reaches, listed, through, detect_cycle_decides}
use snerd_rust.Base.{ok}
use snerd_rust.Queue.{SnerdQueue, cycle_check, store_task}
use snerd_rust.Queue.Acyclic.{IsAcyclic}
use snerd_rust.Queue.Saves.{IsCalm, Prints}
use snerd_rust.Queue.Enqueue.{save_stores}

module _ {x : Externals} where
  -- From a task that is not in the store nothing else is reached.
  Reaches-absent :
      (s : FileStore x) (u v : String)
      → lookup u s.tasks_cache ≡ none
      → Reaches s.tasks_cache (u ∷ []) v
      → u ≡ v
  unfolding deps contains
  Reaches-absent s u v absent (listed _ m) = ground (arith, eq_iff u v)
  Reaches-absent s u v absent (through w _ r m) =
      let same = Reaches-absent s u w absent r in absurd (ground (arith, same, absent))

  -- A task that waits for one that is not in the store passes the check.
  check_passes :
      (t : Task x) (u : String) (s : FileStore x)
      → t.trigger_after_ids ≡ some (u ∷ [])
      → u ≢ t.task_id
      → lookup u s.tasks_cache ≡ none
      → cycle_check t s ≡ finished (ok tt)
  unfolding cycle_check
  check_passes t u s waits ne absent =
      rw waits (elim (detect_cycle_decides s.tasks_cache t.task_id (u ∷ [])) [
        | inl (_, path) ↦ absurd (ne (Reaches-absent s u t.task_id absent path))
        | inr (clear, _) ↦ clear
      ])

module _ {x : Externals} (serde : Serde x) {Limits : Type 0} (faults : SaveFaults)
    (calm : IsCalm faults) (prints : Prints serde) where
  stored_lem :
      (metadata : Option ℕ) (t : Task x) (q : SnerdQueue x Limits) (id : String)
      → lookup id (store_task serde faults metadata t q).1.file_store.tasks_cache ≡ (
          if str_eq t.task_id id
          then some (record t { deleted_at = none })
          else lookup id q.file_store.tasks_cache)
  unfolding store_task
  stored_lem metadata t q id =
      save_stores serde faults calm prints metadata (record t { deleted_at = none }) q.file_store id
        refl

  -- Two tasks, each of which waits for the other, and neither of which is in the store: if both are checked
  -- before either is saved, then both pass, and after both saves, in which nothing fails and every task
  -- can be printed, the dependencies in the store have a cycle.
  pub store_task_race :
      (metadata : Option ℕ) (t u : Task x) (q : SnerdQueue x Limits)
      → t.trigger_after_ids ≡ some (u.task_id ∷ [])
      → u.trigger_after_ids ≡ some (t.task_id ∷ [])
      → t.task_id ≢ u.task_id
      → lookup t.task_id q.file_store.tasks_cache ≡ none
      → lookup u.task_id q.file_store.tasks_cache ≡ none
      → (cycle_check t q.file_store ≡ finished (ok tt))
        × (cycle_check u q.file_store ≡ finished (ok tt))
        × (¬ IsAcyclic
            (store_task serde faults metadata u
              (store_task serde faults metadata t q).1).1.file_store.tasks_cache)
  unfolding deps deps_of contains
  store_task_race metadata t u q t_waits u_waits ne t_absent u_absent =
      let q₁ = (store_task serde faults metadata t q).1 in
      let cache = (store_task serde faults metadata u q₁).1.file_store.tasks_cache in
      let apart = λ (e : u.task_id ≡ t.task_id). ne (sym e) in
      let t_there : lookup t.task_id cache ≡ some (record t { deleted_at = none }) = ground (
        arith,
        stored_lem metadata u q₁ t.task_id,
        stored_lem metadata t q t.task_id,
        eq_iff u.task_id t.task_id,
        eq_iff t.task_id t.task_id,
        apart,
      ) in
      let u_there : lookup u.task_id cache ≡ some (record u { deleted_at = none }) =
        ground (arith, stored_lem metadata u q₁ u.task_id, eq_iff u.task_id u.task_id) in
      let first : contains (deps cache t.task_id) u.task_id ≡ true =
        ground (arith, t_there, t_waits, eq_iff u.task_id u.task_id) in
      let second : contains (deps cache u.task_id) t.task_id ≡ true =
        ground (arith, u_there, u_waits, eq_iff t.task_id t.task_id) in
      (
        check_passes t u.task_id q.file_store t_waits apart u_absent,
        check_passes u t.task_id q.file_store u_waits ne t_absent,
        λ acyclic. acyclic t.task_id (through u.task_id t.task_id (listed u.task_id first) second),
      )
