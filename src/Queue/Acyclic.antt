-- ===== src/Queue/Acyclic.antt =====
-- `enqueue` of src/queue.rs keeps the dependencies between the tasks of the store free of cycles.
use snerd_rust.Base.{
  ℕ, ◌≡◌, refl, ◌⊎◌, inl, inr, String, true, false, Option, none, List, [], ◌∷◌, arith,
  if◌then◌else◌, str_eq, eq_iff, contains, Table, insert, lookup-insert, Bool-cases, Option-cases,
  ok, err,
}
use snerd_rust.Task.{Externals, Task, RetryableTask}
use snerd_rust.FileStore.{Serde, FileStore, SaveFaults, save_task, update_cache}
use snerd_rust.FileStore.Durable.{cache-save}
use snerd_rust.FileStore.Cycle.{Outcome, finished, out_of_fuel, deps, deps_of}
use snerd_rust.FileStore.Cycle.Decides.{Reaches, listed, through, detect_cycle_decides}
use snerd_rust.Queue.{SnerdQueue, cycle_check, admit, store_task, enqueue, take_hash}

-- No task is among those that it waits for, directly or through others.
abbrev pub IsAcyclic : {F64 : Type 0} → Table (RetryableTask F64) → Type 0
IsAcyclic cache = (id : String) → ¬ Reaches cache (deps cache id) id

module _ {F64 : Type 0} (cache : Table (RetryableTask F64)) where
  Reaches-join :
      (start : List String) (u v : String)
      → Reaches cache start u
      → Reaches cache (deps cache u) v
      → Reaches cache start v
  Reaches-join start u v r (listed _ m) = through u v r m
  Reaches-join start u v r (through w _ s m) = through w v (Reaches-join start u w r s) m

  pub deps_none_start : (v : String) → ¬ Reaches cache [] v
  unfolding contains
  deps_none_start v (listed _ m) = absurd (cc)
  deps_none_start v (through u _ r m) = deps_none_start u r

  module _ (t : RetryableTask F64) where
    abbrev added : Table (RetryableTask F64)
    added = insert t.task_id t cache

    deps_added :
        (u : String) → deps added u ≡ (if str_eq t.task_id u then deps_of t else deps cache u)
    unfolding deps
    deps_added u = ground (arith, lookup-insert t.task_id u t cache)

    -- A path with the new task is a path without it, or it leads to the new task, and on from it.
    split_path :
        (start : List String) (v : String)
        → Reaches added start v
        → Reaches cache start v
          ⊎ Reaches cache start t.task_id × ((v ≡ t.task_id) ⊎ Reaches added (deps_of t) v)
    split_path start v (listed _ m) = inl (listed v m)
    split_path start v (through u _ r m) = elim (Bool-cases (str_eq t.task_id u)) [
      | inl here ↦
          let own : deps added u ≡ deps_of t = rw (deps_added u, here) refl in
          let new = listed v (rw own at m) in
          elim (split_path start u r) [
            | inl old ↦ inr (rw ((eq_iff t.task_id u).0 here) old, inr new)
            | inr (to, _) ↦ inr (to, inr new)
          ]
      | inr there ↦
          let own : deps added u ≡ deps cache u = rw (deps_added u, there) refl in
          elim (split_path start u r) [
            | inl old ↦ inl (through u v old (rw own at m))
            | inr (to, inl e) ↦ absurd (ground (arith, eq_iff t.task_id u))
            | inr (to, inr on) ↦ inr (to, inr (through u v on m))
          ]
    ]

    added-IsAcyclic : IsAcyclic cache → (¬ Reaches cache (deps_of t) t.task_id) → IsAcyclic added
    unfolding deps_of
    added-IsAcyclic acyclic fresh id path = elim (Bool-cases (str_eq t.task_id id)) [
      | inl own ↦
          let start : deps added id ≡ deps_of t = rw (deps_added id, own) refl in
          elim (split_path (deps_of t) id (rw start at path)) [
            | inl old ↦ fresh (rw ((eq_iff t.task_id id).0 own) old)
            | inr (to, _) ↦ fresh to
          ]
      | inr other ↦
          let start : deps added id ≡ deps cache id = rw (deps_added id, other) refl in
          elim (split_path (deps cache id) id (rw start at path)) [
            | inl old ↦ acyclic id old
            | inr (to, inl e) ↦ absurd (ground (arith, eq_iff t.task_id id))
            | inr (to, inr on) ↦ elim (split_path (deps_of t) id on) [
              | inl old ↦ fresh (Reaches-join (deps_of t) id t.task_id old to)
              | inr (to', _) ↦ fresh to'
            ]
          ]
    ]

pub Outcome-cases :
    (o : Outcome)
    → (o ≡ finished (ok tt)) ⊎ ((e : String) × (o ≡ finished (err e))) ⊎ (o ≡ out_of_fuel)
Outcome-cases (finished (ok _)) = inl refl
Outcome-cases (finished (err e)) = inr (inl (e, refl))
Outcome-cases out_of_fuel = inr (inr refl)

module _ {x : Externals} (serde : Serde x) where
  -- Where `cycle_check` accepts, the task is not among those that it waits for.
  pub accepted_fresh :
      (t : Task x) (s : FileStore x)
      → cycle_check t s ≡ finished (ok tt)
      → ¬ Reaches s.tasks_cache (deps_of t) t.task_id
  unfolding cycle_check deps_of
  accepted_fresh t s e path = elim (Option-cases t.trigger_after_ids) [
    | inl none_given ↦ deps_none_start s.tasks_cache t.task_id (rw none_given at path)
    | inr (ids, given) ↦ elim (detect_cycle_decides s.tasks_cache t.task_id ids) [
      | inl (found, _) ↦ absurd (ground arith)
      | inr (_, fresh) ↦ fresh (rw given at path)
    ]
  ]

  save-IsAcyclic :
      (faults : SaveFaults) (metadata : Option ℕ) (t : Task x) (s : FileStore x)
      → t.deleted_at ≡ none
      → (¬ Reaches s.tasks_cache (deps_of t) t.task_id)
      → IsAcyclic s.tasks_cache
      → IsAcyclic (save_task serde faults metadata t s).1.tasks_cache
  unfolding save_task update_cache
  save-IsAcyclic faults metadata t s live fresh acyclic =
      elim (cache-save serde faults metadata t true s) [
        | inl same ↦ rw same acyclic
        | inr changed ↦
            let inserted : update_cache x t s.tasks_cache ≡ insert t.task_id t s.tasks_cache =
              ground arith in
            rw (changed, inserted) (added-IsAcyclic s.tasks_cache t acyclic fresh)
      ]

module _ {x : Externals} (serde : Serde x) {Limits : Type 0} where
  pub admit_cases :
      (faults : SaveFaults) (metadata : Option ℕ) (t : Task x) (q : SnerdQueue x Limits)
      → (cycle_check t q.file_store ≡ finished (ok tt))
          × ((admit serde faults metadata t q).1.file_store
              ≡ (save_task serde faults metadata (record t { deleted_at = none }) q.file_store).1)
        ⊎ ((admit serde faults metadata t q).1 ≡ q)
  unfolding admit store_task
  admit_cases faults metadata t q = elim (Outcome-cases (cycle_check t q.file_store)) [
    | inl e ↦ inl (e, ground arith)
    | inr (inl (m, e)) ↦ inr (ground arith)
    | inr (inr e) ↦ inr (ground arith)
  ]

  admit-IsAcyclic :
      (faults : SaveFaults) (metadata : Option ℕ) (t : Task x) (q : SnerdQueue x Limits)
      → IsAcyclic q.file_store.tasks_cache
      → IsAcyclic (admit serde faults metadata t q).1.file_store.tasks_cache
  unfolding deps_of
  admit-IsAcyclic faults metadata t q acyclic = elim (admit_cases faults metadata t q) [
    | inl (accepted, saved) ↦ rw saved (
        save-IsAcyclic serde faults metadata (record t { deleted_at = none }) q.file_store refl
          (accepted_fresh serde t q.file_store accepted) acyclic)
    | inr same ↦ rw same acyclic
  ]

  -- Whatever fails, `enqueue` keeps the dependencies between the tasks of the store free of cycles, where
  -- nothing else changes the store between its check for cycles and its save. The code holds no lock from
  -- one to the other.
  pub enqueue-IsAcyclic :
      (faults : SaveFaults) (metadata : Option ℕ) (t : Task x) (q : SnerdQueue x Limits)
      → IsAcyclic q.file_store.tasks_cache
      → IsAcyclic (enqueue serde faults metadata t q).1.file_store.tasks_cache
  unfolding enqueue take_hash
  enqueue-IsAcyclic faults metadata t q acyclic = elim (Option-cases t.payload_hash) [
    | inl e ↦
        let same : enqueue serde faults metadata t q ≡ admit serde faults metadata t q =
          ground arith in
        rw same (admit-IsAcyclic faults metadata t q acyclic)
    | inr (hash, e) ↦
        let q' = record q { active_hashes = hash ∷ q.active_hashes } in
        elim (Bool-cases (contains q.active_hashes hash)) [
          | inl known ↦
              let same : enqueue serde faults metadata t q ≡ (ok false, q) = ground arith in
              rw same acyclic
          | inr new ↦
              let same : enqueue serde faults metadata t q ≡ admit serde faults metadata t q' =
                ground arith in
              rw same (admit-IsAcyclic faults metadata t q' acyclic)
        ]
  ]
