-- ===== src/Queue/Due.antt =====
-- Which tasks `process_due_tasks` of src/queue.rs puts into the heaps.
use mathlib.Core.List.{Mem, mem-cons_of_mem, mem-cons_self}
use snerd_rust.Base.{
  ℕ, ◌≤◌, ◌≡◌, refl, sym, ap, ◌∙◌, ◌⊎◌, inl, inr, String, true, false, none, some, List, [], ◌∷◌,
  ◌++◌, arith, eq_iff, str_eq, contains, contains-cons, has_key, lookup-insert, Bool-cases,
  Option-cases,
}
use snerd_rust.Task.{Externals, Task}
use snerd_rust.FileStore.{are_tasks_completed}
use snerd_rust.Queue.{SnerdQueue}
use snerd_rust.Queue.Schedule.{
  deps_completed, is_due, pool_of, target_pool, heap, push_to, push_if_due, push_due,
  process_due_tasks, dedup,
}
use snerd_rust.Queue.Keeps.{push_due_keeps, start_dispatchers_keeps, push_if_due_cases}

-- The task's times are reached, it is not deleted, the tasks that it waits for are not in the store, and
-- it is not executing.
pub record IsDue {x : Externals} {Limits : Type 0} (now : ℕ) (q : SnerdQueue x Limits) (t : Task x)
    : Type 0 where
  pub execute_at : t.execute_at ≤ now
  pub retry_after_time : t.retry_after_time ≤ now
  pub live : t.deleted_at ≡ none
  pub free :
      (deps : List String)
      → t.trigger_after_ids ≡ some deps
      → are_tasks_completed deps q.file_store ≡ true
  pub idle : contains q.executing_tasks t.task_id ≡ false

module _ {x : Externals} {Limits : Type 0} (now : ℕ) (q₀ : SnerdQueue x Limits) where
  is_due_lem : (t : Task x) (q : SnerdQueue x Limits) → is_due now t q ≡ true → IsDue now q t
  unfolding is_due deps_completed
  is_due_lem t q h = record {
    execute_at = ground arith;
    retry_after_time = ground arith;
    live = ground arith;
    free = λ deps e. ground arith;
    idle = ground arith;
  }

  -- What has been added to the queued set since the start is due, and the rest is as it was.
  record IsAdded (tasks : List (Task x)) (q : SnerdQueue x Limits) : Type 0 where
    store : q.file_store ≡ q₀.file_store
    executing : q.executing_tasks ≡ q₀.executing_tasks
    added :
        (id : String)
        → contains q.queued_tasks id ≡ true
        → (contains q₀.queued_tasks id ≡ true)
          ⊎ ((t : Task x) × Mem t tasks × (t.task_id ≡ id) × IsDue now q₀ t)

  push-IsAdded :
      (tasks : List (Task x)) (pool : String) (t : Task x) (q : SnerdQueue x Limits)
      → Mem t tasks
      → is_due now t q ≡ true
      → IsAdded tasks q
      → IsAdded tasks (push_to pool t q)
  unfolding push_to
  push-IsAdded tasks pool t q listed due a = record {
    store = a.store;
    executing = a.executing;
    added = λ id m. elim (Bool-cases (str_eq t.task_id id)) [
      | inl own ↦
          let d = is_due_lem t q due in
          inr (
            t,
            listed,
            (eq_iff t.task_id id).0 own,
            record {
              execute_at = d.execute_at;
              retry_after_time = d.retry_after_time;
              live = d.live;
              free = λ deps e. ap (are_tasks_completed deps) (sym a.store) ∙ d.free deps e;
              idle = ap (λ ids. contains ids t.task_id) (sym a.executing) ∙ d.idle;
            },
          )
      | inr other ↦ a.added id (ground (arith, contains-cons t.task_id id q.queued_tasks))
    ];
  }

  push_due-IsAdded :
      (tasks ts : List (Task x)) (s : SnerdQueue x Limits × List String)
      → ((t : Task x) → Mem t ts → Mem t tasks)
      → IsAdded tasks s.0
      → IsAdded tasks (push_due now ts s).0
  unfolding push_due
  push_due-IsAdded tasks [] s listed a = a
  push_due-IsAdded tasks (t ∷ ts) s listed a =
      push_due-IsAdded tasks ts (push_if_due now t s) (λ u m. listed u (mem-cons_of_mem t m))
        (elim (push_if_due_cases (λ _. Unit {0}) now t s) [
          | inl same ↦ rw same a
          | inr (pool, due, e) ↦ rw e (push-IsAdded tasks pool t s.0 (listed t mem-cons_self) due a)
        ])

  -- Each id that `process_due_tasks` adds to the queued set is the id of a task of the list that it is
  -- given, whose times are reached, that is not deleted, that waits for no task in the store, and that is
  -- not executing.
  pub process_due_tasks-IsDue :
      (tasks : List (Task x)) (id : String)
      → contains (process_due_tasks now tasks q₀).1.queued_tasks id ≡ true
      → contains q₀.queued_tasks id ≡ false
      → (t : Task x) × Mem t tasks × (t.task_id ≡ id) × IsDue now q₀ t
  unfolding process_due_tasks
  process_due_tasks-IsDue tasks id m new =
      let start : IsAdded tasks q₀ = record {
        store = refl;
        executing = refl;
        added = λ j h. inl h;
      } in
      let all_added =
        start_dispatchers_keeps (IsAdded tasks) now (dedup (push_due now tasks (q₀, [])).1)
          (push_due now tasks (q₀, [])).0
          (λ q counts a. record { store = a.store; executing = a.executing; added = a.added })
          (push_due-IsAdded tasks tasks (q₀, []) (λ t m. m) start) in
      elim (all_added.added id m) [ inl old ↦ absurd (cc (sym old ∙ new)) | inr found ↦ found ]

  -- The store and the executing set are those of the start, and there is a heap `default`.
  record IsOpen (q : SnerdQueue x Limits) : Type 0 where
    store : q.file_store ≡ q₀.file_store
    executing : q.executing_tasks ≡ q₀.executing_tasks
    default : has_key "default" q.shared_pqs ≡ true

  push-IsOpen :
      (pool : String) (t : Task x) (q : SnerdQueue x Limits)
      → is_due now t q ≡ true
      → IsOpen q
      → IsOpen (push_to pool t q)
  unfolding push_to
  push-IsOpen pool t q due o = record {
    store = o.store;
    executing = o.executing;
    default =
        ground (arith, o.default, lookup-insert pool "default" (t ∷ heap pool q) q.shared_pqs);
  }

  target_pool-some :
      (t : Task x) (q : SnerdQueue x Limits)
      → has_key "default" q.shared_pqs ≡ true
      → (pool : String) × (target_pool t q ≡ some pool)
  unfolding target_pool
  target_pool-some t q d = elim (Bool-cases (has_key (pool_of t) q.shared_pqs)) [
    | inl own ↦ (pool_of t, ground arith)
    | inr other ↦ ("default", ground arith)
  ]

  is_due_open :
      (t : Task x) (q : SnerdQueue x Limits)
      → IsOpen q
      → IsDue now q₀ t
      → contains q.queued_tasks t.task_id ≡ false
      → is_due now t q ≡ true
  unfolding is_due deps_completed
  is_due_open t q o d new = elim (Option-cases t.trigger_after_ids) [
    | inl e ↦ ground (arith, o.executing, d.execute_at, d.retry_after_time, d.live, d.idle)
    | inr (deps, e) ↦ ground (
      arith,
      d.free deps e,
      o.store,
      o.executing,
      d.execute_at,
      d.retry_after_time,
      d.live,
      d.idle,
    )
  ]

  push_if_due_queues :
      (t : Task x) (s : SnerdQueue x Limits × List String)
      → IsOpen s.0
      → IsDue now q₀ t
      → contains (push_if_due now t s).0.queued_tasks t.task_id ≡ true
  unfolding push_if_due push_to
  push_if_due_queues t (q, pools) o d = elim (Bool-cases (contains q.queued_tasks t.task_id)) [
    | inl queued ↦ elim (push_if_due_cases (λ _. Unit {0}) now t (q, pools)) [
      | inl same ↦ rw same queued
      | inr (pool, due, e) ↦ rw e (
          ground
            (arith, contains-cons t.task_id t.task_id q.queued_tasks, eq_iff t.task_id t.task_id))
    ]
    | inr new ↦
        let (pool, target) = target_pool-some t q o.default in
        ground (
          arith,
          is_due_open t q o d new,
          target,
          contains-cons t.task_id t.task_id q.queued_tasks,
          eq_iff t.task_id t.task_id,
        )
  ]

  push_due-append :
      (hs ks : List (Task x)) (s : SnerdQueue x Limits × List String)
      → push_due now (hs ++ ks) s ≡ push_due now ks (push_due now hs s)
  unfolding push_due
  push_due-append [] ks s = refl
  push_due-append (h ∷ hs) ks s = push_due-append hs ks (push_if_due now h s)

  -- Each task that is due is in the queued set after `process_due_tasks`, where there is a heap `default`.
  pub process_due_tasks_queues :
      (hs ks : List (Task x)) (t : Task x)
      → has_key "default" q₀.shared_pqs ≡ true
      → IsDue now q₀ t
      → contains (process_due_tasks now (hs ++ t ∷ ks) q₀).1.queued_tasks t.task_id ≡ true
  unfolding process_due_tasks push_due
  process_due_tasks_queues hs ks t default d =
      let s = push_due now hs (q₀, []) in
      let o =
        push_due_keeps IsOpen now hs (q₀, []) push-IsOpen
          (record { store = refl; executing = refl; default = default }) in
      let IsIn : SnerdQueue x Limits → Type 0 = λ q. contains q.queued_tasks t.task_id ≡ true in
      let pushed =
        push_due_keeps IsIn now ks (push_if_due now t s)
          (λ pool u q due m.
            unfold push_to in ground (arith, contains-cons u.task_id t.task_id q.queued_tasks))
          (push_if_due_queues t s o d) in
      rw (push_due-append hs (t ∷ ks) (q₀, [])) (
        start_dispatchers_keeps IsIn now (dedup (push_due now ks (push_if_due now t s)).1)
          (push_due now ks (push_if_due now t s)).0 (λ q counts m. m) pushed)
