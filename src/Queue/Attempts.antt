-- ===== src/Queue/Attempts.antt =====
-- How often `execute_task` of src/queue.rs tries a task that always fails.
use Prim.Native.Nat.{max}
use snerd_rust.Base.{
  ℕ, zero, suc, ◌+◌, ◌-◌, ◌<◌, ◌≤◌, ◌^◌, ◌≡◌, refl, sym, ap, ◌∙◌, ◌⊎◌, inl, inr, String, true,
  false, Option, none, some, List, [], ◌∷◌, arith, if◌then◌else◌, str_eq, ltb, has_key, lookup,
  remove, lookup-remove, lookup-insert_self, Bool-cases, err, ℤ, pos, inc_i32, dec_i32, ltb_ℤ,
}
use snerd_rust.Task.{Externals, Task, update_retry_config, mark_deleted}
use snerd_rust.FileStore.{Serde, SaveFaults, save_task, update_cache, read_tasks}
use snerd_rust.RateLimiter.{Codec}
use snerd_rust.Queue.Schedule.{drop_permit}
use snerd_rust.Queue.Execute.{
  Queue, World, attempt, is_completed, execute_task, finish_task, on_failure, save_quietly, blocked,
  children, forget_hash, complete, fail_children, drop_guard,
}
use snerd_rust.Queue.Saves.{IsCalm, Prints, save_ok, delete_ok}

module _ {x : Externals} (serde : Serde x) (codec : Codec) (faults : SaveFaults)
    (calm : IsCalm faults) (prints : Prints serde) where
  -- The task that the store holds under an id.
  unfoldable pub held : String → Queue serde codec → Option (Task x)
  held id q = lookup id q.file_store.tasks_cache

  pub fail_child :
      (clock : ℕ → ℕ) (id : String) (child : Task x) (q : Queue serde codec) (j : String)
      → (held j (save_quietly serde codec faults none (blocked x clock id child) q) ≡ none)
        ⊎ (held j (save_quietly serde codec faults none (blocked x clock id child) q) ≡ held j q)
  unfolding held save_quietly save_task
  fail_child clock id child q j =
      let t = blocked x clock id child in
      let gone : update_cache x t q.file_store.tasks_cache
          ≡ remove child.task_id q.file_store.tasks_cache =
        unfold update_cache blocked mark_deleted update_retry_config in refl in
      elim (Bool-cases (str_eq child.task_id j)) [
        | inl own ↦ inl (
            ground (
              arith,
              save_ok serde faults calm prints none t true q.file_store,
              gone,
              lookup-remove child.task_id j q.file_store.tasks_cache,
            ))
        | inr other ↦ inr (
            ground (
              arith,
              save_ok serde faults calm prints none t true q.file_store,
              gone,
              lookup-remove child.task_id j q.file_store.tasks_cache,
            ))
      ]

  -- Failing children removes tasks, and changes none.
  pub fail_children_held :
      (clock : ℕ → ℕ) (id : String) (kids : List (Task x)) (q : Queue serde codec) (j : String)
      → (held j (fail_children serde codec (λ _. faults) clock id kids q) ≡ none)
        ⊎ (held j (fail_children serde codec (λ _. faults) clock id kids q) ≡ held j q)
  unfolding fail_children
  fail_children_held clock id [] q j = inr refl
  fail_children_held clock id (child ∷ kids) q j =
      elim (fail_children_held (λ i. clock (4 + i)) id kids
        (save_quietly serde codec faults none (blocked x clock id child) q) j) [
          | inl gone ↦ inl gone
          | inr same ↦ elim (fail_child clock id child q j) [
            | inl gone ↦ inl (same ∙ gone)
            | inr kept ↦ inr (same ∙ kept)
          ]
        ]

  complete_held :
      (clock : ℕ → ℕ) (instant : ℕ) (t : Task x) (q : Queue serde codec)
      → (held t.task_id q ≡ none)
        ⊎ ((u : Task x) × (held t.task_id q ≡ some u)
            × (u.deleted_at ≡ none)
            × (u.task_id ≡ t.task_id))
      → held t.task_id (complete serde codec faults clock instant t q) ≡ none
  unfolding complete forget_hash held
  complete_held clock instant t q h =
      ground
        (arith, delete_ok serde faults calm prints (clock 0) (clock 1) t.task_id q.file_store h)

  attempts_left : (c m : ℕ) → ltb_ℤ (pos c) (dec_i32 (pos m)) ≡ ltb (suc c) m
  unfolding dec_i32
  attempts_left c zero = ground arith
  attempts_left c (suc m) = ground arith

  save_held :
      (t : Task x) (q : Queue serde codec)
      → t.deleted_at ≡ none
      → held t.task_id (save_quietly serde codec faults none t q) ≡ some t
  unfolding held save_quietly save_task update_cache
  save_held t q live = ground (
    arith,
    save_ok serde faults calm prints none t true q.file_store,
    lookup-insert_self t.task_id t q.file_store.tasks_cache,
  )

  -- A failing attempt that is not the last is counted, and the task stays; the last one removes it.
  on_failure_held :
      (clock : ℕ → ℕ) (instant : ℕ) (e : String) (t : Task x) (q : Queue serde codec) (c m : ℕ)
      → held t.task_id q ≡ some t
      → t.deleted_at ≡ none
      → t.retry_count ≡ pos c
      → t.max_retries ≡ pos m
      → (suc c < m)
          × (held t.task_id (on_failure serde codec (λ _. faults) none clock instant e t q)
              ≡ some (update_retry_config x (clock 0) (clock 1) (some e) t))
        ⊎ (m ≤ suc c)
          × (held t.task_id (on_failure serde codec (λ _. faults) none clock instant e t q) ≡ none)
  unfolding on_failure
  on_failure_held clock instant e t q c m found live counted limited =
      let guard : ltb_ℤ t.retry_count (dec_i32 t.max_retries) ≡ ltb (suc c) m =
        rw (counted, limited) (attempts_left c m) in
      elim (Bool-cases (ltb (suc c) m)) [
        | inl again ↦
            let u = update_retry_config x (clock 0) (clock 1) (some e) t in
            let same : on_failure serde codec (λ _. faults) none clock instant e t q
                ≡ save_quietly serde codec faults none u q =
              ground (arith, guard) in
            inl (ground arith, rw same (unfold update_retry_config in save_held u q live))
        | inr last ↦
            let q₁ =
              fail_children serde codec (λ _. faults) (λ i. clock (2 + i)) t.task_id
                (children t.task_id (read_tasks q.file_store)) q in
            let same : on_failure serde codec (λ _. faults) none clock instant e t q
                ≡ complete serde codec faults clock instant t q₁ =
              ground (arith, guard) in
            inr (
              ground arith,
              rw same (
                  complete_held clock instant t q₁
                    (elim (fail_children_held (λ i. clock (2 + i)) t.task_id
                      (children t.task_id (read_tasks q.file_store)) q t.task_id) [
                        | inl gone ↦ inl gone
                        | inr kept ↦ inr (t, kept ∙ found, live, refl)
                      ])),
            )
      ]

  module _ (world : World x) (clock : ℕ → ℕ) (instant : ℕ) (pool id : String) where
    -- The task that the store holds under the id is executed; where there is none, nothing is.
    unfoldable pub execute_latest : Queue serde codec → Queue serde codec
    execute_latest q = elim (held id q) [
      | none ↦ q
      | some t ↦ execute_task serde codec world (λ _. faults) none clock instant pool t q
    ]

    unfoldable pub executions : ℕ → Queue serde codec → Queue serde codec
    executions zero q = q
    executions (suc n) q = executions n (execute_latest q)

    unfoldable pub retries_of : Queue serde codec → Option ℤ
    retries_of q = elim (held id q) [ none ↦ none | some t ↦ some t.retry_count ]

    executions-none :
        (n : ℕ) (q : Queue serde codec) → held id q ≡ none → retries_of (executions n q) ≡ none
    unfolding executions execute_latest retries_of
    executions-none zero q e = ground arith
    executions-none (suc n) q e =
        let same : execute_latest q ≡ q = ground arith in rw same (executions-none n q e)

    -- Every attempt at a task with this id, webhook and type fails.
    abbrev pub AlwaysFails : Option String → String → Type 0
    AlwaysFails url kind =
        (t : Task x)
        → t.task_id ≡ id
        → t.webhook_url ≡ url
        → t.task_type ≡ kind
        → (e : String) × (attempt world t ≡ some (err e))

    execute_fails :
        (t : Task x) (q : Queue serde codec) (e : String)
        → attempt world t ≡ some (err e)
        → is_completed t q ≡ false
        → (held t.task_id (execute_task serde codec world (λ _. faults) none clock instant pool t q)
            ≡ held t.task_id (on_failure serde codec (λ _. faults) none clock instant e t q))
          × ((execute_task serde codec world
                (λ _. faults)
                none
                clock
                instant
                pool
                t
                q).completed_tasks
              ≡ (on_failure serde codec (λ _. faults) none clock instant e t q).completed_tasks)
    unfolding execute_task finish_task drop_guard held drop_permit
    execute_fails t q e failed fresh = (ground arith, ground arith)

    retry_completed :
        (e : String) (t : Task x) (q : Queue serde codec) (c m : ℕ)
        → t.retry_count ≡ pos c
        → t.max_retries ≡ pos m
        → suc c < m
        → (on_failure serde codec (λ _. faults) none clock instant e t q).completed_tasks
          ≡ q.completed_tasks
    unfolding on_failure save_quietly
    retry_completed e t q c m counted limited below =
        let guard : ltb_ℤ t.retry_count (dec_i32 t.max_retries) ≡ ltb (suc c) m =
          rw (counted, limited) (attempts_left c m) in
        ground (arith, guard)

    inc_pos : (c : ℕ) → suc c < 2 ^ 31 → inc_i32 (pos c) ≡ pos (suc c)
    unfolding inc_i32
    inc_pos c h = ground arith

    -- A task that counts `c` retries, of `m` that it may have, and whose attempts all fail, stays in the
    -- store with one retry more after each execution but the last, and is gone after the last: there are
    -- `m - c` executions in all, and one where `m - c` is 0. No save fails here, and the id is not
    -- completed at the start.
    pub executions-retries_of :
        (n : ℕ) (t : Task x) (q : Queue serde codec) (c m : ℕ)
        → AlwaysFails t.webhook_url t.task_type
        → held id q ≡ some t
        → t.task_id ≡ id
        → t.deleted_at ≡ none
        → has_key id q.completed_tasks ≡ false
        → t.retry_count ≡ pos c
        → t.max_retries ≡ pos m
        → m < 2 ^ 31
        → retries_of (executions n q) ≡ (if ltb n (max 1 (m - c)) then some (pos (c + n)) else none)
    unfolding executions
    executions-retries_of zero t q c m fails found own live fresh counted limited fits =
        unfold retries_of in ground arith
    executions-retries_of (suc n) t q c m fails found own live fresh counted limited fits =
        let (e, failed) = fails t own refl refl in
        let q' = execute_latest q in
        let next : execute_latest q
            ≡ execute_task serde codec world (λ _. faults) none clock instant pool t q =
          unfold execute_latest in ground arith in
        let unmarked : is_completed t q ≡ false =
          unfold is_completed in ground (arith, ap (λ i. has_key i q.completed_tasks) own) in
        let (store, marks) = execute_fails t q e failed unmarked in
        let executed = execute_task serde codec world (λ _. faults) none clock instant pool t q in
        let there : held id q' ≡ held t.task_id executed =
          ap (held id) next ∙ ap (λ i. held i executed) (sym own) in
        elim (on_failure_held clock instant e t q c m (ap (λ i. held i q) own ∙ found) live counted
          limited) [
            | inl (more, kept) ↦
                let u = update_retry_config x (clock 0) (clock 1) (some e) t in
                let again = retry_completed e t q c m counted limited more in
                let counted' : u.retry_count ≡ pos (suc c) =
                  unfold update_retry_config in rw counted (inc_pos c (omega arith)) in
                ground (
                  arith,
                  executions-retries_of n u q' (suc c) m (unfold update_retry_config in fails)
                      (there ∙ store ∙ kept) (unfold update_retry_config in own)
                      (unfold update_retry_config in live)
                      (ap (λ (p : Queue serde codec). has_key id p.completed_tasks) next
                        ∙ ap (has_key id) (marks ∙ again)
                        ∙ fresh)
                      counted' (unfold update_retry_config in limited) fits,
                )
            | inr (last, gone) ↦ ground (arith, executions-none n q' (there ∙ store ∙ gone))
          ]
