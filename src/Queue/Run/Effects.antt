-- ===== src/Queue/Run/Effects.antt =====
-- What the rounds of a dispatcher of src/queue.rs do to the sets and the heaps.
use snerd_rust.Base.{
  ℕ, zero, suc, ◌+◌, ◌≡◌, refl, ◌⊎◌, inl, inr, String, false, Option, List, ◌∷◌, arith,
  if◌then◌else◌, str_eq, contains, without, lookup, Bool-cases, Option-cases,
}
use snerd_rust.Task.{Externals, Task}
use snerd_rust.FileStore.{Serde, SaveFaults}
use snerd_rust.RateLimiter.{Codec, Faults}
use snerd_rust.Queue.{SnerdQueue}
use snerd_rust.Queue.Schedule.{ends, pops, pop, next_task, drop_permit, leave_dispatcher}
use snerd_rust.Queue.Execute.{
  Turn, put_off, skipped, spawned, dispatch, rate_check, move_to_executing, put_off_task,
  save_quietly,
}
use snerd_rust.Queue.Count.{count_heaps, count_heaps-pop, IsQueuedOnce}
use snerd_rust.Queue.Frame.{
  SameSets, drop_permit-SameSets, leave_dispatcher-SameSets, rate_check-SameSets,
}
use snerd_rust.Queue.Run.{started}

module _ {x : Externals} {Limits : Type 0} where
  pub same-IsQueuedOnce :
      (held : String → ℕ) (q q' : SnerdQueue x Limits)
      → SameSets q q'
      → IsQueuedOnce held q
      → IsQueuedOnce held q'
  same-IsQueuedOnce held q q' same h id = ground (arith, h id, same.heaps, same.queued)

  -- What a pop does: the task leaves the heaps, and the sets stay.
  pub next_task_pops :
      (pool : String) (t : Task x) (q q' : SnerdQueue x Limits)
      → next_task pool q ≡ (pops t, q')
      → (q'.queued_tasks ≡ q.queued_tasks)
        × (q'.executing_tasks ≡ q.executing_tasks)
        × ((id : String)
            → count_heaps id q'.shared_pqs + (if str_eq t.task_id id then 1 else 0)
              ≡ count_heaps id q.shared_pqs)
  unfolding next_task
  next_task_pops pool t q q' e = elim (Option-cases (lookup pool q.worker_pools)) [
    | inl no_pool ↦ absurd (ground arith)
    | inr (zero, full) ↦ absurd (ground arith)
    | inr (suc free, permit) ↦ elim (Option-cases (lookup pool q.shared_pqs)) [
      | inl no_heap ↦ absurd (ground arith)
      | inr (pq, found) ↦ elim (Option-cases (pop x pq)) [
        | inl empty ↦ absurd (ground arith)
        | inr ((u, others), popped) ↦ (
          ground arith,
          ground arith,
          λ id. ground (arith, count_heaps-pop x id pool pq others u q.shared_pqs found popped),
        )
      ]
    ]
  ]

  pub next_task_ends :
      (pool : String) (q q' : SnerdQueue x Limits) → next_task pool q ≡ (ends, q') → SameSets q q'
  unfolding next_task
  next_task_ends pool q q' e =
      let left = leave_dispatcher-SameSets pool q in
      let same : q' ≡ leave_dispatcher pool q = ground arith in rw same left

module _ {x : Externals} (serde : Serde x) (codec : Codec) where
  -- The effect of a turn on the sets: the task is no longer queued, and it is executing if it was spawned.
  pub record DispatchEffect (t : Task x) (q q' : SnerdQueue x codec.Raw) (turn : Turn)
      : Type 0 where
    pub queued : q'.queued_tasks ≡ without t.task_id q.queued_tasks
    pub heaps : q'.shared_pqs ≡ q.shared_pqs
    pub executing :
        (turn ≡ spawned)
          × (contains q.executing_tasks t.task_id ≡ false)
          × (q'.executing_tasks ≡ t.task_id ∷ q.executing_tasks)
        ⊎ ((running : List (String × Task x)) (pool : String)
            → started turn (pool, t) running ≡ running)
          × (q'.executing_tasks ≡ q.executing_tasks)

  pub dispatch_effect :
      (limiter : Faults codec.Raw) (faults : SaveFaults) (metadata : Option ℕ) (clock : ℕ → ℕ)
      (pool : String) (t : Task x) (q : SnerdQueue x codec.Raw)
      → DispatchEffect t q
          (dispatch serde codec limiter faults metadata clock pool t q).1
          (dispatch serde codec limiter faults metadata clock pool t q).0
  unfolding dispatch put_off_task save_quietly move_to_executing
  dispatch_effect limiter faults metadata clock pool t q =
      let checked = rate_check serde codec limiter (clock 0) t q in
      let same = rate_check-SameSets serde codec limiter (clock 0) t q in
      elim (Bool-cases checked.0) [
        | inr refused ↦
            let q₁ = put_off_task serde codec faults metadata (clock 1) t checked.1 in
            let dropped = drop_permit-SameSets pool q₁ in
            let out : dispatch serde codec limiter faults metadata clock pool t q
                ≡ (put_off, drop_permit pool q₁) =
              ground arith in
            rw out (record {
              queued = ground (arith, dropped.queued, same.queued);
              heaps = ground (arith, dropped.heaps, same.heaps);
              executing = inr (
                λ running p. unfold started in refl,
                ground (arith, dropped.executing, same.executing),
              );
            })
        | inl allowed ↦
            let q₁ = record checked.1 { queued_tasks = without t.task_id checked.1.queued_tasks } in
            elim (Bool-cases (contains checked.1.executing_tasks t.task_id)) [
              | inl busy ↦
                  let dropped = drop_permit-SameSets pool q₁ in
                  let out : dispatch serde codec limiter faults metadata clock pool t q
                      ≡ (skipped, drop_permit pool q₁) =
                    ground arith in
                  rw out (record {
                    queued = ground (arith, dropped.queued, same.queued);
                    heaps = ground (arith, dropped.heaps, same.heaps);
                    executing = inr (
                      λ running p. unfold started in refl,
                      ground (arith, dropped.executing, same.executing),
                    );
                  })
              | inr idle ↦
                  let out : dispatch serde codec limiter faults metadata clock pool t q ≡ (
                    spawned,
                    record q₁ { executing_tasks = t.task_id ∷ checked.1.executing_tasks },
                  ) =
                    ground arith in
                  rw out (record {
                    queued = ground (arith, same.queued);
                    heaps = same.heaps;
                    executing =
                        inl (refl, ground (arith, same.executing), ground (arith, same.executing));
                  })
            ]
      ]
