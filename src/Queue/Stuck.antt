-- ===== src/Queue/Stuck.antt =====
-- `execute_task` of src/queue.rs returns for a completed id before it makes its `ExecutingGuard`, so the id
-- stays in the executing set.
use snerd_rust.Base.{
  ℕ, ◌≡◌, refl, ap, ◌∙◌, ◌⊎◌, inl, inr, String, true, Option, List, ◌∷◌, ◌++◌, arith, eq_iff,
  contains, contains-without, contains-cons,
}
use snerd_rust.Task.{Externals, Task}
use snerd_rust.FileStore.{Serde, SaveFaults}
use snerd_rust.RateLimiter.{Codec, Faults}
use snerd_rust.Queue.{SnerdQueue}
use snerd_rust.Queue.Schedule.{drop_permit, push_to}
use snerd_rust.Queue.Execute.{dispatch, is_completed, finish_task, drop_guard}
use snerd_rust.Queue.Count.{count_held, count_held-append}
use snerd_rust.Queue.Keeps.{process_due_tasks_keeps}
use snerd_rust.Queue.Frame.{
  SameSets, SameSets-trans, drop_permit-SameSets, take_hash-SameSets, store_task-SameSets,
  finish_task_sets,
}
use snerd_rust.Queue.Run.{
  Engine, started, Step, takes_hash, stores, schedules, pops_task, finds_none, dispatches, gives_up,
  finishes, sweeps, compacts, Steps, done, after, IsConsistent,
}
use snerd_rust.Queue.Run.Effects.{dispatch_effect, next_task_pops, next_task_ends}

module _ {x : Externals} (serde : Serde x) (codec : Codec) (id : String) where
  -- The id is in the executing set, and nothing with it is in execution.
  pub record IsStuck (e : Engine x codec) : Type 0 where
    pub executing : contains e.queue.executing_tasks id ≡ true
    pub idle : count_held id e.running ≡ 0

  same-IsStuck :
      (e : Engine x codec) (q : SnerdQueue x codec.Raw) (in_hand : List (String × Task x))
      → q.executing_tasks ≡ e.queue.executing_tasks
      → IsStuck e
      → IsStuck (record e { queue = q; in_hand = in_hand })
  same-IsStuck e q in_hand same s = record {
    executing = ap (λ ids. contains ids id) same ∙ s.executing;
    idle = s.idle;
  }

  dispatches-IsStuck :
      (limiter : Faults codec.Raw) (faults : SaveFaults) (metadata : Option ℕ) (clock : ℕ → ℕ)
      (pool : String) (t : Task x) (hs ks running : List (String × Task x))
      (q : SnerdQueue x codec.Raw)
      → IsStuck (record { queue = q; in_hand = hs ++ (pool, t) ∷ ks; running = running })
      → IsStuck (record {
        queue = (dispatch serde codec limiter faults metadata clock pool t q).1;
        in_hand = hs ++ ks;
        running =
            started
              (dispatch serde codec limiter faults metadata clock pool t q).0
              (pool, t)
              running;
      })
  unfolding started count_held
  dispatches-IsStuck limiter faults metadata clock pool t hs ks running q s =
      elim (dispatch_effect serde codec limiter faults metadata clock pool t q).executing [
        | inl (turn, new, executing) ↦ record {
          executing =
              rw executing
                (ground (arith, s.executing, contains-cons t.task_id id q.executing_tasks));
          idle = rw turn (ground (arith, s.idle, s.executing, new, eq_iff t.task_id id));
        }
        | inr (unchanged, executing) ↦ record {
          executing = rw executing s.executing;
          idle = rw (unchanged running pool) s.idle;
        }
      ]

  leaves-IsStuck :
      (pool : String) (t : Task x) (in_hand hs ks : List (String × Task x))
      (q q' : SnerdQueue x codec.Raw)
      → SameSets q q' ⊎ SameSets (drop_guard t q) q'
      → IsStuck (record { queue = q; in_hand = in_hand; running = hs ++ (pool, t) ∷ ks })
      → IsStuck (record { queue = q'; in_hand = in_hand; running = hs ++ ks })
  unfolding count_held drop_guard
  leaves-IsStuck pool t in_hand hs ks q q' (inl same) s = record {
    executing = ap (λ ids. contains ids id) same.executing ∙ s.executing;
    idle =
        ground
          (arith, s.idle, count_held-append id hs ((pool, t) ∷ ks), count_held-append id hs ks);
  }
  leaves-IsStuck pool t in_hand hs ks q q' (inr same) s = record {
    executing = ground (
      arith,
      same.executing,
      s.executing,
      s.idle,
      contains-without t.task_id id q.executing_tasks,
      count_held-append id hs ((pool, t) ∷ ks),
    );
    idle =
        ground
          (arith, s.idle, count_held-append id hs ((pool, t) ∷ ks), count_held-append id hs ks);
  }

  Step-IsStuck : (a b : Engine x codec) → Step serde codec a b → IsStuck a → IsStuck b
  Step-IsStuck _ _ (takes_hash t e) s =
      same-IsStuck e _ e.in_hand (take_hash-SameSets t e.queue).executing s
  Step-IsStuck _ _ (stores faults metadata t e) s =
      same-IsStuck e _ e.in_hand
        (store_task-SameSets serde codec faults metadata t e.queue).executing s
  Step-IsStuck _ _ (schedules now tasks e) s =
      process_due_tasks_keeps (λ q. IsStuck (record e { queue = q })) now tasks e.queue
        (λ pool t q due c. unfold push_to in record { executing = c.executing; idle = c.idle })
        (λ q counts c. record { executing = c.executing; idle = c.idle }) s
  Step-IsStuck _ _ (pops_task pool t q e popped) s =
      same-IsStuck e q ((pool, t) ∷ e.in_hand) (next_task_pops pool t e.queue q popped).1 s
  Step-IsStuck _ _ (finds_none pool q e found) s =
      same-IsStuck e q e.in_hand (next_task_ends pool e.queue q found).executing s
  Step-IsStuck _ _ (dispatches limiter faults metadata clock pool t hs ks running q) s =
      dispatches-IsStuck limiter faults metadata clock pool t hs ks running q s
  Step-IsStuck _ _ (gives_up pool t in_hand hs ks q completed) s =
      leaves-IsStuck pool t in_hand hs ks q _ (inl (drop_permit-SameSets pool q)) s
  Step-IsStuck _ _ (finishes faults metadata clock instant result pool t in_hand hs ks q) s =
      let finished = finish_task serde codec faults metadata clock instant result t q in
      leaves-IsStuck pool t in_hand hs ks q (drop_permit pool finished)
        (inr (
          SameSets-trans (drop_guard t q) finished (drop_permit pool finished)
            (finish_task_sets serde codec faults metadata clock instant result t q)
            (drop_permit-SameSets pool finished)))
        s
  Step-IsStuck _ _ (sweeps now ttl e) s = record { executing = s.executing; idle = s.idle }
  Step-IsStuck _ _ (compacts faults clock e) s = record { executing = s.executing; idle = s.idle }

  steps-IsStuck : (a b : Engine x codec) → Steps serde codec a b → IsStuck a → IsStuck b
  steps-IsStuck _ _ (done e) s = s
  steps-IsStuck _ _ (after a b c steps step) s = Step-IsStuck b c step (steps-IsStuck a b steps s)

module _ {x : Externals} (serde : Serde x) (codec : Codec) where
  -- Once an execution is given up since its id is completed, the id stays in the executing set, and no
  -- task with it is ever in execution again, whatever steps follow.
  pub gives_up-IsStuck :
      (pool : String) (t : Task x) (in_hand hs ks : List (String × Task x))
      (q : SnerdQueue x codec.Raw) (e : Engine x codec)
      → IsConsistent serde codec
          (record { queue = q; in_hand = in_hand; running = hs ++ (pool, t) ∷ ks })
      → is_completed t q ≡ true
      → Steps serde codec
          (record { queue = drop_permit pool q; in_hand = in_hand; running = hs ++ ks })
          e
      → IsStuck serde codec t.task_id e
  unfolding count_held
  gives_up-IsStuck pool t in_hand hs ks q e h completed steps =
      let once = h.run_once t.task_id in
      let split = count_held-append t.task_id hs ((pool, t) ∷ ks) in
      let own = (eq_iff t.task_id t.task_id).1 refl in
      steps-IsStuck serde codec t.task_id _ e steps (record {
        executing =
            ap (λ ids. contains ids t.task_id) (drop_permit-SameSets pool q).executing
            ∙ ground (arith, once, split, own);
        idle = ground (arith, once, split, own, count_held-append t.task_id hs ks);
      })
