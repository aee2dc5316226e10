-- ===== src/Queue/Tests/Runs.antt =====
-- Runs of the steps of an engine of src/queue.rs.
use snerd_rust.Base.{◌+◌, ◌≤◌, ◌≡◌, refl, true, none, [], ◌∷◌, ◌++◌, arith, eq_iff, contains}
use snerd_rust.Task.Sample.{sample}
use snerd_rust.FileStore.Sample.{sample_serde}
use snerd_rust.Queue.{SnerdQueue, pool_table, with_default}
use snerd_rust.Queue.Schedule.{process_due_tasks, next_task, pops, drop_permit}
use snerd_rust.Queue.Execute.{is_completed}
use snerd_rust.Queue.Count.{count_held, count_heaps}
use snerd_rust.Queue.Run.{Engine, schedules, pops_task, Steps, done, after, IsConsistent}
use snerd_rust.Queue.Sample.{codec, store_of}
use snerd_rust.Queue.Run.Permits.{permits_balance}
use snerd_rust.Queue.Run.Counted.{permits, holders}
use snerd_rust.Queue.Run.Once.{booted, booted-IsConsistent, never_twice}
use snerd_rust.Queue.Stuck.{IsStuck, gives_up-IsStuck}
use snerd_rust.Queue.Tests.{program, one, two, start}

abbrev due_queue : SnerdQueue sample codec.Raw
due_queue = (process_due_tasks 5 (one ∷ two ∷ []) start).1

abbrev popped_queue : SnerdQueue sample codec.Raw
popped_queue = (next_task "default" due_queue).1

pops_one : next_task "default" due_queue ≡ (pops one, popped_queue)
unfolding program
pops_one = refl

abbrev engine₁ : Engine sample codec
engine₁ = record { queue = due_queue; in_hand = []; running = [] }

abbrev engine₂ : Engine sample codec
engine₂ = record { queue = popped_queue; in_hand = ("default", one) ∷ []; running = [] }

run : Steps sample_serde codec (booted sample_serde codec start) engine₂
run =
    after _ engine₁ engine₂
      (after _ (booted sample_serde codec start) engine₁ (done (booted sample_serde codec start))
        (schedules 5 (one ∷ two ∷ []) (booted sample_serde codec start)))
      (pops_task "default" one popped_queue engine₁ pops_one)

never_twice_example :
    (count_held "1" engine₂.running ≤ 1)
    × (count_heaps "1" engine₂.queue.shared_pqs + count_held "1" engine₂.in_hand ≤ 1)
never_twice_example =
    never_twice sample_serde codec (store_of (one ∷ two ∷ [])) none (("default", 2) ∷ []) engine₂
      run "1"

permits_balance_example :
    (permits "default" engine₂.queue.worker_pools
        + holders "default" engine₂.in_hand
        + holders "default" engine₂.running
      ≡ permits "default" (pool_table (λ capacity. capacity) (with_default (("default", 2) ∷ []))))
    × (holders "default" engine₂.running
        ≤ permits "default"
            (pool_table (λ capacity. capacity) (with_default (("default", 2) ∷ []))))
permits_balance_example =
    permits_balance sample_serde codec (store_of (one ∷ two ∷ [])) none (("default", 2) ∷ [])
      engine₂ run "default"

-- Task 1 is in execution, and its id is completed.
abbrev late_queue : SnerdQueue sample codec.Raw
late_queue = record start { executing_tasks = "1" ∷ []; completed_tasks = ("1", 3) ∷ [] }

late-IsConsistent :
    IsConsistent sample_serde codec
      (record { queue = late_queue; in_hand = []; running = [] ++ ("default", one) ∷ [] })
unfolding count_held
late-IsConsistent = record {
  queued_once =
      (booted-IsConsistent sample_serde codec (store_of (one ∷ two ∷ [])) none
        (("default", 2) ∷ [])).queued_once;
  run_once = λ id. unfold contains in ground (arith, eq_iff "1" id);
}

late_completed : is_completed one late_queue ≡ true
unfolding program
late_completed = refl

gives_up-IsStuck_example :
    IsStuck sample_serde codec "1"
      (record { queue = drop_permit "default" late_queue; in_hand = []; running = [] ++ [] })
gives_up-IsStuck_example =
    gives_up-IsStuck sample_serde codec "default" one [] [] [] late_queue
      (record { queue = drop_permit "default" late_queue; in_hand = []; running = [] ++ [] })
      late-IsConsistent late_completed
      (done (record { queue = drop_permit "default" late_queue; in_hand = []; running = [] ++ [] }))
