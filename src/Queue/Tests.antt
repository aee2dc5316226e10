-- ===== src/Queue/Tests.antt =====
-- Runs of the model of src/queue.rs, and its theorems at concrete inputs.
mod Recovered
mod Runs
mod Retries
use mathlib.Core.List.{Mem}
use snerd_rust.Base.{
  ℕ, ◌+◌, ◌*◌, ◌≤◌, ◌≡◌, refl, true, false, Option, none, some, [], ◌∷◌, ◌++◌, arith, ◌≢◌, ltb_ℤ,
  dec_i32, All, eq_iff, contains, without, has_key, lookup, insert, remove, ok, err, String, pos,
}
use snerd_rust.Membership.{second}
use snerd_rust.Task.{Task, cmp, score}
use snerd_rust.Task.Sample.{sample, task}
use snerd_rust.FileStore.{read_tasks, are_tasks_completed}
use snerd_rust.FileStore.Sample.{sample_serde, sample_prints}
use snerd_rust.FileStore.Cycle.{deps, finished}
use snerd_rust.Queue.{
  SnerdQueue, cycle_check, store_task, enqueue, new_with_pools, evict_expired_completed, hashes_of,
  pool_table, with_default,
}
use snerd_rust.Queue.Schedule.{
  process_due_tasks, push_due, push_if_due, is_due, deps_completed, target_pool, pool_of, push_to,
  heap, dedup, start_dispatchers, dispatchers, next_task, pop, pop_max, pops, leave_dispatcher,
  drop_permit,
}
use snerd_rust.Queue.Execute.{
  children, depends_on, on_failure, World, returned, success, attempt, is_completed, handler_result,
}
use snerd_rust.Queue.Children.{deps_completed-on_failure, enqueue-on_failure}
use snerd_rust.Queue.Priority.{IsRanked, IsAtMost, pop_greatest}
use snerd_rust.Queue.Acyclic.{IsAcyclic, enqueue-IsAcyclic, deps_none_start}
use snerd_rust.Queue.Race.{store_task_race}
use snerd_rust.Queue.Count.{count_held, count_heaps}
use snerd_rust.Queue.Run.{Engine, schedules, pops_task, Steps, done, after, IsConsistent}
use snerd_rust.Queue.Sample.{codec, calm, store_of}
use snerd_rust.Queue.Run.Permits.{permits_balance}
use snerd_rust.Queue.Run.Counted.{permits, holders}
use snerd_rust.Queue.Run.Once.{booted, booted-IsConsistent, never_twice}
use snerd_rust.Queue.Attempts.{held, executions, retries_of, executions-retries_of, AlwaysFails}
use snerd_rust.Queue.Saves.{IsCalm}
use snerd_rust.Queue.Due.{IsDue, process_due_tasks-IsDue, process_due_tasks_queues}
use snerd_rust.Queue.Stuck.{IsStuck, gives_up-IsStuck}
use snerd_rust.Queue.Enqueue.{enqueue_twice, enqueue_answers, Answer, IsNew}

program : Unit {0}
unfolding new_with_pools hashes_of pool_table with_default read_tasks process_due_tasks push_due
    push_if_due is_due deps_completed target_pool pool_of push_to heap dedup start_dispatchers
    dispatchers next_task pop pop_max leave_dispatcher drop_permit contains without lookup insert
    remove evict_expired_completed is_completed held are_tasks_completed
program = tt

calm-IsCalm : IsCalm calm
calm-IsCalm = record { create_dir = refl; open_log = refl; write = refl; sync = refl }

abbrev one : Task sample
one = task "1" none

abbrev two : Task sample
two = record (task "2" (some ("1" ∷ []))) { payload_hash = some "h" }

abbrev start : SnerdQueue sample codec.Raw
start = new_with_pools (store_of (one ∷ two ∷ [])) none (("default", 2) ∷ [])

t1 : (process_due_tasks 5 (one ∷ two ∷ []) start).1.queued_tasks ≡ "1" ∷ []
unfolding program
t1 = refl

ages :
    evict_expired_completed
      (90 * second)
      (60 * second)
      (("a", 10 * second) ∷ ("b", 80 * second) ∷ [])
    ≡ ("b", 80 * second) ∷ []
unfolding program
ages = refl

enqueue_twice_example :
    enqueue sample_serde calm none
      (record two { task_id = "3" })
      (enqueue sample_serde calm none (record two { trigger_after_ids = some ("2" ∷ []) }) start).1
    ≡ (
      ok false,
      (enqueue sample_serde calm none (record two { trigger_after_ids = some ("2" ∷ []) }) start).1,
    )
enqueue_twice_example =
    enqueue_twice sample_serde calm calm none none
      (record two { trigger_after_ids = some ("2" ∷ []) }) (record two { task_id = "3" }) "h" start
      refl refl

abbrev empty : SnerdQueue sample codec.Raw
empty = new_with_pools (store_of []) none (("default", 2) ∷ [])

two-IsNew : IsNew sample_serde two empty
unfolding program
two-IsNew hash e = refl

enqueue_answers_example :
    Answer two empty.file_store
      (enqueue sample_serde calm none two empty).0
      (enqueue sample_serde calm none two empty).1.file_store
enqueue_answers_example =
    enqueue_answers sample_serde calm none two empty calm-IsCalm sample_prints two-IsNew

empty-IsAcyclic : IsAcyclic empty.file_store.tasks_cache
unfolding program deps
empty-IsAcyclic id path = deps_none_start {F64 = ℕ} [] id path

enqueue-IsAcyclic_example :
    IsAcyclic
      (enqueue sample_serde calm none two
        (enqueue sample_serde calm none one empty).1).1.file_store.tasks_cache
enqueue-IsAcyclic_example =
    enqueue-IsAcyclic sample_serde calm none two (enqueue sample_serde calm none one empty).1
      (enqueue-IsAcyclic sample_serde calm none one empty empty-IsAcyclic)

abbrev before : Task sample
before = task "1" (some ("2" ∷ []))

abbrev behind : Task sample
behind = task "2" (some ("1" ∷ []))

apart : ◌≢◌ {A = String} "1" "2"
apart = ground (arith, eq_iff "1" "2")

nothing_stored : (id : String) → lookup id empty.file_store.tasks_cache ≡ none
unfolding program
nothing_stored id = refl

store_task_race_example :
    (cycle_check before empty.file_store ≡ finished (ok tt))
    × (cycle_check behind empty.file_store ≡ finished (ok tt))
    × (¬ IsAcyclic
        (store_task sample_serde calm none behind
          (store_task sample_serde calm none before empty).1).1.file_store.tasks_cache)
store_task_race_example =
    store_task_race sample_serde calm calm-IsCalm sample_prints none before behind empty refl refl
      apart (nothing_stored "1") (nothing_stored "2")

one-IsDue : IsDue 5 start one
unfolding program
one-IsDue = record {
  execute_at = omega arith;
  retry_after_time = omega arith;
  live = refl;
  free = λ deps e. absurd (cc);
  idle = refl;
}

queued_one : contains (process_due_tasks 5 (one ∷ two ∷ []) start).1.queued_tasks "1" ≡ true
unfolding program
queued_one = refl

not_queued : contains start.queued_tasks "1" ≡ false
unfolding program
not_queued = refl

process_due_tasks-IsDue_example :
    (t : Task sample) × Mem t (one ∷ two ∷ []) × (t.task_id ≡ "1") × IsDue 5 start t
process_due_tasks-IsDue_example =
    process_due_tasks-IsDue 5 start (one ∷ two ∷ []) "1" queued_one not_queued

has_default : has_key "default" start.shared_pqs ≡ true
unfolding program
has_default = refl

process_due_tasks_queues_example :
    contains (process_due_tasks 5 (two ∷ one ∷ []) start).1.queued_tasks "1" ≡ true
process_due_tasks_queues_example =
    process_due_tasks_queues 5 start (two ∷ []) [] one has_default one-IsDue

sample-IsRanked : IsRanked sample (λ n. n)
sample-IsRanked a b finite finite' = refl

abbrev urgent : Task sample
urgent = record (task "9" none) { urgency_score = some 5 }

abbrev mild : Task sample
mild = record (task "8" none) { urgency_score = some 3 }

pops_urgent : pop sample (one ∷ urgent ∷ mild ∷ []) ≡ some (urgent, one ∷ mild ∷ [])
unfolding program cmp score
pops_urgent = refl

pop_greatest_example : All (IsAtMost sample (λ n. n) (score sample urgent)) (one ∷ mild ∷ [])
pop_greatest_example =
    pop_greatest sample (λ n. n) (one ∷ urgent ∷ mild ∷ []) (one ∷ mild ∷ []) urgent sample-IsRanked
      (refl, (refl, (refl, tt))) pops_urgent
