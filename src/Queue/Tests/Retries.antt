-- ===== src/Queue/Tests/Retries.antt =====
-- The attempts of a task of src/queue.rs that fails, and what becomes of its children.
use snerd_rust.Base.{
  ◌≡◌, refl, true, false, Option, none, some, [], ◌∷◌, ◌++◌, arith, ◌≢◌, ltb_ℤ, dec_i32, contains,
  has_key, lookup, ok, err, String, pos,
}
use snerd_rust.Task.{Task}
use snerd_rust.Task.Sample.{sample, task}
use snerd_rust.FileStore.{read_tasks}
use snerd_rust.FileStore.Sample.{sample_serde, sample_prints}
use snerd_rust.Queue.{SnerdQueue, enqueue, new_with_pools}
use snerd_rust.Queue.Schedule.{deps_completed}
use snerd_rust.Queue.Execute.{
  children, depends_on, on_failure, World, returned, success, attempt, handler_result,
}
use snerd_rust.Queue.Children.{deps_completed-on_failure, enqueue-on_failure}
use snerd_rust.Queue.Sample.{codec, calm, store_of}
use snerd_rust.Queue.Attempts.{held, executions, retries_of, executions-retries_of, AlwaysFails}
use snerd_rust.Queue.Tests.{program, calm-IsCalm, one, two, start}

-- A handler that fails.
abbrev failing : World sample
failing = record {
  post = λ url t. success;
  task_handlers = ("mail", λ payload. returned (err "no server")) ∷ [];
}

failing-AlwaysFails :
    AlwaysFails sample_serde codec calm calm-IsCalm sample_prints failing
      (λ i. i)
      0
      "default"
      "1"
      none
      "mail"
unfolding attempt handler_result lookup
failing-AlwaysFails t own url kind = ("no server", rw (url, kind) refl)

holds_one : held sample_serde codec calm calm-IsCalm sample_prints "1" start ≡ some one
unfolding program
holds_one = refl

not_completed : has_key "1" start.completed_tasks ≡ false
unfolding program
not_completed = refl

executions-retries_of_example :
    retries_of sample_serde codec calm calm-IsCalm sample_prints failing
      (λ i. i)
      0
      "default"
      "1"
      (executions sample_serde codec calm calm-IsCalm sample_prints failing
        (λ i. i)
        0
        "default"
        "1"
        2
        start)
    ≡ none
executions-retries_of_example =
    executions-retries_of sample_serde codec calm calm-IsCalm sample_prints failing (λ i. i) 0
      "default" "1" 2 one start 0 2 failing-AlwaysFails holds_one refl refl not_completed refl refl
      (omega arith)

-- Task 1 may be tried once; task 2 waits for it, and task 3 for task 2.
abbrev parent : Task sample
parent = record one { max_retries = pos 1 }

abbrev family : SnerdQueue sample codec.Raw
family = new_with_pools (store_of (parent ∷ two ∷ [])) none (("default", 2) ∷ [])

last_attempt : ltb_ℤ parent.retry_count (dec_i32 parent.max_retries) ≡ false
unfolding dec_i32
last_attempt = refl

one_child : children "1" (read_tasks family.file_store) ≡ [] ++ two ∷ []
unfolding program children depends_on
one_child = refl

deps_completed-on_failure_example :
    deps_completed
      (task "3" (some ("2" ∷ [])))
      (on_failure sample_serde codec
        (λ _. calm)
        none
        (λ i. i)
        0
        "no server"
        parent
        family).file_store
    ≡ true
deps_completed-on_failure_example =
    deps_completed-on_failure sample_serde codec calm calm-IsCalm sample_prints (λ i. i) 0
      "no server" parent two (task "3" (some ("2" ∷ []))) [] [] family last_attempt one_child refl

not_own_hash : ◌≢◌ {A = Option String} parent.payload_hash (some "h")
not_own_hash e = absurd (cc)

hash_taken : contains family.active_hashes "h" ≡ true
unfolding program
hash_taken = refl

enqueue-on_failure_example :
    enqueue sample_serde calm none
      (record two { task_id = "4" })
      (on_failure sample_serde codec (λ _. calm) none (λ i. i) 0 "no server" parent family)
    ≡ (
      ok false,
      on_failure sample_serde codec (λ _. calm) none (λ i. i) 0 "no server" parent family,
    )
enqueue-on_failure_example =
    enqueue-on_failure sample_serde codec (λ _. calm) (λ i. i) 0 "no server" "h" parent
      (record two { task_id = "4" }) family calm last_attempt not_own_hash hash_taken refl
