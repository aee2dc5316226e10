-- ===== src/FileStore/Cycle.antt =====
-- `detect_cycle` of src/file_store.rs: a depth-first search over the dependencies of cached tasks.
pub mod Decides
use Prim.Native.String.{◌++◌ as ◌<>◌}
use snerd_rust.Base.{
  ℕ, zero, suc, ◌+◌, String, Bool, Option, none, some, List, [], ◌∷◌, if◌then◌else◌, str_eq, length,
  contains, push_all, Table, lookup, Result, ok, err,
}
use snerd_rust.Task.{RetryableTask}

pub data Outcome : Type 0 where
  finished : Result String (Unit {0}) → Outcome
  out_of_fuel : Outcome

unfoldable pub cycle_message : String → String
cycle_message new_task_id = "Cycle detected involving task " <> new_task_id

module _ {F64 : Type 0} where
  unfoldable pub deps_of : RetryableTask F64 → List String
  deps_of t = elim t.trigger_after_ids [ none ↦ [] | some deps ↦ deps ]

  -- The dependencies of a cached task.
  unfoldable pub deps : Table (RetryableTask F64) → String → List String
  unfolding deps_of
  deps cache id = elim (lookup id cache) [ none ↦ [] | some task ↦ deps_of task ]

  -- The `while let` loop. The stack has its top first; `visited` is the hash set.
  unfoldable pub search :
      ℕ → Table (RetryableTask F64) → String → List String → List String → Outcome
  unfolding deps
  search fuel cache new_task_id visited [] = finished (ok tt)
  search zero cache new_task_id visited (current_id ∷ stack) = out_of_fuel
  search (suc fuel) cache new_task_id visited (current_id ∷ stack) =
      let skip = search fuel cache new_task_id visited stack in
      let visit =
        search fuel cache new_task_id (current_id ∷ visited)
          (push_all (deps cache current_id) stack) in
      if str_eq current_id new_task_id
      then finished (err (cycle_message new_task_id))
      else if contains visited current_id
      then skip
      else visit

  -- The entries that unvisited tasks have yet to push.
  unfoldable pub potential : Table (RetryableTask F64) → List String → ℕ
  unfolding deps_of
  potential [] visited = 0
  potential ((id, task) ∷ cache) visited =
      (if contains visited id then 0 else length (deps_of task)) + potential cache visited

  -- Each round pops one entry, and a task pushes its dependencies once: so much fuel suffices.
  unfoldable pub detect_cycle : Table (RetryableTask F64) → String → List String → Outcome
  unfolding search
  detect_cycle cache new_task_id trigger_after_ids =
      search (length trigger_after_ids + potential cache []) cache new_task_id []
        (push_all trigger_after_ids [])
