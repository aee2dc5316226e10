-- ===== src/FileStore/Tests.antt =====
-- Runs of the model of src/file_store.rs, and its theorems at concrete inputs.
use Prim.Native.String.{◌++◌ as ◌<>◌}
use snerd_rust.Base.{
  ℕ, ◌+◌, ◌≡◌, refl, ◌⊎◌, inl, inr, String, true, false, Bool-cases, ◌≢◌, Option, none, some, List,
  [], ◌∷◌, arith, str_eq, eq_iff, All, Table, lookup, insert, remove, contains, ok, err, Result,
  Bool,
}
use native.Mathlib.Decide.{ℕ_discrete}
use snerd_rust.Task.{Task, RetryableTask}
use snerd_rust.Task.Sample.{sample, task}
use snerd_rust.FileStore.{
  is_printable, is_blank, reloaded, reparsed, Serde, FileStore, no_counts, new, SaveFaults,
  CompactFaults, lines_of, compact_lines, save_task_inner, IoError, read_lines, read_line,
  count_task, update_cache,
}
use snerd_rust.FileStore.Sample.{reparsed_lem}
use snerd_rust.FileStore.Cycle.{
  detect_cycle, search, deps, deps_of, potential, finished, cycle_message,
}
use snerd_rust.FileStore.Cycle.Decides.{Reaches, detect_cycle_decides}
use snerd_rust.FileStore.Compaction.Clock.{compact_lines_stalled}
use snerd_rust.FileStore.Recovery.{Op, save, delete, compact}

str_eq_cases : (a b : String) → (a ≡ b) ⊎ (a ≢ b)
str_eq_cases a b = elim (Bool-cases (str_eq a b)) [
  | inl e ↦ inl ((eq_iff a b).0 e)
  | inr e ↦ inr (λ same. cc ((eq_iff a b).1 same))
]

String-discrete : Discrete String
String-discrete a b = elim (str_eq_cases a b) [ inl e ↦ yes e | inr ne ↦ no ne ]

Task-discrete : Discrete (Task sample)
Task-discrete = hlevel (ℕ_discrete, String-discrete)

-- The tasks of the tests, up to the two clock fields, by the line that stands for each.
abbrev known : Table (Task sample)
known =
    ("a", task "1" none)
    ∷ ("b", task "1" (some ("2" ∷ [])))
    ∷ ("c", record (task "1" none) { deleted_at = some 7 })
    ∷ ("d", task "2" (some ("3" ∷ [])))
    ∷ []

-- serde_json on the tasks of the tests.
unfoldable from_json : ℕ → String → Option (Task sample)
unfolding reloaded
from_json now line = elim (lookup line known) [
  | none ↦ none
  | some t ↦ some (reloaded sample now t)
]

Option-Task-discrete : Discrete (Option (Task sample))
Option-Task-discrete = hlevel (ℕ_discrete, String-discrete)

pick : {P : Type 0} → Dec P → String → Option String → Option String
pick (yes p) line others = some line
pick (no h) line others = others

unfoldable find_line : Task sample → List String → Option String
unfolding pick
find_line t [] = none
find_line t (line ∷ lines) =
    pick (Option-Task-discrete (from_json 0 line) (some (reloaded sample 0 t))) line
      (find_line t lines)

pick-some :
    {P : Type 0} (d : Dec P) (line found : String) (others : Option String)
    → pick d line others ≡ some found
    → (P × (line ≡ found)) ⊎ (others ≡ some found)
unfolding pick
pick-some (yes p) line found others e = inl (p, cc e)
pick-some (no h) line found others e = inr e

abbrev known_lines : List String
known_lines = "a" ∷ "b" ∷ "c" ∷ "d" ∷ []

find_line_sound :
    (t : Task sample) (lines : List String) (line : String)
    → All (λ l. is_blank l ≡ false) lines
    → find_line t lines ≡ some line
    → (from_json 0 line ≡ some (reloaded sample 0 t)) × (is_blank line ≡ false)
unfolding find_line
find_line_sound t [] line h e = absurd (cc)
find_line_sound t (l ∷ lines) line (text, h) e =
    elim (pick-some (Option-Task-discrete (from_json 0 l) (some (reloaded sample 0 t))) l line
      (find_line t lines) e) [
        | inl (p, same) ↦ rw (← same) (p, text)
        | inr later ↦ find_line_sound t lines line h later
      ]

from_json_now :
    (now later : ℕ) (line : String) (t : Task sample)
    → from_json now line ≡ some t
    → from_json later line ≡ some (reloaded sample later t)
unfolding from_json
from_json_now now later line t e = ground arith

from_json_updated_at :
    (now : ℕ) (line : String) (t : Task sample) → from_json now line ≡ some t → t.updated_at ≡ now
unfolding from_json
from_json_updated_at now line t e = ground arith

known-not_blank : All (λ l. is_blank l ≡ false) known_lines
unfolding is_blank
known-not_blank = (refl, (refl, (refl, (refl, tt))))

to_json : Task sample → Option String
unfolding find_line
to_json t = find_line t known_lines

to_json_sound :
    (t : Task sample) (line : String)
    → to_json t ≡ some line
    → (from_json 0 line ≡ some (reloaded sample 0 t)) × (is_blank line ≡ false)
unfolding to_json
to_json_sound t line e = find_line_sound t known_lines line known-not_blank e

sample_printable : (t : Task sample) → is_printable sample t ≡ true
unfolding is_printable
sample_printable t = ground arith

parse-print :
    (t : Task sample) (line : String) (now : ℕ)
    → is_printable sample t ≡ true
    → to_json t ≡ some line
    → from_json now line ≡ some (reloaded sample now (reparsed sample t))
unfolding reloaded
parse-print t line now p e =
    rw (reparsed_lem t) (from_json_now 0 now line (reloaded sample 0 t) (to_json_sound t line e).0)

abbrev serde : Serde sample
serde = record {
  to_json = to_json;
  from_json = from_json;
  parse-print = parse-print;
  parse-printable = λ now line t e. sample_printable t;
  parse-updated_at = from_json_updated_at;
  parse-reloaded = from_json_now;
  print-not_blank = λ t line e. (to_json_sound t line e).1;
}

program : Unit {0}
unfolding from_json lookup insert remove reloaded new read_lines read_line count_task update_cache
    no_counts is_blank lines_of
program = tt

abbrev no_faults : SaveFaults
no_faults = record {
  create_dir = false;
  open_log = false;
  write = false;
  torn = λ _. "";
  sync = false;
}

abbrev smooth : CompactFaults
smooth = record { open_log = false; open_temp = false; write = false; sync = false; rename = false }

-- The store that opens on the lines "a" and "b".
abbrev opened : FileStore sample
opened = record {
  log = some ("a" ∷ "b" ∷ []);
  unfinished = false;
  total_tasks = 2;
  deleted_tasks = 0;
  append_count = 2;
  compacting = false;
  tasks_cache = ("1", reloaded sample 101 (task "1" (some ("2" ∷ [])))) ∷ [];
}

ticking : ℕ → ℕ
ticking i = 100 + i

abbrev ops : List (Op sample)
ops =
    save no_faults none (task "1" none)
    ∷ delete (record no_faults { write = true }) 7 7 "1"
    ∷ compact smooth ticking
    ∷ save no_faults none (task "2" (some ("3" ∷ [])))
    ∷ []

compact_lines_stalled_example :
    (lookup "1" (compact_lines serde (λ _. 5) 0 ("a" ∷ "b" ∷ []) [])
      ≡ some (reloaded sample 5 (task "1" none)))
    × (lookup "1" (read_lines serde (λ _. 5) 0 ("a" ∷ "b" ∷ []) (no_counts sample)).cache
        ≡ some (reloaded sample 5 (task "1" (some ("2" ∷ [])))))
unfolding program
compact_lines_stalled_example =
    compact_lines_stalled serde (λ _. 5) "a" "b" (reloaded sample 5 (task "1" none))
      (reloaded sample 5 (task "1" (some ("2" ∷ [])))) (omega arith) (refl, refl, refl)
      (refl, refl, refl) refl

-- Task 1 waits for 2 and 2 for 3, so 3 may not wait for 1.
abbrev waiting : Table (RetryableTask ℕ)
waiting = ("1", task "1" (some ("2" ∷ []))) ∷ ("2", task "2" (some ("3" ∷ []))) ∷ []

cyclic : detect_cycle waiting "3" ("1" ∷ []) ≡ finished (err (cycle_message "3"))
unfolding detect_cycle search deps deps_of potential contains lookup
cyclic = refl

detect_cycle_decides_example :
    ((detect_cycle waiting "3" ("1" ∷ []) ≡ finished (err (cycle_message "3")))
      × Reaches waiting ("1" ∷ []) "3")
    ⊎ ((detect_cycle waiting "3" ("1" ∷ []) ≡ finished (ok tt))
        × (¬ Reaches waiting ("1" ∷ []) "3"))
detect_cycle_decides_example = detect_cycle_decides waiting "3" ("1" ∷ [])

-- The first save leaves an `x` in the log.
abbrev failing : SaveFaults
failing = record no_faults { write = true; torn = λ _. "x" }

abbrev broken : Result IoError Bool × FileStore sample
broken = save_task_inner serde failing none (task "1" none) true opened

abbrev next : Result IoError Bool × FileStore sample
next = save_task_inner serde no_faults none (task "1" none) true broken.1
