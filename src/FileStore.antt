-- ===== src/FileStore.antt =====
-- src/file_store.rs: the append-only task log, the cache of its live tasks, and compaction. Every
-- method that writes holds `file_lock`, so it is one step on the store.
pub mod Cycle
pub mod Replay
pub mod Compaction
pub mod Durable
pub mod Recovery
pub mod Live
pub mod Torn
mod Tests
pub mod Sample
use Prim.Native.String.{◌++◌ as ◌<>◌}
use snerd_rust.Base.{
  str_eq, ℕ, zero, suc, ◌+◌, ◌*◌, ◌^◌, ◌≡◌, String, Bool, true, false, ◌&&◌, ◌||◌, not, Option,
  none, some, List, [], ◌∷◌, ◌++◌, if◌then◌else◌, ltb, leb, is_some, length, Table, lookup, insert,
  remove, has_key, values, Result, ok, err, Exec, pure, lift, gets, puts, fails_if, ◌>>=◌, ◌>>◌,
  all,
}
use snerd_rust.Task.{Externals, Task, mark_deleted}
use snerd_rust.Task.Cron.{trim, is_empty}

pub data IoError : Type 0 where
  io : IoError

-- `line_str.trim().is_empty()`
unfoldable pub is_blank : String → Bool
unfolding trim is_empty
is_blank line = is_empty (trim line)

-- The calls of the operating system that fail in one run of `save_task_inner`. A failing `sync_all`
-- comes after the line is in the file.
pub record SaveFaults : Type 0 where
  pub create_dir : Bool
  pub open_log : Bool
  pub write : Bool
  -- The part of the line that a failing write leaves in the file.
  pub torn : String → String
  pub sync : Bool

-- The calls of the operating system in one run of `compact_log`.
pub record CompactFaults : Type 0 where
  pub open_log : Bool
  pub open_temp : Bool
  pub write : Bool
  pub sync : Bool
  pub rename : Bool

unfoldable pub lines_of : Option (List String) → List String
lines_of none = []
lines_of (some lines) = lines

-- A text at the end of a file: it starts a line, or goes on in the last one.
unfoldable pub add_text : Bool → List String → String → List String
add_text false lines text = lines ++ text ∷ []
add_text true [] text = text ∷ []
add_text true (line ∷ []) text = (line <> text) ∷ []
add_text true (line ∷ next ∷ lines) text = line ∷ add_text true (next ∷ lines) text

module _ (x : Externals) where
  open x use {F64, is_finite}

  unfoldable pub is_finite_or_none : Option F64 → Bool
  is_finite_or_none none = true
  is_finite_or_none (some f) = is_finite f

  -- JSON has no infinity and no NaN: serde_json prints them as `null`, which it reads back as no
  -- `f64`.
  unfoldable pub is_printable : Task x → Bool
  unfolding is_finite_or_none
  is_printable t = is_finite t.retry_after_hours && is_finite_or_none t.urgency_score

  -- A task that is read back has fresh `created_at` and `updated_at`: they are
  -- `#[serde(skip, default = "Utc::now")]`.
  unfoldable pub reloaded : ℕ → Task x → Task x
  reloaded now t = record t { created_at = now; updated_at = now }

  unfoldable pub reread_or_none : Option F64 → Option F64
  reread_or_none none = none
  reread_or_none (some score) = some (x.reread score)

  -- The task that a printed line stands for: its `f64`s are rounded by the parser, which does not promise
  -- to find the number that was printed. All other field values are printed faithfully.
  unfoldable pub reparsed : Task x → Task x
  unfolding reread_or_none
  reparsed t = record t {
    retry_after_hours = x.reread t.retry_after_hours;
    urgency_score = reread_or_none t.urgency_score;
  }

  -- serde_json on one task. The reading of the clock is an argument of the parser.
  pub record Serde : Type 0 where
    pub to_json : Task x → Option String
    pub from_json : ℕ → String → Option (Task x)
    pub parse-print :
        (t : Task x) (line : String) (now : ℕ)
        → is_printable t ≡ true
        → to_json t ≡ some line
        → from_json now line ≡ some (reloaded now (reparsed t))
    -- JSON numbers are finite, and a parsed task carries the clock's reading.
    pub parse-printable :
        (now : ℕ) (line : String) (t : Task x) → from_json now line ≡ some t → is_printable t ≡ true
    pub parse-updated_at :
        (now : ℕ) (line : String) (t : Task x) → from_json now line ≡ some t → t.updated_at ≡ now
    -- The clock shows in nothing else.
    pub parse-reloaded :
        (now later : ℕ) (line : String) (t : Task x)
        → from_json now line ≡ some t
        → from_json later line ≡ some (reloaded later t)
    pub print-not_blank :
        (t : Task x) (line : String) → to_json t ≡ some line → is_blank line ≡ false

  -- `log` is the list of the lines of the file; `none` means that there is no file. `unfinished` says that
  -- the last line has no newline, so that the next text goes on in it.
  pub record FileStore : Type 0 where
    pub log : Option (List String)
    pub unfinished : Bool
    pub total_tasks : ℕ
    pub deleted_tasks : ℕ
    pub append_count : ℕ
    pub compacting : Bool
    pub tasks_cache : Table (Task x)

  -- The variables of the loop in `rebuild_metadata`.
  pub record Counts : Type 0 where
    pub total : ℕ
    pub deleted : ℕ
    pub appended : ℕ
    pub cache : Table (Task x)

  unfoldable pub no_counts : Counts
  no_counts = record { total = 0; deleted = 0; appended = 0; cache = [] }

  -- `cache.remove` for a deleted task, `cache.insert` for a live one.
  unfoldable pub update_cache : Task x → Table (Task x) → Table (Task x)
  update_cache t cache =
      if is_some t.deleted_at then remove t.task_id cache else insert t.task_id t cache

  unfoldable pub count_task : Task x → Counts → Counts
  unfolding update_cache
  count_task t c =
      if is_some t.deleted_at
      then record c {
        appended = c.appended + 1;
        deleted = c.deleted + 1;
        cache = update_cache t c.cache;
      }
      else record c {
        appended = c.appended + 1;
        total = c.total + 1;
        cache = update_cache t c.cache;
      }

  -- A live task replaces the one before it if its `updated_at` is later.
  unfoldable pub compact_task : Task x → Table (Task x) → Table (Task x)
  compact_task t task_map =
      if is_some t.deleted_at then remove t.task_id task_map else elim (lookup t.task_id task_map) [
        | none ↦ insert t.task_id t task_map
        | some existing ↦
            if ltb existing.updated_at t.updated_at then insert t.task_id t task_map else task_map
      ]

module _ {x : Externals} where
  -- The part of `save_task_inner` after the line is on disk.
  unfoldable pub note_saved : Task x → FileStore x → FileStore x
  unfolding update_cache
  note_saved t s =
      if is_some t.deleted_at
      then record s {
        append_count = s.append_count + 1;
        deleted_tasks = s.deleted_tasks + 1;
        tasks_cache = update_cache x t s.tasks_cache;
      }
      else record s {
        append_count = s.append_count + 1;
        total_tasks = s.total_tasks + 1;
        tasks_cache = update_cache x t s.tasks_cache;
      }

  -- `metadata` is the length of the file in bytes, if it can be read. The quotient of the `f64`s is
  -- above 0.5 exactly if twice the dividend is above the divisor (for counts below 2^52).
  unfoldable pub should_compact : Option ℕ → FileStore x → Bool
  should_compact metadata s =
      elim metadata [ none ↦ false | some len ↦ ltb (20 * 1024 * 1024) len ]
      || ltb 0 s.total_tasks && ltb s.total_tasks (2 * s.deleted_tasks)
      || leb 10000 s.append_count

  unfoldable pub read_tasks : FileStore x → List (Task x)
  read_tasks s = values s.tasks_cache

  unfoldable pub get_latest_task : String → FileStore x → Option (Task x)
  get_latest_task task_id s = lookup task_id s.tasks_cache

  unfoldable pub are_tasks_completed : List String → FileStore x → Bool
  are_tasks_completed task_ids s = all (λ id. not (has_key id s.tasks_cache)) task_ids

module _ {x : Externals} (serde : Serde x) where
  open serde use {to_json, from_json}

  -- One line of the loop in `rebuild_metadata`, at the reading `now` of the clock.
  unfoldable pub read_line : ℕ → String → Counts x → Counts x
  read_line now line c =
      if is_blank line
      then c
      else elim (from_json now line) [ none ↦ c | some t ↦ count_task x t c ]

  -- The lines from the `i`-th on; `clock i` is the reading at the parse of line `i`.
  unfoldable pub read_lines : (ℕ → ℕ) → ℕ → List String → Counts x → Counts x
  unfolding read_line
  read_lines clock i [] c = c
  read_lines clock i (line ∷ lines) c = read_lines clock (suc i) lines (read_line (clock i) line c)

  -- `FileStore::new` with its `rebuild_metadata`; `open_log` says that the file cannot be opened, and
  -- `unfinished` that its last line has no newline.
  unfoldable pub new : (ℕ → ℕ) → Bool → Bool → Option (List String) → Result IoError (FileStore x)
  unfolding read_lines no_counts
  new clock open_log unfinished none = ok (record {
    log = none;
    unfinished = false;
    total_tasks = 0;
    deleted_tasks = 0;
    append_count = 0;
    compacting = false;
    tasks_cache = [];
  })
  new clock open_log unfinished (some lines) =
      let c = read_lines clock 0 lines (no_counts x) in
      if open_log
      then err io
      else ok (record {
        log = some lines;
        unfinished = unfinished;
        total_tasks = c.total;
        deleted_tasks = c.deleted;
        append_count = c.appended;
        compacting = false;
        tasks_cache = c.cache;
      })

  unfoldable pub print : Task x → Result IoError String
  print t = elim (to_json t) [ none ↦ err io | some line ↦ ok line ]

  abbrev pub M : Type 0 → Type 0
  M A = Exec (FileStore x) IoError A

  -- `writeln!`: the text, with its newline where the write succeeds.
  unfoldable pub write_line : SaveFaults → String → FileStore x → FileStore x
  unfolding add_text
  write_line faults line s = if faults.write && str_eq (faults.torn line) "" then s else record s {
    log =
        some (
          add_text s.unfinished (lines_of s.log) (if faults.write then faults.torn line else line));
    unfinished = faults.write;
  }

  -- Returns whether `compact_log` is spawned.
  unfoldable pub save_task_inner : SaveFaults → Option ℕ → Task x → Bool → M Bool
  save_task_inner faults metadata t check_compact = do
    fails_if faults.create_dir io
    fails_if faults.open_log io
    json_str ← lift (print t)
    puts (write_line faults json_str)
    fails_if faults.write io
    fails_if faults.sync io
    puts (note_saved t)
    gets (λ s. check_compact && should_compact metadata s)

  unfoldable pub save_task : SaveFaults → Option ℕ → Task x → M Bool
  unfolding save_task_inner
  save_task faults metadata t = save_task_inner faults metadata t true

  -- `now` and `later` are the readings of the clock in `mark_deleted`.
  unfoldable pub delete_task : SaveFaults → ℕ → ℕ → String → M Bool
  unfolding save_task_inner
  delete_task faults now later task_id s = elim (lookup task_id s.tasks_cache) [
    | none ↦ (ok false, s)
    | some t ↦
        if is_some t.deleted_at
        then (ok false, s)
        else save_task_inner faults none (mark_deleted x now later t) false s
  ]

  unfoldable pub compact_line : ℕ → String → Table (Task x) → Table (Task x)
  unfolding compact_task
  compact_line now line task_map =
      if is_blank line
      then task_map
      else elim (from_json now line) [ none ↦ task_map | some t ↦ compact_task x t task_map ]

  unfoldable pub compact_lines : (ℕ → ℕ) → ℕ → List String → Table (Task x) → Table (Task x)
  unfolding compact_line
  compact_lines clock i [] task_map = task_map
  compact_lines clock i (line ∷ lines) task_map =
      compact_lines clock (suc i) lines (compact_line (clock i) line task_map)

  unfoldable pub print_all : List (Task x) → Result IoError (List String)
  unfolding print
  print_all [] = ok []
  print_all (t ∷ ts) = elim (print t) [
    | err e ↦ err e
    | ok line ↦ elim (print_all ts) [ err e ↦ err e | ok lines ↦ ok (line ∷ lines) ]
  ]

  -- The closure of `compact_log`. The temporary file is not kept in the state: only the rename makes
  -- it visible, and each run truncates it.
  unfoldable pub rewrite_log : CompactFaults → (ℕ → ℕ) → M (Unit {0})
  rewrite_log faults clock = do
    fails_if faults.open_log io
    lines ← λ s. (elim s.log [ none ↦ err io | some lines ↦ ok lines ], s)
    fails_if faults.open_temp io
    let task_map = compact_lines clock 0 lines []
    printed ← lift (print_all (values task_map))
    fails_if faults.write io
    fails_if faults.sync io
    fails_if faults.rename io
    puts (λ s. record s {
      log = some printed;
      unfinished = false;
      total_tasks = length task_map;
      deleted_tasks = 0;
      append_count = 0;
      tasks_cache = task_map;
    })

  -- `compacting` is taken by `compare_exchange` and given back after the closure, failed or not.
  unfoldable pub compact_log : CompactFaults → (ℕ → ℕ) → M (Unit {0})
  compact_log faults clock s =
      if s.compacting
      then (ok tt, s)
      else (let (result, s') = rewrite_log faults clock (record s { compacting = true }) in
          (result, record s' { compacting = false }))
