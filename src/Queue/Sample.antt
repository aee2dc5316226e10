-- ===== src/Queue/Sample.antt =====
-- Concrete stores and limits of an engine (src/queue.rs), for the tests.
use snerd_rust.Base.{◌≡◌, refl, false, Option, none, some, List, [], ◌∷◌, Table}
use snerd_rust.Task.{Task}
use snerd_rust.Task.Sample.{sample}
use snerd_rust.FileStore.{FileStore, SaveFaults}
use snerd_rust.RateLimiter.{Codec, RateWindow}

pub printed :
    (t : Table RateWindow) (raw : Option (Table RateWindow))
    → ◌≡◌ {A = Option (Option (Table RateWindow))} (some (some t)) (some raw)
    → raw ≡ some t
printed t raw e = cc e

abbrev pub codec : Codec
codec = record {
  Raw = Option (Table RateWindow);
  empty = none;
  to_json = λ t. some (some t);
  from_json = λ raw. raw;
  parse-print = printed;
  parse-empty = refl;
}

abbrev pub calm : SaveFaults
calm = record { create_dir = false; open_log = false; write = false; torn = λ _. ""; sync = false }

abbrev pub store_of : List (Task sample) → FileStore sample
store_of [] = record {
  log = none;
  unfinished = false;
  total_tasks = 0;
  deleted_tasks = 0;
  append_count = 0;
  compacting = false;
  tasks_cache = [];
}
store_of (t ∷ ts) = let s = store_of ts in record s { tasks_cache = (t.task_id, t) ∷ s.tasks_cache }
