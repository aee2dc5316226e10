-- ===== src/Lib.antt =====
-- A model of snerd-rust, a persistent task queue in Rust, and what has been proved of it.
--
-- The program keeps a queue directory. A task (src/task.rs) is saved as a line of JSON in the
-- append-only log of its shard (src/file_store.rs); the live tasks are cached in memory, and the
-- log is compacted when it grows. A shard is owned by one daemon at a time, by a lease in
-- membership.json (src/membership.rs). At boot src/sharding.rs finds out what a directory is, adopts
-- a legacy one as shard 0, and later routes a task id to a shard by its hash. Handlers run under
-- rate limits, counted in rate_limits.json (src/rate_limiter.rs). The engine of a shard (src/queue.rs)
-- polls its store for due tasks, puts them into heaps, and executes them in the order of priority; a
-- daemon (src/sharded_queue.rs) claims shards in rounds and has an engine for each.
--
-- The parts of the model:
-- - Base: names and lemmas that all share. Tests, Lists, Maps (`HashMap<String, V>` as an
--   association list whose order stands for the iteration order), Results (methods that change a
--   state and may fail), Int (`i32`), Decimal (numbers as text).
-- - Membership (src/membership.rs): Store has the operations of `MembershipStore` on a directory of
--   `membership.json` and its temporary file; Store/Atomic what every one of them promises where it
--   fails; Claims the grant and the refusal of a claim; Claimable `claimable_shards`; Calls runs of
--   calls by several daemons, Leases what a lease protects in them; Identity `owner_id` and
--   `skew_margin_from`.
-- - RateLimiter (src/rate_limiter.rs): `check_and_increment` on the content of its file; Window the
--   number of calls that a window of a minute allows; Location the path of the file.
-- - Task (src/task.rs): the record, `new`, `update_retry_config`, `mark_deleted`, `PriorityTask::cmp`;
--   Cron has `parse_cron_syntax`, Cron/Shorthand its units; Sample tasks for the tests.
-- - FileStore (src/file_store.rs): the store with every method; Cycle has `detect_cycle`, Replay and
--   Durable what a replay of the log gives, Compaction `compact_log`, Live what the cache
--   holds, Recovery runs of calls and the reopening of the log after them, Torn a write that fails
--   half-way.
-- - Sharding (src/sharding.rs): the boot; Route has `fnv1a64` and `route_shard`, Lock the locks on files
--   and `try_lock_shard`.
-- - Queue (src/queue.rs): the state of an engine, its construction and `enqueue`; Schedule
--   has `process_due_tasks` and the rounds of a dispatcher, Execute what happens from the pop of a
--   task to the end of its execution; Run the steps of all of them in any order, with the tasks in
--   the hands of dispatchers and in execution beside the engine, Run/Effects what a round of a dispatcher
--   does to the sets, Run/Once and Run/Permits the invariants of all steps, and Run/Recovery a crash
--   between two steps; Enqueue, Acyclic, Due, Priority, Attempts, Children and Stuck are about one operation
--   each, Race about two calls of `enqueue` at a time.
-- - Sharded (src/sharded_queue.rs): the rounds of a daemon's heartbeat, its `enqueue` and `shutdown`;
--   Rounds and Stranded are about the heartbeat, Serves about `enqueue`; Handlers has the registration
--   of task handlers, statement by statement; Host the heartbeat on the locks of files that all
--   processes of a host hold, and Host/Fleet many daemons on one host; Engines the
--   engines of one daemon, with what they share and what each has for itself.
-- - Dashboard (src/dashboard.rs): the latest line of each task, its status, the rows and the counts; Shown
--   is about these. Ring is the feeder of the progress events, Server `handle_connection` from the
--   text of a request to the text of the answer.
--
-- Code from outside is a parameter: serde_json (the records `Codec` and `Serde`, with the laws that
-- what is printed is parsed back, up to what its parser makes of an `f64`), and in `Externals` `f64`,
-- chrono's parser, the cron crate and xxh64. Every call of the operating system that can fail has a flag
-- in a record of faults, so a theorem without a hypothesis on these holds whatever fails. Readings of the clock are arguments,
-- in nanoseconds.
--
-- Loops are structural but for `detect_cycle`, which runs on fuel: the length of its start plus all
-- dependencies of cached tasks, since a task pushes its dependencies once. It never runs out.
--
-- Not modelled: the accept loop and the threads of the dashboard, the panics of mutexes,
-- a crash in the middle of a call (a write that fails half-way is), and the loss of data that was synced.
-- `enqueue` of Queue is the whole call with nothing between its parts, of which each has its own lock; the
-- steps of Queue/Run have the parts apart. There the end of an execution is one step, though it saves the
-- children of a failed task one by one: what other callers do between these saves is left out. A round
-- of the heartbeat takes the lock of the membership anew for each call, and the calls of other daemons
-- between are in its record.
pub mod Base
pub mod Dashboard
pub mod FileStore
pub mod Membership
pub mod Queue
pub mod RateLimiter
pub mod Sharded
pub mod Sharding
pub mod Task
