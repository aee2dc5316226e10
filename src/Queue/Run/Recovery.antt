-- ===== src/Queue/Run/Recovery.antt =====
-- A crash of an engine of src/queue.rs at any step, and the reopening of its log (src/file_store.rs).
use snerd_rust.Base.{ℕ, ◌≡◌, String, true, false, All}
use snerd_rust.Task.{Externals, Task}
use snerd_rust.FileStore.{is_printable, Serde, FileStore}
use snerd_rust.FileStore.Live.{IsSound}
use snerd_rust.RateLimiter.{Codec}
use snerd_rust.Queue.Run.{
  Engine, Step, takes_hash, stores, schedules, pops_task, finds_none, dispatches, gives_up,
  finishes, sweeps, compacts, Steps, done, after,
}
use snerd_rust.Queue.Run.Sound.{AllPrintable, HeapsPrintable}

module _ {x : Externals} (serde : Serde x) (codec : Codec) where
  -- The store can be recovered, and every task that the engine has can be printed.
  pub record IsRecoverable (e : Engine x codec) : Type 0 where
    pub sound : IsSound serde e.queue.file_store
    pub heaps : HeapsPrintable x e.queue.shared_pqs
    pub in_hand : All (λ (h : String × Task x). is_printable x h.1 ≡ true) e.in_hand
    pub running : All (λ (h : String × Task x). is_printable x h.1 ≡ true) e.running

  -- The syncs of the log succeed, no write of a line ends half-way, and the tasks that come in can be
  -- printed.
  unfoldable pub IsOrdinary : {a b : Engine x codec} → Step serde codec a b → Type 0
  IsOrdinary (takes_hash t e) = Unit
  IsOrdinary (stores faults metadata t e) =
      (faults.sync ≡ false) × ((line : String) → faults.torn line ≡ "") × (is_printable x t ≡ true)
  IsOrdinary (schedules now tasks e) = AllPrintable x tasks
  IsOrdinary (pops_task pool t q e popped) = Unit
  IsOrdinary (finds_none pool q e found) = Unit
  IsOrdinary (dispatches limiter faults metadata clock pool t hs ks running q) =
      (faults.sync ≡ false) × ((line : String) → faults.torn line ≡ "")
  IsOrdinary (gives_up pool t in_hand hs ks q completed) = Unit
  IsOrdinary (finishes faults metadata clock instant result pool t in_hand hs ks q) =
      ((i : ℕ) → (faults i).sync ≡ false) × ((i : ℕ) (line : String) → (faults i).torn line ≡ "")
  IsOrdinary (sweeps now ttl e) = Unit
  IsOrdinary (compacts faults clock e) = Unit

  unfoldable pub AreOrdinary : {a b : Engine x codec} → Steps serde codec a b → Type 0
  unfolding IsOrdinary
  AreOrdinary (done e) = Unit
  AreOrdinary (after a b c steps step) = AreOrdinary steps × IsOrdinary step
