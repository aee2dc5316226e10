-- ===== src/Dashboard/Ring.antt =====
-- The progress events of src/dashboard.rs: the thread that feeds the ring, and what is shown of it.
pub mod Latest
use snerd_rust.Base.{ℕ, ◌-◌, String, List, [], ◌∷◌, ◌++◌, if◌then◌else◌, ltb, length}

-- `RING_CAP`
abbrev pub ring_cap : ℕ
ring_cap = 500

module _ {A : Type 0} where
  unfoldable pub skip : ℕ → List A → List A
  skip n [] = []
  skip n (a ∷ xs) = let rest = skip (n - 1) xs in if ltb 0 n then rest else a ∷ xs

  -- An event enters the ring; the oldest leaves it where it is full.
  unfoldable pub push_event : A → List A → List A
  unfolding skip
  push_event ev ring = let r = ring ++ ev ∷ [] in if ltb ring_cap (length r) then skip 1 r else r

  unfoldable pub push_events : List A → List A → List A
  unfolding push_event
  push_events [] ring = ring
  push_events (ev ∷ evs) ring = push_events evs (push_event ev ring)

  -- The last hundred events.
  unfoldable pub progress_body : List A → List A
  unfolding skip
  progress_body ring = skip (length ring - 100) ring

pub record ProgressMessage : Type 0 where
  pub task_id : String
  pub text : String

pub record ProgressEvent (F64 : Type 0) : Type 0 where
  pub ts : F64
  pub task_id : String
  pub text : String

-- What the broadcast channel gives, a message with the time of its arrival.
pub data Received (F64 : Type 0) : Type 0 where
  message : F64 → ProgressMessage → Received F64
  lagged closed : Received F64

module _ {F64 : Type 0} where
  unfoldable pub event_of : F64 → ProgressMessage → ProgressEvent F64
  event_of now msg = record { ts = now; task_id = msg.task_id; text = msg.text }

  -- The loop of the feeder thread.
  unfoldable pub feed : List (Received F64) → List (ProgressEvent F64) → List (ProgressEvent F64)
  unfolding event_of push_event
  feed [] ring = ring
  feed (message now msg ∷ inputs) ring = feed inputs (push_event (event_of now msg) ring)
  feed (lagged ∷ inputs) ring = feed inputs ring
  feed (closed ∷ inputs) ring = ring
