-- ===== src/RateLimiter.antt =====
-- src/rate_limiter.rs: fixed windows of a minute, one for each group, in one JSON line of a file.
pub mod Window
pub mod Location
mod Tests
use snerd_rust.Base.{
  ℕ, ◌-◌, ◌/◌, ◌≡◌, String, Bool, true, false, ◌||◌, str_eq, Option, none, some, List, [], ◌∷◌,
  if◌then◌else◌, leb, ℤ, pos, ◌+ℤ◌, ltb_ℤ, Table, lookup, insert, Result, ok, err, Exec, pure, lift,
  gets, puts, fails_if, ◌>>=◌, ◌>>◌,
}
use snerd_rust.Membership.{second}

pub record RateWindow : Type 0 where
  pub count : ℤ
  pub window_start : ℕ

-- A path by its components, the last first.
abbrev pub FilePath : Type 0
FilePath = List String

-- `PathBuf::set_file_name`: the last component is replaced if it is a name.
unfoldable pub set_file_name : String → FilePath → FilePath
set_file_name name [] = name ∷ []
set_file_name name (last ∷ parent) =
    if str_eq last ".." || str_eq last "." || str_eq last "/"
    then name ∷ last ∷ parent
    else name ∷ parent

-- The file of `RateLimiter::new`.
unfoldable pub limits_path : FilePath → FilePath
unfolding set_file_name
limits_path tasks_path = set_file_name "rate_limits.json" tasks_path

-- serde_json on the table of windows. A file that is absent or has no first line reads as `empty`.
pub record Codec : Type 1 where
  pub Raw : Type 0
  pub empty : Raw
  pub to_json : Table RateWindow → Option Raw
  pub from_json : Raw → Option (Table RateWindow)
  pub parse-print :
      (t : Table RateWindow) (raw : Raw) → to_json t ≡ some raw → from_json raw ≡ some t
  pub parse-empty : from_json empty ≡ none

-- The calls of the operating system that fail in one run, and what a failing `writeln!` leaves.
pub record Faults (Raw : Type 0) : Type 0 where
  pub create_dir : Bool
  pub open_file : Bool
  pub lock : Bool
  pub read : Bool
  pub set_len : Bool
  pub seek : Bool
  pub write : Bool
  pub sync : Bool
  pub unlock : Bool
  pub torn : Raw

pub data IoError : Type 0 where
  io : IoError

-- `limits.entry(group).or_insert(…)`, then the reset of a window that is a minute old.
unfoldable pub current_window : Table RateWindow → String → ℕ → RateWindow
current_window limits group now = elim (lookup group limits) [
  | none ↦ record { count = pos 0; window_start = now }
  | some window ↦
      if leb 60 ((now - window.window_start) / second)
      then record { count = pos 0; window_start = now }
      else window
]

-- The decision, and the table that is written back.
unfoldable pub decide : Table RateWindow → String → ℤ → ℕ → Bool × Table RateWindow
decide limits group limit now =
    let window = current_window limits group now in
    if ltb_ℤ window.count limit
    then (true, insert group (record window { count = window.count +ℤ pos 1 }) limits)
    else (false, insert group window limits)

module _ (codec : Codec) (faults : Faults codec.Raw) where
  open codec use {Raw, empty, to_json, from_json}

  abbrev M : Type 0 → Type 0
  M A = Exec Raw IoError A

  -- A line that cannot be read or parsed counts as an empty table.
  unfoldable pub read_limits : Raw → Table RateWindow
  read_limits line =
      if faults.read then [] else elim (from_json line) [ none ↦ [] | some parsed ↦ parsed ]

  unfoldable pub serialize : Table RateWindow → Result IoError Raw
  serialize limits = elim (to_json limits) [ none ↦ err io | some out ↦ ok out ]

  -- The state is the content of `rate_limits.json`; the run holds its exclusive lock throughout.
  unfoldable pub check_and_increment : String → ℤ → ℕ → M Bool
  unfolding read_limits serialize
  check_and_increment group limit now = do
    fails_if faults.create_dir io
    fails_if faults.open_file io
    fails_if faults.lock io
    limits ← gets read_limits
    let (allow, limits') = decide limits group limit now
    fails_if faults.set_len io
    puts (λ _. empty)
    fails_if faults.seek io
    out ← lift (serialize limits')
    puts (λ _. if faults.write then faults.torn else out)
    fails_if faults.write io
    fails_if faults.sync io
    fails_if faults.unlock io
    pure allow
