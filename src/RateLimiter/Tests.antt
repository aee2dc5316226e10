-- ===== src/RateLimiter/Tests.antt =====
-- Runs of the model of src/rate_limiter.rs, and its theorems at concrete inputs.
use Prim.Native.Nat.{min}
use snerd_rust.Base.{
  ℕ, ◌*◌, ◌≡◌, refl, String, false, Option, none, some, List, [], ◌∷◌, arith, eq_iff, All, pos,
  Table, lookup, insert, ◌+ℤ◌,
}
use snerd_rust.Membership.{second}
use snerd_rust.RateLimiter.{
  RateWindow, Codec, Faults, current_window, decide, read_limits, serialize, check_and_increment,
}
use snerd_rust.RateLimiter.Window.{
  IsCalm, Prints, Request, requests_of, InWindow, HasWindow, Stale, absent, allowed,
  allowed_from_stale,
}

program : Unit {0}
unfolding check_and_increment read_limits serialize decide current_window lookup insert ◌+ℤ◌ allowed
    requests_of
program = tt

printed :
    (t : Table RateWindow) (raw : Option (Table RateWindow))
    → ◌≡◌ {A = Option (Option (Table RateWindow))} (some (some t)) (some raw)
    → raw ≡ some t
printed t raw e = cc e

-- A file is a table, or empty.
abbrev codec : Codec
codec = record {
  Raw = Option (Table RateWindow);
  empty = none;
  to_json = λ t. some (some t);
  from_json = λ raw. raw;
  parse-print = printed;
  parse-empty = refl;
}

abbrev calm : Faults (Option (Table RateWindow))
calm = record {
  create_dir = false;
  open_file = false;
  lock = false;
  read = false;
  set_len = false;
  seek = false;
  write = false;
  sync = false;
  unlock = false;
  torn = none;
}

calm-IsCalm : IsCalm calm
calm-IsCalm = record {
  create_dir = refl;
  open_file = refl;
  lock = refl;
  read = refl;
  set_len = refl;
  seek = refl;
  write = refl;
  sync = refl;
  unlock = refl;
}

prints : Prints codec
prints t = (some t, refl)

abbrev request : String → ℕ → ℕ → Request
request group limit now = record { group = group; limit = pos limit; now = now }

abbrev minute : List Request
minute = request "b" 1 (5 * second) ∷ request "a" 2 (10 * second) ∷ request "a" 2 (20 * second) ∷ []

inside : (start : ℕ) → start ≡ second → All (InWindow "a" 2 start) minute
inside start e = (
  λ same. absurd (ground (arith, eq_iff "b" "a")),
  (λ _. (refl, omega arith), (λ _. (refl, omega arith), tt)),
)

abbrev one_used : Table RateWindow
one_used = ("a", record { count = pos 1; window_start = second }) ∷ []

one_used-HasWindow : HasWindow "a" 1 second one_used
unfolding program
one_used-HasWindow = refl

no_window : Stale "a" second (read_limits codec calm none)
unfolding program read_limits
no_window = absent refl

-- There is no file.
allowed_from_stale_example :
    allowed codec calm calm-IsCalm prints "a" (request "a" 2 second ∷ minute) none
    ≡ min (requests_of "a" (request "a" 2 second ∷ minute)) 2
allowed_from_stale_example =
    allowed_from_stale codec calm calm-IsCalm prints "a" (request "a" 2 second) minute none 2 refl
      refl no_window (inside second refl)

two_of_three : allowed codec calm calm-IsCalm prints "a" (request "a" 2 second ∷ minute) none ≡ 2
unfolding program
two_of_three = refl
