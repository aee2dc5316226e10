-- ===== src/Membership/Identity.antt =====
-- The identity of a daemon and the skew margin that it is configured with (src/membership.rs).
pub mod Unique
pub mod Margin
use Prim.Native.Char.{code}
use Prim.Native.String.{◌++◌ as ◌<>◌}
use snerd_rust.Base.{
  ℕ, ◌+◌, ◌-◌, ◌*◌, ◌/◌, ◌^◌, String, Bool, Option, none, some, if◌then◌else◌, leb, ◌==◌, ℤ, pos,
  negsuc, decimal, parse_digits,
}
use snerd_rust.Membership.{second}

-- `HOSTNAME`, then `COMPUTERNAME`; a variable that is not set, or no Unicode, is `none`.
unfoldable pub host_name : Option String → Option String → String
host_name (some host) computer = host
host_name none (some computer) = computer
host_name none none = "unknown-host"

unfoldable pub owner_id : Option String → Option String → ℕ → String
unfolding host_name
owner_id host computer pid = (host_name host computer <> "@pid") <> ("-" <> decimal pid)

-- The negative number with these digits, which may be -2^63.
unfoldable pub negative : Option ℕ → Option ℤ
negative none = none
negative (some n) = some (if n == 0 then pos 0 else negsuc (n - 1))

unfoldable pub positive : Option ℕ → Option ℤ
positive none = none
positive (some n) = some (pos n)

-- `parse::<i64>`: a sign is allowed before a digit.
unfoldable pub parse_i64 : String → Option ℤ
unfolding negative positive
parse_i64 String.[] = none
parse_i64 (String.◌∷◌ c String.[]) = positive (parse_digits (2 ^ 63) 0 (String.◌∷◌ c String.[]))
parse_i64 (String.◌∷◌ c (String.◌∷◌ d s)) =
    if code c == b'+'
    then positive (parse_digits (2 ^ 63) 0 (String.◌∷◌ d s))
    else if code c == b'-'
    then negative (parse_digits (2 ^ 63 + 1) 0 (String.◌∷◌ d s))
    else positive (parse_digits (2 ^ 63) 0 (String.◌∷◌ c (String.◌∷◌ d s)))

-- `DEFAULT_SKEW_MARGIN_SECS`
abbrev pub default_skew_margin_secs : ℤ
default_skew_margin_secs = pos 5

unfoldable pub secs_or_default : Option ℤ → ℤ
secs_or_default none = default_skew_margin_secs
secs_or_default (some secs) = secs

-- `i64::MAX / 1000`, the most seconds of a chrono `Duration`.
abbrev pub max_seconds : ℕ
max_seconds = (2 ^ 63 - 1) / 1000

-- `Duration::seconds(secs.max(0))`, in nanoseconds; `none` is chrono's panic.
unfoldable pub margin : ℤ → Option ℕ
margin (negsuc n) = some 0
margin (pos n) = if leb n max_seconds then some (n * second) else none

unfoldable pub skew_margin_from : Option String → Option ℕ
unfolding secs_or_default margin
skew_margin_from none = margin default_skew_margin_secs
skew_margin_from (some v) = margin (secs_or_default (parse_i64 v))
