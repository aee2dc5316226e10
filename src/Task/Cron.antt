-- ===== src/Task/Cron.antt =====
-- `parse_cron_syntax` of src/task.rs, with the parts of `str` that it uses.
pub mod Shorthand
use Prim.Native.Char.{Char, code}
use Prim.Native.String.{◌++◌ as ◌<>◌}
use snerd_rust.Base.{
  ℕ, ◌+◌, ◌-◌, ◌*◌, ◌^◌, String, Bool, true, false, ◌&&◌, ◌||◌, Option, none, some, if◌then◌else◌,
  ltb, leb, ◌==◌, decimal, parse_digits,
}

-- `char::is_whitespace`: the characters of Unicode with the property White_Space.
unfoldable pub is_whitespace : Char → Bool
is_whitespace ch =
    let c = code ch in
    leb 9 c && leb c 13
    || c == 32
    || c == 133
    || c == 160
    || c == 5760
    || leb 8192 c && leb c 8202
    || c == 8232
    || c == 8233
    || c == 8239
    || c == 8287
    || c == 12288

unfoldable pub is_empty : String → Bool
is_empty String.[] = true
is_empty (String.◌∷◌ c s) = false

unfoldable pub trim_start : String → String
trim_start String.[] = String.[]
trim_start (String.◌∷◌ c s) =
    let rest = trim_start s in if is_whitespace c then rest else String.◌∷◌ c s

trim_end : String → String
trim_end String.[] = String.[]
trim_end (String.◌∷◌ c s) =
    let rest = trim_end s in
    if is_whitespace c && is_empty rest then String.[] else String.◌∷◌ c rest

unfoldable pub trim : String → String
unfolding is_whitespace is_empty trim_start trim_end
trim s = trim_end (trim_start s)

-- `strip_suffix` of one character, given by its code.
unfoldable pub strip_suffix : ℕ → String → Option String
strip_suffix unit String.[] = none
strip_suffix unit (String.◌∷◌ c String.[]) = if code c == unit then some String.[] else none
strip_suffix unit (String.◌∷◌ c (String.◌∷◌ d s)) = elim (strip_suffix unit (String.◌∷◌ d s)) [
  | none ↦ none
  | some rest ↦ some (String.◌∷◌ c rest)
]

-- `parse::<u32>`: one leading `+` is allowed before a digit, and 2^32 or more is an overflow.
unfoldable pub parse_u32 : String → Option ℕ
unfolding parse_digits
parse_u32 String.[] = none
parse_u32 (String.◌∷◌ c String.[]) = parse_digits (2 ^ 32) 0 (String.◌∷◌ c String.[])
parse_u32 (String.◌∷◌ c (String.◌∷◌ d s)) =
    if code c == b'+'
    then parse_digits (2 ^ 32) 0 (String.◌∷◌ d s)
    else parse_digits (2 ^ 32) 0 (String.◌∷◌ c (String.◌∷◌ d s))

-- A part begins at a character that is no space, after a space or at the start.
begins : Bool → Char → Bool
begins inside c = if inside then false else if is_whitespace c then false else true

-- How many parts `split_whitespace` gives; `inside` says that a part has begun.
count_parts : Bool → String → ℕ
count_parts inside String.[] = 0
count_parts inside (String.◌∷◌ c s) =
    (if begins inside c then 1 else 0) + count_parts (if is_whitespace c then false else true) s

-- The number before a unit.
unfoldable pub shorthand : ℕ → String → Option ℕ
unfolding strip_suffix parse_u32
shorthand unit input = elim (strip_suffix unit input) [ none ↦ none | some val ↦ parse_u32 val ]

-- What is no shorthand: five and six fields are completed to seven.
complete_fields : String → String
unfolding count_parts begins is_whitespace
complete_fields input =
    let parts = count_parts false input in
    if parts == 5 then "0 " <> (input <> " *") else if parts == 6 then input <> " *" else input

unfoldable pub parse_trimmed : String → String
unfolding shorthand complete_fields
parse_trimmed input = elim (shorthand b's' input) [
  | some num ↦ "*/" <> (decimal num <> " * * * * *")
  | none ↦ elim (shorthand b'm' input) [
    | some num ↦ "0 */" <> (decimal num <> " * * * *")
    | none ↦ elim (shorthand b'h' input) [
      | some num ↦ "0 0 */" <> (decimal num <> " * * *")
      | none ↦ elim (shorthand b'd' input) [
        | some num ↦ "0 0 0 */" <> (decimal num <> " * *")
        | none ↦ complete_fields input
      ]
    ]
  ]
]

unfoldable pub parse_cron_syntax : String → String
unfolding trim parse_trimmed
parse_cron_syntax input = parse_trimmed (trim input)
