-- ===== src/Task/Cron/Shorthand.antt =====
-- The shorthands of `parse_cron_syntax` (src/task.rs): a number with a unit.
use Prim.Native.Char.{Char, code}
use Prim.Native.String.{◌++◌ as ◌<>◌}
use Prim.Native.String.append
use mathlib.Core.Path.{subst}
use snerd_rust.Base.{
  ℕ, ◌^◌, ◌≡◌, ◌<◌, refl, ap, sym, ◌∙◌, String, true, false, none, some, if◌then◌else◌, ◌==◌, arith,
  decimal, parse_digits,
}
use snerd_rust.Base.Decimal.RoundTrip.{
  Chars, Chars-append, IsDigit, decimal-Chars, decimal-cons, parse_digits-decimal,
}
use snerd_rust.Task.Cron.{
  is_whitespace, is_empty, trim_start, trim_end, trim, strip_suffix, parse_u32, shorthand,
  parse_trimmed, parse_cron_syntax,
}

abbrev pub IsSpace : Char → Type 0
IsSpace c = is_whitespace c ≡ true

abbrev IsDark : Char → Type 0
IsDark c = is_whitespace c ≡ false

trim_start-append : (w s : String) → Chars IsSpace w → trim_start (w <> s) ≡ trim_start s
unfolding trim_start
trim_start-append String.[] s h = ap trim_start (append.nil s)
trim_start-append (String.◌∷◌ c w) s (h, hs) = rw (append.cons c w s, h) (trim_start-append w s hs)

trim_end-space : (w : String) → Chars IsSpace w → trim_end w ≡ ""
unfolding trim_end is_empty
trim_end-space String.[] h = refl
trim_end-space (String.◌∷◌ c w) (h, hs) = rw (trim_end-space w hs, h) refl

trim_end-append : (s w : String) → Chars IsDark s → Chars IsSpace w → trim_end (s <> w) ≡ s
unfolding trim_end
trim_end-append String.[] w h k = rw (append.nil w) (trim_end-space w k)
trim_end-append (String.◌∷◌ c s) w (h, hs) k =
    rw (append.cons c s w, h, trim_end-append s w hs k) refl

-- A text without white space is what is left of it with white space around.
trim-padded :
    (before after : String) (c : Char) (s : String)
    → Chars IsSpace before
    → Chars IsSpace after
    → Chars IsDark (String.◌∷◌ c s)
    → trim (before <> (String.◌∷◌ c s <> after)) ≡ String.◌∷◌ c s
unfolding trim trim_start
trim-padded before after c s h k dark =
    ap trim_end {y = String.◌∷◌ c s <> after} (
      trim_start-append before (String.◌∷◌ c s <> after) h
      ∙ rw (append.cons c s after, dark.0) refl)
    ∙ trim_end-append (String.◌∷◌ c s) after dark k

digit-IsDark : (s : String) → Chars IsDigit s → Chars IsDark s
unfolding is_whitespace
digit-IsDark String.[] h = tt
digit-IsDark (String.◌∷◌ c s) (h, hs) = (ground arith, digit-IsDark s hs)

-- The last character is the unit or not.
strip_suffix-append :
    (unit : ℕ) (s : String) (c : Char)
    → strip_suffix unit (s <> String.◌∷◌ c "") ≡ (if code c == unit then some s else none)
unfolding strip_suffix
strip_suffix-append unit String.[] c = ap (strip_suffix unit) (append.nil (String.◌∷◌ c ""))
strip_suffix-append unit (String.◌∷◌ d String.[]) c =
    ap (strip_suffix unit)
      (append.cons d "" (String.◌∷◌ c "") ∙ ap (String.◌∷◌ d) (append.nil (String.◌∷◌ c "")))
    ∙ ground arith
strip_suffix-append unit (String.◌∷◌ d (String.◌∷◌ e s)) c =
    let rest = s <> String.◌∷◌ c "" in
    let split = append.cons e s (String.◌∷◌ c "") in
    let shorter = strip_suffix-append unit (String.◌∷◌ e s) c in
    ap (strip_suffix unit)
      (append.cons d (String.◌∷◌ e s) (String.◌∷◌ c "") ∙ ap (String.◌∷◌ d) split)
    ∙ ground (arith, split, shorter)

parse_u32-digits :
    (c : Char) (s : String)
    → Chars IsDigit (String.◌∷◌ c s)
    → parse_u32 (String.◌∷◌ c s) ≡ parse_digits (2 ^ 32) 0 (String.◌∷◌ c s)
unfolding parse_u32
parse_u32-digits c String.[] h = refl
parse_u32-digits c (String.◌∷◌ d s) (h, hs) = ground arith

parse_u32-decimal : (n : ℕ) → n < 2 ^ 32 → parse_u32 (decimal n) ≡ some n
parse_u32-decimal n fits =
    let (c, s, e) = decimal-cons n in
    let digits = decimal-Chars n in
    ap parse_u32 e
    ∙ parse_u32-digits c s (subst (Chars IsDigit) e digits)
    ∙ ap (parse_digits (2 ^ 32) 0) (sym e)
    ∙ parse_digits-decimal (2 ^ 32) n fits

shorthand-decimal :
    (unit n : ℕ) (c : Char)
    → n < 2 ^ 32
    → shorthand unit (decimal n <> String.◌∷◌ c "") ≡ (if code c == unit then some n else none)
unfolding shorthand
shorthand-decimal unit n c fits =
    ground (arith, strip_suffix-append unit (decimal n) c, parse_u32-decimal n fits)

-- The trimmed text of a shorthand.
trim-shorthand :
    (before after : String) (n : ℕ) (c : Char)
    → Chars IsSpace before
    → Chars IsSpace after
    → IsDark c
    → trim (before <> ((decimal n <> String.◌∷◌ c "") <> after)) ≡ decimal n <> String.◌∷◌ c ""
trim-shorthand before after n c h k dark =
    let (d, s, e) = decimal-cons n in
    let text = ap (λ v. v <> String.◌∷◌ c "") e ∙ append.cons d s (String.◌∷◌ c "") in
    let no_space =
      Chars-append IsDark (decimal n) (String.◌∷◌ c "") (digit-IsDark (decimal n) (decimal-Chars n))
        (dark, tt) in
    ap (λ v. trim (before <> (v <> after))) text
    ∙ trim-padded before after d (s <> String.◌∷◌ c "") h k (subst (Chars IsDark) text no_space)
    ∙ sym text

-- A number below 2^32 with the unit `s`, `m`, `h` or `d`, in decimal and with any white space around it, is
-- read as that number of seconds, minutes, hours or days, and expanded to the fields of cron.
pub parse_cron_syntax_shorthand :
    (before after : String) (n : ℕ)
    → Chars IsSpace before
    → Chars IsSpace after
    → n < 2 ^ 32
    → (parse_cron_syntax (before <> ((decimal n <> "s") <> after))
        ≡ "*/" <> (decimal n <> " * * * * *"))
      × (parse_cron_syntax (before <> ((decimal n <> "m") <> after))
          ≡ "0 */" <> (decimal n <> " * * * *"))
      × (parse_cron_syntax (before <> ((decimal n <> "h") <> after))
          ≡ "0 0 */" <> (decimal n <> " * * *"))
      × (parse_cron_syntax (before <> ((decimal n <> "d") <> after))
          ≡ "0 0 0 */" <> (decimal n <> " * *"))
unfolding parse_cron_syntax parse_trimmed is_whitespace
parse_cron_syntax_shorthand before after n h k fits = (
  ap parse_trimmed (trim-shorthand before after n "s" h k refl)
      ∙ ground (arith, shorthand-decimal b's' n "s" fits),
  ap parse_trimmed (trim-shorthand before after n "m" h k refl)
      ∙ ground (arith, shorthand-decimal b's' n "m" fits, shorthand-decimal b'm' n "m" fits),
  ap parse_trimmed (trim-shorthand before after n "h" h k refl)
      ∙ ground (
        arith,
        shorthand-decimal b's' n "h" fits,
        shorthand-decimal b'm' n "h" fits,
        shorthand-decimal b'h' n "h" fits,
      ),
  ap parse_trimmed (trim-shorthand before after n "d" h k refl)
      ∙ ground (
        arith,
        shorthand-decimal b's' n "d" fits,
        shorthand-decimal b'm' n "d" fits,
        shorthand-decimal b'h' n "d" fits,
        shorthand-decimal b'd' n "d" fits,
      ),
)
