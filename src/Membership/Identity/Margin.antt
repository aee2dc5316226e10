-- ===== src/Membership/Identity/Margin.antt =====
-- The skew margin for every number that the variable may hold (src/membership.rs).
use Prim.Native.Char.{Char}
use Prim.Native.String.{◌++◌ as ◌<>◌}
use Prim.Native.String.append
use mathlib.Core.Path.{subst}
use snerd_rust.Base.{
  ℕ, ◌+◌, ◌*◌, ◌^◌, ◌≡◌, refl, ap, sym, ◌∙◌, String, none, some, arith, decimal, parse_digits,
  if◌then◌else◌, leb, ltb, ltb→lt, Bool-cases, inl, inr,
}
use snerd_rust.Base.Decimal.RoundTrip.{
  Chars, IsDigit, decimal-Chars, decimal-cons, parse_digits-decimal, decimal_overflow,
}
use snerd_rust.Membership.{second}
use snerd_rust.Membership.Identity.{parse_i64, positive, negative, max_seconds, skew_margin_from}

parse_i64-digits :
    (c : Char) (s : String)
    → Chars IsDigit (String.◌∷◌ c s)
    → parse_i64 (String.◌∷◌ c s) ≡ positive (parse_digits (2 ^ 63) 0 (String.◌∷◌ c s))
unfolding parse_i64
parse_i64-digits c String.[] h = refl
parse_i64-digits c (String.◌∷◌ d s) (h, hs) = ground arith

parse_i64-decimal : (n : ℕ) → parse_i64 (decimal n) ≡ positive (parse_digits (2 ^ 63) 0 (decimal n))
parse_i64-decimal n =
    let (c, s, e) = decimal-cons n in
    ap parse_i64 e
    ∙ parse_i64-digits c s (subst (Chars IsDigit) e (decimal-Chars n))
    ∙ ap (λ v. positive (parse_digits (2 ^ 63) 0 v)) (sym e)

-- A minus sign before a number.
parse_i64-minus :
    (n : ℕ) → parse_i64 ("-" <> decimal n) ≡ negative (parse_digits (2 ^ 63 + 1) 0 (decimal n))
unfolding parse_i64
parse_i64-minus n =
    let (c, s, e) = decimal-cons n in
    ap parse_i64 (append.cons "-" "" (decimal n) ∙ ap (String.◌∷◌ "-") (append.nil (decimal n) ∙ e))
    ∙ ap (λ v. negative (parse_digits (2 ^ 63 + 1) 0 v)) (sym e)

-- The margin that `SNERD_CLOCK_SKEW_MARGIN` sets: a number of seconds counts as it stands, up to the
-- most that a `Duration` holds; beyond that the call panics, and beyond `i64` the default of
-- five seconds counts, as it does where the variable is not set. A negative number in `i64`
-- counts as no margin.
pub skew_margin_from-decimal :
    (n : ℕ)
    → (skew_margin_from none ≡ some (5 * second))
      × (skew_margin_from (some (decimal n)) ≡ (
          if leb n max_seconds
          then some (n * second)
          else if ltb n (2 ^ 63)
          then none
          else some (5 * second)))
      × (skew_margin_from (some ("-" <> decimal n))
          ≡ (if leb n (2 ^ 63) then some 0 else some (5 * second)))
unfolding skew_margin_from positive negative
skew_margin_from-decimal n = (
  refl,
  elim (Bool-cases (ltb n (2 ^ 63))) [
    | inl fits ↦
        ground (arith, parse_i64-decimal n, parse_digits-decimal (2 ^ 63) n (ltb→lt _ _ fits))
    | inr over ↦ ground (arith, parse_i64-decimal n, decimal_overflow (2 ^ 63) n (ground arith))
  ],
  elim (Bool-cases (ltb n (2 ^ 63 + 1))) [
    | inl fits ↦
        ground (arith, parse_i64-minus n, parse_digits-decimal (2 ^ 63 + 1) n (ltb→lt _ _ fits))
    | inr over ↦ ground (arith, parse_i64-minus n, decimal_overflow (2 ^ 63 + 1) n (ground arith))
  ],
)
