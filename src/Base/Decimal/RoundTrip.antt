-- ===== src/Base/Decimal/RoundTrip.antt =====
-- Texts of digits: what `decimal` prints is read back.
use Prim.Native.Nat.{ℕ, zero, suc, ◌+◌, ◌-◌, ◌*◌, ◌/◌, ◌%◌, ◌<◌, ◌≤◌}
use Prim.Native.Char.{Char, code}
use Prim.Native.String.{String, ◌++◌}
use Prim.Native.String.append
use mathlib.Core.Path.{◌≡◌, refl, ◌∙◌, ap, sym}
use mathlib.Core.Option.{none, some}
use mathlib.Core.Logic.{inl, inr}
use native.Mathlib.Omega.{arith}
use snerd_rust.Base.Tests.{ltb, Bool-cases}
use snerd_rust.Base.Decimal.{digit, digits, decimal, parse_digits}

-- The predicate holds of every character.
abbrev pub Chars : (Char → Type 0) → String → Type 0
Chars P String.[] = Unit
Chars P (String.◌∷◌ c s) = P c × Chars P s

pub Chars-append : (P : Char → Type 0) (s t : String) → Chars P s → Chars P t → Chars P (s ++ t)
Chars-append P String.[] t h k = rw (append.nil t) k
Chars-append P (String.◌∷◌ c s) t (h, hs) k = rw (append.cons c s t) (h, Chars-append P s t hs k)

abbrev pub IsDigit : Char → Type 0
IsDigit c = (48 ≤ code c) × (code c ≤ 57)

parse_digits-append :
    (limit n v : ℕ) (s t : String)
    → parse_digits limit n s ≡ some v
    → parse_digits limit n (s ++ t) ≡ parse_digits limit v t
unfolding parse_digits
parse_digits-append limit n v String.[] t h = ground (arith, append.nil t)
parse_digits-append limit n v (String.◌∷◌ c s) t h =
    ground (arith, append.cons c s t, parse_digits-append limit (n * 10 + (code c - 48)) v s t)

-- What holds of the ten digits holds of every number below ten.
below_ten :
    (P : ℕ → Type 0)
    → P 0 × P 1 × P 2 × P 3 × P 4 × P 5 × P 6 × P 7 × P 8 × P 9
    → (d : ℕ) → d < 10
    → P d
below_ten P h zero lt = h.0
below_ten P h (suc zero) lt = h.1
below_ten P h (suc (suc zero)) lt = h.2
below_ten P h (suc (suc (suc zero))) lt = h.3
below_ten P h (suc (suc (suc (suc zero)))) lt = h.4
below_ten P h (suc (suc (suc (suc (suc zero))))) lt = h.5
below_ten P h (suc (suc (suc (suc (suc (suc zero)))))) lt = h.6
below_ten P h (suc (suc (suc (suc (suc (suc (suc zero))))))) lt = h.7
below_ten P h (suc (suc (suc (suc (suc (suc (suc (suc zero)))))))) lt = h.8
below_ten P h (suc (suc (suc (suc (suc (suc (suc (suc (suc zero))))))))) lt = h.9
below_ten P h (suc (suc (suc (suc (suc (suc (suc (suc (suc (suc d)))))))))) lt =
    absurd (omega arith)

-- A digit is one character, with the code that it should have.
digit_char : (d : ℕ) → d < 10 → (c : Char) × (digit d ≡ String.◌∷◌ c "") × (code c ≡ 48 + d)
unfolding digit
digit_char =
    below_ten (λ d. (c : Char) × (digit d ≡ String.◌∷◌ c "") × (code c ≡ 48 + d))
      (
        ("0", refl, refl),
        ("1", refl, refl),
        ("2", refl, refl),
        ("3", refl, refl),
        ("4", refl, refl),
        ("5", refl, refl),
        ("6", refl, refl),
        ("7", refl, refl),
        ("8", refl, refl),
        ("9", refl, refl),
      )

parse_digits-digit :
    (limit n d : ℕ)
    → d < 10
    → n * 10 + d < limit
    → parse_digits limit n (digit d) ≡ some (n * 10 + d)
unfolding parse_digits
parse_digits-digit limit n d h fits = let (c, one, value) = digit_char d h in rw one (ground arith)

digit-Chars : (d : ℕ) → d < 10 → Chars IsDigit (digit d)
digit-Chars d h = let (c, one, value) = digit_char d h in rw one (omega arith)

parse_digits-digits :
    (limit r n : ℕ) → n < r → n < limit → parse_digits limit 0 (digits r n) ≡ some n
unfolding digits
parse_digits-digits limit zero n h fits = elim h [ ]
parse_digits-digits limit (suc r) n h fits = elim (Bool-cases (ltb n 10)) [
  | inl small ↦
      rw small (parse_digits-digit limit 0 n (ground arith) (omega arith) ∙ ap some (omega arith))
  | inr large ↦ rw large (
      parse_digits-append limit 0 (n / 10) (digits r (n / 10)) (digit (n % 10))
        (parse_digits-digits limit r (n / 10) (ground arith) (omega arith))
      ∙ parse_digits-digit limit (n / 10) (n % 10) (omega arith) (omega arith)
      ∙ ap some (omega arith))
]

digits-Chars : (r n : ℕ) → Chars IsDigit (digits r n)
unfolding digits
digits-Chars zero n = tt
digits-Chars (suc r) n = elim (Bool-cases (ltb n 10)) [
  | inl small ↦ rw small (digit-Chars n (ground arith))
  | inr large ↦ rw large (
      Chars-append IsDigit (digits r (n / 10)) (digit (n % 10)) (digits-Chars r (n / 10))
        (digit-Chars (n % 10) (omega arith)))
]

pub decimal-Chars : (n : ℕ) → Chars IsDigit (decimal n)
unfolding decimal
decimal-Chars n = digits-Chars (suc n) n

pub parse_digits-decimal : (limit n : ℕ) → n < limit → parse_digits limit 0 (decimal n) ≡ some n
unfolding decimal
parse_digits-decimal limit n fits = parse_digits-digits limit (suc n) n (omega arith) fits

digits-cons : (r n : ℕ) → n < r → (c : Char) × (s : String) × (digits r n ≡ String.◌∷◌ c s)
unfolding digits
digits-cons zero n h = elim h [ ]
digits-cons (suc r) n h = elim (Bool-cases (ltb n 10)) [
  | inl small ↦ let (c, one, value) = digit_char n (ground arith) in (c, "", rw small one)
  | inr large ↦
      let (c, s, e) = digits-cons r (n / 10) (ground arith) in
      (c, s ++ digit (n % 10), rw (large, e) (append.cons c s (digit (n % 10))))
]

-- A number has at least one digit.
pub decimal-cons : (n : ℕ) → (c : Char) × (s : String) × (decimal n ≡ String.◌∷◌ c s)
unfolding decimal
decimal-cons n = digits-cons (suc n) n (omega arith)

-- Two numbers that are printed alike are the same.
pub decimal-injective : (m n : ℕ) → decimal m ≡ decimal n → m ≡ n
decimal-injective m n e =
    let limit = suc (m + n) in
    let same : some m ≡ some n =
      sym (parse_digits-decimal limit m (omega arith))
      ∙ ap (parse_digits limit 0) e
      ∙ parse_digits-decimal limit n (omega arith) in
    cc same

parse_digits-none :
    (limit n : ℕ) (s t : String)
    → parse_digits limit n s ≡ none
    → parse_digits limit n (s ++ t) ≡ none
unfolding parse_digits
parse_digits-none limit n String.[] t h = absurd (cc h)
parse_digits-none limit n (String.◌∷◌ c s) t h =
    ground (arith, append.cons c s t, parse_digits-none limit (n * 10 + (code c - 48)) s t)

digit_overflow :
    (limit n d : ℕ) → d < 10 → limit ≤ n * 10 + d → parse_digits limit n (digit d) ≡ none
unfolding parse_digits
digit_overflow limit n d h large = let (c, one, value) = digit_char d h in rw one (ground arith)

digits_overflow : (limit r n : ℕ) → n < r → limit ≤ n → parse_digits limit 0 (digits r n) ≡ none
unfolding digits
digits_overflow limit zero n h large = elim h [ ]
digits_overflow limit (suc r) n h large = elim (Bool-cases (ltb n 10)) [
  | inl small ↦ rw small (digit_overflow limit 0 n (ground arith) (omega arith))
  | inr more ↦ rw more (elim (Bool-cases (ltb (n / 10) limit)) [
    | inl fits ↦
        parse_digits-append limit 0 (n / 10) (digits r (n / 10)) (digit (n % 10))
          (parse_digits-digits limit r (n / 10) (ground arith) (ground arith))
        ∙ digit_overflow limit (n / 10) (n % 10) (omega arith) (omega arith)
    | inr over ↦
        parse_digits-none limit 0 (digits r (n / 10)) (digit (n % 10))
          (digits_overflow limit r (n / 10) (ground arith) (ground arith))
  ])
]

-- What reaches the limit is not read.
pub decimal_overflow : (limit n : ℕ) → limit ≤ n → parse_digits limit 0 (decimal n) ≡ none
unfolding decimal
decimal_overflow limit n large = digits_overflow limit (suc n) n (omega arith) large
