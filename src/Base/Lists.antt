-- ===== src/Base/Lists.antt =====
-- Lists measured by native numbers, and sets of strings kept as lists (`HashSet<String>`).
use Prim.Native.Nat.{ℕ, suc, ◌+◌}
use Prim.Native.String.{String}
use mathlib.Core.Path.{◌≡◌, refl}
use mathlib.Core.Bool.{Bool, true, false, ◌&&◌, ◌||◌}
use mathlib.Core.List.{List, [], ◌∷◌, ◌++◌}
use native.Mathlib.Omega.{arith}
use text.Mathlib.Text.{◌==◌ as str_eq}
use text.Mathlib.TextEquality.{eq_iff}
use snerd_rust.Base.Tests.{if◌then◌else◌}

module _ {ℓ} {A : Type ℓ} where
  abbrev pub length : List A → ℕ
  length [] = 0
  length (x ∷ xs) = suc (length xs)

  pub length-append : (xs ys : List A) → length (xs ++ ys) ≡ length xs + length ys
  length-append [] ys = omega arith
  length-append (x ∷ xs) ys = omega (arith, length-append xs ys)

  -- `Vec::push` of each element in turn, the top of the stack first.
  abbrev pub push_all : List A → List A → List A
  push_all [] stack = stack
  push_all (x ∷ xs) stack = push_all xs (x ∷ stack)

  pub length-push_all : (xs ys : List A) → length (push_all xs ys) ≡ length xs + length ys
  length-push_all [] ys = omega arith
  length-push_all (x ∷ xs) ys = omega (arith, length-push_all xs (x ∷ ys))

abbrev pub all {ℓ} : {A : Type ℓ} → (A → Bool) → List A → Bool
all p [] = true
all p (x ∷ xs) = p x && all p xs

abbrev pub All {ℓ κ} : {A : Type ℓ} → (A → Type κ) → List A → Type κ
All P [] = Unit
All P (x ∷ xs) = P x × All P xs

-- An element in the middle of a list, and the others.
pub All-remove {ℓ κ} :
    {A : Type ℓ} (P : A → Type κ) (hs ks : List A) (x : A)
    → All P (hs ++ x ∷ ks)
    → P x × All P (hs ++ ks)
All-remove P [] ks x h = h
All-remove P (y ∷ hs) ks x (first, h) =
    let (own, others) = All-remove P hs ks x h in (own, (first, others))

pub All-put {ℓ κ} :
    {A : Type ℓ} (P : A → Type κ) (hs ks : List A) (x : A)
    → P x
    → All P (hs ++ ks)
    → All P (hs ++ x ∷ ks)
All-put P [] ks x own h = (own, h)
All-put P (y ∷ hs) ks x own (first, h) = (first, All-put P hs ks x own h)

-- `contains` of a slice or a set of strings.
unfoldable pub contains : List String → String → Bool
contains [] a = false
contains (x ∷ xs) a = str_eq x a || contains xs a

-- `HashSet::remove`.
unfoldable pub without : String → List String → List String
without a [] = []
without a (x ∷ xs) = let rest = without a xs in if str_eq x a then rest else x ∷ rest

pub contains-without :
    (a b : String) (xs : List String)
    → contains (without a xs) b ≡ (if str_eq a b then false else contains xs b)
unfolding contains without
contains-without a b [] = ground arith
contains-without a b (x ∷ xs) =
    ground (arith, contains-without a b xs, eq_iff x a, eq_iff x b, eq_iff a b)

pub contains-cons :
    (x a : String) (xs : List String) → contains (x ∷ xs) a ≡ (str_eq x a || contains xs a)
unfolding contains
contains-cons x a xs = refl

pub contains-push_all :
    (a : String) (xs ys : List String)
    → contains (push_all xs ys) a ≡ (contains xs a || contains ys a)
unfolding contains
contains-push_all a [] ys = refl
contains-push_all a (x ∷ xs) ys = ground (arith, contains-push_all a xs (x ∷ ys))
