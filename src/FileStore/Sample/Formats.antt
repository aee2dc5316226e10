-- ===== src/FileStore/Sample/Formats.antt =====
-- Printers and parsers of the types of a task's fields, as texts that end themselves, for the tests.
use Prim.Native.Char.{code}
use snerd_rust.Base.{
  ℕ, zero, suc, ◌≡◌, refl, String, Bool, true, false, Option, none, some, List, [], ◌∷◌,
  if◌then◌else◌, ℤ, pos, negsuc, ◌==◌, length,
}
use snerd_rust.Task.{JobErrorReturn}

-- A printer of a type in front of a text, and its parser.
pub record Format (A : Type 0) : Type 0 where
  pub write : A → String → String
  pub read : String → Option (A × String)
  pub read-write : (a : A) (rest : String) → read (write a rest) ≡ some (a, rest)

then_read :
    {A B : Type 0} → Option (A × String) → (A → String → Option (B × String)) → Option (B × String)
then_read none f = none
then_read (some (a, rest)) f = f a rest

module _ {A B : Type 0} (f : Format A) (g : Format B) where
  pair_read : String → Option ((A × B) × String)
  unfolding then_read
  pair_read s =
      then_read (f.read s) (λ a rest. then_read (g.read rest) (λ b rest'. some ((a, b), rest')))

  pair_law :
      (a : A) (b : B) (rest : String) → pair_read (f.write a (g.write b rest)) ≡ some ((a, b), rest)
  unfolding pair_read
  pair_law a b rest = rw (f.read-write a (g.write b rest), g.read-write b rest) refl

  pub pair : Format (A × B)
  pair = record {
    write = λ p rest. f.write p.0 (g.write p.1 rest);
    read = pair_read;
    read-write = λ p rest. pair_law p.0 p.1 rest;
  }

-- A format along two functions, the first of which undoes the second.
module _ {A B : Type 0} (f : Format A) (to : A → B) (from : B → A)
    (law : (b : B) → to (from b) ≡ b) where
  along_read : String → Option (B × String)
  unfolding then_read
  along_read s = then_read (f.read s) (λ a rest. some (to a, rest))

  along_law : (b : B) (rest : String) → along_read (f.write (from b) rest) ≡ some (b, rest)
  unfolding along_read
  along_law b rest = rw (f.read-write (from b) rest, law b) refl

  along : Format B
  along = record {
    write = λ b rest. f.write (from b) rest;
    read = along_read;
    read-write = along_law;
  }

write_ℕ : ℕ → String → String
write_ℕ zero rest = String.◌∷◌ "." rest
write_ℕ (suc n) rest = String.◌∷◌ "1" (write_ℕ n rest)

read_ℕ : String → Option (ℕ × String)
unfolding then_read
read_ℕ String.[] = none
read_ℕ (String.◌∷◌ c s) =
    let rest = read_ℕ s in
    if code c == 49 then then_read rest (λ n s'. some (suc n, s')) else some (0, s)

read_ℕ-write_ℕ : (n : ℕ) (rest : String) → read_ℕ (write_ℕ n rest) ≡ some (n, rest)
unfolding read_ℕ write_ℕ
read_ℕ-write_ℕ zero rest = refl
read_ℕ-write_ℕ (suc n) rest = rw (read_ℕ-write_ℕ n rest) refl

write_string : String → String → String
write_string String.[] rest = String.◌∷◌ "." rest
write_string (String.◌∷◌ c s) rest = String.◌∷◌ "1" (String.◌∷◌ c (write_string s rest))

read_string : String → Option (String × String)
unfolding then_read
read_string String.[] = none
read_string (String.◌∷◌ c String.[]) = if code c == 49 then none else some ("", String.[])
read_string (String.◌∷◌ c (String.◌∷◌ d s)) =
    let rest = read_string s in
    if code c == 49
    then then_read rest (λ t s'. some (String.◌∷◌ d t, s'))
    else some ("", String.◌∷◌ d s)

read_string-write_string : (t rest : String) → read_string (write_string t rest) ≡ some (t, rest)
unfolding read_string write_string
read_string-write_string String.[] String.[] = refl
read_string-write_string String.[] (String.◌∷◌ c s) = refl
read_string-write_string (String.◌∷◌ c t) rest = rw (read_string-write_string t rest) refl

pub number : Format ℕ
number = record { write = write_ℕ; read = read_ℕ; read-write = read_ℕ-write_ℕ }

pub text : Format String
text = record { write = write_string; read = read_string; read-write = read_string-write_string }

bool_of : ℕ → Bool
bool_of n = n == 1

number_of : Bool → ℕ
number_of true = 1
number_of false = 0

bool_of_number : (b : Bool) → bool_of (number_of b) ≡ b
unfolding bool_of number_of
bool_of_number true = refl
bool_of_number false = refl

pub truth : Format Bool
truth = along number bool_of number_of bool_of_number

int_of : Bool × ℕ → ℤ
int_of (true, n) = pos n
int_of (false, n) = negsuc n

parts_of : ℤ → Bool × ℕ
parts_of (pos n) = (true, n)
parts_of (negsuc n) = (false, n)

int_of_parts : (i : ℤ) → int_of (parts_of i) ≡ i
unfolding int_of parts_of
int_of_parts (pos n) = refl
int_of_parts (negsuc n) = refl

pub integer : Format ℤ
integer = along (pair truth number) int_of parts_of int_of_parts

pub job_error_format : Format JobErrorReturn
job_error_format =
    along (pair text truth) (λ p. record { error_string = p.0; retry_worthy = p.1 })
      (λ e. (e.error_string, e.retry_worthy)) (λ e. refl)

module _ {A : Type 0} (f : Format A) where
  write_option : Option A → String → String
  write_option none rest = String.◌∷◌ "." rest
  write_option (some a) rest = String.◌∷◌ "1" (f.write a rest)

  read_option : String → Option (Option A × String)
  unfolding then_read
  read_option String.[] = none
  read_option (String.◌∷◌ c s) =
      if code c == 49 then then_read (f.read s) (λ a rest. some (some a, rest)) else some (none, s)

  option_law : (o : Option A) (rest : String) → read_option (write_option o rest) ≡ some (o, rest)
  unfolding read_option write_option
  option_law none rest = refl
  option_law (some a) rest = rw (f.read-write a rest) refl

  pub optional : Format (Option A)
  optional = record { write = write_option; read = read_option; read-write = option_law }

  write_all : List A → String → String
  write_all [] rest = rest
  write_all (a ∷ xs) rest = f.write a (write_all xs rest)

  read_all : ℕ → String → Option (List A × String)
  unfolding then_read
  read_all zero s = some ([], s)
  read_all (suc n) s =
      then_read (f.read s)
        (λ a rest. then_read (read_all n rest) (λ xs rest'. some (a ∷ xs, rest')))

  all_law :
      (xs : List A) (rest : String) → read_all (length xs) (write_all xs rest) ≡ some (xs, rest)
  unfolding read_all write_all
  all_law [] rest = refl
  all_law (a ∷ xs) rest = rw (f.read-write a (write_all xs rest), all_law xs rest) refl

  read_list : String → Option (List A × String)
  unfolding then_read
  read_list s = then_read (read_ℕ s) read_all

  list_law :
      (xs : List A) (rest : String)
      → read_list (write_ℕ (length xs) (write_all xs rest)) ≡ some (xs, rest)
  unfolding read_list
  list_law xs rest = rw (read_ℕ-write_ℕ (length xs) (write_all xs rest)) (all_law xs rest)

  pub listed : Format (List A)
  listed = record {
    write = λ xs rest. write_ℕ (length xs) (write_all xs rest);
    read = read_list;
    read-write = list_law;
  }
