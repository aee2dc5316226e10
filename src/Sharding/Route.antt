-- ===== src/Sharding/Route.antt =====
-- The routing of a task id to a shard (src/sharding.rs, `fnv1a64` and `route_shard`).
use Prim.Native.Nat.{bit_xor}
use Prim.Native.Char.{Char, code}
use snerd_rust.Base.{
  ℕ, zero, suc, ◌+◌, ◌*◌, ◌/◌, ◌%◌, ◌^◌, ◌<◌, ◌≡◌, refl, ◌≢◌, String, true, Option, none, some,
  List, [], ◌∷◌, ◌++◌, if◌then◌else◌, arith, ltb, eq_iff, length, contains,
}

-- The bytes of a character in UTF-8.
utf8 : Char → List ℕ
utf8 ch =
    let c = code ch in
    if ltb c 0x80
    then c ∷ []
    else if ltb c 0x800
    then (0xc0 + c / 64) ∷ (0x80 + c % 64) ∷ []
    else if ltb c 0x10000
    then (0xe0 + c / 4096) ∷ (0x80 + c / 64 % 64) ∷ (0x80 + c % 64) ∷ []
    else (0xf0 + c / 262144) ∷ (0x80 + c / 4096 % 64) ∷ (0x80 + c / 64 % 64) ∷ (0x80 + c % 64) ∷ []

as_bytes : String → List ℕ
unfolding utf8
as_bytes String.[] = []
as_bytes (String.◌∷◌ c s) = utf8 c ++ as_bytes s

hash_bytes : ℕ → List ℕ → ℕ
hash_bytes hash [] = hash
hash_bytes hash (b ∷ bytes) = hash_bytes (bit_xor hash b * 0x100000001b3 % 2 ^ 64) bytes

unfoldable pub fnv1a64 : String → ℕ
unfolding as_bytes hash_bytes
fnv1a64 s = hash_bytes 0xcbf29ce484222325 (as_bytes s)

unfoldable pub get_elem? : List String → ℕ → Option String
get_elem? [] i = none
get_elem? (x ∷ xs) zero = some x
get_elem? (x ∷ xs) (suc i) = get_elem? xs i

-- `none` is the panic on an empty slice.
unfoldable pub route_shard : String → List String → Option String
route_shard task_id [] = none
route_shard task_id (s ∷ owned) = get_elem? (s ∷ owned) (fnv1a64 task_id % length (s ∷ owned))

hash_bytes-lt : (hash : ℕ) (bytes : List ℕ) → hash < 2 ^ 64 → hash_bytes hash bytes < 2 ^ 64
unfolding hash_bytes
hash_bytes-lt hash [] h = h
hash_bytes-lt hash (b ∷ bytes) h =
    hash_bytes-lt (bit_xor hash b * 0x100000001b3 % 2 ^ 64) bytes (omega arith)

-- The hash is a `u64`.
pub fnv1a64-lt : (s : String) → fnv1a64 s < 2 ^ 64
unfolding fnv1a64
fnv1a64-lt s = hash_bytes-lt 0xcbf29ce484222325 (as_bytes s) (omega arith)

get_in_range :
    (xs : List String) (i : ℕ)
    → i < length xs
    → (s : String) × (get_elem? xs i ≡ some s) × (contains xs s ≡ true)
unfolding get_elem? contains
get_in_range [] i h = absurd (omega arith)
get_in_range (x ∷ xs) zero h = (x, refl, ground (arith, eq_iff x x))
get_in_range (x ∷ xs) (suc i) h =
    let (s, found, m) = get_in_range xs i (omega arith) in (s, found, ground arith)

-- A task id is routed to one of the owned shards, whatever they are, unless there is none.
pub route_shard-contains :
    (task_id : String) (owned : List String)
    → owned ≢ []
    → (s : String) × (route_shard task_id owned ≡ some s) × (contains owned s ≡ true)
unfolding route_shard
route_shard-contains task_id [] h = absurd (h refl)
route_shard-contains task_id (s ∷ owned) h = get_in_range (s ∷ owned) _ (grind arith)
