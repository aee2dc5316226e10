-- ===== src/RateLimiter/Location.antt =====
-- Where the rate limiters of the shards keep their limits (src/rate_limiter.rs, src/sharded_queue.rs).
use Prim.Native.String.{◌++◌ as ◌<>◌}
use Prim.Native.String.append
use snerd_rust.Base.{ℕ, ◌≡◌, ◌≢◌, String, ◌∷◌, arith, decimal, eq_iff}
use snerd_rust.Membership.{shard_key}
use snerd_rust.RateLimiter.{FilePath, limits_path}

-- `queue_dir.join(shard)`
unfoldable pub shard_dir : FilePath → String → FilePath
shard_dir queue_dir shard = shard ∷ queue_dir

shard_key-ne :
    (i : ℕ) (s : String)
    → String.◌∷◌ "s" s ≢ ".." × (String.◌∷◌ "s" s ≢ ".") × (String.◌∷◌ "s" s ≢ "/")
shard_key-ne i s = ((λ e. cc e), (λ e. cc e), (λ e. cc e))

shard_key-cons : (i : ℕ) → shard_key i ≡ String.◌∷◌ "s" ("hard-" <> decimal i)
unfolding shard_key
shard_key-cons i = append.cons "s" "hard-" (decimal i)

-- The rate limiters of all shards of a queue have the same file, in the directory of the queue.
pub limits_path-shard_dir :
    (queue_dir : FilePath) (i : ℕ)
    → limits_path (shard_dir queue_dir (shard_key i)) ≡ "rate_limits.json" ∷ queue_dir
unfolding limits_path shard_dir
limits_path-shard_dir queue_dir i = ground (
  arith,
  shard_key-cons i,
  eq_iff (shard_key i) "..",
  eq_iff (shard_key i) ".",
  eq_iff (shard_key i) "/",
  shard_key-ne i ("hard-" <> decimal i),
)
