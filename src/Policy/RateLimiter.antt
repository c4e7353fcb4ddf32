-- ===== src/Policy/RateLimiter.antt =====
-- apps/api/src/policy/rate-limiter.ts: the in-memory token bucket. Milliseconds are natural numbers.
-- The number of tokens is the exact fraction `(num - owed) / den`, where the source has a double;
-- `owed` holds what was taken, and what a clock that runs backwards takes. The cost is the default 1.
pub mod Soundness
pub mod Bound
use get_mcp.Base.{
  ℕ, zero, suc, ◌+◌, ◌-◌, ◌*◌, ◌/◌, Bool, true, false, Option, none, some, List, [], leb,
  if◌then◌else◌, Text, lookup, insert, ℤ, pos, negsuc,
}

pub record ConsumeResult : Type 0 where
  pub allowed : Bool
  pub retry_after_ms : ℕ

pub record Bucket : Type 0 where
  pub num : ℕ
  pub owed : ℕ
  pub den : ℕ
  pub last_refill : ℕ

abbrev pub Buckets : Type 0
Buckets = List (Text × Bucket)

abbrev pub fresh : ℕ → ℕ → Bucket
fresh limit now = record { num = limit; owed = 0; den = 1; last_refill = now }

-- `b.tokens = Math.min(limit, b.tokens + elapsed * refillPerMs); b.lastRefill = now`, with both signs
-- of `elapsed = now - b.lastRefill` written out.
unfoldable pub refill : ℕ → ℕ → ℕ → Bucket → Bucket
refill now limit window_ms b =
    let num' = b.num * window_ms + (now - b.last_refill) * limit * b.den in
    let owed' = b.owed * window_ms + (b.last_refill - now) * limit * b.den in
    let den' = b.den * window_ms in
    if leb (limit * den' + owed') num'
    then fresh limit now
    else record { num = num'; owed = owed'; den = den'; last_refill = now }

-- `Math.ceil(a / b)`
abbrev pub ceil_div : ℕ → ℕ → ℕ
ceil_div a b = (a + b - 1) / b

-- The test `b.tokens >= cost`, and what follows it.
unfoldable pub spend : ℕ → ℕ → Bucket → ConsumeResult × Bucket
spend limit window_ms b =
    if leb (b.den + b.owed) b.num
    then (record { allowed = true; retry_after_ms = 0 }, record b { owed = b.owed + b.den })
    else (
      record {
        allowed = false;
        retry_after_ms = ceil_div ((b.den + b.owed - b.num) * window_ms) (b.den * limit);
      },
      b,
    )

-- The bucket of the key, which a first call creates full.
unfoldable pub bucket_at : ℕ → ℕ → Option Bucket → Bucket
bucket_at now limit none = fresh limit now
bucket_at now limit (some b) = b

unfoldable pub consume_bucket : ℕ → ℕ → ℕ → Option Bucket → ConsumeResult × Bucket
consume_bucket now limit window_ms found =
    spend limit window_ms (refill now limit window_ms (bucket_at now limit found))

unfoldable pub consume_positive : ℕ → Text → ℕ → ℕ → Buckets → ConsumeResult × Buckets
consume_positive now key limit window_ms buckets =
    let (result, b) = consume_bucket now limit window_ms (lookup key buckets) in
    (result, insert key b buckets)

-- `consume` at time `now`; a limit or a window that is not positive admits everything.
unfoldable pub consume : ℕ → Text → ℤ → ℤ → Buckets → ConsumeResult × Buckets
consume now key (pos (suc limit)) (pos (suc window_ms)) buckets =
    consume_positive now key (suc limit) (suc window_ms) buckets
consume now key _ _ buckets = (record { allowed = true; retry_after_ms = 0 }, buckets)

-- `reset`
abbrev pub reset : Buckets
reset = []
