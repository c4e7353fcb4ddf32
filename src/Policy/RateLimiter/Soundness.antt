-- ===== src/Policy/RateLimiter/Soundness.antt =====
-- What one call of `consume` does to a bucket: rate-limiter.ts.
use native.Mathlib.Nat.{one-le-mul, mul-le-mul_right}
use get_mcp.Base.{
  ℕ, suc, ◌+◌, ◌-◌, ◌*◌, ◌≤◌, ◌<◌, ◌≡◌, ◌≢◌, refl, arith, leb, if◌then◌else◌, Text, eq_iff, lookup,
  lookup-insert, ℤ, pos,
}
use get_mcp.Policy.RateLimiter.{
  Bucket, Buckets, fresh, refill, spend, consume_positive, consume_bucket, consume,
}

-- The number of tokens lies between 0 and the limit, and the denominator is positive.
pub record IsSound (limit : ℕ) (b : Bucket) : Type 0 where
  pub positive : 0 < b.den
  pub paid : b.owed ≤ b.num
  pub capped : b.num ≤ b.owed + limit * b.den

-- A refill when the clock has not gone back.
pub refill_forward :
    (now limit window_ms : ℕ) (b : Bucket)
    → b.last_refill ≤ now
    → let grown = b.num * window_ms + (now - b.last_refill) * limit * b.den in
      refill now limit window_ms b ≡ (
        if leb (limit * (b.den * window_ms) + b.owed * window_ms) grown
        then fresh limit now
        else record {
          num = grown;
          owed = b.owed * window_ms;
          den = b.den * window_ms;
          last_refill = now;
        })
unfolding refill
refill_forward now limit window_ms b t =
    let still : b.last_refill - now ≡ 0 = omega arith in
    let none_owed : b.owed * window_ms + (b.last_refill - now) * limit * b.den
        ≡ b.owed * window_ms =
      rw still (omega arith) in
    rw none_owed

pub refill-IsSound :
    (now limit window_ms : ℕ) (b : Bucket)
    → 0 < window_ms
    → b.last_refill ≤ now
    → IsSound limit b
    → IsSound limit (refill now limit window_ms b)
refill-IsSound now limit window_ms b w t s =
    rw (refill_forward now limit window_ms b t)
      (ground (arith, one-le-mul s.positive w, mul-le-mul_right window_ms s.paid))

pub spend-IsSound :
    (limit window_ms : ℕ) (b : Bucket) → IsSound limit b → IsSound limit (spend limit window_ms b).1
unfolding spend
spend-IsSound limit window_ms b s = ground arith

-- A call for one key leaves the bucket of every other key as it is.
pub lookup-consume_ne :
    (now : ℕ) (k j : Text) (limit window_ms : ℤ) (buckets : Buckets)
    → k ≢ j
    → lookup j (consume now k limit window_ms buckets).1 ≡ lookup j buckets
unfolding consume consume_positive
lookup-consume_ne now k j (pos (suc l)) (pos (suc w)) buckets h = ground (
  arith,
  eq_iff k j,
  lookup-insert k j (consume_bucket now (suc l) (suc w) (lookup k buckets)).1 buckets,
)
lookup-consume_ne now k j _ _ buckets h = refl
