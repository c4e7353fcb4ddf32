-- ===== src/Policy/RateLimiter/Bound.antt =====
-- How many calls the limiter admits over a stretch of time: rate-limiter.ts.
use native.Mathlib.Nat.{le_of_mul-le-mul_right, mul-le-mul_right}
use get_mcp.Base.{
  ℕ, zero, suc, ◌+◌, ◌-◌, ◌*◌, ◌≤◌, ◌<◌, ◌≡◌, refl, ap, Bool, true, false, ◌∙◌, Option, none, some,
  List, [], ◌∷◌, arith, leb, leb→le, Bool-cases, inl, inr, Text, eq_refl, lookup, insert,
  lookup-insert, pos,
}
use get_mcp.Policy.RateLimiter.{
  Bucket, Buckets, ConsumeResult, refill, spend, bucket_at, consume_bucket, consume_positive,
  consume,
}
use get_mcp.Policy.RateLimiter.Soundness.{IsSound, refill_forward, refill-IsSound, spend-IsSound}

-- Each time is at or after the one before it.
abbrev pub IsAscending : ℕ → List ℕ → Type 0
IsAscending t [] = Unit
IsAscending t (u ∷ times) = (t ≤ u) × IsAscending u times

abbrev pub last_time : ℕ → List ℕ → ℕ
last_time t [] = t
last_time t (u ∷ times) = last_time u times

last_time-le : (t : ℕ) (times : List ℕ) → IsAscending t times → t ≤ last_time t times
last_time-le t [] h = omega arith
last_time-le t (u ∷ times) (h, r) = omega (arith, last_time-le u times r)

abbrev pub one_if : Bool → ℕ
one_if true = 1
one_if false = 0

-- How many of the calls for the key at these times are allowed.
pub admitted : ℕ → ℕ → Text → List ℕ → Buckets → ℕ
admitted limit window_ms key [] buckets = 0
admitted limit window_ms key (now ∷ times) buckets =
    one_if (consume now key (pos limit) (pos window_ms) buckets).0.allowed
    + admitted limit window_ms key times (consume now key (pos limit) (pos window_ms) buckets).1

-- The same for one bucket.
count : ℕ → ℕ → List ℕ → Bucket → ℕ
count limit window_ms [] b = 0
count limit window_ms (now ∷ times) b =
    one_if (consume_bucket now limit window_ms (some b)).0.allowed
    + count limit window_ms times (consume_bucket now limit window_ms (some b)).1

pub last_refill-refill :
    (now limit window_ms : ℕ) (b : Bucket) → (refill now limit window_ms b).last_refill ≡ now
unfolding refill
last_refill-refill now limit window_ms b = ground arith

last_refill-spend :
    (limit window_ms : ℕ) (b : Bucket) → (spend limit window_ms b).1.last_refill ≡ b.last_refill
unfolding spend
last_refill-spend limit window_ms b = ground arith

module _ (limit window_ms : ℕ) (w : 0 < window_ms) where
  -- What `a` further calls over `e` milliseconds may take from a bucket.
  abbrev Affords : Bucket → ℕ → ℕ → Type 0
  Affords b a e = a * b.den * window_ms + b.owed * window_ms ≤ b.num * window_ms + e * limit * b.den

  spend-Affords :
      (b : Bucket) (a e : ℕ)
      → Affords (spend limit window_ms b).1 a e
      → b.owed ≤ b.num
      → Affords b (one_if (spend limit window_ms b).0.allowed + a) e
  unfolding spend
  spend-Affords b a e h paid = elim (Bool-cases (leb (b.den + b.owed) b.num)) [
    | inl enough ↦ rw enough (let h' = rw enough at h in omega arith)
    | inr short ↦ rw short (let h' = rw short at h in omega arith)
  ]

  grown :
      (now : ℕ) (b : Bucket) (a e : ℕ)
      → a * (b.den * window_ms) * window_ms + b.owed * window_ms * window_ms
        ≤ (b.num * window_ms + (now - b.last_refill) * limit * b.den) * window_ms
          + e * limit * (b.den * window_ms)
      → Affords b a (e + (now - b.last_refill))
  grown now b a e h = le_of_mul-le-mul_right {k = window_ms} (omega arith) w

  clamped :
      (now : ℕ) (b : Bucket) (a e : ℕ)
      → limit * (b.den * window_ms) + b.owed * window_ms
        ≤ b.num * window_ms + (now - b.last_refill) * limit * b.den
      → a * 1 * window_ms + 0 * window_ms ≤ limit * window_ms + e * limit * 1
      → Affords b a (e + (now - b.last_refill))
  clamped now b a e full h = omega (arith, mul-le-mul_right b.den h)

  refill-Affords :
      (now : ℕ) (b : Bucket) (a e : ℕ)
      → b.last_refill ≤ now
      → Affords (refill now limit window_ms b) a e
      → Affords b a (e + (now - b.last_refill))
  refill-Affords now b a e t h = elim (Bool-cases (leb _ _)) [
    | inl full ↦
        clamped now b a e (leb→le _ _ full) (rw (refill_forward now limit window_ms b t, full) at h)
    | inr part ↦ grown now b a e (rw (refill_forward now limit window_ms b t, part) at h)
  ]

  count-Affords :
      (times : List ℕ) (b : Bucket) (start : ℕ)
      → b.last_refill ≡ start
      → IsSound limit b
      → IsAscending start times
      → Affords b (count limit window_ms times b) (last_time start times - start)
  unfolding count consume_bucket bucket_at
  count-Affords [] b start same s h = omega (arith, mul-le-mul_right window_ms s.paid)
  count-Affords (now ∷ times) b start same s (t, h) =
      let refilled = refill now limit window_ms b in
      let t' : b.last_refill ≤ now = omega arith in
      let sound = refill-IsSound now limit window_ms b w t' s in
      let next = (spend limit window_ms refilled).1 in
      let later =
        count-Affords times next now
          (last_refill-spend limit window_ms refilled ∙ last_refill-refill now limit window_ms b)
          (spend-IsSound limit window_ms refilled sound) h in
      let span : last_time now times - now + (now - b.last_refill) ≡ last_time now times - start =
        omega (arith, last_time-le now times h) in
      rw span at (refill-Affords now b _ _ t' (spend-Affords refilled _ _ later sound.paid))

  cancel_den :
      (a : ℕ) (b : Bucket) (e : ℕ)
      → IsSound limit b
      → Affords b a e
      → a * window_ms ≤ limit * window_ms + e * limit
  cancel_den a b e s h =
      le_of_mul-le-mul_right {k = b.den} (omega (arith, mul-le-mul_right window_ms s.capped))
        s.positive

  -- From any sound bucket the first call finds at most `limit` tokens.
  count-bound :
      (now : ℕ) (times : List ℕ) (b : Bucket)
      → b.last_refill ≤ now
      → IsSound limit b
      → IsAscending now times
      → count limit window_ms (now ∷ times) b * window_ms
        ≤ limit * window_ms + (last_time now times - now) * limit
  unfolding count consume_bucket bucket_at
  count-bound now times b t s h =
      let refilled = refill now limit window_ms b in
      let sound = refill-IsSound now limit window_ms b w t s in
      let next = (spend limit window_ms refilled).1 in
      let later =
        count-Affords times next now
          (last_refill-spend limit window_ms refilled ∙ last_refill-refill now limit window_ms b)
          (spend-IsSound limit window_ms refilled sound) h in
      cancel_den _ refilled _ sound (spend-Affords refilled _ _ later sound.paid)

-- The bucket that the next call for a key works on, at time `now`.
abbrev pub IsReady : ℕ → ℕ → Option Bucket → Type 0
IsReady limit now none = Unit
IsReady limit now (some b) = IsSound limit b × (b.last_refill ≤ now)

pub bucket_at-IsReady :
    (limit now : ℕ) (found : Option Bucket)
    → IsReady limit now found
    → IsReady limit now (some (bucket_at now limit found))
unfolding bucket_at
bucket_at-IsReady limit now none h = (omega arith, omega arith)
bucket_at-IsReady limit now (some b) h = h

pub consume-bucket_at :
    (now limit window_ms : ℕ) (found : Option Bucket)
    → consume_bucket now limit window_ms found
      ≡ consume_bucket now limit window_ms (some (bucket_at now limit found))
unfolding consume_bucket bucket_at
consume-bucket_at now limit window_ms none = refl
consume-bucket_at now limit window_ms (some b) = refl

admitted-eq-count :
    (l w : ℕ) (key : Text) (times : List ℕ) (buckets : Buckets) (b : Bucket)
    → lookup key buckets ≡ some b
    → admitted (suc l) (suc w) key times buckets ≡ count (suc l) (suc w) times b
unfolding admitted count consume consume_positive
admitted-eq-count l w key [] buckets b e = refl
admitted-eq-count l w key (now ∷ times) buckets b e =
    let next = (consume_bucket now (suc l) (suc w) (some b)).1 in
    rw e (
      ap (λ n. one_if (consume_bucket now (suc l) (suc w) (some b)).0.allowed + n)
        (admitted-eq-count l w key times (insert key next buckets) next
          (rw (lookup-insert, eq_refl))))

admitted-start :
    (l w : ℕ) (key : Text) (now : ℕ) (times : List ℕ) (buckets : Buckets)
    → admitted (suc l) (suc w) key (now ∷ times) buckets
      ≡ count (suc l) (suc w) (now ∷ times) (bucket_at now (suc l) (lookup key buckets))
unfolding admitted count consume_positive consume
admitted-start l w key now times buckets =
    let found = lookup key buckets in
    let next = (consume_bucket now (suc l) (suc w) found).1 in
    ap (λ n. one_if (consume_bucket now (suc l) (suc w) found).0.allowed + n)
      (admitted-eq-count l w key times (insert key next buckets) next (rw (lookup-insert, eq_refl)))
    ∙ ap (λ (r : ConsumeResult × Bucket). one_if r.0.allowed + count (suc l) (suc w) times r.1)
        (consume-bucket_at now (suc l) (suc w) found)

-- Over any stretch of time that begins with the call at `now`, the calls that are allowed for one
-- key number at most `limit` and `limit / windowMs` for each millisecond of the stretch. The clock
-- does not go back, and the key's bucket is absent or sound.
pub admitted-bound :
    (limit window_ms : ℕ) (key : Text) (now : ℕ) (times : List ℕ) (buckets : Buckets)
    → 0 < limit
    → 0 < window_ms
    → IsReady limit now (lookup key buckets)
    → IsAscending now times
    → admitted limit window_ms key (now ∷ times) buckets * window_ms
      ≤ limit * window_ms + (last_time now times - now) * limit
admitted-bound zero w key now times buckets hl hw r h = absurd (omega arith)
admitted-bound (suc l) zero key now times buckets hl hw r h = absurd (omega arith)
admitted-bound (suc l) (suc w) key now times buckets hl hw r h =
    let b = bucket_at now (suc l) (lookup key buckets) in
    let (sound, t) = bucket_at-IsReady (suc l) now (lookup key buckets) r in
    rw (admitted-start l w key now times buckets)
      (count-bound (suc l) (suc w) hw now times b t sound h)
