-- ===== src/Policy/Baseline/Scores.antt =====
-- What the scores of apps/api/src/policy/baseline.service.ts say of an agent's calls.
use get_mcp.Base.{
  ℕ, zero, suc, ◌-◌, ◌*◌, ◌≤◌, ◌<◌, ◌≡◌, ◌⊎◌, refl, arith, inl, inr, false, List, [], ◌∷◌,
  Bool-cases, length, ltb, leb, if◌then◌else◌, none, Text, lookup,
}
use get_mcp.Cache.{cached}
use get_mcp.Policy.Baseline.{
  LogRow, AnomalyScore, path_key, path_counts, probabilities, seen_of, path_score_of,
  spike_multiplier, volume_score_of, baseline_of, score_against, Cache, baseline_key, rows_since,
  get_baseline, compute_baseline, score_request,
}
use get_mcp.Policy.Baseline.Quotients.{Ratio, over, whole, is_zero, greater_of, at_most_one}
use get_mcp.Policy.Baseline.Counts.{calls, seen-calls}

-- A fraction from 0 to 1.
abbrev pub IsShare : Ratio → Type 0
IsShare r = (0 < r.den) × (r.num ≤ r.den)

-- `r ≡ n / d` as fractions.
abbrev pub Equals : Ratio → ℕ → ℕ → Type 0
Equals r n d = r.num * d ≡ n * r.den

-- max(0, 1 - count / total * 10), and 1 where there are no rows.
abbrev pub IsPathScore : ℕ → ℕ → Ratio → Type 0
IsPathScore count total r = Equals r (total - count * 10) total × ((count ≡ 0) → Equals r 1 1)

path_score_of-IsShare :
    (count total : ℕ)
    → count ≤ total
    → IsShare (path_score_of (over count total))
      × IsPathScore count total (path_score_of (over count total))
unfolding path_score_of
path_score_of-IsShare zero total h = ((omega arith, omega arith), (omega arith, λ e. refl))
path_score_of-IsShare (suc c) total h =
    let nonzero : is_zero (over (suc c) total) ≡ false = ground arith in
    elim (Bool-cases (leb total (suc c * 10))) [
      | inl common ↦
          rw (nonzero, common)
            (let all_gone : total - suc c * 10 ≡ 0 = ground arith in
              ((omega arith, omega arith), (rw all_gone (omega arith), λ e. absurd (ground arith))))
      | inr rare ↦
          rw (nonzero, rare) ((omega arith, omega arith), (refl, λ e. absurd (ground arith)))
    ]

path_score_of-none :
    (total : ℕ) → IsShare (path_score_of (whole 0)) × IsPathScore 0 total (path_score_of (whole 0))
unfolding path_score_of
path_score_of-none total = ((omega arith, omega arith), (omega arith, λ e. refl))

at_most_one-IsShare : (r : Ratio) → 0 < r.den → IsShare (at_most_one r)
unfolding at_most_one
at_most_one-IsShare r h = elim (Bool-cases (ltb r.den r.num)) [
  | inl more ↦ rw more (omega arith, omega arith)
  | inr less ↦ rw less (h, ground arith)
]

-- min(1, r)
abbrev pub IsCapped : Ratio → Ratio → Type 0
IsCapped r v = (r.num ≤ r.den → Equals v r.num r.den) × (r.den ≤ r.num → Equals v 1 1)

at_most_one-IsCapped : (r : Ratio) → IsCapped r (at_most_one r)
unfolding at_most_one
at_most_one-IsCapped r = elim (Bool-cases (ltb r.den r.num)) [
  | inl more ↦ rw more (λ h. ground arith, λ h. refl)
  | inr less ↦ rw less (λ h. refl, λ h. ground arith)
]

-- The share of the recent calls in ten times the usual ones; without usual ones, 1 for more than five.
abbrev pub IsVolumeScore : ℕ → ℕ → ℕ → Ratio → Type 0
IsVolumeScore recent total minutes v =
    ((total ≡ 0) → Equals v (if ltb 5 recent then 1 else 0) 1)
    × (0 < total → IsCapped (over (recent * minutes) (total * 10)) v)

volume_score_of-IsVolumeScore :
    (recent total minutes : ℕ)
    → IsShare (volume_score_of recent (over total minutes))
      × IsVolumeScore recent total minutes (volume_score_of recent (over total minutes))
unfolding volume_score_of spike_multiplier at_most_one
volume_score_of-IsVolumeScore recent zero minutes = elim (Bool-cases (ltb 5 recent)) [
  | inl many ↦ rw many ((omega arith, omega arith), (λ e. refl, λ h. absurd (omega arith)))
  | inr few ↦ rw few ((omega arith, omega arith), (λ e. refl, λ h. absurd (omega arith)))
]
volume_score_of-IsVolumeScore recent (suc n) minutes =
    let nonzero : is_zero (over (suc n) minutes) ≡ false = ground arith in
    rw nonzero (
      let spike = over (recent * minutes) (suc n * 10) in
      (
        at_most_one-IsShare spike (omega arith),
        (λ e. absurd (ground arith), λ h. at_most_one-IsCapped spike),
      ))

-- The greater of two.
abbrev pub IsGreater : Ratio → Ratio → Ratio → Type 0
IsGreater a b c =
    (a.num * c.den ≤ c.num * a.den) × (b.num * c.den ≤ c.num * b.den) × ((c ≡ a) ⊎ (c ≡ b))

greater_of-IsGreater : (a b : Ratio) → IsGreater a b (greater_of a b)
unfolding greater_of
greater_of-IsGreater a b = elim (Bool-cases (ltb (a.num * b.den) (b.num * a.den))) [
  | inl less ↦ rw less (ground arith, omega arith, inr refl)
  | inr more ↦ rw more (omega arith, ground arith, inl refl)
]

-- `count` of `total` calls in `minutes` had the path, and there were `recent` calls in the last one.
pub record IsScore (count total minutes recent : ℕ) (s : AnomalyScore) : Type 0 where
  pub path : IsShare s.path_score × IsPathScore count total s.path_score
  pub volume : IsShare s.volume_score × IsVolumeScore recent total minutes s.volume_score
  pub composite : IsGreater s.path_score s.volume_score s.composite
  pub samples : s.baseline_sample_count ≡ total

calls-le : (key : Text) (rows : List LogRow) → calls key rows ≤ length rows
calls-le key [] = omega arith
calls-le key (r ∷ rows) = ground (arith, calls-le key rows)

path-IsScore :
    (key : Text) (rows : List LogRow)
    → let seen = seen_of (lookup key (probabilities (length rows) (path_counts rows []))) in
      IsShare (path_score_of seen) × IsPathScore (calls key rows) (length rows) (path_score_of seen)
path-IsScore key rows = elim (seen-calls key (length rows) rows) [
  | inl e ↦ rw e (path_score_of-IsShare (calls key rows) (length rows) (calls-le key rows))
  | inr (e, none_seen) ↦ rw (e, none_seen) (path_score_of-none (length rows))
]

-- The score of a request whose baseline is not cached: the share of the agent's calls in the window
-- that had its method and path gives the path score, the calls of the last minute against the average
-- of the window give the volume score, both lie between 0 and 1, and the greater is the composite.
pub score_request-IsScore :
    (logs : List LogRow) (now : ℕ) (org agent method path : Text) (window_days : ℕ) (cache : Cache)
    → cached now (baseline_key org agent window_days) cache ≡ none
    → let rows = rows_since org agent (now - window_days * 24 * 60 * 60 * 1000) logs in
      let latest = rows_since org agent (now - 60_000) logs in
      IsScore
        (calls (path_key method path) rows)
        (length rows)
        (window_days * 24 * 60)
        (length latest)
        (score_request logs now org agent method path window_days cache).0
unfolding score_request get_baseline compute_baseline baseline_of score_against
score_request-IsScore logs now org agent method path window_days cache fresh =
    let rows = rows_since org agent (now - window_days * 24 * 60 * 60 * 1000) logs in
    let latest = rows_since org agent (now - 60_000) logs in
    rw fresh (record {
      path = path-IsScore (path_key method path) rows;
      volume = volume_score_of-IsVolumeScore (length latest) (length rows) (window_days * 24 * 60);
      composite = greater_of-IsGreater _ _;
      samples = refl;
    })
