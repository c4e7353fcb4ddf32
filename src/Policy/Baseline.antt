-- ===== src/Policy/Baseline.antt =====
-- BehavioralBaselineService of apps/api/src/policy/baseline.service.ts. Quotients are exact: a ratio of
-- natural numbers stands for a double. `logs` are the rows of the audit log when the call reads them.
pub mod Quotients
pub mod Counts
pub mod Scores
mod Tests
use get_mcp.Base.{
  ℕ, zero, suc, ◌+◌, ◌-◌, ◌*◌, Bool, ◌&&◌, not, Option, none, some, List, [], ◌∷◌, ◌++◌, map,
  length, ltb, leb, ◌=?◌, if◌then◌else◌, Text, codes, ◌==◌, to_upper, starts_with, lookup, insert,
  decimal,
}
use get_mcp.Cache.{CacheEntry, cached, store}
use Quotients.{Ratio, over, whole, is_zero, greater_of, at_most_one, percent_text, fixed_text}

abbrev pub cache_ttl_ms : ℕ
cache_ttl_ms = 5 * 60 * 1000

abbrev pub volume_lookback_ms : ℕ
volume_lookback_ms = 60 * 1000

abbrev pub volume_spike_threshold : ℕ
volume_spike_threshold = 10

-- A row of the audit log, as far as it is read here.
pub record LogRow : Type 0 where
  pub organization_id : Text
  pub agent_id : Text
  pub timestamp : ℕ
  pub method : Text
  pub path : Text

pub record Baseline : Type 0 where
  pub organization_id : Text
  pub agent_id : Text
  pub sample_count : ℕ
  pub window_days : ℕ
  pub path_probability : List (Text × Ratio)
  pub baseline_calls_per_minute : Ratio
  pub computed_at : ℕ

pub record AnomalyScore : Type 0 where
  pub composite : Ratio
  pub path_score : Ratio
  pub volume_score : Ratio
  pub baseline_sample_count : ℕ
  pub reason : Text

abbrev pub Cache : Type 0
Cache = List (Text × CacheEntry Baseline)

-- `where: { organizationId, agentId, timestamp: { gte: since } }`
unfoldable pub rows_since : Text → Text → ℕ → List LogRow → List LogRow
rows_since org agent since [] = []
rows_since org agent since (r ∷ logs) =
    let rest = rows_since org agent since logs in
    if r.organization_id == org && r.agent_id == agent && leb since r.timestamp
    then r ∷ rest
    else rest

unfoldable pub path_key : Text → Text → Text
path_key method path = to_upper method ++ (codes " " ++ path)

abbrev pub or_zero : Option ℕ → ℕ
or_zero none = 0
or_zero (some n) = n

-- The loop over the rows.
unfoldable pub path_counts : List LogRow → List (Text × ℕ) → List (Text × ℕ)
path_counts [] counts = counts
path_counts (r ∷ rows) counts =
    let k = path_key r.method r.path in
    path_counts rows (insert k (or_zero (lookup k counts) + 1) counts)

unfoldable pub probabilities : ℕ → List (Text × ℕ) → List (Text × Ratio)
probabilities total [] = []
probabilities total ((k, c) ∷ counts) = (k, over c total) ∷ probabilities total counts

unfoldable pub baseline_of : Text → Text → ℕ → ℕ → List LogRow → Baseline
baseline_of org agent window_days now rows = record {
  organization_id = org;
  agent_id = agent;
  sample_count = length rows;
  window_days = window_days;
  path_probability = probabilities (length rows) (path_counts rows []);
  baseline_calls_per_minute = over (length rows) (window_days * 24 * 60);
  computed_at = now;
}

unfoldable pub baseline_key : Text → Text → ℕ → Text
baseline_key org agent window_days =
    org ++ (codes ":" ++ (agent ++ (codes ":" ++ decimal window_days)))

-- Without a cached baseline; the window's rows are read and the baseline is stored.
unfoldable pub compute_baseline : List LogRow → ℕ → Text → Text → ℕ → Cache → Baseline × Cache
compute_baseline logs now org agent window_days cache =
    let since = now - window_days * 24 * 60 * 60 * 1000 in
    let baseline = baseline_of org agent window_days now (rows_since org agent since logs) in
    (baseline, store (now + cache_ttl_ms) (baseline_key org agent window_days) baseline cache)

abbrev pub baseline_or : Option Baseline → Baseline × Cache → Cache → Baseline × Cache
baseline_or (some baseline) computed cache = (baseline, cache)
baseline_or none computed cache = computed

unfoldable pub get_baseline : List LogRow → ℕ → Text → Text → ℕ → Cache → Baseline × Cache
get_baseline logs now org agent window_days cache =
    baseline_or (cached now (baseline_key org agent window_days) cache)
      (compute_baseline logs now org agent window_days cache) cache

abbrev pub seen_of : Option Ratio → Ratio
seen_of none = whole 0
seen_of (some p) = p

-- 1 for a path that was never seen, 0 for one with a tenth of the calls, graded between.
unfoldable pub path_score_of : Ratio → Ratio
path_score_of seen =
    if is_zero seen
    then whole 1
    else if leb seen.den (seen.num * 10)
    then whole 0
    else over (seen.den - seen.num * 10) seen.den

unfoldable pub spike_multiplier : ℕ → Ratio → Ratio
spike_multiplier recent per_minute =
    if is_zero per_minute
    then whole (if ltb 5 recent then volume_spike_threshold else 0)
    else over (recent * per_minute.den) per_minute.num

unfoldable pub volume_score_of : ℕ → Ratio → Ratio
volume_score_of recent per_minute =
    let spike = spike_multiplier recent per_minute in
    at_most_one (over spike.num (spike.den * volume_spike_threshold))

unfoldable pub reason_of : Ratio → Ratio → Ratio → ℕ → Ratio → Text
reason_of seen path_score volume_score recent per_minute =
    let rate =
      decimal recent ++ (codes "/min vs baseline " ++ (fixed_text 2 per_minute ++ codes "/min)")) in
    if is_zero (greater_of path_score volume_score)
    then codes "Within baseline (path seen "
      ++ (percent_text seen ++ (codes "% of the time, rate " ++ rate))
    else codes "Path score "
      ++ (fixed_text 2 path_score
          ++ (codes " ("
              ++ ((if is_zero seen
                    then codes "never seen"
                    else percent_text seen ++ codes "% historical")
                  ++ (codes "), volume score "
                      ++ (fixed_text 2 volume_score ++ (codes " (" ++ rate))))))

unfoldable pub score_against : Baseline → Text → Text → ℕ → AnomalyScore
score_against baseline method path recent =
    let seen = seen_of (lookup (path_key method path) baseline.path_probability) in
    let path_score = path_score_of seen in
    let volume_score = volume_score_of recent baseline.baseline_calls_per_minute in
    record {
      composite = greater_of path_score volume_score;
      path_score = path_score;
      volume_score = volume_score;
      baseline_sample_count = baseline.sample_count;
      reason = reason_of seen path_score volume_score recent baseline.baseline_calls_per_minute;
    }

-- The clock's reading is the same for the baseline and for the last minute.
unfoldable pub score_request :
    List LogRow → ℕ → Text → Text → Text → Text → ℕ → Cache → AnomalyScore × Cache
score_request logs now org agent method path window_days cache =
    let (baseline, after) = get_baseline logs now org agent window_days cache in
    let recent = length (rows_since org agent (now - volume_lookback_ms) logs) in
    (score_against baseline method path recent, after)

-- Every window of the agent is forgotten.
unfoldable pub invalidate : Text → Text → Cache → Cache
invalidate org agent [] = []
invalidate org agent ((k, e) ∷ cache) =
    let rest = invalidate org agent cache in
    if starts_with k (org ++ (codes ":" ++ (agent ++ codes ":"))) then rest else (k, e) ∷ rest

unfoldable pub clear_cache : Cache → Cache
clear_cache cache = []
