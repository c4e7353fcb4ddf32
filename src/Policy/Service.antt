-- ===== src/Policy/Service.antt =====
-- PolicyService of apps/api/src/policy/policy.service.ts: the rules of an organisation from a cache, the
-- anomaly score, and the engine. The policy counters of the metrics are left out.
pub mod Currency
pub mod Failures
mod Tests
use get_mcp.Base.{
  ℕ, suc, ◌+◌, Bool, true, false, ◌&&◌, Option, none, some, List, [], ◌∷◌, ltb, any, if◌then◌else◌,
  Text, codes, ◌==◌, is_empty, remove, ℤ, pos, negsuc, not, ◌=?◌,
}
use get_mcp.Json.{Number, integer, fraction, get, integer_or}
use get_mcp.Cache.{CacheEntry, cached, store}
use get_mcp.Policy.RateLimiter.{Buckets}
use get_mcp.Policy.Rule.{RuleType, behavioral_anomaly, PolicyRule, EvalContext, Decision}
use get_mcp.Policy.Engine.{evaluate}
use get_mcp.Policy.Engine.Order.{sort_rules}
use get_mcp.Policy.Baseline.{LogRow, AnomalyScore, score_request}
use get_mcp.Policy.Baseline as Baseline
use get_mcp.Policy.Baseline.Quotients.{Ratio}

abbrev pub ttl_ms : ℕ
ttl_ms = 5_000

-- A row of the table of rules; the columns that `lite` drops are those outside `rule`.
pub record RuleRow : Type 0 where
  pub organization_id : Text
  pub is_active : Bool
  pub rule : PolicyRule

abbrev pub Cache : Type 0
Cache = List (Text × CacheEntry (List PolicyRule))

-- What the service and its limiter and baselines keep.
pub record State : Type 0 where
  pub cache : Cache
  pub buckets : Buckets
  pub baselines : Baseline.Cache

-- `where: { organizationId, isActive: true }`, and `lite`
unfoldable pub active_rows : Text → List RuleRow → List PolicyRule
active_rows org [] = []
active_rows org (r ∷ table) =
    let rest = active_rows org table in
    if r.organization_id == org && r.is_active then r.rule ∷ rest else rest

-- `orderBy: [{ priority: 'asc' }, { createdAt: 'asc' }]`
unfoldable pub active_rules : List RuleRow → Text → List PolicyRule
active_rules table org = sort_rules (active_rows org table)

abbrev pub rules_or :
    Option (List PolicyRule) → ℕ → Text → List PolicyRule → Cache → List PolicyRule × Cache
rules_or (some rules) now org lite cache = (rules, cache)
rules_or none now org lite cache = (lite, store (now + ttl_ms) org lite cache)

unfoldable pub get_active_rules : List RuleRow → ℕ → Text → Cache → List PolicyRule × Cache
get_active_rules table now org cache =
    rules_or (cached now org cache) now org (active_rules table org) cache

unfoldable pub invalidate : Text → Cache → Cache
invalidate org cache = remove org cache

unfoldable pub clear_cache : Cache → Cache
clear_cache cache = []

abbrev pub is_anomaly : RuleType → Bool
is_anomaly behavioral_anomaly = true
is_anomaly _ = false

-- A whole number above zero, or 7.
abbrev pub days_or_week : ℤ → ℕ
days_or_week (pos (suc n)) = suc n
days_or_week _ = 7

unfoldable pub window_of : PolicyRule → ℕ
window_of rule =
    days_or_week (integer_or (get rule.action_config (codes "baselineWindowDays")) (pos 7))

abbrev pub greater : ℕ → ℕ → ℕ
greater a b = if ltb a b then b else a

-- The filter, the map and the reduction, which begins with `longest`.
unfoldable pub longest_window : ℕ → List PolicyRule → ℕ
longest_window longest [] = longest
longest_window longest (r ∷ rules) =
    longest_window (if is_anomaly r.rule_type then greater longest (window_of r) else longest) rules

abbrev pub to_number : Ratio → Number
to_number r = elim r.den [ ℕ.zero ↦ integer (pos r.num) | suc d ↦ fraction (pos r.num) d ]

-- `{ ...ctx, anomalyScore, anomalyReason, anomalyBaselineSampleCount }`
unfoldable pub with_score : EvalContext → AnomalyScore → EvalContext
with_score ctx score = record ctx {
  anomaly_score = some (to_number score.composite);
  anomaly_reason = some score.reason;
  anomaly_baseline_sample_count = some score.baseline_sample_count;
}

-- The call of `scoreRequest`; `none` for the logs is a throw, which is caught.
unfoldable pub score_with :
    Option (List LogRow)
    → ℕ
    → Text
    → ℕ
    → EvalContext
    → Baseline.Cache
    → EvalContext × Baseline.Cache
score_with none now agent window ctx baselines = (ctx, baselines)
score_with (some logs) now agent window ctx baselines =
    let (score, after) =
      score_request logs now ctx.organization_id agent ctx.method ctx.path window baselines in
    (with_score ctx score, after)

-- An agent id that is missing or empty is not scored.
abbrev pub score_agent :
    Option Text
    → Option (List LogRow)
    → ℕ
    → ℕ
    → EvalContext
    → Baseline.Cache
    → EvalContext × Baseline.Cache
score_agent none logs now window ctx baselines = (ctx, baselines)
score_agent (some agent) logs now window ctx baselines =
    if is_empty agent then (ctx, baselines) else score_with logs now agent window ctx baselines

unfoldable pub enrich :
    List PolicyRule
    → Option (List LogRow)
    → ℕ
    → EvalContext
    → Baseline.Cache
    → EvalContext × Baseline.Cache
enrich rules logs now ctx baselines =
    if any (λ r. is_anomaly r.rule_type) rules
    then score_agent ctx.agent_id logs now (longest_window 7 rules) ctx baselines
    else (ctx, baselines)

-- The decision, with the anomaly score that is put on it.
pub record Evaluated : Type 0 where
  pub decision : Decision
  pub anomaly_score : Option Number

abbrev pub surface : Option Decision → Option Number → Option Evaluated
surface none score = none
surface (some d) score = some (record { decision = d; anomaly_score = score })

-- `evaluate`; `none` is a throw of the engine.
unfoldable pub evaluate_request :
    List RuleRow → Option (List LogRow) → ℕ → EvalContext → State → Option Evaluated × State
evaluate_request table logs now ctx s =
    let (rules, cache) = get_active_rules table now ctx.organization_id s.cache in
    let (enriched, baselines) = enrich rules logs now ctx s.baselines in
    let (decision, buckets) = evaluate rules enriched now s.buckets in
    (
      surface decision enriched.anomaly_score,
      record { cache = cache; buckets = buckets; baselines = baselines },
    )
