-- ===== src/Policy/Engine.antt =====
-- `evaluate` of apps/api/src/policy/policy.engine.ts. The limiter's buckets are passed through; `now`
-- is the clock's reading, the same throughout one evaluation. A throw (`pathMatches` on a template
-- that is no regular expression) leaves the buckets as the rules before it made them.
pub mod Order
pub mod Sorting
pub mod Steps
pub mod Safety
pub mod Isolation
pub mod Tenants
pub mod Total
use get_mcp.Base.{
  ℕ, Bool, true, false, not, ◌&&◌, Option, none, some, List, [], ◌∷◌, ◌++◌, ltb, if◌then◌else◌,
  Text, codes, ◌==◌, is_empty, includes, join, ℤ, pos, negsuc,
}
use get_mcp.Json.{Number, integer, fraction, Json, get, string_or, integer_or, number_or, less}
use get_mcp.Policy.Reasoning.{is_valid_reasoning, reasoning_rejection_reason}
use get_mcp.Policy.RateLimiter.{ConsumeResult, Buckets, consume}
use get_mcp.Policy.PathMatch.{path_matches, method_matches}
use get_mcp.Policy.Rule.{
  RuleType, allowlist, audit, rate_limit, mutation_approval, behavioral_anomaly, unknown,
  PolicyRule, Source, internal_mcp, external_mcp, EvalContext, Outcome, skipped, matched_allow,
  matched_block, matched_awaiting_approval, matched_rate_limited, matched_audit_ok,
  matched_audit_rejected, not_applicable_to_source, Detail, no_detail, already_approved,
  short_circuit_allow, missing_tenant_scope, only_external, rejected, would_notify, over_limit,
  consumed_token, insufficient_baseline, within_baseline, anomaly_audit_only, anomaly_blocked,
  anomaly_escalated, unknown_rule_type, EvaluationTrace, Reason, policy_violation, intercepted,
  audit_violation, missing_tenant_id, behavioural_anomaly, Verdict, allow, awaiting_approval,
  rate_limited, Decision,
}
use get_mcp.Policy.Rule
use Order.{sort_rules}

-- `a ?? fallback`
abbrev pub or_else {ℓ} : {A : Type ℓ} → Option A → A → A
or_else none fallback = fallback
or_else (some a) fallback = a

-- Whether `tenantId` is truthy.
abbrev pub is_given : Option Text → Bool
is_given none = false
is_given (some s) = not (is_empty s)

unfoldable pub build_bucket_key : Text → Text → EvalContext → Text
build_bucket_key scope rule_id ctx = join (codes "|") (
    rule_id
      ∷ ctx.organization_id
      ∷ (if includes scope (codes "agent")
          then or_else ctx.agent_id (codes "no-agent") ∷ []
          else [])
    ++ (if includes scope (codes "tenant")
        then or_else ctx.tenant_id (codes "no-tenant") ∷ []
        else []))

-- What the body of the loop does with one rule: `continue`, `return`, or throw.
pub data Step : Type 0 where
  continue : EvaluationTrace → Step
  return : Verdict → EvaluationTrace → Step
  throw : Step

abbrev pub entry : PolicyRule → Bool → Outcome → Detail → EvaluationTrace
entry rule matched outcome detail = record {
  rule_id = rule.id;
  rule_name = rule.name;
  rule_type = rule.rule_type;
  matched = matched;
  outcome = outcome;
  detail = detail;
}

-- The test of the two matchers; `pathMatches` runs, and may throw, only if the method matches.
unfoldable pub base_match : PolicyRule → EvalContext → Option Bool
base_match rule ctx =
    if method_matches rule.target_method ctx.method
    then path_matches rule.target_path ctx.path
    else some false

abbrev pub is_external_only : RuleType → Bool
is_external_only mutation_approval = true
is_external_only rate_limit = true
is_external_only behavioral_anomaly = true
is_external_only _ = false

abbrev pub is_mutation_approval : RuleType → Bool
is_mutation_approval mutation_approval = true
is_mutation_approval _ = false

abbrev pub is_external : Source → Bool
is_external external_mcp = true
is_external internal_mcp = false

-- The fields of `actionConfig`, with their defaults.
abbrev pub limit_of : PolicyRule → ℤ
limit_of rule = integer_or (get rule.action_config (codes "limit")) (pos 60)

abbrev pub window_ms_of : PolicyRule → ℤ
window_ms_of rule = integer_or (get rule.action_config (codes "windowMs")) (pos 60_000)

abbrev pub scope_of : PolicyRule → Text
scope_of rule = string_or (get rule.action_config (codes "scope")) (codes "agent+tenant")

abbrev pub sensitivity_of : PolicyRule → Number
sensitivity_of rule =
    number_or (get rule.action_config (codes "sensitivity")) (fraction (pos 95) 99)

abbrev pub min_samples_of : PolicyRule → ℤ
min_samples_of rule = integer_or (get rule.action_config (codes "minBaselineSamples")) (pos 50)

abbrev pub on_anomaly_of : PolicyRule → Text
on_anomaly_of rule = string_or (get rule.action_config (codes "onAnomaly")) (codes "audit_only")

-- The call of the limiter.
unfoldable pub consume_for : PolicyRule → EvalContext → ℕ → Buckets → ConsumeResult × Buckets
consume_for rule ctx now buckets =
    consume now (build_bucket_key (scope_of rule) rule.id ctx) (limit_of rule) (window_ms_of rule)
      buckets

-- case 'RATE_LIMIT', after the test of the tenant.
unfoldable pub apply_rate_limit : PolicyRule → EvalContext → ℕ → Buckets → Step × Buckets
apply_rate_limit rule ctx now buckets =
    let (result, after) = consume_for rule ctx now buckets in
    (
      (if result.allowed
          then continue (
              entry rule true matched_audit_ok (consumed_token (limit_of rule) (window_ms_of rule)))
          else return (rate_limited rule result.retry_after_ms) (
              entry rule true matched_rate_limited
                (over_limit (limit_of rule) (window_ms_of rule) result.retry_after_ms))),
      after,
    )

-- `sampleCount < minSamples`
abbrev pub fewer : ℕ → ℤ → Bool
fewer n (pos m) = ltb n m
fewer n (negsuc m) = false

-- case 'BEHAVIORAL_ANOMALY', when the score reaches the sensitivity.
unfoldable pub act_on_anomaly : PolicyRule → EvalContext → Number → Number → Step
act_on_anomaly rule ctx score sensitivity =
    let channel = string_or (get rule.action_config (codes "approverChannel")) (codes "#sec-ops") in
    let reason = behavioural_anomaly score ctx.anomaly_reason in
    if on_anomaly_of rule == codes "audit_only"
    then continue (entry rule true matched_audit_ok (anomaly_audit_only score sensitivity))
    else if on_anomaly_of rule == codes "approval"
    then return (awaiting_approval rule reason channel)
        (entry rule true matched_awaiting_approval (anomaly_escalated score sensitivity channel))
    else return (Rule.block rule reason)
        (entry rule true matched_block (anomaly_blocked score sensitivity))

unfoldable pub apply_anomaly : PolicyRule → EvalContext → Step
apply_anomaly rule ctx =
    let sample_count = or_else ctx.anomaly_baseline_sample_count 0 in
    let score = or_else ctx.anomaly_score (integer (pos 0)) in
    if fewer sample_count (min_samples_of rule)
    then continue
        (entry rule true skipped (insufficient_baseline sample_count (min_samples_of rule)))
    else if less score (sensitivity_of rule)
    then continue (entry rule true matched_audit_ok (within_baseline score (sensitivity_of rule)))
    else act_on_anomaly rule ctx score (sensitivity_of rule)

unfoldable pub apply_audit : PolicyRule → EvalContext → Step
apply_audit rule ctx =
    if is_valid_reasoning ctx.reasoning
    then continue (entry rule true matched_audit_ok no_detail)
    else let detail = reasoning_rejection_reason ctx.reasoning in
      return (Rule.block rule (audit_violation rule.name detail))
        (entry rule true matched_audit_rejected (rejected detail))

unfoldable pub apply_mutation_approval : PolicyRule → Step
apply_mutation_approval rule =
    let channel = string_or (get rule.action_config (codes "channel")) (codes "#ops") in
    return (awaiting_approval rule (intercepted rule.description) channel)
      (entry rule true matched_awaiting_approval (would_notify channel))

-- The `switch`.
unfoldable pub dispatch : RuleType → PolicyRule → EvalContext → ℕ → Buckets → Step × Buckets
dispatch allowlist rule ctx now buckets =
    (return allow (entry rule true matched_allow short_circuit_allow), buckets)
dispatch RuleType.block rule ctx now buckets = (
  return (Rule.block rule (policy_violation rule.description))
      (entry rule true matched_block no_detail),
  buckets,
)
dispatch audit rule ctx now buckets = (apply_audit rule ctx, buckets)
dispatch mutation_approval rule ctx now buckets = (apply_mutation_approval rule, buckets)
dispatch rate_limit rule ctx now buckets =
    if is_given ctx.tenant_id then apply_rate_limit rule ctx now buckets else (
      return (Rule.block rule (missing_tenant_id rule.name))
          (entry rule true matched_block missing_tenant_scope),
      buckets,
    )
dispatch behavioral_anomaly rule ctx now buckets = (apply_anomaly rule ctx, buckets)
dispatch (unknown type) rule ctx now buckets =
    (continue (entry rule true skipped (unknown_rule_type type)), buckets)

-- What follows the test of the matchers, by the rule's type.
unfoldable pub apply_rule : RuleType → PolicyRule → EvalContext → ℕ → Buckets → Step × Buckets
apply_rule type rule ctx now buckets =
    if is_mutation_approval type && ctx.bypass_approval
    then (continue (entry rule true skipped already_approved), buckets)
    else if is_external_only type && not (is_external ctx.source)
    then (continue (entry rule true not_applicable_to_source (only_external type)), buckets)
    else dispatch type rule ctx now buckets

-- The body of the loop.
unfoldable pub step : PolicyRule → EvalContext → ℕ → Buckets → Step × Buckets
step rule ctx now buckets = elim (base_match rule ctx) [
  | none ↦ (throw, buckets)
  | some false ↦ (continue (entry rule false skipped no_detail), buckets)
  | some true ↦ apply_rule rule.rule_type rule ctx now buckets
]

-- The loop; `none` is a throw.
unfoldable pub run :
    List PolicyRule → EvalContext → ℕ → List EvaluationTrace → Buckets → Option Decision × Buckets
run [] ctx now trace buckets = (some (record { verdict = allow; trace = trace }), buckets)
run (rule ∷ rules) ctx now trace buckets =
    let (s, after) = step rule ctx now buckets in
    elim s [
      | continue t ↦ run rules ctx now (trace ++ t ∷ []) after
      | return v t ↦ (some (record { verdict = v; trace = trace ++ t ∷ [] }), after)
      | throw ↦ (none, after)
    ]

unfoldable pub evaluate : List PolicyRule → EvalContext → ℕ → Buckets → Option Decision × Buckets
evaluate rules ctx now buckets = run (sort_rules rules) ctx now [] buckets
