-- ===== src/Policy/Tests.antt =====
-- The policy modules on concrete inputs: reasoning.util.ts, rate-limiter.ts and policy.engine.ts.
use mathlib.Core.List.{Memᴰ, Perm}
use get_mcp.Base.{
  ℕ, ◌+◌, ◌*◌, ◌≤◌, ◌≡◌, ◌⊎◌, refl, false, Option, none, some, List, [], ◌∷◌, arith, Text, codes,
  ◌==◌, different_text, includes, starts_with, to_upper, lookup,
}
use get_mcp.Json.{Json, get, string_or}
use get_mcp.Policy.RateLimiter.{reset}
use get_mcp.Policy.RateLimiter.Bound.{admitted, admitted-bound}
use get_mcp.Policy.PathMatch.{path_matches, method_matches, normalize}
use get_mcp.Policy.Rule.{
  RuleType, allowlist, rate_limit, mutation_approval, behavioral_anomaly, PolicyRule, external_mcp,
  EvalContext, Decision, allow, intercepted,
}
use get_mcp.Policy.Engine.{
  build_bucket_key, base_match, apply_mutation_approval, dispatch, apply_rule, step, run, evaluate,
  on_anomaly_of,
}
use get_mcp.Policy.Engine.Order.{not_after, insert_rule, sort_rules}
use get_mcp.Policy.Engine.Sorting.{sort_rules_lem, IsOrdered}
use get_mcp.Policy.Engine.Safety.{
  Decides, evaluate-Decides, evaluate-awaiting, Overrides, evaluate-Overrides,
}
use get_mcp.Policy.Engine.Total.{IsReturned, evaluate-returns}
use get_mcp.Policy.Engine.Tenants.{evaluate-organization, evaluate-tenant}

-- Two calls a minute, at the start and thrice in the second second.
admitted-bound_example :
    admitted 2 60000 (codes "k") (0 ∷ 1000 ∷ 1001 ∷ 31000 ∷ []) reset * 60000
    ≤ 2 * 60000 + 31000 * 2
unfolding lookup
admitted-bound_example =
    admitted-bound 2 60000 (codes "k") 0 (1000 ∷ 1001 ∷ 31000 ∷ []) reset (omega arith)
      (omega arith) tt (omega arith, (omega arith, (omega arith, tt)))

abbrev rule_at : RuleType → ℕ → Text → Text → PolicyRule
rule_at type priority id path = record {
  id = id;
  name = id;
  description = codes "a rule";
  rule_type = type;
  target_method = codes "POST";
  target_path = path;
  action_config = Json.null;
  priority = priority;
  created_at = 0;
}

abbrev request : Text → Text → EvalContext
request org path = record {
  method = codes "POST";
  path = path;
  source = external_mcp;
  organization_id = org;
  agent_id = some (codes "a1");
  tenant_id = some (codes "t1");
  reasoning = none;
  bypass_approval = false;
  anomaly_score = none;
  anomaly_reason = none;
  anomaly_baseline_sample_count = none;
}

abbrev permit : PolicyRule
permit = rule_at allowlist 0 (codes "r0") (codes "/pay")

abbrev hold : PolicyRule
hold = rule_at mutation_approval 1 (codes "r1") (codes "/pay")

abbrev deny : PolicyRule
deny = rule_at RuleType.block 2 (codes "r2") (codes "*")

abbrev limit : PolicyRule
limit = rule_at rate_limit 3 (codes "r3") (codes "/pay")

sort_rules_lem_example :
    Perm (sort_rules (deny ∷ permit ∷ [])) (deny ∷ permit ∷ [])
    × IsOrdered (sort_rules (deny ∷ permit ∷ []))
sort_rules_lem_example = sort_rules_lem (deny ∷ permit ∷ [])

-- The decision of an evaluation at a clock that reads 0 and with no buckets.
abbrev decision_of : Option Decision → Decision
decision_of none = record { verdict = allow; trace = [] }
decision_of (some d) = d

abbrev decision : EvalContext → List PolicyRule → Decision
decision ctx rules = decision_of (evaluate rules ctx 0 reset).0

run_engine : Unit {0}
unfolding evaluate run step apply_rule dispatch base_match path_matches method_matches normalize
    sort_rules insert_rule not_after ◌==◌ to_upper apply_mutation_approval
run_engine = tt

evaluate-Decides_example :
    Decides
      (request (codes "o") (codes "/pay"))
      0
      (sort_rules (deny ∷ hold ∷ []))
      reset
      (decision (request (codes "o") (codes "/pay")) (deny ∷ hold ∷ [])).verdict
unfolding run_engine
evaluate-Decides_example =
    evaluate-Decides (request (codes "o") (codes "/pay")) 0 (deny ∷ hold ∷ []) reset reset
      (decision (request (codes "o") (codes "/pay")) (deny ∷ hold ∷ [])) refl

evaluate-awaiting_example :
    ((request (codes "o") (codes "/pay")).source ≡ external_mcp)
    × (((hold.rule_type ≡ mutation_approval)
          × ((request (codes "o") (codes "/pay")).bypass_approval ≡ false))
        ⊎ ((hold.rule_type ≡ behavioral_anomaly) × (on_anomaly_of hold ≡ codes "approval")))
unfolding run_engine get string_or
evaluate-awaiting_example =
    evaluate-awaiting (request (codes "o") (codes "/pay")) 0 (deny ∷ hold ∷ []) reset reset
      (decision (request (codes "o") (codes "/pay")) (deny ∷ hold ∷ [])) hold
      (intercepted (codes "a rule")) (codes "#ops") refl refl

evaluate-Overrides_example :
    Overrides (request (codes "o") (codes "/pay")) (deny ∷ permit ∷ []) deny
unfolding run_engine
evaluate-Overrides_example =
    evaluate-Overrides (request (codes "o") (codes "/pay")) 0 (deny ∷ permit ∷ []) reset reset
      (decision (request (codes "o") (codes "/pay")) (deny ∷ permit ∷ [])) deny refl refl
      (Memᴰ.head refl) refl refl

evaluate-organization_example :
    lookup
      (build_bucket_key (codes "tenant") (codes "r3") (request (codes "p") (codes "/pay")))
      (evaluate (limit ∷ []) (request (codes "o") (codes "/pay")) 0 reset).1
    ≡ lookup
        (build_bucket_key (codes "tenant") (codes "r3") (request (codes "p") (codes "/pay")))
        reset
unfolding ◌==◌
evaluate-organization_example =
    evaluate-organization (request (codes "o") (codes "/pay")) (request (codes "p") (codes "/pay"))
      0 (limit ∷ []) reset (codes "tenant") (codes "r3")
      (((λ e. omega arith), tt), (((λ e. omega arith), ((λ e. omega arith), tt)), tt))
      ((λ e. omega arith), tt) ((λ e. omega arith), ((λ e. omega arith), tt)) (different_text refl)

-- The same request for another tenant.
abbrev other_tenant : EvalContext
other_tenant = record (request (codes "o") (codes "/pay")) { tenant_id = some (codes "t2") }

evaluate-tenant_example :
    lookup
      (build_bucket_key (codes "agent+tenant") (codes "r3") other_tenant)
      (evaluate (limit ∷ []) (request (codes "o") (codes "/pay")) 0 reset).1
    ≡ lookup (build_bucket_key (codes "agent+tenant") (codes "r3") other_tenant) reset
unfolding includes starts_with get string_or ◌==◌
evaluate-tenant_example =
    evaluate-tenant (request (codes "o") (codes "/pay")) other_tenant 0 (limit ∷ []) reset
      (codes "agent+tenant") (codes "r3")
      (
        (((λ e. omega arith), tt), (((λ e. omega arith), ((λ e. omega arith), tt)), tt)),
        ((λ e. omega arith), ((λ e. omega arith), tt)),
        ((refl, refl), tt),
      )
      (
        ((λ e. omega arith), ((λ e. omega arith), tt)),
        ((λ e. omega arith), tt),
        ((λ e. omega arith), ((λ e. omega arith), tt)),
        (refl, refl),
      )
      (different_text refl)

evaluate-returns_example :
    IsReturned (evaluate (hold ∷ limit ∷ []) (request (codes "o") (codes "/pay")) 0 reset)
unfolding run_engine
evaluate-returns_example =
    evaluate-returns (request (codes "o") (codes "/pay")) 0 (hold ∷ limit ∷ []) reset
      ((λ e. cc), ((λ e. cc), tt))
