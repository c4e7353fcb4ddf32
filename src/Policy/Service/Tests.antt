-- ===== src/Policy/Service/Tests.antt =====
-- apps/api/src/policy/policy.service.ts on concrete inputs.
use get_mcp.Base.{
  ℕ, ◌≡◌, refl, true, false, Option, none, some, List, [], ◌∷◌, codes, ◌==◌, lookup, trim,
}
use get_mcp.Json.{Json, get, integer_or}
use get_mcp.Cache.{cached}
use get_mcp.Policy.Rule.{RuleType, behavioral_anomaly, PolicyRule, external_mcp, EvalContext, allow}
use get_mcp.Policy.Engine.{base_match, dispatch, apply_rule, apply_anomaly, step, run, evaluate}
use get_mcp.Policy.Engine.Order.{sort_rules, insert_rule, not_after}
use get_mcp.Policy.PathMatch.{path_matches, method_matches, normalize}
use get_mcp.Policy.Service.{
  RuleRow, Evaluated, State, score_with, active_rows, active_rules, get_active_rules, enrich,
  surface, evaluate_request,
}
use get_mcp.Policy.Service.Currency.{Reaches, Step, IsCurrent, evaluate_request-IsCurrent}
use get_mcp.Policy.Service.Failures.{IsUnrelated, evaluate_request-IsUnrelated}

abbrev rule_of : RuleType → PolicyRule
rule_of type = record {
  id = codes "r1";
  name = codes "r1";
  description = codes "a rule";
  rule_type = type;
  target_method = codes "*";
  target_path = codes "/v1";
  action_config = Json.null;
  priority = 0;
  created_at = 0;
}

abbrev request : EvalContext
request = record {
  method = codes "POST";
  path = codes "/v1";
  source = external_mcp;
  organization_id = codes "o1";
  agent_id = some (codes "a1");
  tenant_id = none;
  reasoning = none;
  bypass_approval = false;
  anomaly_score = none;
  anomaly_reason = none;
  anomaly_baseline_sample_count = none;
}

abbrev table : RuleType → List RuleRow
table type = (record { organization_id = codes "o1"; is_active = true; rule = rule_of type }) ∷ []

abbrev idle : State
idle = record { cache = []; buckets = []; baselines = [] }

abbrev tables : ℕ → List RuleRow
tables t = table behavioral_anomaly

abbrev after : State
after = (evaluate_request (tables 1000) none 1000 request idle).1

evaluate_request-IsCurrent_example :
    (rules : List PolicyRule) × IsCurrent tables 3000 (codes "o1") rules
    × (let enriched = (enrich rules none 3000 request after.baselines).0 in
        (evaluate_request (tables 3000) none 3000 request after).0
        ≡ surface (evaluate rules enriched 3000 after.buckets).0 enriched.anomaly_score)
evaluate_request-IsCurrent_example =
    evaluate_request-IsCurrent tables (1000, idle) 3000 after none request refl
      (Reaches.next (Reaches.next Reaches.here (Step.request 1000 idle none request))
        (Step.wait 1000 2000 after))

abbrev or_allowed : Option Evaluated → Evaluated
or_allowed none = record { decision = record { verdict = allow; trace = [] }; anomaly_score = none }
or_allowed (some e) = e

-- An anomaly rule and a block rule.
abbrev both : List RuleRow
both =
    (record { organization_id = codes "o1"; is_active = true; rule = rule_of behavioral_anomaly })
    ∷ (record { organization_id = codes "o1"; is_active = true; rule = rule_of RuleType.block })
    ∷ []

abbrev decided : Evaluated
decided = or_allowed (evaluate_request both none 1000 request idle).0

evaluate_request-IsUnrelated_example : IsUnrelated decided.decision.verdict
unfolding evaluate_request get_active_rules active_rules active_rows cached lookup sort_rules
    insert_rule evaluate run step base_match method_matches path_matches normalize apply_rule
    dispatch apply_anomaly enrich ◌==◌ trim get not_after integer_or score_with
evaluate_request-IsUnrelated_example =
    evaluate_request-IsUnrelated both 1000 request idle decided ((λ e. refl), ((λ e. refl), tt))
      refl
