-- ===== src/Policy/Rule.antt =====
-- The types of policy.engine.ts: rules, contexts, traces and decisions. Message texts that the source
-- builds from templates are kept as data that holds their parts.
use get_mcp.Base.{ℕ, Bool, Option, List, Text, ℤ}
use get_mcp.Json.{Number, Json}
use get_mcp.Policy.Reasoning.{Rejection}

-- The strings that `switch (rule.ruleType)` tells apart; any other string is `unknown`.
pub data RuleType : Type 0 where
  allowlist block audit rate_limit mutation_approval behavioral_anomaly : RuleType
  unknown : Text → RuleType

pub record PolicyRule : Type 0 where
  pub id : Text
  pub name : Text
  pub description : Text
  pub rule_type : RuleType
  pub target_method : Text
  pub target_path : Text
  pub action_config : Json
  pub priority : ℕ
  pub created_at : ℕ

pub data Source : Type 0 where
  internal_mcp external_mcp : Source

pub record EvalContext : Type 0 where
  pub method : Text
  pub path : Text
  pub source : Source
  pub organization_id : Text
  pub agent_id : Option Text
  pub tenant_id : Option Text
  pub reasoning : Option Text
  pub bypass_approval : Bool
  pub anomaly_score : Option Number
  pub anomaly_reason : Option Text
  pub anomaly_baseline_sample_count : Option ℕ

pub data Outcome : Type 0 where
  skipped matched_allow matched_block matched_awaiting_approval matched_rate_limited : Outcome
  matched_audit_ok matched_audit_rejected not_applicable_to_source : Outcome

-- The `detail` texts of the trace.
pub data Detail : Type 0 where
  no_detail already_approved short_circuit_allow missing_tenant_scope : Detail
  only_external : RuleType → Detail
  rejected : Rejection → Detail
  would_notify : Text → Detail
  over_limit : ℤ → ℤ → ℕ → Detail
  consumed_token : ℤ → ℤ → Detail
  insufficient_baseline : ℕ → ℤ → Detail
  within_baseline : Number → Number → Detail
  anomaly_audit_only anomaly_blocked : Number → Number → Detail
  anomaly_escalated : Number → Number → Text → Detail
  unknown_rule_type : Text → Detail

pub record EvaluationTrace : Type 0 where
  pub rule_id : Text
  pub rule_name : Text
  pub rule_type : RuleType
  pub matched : Bool
  pub outcome : Outcome
  pub detail : Detail

-- The `reason` texts: the violated rule's description, and so on.
pub data Reason : Type 0 where
  policy_violation intercepted : Text → Reason
  audit_violation : Text → Rejection → Reason
  missing_tenant_id : Text → Reason
  behavioural_anomaly : Number → Option Text → Reason

-- A decision without its trace.
pub data Verdict : Type 0 where
  allow : Verdict
  block : PolicyRule → Reason → Verdict
  awaiting_approval : PolicyRule → Reason → Text → Verdict
  rate_limited : PolicyRule → ℕ → Verdict

pub record Decision : Type 0 where
  pub verdict : Verdict
  pub trace : List EvaluationTrace
