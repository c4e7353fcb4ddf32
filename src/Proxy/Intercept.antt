-- ===== src/Proxy/Intercept.antt =====
-- `interceptAndExecute` of apps/api/src/proxy/proxy.service.ts.
pub mod Safety
use get_mcp.Base.{
  ℕ, Bool, Option, none, some, List, [], if◌then◌else◌, Text, codes, ◌==◌, is_empty, lookup,
}
use get_mcp.Policy.Rule.{
  Source, internal_mcp, external_mcp, EvalContext, Verdict, allow, rate_limited,
}
use get_mcp.Policy.Rule
use get_mcp.Policy.Baseline.{LogRow}
use get_mcp.Policy.Service.{RuleRow, State, Evaluated, evaluate_request}
use get_mcp.Proxy.Headers.{Incoming}
use get_mcp.Proxy.Forward.{
  AgentRequest, Organization, UpstreamRequest, Outside, Refusal, Thrown, ProxyOutcome, refused_with,
  forward_upstream,
}

-- The tables that are read; the audit log may fail to be read.
pub record Tables : Type 0 where
  pub rules : List RuleRow
  pub logs : Option (List LogRow)
  pub organizations : List (Text × Organization)

-- The engine asks only whether the source is external.
abbrev pub source_of : Text → Source
source_of s = if s == codes "external_mcp" then external_mcp else internal_mcp

abbrev or_none : Option (Option Text) → Option Text
or_none none = none
or_none (some value) = value

abbrev pub reasoning_of : Option Incoming → Option Text
reasoning_of none = none
reasoning_of (some headers) = or_none (lookup (codes "x-agent-reasoning") headers)

unfoldable pub context_of : AgentRequest → EvalContext
context_of req = record {
  method = req.method;
  path = req.path;
  source = source_of req.source;
  organization_id = req.organization_id;
  agent_id = req.agent_id;
  tenant_id = req.tenant_id;
  reasoning = reasoning_of req.headers;
  bypass_approval = req.bypass_approval;
  anomaly_score = none;
  anomaly_reason = none;
  anomaly_baseline_sample_count = none;
}

-- What follows the decision; `none` is a throw of the engine.
unfoldable pub act_on :
    Outside → Tables → AgentRequest → Option Evaluated → ProxyOutcome × Option UpstreamRequest
act_on outside tables req none = (ProxyOutcome.thrown Thrown.template_error, none)
act_on outside tables req (some e) = elim e.decision.verdict [
  | Rule.block rule reason ↦ (
    ProxyOutcome.thrown
        (Thrown.http_exception 403 (Refusal.blocked_by reason) none e.anomaly_score),
    none,
  )
  | rate_limited rule ms ↦ (
    ProxyOutcome.thrown (
        Thrown.http_exception 429 (Refusal.rate_limit_exceeded rule.name) (some ms)
          e.anomaly_score),
    none,
  )
  | Verdict.awaiting_approval rule reason channel ↦
      (ProxyOutcome.awaiting_approval rule reason channel e.anomaly_score, none)
  | allow ↦
      forward_upstream outside req e.anomaly_score (lookup req.organization_id tables.organizations)
]

unfoldable pub intercept_and_execute :
    Outside → Tables → ℕ → AgentRequest → State → (ProxyOutcome × Option UpstreamRequest) × State
intercept_and_execute outside tables now req s =
    if is_empty req.organization_id
    then ((refused_with 401 Refusal.missing_organization, none), s)
    else let (decided, after) = evaluate_request tables.rules tables.logs now (context_of req) s in
      (act_on outside tables req decided, after)
