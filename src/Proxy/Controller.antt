-- ===== src/Proxy/Controller.antt =====
-- `executeAgentAction` of apps/api/src/proxy/proxy.controller.ts, up to the stream of a proxied answer.
-- The body names a path, and its size is an argument; the clock's reading is the same throughout.
pub mod Gate
pub mod Outcomes
use get_mcp.Base.{
  ℕ, suc, ◌+◌, ◌*◌, ◌/◌, Bool, true, false, not, ◌&&◌, ◌||◌, Option, none, some, List, [], ◌∷◌, ltb,
  if◌then◌else◌, Text, codes, ◌==◌, is_empty, lookup, ◌=?◌,
}
use get_mcp.Json.{Json, Number}
use get_mcp.Agents.{ResolvedAgent, resolve}
use get_mcp.Agents as Agents
use get_mcp.Policy.Rule.{PolicyRule, Reason}
use get_mcp.Policy.Service as Service
use get_mcp.Approval.Pending.{PendingRequest}
use get_mcp.Approval.Store.{CreatePendingInput, create_pending}
use get_mcp.Approval.Store as Approval
use get_mcp.Proxy.Forward.{
  AgentRequest, Organization, UpstreamRequest, Outside, Refusal, Thrown, ProxyOutcome,
}
use get_mcp.Proxy.Intercept.{Tables, intercept_and_execute}
use get_mcp.Proxy.Call.{
  Call, EntryReason, unknown_agent, agent_revoked, agent_disabled, client_disconnected, refused,
  error_message, held, Action, blocked, awaiting_approval, executed, incomplete, Entry, Response,
  missing_agent_id, unknown_agent_id, agent_is_revoked, agent_is_disabled, source_mismatch,
  tenant_mismatch, rethrown, accepted, not_stored, streaming, State, given, header, header_source,
  text_or, method_of, entry_of, logged, request_of,
}

abbrev pub status_of : Thrown → ℕ
status_of (Thrown.http_exception status reason ms score) = status
status_of _ = 500

abbrev pub reason_of : Thrown → EntryReason
reason_of (Thrown.http_exception status reason ms score) = refused reason
reason_of t = error_message t

abbrev pub score_of : Thrown → Option Number
score_of (Thrown.http_exception status reason ms score) = score
score_of _ = none

-- `Math.max(1, Math.ceil(ms / 1000))`, where `ms` is not 0.
abbrev seconds : Option ℕ → Option ℕ
seconds none = none
seconds (some ℕ.zero) = none
seconds (some (suc n)) = some ((suc n + 999) / 1000)

unfoldable pub retry_after : Thrown → Option ℕ
retry_after (Thrown.http_exception status reason ms score) =
    if status =? 429 then seconds ms else none
retry_after _ = none

abbrev pub gateway_status : ℕ → Option ℕ
gateway_status status = if status =? 502 || status =? 504 then some status else none

-- The `catch`.
unfoldable pub catch_error : Call → ResolvedAgent → Thrown → State → Response × State
catch_error call agent t s =
    let e = entry_of call (some agent.id) agent.source (some (reason_of t)) blocked (score_of t) in
    (
      rethrown t (retry_after t),
      logged (record e { upstream_status = gateway_status (status_of t) }) s,
    )

abbrev default_channel : Option Organization → Option Text
default_channel none = none
default_channel (some org) = org.slack_default_channel

-- `channel || orgRow?.slackDefaultChannel || '#approvals'`
unfoldable pub channel_of : Text → Option Organization → Text
channel_of channel org =
    if is_empty channel
    then text_or (given (some (default_channel org))) (codes "#approvals")
    else channel

unfoldable pub pending_input : Call → ResolvedAgent → PolicyRule → Text → CreatePendingInput
pending_input call agent rule channel = record {
  organization_id = call.organization_id;
  agent_id = agent.id;
  api_key_id = call.api_key_id;
  method = method_of call;
  path = call.path;
  query = call.query;
  body = call.payload;
  source = agent.source;
  tenant_id = header call (codes "x-tenant-id");
  reasoning = header call (codes "x-agent-reasoning");
  rule_id = rule.id;
  rule_name = rule.name;
  channel = channel;
  ttl_ms = none;
}

abbrev pub stored : Text → Option PendingRequest → Response
stored id none = not_stored
stored id (some r) = accepted id r

-- The outcome `AWAITING_APPROVAL`; `id` is the id that the database gives to the new row.
unfoldable pub hold :
    Tables
    → ℕ
    → Text
    → Call
    → ResolvedAgent
    → PolicyRule
    → Reason
    → Text
    → Option Number
    → State
    → Response × State
hold tables now id call agent rule reason channel score s =
    let e =
      entry_of call (some agent.id) agent.source (some (held reason)) awaiting_approval score in
    let to = channel_of channel (lookup call.organization_id tables.organizations) in
    let (row, db) = create_pending (pending_input call agent rule to) id now s.approvals in
    (stored id row, record (logged e s) { approvals = db })

unfoldable pub respond :
    Tables → ℕ → Text → Call → ResolvedAgent → ProxyOutcome → State → Response × State
respond tables now id call agent (ProxyOutcome.thrown t) s = catch_error call agent t s
respond tables now id call agent (ProxyOutcome.awaiting_approval rule reason channel score) s =
    hold tables now id call agent rule reason channel score s
respond tables now id call agent (ProxyOutcome.proxied status headers score) s =
    (streaming status headers score, s)

abbrev pub sending : Option UpstreamRequest → List UpstreamRequest → List UpstreamRequest
sending none sent = sent
sending (some u) sent = u ∷ sent

-- The call of the proxy, for an agent that may act.
unfoldable pub proxy_call :
    Outside → Tables → ℕ → Text → Call → ResolvedAgent → State → Response × State
proxy_call outside tables now id call agent s =
    let (out, policy) = intercept_and_execute outside tables now (request_of call agent) s.policy in
    respond tables now id call agent out.0
      (record s { policy = policy; sent = sending out.1 s.sent })

abbrev pub is_revoked : ResolvedAgent → Bool
is_revoked agent = elim agent.revoked_at [ none ↦ false | some t ↦ true ]

abbrev refused_agent : ResolvedAgent → EntryReason
refused_agent agent = if is_revoked agent then agent_revoked else agent_disabled

-- `headerSource && headerSource !== agent.source`
abbrev differs : Option Text → Text → Bool
differs none source = false
differs (some s) source = not (is_empty s) && not (s == source)

-- `agent.tenantScope && tenantId !== agent.tenantScope`
abbrev outside_scope : Option Text → Option Text → Bool
outside_scope none tenant = false
outside_scope (some scope) none = not (is_empty scope)
outside_scope (some scope) (some tenant) = not (is_empty scope) && not (tenant == scope)

-- With the agent that was resolved.
unfoldable pub with_agent :
    Outside → Tables → ℕ → Text → Call → Text → Option ResolvedAgent → State → Response × State
with_agent outside tables now id call agent_id none s = (
  unknown_agent_id,
  logged
      (entry_of call none (text_or (header_source call) (codes "external_mcp"))
        (some (unknown_agent agent_id)) blocked none)
      s,
)
with_agent outside tables now id call agent_id (some agent) s =
    if not agent.enabled || is_revoked agent
    then (
      (if is_revoked agent then agent_is_revoked else agent_is_disabled),
      logged (entry_of call (some agent.id) agent.source (some (refused_agent agent)) blocked none)
          s,
    )
    else if differs (header_source call) agent.source
    then (source_mismatch, s)
    else if outside_scope agent.tenant_scope (header call (codes "x-tenant-id"))
    then (tenant_mismatch, s)
    else proxy_call outside tables now id call agent s

abbrev pub named_agent :
    Outside
    → Tables
    → (Text → Text → Option ResolvedAgent)
    → ℕ
    → Text
    → Call
    → Option Text
    → State
    → Response × State
named_agent outside tables agents now id call none s = (missing_agent_id, s)
named_agent outside tables agents now id call (some agent_id) s =
    let (agent, cache) = resolve agents now call.organization_id agent_id s.agents in
    with_agent outside tables now id call agent_id agent (record s { agents = cache })

unfoldable pub execute_agent_action :
    Outside
    → Tables
    → (Text → Text → Option ResolvedAgent)
    → ℕ
    → Text
    → Call
    → State
    → Response × State
execute_agent_action outside tables agents now id call s =
    named_agent outside tables agents now id call (header call (codes "x-agent-id")) s
