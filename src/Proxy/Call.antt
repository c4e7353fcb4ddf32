-- ===== src/Proxy/Call.antt =====
-- The requests, responses and audit entries of apps/api/src/proxy/proxy.controller.ts.
use get_mcp.Base.{
  ℕ, false, Option, none, some, List, ◌∷◌, if◌then◌else◌, Text, codes, is_empty, lookup,
}
use get_mcp.Json.{Json, Number}
use get_mcp.Agents.{ResolvedAgent}
use get_mcp.Agents as Agents
use get_mcp.Policy.Rule.{Reason}
use get_mcp.Policy.Service as Service
use get_mcp.Approval.Pending.{PendingRequest}
use get_mcp.Approval.Store as Approval
use get_mcp.Proxy.Headers.{Incoming, Headers}
use get_mcp.Proxy.Forward.{AgentRequest, UpstreamRequest, Refusal, Thrown}

-- A request to POST /proxy/execute, of an API key's organisation.
pub record Call : Type 0 where
  pub organization_id : Text
  pub api_key_id : Text
  pub headers : Incoming
  pub method : Option Text
  pub path : Text
  pub query : Option Json
  pub payload : Option Json
  pub request_bytes : ℕ

-- The `reason` of an audit entry.
pub data EntryReason : Type 0 where
  unknown_agent : Text → EntryReason
  agent_revoked agent_disabled client_disconnected : EntryReason
  refused : Refusal → EntryReason
  error_message : Thrown → EntryReason
  held : Reason → EntryReason

pub data Action : Type 0 where
  blocked awaiting_approval executed incomplete : Action

-- An input of `recordSafe`; the latency is left out.
pub record Entry : Type 0 where
  pub organization_id : Text
  pub api_key_id : Text
  pub agent_id : Option Text
  pub method : Text
  pub path : Text
  pub source : Text
  pub tenant_id : Option Text
  pub reasoning : Option Text
  pub reason : Option EntryReason
  pub action_taken : Action
  pub upstream_status : Option ℕ
  pub request_bytes : ℕ
  pub response_bytes : Option ℕ
  pub anomaly_score : Option Number

pub data Response : Type 0 where
  missing_agent_id unknown_agent_id agent_is_revoked agent_is_disabled : Response
  source_mismatch tenant_mismatch : Response
  -- the error of the proxy, with the Retry-After header
  rethrown : Thrown → Option ℕ → Response
  accepted : Text → PendingRequest → Response
  -- the table of held requests refused the new row
  not_stored : Response
  -- the status and the headers of a stream that follows
  streaming : ℕ → Headers → Option Number → Response

-- The services' state, the audit entries that were handed over and what was sent upstream.
pub record State : Type 0 where
  pub agents : Agents.Cache
  pub policy : Service.State
  pub approvals : Approval.Db
  pub entries : List Entry
  pub sent : List UpstreamRequest

abbrev pub given : Option (Option Text) → Option Text
given (some (some s)) = if is_empty s then none else some s
given _ = none

-- `allHeaders[name] || null`
unfoldable pub header : Call → Text → Option Text
header call name = given (lookup name call.headers)

abbrev present : Option (Option Text) → Option Text
present (some value) = value
present none = none

-- `allHeaders['x-agent-source']`
unfoldable pub header_source : Call → Option Text
header_source call = present (lookup (codes "x-agent-source") call.headers)

abbrev pub text_or : Option Text → Text → Text
text_or none other = other
text_or (some s) other = s

-- `body?.method || 'GET'`
unfoldable pub method_of : Call → Text
method_of call = text_or (given (some call.method)) (codes "GET")

-- The fields that the entries share.
unfoldable pub entry_of :
    Call → Option Text → Text → Option EntryReason → Action → Option Number → Entry
entry_of call agent_id source reason action score = record {
  organization_id = call.organization_id;
  api_key_id = call.api_key_id;
  agent_id = agent_id;
  method = method_of call;
  path = call.path;
  source = source;
  tenant_id = header call (codes "x-tenant-id");
  reasoning = header call (codes "x-agent-reasoning");
  reason = reason;
  action_taken = action;
  upstream_status = none;
  request_bytes = call.request_bytes;
  response_bytes = none;
  anomaly_score = score;
}

abbrev pub logged : Entry → State → State
logged e s = record s { entries = e ∷ s.entries }

unfoldable pub request_of : Call → ResolvedAgent → AgentRequest
request_of call agent = record {
  method = method_of call;
  path = call.path;
  source = agent.source;
  tenant_id = header call (codes "x-tenant-id");
  headers = some call.headers;
  query = call.query;
  body = call.payload;
  organization_id = call.organization_id;
  agent_id = some agent.id;
  bypass_approval = false;
}
