-- ===== src/Approval/Store.antt =====
-- The tables of held requests, and `createPending` of apps/api/src/approval/approval.service.ts.
use get_mcp.Base.{ℕ, ◌+◌, ◌*◌, Bool, Option, none, some, List, Text, ℤ, lookup, insert}
use get_mcp.Json.{Json}
use get_mcp.Approval.Pending.{pending, PendingRequest, Requests}

-- Why an audit entry is written.
pub data Cause : Type 0 where
  approved_by : Text → Cause
  denied_by : Text → Option Text → Cause
  approval_expired : Cause
  replay_blocked : Text → Cause
  replay_error : Text → Cause

-- An entry given to `recordSafe`, which copies the fields of the request.
pub record Note : Type 0 where
  pub id : Text
  pub request : PendingRequest
  pub cause : Cause
  pub executed : Bool
  pub upstream_status : Option ℤ

pub record Vote : Type 0 where
  pub pending_request_id : Text
  pub approver_slack_user_id : Text
  pub justification : Option Text

pub record Db : Type 0 where
  pub requests : Requests
  pub votes : List Vote
  pub notes : List Note

-- `CreatePendingInput`, less what only the Slack message holds.
pub record CreatePendingInput : Type 0 where
  pub organization_id : Text
  pub agent_id : Text
  pub api_key_id : Text
  pub method : Text
  pub path : Text
  pub query : Option Json
  pub body : Option Json
  pub source : Text
  pub tenant_id : Option Text
  pub reasoning : Option Text
  pub rule_id : Text
  pub rule_name : Text
  pub channel : Text
  pub ttl_ms : Option ℕ

-- `DEFAULT_TTL_MS`
abbrev pub default_ttl_ms : ℕ
default_ttl_ms = 15 * 60 * 1000

abbrev or_default : Option ℕ → ℕ
or_default none = default_ttl_ms
or_default (some ttl) = ttl

unfoldable pub new_request : CreatePendingInput → ℕ → PendingRequest
new_request input now = record {
  organization_id = input.organization_id;
  agent_id = input.agent_id;
  api_key_id = input.api_key_id;
  method = input.method;
  path = input.path;
  query = input.query;
  body = input.body;
  source = input.source;
  tenant_id = input.tenant_id;
  reasoning = input.reasoning;
  rule_id = input.rule_id;
  rule_name = input.rule_name;
  channel = input.channel;
  expires_at = now + or_default input.ttl_ms;
  status = pending;
  decided_at = none;
  approver_slack_user_id = none;
  approver_slack_user_name = none;
  decision_reason = none;
  response_status = none;
  response_body = none;
}

-- The row is stored under the id that the database makes, which its primary key refuses if it is taken.
unfoldable pub store_request :
    CreatePendingInput → Text → ℕ → Db → Option PendingRequest → Option PendingRequest × Db
unfolding new_request
store_request input id now db (some r) = (none, db)
store_request input id now db none = (
  some (new_request input now),
  record db { requests = insert id (new_request input now) db.requests },
)

unfoldable pub create_pending : CreatePendingInput → Text → ℕ → Db → Option PendingRequest × Db
unfolding store_request
create_pending input id now db = store_request input id now db (lookup id db.requests)
