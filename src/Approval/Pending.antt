-- ===== src/Approval/Pending.antt =====
-- The table of held requests and `transitionPending` of apps/api/src/approval/approval.service.ts.
use get_mcp.Base.{
  ℕ, Bool, true, false, Option, none, some, List, if◌then◌else◌, Text, ℤ, lookup, insert,
}
use get_mcp.Json.{Json}

pub data Status : Type 0 where
  pending approved denied expired : Status

abbrev pub is_pending : Status → Bool
is_pending pending = true
is_pending _ = false

-- A row of the table; its key is its id.
pub record PendingRequest : Type 0 where
  pub organization_id : Text
  pub agent_id : Text
  pub api_key_id : Text
  pub method : Text
  pub path : Text
  pub query : Option Json
  pub body : Option Json
  pub source : Text
  pub tenant_id : Option Text
  pub reasoning : Option Text
  pub rule_id : Text
  pub rule_name : Text
  pub channel : Text
  pub expires_at : ℕ
  pub status : Status
  pub decided_at : Option ℕ
  pub approver_slack_user_id : Option Text
  pub approver_slack_user_name : Option Text
  pub decision_reason : Option Text
  pub response_status : Option ℤ
  pub response_body : Option Json

abbrev pub Requests : Type 0
Requests = List (Text × PendingRequest)

-- What a transition writes besides the time.
pub record Decision : Type 0 where
  pub next_status : Status
  pub approver_id : Option (Option Text)
  pub approver_name : Option (Option Text)
  pub reason : Option (Option Text)

-- A field that the transition does not give is left as it is.
abbrev given_or : Option (Option Text) → Option Text → Option Text
given_or none old = old
given_or (some new) old = new

unfoldable pub decide : Decision → ℕ → PendingRequest → PendingRequest
decide d now r = record r {
  status = d.next_status;
  decided_at = some now;
  approver_slack_user_id = given_or d.approver_id r.approver_slack_user_id;
  approver_slack_user_name = given_or d.approver_name r.approver_slack_user_name;
  decision_reason = given_or d.reason r.decision_reason;
}

unfoldable pub transition_row :
    Text → Decision → ℕ → Requests → Option PendingRequest → Option PendingRequest × Requests
unfolding decide
transition_row id d now requests none = (none, requests)
transition_row id d now requests (some r) =
    if is_pending r.status
    then (some (decide d now r), insert id (decide d now r) requests)
    else (none, requests)

-- `transitionPending`: `updateMany` of the row with the id, if it is pending, and the row read again.
unfoldable pub transition_pending :
    Text → Decision → ℕ → Requests → Option PendingRequest × Requests
unfolding transition_row
transition_pending id d now requests = transition_row id d now requests (lookup id requests)
