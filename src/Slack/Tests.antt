-- ===== src/Slack/Tests.antt =====
-- Interactions of apps/api/src/slack/slack.controller.ts on concrete inputs.
use get_mcp.Base.{
  ◌≡◌, ◌⊎◌, refl, true, none, some, [], ◌∷◌, ◌++◌, Text, codes, ◌==◌, pos, lookup, is_space, insert,
}
use get_mcp.Json.{Json, object, array, string, field, end, nil, cons, get, find_field}
use get_mcp.Access.Hex.{from_hex, split}
use get_mcp.Access.Secrets.{load_key, decrypt_secret}
use get_mcp.Access.Signature.{verify_slack_signature, parse_int, skip_spaces, read_digits, distance}
use get_mcp.Approval.Pending.{pending, denied, PendingRequest, transition_pending}
use get_mcp.Approval.Service.{Replay, executed_with, deny, after_transition}
use get_mcp.Approval.Store.{Db}
use get_mcp.Approval.Quorum.{Configs}
use get_mcp.Slack.Actions.{
  payload_of, Interaction, Outside, action_of, user_id_of, user_name_of, justification_of, input_of,
  act, unauthorized,
}
use get_mcp.Slack.{handle, Organizations}
use get_mcp.Slack.Authority.{IsAuthorized, handle-IsAuthorized}

abbrev request : PendingRequest
request = record {
  organization_id = codes "o";
  agent_id = codes "a1";
  api_key_id = codes "k1";
  method = codes "POST";
  path = codes "/pay";
  query = none;
  body = none;
  source = codes "external_mcp";
  tenant_id = none;
  reasoning = none;
  rule_id = codes "r1";
  rule_name = codes "hold";
  channel = codes "#ops";
  expires_at = 100;
  status = pending;
  decided_at = none;
  approver_slack_user_id = none;
  approver_slack_user_name = none;
  decision_reason = none;
  response_status = none;
  response_body = none;
}

abbrev held : Db
held = record { requests = (codes "p", request) ∷ []; votes = []; notes = [] }

abbrev no_configs : Configs
no_configs org rule = none

abbrev replay : PendingRequest → Replay
replay r = record { outcome = executed_with (pos 200) Json.null; is_stored = true }

abbrev orgs : Organizations
orgs =
    (
      codes "o",
      record { slack_signing_secret = some (codes "gcm$00$00$00"); slack_bot_token = none },
    )
    ∷ []

abbrev button : Text → Json
button name =
    object
      (field (codes "action_id") (string name) (field (codes "value") (string (codes "p")) end))

abbrev pressed : Text → Json
pressed name = object (
    field (codes "user") (object (field (codes "id") (string (codes "u1")) end))
      (field (codes "actions") (array (cons (button name) nil)) end))

-- A cipher whose texts all open to one secret, a key of 32 bytes, and the code of the key and the text.
abbrev outside : Outside
outside = record {
  cipher = record {
    seal = λ key iv s. ([], []);
    unseal = λ key iv tag ct. some (codes "s");
    encode = λ s. s;
    decode = λ s. s;
  };
  key_encryption_key =
      some (codes "0000000000000000000000000000000000000000000000000000000000000000");
  hmac = λ secret text. secret ++ text;
  form_payload = λ body. some body;
  parse_json = λ text. some (pressed text);
}

-- The body is the id of the button, which is what the form holds.
abbrev press : Text → Text → Interaction
press name signature = record {
  raw_body = some name;
  timestamp = some (codes "90");
  signature = some signature;
}

handle-IsAuthorized_example :
    let req = press (codes "getmcp_approve") (codes "v0=sv0:90:getmcp_approve") in
    let after = (handle outside no_configs replay orgs 50 95 req held).1 in
    (after ≡ held) ⊎ IsAuthorized outside no_configs replay 50 orgs 95 req held after
handle-IsAuthorized_example =
    handle-IsAuthorized outside no_configs replay 50 orgs 95
      (press (codes "getmcp_approve") (codes "v0=sv0:90:getmcp_approve")) held

-- With a wrong signature nothing happens.
forged :
    handle outside no_configs replay orgs 50 95 (press (codes "getmcp_approve") (codes "v0=x")) held
    ≡ ((unauthorized, []), held)
unfolding handle payload_of action_of get find_field lookup ◌==◌ decrypt_secret load_key from_hex
    split verify_slack_signature parse_int skip_spaces read_digits distance is_space
forged = refl

-- With a valid one the request is denied.
denied_by_button :
    (handle outside no_configs replay orgs 50 95
      (press (codes "getmcp_deny") (codes "v0=sv0:90:getmcp_deny"))
      held).1.requests
    ≡ (
      codes "p",
      record request {
        status = denied;
        decided_at = some 50;
        approver_slack_user_id = some (codes "u1");
        approver_slack_user_name = some (codes "unknown");
      },
    )
      ∷ []
unfolding handle payload_of action_of get find_field lookup ◌==◌ decrypt_secret load_key from_hex
    split verify_slack_signature parse_int skip_spaces read_digits distance is_space act input_of
    deny user_id_of user_name_of justification_of after_transition transition_pending insert
denied_by_button = refl
