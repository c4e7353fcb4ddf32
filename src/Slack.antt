-- ===== src/Slack.antt =====
-- The interactions of apps/api/src/slack/slack.controller.ts: votes and denials from Slack. The reading
-- of forms and of JSON is a parameter.
mod Actions
pub mod Decisions
pub mod Authority
mod Tests
use get_mcp.Base.{
  ℕ, Bool, true, false, not, ◌&&◌, Option, none, some, List, [], ◌∷◌, if◌then◌else◌, Text, codes,
  ◌==◌, is_empty, lookup,
}
use get_mcp.Json.{Json, nil, cons, get}
use get_mcp.Access.Secrets.{Cipher, decrypt_secret}
use get_mcp.Access.Signature.{Hmac, verify_slack_signature}
use get_mcp.Approval.Pending.{Status, PendingRequest}
use get_mcp.Approval.Service.{DecisionInput, Replay, deny}
use get_mcp.Approval.Store.{Db}
use get_mcp.Approval.Quorum.{
  Attempt, rejected_missing_justification, already_voted, pending_quorum, Configs,
  approve_with_quorum,
}
use get_mcp.Slack.Actions.{
  Payload, missing, not_json, parsed, Interaction, SlackOrganization, Ephemeral, Response,
  no_raw_body, missing_payload, bad_payload, payload_of, ignored, unauthorized, voted, answered,
  failed, Outside, member, text_of, or_text, action_of, user_id_of, user_name_of, justification_of,
  ephemeral_of, Handled, input_of, act,
}

-- `org.slackBotToken ? decryptSecret(org.slackBotToken) : null`; the outer `none` is a throw.
abbrev thrown_or : Option Text → Option (Option Text)
thrown_or none = none
thrown_or (some token) = some (some token)

abbrev pub token_of : Outside → Option Text → Option (Option Text)
token_of outside none = some none
token_of outside (some encrypted) =
    if is_empty encrypted
    then some none
    else thrown_or (decrypt_secret outside.cipher outside.key_encryption_key encrypted)

abbrev pub with_token :
    Configs
    → (PendingRequest → Replay)
    → ℕ
    → Text
    → Json
    → Text
    → Option (Option Text)
    → Option Text
    → Db
    → Handled
with_token configs replay now id payload channel none action_id db = ((failed, []), db)
with_token configs replay now id payload channel (some token) action_id db =
    act configs replay now id payload channel token action_id db

-- With the decrypted signing secret. A held request has a channel, so that the payload's is not read.
abbrev pub with_secret :
    Outside
    → Configs
    → (PendingRequest → Replay)
    → ℕ
    → ℕ
    → Interaction
    → Text
    → Text
    → Json
    → PendingRequest
    → SlackOrganization
    → Option Text
    → Db
    → Handled
with_secret outside configs replay now now_sec req body id payload row org none db =
    ((failed, []), db)
with_secret outside configs replay now now_sec req body id payload row org (some secret) db =
    if verify_slack_signature outside.hmac body req.timestamp req.signature secret now_sec
    then with_token configs replay now id payload row.channel (token_of outside org.slack_bot_token)
        (text_of (member (action_of payload) (codes "action_id"))) db
    else ((unauthorized, []), db)

abbrev pub when_given : SlackOrganization → Option Text → Option (SlackOrganization × Text)
when_given org none = none
when_given org (some secret) = if is_empty secret then none else some (org, secret)

abbrev pub given_secret : Option SlackOrganization → Option (SlackOrganization × Text)
given_secret none = none
given_secret (some org) = when_given org org.slack_signing_secret

abbrev pub with_organization :
    Outside
    → Configs
    → (PendingRequest → Replay)
    → ℕ
    → ℕ
    → Interaction
    → Text
    → Text
    → Json
    → PendingRequest
    → Option (SlackOrganization × Text)
    → Db
    → Handled
with_organization outside configs replay now now_sec req body id payload row none db =
    ((unauthorized, []), db)
with_organization outside configs replay now now_sec req body id payload row (some (org, secret))
      db =
    with_secret outside configs replay now now_sec req body id payload row org
      (decrypt_secret outside.cipher outside.key_encryption_key secret) db

abbrev pub Organizations : Type 0
Organizations = List (Text × SlackOrganization)

abbrev pub with_pending :
    Outside
    → Configs
    → (PendingRequest → Replay)
    → Organizations
    → ℕ
    → ℕ
    → Interaction
    → Text
    → Text
    → Json
    → Option PendingRequest
    → Db
    → Handled
with_pending outside configs replay orgs now now_sec req body id payload none db =
    ((ignored, []), db)
with_pending outside configs replay orgs now now_sec req body id payload (some row) db =
    with_organization outside configs replay now now_sec req body id payload row
      (given_secret (lookup row.organization_id orgs)) db

-- With the id in the action's value, which may be missing or empty.
abbrev pub with_id :
    Outside
    → Configs
    → (PendingRequest → Replay)
    → Organizations
    → ℕ
    → ℕ
    → Interaction
    → Text
    → Json
    → Option Text
    → Db
    → Handled
with_id outside configs replay orgs now now_sec req body payload none db = ((ignored, []), db)
with_id outside configs replay orgs now now_sec req body payload (some id) db =
    if is_empty id
    then ((ignored, []), db)
    else with_pending outside configs replay orgs now now_sec req body id payload
        (lookup id db.requests) db

abbrev pub with_payload :
    Outside
    → Configs
    → (PendingRequest → Replay)
    → Organizations
    → ℕ
    → ℕ
    → Interaction
    → Text
    → Payload
    → Db
    → Handled
with_payload outside configs replay orgs now now_sec req body missing db =
    ((missing_payload, []), db)
with_payload outside configs replay orgs now now_sec req body not_json db = ((bad_payload, []), db)
with_payload outside configs replay orgs now now_sec req body (parsed payload) db =
    with_id outside configs replay orgs now now_sec req body payload
      (text_of (member (action_of payload) (codes "value"))) db

abbrev pub with_body :
    Outside
    → Configs
    → (PendingRequest → Replay)
    → Organizations
    → ℕ
    → ℕ
    → Interaction
    → Option Text
    → Db
    → Handled
with_body outside configs replay orgs now now_sec req none db = ((no_raw_body, []), db)
with_body outside configs replay orgs now now_sec req (some body) db =
    if is_empty body
    then ((no_raw_body, []), db)
    else with_payload outside configs replay orgs now now_sec req body (payload_of outside body) db

-- `handle`; `now` is in milliseconds and `now_sec` in seconds.
unfoldable pub handle :
    Outside
    → Configs
    → (PendingRequest → Replay)
    → Organizations
    → ℕ
    → ℕ
    → Interaction
    → Db
    → Handled
handle outside configs replay orgs now now_sec req db =
    with_body outside configs replay orgs now now_sec req req.raw_body db
