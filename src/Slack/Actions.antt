-- ===== src/Slack/Actions.antt =====
-- What an interaction of apps/api/src/slack/slack.controller.ts holds, and the two actions.
use get_mcp.Base.{
  ℕ, Bool, true, false, not, ◌&&◌, Option, none, some, List, [], ◌∷◌, if◌then◌else◌, Text, codes,
  ◌==◌, is_empty,
}
use get_mcp.Json.{Json, cons, get}
use get_mcp.Access.Secrets.{Cipher}
use get_mcp.Access.Signature.{Hmac}
use get_mcp.Approval.Pending.{PendingRequest}
use get_mcp.Approval.Service.{DecisionInput, Replay, deny}
use get_mcp.Approval.Store.{Db}
use get_mcp.Approval.Quorum.{
  Attempt, rejected_missing_justification, already_voted, pending_quorum, Configs,
  approve_with_quorum,
}

-- `params.get('payload')` and its parsing.
pub data Payload : Type 0 where
  missing not_json : Payload
  parsed : Json → Payload

pub record Interaction : Type 0 where
  pub raw_body : Option Text
  pub timestamp : Option Text
  pub signature : Option Text

pub record SlackOrganization : Type 0 where
  pub slack_signing_secret : Option Text
  pub slack_bot_token : Option Text

-- An ephemeral message of the bot to a user in a channel.
pub record Ephemeral : Type 0 where
  pub bot_token : Text
  pub channel : Text
  pub user_id : Text
  pub about : Attempt

pub data Response : Type 0 where
  no_raw_body missing_payload bad_payload : Response
  -- status 200 without a body, and status 401
  ignored unauthorized : Response
  voted : Attempt → Response
  answered : Option PendingRequest → Response
  -- `decryptSecret` threw
  failed : Response

-- What is read of the outside: the cipher with its key, HMAC-SHA256, `new URLSearchParams(body)
-- .get('payload')`, and `JSON.parse`, where `none` is a throw.
pub record Outside : Type 0 where
  pub cipher : Cipher
  pub key_encryption_key : Option Text
  pub hmac : Hmac
  pub form_payload : Text → Option Text
  pub parse_json : Text → Option Json

abbrev pub parsed_or_not : Option Json → Payload
parsed_or_not none = not_json
parsed_or_not (some payload) = parsed payload

abbrev pub read_payload : Outside → Option Text → Payload
read_payload outside none = missing
read_payload outside (some text) =
    if is_empty text then missing else parsed_or_not (outside.parse_json text)

-- The payload in the raw body.
unfoldable pub payload_of : Outside → Text → Payload
payload_of outside body = read_payload outside (outside.form_payload body)

-- `v?.[key]`
abbrev pub member : Option Json → Text → Option Json
member none key = none
member (some j) key = get j key

abbrev pub first_item : Option Json → Option Json
first_item (some (Json.array (cons x xs))) = some x
first_item _ = none

-- A value that is a string.
abbrev pub text_of : Option Json → Option Text
text_of (some (Json.string s)) = some s
text_of _ = none

abbrev pub or_text : Option Text → Text → Text
or_text none other = other
or_text (some s) other = s

abbrev pub or_next : Option Text → Option Text → Option Text
or_next none other = other
or_next (some s) other = some s

unfoldable pub action_of : Json → Option Json
action_of payload = first_item (get payload (codes "actions"))

unfoldable pub user_id_of : Json → Text
user_id_of payload =
    or_text (text_of (member (get payload (codes "user")) (codes "id"))) (codes "unknown")

unfoldable pub user_name_of : Json → Text
user_name_of payload =
    let user = get payload (codes "user") in
    or_text
      (or_next (text_of (member user (codes "username"))) (text_of (member user (codes "name"))))
      (codes "unknown")

unfoldable pub justification_of : Json → Option Text
justification_of payload =
    let values = member (get payload (codes "state")) (codes "values") in
    let block = member values (codes "getmcp_justification_block") in
    text_of (member (member block (codes "getmcp_justification")) (codes "value"))

abbrev tells : Attempt → Bool
tells rejected_missing_justification = true
tells (already_voted have need) = true
tells (pending_quorum have need) = true
tells _ = false

abbrev pub ephemeral_of : Option Text → Text → Text → Attempt → List Ephemeral
ephemeral_of none channel user_id about = []
ephemeral_of (some token) channel user_id about =
    if not (is_empty token) && not (is_empty channel) && tells about
    then (record { bot_token = token; channel = channel; user_id = user_id; about = about }) ∷ []
    else []

abbrev pub Handled : Type 0
Handled = (Response × List Ephemeral) × Db

unfoldable pub input_of : Text → Json → Option Text → DecisionInput
input_of id payload justification = record {
  pending_id = id;
  approver_id = user_id_of payload;
  approver_name = user_name_of payload;
  justification = justification;
}

-- The two actions, for a request whose signature holds.
unfoldable pub act :
    Configs
    → (PendingRequest → Replay)
    → ℕ
    → Text
    → Json
    → Text
    → Option Text
    → Option Text
    → Db
    → Handled
act configs replay now id payload channel bot_token action_id db =
    let justification = justification_of payload in
    let kind = or_text action_id [] in
    if kind == codes "getmcp_approve"
    then (let (result, after) =
          approve_with_quorum configs replay (input_of id payload justification) now db in
        ((voted result, ephemeral_of bot_token channel (user_id_of payload) result), after))
    else if kind == codes "getmcp_deny"
    then (let (row, after) = deny (input_of id payload none) justification now db in
        ((answered row, []), after))
    else ((ignored, []), db)
