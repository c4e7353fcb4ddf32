-- ===== src/Proxy/Tests.antt =====
-- apps/api/src/proxy on concrete inputs.
use get_mcp.Base.{
  ◌≡◌, ◌⊎◌, refl, true, none, some, [], ◌∷◌, All, Text, codes, insert, to_lower, lower_unit, has,
  ◌==◌,
}
use get_mcp.Agents.{ResolvedAgent, resolve}
use get_mcp.Access.Secrets.{Cipher, load_key, decrypt_secret}
use get_mcp.Access.Hex.{from_hex, split}
use get_mcp.Proxy.Headers.{Headers, forward_incoming, one, build_forward_headers}
use get_mcp.Proxy.Headers.Filtering.{IsForwarded, HasCredential, build_forward_headers-Forwards}
use get_mcp.Proxy.Forward.{UpstreamRequest, UpstreamResult, Outside}
use get_mcp.Proxy.Intercept.{Tables}
use get_mcp.Proxy.Call.{Call, State, header}
use get_mcp.Proxy.Controller.{execute_agent_action}
use get_mcp.Proxy.Controller.Gate.{IsCleared, execute_agent_action-IsCleared}
use get_mcp.Proxy.Controller.Outcomes.{IsLogged, execute_agent_action-IsLogged}
use get_mcp.Proxy.Stream.{
  chunk, finish, close, Answer, start, ending, ended, on_events, on_events-ended,
}

-- A cipher whose texts are all the same.
abbrev constant : Cipher
constant = record {
  seal = λ key iv s. ([], []);
  unseal = λ key iv tag ct. some (codes "Bearer secret");
  encode = λ s. s;
  decode = λ s. s;
}

abbrev outside : Outside
outside = record {
  cipher = constant;
  key_encryption_key = none;
  upstream = λ sent. UpstreamResult.answered 200 ((codes "etag", one (codes "x")) ∷ []);
}

abbrev tables : Tables
tables = record {
  rules = [];
  logs = none;
  organizations =
      (
        codes "o1",
        record {
          upstream_base_url = some (codes "https://api");
          upstream_auth_header = none;
          upstream_timeout_ms = 1000;
          slack_default_channel = none;
        },
      )
      ∷ [];
}

abbrev agent : ResolvedAgent
agent = record {
  id = codes "a1";
  organization_id = codes "o1";
  source = codes "external_mcp";
  tenant_scope = none;
  enabled = true;
  revoked_at = none;
}

abbrev call : Call
call = record {
  organization_id = codes "o1";
  api_key_id = codes "k1";
  headers =
      (codes "x-agent-id", some (codes "a1")) ∷ (codes "accept", some (codes "text/plain")) ∷ [];
  method = none;
  path = codes "v1";
  query = none;
  payload = none;
  request_bytes = 10;
}

abbrev idle : State
idle = record {
  agents = [];
  policy = record { cache = []; buckets = []; baselines = [] };
  approvals = record { requests = []; votes = []; notes = [] };
  entries = [];
  sent = [];
}

abbrev after : State
after = (execute_agent_action outside tables (λ org id. some agent) 0 (codes "p1") call idle).1

abbrev answer : Answer
answer = record { call = call; agent = agent; status = 200; anomaly_score = none }

on_events-ended_example :
    (on_events answer (chunk 5 ∷ chunk 7 ∷ close ∷ finish ∷ []) (start [])).entries
    ≡ ended answer (ending 0 (chunk 5 ∷ chunk 7 ∷ close ∷ finish ∷ [])) []
on_events-ended_example = on_events-ended answer (chunk 5 ∷ chunk 7 ∷ close ∷ finish ∷ []) []

execute_agent_action-IsCleared_example :
    (after.sent ≡ [])
    ⊎ ((agent_id : Text) × (a : ResolvedAgent) × (sent : UpstreamRequest) × (header call
            (codes "x-agent-id")
          ≡ some agent_id)
        × ((resolve (λ org id. some agent) 0 (codes "o1") agent_id []).0 ≡ some a)
        × (after.sent ≡ sent ∷ [])
        × IsCleared outside tables 0 call idle.policy a sent)
execute_agent_action-IsCleared_example =
    execute_agent_action-IsCleared outside tables 0 (codes "p1") call (λ org id. some agent) idle

execute_agent_action-IsLogged_example :
    let out = execute_agent_action outside tables (λ org id. some agent) 0 (codes "p1") call idle in
    IsLogged idle out.0 out.1
execute_agent_action-IsLogged_example =
    execute_agent_action-IsLogged outside tables 0 (codes "p1") call (λ org id. some agent) idle

abbrev forwarded : Headers
forwarded =
    (codes "accept", codes "text/plain") ∷ (codes "Authorization", codes "Bearer secret") ∷ []

-- A key of thirty-two bytes.
abbrev env : Text
env = codes "000102030405060708090a0b0c0d0e0f101112131415161718191a1b1c1d1e1f"

build_forward_headers-Forwards_example :
    All
      (IsForwarded constant (some env) (some call.headers) (some (codes "gcm$00$00$00")))
      forwarded
    × HasCredential constant (some env) (some (codes "gcm$00$00$00")) forwarded
unfolding build_forward_headers forward_incoming decrypt_secret load_key from_hex split insert
    to_lower lower_unit has ◌==◌
build_forward_headers-Forwards_example =
    build_forward_headers-Forwards constant (some env) (some call.headers)
      (some (codes "gcm$00$00$00")) forwarded refl
