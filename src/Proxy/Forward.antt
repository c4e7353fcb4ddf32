-- ===== src/Proxy/Forward.antt =====
-- `forwardUpstream` of apps/api/src/proxy/proxy.service.ts. The upstream is a parameter.
use get_mcp.Base.{
  ℕ, Bool, ◌||◌, Option, none, some, List, [], if◌then◌else◌, Text, codes, ◌==◌, is_empty,
}
use get_mcp.Json.{Json, Number}
use get_mcp.Access.Secrets.{Cipher}
use get_mcp.Policy.Rule.{PolicyRule, Reason}
use get_mcp.Proxy.Headers.{
  Incoming, Headers, HeaderValue, build_forward_headers, filter_response_headers, join_url,
}

pub record AgentRequest : Type 0 where
  pub method : Text
  pub path : Text
  pub source : Text
  pub tenant_id : Option Text
  pub headers : Option Incoming
  pub query : Option Json
  pub body : Option Json
  pub organization_id : Text
  pub agent_id : Option Text
  pub bypass_approval : Bool

-- The columns of an organisation that are read here.
pub record Organization : Type 0 where
  pub upstream_base_url : Option Text
  pub upstream_auth_header : Option Text
  pub upstream_timeout_ms : ℕ
  pub slack_default_channel : Option Text

-- What is handed to axios; redirects are not followed, and every status is an answer.
pub record UpstreamRequest : Type 0 where
  pub url : Text
  pub method : Text
  pub headers : Headers
  pub query : Option Json
  pub body : Option Json
  pub timeout : ℕ

-- An answer with its status and headers, or an error with its code and message.
pub data UpstreamResult : Type 0 where
  answered : ℕ → List (Text × HeaderValue) → UpstreamResult
  failed : Option Text → Text → UpstreamResult

-- The cipher and the environment's key, and the upstream.
pub record Outside : Type 0 where
  pub cipher : Cipher
  pub key_encryption_key : Option Text
  pub upstream : UpstreamRequest → UpstreamResult

-- The `reason` of a refusal.
pub data Refusal : Type 0 where
  missing_organization no_upstream upstream_timeout : Refusal
  upstream_unreachable : Text → Refusal
  blocked_by : Reason → Refusal
  rate_limit_exceeded : Text → Refusal

-- An HttpException with its status and body, or another error.
pub data Thrown : Type 0 where
  http_exception : ℕ → Refusal → Option ℕ → Option Number → Thrown
  template_error decryption_error : Thrown

pub data ProxyOutcome : Type 0 where
  awaiting_approval : PolicyRule → Reason → Text → Option Number → ProxyOutcome
  proxied : ℕ → Headers → Option Number → ProxyOutcome
  thrown : Thrown → ProxyOutcome

abbrev pub refused_with : ℕ → Refusal → ProxyOutcome
refused_with status reason = ProxyOutcome.thrown (Thrown.http_exception status reason none none)

-- `ax.code === 'ECONNABORTED' || ax.code === 'ETIMEDOUT'`
abbrev pub is_timeout : Option Text → Bool
is_timeout none = Bool.false
is_timeout (some code) = code == codes "ECONNABORTED" || code == codes "ETIMEDOUT"

unfoldable pub answer_of : Option Number → UpstreamResult → ProxyOutcome
answer_of score (UpstreamResult.answered status headers) =
    ProxyOutcome.proxied status (filter_response_headers headers []) score
answer_of score (UpstreamResult.failed code message) =
    if is_timeout code
    then refused_with 504 Refusal.upstream_timeout
    else refused_with 502 (Refusal.upstream_unreachable message)

-- The outcome, and what was sent to the upstream, if anything was.
unfoldable pub send :
    Outside
    → AgentRequest
    → Option Number
    → Text
    → ℕ
    → Option Headers
    → ProxyOutcome × Option UpstreamRequest
send outside req score base timeout none = (ProxyOutcome.thrown Thrown.decryption_error, none)
send outside req score base timeout (some headers) =
    let sent : UpstreamRequest = record {
      url = join_url base req.path;
      method = req.method;
      headers = headers;
      query = req.query;
      body = req.body;
      timeout = timeout;
    } in
    (answer_of score (outside.upstream sent), some sent)

abbrev pub forward_to :
    Outside
    → AgentRequest
    → Option Number
    → Organization
    → Option Text
    → ProxyOutcome × Option UpstreamRequest
forward_to outside req score org none = (refused_with 400 Refusal.no_upstream, none)
forward_to outside req score org (some base) =
    if is_empty base
    then (refused_with 400 Refusal.no_upstream, none)
    else send outside req score base org.upstream_timeout_ms (
        build_forward_headers outside.cipher outside.key_encryption_key req.headers
          org.upstream_auth_header)

-- With the row of the organisation, and the score that is put on an answer.
unfoldable pub forward_upstream :
    Outside
    → AgentRequest
    → Option Number
    → Option Organization
    → ProxyOutcome × Option UpstreamRequest
forward_upstream outside req score none = (refused_with 400 Refusal.no_upstream, none)
forward_upstream outside req score (some org) =
    forward_to outside req score org org.upstream_base_url
