-- ===== src/Proxy/Intercept/Safety.antt =====
-- What reaches the upstream through `interceptAndExecute` of apps/api/src/proxy/proxy.service.ts.
use get_mcp.Base.{
  ℕ, ◌≡◌, refl, subst, inl, inr, Option, none, some, Bool-cases, All, Text, is_empty, lookup,
}
use get_mcp.Json.{Number}
use get_mcp.Policy.Rule.{Verdict, allow, rate_limited, Decision}
use get_mcp.Policy.Rule
use get_mcp.Policy.Service.{State, Evaluated, evaluate_request}
use get_mcp.Proxy.Headers.{Headers, build_forward_headers, join_url}
use get_mcp.Proxy.Headers.Filtering.{IsForwarded, HasCredential, build_forward_headers-Forwards}
use get_mcp.Proxy.Forward.{
  AgentRequest, Organization, UpstreamRequest, Outside, send, forward_to, forward_upstream,
}
use get_mcp.Proxy.Intercept.{Tables, context_of, act_on, intercept_and_execute}

-- The request as its organisation's upstream gets it.
pub record IsSent (outside : Outside) (tables : Tables) (req : AgentRequest)
    (sent : UpstreamRequest) : Type 0 where
  pub organization : Organization
  pub base : Text
  pub owner : lookup req.organization_id tables.organizations ≡ some organization
  pub configured : organization.upstream_base_url ≡ some base
  pub url : sent.url ≡ join_url base req.path
  pub method : sent.method ≡ req.method
  pub body : sent.body ≡ req.body
  pub headers :
      All
        (IsForwarded outside.cipher outside.key_encryption_key req.headers
          organization.upstream_auth_header)
        sent.headers
  pub credential :
      HasCredential outside.cipher outside.key_encryption_key organization.upstream_auth_header
        sent.headers

module _ (outside : Outside) (tables : Tables) (req : AgentRequest) where
  send-IsSent :
      (score : Option Number) (org : Organization) (base : Text) (o : Option Headers)
      (sent : UpstreamRequest)
      → lookup req.organization_id tables.organizations ≡ some org
      → org.upstream_base_url ≡ some base
      → build_forward_headers outside.cipher outside.key_encryption_key req.headers
          org.upstream_auth_header
        ≡ o
      → (send outside req score base org.upstream_timeout_ms o).1 ≡ some sent
      → IsSent outside tables req sent
  unfolding send
  send-IsSent score org base none sent owner configured built h = cc
  send-IsSent score org base (some headers) sent owner configured built h =
      let (kept, credential) =
        build_forward_headers-Forwards outside.cipher outside.key_encryption_key req.headers
          org.upstream_auth_header headers built in
      let same : record {
        url = join_url base req.path;
        method = req.method;
        headers = headers;
        query = req.query;
        body = req.body;
        timeout = org.upstream_timeout_ms;
      }
          ≡ sent =
        cc in
      subst (IsSent outside tables req) same (record {
        organization = org;
        base = base;
        owner = owner;
        configured = configured;
        url = refl;
        method = refl;
        body = refl;
        headers = kept;
        credential = credential;
      })

  forward_to-IsSent :
      (score : Option Number) (org : Organization) (o : Option Text) (sent : UpstreamRequest)
      → lookup req.organization_id tables.organizations ≡ some org
      → org.upstream_base_url ≡ o
      → (forward_to outside req score org o).1 ≡ some sent
      → IsSent outside tables req sent
  forward_to-IsSent score org none sent owner configured = λ h. cc
  forward_to-IsSent score org (some base) sent owner configured =
      elim (Bool-cases (is_empty base)) [
        | inl blank ↦ rw blank (λ h. cc)
        | inr given ↦ rw given (λ h. send-IsSent score org base _ sent owner configured refl h)
      ]

  forward_upstream-IsSent :
      (score : Option Number) (o : Option Organization) (sent : UpstreamRequest)
      → lookup req.organization_id tables.organizations ≡ o
      → (forward_upstream outside req score o).1 ≡ some sent
      → IsSent outside tables req sent
  unfolding forward_upstream
  forward_upstream-IsSent score none sent owner h = cc
  forward_upstream-IsSent score (some org) sent owner h =
      forward_to-IsSent score org org.upstream_base_url sent owner refl h

  verdict-IsSent :
      (e : Evaluated) (v : Verdict) (sent : UpstreamRequest)
      → e.decision.verdict ≡ v
      → (act_on outside tables req (some e)).1 ≡ some sent
      → (e.decision.verdict ≡ allow) × IsSent outside tables req sent
  unfolding act_on
  verdict-IsSent e allow sent same h =
      (same, forward_upstream-IsSent e.anomaly_score _ sent refl (rw same at h))
  verdict-IsSent e (Rule.block r why) sent same h = cc (rw same at h)
  verdict-IsSent e (Verdict.awaiting_approval r why channel) sent same h = cc (rw same at h)
  verdict-IsSent e (rate_limited r ms) sent same h = cc (rw same at h)

  act_on-IsSent :
      (o : Option Evaluated) (sent : UpstreamRequest)
      → (act_on outside tables req o).1 ≡ some sent
      → (e : Evaluated) × (o ≡ some e)
        × (e.decision.verdict ≡ allow)
        × IsSent outside tables req sent
  unfolding act_on
  act_on-IsSent none sent h = cc
  act_on-IsSent (some e) sent h =
      let (allowed, is_sent) = verdict-IsSent e e.decision.verdict sent refl h in
      (e, refl, allowed, is_sent)

  -- Something is sent to an upstream only where the policies allow the request; it goes to the base URL
  -- that the request's organisation has configured, with the request's own method, path and body, and
  -- with no header but those that may be forwarded and the organisation's credentials.
  pub intercept_and_execute-IsSent :
      (now : ℕ) (s : State) (sent : UpstreamRequest)
      → (intercept_and_execute outside tables now req s).0.1 ≡ some sent
      → (e : Evaluated) × ((evaluate_request tables.rules tables.logs now (context_of req) s).0
          ≡ some e)
        × (e.decision.verdict ≡ allow)
        × IsSent outside tables req sent
  unfolding intercept_and_execute
  intercept_and_execute-IsSent now s sent = elim (Bool-cases (is_empty req.organization_id)) [
    | inl blank ↦ rw blank (λ h. cc)
    | inr given ↦ rw given (λ h. act_on-IsSent _ sent h)
  ]
