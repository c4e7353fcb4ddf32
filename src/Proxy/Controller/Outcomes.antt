-- ===== src/Proxy/Controller/Outcomes.antt =====
-- The audit entries that each response of executeAgentAction leaves: apps/api/src/proxy/proxy.controller.ts.
use get_mcp.Base.{
  ℕ, ◌≡◌, ◌⊎◌, refl, inl, inr, not, ◌||◌, Option, none, some, ◌∷◌, Bool-cases, Option-cases, Text,
  codes, is_empty, lookup,
}
use get_mcp.Json.{Number}
use get_mcp.Agents.{ResolvedAgent, resolve}
use get_mcp.Policy.Rule.{PolicyRule, Reason, Verdict, allow, rate_limited}
use get_mcp.Policy.Rule
use get_mcp.Policy.Service.{Evaluated, evaluate_request}
use get_mcp.Policy.Service as Service
use get_mcp.Approval.Pending.{PendingRequest}
use get_mcp.Approval.Store.{create_pending}
use get_mcp.Approval.Store as Approval
use get_mcp.Proxy.Headers.{Headers}
use get_mcp.Proxy.Forward.{
  AgentRequest, Organization, UpstreamRequest, UpstreamResult, Outside, ProxyOutcome, is_timeout,
  answer_of, send, forward_to, forward_upstream,
}
use get_mcp.Proxy.Intercept.{Tables, act_on, intercept_and_execute}
use get_mcp.Proxy.Call.{
  Call, Action, blocked, awaiting_approval, Entry, Response, missing_agent_id, source_mismatch,
  tenant_mismatch, rethrown, accepted, not_stored, streaming, State, header, header_source,
  request_of, entry_of, held, logged,
}
use get_mcp.Proxy.Controller.{
  status_of, gateway_status, pending_input, channel_of, stored, sending, is_revoked, differs,
  outside_scope, catch_error, hold, respond, proxy_call, with_agent, execute_agent_action,
}

-- A request was sent exactly where there is an answer or a status of a gateway.
abbrev IsPaired : ProxyOutcome → Option UpstreamRequest → Type 0
IsPaired (ProxyOutcome.thrown t) none = gateway_status (status_of t) ≡ none
IsPaired (ProxyOutcome.thrown t) (some u) = gateway_status (status_of t) ≡ some (status_of t)
IsPaired (ProxyOutcome.awaiting_approval rule reason channel score) sent = sent ≡ none
IsPaired (ProxyOutcome.proxied status headers score) none = ⊥
IsPaired (ProxyOutcome.proxied status headers score) (some u) = Unit

answer_of-IsPaired :
    (score : Option Number) (r : UpstreamResult) (u : UpstreamRequest)
    → IsPaired (answer_of score r) (some u)
unfolding answer_of
answer_of-IsPaired score (UpstreamResult.answered status headers) u = tt
answer_of-IsPaired score (UpstreamResult.failed code message) u =
    elim (Bool-cases (is_timeout code)) [ inl late ↦ rw late | inr broken ↦ rw broken ]

module _ (outside : Outside) (tables : Tables) (req : AgentRequest) where
  send-IsPaired :
      (score : Option Number) (base : Text) (timeout : ℕ) (o : Option Headers)
      → let out = send outside req score base timeout o in IsPaired out.0 out.1
  unfolding send
  send-IsPaired score base timeout none = refl
  send-IsPaired score base timeout (some headers) = answer_of-IsPaired score _ _

  forward_to-IsPaired :
      (score : Option Number) (org : Organization) (o : Option Text)
      → let out = forward_to outside req score org o in IsPaired out.0 out.1
  forward_to-IsPaired score org none = refl
  forward_to-IsPaired score org (some base) = elim (Bool-cases (is_empty base)) [
    | inl blank ↦ rw blank refl
    | inr given ↦ rw given (send-IsPaired score base org.upstream_timeout_ms _)
  ]

  forward_upstream-IsPaired :
      (score : Option Number) (o : Option Organization)
      → let out = forward_upstream outside req score o in IsPaired out.0 out.1
  unfolding forward_upstream
  forward_upstream-IsPaired score none = refl
  forward_upstream-IsPaired score (some org) = forward_to-IsPaired score org org.upstream_base_url

  verdict-IsPaired :
      (e : Evaluated) (v : Verdict)
      → e.decision.verdict ≡ v
      → let out = act_on outside tables req (some e) in IsPaired out.0 out.1
  unfolding act_on
  verdict-IsPaired e allow same = rw same (forward_upstream-IsPaired e.anomaly_score _)
  verdict-IsPaired e (Rule.block r why) same = rw same refl
  verdict-IsPaired e (Verdict.awaiting_approval r why channel) same = rw same refl
  verdict-IsPaired e (rate_limited r ms) same = rw same refl

  act_on-IsPaired :
      (o : Option Evaluated) → let out = act_on outside tables req o in IsPaired out.0 out.1
  unfolding act_on
  act_on-IsPaired none = refl
  act_on-IsPaired (some e) = verdict-IsPaired e e.decision.verdict refl

  intercept_and_execute-IsPaired :
      (now : ℕ) (s : Service.State)
      → let out = (intercept_and_execute outside tables now req s).0 in IsPaired out.0 out.1
  unfolding intercept_and_execute
  intercept_and_execute-IsPaired now s = elim (Bool-cases (is_empty req.organization_id)) [
    | inl blank ↦ rw blank refl
    | inr given ↦ rw given (act_on-IsPaired _)
  ]

-- One entry is added, of the given action and upstream status.
abbrev pub Logs : State → Action → Option ℕ → State → Type 0
Logs s action status after =
    (e : Entry) × (after.entries ≡ e ∷ s.entries)
    × (e.action_taken ≡ action)
    × (e.upstream_status ≡ status)

abbrev pub IsQuiet : State → State → Type 0
IsQuiet s after = after.sent ≡ s.sent

-- What the state shows of a response.
abbrev pub IsLogged : State → Response → State → Type 0
IsLogged s (rethrown t retry) after =
    (IsQuiet s after × Logs s blocked none after)
    ⊎ ((u : UpstreamRequest) × (after.sent ≡ u ∷ s.sent)
        × Logs s blocked (some (status_of t)) after)
IsLogged s (accepted id r) after = IsQuiet s after × Logs s awaiting_approval none after
IsLogged s not_stored after = IsQuiet s after × Logs s awaiting_approval none after
IsLogged s (streaming status headers score) after =
    (u : UpstreamRequest) × (after.sent ≡ u ∷ s.sent) × (after.entries ≡ s.entries)
IsLogged s missing_agent_id after = IsQuiet s after × (after.entries ≡ s.entries)
IsLogged s source_mismatch after = IsQuiet s after × (after.entries ≡ s.entries)
IsLogged s tenant_mismatch after = IsQuiet s after × (after.entries ≡ s.entries)
IsLogged s _ after = IsQuiet s after × Logs s blocked none after

module _ (outside : Outside) (tables : Tables) (now : ℕ) (id : Text) (call : Call) where
  hold-IsLogged :
      (agent : ResolvedAgent) (rule : PolicyRule) (reason : Reason) (channel : Text)
      (score : Option Number) (s : State)
      → let out = hold tables now id call agent rule reason channel score s in
        IsLogged s out.0 out.1
  unfolding hold entry_of
  hold-IsLogged agent rule reason channel score s = stored_either (
      create_pending
        (pending_input call agent rule
          (channel_of channel (lookup call.organization_id tables.organizations)))
        id now s.approvals)
    where
      stored_either :
          (r : Option PendingRequest × Approval.Db)
          → let e =
              entry_of call
                (some agent.id)
                agent.source
                (some (held reason))
                awaiting_approval
                score in
            IsLogged s (stored id r.0) (record (logged e s) { approvals = r.1 })
      stored_either (none, db) = (refl, (_, refl, refl, refl))
      stored_either (some r, db) = (refl, (_, refl, refl, refl))

  respond-IsLogged :
      (agent : ResolvedAgent) (policy : Service.State) (out : ProxyOutcome)
      (sent : Option UpstreamRequest) (s : State)
      → IsPaired out sent
      → let after =
          respond tables now id call agent out
            (record s { policy = policy; sent = sending sent s.sent }) in
        IsLogged s after.0 after.1
  unfolding respond catch_error entry_of
  respond-IsLogged agent policy (ProxyOutcome.thrown t) none s pair =
      inl (refl, (_, refl, refl, pair))
  respond-IsLogged agent policy (ProxyOutcome.thrown t) (some u) s pair =
      inr (u, refl, (_, refl, refl, pair))
  respond-IsLogged agent policy (ProxyOutcome.awaiting_approval rule reason channel score) sent s
        pair =
      rw pair (hold-IsLogged agent rule reason channel score (record s { policy = policy }))
  respond-IsLogged agent policy (ProxyOutcome.proxied status headers score) none s pair =
      absurd pair
  respond-IsLogged agent policy (ProxyOutcome.proxied status headers score) (some u) s pair =
      (u, refl, refl)

  with_agent-IsLogged :
      (agent_id : Text) (found : Option ResolvedAgent) (s : State)
      → let out = with_agent outside tables now id call agent_id found s in IsLogged s out.0 out.1
  unfolding with_agent entry_of proxy_call
  with_agent-IsLogged agent_id none s = (refl, (_, refl, refl, refl))
  with_agent-IsLogged agent_id (some agent) s =
      elim (Bool-cases (not agent.enabled || is_revoked agent)) [
        | inl refused ↦ rw refused (elim (Bool-cases (is_revoked agent)) [
          | inl revoked ↦ rw revoked (refl, (_, refl, refl, refl))
          | inr disabled ↦ rw disabled (refl, (_, refl, refl, refl))
        ])
        | inr may ↦ elim (Bool-cases (differs (header_source call) agent.source)) [
          | inl other ↦ rw (may, other) (refl, refl)
          | inr same ↦
              elim (Bool-cases
                (outside_scope agent.tenant_scope (header call (codes "x-tenant-id")))) [
                  | inl foreign ↦ rw (may, same, foreign) (refl, refl)
                  | inr scope ↦
                      rw (may, same, scope)
                        (let req = request_of call agent in
                          let out = intercept_and_execute outside tables now req s.policy in
                          respond-IsLogged agent out.1 out.0.0 out.0.1 s
                            (intercept_and_execute-IsPaired outside tables req now s.policy))
                ]
        ]
      ]

  -- Each response leaves its mark. A call that is refused or held adds one audit entry, BLOCKED or
  -- AWAITING_APPROVAL; the entry has an upstream status, that of the error, exactly if a request was
  -- sent. A call with an answer that is streamed has sent one request and has no entry yet. A call
  -- without an agent id, or whose source or tenant does not fit its agent, sends nothing and leaves no
  -- entry.
  pub execute_agent_action-IsLogged :
      (agents : Text → Text → Option ResolvedAgent) (s : State)
      → let out = execute_agent_action outside tables agents now id call s in IsLogged s out.0 out.1
  unfolding execute_agent_action
  execute_agent_action-IsLogged agents s = elim (Option-cases (header call (codes "x-agent-id"))) [
    | inl unnamed ↦ rw unnamed (refl, refl)
    | inr (agent_id, named) ↦
        let (found, cache) = resolve agents now call.organization_id agent_id s.agents in
        rw named (with_agent-IsLogged agent_id found (record s { agents = cache }))
  ]
