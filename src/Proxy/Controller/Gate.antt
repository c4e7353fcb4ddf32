-- ===== src/Proxy/Controller/Gate.antt =====
-- Which calls of executeAgentAction (apps/api/src/proxy/proxy.controller.ts) reach an upstream.
use get_mcp.Base.{
  ℕ, ◌≡◌, ◌⊎◌, refl, ◌∙◌, inl, inr, Bool, true, false, not, ◌||◌, Option, none, some, ◌∷◌,
  Bool-cases, Option-cases, Text, codes,
}
use get_mcp.Agents.{ResolvedAgent, resolve}
use get_mcp.Policy.Rule.{allow}
use get_mcp.Policy.Service as Service
use get_mcp.Policy.Service.{Evaluated, evaluate_request}
use get_mcp.Proxy.Forward.{UpstreamRequest, Outside, ProxyOutcome}
use get_mcp.Proxy.Intercept.{Tables, context_of, intercept_and_execute}
use get_mcp.Proxy.Intercept.Safety.{IsSent, intercept_and_execute-IsSent}
use get_mcp.Proxy.Call.{Call, State, header, header_source, request_of}
use get_mcp.Proxy.Controller.{
  is_revoked, differs, outside_scope, catch_error, hold, respond, proxy_call, with_agent,
  execute_agent_action,
}

-- The agent may act, the policies allow the request, and it was sent to its organisation's upstream.
pub record IsCleared (outside : Outside) (tables : Tables) (now : ℕ) (call : Call)
    (policy : Service.State) (agent : ResolvedAgent) (sent : UpstreamRequest) : Type 0 where
  pub enabled : agent.enabled ≡ true
  pub alive : is_revoked agent ≡ false
  pub source : differs (header_source call) agent.source ≡ false
  pub scope : outside_scope agent.tenant_scope (header call (codes "x-tenant-id")) ≡ false
  pub evaluated : Evaluated
  pub decided :
      (evaluate_request tables.rules tables.logs now (context_of (request_of call agent)) policy).0
      ≡ some evaluated
  pub allowed : evaluated.decision.verdict ≡ allow
  pub is_sent : IsSent outside tables (request_of call agent) sent

module _ (outside : Outside) (tables : Tables) (now : ℕ) (id : Text) (call : Call) where
  respond-sent :
      (agent : ResolvedAgent) (out : ProxyOutcome) (s : State)
      → (respond tables now id call agent out s).1.sent ≡ s.sent
  unfolding respond catch_error hold
  respond-sent agent (ProxyOutcome.thrown t) s = refl
  respond-sent agent (ProxyOutcome.awaiting_approval rule reason channel score) s = refl
  respond-sent agent (ProxyOutcome.proxied status headers score) s = refl

  -- Nothing was sent, or one request of an agent that may act, which the policies allow.
  abbrev pub Sends : State → State → Option ResolvedAgent → Type 0
  Sends s after found =
      (after.sent ≡ s.sent)
      ⊎ ((agent : ResolvedAgent) × (sent : UpstreamRequest) × (found ≡ some agent)
          × (after.sent ≡ sent ∷ s.sent)
          × IsCleared outside tables now call s.policy agent sent)

  may_act :
      (agent : ResolvedAgent)
      → (not agent.enabled || is_revoked agent) ≡ false
      → (agent.enabled ≡ true) × (is_revoked agent ≡ false)
  may_act agent h = go agent.enabled (is_revoked agent) h
    where
      go : (a b : Bool) → (not a || b) ≡ false → (a ≡ true) × (b ≡ false)
      go true b h = (refl, h)
      go false b h = cc

  proxy_call-Sends :
      (agent : ResolvedAgent) (s : State)
      → (not agent.enabled || is_revoked agent) ≡ false
      → differs (header_source call) agent.source ≡ false
      → outside_scope agent.tenant_scope (header call (codes "x-tenant-id")) ≡ false
      → Sends s (proxy_call outside tables now id call agent s).1 (some agent)
  unfolding proxy_call
  proxy_call-Sends agent s may same scope =
      let out = intercept_and_execute outside tables now (request_of call agent) s.policy in
      elim (Option-cases out.0.1) [
        | inl quiet ↦ inl (respond-sent agent out.0.0 _ ∙ rw quiet)
        | inr (sent, found) ↦
            let (e, decided, allowed, is_sent) =
              intercept_and_execute-IsSent outside tables (request_of call agent) now s.policy sent
                found in
            let (enabled, alive) = may_act agent may in
            inr (
              agent,
              sent,
              refl,
              respond-sent agent out.0.0 _ ∙ rw found,
              record {
                enabled = enabled;
                alive = alive;
                source = same;
                scope = scope;
                evaluated = e;
                decided = decided;
                allowed = allowed;
                is_sent = is_sent;
              },
            )
      ]

  with_agent-Sends :
      (agent_id : Text) (found : Option ResolvedAgent) (s : State)
      → Sends s (with_agent outside tables now id call agent_id found s).1 found
  unfolding with_agent
  with_agent-Sends agent_id none s = inl refl
  with_agent-Sends agent_id (some agent) s =
      elim (Bool-cases (not agent.enabled || is_revoked agent)) [
        | inl refused ↦ rw refused (inl refl)
        | inr may ↦ elim (Bool-cases (differs (header_source call) agent.source)) [
          | inl other ↦ rw (may, other) (inl refl)
          | inr same ↦
              elim (Bool-cases
                (outside_scope agent.tenant_scope (header call (codes "x-tenant-id")))) [
                  | inl foreign ↦ rw (may, same, foreign) (inl refl)
                  | inr scope ↦ rw (may, same, scope) (proxy_call-Sends agent s may same scope)
                ]
        ]
      ]

  -- A call sends nothing to an upstream, or exactly one request. Then the call names an agent that
  -- resolves, is enabled and not revoked, and whose source and tenant fit the headers, the policies
  -- allow the call, and the request goes to the organisation's upstream as it may be forwarded.
  pub execute_agent_action-IsCleared :
      (agents : Text → Text → Option ResolvedAgent) (s : State)
      → let after = (execute_agent_action outside tables agents now id call s).1 in
        (after.sent ≡ s.sent)
        ⊎ ((agent_id : Text) × (agent : ResolvedAgent) × (sent : UpstreamRequest) × (header call
                (codes "x-agent-id")
              ≡ some agent_id)
            × ((resolve agents now call.organization_id agent_id s.agents).0 ≡ some agent)
            × (after.sent ≡ sent ∷ s.sent)
            × IsCleared outside tables now call s.policy agent sent)
  unfolding execute_agent_action
  execute_agent_action-IsCleared agents s = elim (Option-cases (header call (codes "x-agent-id"))) [
    | inl unnamed ↦ rw unnamed (inl refl)
    | inr (agent_id, named) ↦
        let (found, cache) = resolve agents now call.organization_id agent_id s.agents in
        rw named (elim (with_agent-Sends agent_id found (record s { agents = cache })) [
          | inl quiet ↦ inl quiet
          | inr (agent, sent, known, sends, cleared) ↦
              inr (agent_id, agent, sent, refl, known, sends, cleared)
        ])
  ]
