-- ===== src/Policy/Engine/Tenants.antt =====
-- Organisations and tenants do not share buckets of the limiter: policy.engine.ts.
use get_mcp.Base.{
  ℕ, ◌≡◌, ◌≢◌, inl, inr, refl, sym, ◌∙◌, true, List, [], ◌∷◌, ◌++◌, Bool-cases, All, Text, codes,
  includes, join, lookup,
}
use get_mcp.Policy.RateLimiter.{Buckets}
use get_mcp.Policy.Rule.{PolicyRule, EvalContext}
use get_mcp.Policy.Engine.{or_else, scope_of, build_bucket_key, evaluate}
use get_mcp.Policy.Engine.Order.{not_after, insert_rule, sort_rules}
use get_mcp.Policy.Engine.Isolation.{
  NoBar, split_at_bar, scope_parts, tail_of, tail_of-IsTail, key-eq, Avoids, run-lookup,
}

-- The identifiers in a key, which the database generates, hold no bar.
abbrev pub HasPlainIds : EvalContext → List PolicyRule → Type 0
HasPlainIds ctx rules = NoBar ctx.organization_id × All (λ r. NoBar r.id) rules

key-organization :
    (scope scope' id id' : Text) (ctx ctx' : EvalContext)
    → NoBar id
    → NoBar id'
    → NoBar ctx.organization_id
    → NoBar ctx'.organization_id
    → build_bucket_key scope id ctx ≡ build_bucket_key scope' id' ctx'
    → ctx.organization_id ≡ ctx'.organization_id
key-organization scope scope' id id' ctx ctx' ni ni' org org' e =
    let (_, rest) =
      split_at_bar id id' _ _ ni ni' refl refl
        (sym (key-eq scope id ctx) ∙ (e ∙ key-eq scope' id' ctx')) in
    (split_at_bar ctx.organization_id ctx'.organization_id (tail_of (scope_parts scope ctx))
      (tail_of (scope_parts scope' ctx')) org org' (tail_of-IsTail (scope_parts scope ctx))
      (tail_of-IsTail (scope_parts scope' ctx')) (cc)).0

insert_rule-All :
    (P : PolicyRule → Type 0) (r : PolicyRule) (rules : List PolicyRule)
    → P r
    → All P rules
    → All P (insert_rule r rules)
unfolding insert_rule
insert_rule-All P r [] p h = (p, tt)
insert_rule-All P r (s ∷ rules) p (q, h) = elim (Bool-cases (not_after r s)) [
  | inl here ↦ rw here (p, (q, h))
  | inr later ↦ rw later (q, insert_rule-All P r rules p h)
]

pub sort_rules-All :
    (P : PolicyRule → Type 0) (rules : List PolicyRule) → All P rules → All P (sort_rules rules)
unfolding sort_rules
sort_rules-All P [] h = tt
sort_rules-All P (r ∷ rules) (p, h) =
    insert_rule-All P r (sort_rules rules) p (sort_rules-All P rules h)

All-map :
    (P Q : PolicyRule → Type 0) (rules : List PolicyRule)
    → ((r : PolicyRule) → P r → Q r)
    → All P rules
    → All Q rules
All-map P Q [] f h = tt
All-map P Q (r ∷ rules) f (p, h) = (f r p, All-map P Q rules f h)

-- Evaluating a request of one organisation leaves every bucket of another organisation as it is,
-- whatever the rules' scopes, the agents and the tenants are. The identifiers of the organisations and
-- of the rules hold no bar.
pub evaluate-organization :
    (ctx ctx' : EvalContext) (now : ℕ) (rules : List PolicyRule) (m : Buckets) (scope id : Text)
    → HasPlainIds ctx rules
    → NoBar ctx'.organization_id
    → NoBar id
    → ctx.organization_id ≢ ctx'.organization_id
    → lookup (build_bucket_key scope id ctx') (evaluate rules ctx now m).1
      ≡ lookup (build_bucket_key scope id ctx') m
unfolding evaluate
evaluate-organization ctx ctx' now rules m scope id (org, nr) org' ni other =
    run-lookup ctx now (build_bucket_key scope id ctx') (sort_rules rules) [] m (
      All-map (λ r. NoBar r.id) (Avoids ctx now (build_bucket_key scope id ctx')) (sort_rules rules)
        (λ r nr' e. other (key-organization (scope_of r) scope r.id id ctx ctx' nr' ni org org' e))
        (sort_rules-All (λ r. NoBar r.id) rules nr))

-- The default scope, and any other that names both agent and tenant.
abbrev pub NamesBoth : Text → Type 0
NamesBoth scope = (includes scope (codes "agent") ≡ true) × (includes scope (codes "tenant") ≡ true)

abbrev pub agent_of : EvalContext → Text
agent_of ctx = or_else ctx.agent_id (codes "no-agent")

abbrev pub tenant_of : EvalContext → Text
tenant_of ctx = or_else ctx.tenant_id (codes "no-tenant")

parts-both :
    (scope : Text) (ctx : EvalContext)
    → NamesBoth scope
    → tail_of (scope_parts scope ctx) ≡ b'|' ∷ (agent_of ctx ++ b'|' ∷ tenant_of ctx)
unfolding join
parts-both scope ctx (a, t) = rw (a, t)

All-both :
    (P Q : PolicyRule → Type 0) (rules : List PolicyRule)
    → All P rules
    → All Q rules
    → All (λ r. P r × Q r) rules
All-both P Q [] h k = tt
All-both P Q (r ∷ rules) (p, h) (q, k) = ((p, q), All-both P Q rules h k)

key-tenant :
    (scope scope' id id' : Text) (ctx ctx' : EvalContext)
    → NoBar id × NoBar id' × NoBar ctx.organization_id × NoBar ctx'.organization_id
    → NoBar (agent_of ctx) × NoBar (agent_of ctx')
    → NamesBoth scope
    → NamesBoth scope'
    → build_bucket_key scope id ctx ≡ build_bucket_key scope' id' ctx'
    → tenant_of ctx ≡ tenant_of ctx'
key-tenant scope scope' id id' ctx ctx' (ni, ni', org, org') (na, na') (a, t) (a', t') e =
    let (_, rest) =
      split_at_bar id id' _ _ ni ni' refl refl
        (sym (key-eq scope id ctx) ∙ (e ∙ key-eq scope' id' ctx')) in
    let (_, parts) =
      split_at_bar ctx.organization_id ctx'.organization_id (tail_of (scope_parts scope ctx))
        (tail_of (scope_parts scope' ctx')) org org' (tail_of-IsTail (scope_parts scope ctx))
        (tail_of-IsTail (scope_parts scope' ctx')) (cc) in
    let whole = sym (parts-both scope ctx (a, t)) ∙ (parts ∙ parts-both scope' ctx' (a', t')) in
    let (_, tenants) =
      split_at_bar (agent_of ctx) (agent_of ctx') (b'|' ∷ tenant_of ctx) (b'|' ∷ tenant_of ctx') na
        na' refl refl (cc) in
    cc

-- Evaluating a request for one tenant leaves the buckets of another tenant as they are, if the rules'
-- scopes name both agent and tenant. The identifiers of the organisations, the rules and the agents
-- hold no bar.
pub evaluate-tenant :
    (ctx ctx' : EvalContext) (now : ℕ) (rules : List PolicyRule) (m : Buckets) (scope id : Text)
    → HasPlainIds ctx rules × NoBar (agent_of ctx) × All (λ r. NamesBoth (scope_of r)) rules
    → NoBar id × NoBar ctx'.organization_id × NoBar (agent_of ctx') × NamesBoth scope
    → tenant_of ctx ≢ tenant_of ctx'
    → lookup (build_bucket_key scope id ctx') (evaluate rules ctx now m).1
      ≡ lookup (build_bucket_key scope id ctx') m
unfolding evaluate
evaluate-tenant ctx ctx' now rules m scope id ((org, nr), na, scopes) (ni, org', na', names) other =
    run-lookup ctx now (build_bucket_key scope id ctx') (sort_rules rules) [] m (
      All-map (λ r. NoBar r.id × NamesBoth (scope_of r))
        (Avoids ctx now (build_bucket_key scope id ctx')) (sort_rules rules)
        (λ r both e. other (
          key-tenant (scope_of r) scope r.id id ctx ctx' (both.0, ni, org, org') (na, na') both.1
            names e))
        (sort_rules-All (λ r. NoBar r.id × NamesBoth (scope_of r)) rules
          (All-both (λ r. NoBar r.id) (λ r. NamesBoth (scope_of r)) rules nr scopes)))
