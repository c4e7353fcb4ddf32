-- ===== src/Policy/Engine/Isolation.antt =====
-- Which buckets of the limiter an evaluation touches: `buildBucketKey` of policy.engine.ts.
use get_mcp.Base.{
  ℕ, ◌≡◌, ◌≢◌, inl, inr, refl, sym, ap, ◌∙◌, Bool, true, false, not, ◌&&◌, List, [], ◌∷◌, ◌++◌,
  append-nil, if◌then◌else◌, Bool-cases, Option-cases, All, Text, codes, includes, join, lookup,
}
use get_mcp.Policy.RateLimiter.{Buckets}
use get_mcp.Policy.RateLimiter.Soundness.{lookup-consume_ne}
use get_mcp.Policy.Rule.{RuleType, allowlist, rate_limit, PolicyRule, EvalContext, EvaluationTrace}
use get_mcp.Policy.Engine.{
  or_else, is_given, is_external, is_external_only, is_mutation_approval, scope_of, limit_of,
  window_ms_of, build_bucket_key, base_match, consume_for, Step, apply_rate_limit, dispatch,
  apply_rule, step, run,
}
use get_mcp.Policy.Engine.Steps.{Step-cases}

abbrev pub key_of : EvalContext → PolicyRule → Text
key_of ctx rule = build_bucket_key (scope_of rule) rule.id ctx

module _ (ctx : EvalContext) (now : ℕ) (k : Text) where
  abbrev pub Avoids : PolicyRule → Type 0
  Avoids rule = key_of ctx rule ≢ k

  consume_for-lookup :
      (rule : PolicyRule) (m : Buckets)
      → Avoids rule
      → lookup k (consume_for rule ctx now m).1 ≡ lookup k m
  unfolding consume_for
  consume_for-lookup rule m h = lookup-consume_ne now _ k (limit_of rule) (window_ms_of rule) m h

  unless-lookup :
      (b : Bool) (s : Step) (m : Buckets) (r : Step × Buckets)
      → lookup k r.1 ≡ lookup k m
      → lookup k (if b then (s, m) else r).1 ≡ lookup k m
  unless-lookup true s m r h = refl
  unless-lookup false s m r h = h

  dispatch-lookup :
      (type : RuleType) (rule : PolicyRule) (m : Buckets)
      → Avoids rule
      → lookup k (dispatch type rule ctx now m).1 ≡ lookup k m
  unfolding dispatch apply_rate_limit
  dispatch-lookup rate_limit rule m h = elim (Bool-cases (is_given ctx.tenant_id)) [
    | inl given ↦ rw given (consume_for-lookup rule m h)
    | inr missing ↦ rw missing
  ]
  dispatch-lookup allowlist rule m h = refl
  dispatch-lookup type rule m h = refl

  apply_rule-lookup :
      (type : RuleType) (rule : PolicyRule) (m : Buckets)
      → Avoids rule
      → lookup k (apply_rule type rule ctx now m).1 ≡ lookup k m
  unfolding apply_rule
  apply_rule-lookup type rule m h =
      unless-lookup (is_mutation_approval type && ctx.bypass_approval) _ m _ (
        unless-lookup (is_external_only type && not (is_external ctx.source)) _ m _
          (dispatch-lookup type rule m h))

  step-lookup :
      (rule : PolicyRule) (m : Buckets)
      → Avoids rule
      → lookup k (step rule ctx now m).1 ≡ lookup k m
  unfolding step
  step-lookup rule m h = elim (Option-cases (base_match rule ctx)) [
    | inl throws ↦ rw (throws, step)
    | inr (true, found) ↦ rw (found, step) (apply_rule-lookup rule.rule_type rule m h)
    | inr (false, missed) ↦ rw (missed, step)
  ]

  pub run-lookup :
      (rules : List PolicyRule) (trace : List EvaluationTrace) (m : Buckets)
      → All Avoids rules
      → lookup k (run rules ctx now trace m).1 ≡ lookup k m
  unfolding run
  run-lookup [] trace m h = refl
  run-lookup (rule ∷ rules) trace m (p, h) = elim (Step-cases (step rule ctx now m)) [
    | inl (t, m₁, e) ↦
        rw (e, run)
          (run-lookup rules (trace ++ t ∷ []) (step rule ctx now m).1 h ∙ step-lookup rule m p)
    | inr (inl (v, t, m₁, e)) ↦ rw (e, run) (step-lookup rule m p)
    | inr (inr (m₁, e)) ↦ rw (e, run) (step-lookup rule m p)
  ]

abbrev pub NoBar : Text → Type 0
NoBar = All (λ c. c ≢ b'|')

-- What is left of a key after one of its parts.
abbrev pub IsTail : Text → Type 0
IsTail [] = Unit
IsTail (c ∷ s) = c ≡ b'|'

pub split_at_bar :
    (a b x y : Text) → NoBar a → NoBar b → IsTail x → IsTail y → a ++ x ≡ b ++ y → (a ≡ b) × (x ≡ y)
split_at_bar [] [] x y na nb tx ty e = (refl, e)
split_at_bar [] (c ∷ b) [] y na nb tx ty e = cc
split_at_bar [] (c ∷ b) (d ∷ x) y na (p, nb) tx ty e = absurd (p (cc))
split_at_bar (c ∷ a) [] x [] na nb tx ty e = cc
split_at_bar (c ∷ a) [] x (d ∷ y) (p, na) nb tx ty e = absurd (p (cc))
split_at_bar (c ∷ a) (d ∷ b) x y (p, na) (q, nb) tx ty e =
    let (same, rest) = split_at_bar a b x y na nb tx ty (cc) in (cc, rest)

-- The part of a key behind the organisation.
abbrev pub scope_parts : Text → EvalContext → List Text
scope_parts scope ctx =
    (if includes scope (codes "agent") then or_else ctx.agent_id (codes "no-agent") ∷ [] else [])
    ++ (if includes scope (codes "tenant")
        then or_else ctx.tenant_id (codes "no-tenant") ∷ []
        else [])

abbrev pub tail_of : List Text → Text
tail_of [] = []
tail_of (s ∷ parts) = b'|' ∷ join (codes "|") (s ∷ parts)

pub tail_of-IsTail : (parts : List Text) → IsTail (tail_of parts)
tail_of-IsTail [] = tt
tail_of-IsTail (s ∷ parts) = refl

join-tail : (s : Text) (parts : List Text) → join (codes "|") (s ∷ parts) ≡ s ++ tail_of parts
unfolding join
join-tail s [] = sym (append-nil s)
join-tail s (t ∷ parts) = refl

pub key-eq :
    (scope id : Text) (ctx : EvalContext)
    → build_bucket_key scope id ctx
      ≡ id ++ b'|' ∷ (ctx.organization_id ++ tail_of (scope_parts scope ctx))
unfolding build_bucket_key
key-eq scope id ctx =
    join-tail id (ctx.organization_id ∷ scope_parts scope ctx)
    ∙ ap (λ t. id ++ b'|' ∷ t) (join-tail ctx.organization_id (scope_parts scope ctx))
