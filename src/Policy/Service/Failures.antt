-- ===== src/Policy/Service/Failures.antt =====
-- A failure of the anomaly scoring blocks no request: policy.service.ts with policy.engine.ts.
use get_mcp.Base.{
  ℕ, ◌≡◌, ◌≢◌, refl, sym, subst, Text, inl, inr, true, false, Option, none, some, List, [], ◌∷◌,
  ◌++◌, Bool-cases, Option-cases, All, any, is_empty,
}
use get_mcp.Policy.RateLimiter.{Buckets}
use get_mcp.Policy.Rule.{
  behavioral_anomaly, PolicyRule, EvalContext, EvaluationTrace, Verdict, allow, awaiting_approval,
  rate_limited, Decision,
}
use get_mcp.Policy.Rule
use get_mcp.Policy.Engine.{
  Step, return, fewer, or_else, min_samples_of, base_match, is_external, apply_anomaly, dispatch,
  apply_rule, step, run, evaluate,
}
use get_mcp.Policy.Engine.Order.{sort_rules}
use get_mcp.Policy.Engine.Steps.{Returns, step-Fulfils, Step-cases}
use get_mcp.Policy.Engine.Tenants.{sort_rules-All}
use get_mcp.Policy.Baseline.{LogRow}
use get_mcp.Policy.Baseline as Baseline
use get_mcp.Policy.Service.{
  RuleRow, State, is_anomaly, get_active_rules, enrich, score_agent, score_with, Evaluated, surface,
  evaluate_request,
}

-- The verdict is not that of an anomaly rule.
abbrev pub IsUnrelated : Verdict → Type 0
IsUnrelated allow = Unit
IsUnrelated (Rule.block r why) = r.rule_type ≢ behavioral_anomaly
IsUnrelated (awaiting_approval r why channel) = r.rule_type ≢ behavioral_anomaly
IsUnrelated (rate_limited r ms) = r.rule_type ≢ behavioral_anomaly

-- An anomaly rule wants more samples than the context has.
abbrev pub WantsMore : EvalContext → PolicyRule → Type 0
WantsMore ctx rule =
    (rule.rule_type ≡ behavioral_anomaly)
    → fewer (or_else ctx.anomaly_baseline_sample_count 0) (min_samples_of rule) ≡ true

-- A step goes on or throws.
abbrev Continues : Step → Type 0
Continues (return v t) = ⊥
Continues _ = Unit

apply_rule-Continues :
    (rule : PolicyRule) (ctx : EvalContext) (now : ℕ) (m : Buckets)
    → fewer (or_else ctx.anomaly_baseline_sample_count 0) (min_samples_of rule) ≡ true
    → Continues (apply_rule behavioral_anomaly rule ctx now m).0
unfolding apply_rule dispatch apply_anomaly
apply_rule-Continues rule ctx now m few = elim (Bool-cases (is_external ctx.source)) [
  | inl outside ↦ rw (outside, few) tt
  | inr inside ↦ rw inside tt
]

step-Continues :
    (rule : PolicyRule) (ctx : EvalContext) (now : ℕ) (m : Buckets)
    → rule.rule_type ≡ behavioral_anomaly
    → WantsMore ctx rule
    → Continues (step rule ctx now m).0
unfolding step
step-Continues rule ctx now m type more = elim (Option-cases (base_match rule ctx)) [
  | inl throws ↦ rw (throws, step) tt
  | inr (true, found) ↦
      rw (found, step)
        (subst (λ type. Continues (apply_rule type rule ctx now m).0) (sym type)
          (apply_rule-Continues rule ctx now m (more type)))
  | inr (false, missed) ↦ rw (missed, step) tt
]

Returns-IsUnrelated :
    (rule : PolicyRule) (ctx : EvalContext) (now : ℕ) (m : Buckets) (v : Verdict)
    → rule.rule_type ≢ behavioral_anomaly
    → Returns now m rule.rule_type rule ctx v
    → IsUnrelated v
Returns-IsUnrelated rule ctx now m allow other h = tt
Returns-IsUnrelated rule ctx now m (Rule.block r why) other (same, _) = rw same other
Returns-IsUnrelated rule ctx now m (awaiting_approval r why channel) other (same, _, _) =
    rw same other
Returns-IsUnrelated rule ctx now m (rate_limited r ms) other (same, _, _, _, _, _) = rw same other

step-IsUnrelated :
    (rule : PolicyRule) (ctx : EvalContext) (now : ℕ) (m m' : Buckets) (v : Verdict)
    (t : EvaluationTrace)
    → WantsMore ctx rule
    → step rule ctx now m ≡ (return v t, m')
    → IsUnrelated v
step-IsUnrelated rule ctx now m m' v t more e =
    let stops : rule.rule_type ≢ behavioral_anomaly =
      λ type. subst (λ out. Continues out.0) e (step-Continues rule ctx now m type more) in
    elim (step-Fulfils rule ctx now m (return v t) m' e) [
      | inl (throws, wrong) ↦ cc
      | inr (inl (missed, wrong)) ↦ cc
      | inr (inr (found, returns)) ↦ Returns-IsUnrelated rule ctx now m v stops returns
    ]

run-IsUnrelated :
    (ctx : EvalContext) (now : ℕ) (rules : List PolicyRule) (trace : List EvaluationTrace)
    (m m' : Buckets) (d : Decision)
    → All (WantsMore ctx) rules
    → run rules ctx now trace m ≡ (some d, m')
    → IsUnrelated d.verdict
unfolding run
run-IsUnrelated ctx now [] trace m m' d more h =
    let allowed : allow ≡ d.verdict = cc in subst IsUnrelated allowed tt
run-IsUnrelated ctx now (rule ∷ rules) trace m m' d (p, more) h =
    elim (Step-cases (step rule ctx now m)) [
      | inl (t, m₁, e) ↦
          run-IsUnrelated ctx now rules (trace ++ t ∷ []) (step rule ctx now m).1 m' d more
            (rw (e, run) at h)
      | inr (inl (v, t, m₁, e)) ↦
          let done = rw (e, run) at h in
          let same : v ≡ d.verdict = cc in
          subst IsUnrelated same (step-IsUnrelated rule ctx now m m₁ v t p e)
      | inr (inr (m₁, e)) ↦ let thrown = rw (e, run) at h in cc
    ]

evaluate-IsUnrelated :
    (ctx : EvalContext) (now : ℕ) (rules : List PolicyRule) (m : Buckets) (e : Evaluated)
    (out : Option Decision × Buckets)
    → All (WantsMore ctx) rules
    → evaluate rules ctx now m ≡ out
    → surface out.0 ctx.anomaly_score ≡ some e
    → IsUnrelated e.decision.verdict
unfolding evaluate
evaluate-IsUnrelated ctx now rules m e (none, after) more h found = cc
evaluate-IsUnrelated ctx now rules m e (some d, after) more h found =
    let same : d ≡ e.decision = cc in
    subst (λ d. IsUnrelated d.verdict) same
      (run-IsUnrelated ctx now (sort_rules rules) [] m after d
        (sort_rules-All (WantsMore ctx) rules more) h)

score_agent-fails :
    (agent : Option Text) (now window : ℕ) (ctx : EvalContext) (baselines : Baseline.Cache)
    → score_agent agent none now window ctx baselines ≡ (ctx, baselines)
unfolding score_with
score_agent-fails none now window ctx baselines = refl
score_agent-fails (some agent) now window ctx baselines = elim (Bool-cases (is_empty agent)) [
  | inl e ↦ rw e
  | inr e ↦ rw e
]

enrich-fails :
    (rules : List PolicyRule) (now : ℕ) (ctx : EvalContext) (baselines : Baseline.Cache)
    → enrich rules none now ctx baselines ≡ (ctx, baselines)
unfolding enrich
enrich-fails rules now ctx baselines = elim (Bool-cases (any (λ r. is_anomaly r.rule_type) rules)) [
  | inl e ↦ rw e (score_agent-fails ctx.agent_id now _ ctx baselines)
  | inr e ↦ rw e
]

-- If the scoring of a request fails, no anomaly rule blocks the request or holds it, provided that
-- the anomaly rules ask for more samples than the request brings (which are none).
pub evaluate_request-IsUnrelated :
    (table : List RuleRow) (now : ℕ) (ctx : EvalContext) (s : State) (e : Evaluated)
    → All (WantsMore ctx) (get_active_rules table now ctx.organization_id s.cache).0
    → (evaluate_request table none now ctx s).0 ≡ some e
    → IsUnrelated e.decision.verdict
unfolding evaluate_request
evaluate_request-IsUnrelated table now ctx s e more found =
    let rules = (get_active_rules table now ctx.organization_id s.cache).0 in
    evaluate-IsUnrelated ctx now rules s.buckets e (evaluate rules ctx now s.buckets) more refl
      (rw (enrich-fails rules now ctx s.baselines) at found)
