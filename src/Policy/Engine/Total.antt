-- ===== src/Policy/Engine/Total.antt =====
-- `evaluate` of policy.engine.ts returns where no rule's template throws.
use get_mcp.Base.{ℕ, ◌≡◌, ◌≢◌, inl, inr, refl, Option, none, some, List, [], ◌∷◌, ◌++◌, All}
use get_mcp.Policy.RateLimiter.{Buckets}
use get_mcp.Policy.Rule.{PolicyRule, EvalContext, EvaluationTrace, Decision}
use get_mcp.Policy.Engine.{throw, base_match, step, run, evaluate}
use get_mcp.Policy.Engine.Order.{sort_rules}
use get_mcp.Policy.Engine.Steps.{step-Fulfils, Step-cases}
use get_mcp.Policy.Engine.Tenants.{sort_rules-All}

-- The test of the matchers does not throw.
abbrev pub Answered : EvalContext → PolicyRule → Type 0
Answered ctx rule = base_match rule ctx ≢ none

abbrev pub IsReturned : Option Decision × Buckets → Type 0
IsReturned out = (d : Decision) × (m : Buckets) × (out ≡ (some d, m))

step-answers :
    (ctx : EvalContext) (now : ℕ) (rule : PolicyRule) (m m' : Buckets)
    → Answered ctx rule
    → step rule ctx now m ≢ (throw, m')
step-answers ctx now rule m m' h e = elim (step-Fulfils rule ctx now m throw m' e) [
  | inl (throws, is) ↦ h throws
  | inr (inl (missed, same)) ↦ cc
  | inr (inr (found, fulfils)) ↦ fulfils
]

run-returns :
    (ctx : EvalContext) (now : ℕ) (rules : List PolicyRule) (trace : List EvaluationTrace)
    (m : Buckets)
    → All (Answered ctx) rules
    → IsReturned (run rules ctx now trace m)
unfolding run
run-returns ctx now [] trace m h = (_, m, refl)
run-returns ctx now (rule ∷ rules) trace m (p, h) = elim (Step-cases (step rule ctx now m)) [
  | inl (t, m₁, e) ↦
      rw (e, run) (run-returns ctx now rules (trace ++ t ∷ []) (step rule ctx now m).1 h)
  | inr (inl (v, t, m₁, e)) ↦ rw (e, run) (_, _, refl)
  | inr (inr (m₁, e)) ↦ absurd (step-answers ctx now rule m m₁ p e)
]

-- If the template of no rule throws at the request, the evaluation returns a decision.
pub evaluate-returns :
    (ctx : EvalContext) (now : ℕ) (rules : List PolicyRule) (m : Buckets)
    → All (Answered ctx) rules
    → IsReturned (evaluate rules ctx now m)
unfolding evaluate
evaluate-returns ctx now rules m h =
    run-returns ctx now (sort_rules rules) [] m (sort_rules-All (Answered ctx) rules h)
