-- ===== src/Policy/Engine/Steps.antt =====
-- What one round of the loop of `evaluate` (policy.engine.ts) has established when it goes on, and
-- what a round may return.
use get_mcp.Base.{
  ℕ, ◌≡◌, ◌≢◌, ◌⊎◌, inl, inr, refl, ap, true, false, none, some, arith, Bool-cases, Option-cases,
  codes, pos, ◌==◌, eq_iff, different_text,
}
use get_mcp.Json.{Number, integer, less}
use get_mcp.Policy.Reasoning.{is_valid_reasoning}
use get_mcp.Policy.RateLimiter.{Buckets}
use get_mcp.Policy.Rule
use get_mcp.Policy.Rule.{
  RuleType, allowlist, audit, rate_limit, mutation_approval, behavioral_anomaly, unknown,
  PolicyRule, internal_mcp, external_mcp, EvalContext, EvaluationTrace, Verdict, allow,
  awaiting_approval, rate_limited, Decision, Reason,
}
use get_mcp.Policy.Rule.{skipped, no_detail}
use get_mcp.Policy.Engine.{
  entry, is_given, fewer, Step, continue, return, throw, base_match, apply_rate_limit, consume_for,
  or_else, min_samples_of, sensitivity_of, on_anomaly_of, act_on_anomaly, apply_anomaly,
  apply_audit, apply_mutation_approval, dispatch, apply_rule, step,
}

abbrev pub IsInternal : EvalContext → Type 0
IsInternal ctx = ctx.source ≡ internal_mcp

-- The score of a request reaches an anomaly rule's sensitivity, on a baseline of enough calls.
abbrev pub IsAnomalous : PolicyRule → EvalContext → Type 0
IsAnomalous rule ctx =
    (fewer (or_else ctx.anomaly_baseline_sample_count 0) (min_samples_of rule) ≡ false)
    × (less (or_else ctx.anomaly_score (integer (pos 0))) (sensitivity_of rule) ≡ false)

-- There are too few calls, the score does not reach the sensitivity, or the rule only observes.
abbrev pub IsTolerated : PolicyRule → EvalContext → Type 0
IsTolerated rule ctx =
    (fewer (or_else ctx.anomaly_baseline_sample_count 0) (min_samples_of rule) ≡ true)
    ⊎ (less (or_else ctx.anomaly_score (integer (pos 0))) (sensitivity_of rule) ≡ true)
    ⊎ (on_anomaly_of rule ≡ codes "audit_only")

module _ (now : ℕ) (m : Buckets) where
  -- What a rule that matches asks of a request which passes it: a block rule and an allow rule let none
  -- pass, an audit rule wants a valid reasoning, an approval rule a given approval, a rate limit the
  -- name of a tenant and a token in its bucket, and an anomaly rule a score that it tolerates; the last
  -- three only of external agents.
  abbrev pub Permits : RuleType → PolicyRule → EvalContext → Type 0
  Permits allowlist rule ctx = ⊥
  Permits RuleType.block rule ctx = ⊥
  Permits audit rule ctx = is_valid_reasoning ctx.reasoning ≡ true
  Permits mutation_approval rule ctx = (ctx.bypass_approval ≡ true) ⊎ IsInternal ctx
  Permits rate_limit rule ctx =
      ((is_given ctx.tenant_id ≡ true) × ((consume_for rule ctx now m).0.allowed ≡ true))
      ⊎ IsInternal ctx
  Permits behavioral_anomaly rule ctx = IsTolerated rule ctx ⊎ IsInternal ctx
  Permits (unknown type) rule ctx = Unit

  -- What a rule blocks.
  abbrev pub Blocks : RuleType → PolicyRule → EvalContext → Type 0
  Blocks RuleType.block rule ctx = Unit
  Blocks audit rule ctx = is_valid_reasoning ctx.reasoning ≡ false
  Blocks rate_limit rule ctx = (ctx.source ≡ external_mcp) × (is_given ctx.tenant_id ≡ false)
  Blocks behavioral_anomaly rule ctx =
      (ctx.source ≡ external_mcp)
      × IsAnomalous rule ctx
      × (on_anomaly_of rule ≢ codes "audit_only")
      × (on_anomaly_of rule ≢ codes "approval")
  Blocks _ rule ctx = ⊥

  -- What a rule may return: an allow rule alone allows, and the others name themselves and refuse what
  -- they do not permit; only an approval rule on a request without approval, or an anomaly rule set to
  -- it, asks for approval.
  abbrev pub Returns : RuleType → PolicyRule → EvalContext → Verdict → Type 0
  Returns type rule ctx allow = type ≡ allowlist
  Returns type rule ctx (Rule.block r why) = (r ≡ rule) × Blocks type rule ctx
  Returns type rule ctx (awaiting_approval r why channel) =
      (r ≡ rule)
      × (ctx.source ≡ external_mcp)
      × (((type ≡ mutation_approval) × (ctx.bypass_approval ≡ false))
          ⊎ ((type ≡ behavioral_anomaly)
              × (on_anomaly_of rule ≡ codes "approval")
              × IsAnomalous rule ctx))
  Returns type rule ctx (rate_limited r ms) =
      (r ≡ rule)
      × (ctx.source ≡ external_mcp)
      × (type ≡ rate_limit)
      × (is_given ctx.tenant_id ≡ true)
      × ((consume_for rule ctx now m).0.allowed ≡ false)
      × ((consume_for rule ctx now m).0.retry_after_ms ≡ ms)

  abbrev pub Fulfils : RuleType → PolicyRule → EvalContext → Step → Type 0
  Fulfils type rule ctx (continue t) = Permits type rule ctx
  Fulfils type rule ctx (return v t) = Returns type rule ctx v
  Fulfils type rule ctx throw = ⊥

-- The cases in which a rule for external agents, or an approval rule, is passed over.
source_cases : (ctx : EvalContext) → (ctx.source ≡ external_mcp) ⊎ IsInternal ctx
source_cases ctx = ground arith

module _ (rule : PolicyRule) (ctx : EvalContext) (now : ℕ) (m : Buckets) where
  apply_rate_limit-Fulfils :
      ctx.source ≡ external_mcp
      → is_given ctx.tenant_id ≡ true
      → Fulfils now m rate_limit rule ctx (apply_rate_limit rule ctx now m).0
  unfolding apply_rate_limit
  apply_rate_limit-Fulfils outside given =
      elim (Bool-cases (consume_for rule ctx now m).0.allowed) [
        | inl allowed ↦ rw allowed (inl (given, allowed))
        | inr refused ↦ rw refused (refl, outside, refl, given, refused, refl)
      ]

  act_on_anomaly-Fulfils :
      (score sensitivity : Number)
      → ctx.source ≡ external_mcp
      → IsAnomalous rule ctx
      → Fulfils now m behavioral_anomaly rule ctx (act_on_anomaly rule ctx score sensitivity)
  unfolding act_on_anomaly
  act_on_anomaly-Fulfils score sensitivity outside odd =
      let mode = on_anomaly_of rule in
      elim (Bool-cases (mode == codes "audit_only")) [
        | inl audit_only ↦
            rw audit_only (inl (inr (inr ((eq_iff mode (codes "audit_only")).0 audit_only))))
        | inr acts ↦ rw acts (elim (Bool-cases (mode == codes "approval")) [
          | inl approval ↦
              rw approval
                (refl, outside, inr (refl, (eq_iff mode (codes "approval")).0 approval, odd))
          | inr blocks ↦
              rw blocks (refl, (outside, odd, different_text acts, different_text blocks))
        ])
      ]

  apply_anomaly-Fulfils :
      ctx.source ≡ external_mcp → Fulfils now m behavioral_anomaly rule ctx (apply_anomaly rule ctx)
  unfolding apply_anomaly
  apply_anomaly-Fulfils outside =
      elim (Bool-cases
        (fewer (or_else ctx.anomaly_baseline_sample_count 0) (min_samples_of rule))) [
          | inl few ↦ rw few (inl (inl few))
          | inr enough ↦
              rw enough
                (elim (Bool-cases
                  (less (or_else ctx.anomaly_score (integer (pos 0))) (sensitivity_of rule))) [
                    | inl normal ↦ rw normal (inl (inr (inl normal)))
                    | inr odd ↦ rw odd (act_on_anomaly-Fulfils _ _ outside (enough, odd))
                  ])
        ]

  apply_rule-Fulfils :
      (type : RuleType) → Fulfils now m type rule ctx (apply_rule type rule ctx now m).0
  unfolding apply_rule dispatch apply_audit apply_mutation_approval
  apply_rule-Fulfils allowlist = refl
  apply_rule-Fulfils RuleType.block = (refl, tt)
  apply_rule-Fulfils audit = elim (Bool-cases (is_valid_reasoning ctx.reasoning)) [
    | inl valid ↦ rw valid valid
    | inr invalid ↦ rw invalid (refl, invalid)
  ]
  apply_rule-Fulfils mutation_approval = elim (Bool-cases ctx.bypass_approval) [
    | inl bypass ↦ simp bypass (inl refl)
    | inr held ↦ simp held (elim (source_cases ctx) [
      | inl outside ↦ simp outside (refl, refl, inl (refl, held))
      | inr inside ↦ simp inside (inr refl)
    ])
  ]
  apply_rule-Fulfils rate_limit = elim (source_cases ctx) [
    | inr inside ↦ simp inside (inr refl)
    | inl outside ↦ simp outside (elim (Bool-cases (is_given ctx.tenant_id)) [
      | inl given ↦ rw given (apply_rate_limit-Fulfils outside given)
      | inr missing ↦ rw missing (refl, (outside, missing))
    ])
  ]
  apply_rule-Fulfils behavioral_anomaly = elim (source_cases ctx) [
    | inr inside ↦ simp inside (inr refl)
    | inl outside ↦ simp outside (apply_anomaly-Fulfils outside)
  ]
  apply_rule-Fulfils (unknown type) = tt

-- One round: the rule does not match, or the template throws, or the rule is applied.
pub step-Fulfils :
    (rule : PolicyRule) (ctx : EvalContext) (now : ℕ) (m : Buckets) (s : Step) (m' : Buckets)
    → step rule ctx now m ≡ (s, m')
    → ((base_match rule ctx ≡ none) × (s ≡ throw))
      ⊎ ((base_match rule ctx ≡ some false) × (s ≡ continue (entry rule false skipped no_detail)))
      ⊎ ((base_match rule ctx ≡ some true) × Fulfils now m rule.rule_type rule ctx s)
unfolding step
step-Fulfils rule ctx now m s m' h = elim (Option-cases (base_match rule ctx)) [
  | inl throws ↦ let e = rw (throws, step) at h in inl (throws, cc)
  | inr (true, found) ↦
      let e = rw (found, step) at h in
      inr (
        inr (
          found,
          rw (ap (λ (r : Step × Buckets). r.0) e) at
              (apply_rule-Fulfils rule ctx now m rule.rule_type),
        ))
  | inr (false, missed) ↦ let e = rw (missed, step) at h in inr (inl (missed, cc))
]

-- The three results of a round.
pub Step-cases :
    (r : Step × Buckets)
    → ((t : EvaluationTrace) × (after : Buckets) × (r ≡ (continue t, after)))
      ⊎ ((v : Verdict) × (t : EvaluationTrace) × (after : Buckets) × (r ≡ (return v t, after)))
      ⊎ ((after : Buckets) × (r ≡ (throw, after)))
Step-cases (continue t, after) = inl (t, after, refl)
Step-cases (return v t, after) = inr (inl (v, t, after, refl))
Step-cases (throw, after) = inr (inr (after, refl))
