-- ===== src/Policy/Engine/Safety.antt =====
-- What a decision of `evaluate` (policy.engine.ts) guarantees, whatever the rules are.
use mathlib.Core.List.{Memᴰ}
use get_mcp.Base.{
  ℕ, ◌≡◌, ◌⊎◌, inl, inr, refl, ap, true, false, some, List, [], ◌∷◌, ◌++◌, Text, codes,
}
use get_mcp.Policy.RateLimiter.{Buckets}
use get_mcp.Policy.Rule.{
  RuleType, allowlist, mutation_approval, behavioral_anomaly, PolicyRule, external_mcp, EvalContext,
  EvaluationTrace, Verdict, allow, awaiting_approval, Decision, Reason,
}
use get_mcp.Policy.Engine.{continue, return, base_match, step, run, evaluate, on_anomaly_of}
use get_mcp.Policy.Engine.Order.{sort_rules}
use get_mcp.Policy.Engine.Sorting.{sort_rules-mem}
use get_mcp.Policy.Engine.Steps.{Permits, Returns, IsAnomalous, step-Fulfils, Step-cases}

module _ (ctx : EvalContext) (now : ℕ) where
  -- A rule that the evaluation passes: it does not match, or the request satisfies it.
  abbrev pub Passes : PolicyRule → Buckets → Type 0
  Passes rule m =
      (base_match rule ctx ≡ some false)
      ⊎ ((base_match rule ctx ≡ some true) × Permits now m rule.rule_type rule ctx)

  -- Each of the rules is passed with the buckets that those before it leave.
  abbrev pub AllPass : List PolicyRule → Buckets → Type 0
  AllPass [] m = Unit
  AllPass (rule ∷ rules) m = Passes rule m × AllPass rules (step rule ctx now m).1

  -- The buckets behind rules that are passed.
  abbrev pub left_by : List PolicyRule → Buckets → Buckets
  left_by [] m = m
  left_by (rule ∷ rules) m = left_by rules (step rule ctx now m).1

  -- The first rule that is not passed gives the verdict; where there is none, the request is allowed.
  pub data Decides (rules : List PolicyRule) (m : Buckets) (v : Verdict) : Type 0 where
    all_pass : AllPass rules m → v ≡ allow → Decides rules m v
    first :
        (before : List PolicyRule) (rule : PolicyRule) (after : List PolicyRule)
        → rules ≡ before ++ rule ∷ after
        → AllPass before m
        → base_match rule ctx ≡ some true
        → Returns now (left_by before m) rule.rule_type rule ctx v
        → Decides rules m v

  Decides-cons :
      (rule : PolicyRule) (rules : List PolicyRule) (m : Buckets) (v : Verdict)
      → Passes rule m
      → Decides rules (step rule ctx now m).1 v
      → Decides (rule ∷ rules) m v
  Decides-cons rule rules m v p (all_pass ps e) = all_pass (p, ps) e
  Decides-cons rule rules m v p (first before r after e ps found ret) =
      first (rule ∷ before) r after (ap (λ rs. rule ∷ rs) e) (p, ps) found ret

  continues :
      (rule : PolicyRule) (t : EvaluationTrace) (m m' : Buckets)
      → step rule ctx now m ≡ (continue t, m')
      → Passes rule m
  continues rule t m m' e = elim (step-Fulfils rule ctx now m (continue t) m' e) [
    | inl (throws, wrong) ↦ cc
    | inr (inl (missed, same)) ↦ inl missed
    | inr (inr (found, permits)) ↦ inr (found, permits)
  ]

  returned :
      (rule : PolicyRule) (v : Verdict) (t : EvaluationTrace) (m m' : Buckets)
      → step rule ctx now m ≡ (return v t, m')
      → (base_match rule ctx ≡ some true) × Returns now m rule.rule_type rule ctx v
  returned rule v t m m' e = elim (step-Fulfils rule ctx now m (return v t) m' e) [
    | inl (throws, wrong) ↦ cc
    | inr (inl (missed, wrong)) ↦ cc
    | inr (inr (found, returns)) ↦ (found, returns)
  ]

  run-Decides :
      (rules : List PolicyRule) (trace : List EvaluationTrace) (m m' : Buckets) (d : Decision)
      → run rules ctx now trace m ≡ (some d, m')
      → Decides rules m d.verdict
  unfolding run
  run-Decides [] trace m m' d h = all_pass tt (cc)
  run-Decides (rule ∷ rules) trace m m' d h = elim (Step-cases (step rule ctx now m)) [
    | inl (t, m₁, e) ↦
        Decides-cons rule rules m d.verdict (continues rule t m m₁ e)
          (run-Decides rules (trace ++ t ∷ []) (step rule ctx now m).1 m' d (rw (e, run) at h))
    | inr (inl (v, t, m₁, e)) ↦
        let done = rw (e, run) at h in
        let same : v ≡ d.verdict = cc in
        let (matched, returns) = returned rule v t m m₁ e in
        first [] rule rules refl tt matched (rw same at returns)
    | inr (inr (m₁, e)) ↦ let thrown = rw (e, run) at h in cc
  ]

  -- The rules are tried by priority and then by age. A decision is that of the first rule which
  -- matches and is not satisfied by the request (or allows it), with what the rules before it left of
  -- the rate limits: it blocks for want of a valid reasoning or of a tenant or for an anomalous score, it
  -- reports a refusal of the limiter, it asks for an approval that was not given or that an anomalous
  -- score needs, or it is a block or an allow rule. Where every rule is passed, the request is allowed.
  pub evaluate-Decides :
      (rules : List PolicyRule) (m m' : Buckets) (d : Decision)
      → evaluate rules ctx now m ≡ (some d, m')
      → Decides (sort_rules rules) m d.verdict
  unfolding evaluate
  evaluate-Decides rules m m' d h = run-Decides (sort_rules rules) [] m m' d h

  -- A rule among passed ones is passed.
  AllPass-mem :
      (rules : List PolicyRule) (b : PolicyRule) (m : Buckets)
      → AllPass rules m
      → Memᴰ b rules
      → (m' : Buckets) × Passes b m'
  AllPass-mem [] b m ps h = elim h [ ]
  AllPass-mem (x ∷ rules) b m (p, ps) (Memᴰ.head e) = (m, rw e p)
  AllPass-mem (x ∷ rules) b m (p, ps) (Memᴰ.tail h) = AllPass-mem rules b _ ps h

member_split :
    (before : List PolicyRule) (r : PolicyRule) (after : List PolicyRule) (b : PolicyRule)
    → Memᴰ b (before ++ r ∷ after)
    → Memᴰ b before ⊎ (b ≡ r) ⊎ Memᴰ b after
member_split [] r after b (Memᴰ.head e) = inr (inl e)
member_split [] r after b (Memᴰ.tail h) = inr (inr h)
member_split (x ∷ before) r after b (Memᴰ.head e) = inl (Memᴰ.head e)
member_split (x ∷ before) r after b (Memᴰ.tail h) = elim (member_split before r after b h) [
  | inl earlier ↦ inl (Memᴰ.tail earlier)
  | inr (inl same) ↦ inr (inl same)
  | inr (inr later) ↦ inr (inr later)
]

-- If an evaluation holds a request for approval, the request came from outside, and either the rule
-- is a mutation-approval rule and the request was not approved before, or it is an anomaly rule whose
-- configuration asks for approval, whether the request was approved before or not.
pub evaluate-awaiting :
    (ctx : EvalContext) (now : ℕ) (rules : List PolicyRule) (m m' : Buckets) (d : Decision)
    (r : PolicyRule) (why : Reason) (channel : Text)
    → evaluate rules ctx now m ≡ (some d, m')
    → d.verdict ≡ awaiting_approval r why channel
    → (ctx.source ≡ external_mcp)
      × (((r.rule_type ≡ mutation_approval) × (ctx.bypass_approval ≡ false))
          ⊎ ((r.rule_type ≡ behavioral_anomaly) × (on_anomaly_of r ≡ codes "approval")))
evaluate-awaiting ctx now rules m m' d r why channel h held =
    from_first (evaluate-Decides ctx now rules m m' d h)
  where
    weaker :
        (rule : PolicyRule)
        → ((rule.rule_type ≡ mutation_approval) × (ctx.bypass_approval ≡ false))
          ⊎ ((rule.rule_type ≡ behavioral_anomaly)
              × (on_anomaly_of rule ≡ codes "approval")
              × IsAnomalous rule ctx)
        → ((rule.rule_type ≡ mutation_approval) × (ctx.bypass_approval ≡ false))
          ⊎ ((rule.rule_type ≡ behavioral_anomaly) × (on_anomaly_of rule ≡ codes "approval"))
    weaker rule (inl held) = inl held
    weaker rule (inr (type, mode, odd)) = inr (type, mode)

    from_first :
        Decides ctx now (sort_rules rules) m d.verdict
        → (ctx.source ≡ external_mcp)
          × (((r.rule_type ≡ mutation_approval) × (ctx.bypass_approval ≡ false))
              ⊎ ((r.rule_type ≡ behavioral_anomaly) × (on_anomaly_of r ≡ codes "approval")))
    from_first (all_pass ps e) = cc
    from_first (first before rule after e ps found returns) =
        let (same, outside, kind) = rw held at returns in rw same (outside, weaker rule kind)

-- A rule that lets a request through against a block rule.
pub record Overrides (ctx : EvalContext) (rules : List PolicyRule) (b : PolicyRule) : Type 0 where
  pub before : List PolicyRule
  pub rule : PolicyRule
  pub after : List PolicyRule
  pub order : sort_rules rules ≡ before ++ rule ∷ after
  pub later : Memᴰ b after
  pub allows : rule.rule_type ≡ allowlist
  pub matches : base_match rule ctx ≡ some true

-- A request that some block rule matches is allowed only by a matching allow rule which precedes that
-- block rule in the order of evaluation.
pub evaluate-Overrides :
    (ctx : EvalContext) (now : ℕ) (rules : List PolicyRule) (m m' : Buckets) (d : Decision)
    (b : PolicyRule)
    → evaluate rules ctx now m ≡ (some d, m')
    → d.verdict ≡ allow
    → Memᴰ b rules
    → b.rule_type ≡ RuleType.block
    → base_match b ctx ≡ some true
    → Overrides ctx rules b
evaluate-Overrides ctx now rules m m' d b h allowed listed type matches =
    blocked (evaluate-Decides ctx now rules m m' d h)
  where
    blocks : (m : Buckets) → Passes ctx now b m → ⊥
    blocks m (inl missed) = cc
    blocks m (inr (found, permits)) = rw type at permits

    among : (passed : List PolicyRule) → AllPass ctx now passed m → Memᴰ b passed → ⊥
    among passed ps is = let (m', p) = AllPass-mem ctx now passed b m ps is in blocks m' p

    blocked : Decides ctx now (sort_rules rules) m d.verdict → Overrides ctx rules b
    blocked (all_pass ps e) = absurd (among (sort_rules rules) ps (sort_rules-mem b rules listed))
    blocked (first before rule after e ps found returns) =
        elim (member_split before rule after b (rw e at (sort_rules-mem b rules listed))) [
          | inl earlier ↦ absurd (among before ps earlier)
          | inr (inl same) ↦ let wrong : rule.rule_type ≡ allowlist = rw allowed at returns in cc
          | inr (inr later) ↦ record {
            before = before;
            rule = rule;
            after = after;
            order = e;
            later = later;
            allows = rw allowed at returns;
            matches = found;
          }
        ]
