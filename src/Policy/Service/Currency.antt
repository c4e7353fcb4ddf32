-- ===== src/Policy/Service/Currency.antt =====
-- The rules by which PolicyService (policy.service.ts) evaluates were in force at most five seconds ago.
use get_mcp.Base.{ℕ, ◌+◌, ◌≤◌, ◌<◌, ◌≡◌, refl, arith, Option, none, some, List, [], Text}
use get_mcp.Cache.{cached}
use get_mcp.Cache.Freshness.{
  IsFresh, empty-IsFresh, later-IsFresh, store-IsFresh, remove-IsFresh, cached-Was,
}
use get_mcp.Policy.Rule.{PolicyRule, EvalContext}
use get_mcp.Policy.Engine.{evaluate}
use get_mcp.Policy.Baseline.{LogRow}
use get_mcp.Policy.Service.{
  ttl_ms, RuleRow, Cache, State, active_rules, rules_or, get_active_rules, invalidate, clear_cache,
  enrich, surface, evaluate_request,
}

-- The table of the rules at each time.
module _ (tables : ℕ → List RuleRow) where
  abbrev Was : ℕ → Text → List PolicyRule → Type 0
  Was t org rules = rules ≡ active_rules (tables t) org

  -- The process runs: time passes, a request is evaluated, or the cache is told to forget. The
  -- scoring of a request reads some audit log, or fails.
  pub data Step : ℕ × State → ℕ × State → Type 0 where
    wait : (now n : ℕ) (s : State) → Step (now, s) (now + n, s)
    request :
        (now : ℕ) (s : State) (logs : Option (List LogRow)) (ctx : EvalContext)
        → Step (now, s) (now, (evaluate_request (tables now) logs now ctx s).1)
    forget :
        (now : ℕ) (s : State) (org : Text)
        → Step (now, s) (now, record s { cache = invalidate org s.cache })
    forget_all :
        (now : ℕ) (s : State) → Step (now, s) (now, record s { cache = clear_cache s.cache })

  pub data Reaches (p : ℕ × State) : ℕ × State → Type 0 where
    here : Reaches p p
    next : {q r : ℕ × State} → Reaches p q → Step q r → Reaches p r

  -- The active rules of the organisation at some time in the last five seconds.
  abbrev pub IsCurrent : ℕ → Text → List PolicyRule → Type 0
  IsCurrent now org rules =
      (t : ℕ) × (t ≤ now) × (now < t + ttl_ms) × (rules ≡ active_rules (tables t) org)

  abbrev IsSound : ℕ → Cache → Type 0
  IsSound now cache = IsFresh Was ttl_ms now cache

  rules_or-IsCurrent :
      (now : ℕ) (org : Text) (cache : Cache) (o : Option (List PolicyRule))
      → cached now org cache ≡ o
      → IsSound now cache
      → let (rules, after) = rules_or o now org (active_rules (tables now) org) cache in
        IsCurrent now org rules × IsSound now after
  rules_or-IsCurrent now org cache (some rules) found fresh =
      (cached-Was Was ttl_ms now org rules cache fresh found, fresh)
  rules_or-IsCurrent now org cache none found fresh = (
    (now, omega arith, omega arith, refl),
    store-IsFresh Was ttl_ms now now (now + ttl_ms) org (active_rules (tables now) org) cache
        (omega arith) (omega arith) refl fresh,
  )

  get_active_rules-IsCurrent :
      (now : ℕ) (org : Text) (cache : Cache)
      → IsSound now cache
      → let (rules, after) = get_active_rules (tables now) now org cache in
        IsCurrent now org rules × IsSound now after
  unfolding get_active_rules
  get_active_rules-IsCurrent now org cache fresh =
      rules_or-IsCurrent now org cache (cached now org cache) refl fresh

  Step-IsSound : {p q : ℕ × State} → Step p q → IsSound p.0 p.1.cache → IsSound q.0 q.1.cache
  unfolding evaluate_request invalidate clear_cache
  Step-IsSound (wait now n s) fresh =
      later-IsFresh Was ttl_ms now (now + n) s.cache (omega arith) fresh
  Step-IsSound (request now s logs ctx) fresh =
      (get_active_rules-IsCurrent now ctx.organization_id s.cache fresh).1
  Step-IsSound (forget now s org) fresh = remove-IsFresh Was ttl_ms now org s.cache fresh
  Step-IsSound (forget_all now s) fresh = empty-IsFresh Was ttl_ms now

  -- The service as it starts, with any buckets and baselines.
  abbrev pub IsStart : ℕ × State → Type 0
  IsStart p = p.1.cache ≡ []

  Reaches-IsSound :
      (p : ℕ × State) {q : ℕ × State} → IsStart p → Reaches p q → IsSound q.0 q.1.cache
  Reaches-IsSound p start here = rw start (empty-IsFresh Was ttl_ms p.0)
  Reaches-IsSound p start (next r step) = Step-IsSound step (Reaches-IsSound p start r)

  -- After any requests and invalidations, a request is decided as the engine decides by the rules
  -- of its organisation that were active at some time in the last five seconds, on the request with
  -- what the scoring adds for these rules, and the score is put on the decision.
  pub evaluate_request-IsCurrent :
      (start : ℕ × State) (now : ℕ) (s : State) (logs : Option (List LogRow)) (ctx : EvalContext)
      → IsStart start
      → Reaches start (now, s)
      → (rules : List PolicyRule) × IsCurrent now ctx.organization_id rules
        × (let enriched = (enrich rules logs now ctx s.baselines).0 in
            (evaluate_request (tables now) logs now ctx s).0
            ≡ surface (evaluate rules enriched now s.buckets).0 enriched.anomaly_score)
  unfolding evaluate_request
  evaluate_request-IsCurrent start now s logs ctx new r =
      let (current, after) =
        get_active_rules-IsCurrent now ctx.organization_id s.cache (Reaches-IsSound start new r) in
      (_, current, refl)
