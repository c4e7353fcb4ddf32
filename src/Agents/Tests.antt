-- ===== src/Agents/Tests.antt =====
-- AgentService of apps/api/src/agents/agent.service.ts on concrete inputs.
use get_mcp.Base.{
  ℕ, ◌≡◌, refl, true, Option, none, some, [], ◌∷◌, ◌+◌, arith, Bool, false, insert, ltb,
  if◌then◌else◌, Text, codes, lookup, ◌==◌,
}
use get_mcp.Cache.{cached, store}
use get_mcp.Agents.{ResolvedAgent, cache_key, resolve_cached, resolve_row}
use get_mcp.Agents.Staleness.{
  IsPlain, State, Reaches, Step, Answers, IsRecent, start, answer-IsRecent, answer-settles,
}

abbrev agent_of : Option ℕ → ResolvedAgent
agent_of revoked_at = record {
  id = codes "a1";
  organization_id = codes "o1";
  source = codes "external_mcp";
  tenant_scope = none;
  enabled = true;
  revoked_at = revoked_at;
}

-- The agent is revoked at 2000.
abbrev rows : ℕ → Text → Text → Option ResolvedAgent
rows t org id = some (agent_of (if ltb t 2000 then none else some 2000))

-- A call at 1000, answered at once, and then two seconds.
abbrev missed : State
missed = record (start 1000) {
  lookups = (record { organization_id = codes "o1"; agent_id = codes "a1"; now = 1000 }) ∷ [];
}

abbrev loaded : State
loaded = record missed {
  cache =
      (resolve_row (record { organization_id = codes "o1"; agent_id = codes "a1"; now = 1000 })
        (rows 1000 (codes "o1") (codes "a1")) []).1;
  lookups = [];
}

abbrev waited : ℕ → State
waited n = record loaded { now = 1000 + n }

plain : IsPlain (codes "o1")
plain = ((λ e. omega arith), ((λ e. omega arith), tt))

first_call : (n : ℕ) → Reaches rows (start 1000) (waited n)
unfolding resolve_cached cached cache_key lookup
first_call n =
    let asked : Reaches rows (start 1000) missed =
      Reaches.next Reaches.here (Step.miss (start 1000) (codes "o1") (codes "a1") plain refl) in
    let answered : Reaches rows (start 1000) loaded =
      Reaches.next asked (Step.load missed [] [] _ 1000 refl (omega arith) (omega arith)) in
    Reaches.next answered (Step.wait loaded n)

-- Three seconds after the row was read.
answer-IsRecent_example :
    IsRecent rows (waited 3000) 4000 (codes "o1") (codes "a1") (some (agent_of none))
unfolding resolve_cached resolve_row cached store cache_key lookup insert ◌==◌
answer-IsRecent_example =
    answer-IsRecent rows 1000 4000 (waited 3000) (codes "o1") (codes "a1") (some (agent_of none))
      plain (first_call 3000) (Answers.from_cache (codes "o1") (codes "a1") _ refl)

-- A call that finds the entry expired, six seconds after the row was read.
abbrev asked_again : State
asked_again = record (waited 6000) {
  lookups = (record { organization_id = codes "o1"; agent_id = codes "a1"; now = 7000 }) ∷ [];
}

second_call : Reaches rows (start 1000) asked_again
unfolding resolve_cached resolve_row cached store cache_key lookup insert ◌==◌
second_call =
    Reaches.next (first_call 6000) (Step.miss (waited 6000) (codes "o1") (codes "a1") plain refl)

answer-settles_example : some (agent_of (some 2000)) ≡ some (agent_of (some 2000))
unfolding resolve_row
answer-settles_example =
    answer-settles rows 1000 7000 2000 asked_again (codes "o1") (codes "a1")
      (some (agent_of (some 2000))) (some (agent_of (some 2000))) plain
      (λ t h. revoked t (ltb t 2000) (ground arith)) (omega arith) second_call
      (Answers.from_row [] [] _ 7000 refl (omega arith) (omega arith))
  where
    revoked :
        (t : ℕ) (b : Bool)
        → b ≡ false
        → some (agent_of (if b then none else some 2000)) ≡ some (agent_of (some 2000))
    revoked t b h = rw h
