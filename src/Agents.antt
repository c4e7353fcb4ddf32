-- ===== src/Agents.antt =====
-- AgentService of apps/api/src/agents/agent.service.ts. `resolve` is cut at its `await`: a call that
-- misses the cache is a lookup in flight until the database answers, and other calls come in between.
-- The update of lastUsedAt touches no column that is read here.
pub mod Staleness
mod Tests
use get_mcp.Base.{ℕ, ◌+◌, Bool, Option, none, some, List, [], ◌∷◌, ◌++◌, Text, codes, remove}
use get_mcp.Cache.{CacheEntry, cached, store}

pub record ResolvedAgent : Type 0 where
  pub id : Text
  pub organization_id : Text
  pub source : Text
  pub tenant_scope : Option Text
  pub enabled : Bool
  pub revoked_at : Option ℕ

-- `null` in an entry means that the agent was verified to be absent.
abbrev pub Cache : Type 0
Cache = List (Text × CacheEntry (Option ResolvedAgent))

abbrev pub ttl_ms : ℕ
ttl_ms = 5_000

unfoldable pub cache_key : Text → Text → Text
cache_key organization_id agent_id = organization_id ++ (codes ":" ++ agent_id)

-- A call of `resolve` that awaits the database.
pub record Lookup : Type 0 where
  pub organization_id : Text
  pub agent_id : Text
  pub now : ℕ

-- `resolve` up to the query: the answer from the cache, if there is one.
unfoldable pub resolve_cached : ℕ → Text → Text → Cache → Option (Option ResolvedAgent)
resolve_cached now organization_id agent_id cache =
    cached now (cache_key organization_id agent_id) cache

-- `resolve` from the answer of the query on.
unfoldable pub resolve_row : Lookup → Option ResolvedAgent → Cache → Option ResolvedAgent × Cache
resolve_row query row cache =
    (row, store (query.now + ttl_ms) (cache_key query.organization_id query.agent_id) row cache)

unfoldable pub invalidate : Text → Text → Cache → Cache
invalidate organization_id agent_id cache = remove (cache_key organization_id agent_id) cache

unfoldable pub clear_cache : Cache → Cache
clear_cache cache = []

abbrev resolve_with :
    ℕ
    → Text
    → Text
    → Option ResolvedAgent
    → Cache
    → Option (Option ResolvedAgent)
    → Option ResolvedAgent × Cache
resolve_with now organization_id agent_id row cache (some agent) = (agent, cache)
resolve_with now organization_id agent_id row cache none =
    resolve_row (record { organization_id = organization_id; agent_id = agent_id; now = now }) row
      cache

-- `resolve` where nothing comes in between; `rows` is the database.
unfoldable pub resolve :
    (Text → Text → Option ResolvedAgent) → ℕ → Text → Text → Cache → Option ResolvedAgent × Cache
resolve rows now organization_id agent_id cache =
    resolve_with now organization_id agent_id (rows organization_id agent_id) cache
      (resolve_cached now organization_id agent_id cache)
