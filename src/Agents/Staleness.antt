-- ===== src/Agents/Staleness.antt =====
-- How old an answer of AgentService.resolve (apps/api/src/agents/agent.service.ts) can be, whatever
-- calls are in flight together.
use get_mcp.Base.{
  ℕ, ◌+◌, ◌≤◌, ◌<◌, ◌≡◌, refl, ◌∙◌, subst, arith, Option, none, some, List, [], ◌∷◌, ◌++◌, Text,
  All, Lacks, split_at,
}
use get_mcp.Cache.Freshness.{
  IsFresh, empty-IsFresh, later-IsFresh, store-IsFresh, remove-IsFresh, cached-Was,
}
use get_mcp.Agents.{
  ResolvedAgent, Cache, ttl_ms, cache_key, Lookup, resolve_cached, resolve_row, invalidate,
  clear_cache,
}

All-middle :
    (P : Lookup → Type 0) (before : List Lookup) (query : Lookup) (after : List Lookup)
    → All P (before ++ query ∷ after)
    → P query × All P (before ++ after)
All-middle P [] query after (p, h) = (p, h)
All-middle P (q ∷ before) query after (p, h) =
    let (here, rest) = All-middle P before query after h in (here, (p, rest))

-- The ids of organisations are generated by the database, and hold no colon.
abbrev pub IsPlain : Text → Type 0
IsPlain organization_id = Lacks b':' organization_id

pub cache_key-injective :
    (org org' id id' : Text)
    → IsPlain org
    → IsPlain org'
    → cache_key org id ≡ cache_key org' id'
    → (org ≡ org') × (id ≡ id')
unfolding cache_key
cache_key-injective org org' id id' h h' e = split_at b':' org org' id id' h h' e

pub record State : Type 0 where
  pub now : ℕ
  pub cache : Cache
  pub lookups : List Lookup

-- The service as it starts.
abbrev pub start : ℕ → State
start now = record { now = now; cache = []; lookups = [] }

-- The agents as the database had them at each time.
module _ (rows : ℕ → Text → Text → Option ResolvedAgent) where
  -- The process runs: time passes, a call misses the cache, the database answers a query with what it
  -- had at some time since the query began, or the cache is told to forget.
  pub data Step : State → State → Type 0 where
    wait : (s : State) (n : ℕ) → Step s (record s { now = s.now + n })
    miss :
        (s : State) (org id : Text)
        → IsPlain org
        → resolve_cached s.now org id s.cache ≡ none
        → Step s (record s {
          lookups = (record { organization_id = org; agent_id = id; now = s.now }) ∷ s.lookups;
        })
    load :
        (s : State) (before after : List Lookup) (query : Lookup) (t : ℕ)
        → s.lookups ≡ before ++ query ∷ after
        → query.now ≤ t
        → t ≤ s.now
        → Step s (record s {
          cache = (resolve_row query (rows t query.organization_id query.agent_id) s.cache).1;
          lookups = before ++ after;
        })
    forget : (s : State) (org id : Text) → Step s (record s { cache = invalidate org id s.cache })
    forget_all : (s : State) → Step s (record s { cache = clear_cache s.cache })

  pub data Reaches (s : State) : State → Type 0 where
    here : Reaches s s
    next : {u v : State} → Reaches s u → Step u v → Reaches s v

  -- An answer that a call, begun at the given time, can get in a state.
  pub data Answers (s : State) : ℕ → Text → Text → Option ResolvedAgent → Type 0 where
    from_cache :
        (org id : Text) (agent : Option ResolvedAgent)
        → resolve_cached s.now org id s.cache ≡ some agent
        → Answers s s.now org id agent
    from_row :
        (before after : List Lookup) (query : Lookup) (t : ℕ)
        → s.lookups ≡ before ++ query ∷ after
        → query.now ≤ t
        → t ≤ s.now
        → Answers s query.now query.organization_id query.agent_id
            (resolve_row query (rows t query.organization_id query.agent_id) s.cache).0

  -- At time t, the database had `agent` under some pair of ids that this is the key of.
  abbrev Was : ℕ → Text → Option ResolvedAgent → Type 0
  Was t key agent =
      (org : Text) × (id : Text) × IsPlain org × (key ≡ cache_key org id) × (agent ≡ rows t org id)

  abbrev IsSound : State → Type 0
  IsSound s = IsFresh Was ttl_ms s.now s.cache × All (λ q. IsPlain q.organization_id) s.lookups

  load-IsSound :
      (s : State) (before after : List Lookup) (query : Lookup) (t : ℕ)
      → s.lookups ≡ before ++ query ∷ after
      → query.now ≤ t
      → t ≤ s.now
      → IsSound s
      → IsSound (record s {
        cache = (resolve_row query (rows t query.organization_id query.agent_id) s.cache).1;
        lookups = before ++ after;
      })
  unfolding resolve_row
  load-IsSound s before after query t e h k (fresh, plain) =
      let (p, others) =
        All-middle (λ q. IsPlain q.organization_id) before query after
          (subst (All (λ q. IsPlain q.organization_id)) e plain) in
      let key = cache_key query.organization_id query.agent_id in
      (
        store-IsFresh Was ttl_ms s.now t (query.now + ttl_ms) key
            (rows t query.organization_id query.agent_id) s.cache k (omega arith)
            (query.organization_id, query.agent_id, p, refl, refl) fresh,
        others,
      )

  Step-IsSound : {s u : State} → Step s u → IsSound s → IsSound u
  unfolding invalidate clear_cache
  Step-IsSound (wait s n) (fresh, plain) =
      (later-IsFresh Was ttl_ms s.now (s.now + n) s.cache (omega arith) fresh, plain)
  Step-IsSound (miss s org id p m) (fresh, plain) = (fresh, (p, plain))
  Step-IsSound (load s before after query t e h k) sound =
      load-IsSound s before after query t e h k sound
  Step-IsSound (forget s org id) (fresh, plain) =
      (remove-IsFresh Was ttl_ms s.now (cache_key org id) s.cache fresh, plain)
  Step-IsSound (forget_all s) (fresh, plain) = (empty-IsFresh Was ttl_ms s.now, plain)

  Reaches-IsSound : (now : ℕ) {s : State} → Reaches (start now) s → IsSound s
  Reaches-IsSound now here = (empty-IsFresh Was ttl_ms now, tt)
  Reaches-IsSound now (next r step) = Step-IsSound step (Reaches-IsSound now r)

  -- The database had this answer at some time from five seconds before the call began until now.
  abbrev pub IsRecent : State → ℕ → Text → Text → Option ResolvedAgent → Type 0
  IsRecent s began org id agent =
      (t : ℕ) × (t ≤ s.now) × (began < t + ttl_ms) × (agent ≡ rows t org id)

  cached-IsRecent :
      (s : State) (org id : Text) (agent : Option ResolvedAgent)
      → IsPlain org
      → IsSound s
      → resolve_cached s.now org id s.cache ≡ some agent
      → IsRecent s s.now org id agent
  unfolding resolve_cached
  cached-IsRecent s org id agent p (fresh, plain) found =
      let (t, before, soon, was) =
        cached-Was Was ttl_ms s.now (cache_key org id) agent s.cache fresh found in
      let (org', id', p', key, row) = was in
      let (orgs, ids) = cache_key-injective org org' id id' p p' key in (t, before, soon, cc)

  -- Whatever calls of resolve are in flight together and whatever is invalidated in between, the
  -- answer to a call is what the database had for the organisation and the agent at some time less
  -- than five seconds before the call began, or since. The ids of organisations hold no colon.
  pub answer-IsRecent :
      (now began : ℕ) (s : State) (org id : Text) (agent : Option ResolvedAgent)
      → IsPlain org
      → Reaches (start now) s
      → Answers s began org id agent
      → IsRecent s began org id agent
  unfolding resolve_row
  answer-IsRecent now began s org id agent p r (from_cache _ _ _ found) =
      cached-IsRecent s org id agent p (Reaches-IsSound now r) found
  answer-IsRecent now began s org id agent p r (from_row before after query t e h k) =
      (t, k, omega arith, refl)

  -- If the database has the same answer for an agent from some time on, for one that it is revoked,
  -- then every call that begins five seconds later or more is given that answer.
  pub answer-settles :
      (now began settled : ℕ) (s : State) (org id : Text) (agent row : Option ResolvedAgent)
      → IsPlain org
      → ((t : ℕ) → settled ≤ t → rows t org id ≡ row)
      → settled + ttl_ms ≤ began
      → Reaches (start now) s
      → Answers s began org id agent
      → agent ≡ row
  answer-settles now began settled s org id agent row p same late r answer =
      let (t, before, soon, was) = answer-IsRecent now began s org id agent p r answer in
      was ∙ same t (omega arith)
