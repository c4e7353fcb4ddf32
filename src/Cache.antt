-- ===== src/Cache.antt =====
-- The time-to-live caches of agents/agent.service.ts, policy/policy.service.ts and
-- policy/baseline.service.ts (under apps/api/src), which are alike: an entry is served until it expires.
pub mod Freshness
use get_mcp.Base.{ℕ, ltb, Option, none, some, List, if◌then◌else◌, Text, lookup, insert}

pub record CacheEntry {ℓ} (V : Type ℓ) : Type ℓ where
  pub value : V
  pub expires_at : ℕ

module _ {ℓ} {V : Type ℓ} where
  abbrev pub unexpired : ℕ → Option (CacheEntry V) → Option V
  unexpired now none = none
  unexpired now (some e) = if ltb now e.expires_at then some e.value else none

  -- `const cached = this.cache.get(key); if (cached && cached.expiresAt > now) return …`
  unfoldable pub cached : ℕ → Text → List (Text × CacheEntry V) → Option V
  cached now key entries = unexpired now (lookup key entries)

  -- `this.cache.set(key, { …, expiresAt })`
  unfoldable pub store : ℕ → Text → V → List (Text × CacheEntry V) → List (Text × CacheEntry V)
  store expires_at key value entries =
      insert key (record { value = value; expires_at = expires_at }) entries
