-- ===== src/Cache/Freshness.antt =====
-- What is served from a cache was true less than its time to live ago.
use get_mcp.Base.{
  ℕ, ◌+◌, ◌≤◌, ◌<◌, ◌≡◌, refl, subst, Bool, arith, inl, inr, true, false, Option, none, some, List,
  [], Bool-cases, ltb, if◌then◌else◌, Text, ◌==◌, same_text, lookup, remove, lookup-insert,
  lookup-remove,
}
use get_mcp.Cache.{CacheEntry, unexpired, cached, store}

some_if {ℓ} :
    {V : Type ℓ} (b : Bool) (a v : V) → (if b then some a else none) ≡ some v → (b ≡ true) × (a ≡ v)
some_if true a v h = (refl, cc)
some_if false a v h = cc

-- `Was t key v`: at time t, `v` was the answer for the key.
module _ {ℓ} {V : Type ℓ} (Was : ℕ → Text → V → Type 0) (ttl : ℕ) where
  -- The value was true at some time not after `now`, and the entry expires by `ttl` after it.
  abbrev pub IsDated : ℕ → Text → CacheEntry V → Type 0
  IsDated now key e = (t : ℕ) × (t ≤ now) × (e.expires_at ≤ t + ttl) × Was t key e.value

  abbrev pub IsFresh : ℕ → List (Text × CacheEntry V) → Type ℓ
  IsFresh now entries =
      (key : Text) (e : CacheEntry V) → lookup key entries ≡ some e → IsDated now key e

  pub empty-IsFresh : (now : ℕ) → IsFresh now []
  unfolding lookup
  empty-IsFresh now key e h = cc

  pub later-IsFresh :
      (now later : ℕ) (entries : List (Text × CacheEntry V))
      → now ≤ later
      → IsFresh now entries
      → IsFresh later entries
  later-IsFresh now later entries h fresh key e found =
      let (t, before, soon, was) = fresh key e found in (t, omega arith, soon, was)

  IsDated-some :
      (now : ℕ) (key other : Text) (w e : CacheEntry V)
      → (key == other) ≡ true
      → IsDated now key w
      → some w ≡ some e
      → IsDated now other e
  IsDated-some now key other w e same dated found =
      let keys : key ≡ other = same_text same in
      let entries : w ≡ e = cc in
      subst (λ k. IsDated now k e) keys (subst (IsDated now key) entries dated)

  pub store-IsFresh :
      (now t expires_at : ℕ) (key : Text) (v : V) (entries : List (Text × CacheEntry V))
      → t ≤ now
      → expires_at ≤ t + ttl
      → Was t key v
      → IsFresh now entries
      → IsFresh now (store expires_at key v entries)
  unfolding store
  store-IsFresh now t expires_at key v entries before soon was fresh other e =
      rw (lookup-insert key other (record { value = v; expires_at = expires_at }) entries)
        (elim (Bool-cases (key == other)) [
          | inl same ↦ rw same (IsDated-some now key other _ e same (t, before, soon, was))
          | inr differ ↦ rw differ (fresh other e)
        ])

  pub remove-IsFresh :
      (now : ℕ) (key : Text) (entries : List (Text × CacheEntry V))
      → IsFresh now entries
      → IsFresh now (remove key entries)
  remove-IsFresh now key entries fresh other e =
      rw (lookup-remove key other entries) (elim (Bool-cases (key == other)) [
        | inl same ↦ rw same (λ found. cc)
        | inr differ ↦ rw differ (fresh other e)
      ])

  unexpired-Was :
      (now : ℕ) (key : Text) (v : V) (entries : List (Text × CacheEntry V))
      (o : Option (CacheEntry V))
      → lookup key entries ≡ o
      → IsFresh now entries
      → unexpired now o ≡ some v
      → (t : ℕ) × (t ≤ now) × (now < t + ttl) × Was t key v
  unexpired-Was now key v entries none found fresh h = cc
  unexpired-Was now key v entries (some e) found fresh h =
      let (live, value) = some_if (ltb now e.expires_at) e.value v h in
      let (t, before, soon, was) = fresh key e found in
      (t, before, ground arith, subst (Was t key) value was)

  pub cached-Was :
      (now : ℕ) (key : Text) (v : V) (entries : List (Text × CacheEntry V))
      → IsFresh now entries
      → cached now key entries ≡ some v
      → (t : ℕ) × (t ≤ now) × (now < t + ttl) × Was t key v
  unfolding cached
  cached-Was now key v entries fresh h =
      unexpired-Was now key v entries (lookup key entries) refl fresh h
