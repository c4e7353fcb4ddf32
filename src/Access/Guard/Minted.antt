-- ===== src/Access/Guard/Minted.antt =====
-- A key that was minted (api-key.util.ts) lets its holder in (auth.guard.ts).
use mathlib.Core.List.{Memᴰ, reverse, reverse-cons, reverse-reverse}
use get_mcp.Base.{
  ◌≡◌, refl, inl, inr, true, false, ◌&&◌, none, some, List, [], ◌∷◌, ◌++◌, Bool-cases, All,
  All-append, Text, codes, ◌==◌, eq_refl, is_space, trim, trim_start, to_lower, starts_with,
  lower_unit,
}
use get_mcp.Access.Hex.{Bytes, IsBytes}
use get_mcp.Access.Keys.{
  Scrypt, Derives, extract_prefix, mint_api_key, verify_api_key, verify_api_key-hash_api_key,
}
use get_mcp.Access.Guard.{
  ApiKey, AuthContext, authenticated, is_active, candidates, first_verified, context_of,
  check_token, check_header, can_activate, IsKnown, first_verified-IsKnown,
}

-- A key's own token is let in where the key is stored and active: some key verifies first.
first_verified-some :
    (scrypt : Scrypt) (token prefix : Text) (keys : List ApiKey) (k : ApiKey)
    → Memᴰ k keys
    → k.revoked_at ≡ none
    → k.prefix ≡ prefix
    → verify_api_key scrypt token k.hash ≡ true
    → (c : ApiKey) × (first_verified scrypt token (candidates prefix keys) ≡ some c)
unfolding first_verified candidates
first_verified-some scrypt token prefix [] k h active same verified = elim h [ ]
first_verified-some scrypt token prefix (c ∷ keys) k (Memᴰ.head e) active same verified =
    let shown : (c.prefix == prefix) ≡ true = rw (← e, same) (eq_refl prefix) in
    let alive : is_active c ≡ true = rw (← e, active) in
    let holds : verify_api_key scrypt token c.hash ≡ true = rw (← e) verified in
    (c, rw (shown, alive, holds))
first_verified-some scrypt token prefix (c ∷ keys) k (Memᴰ.tail h) active same verified =
    let (found, e) = first_verified-some scrypt token prefix keys k h active same verified in
    elim (Bool-cases (c.prefix == prefix && is_active c)) [
      | inl candidate ↦ elim (Bool-cases (verify_api_key scrypt token c.hash)) [
        | inl holds ↦ (c, rw (candidate, holds))
        | inr refused ↦ (found, rw (candidate, refused) e)
      ]
      | inr other ↦ (found, rw other e)
    ]

-- The text has no white space, as base64url texts do not.
abbrev pub IsSolid : Text → Type 0
IsSolid s = All (λ c. is_space c ≡ false) s

reverse-IsSolid : (s : Text) → IsSolid s → IsSolid (reverse s)
reverse-IsSolid [] h = tt
reverse-IsSolid (c ∷ s) (p, h) =
    rw (reverse-cons c s)
      (All-append (λ c. is_space c ≡ false) (reverse s) (c ∷ []) (reverse-IsSolid s h) (p, tt))

trim_start-IsSolid : (s : Text) → IsSolid s → trim_start s ≡ s
unfolding trim_start
trim_start-IsSolid [] h = refl
trim_start-IsSolid (c ∷ s) (p, h) = rw p

trim-IsSolid : (s : Text) → IsSolid s → trim s ≡ s
unfolding trim
trim-IsSolid s h =
    rw (trim_start-IsSolid s h, trim_start-IsSolid (reverse s) (reverse-IsSolid s h))
      (reverse-reverse s)

tag-IsSolid : IsSolid (codes "gmcp_")
unfolding is_space
tag-IsSolid = (refl, (refl, (refl, (refl, (refl, tt)))))

-- The holder of a minted key which is stored under its prefix and hash and is not revoked is let in
-- with the header `Bearer ` and the key, in the name of a key that the minted one verifies against.
-- scrypt derives as many bytes as it is asked for, and the random part of the key has no white space.
pub can_activate-mint_api_key :
    (scrypt : Scrypt) (random : Text) (salt : Bytes) (keys : List ApiKey) (k : ApiKey)
    → Derives scrypt
    → IsBytes salt
    → IsSolid random
    → Memᴰ k keys
    → k.revoked_at ≡ none
    → k.prefix ≡ (mint_api_key scrypt random salt).prefix
    → k.hash ≡ (mint_api_key scrypt random salt).hash
    → let token = (mint_api_key scrypt random salt).plaintext in
      (auth : AuthContext) × (can_activate scrypt false (some (codes "Bearer " ++ token)) keys
        ≡ authenticated auth)
      × IsKnown scrypt keys token auth
unfolding can_activate check_header check_token mint_api_key extract_prefix starts_with to_lower
    lower_unit
can_activate-mint_api_key scrypt random salt keys k d hs hr listed active prefix hash =
    let token = codes "gmcp_" ++ random in
    let solid : IsSolid token =
      All-append (λ c. is_space c ≡ false) (codes "gmcp_") random tag-IsSolid hr in
    let verified : verify_api_key scrypt token k.hash ≡ true =
      rw hash ((verify_api_key-hash_api_key scrypt salt token token d hs).1 refl) in
    let (c, found) =
      first_verified-some scrypt token (extract_prefix token) keys k listed active prefix
        verified in
    (
      context_of c,
      rw (trim-IsSolid token solid, found),
      first_verified-IsKnown scrypt token (extract_prefix token) keys c found,
    )
