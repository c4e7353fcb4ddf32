-- ===== src/Access/Guard.antt =====
-- AuthGuard.canActivate of apps/api/src/auth/auth.guard.ts. The update of lastUsedAt touches no column
-- that is read here.
pub mod Minted
use mathlib.Core.List.{Memᴰ}
use get_mcp.Base.{
  ℕ, ◌≡◌, ◌≢◌, refl, sym, ap, subst, arith, inl, inr, Bool, true, false, not, ◌&&◌, Option, none,
  some, List, [], ◌∷◌, ◌++◌, drop, if◌then◌else◌, Bool-cases, Option-cases, Text, codes, ◌==◌,
  eq_refl, same_text, is_empty, to_lower, trim, starts_with,
}
use get_mcp.Access.Keys.{Scrypt, extract_prefix, verify_api_key}

pub record ApiKey : Type 0 where
  pub id : Text
  pub organization_id : Text
  pub prefix : Text
  pub hash : Text
  pub revoked_at : Option ℕ

pub record AuthContext : Type 0 where
  pub organization_id : Text
  pub api_key_id : Text

-- How the guard ends: a public route, `req.auth` set, or an UnauthorizedException.
pub data Access : Type 0 where
  public_route : Access
  authenticated : AuthContext → Access
  missing_bearer_token empty_bearer_token invalid_api_key : Access

abbrev pub is_active : ApiKey → Bool
is_active k = elim k.revoked_at [ none ↦ true | some t ↦ false ]

-- `where: { prefix, revokedAt: null }`
unfoldable pub candidates : Text → List ApiKey → List ApiKey
candidates prefix [] = []
candidates prefix (k ∷ keys) =
    let rest = candidates prefix keys in
    if k.prefix == prefix && is_active k then k ∷ rest else rest

-- The loop over the candidates.
unfoldable pub first_verified : Scrypt → Text → List ApiKey → Option ApiKey
first_verified scrypt token [] = none
first_verified scrypt token (k ∷ keys) =
    let rest = first_verified scrypt token keys in
    if verify_api_key scrypt token k.hash then some k else rest

abbrev pub context_of : ApiKey → AuthContext
context_of k = record { organization_id = k.organization_id; api_key_id = k.id }

abbrev admitted : Option ApiKey → Access
admitted none = invalid_api_key
admitted (some k) = authenticated (context_of k)

unfoldable pub check_token : Scrypt → Text → List ApiKey → Access
check_token scrypt token keys =
    if is_empty token
    then empty_bearer_token
    else admitted (first_verified scrypt token (candidates (extract_prefix token) keys))

unfoldable pub check_header : Scrypt → Text → List ApiKey → Access
check_header scrypt header keys =
    if not (is_empty header) && starts_with (to_lower header) (codes "bearer ")
    then check_token scrypt (trim (drop 7 header)) keys
    else missing_bearer_token

-- `is_public` is what the route's metadata says; `keys` is the table of the API keys.
unfoldable pub can_activate : Scrypt → Bool → Option Text → List ApiKey → Access
can_activate scrypt true header keys = public_route
can_activate scrypt false none keys = missing_bearer_token
can_activate scrypt false (some header) keys = check_header scrypt header keys

-- An active key of the table, in whose name the request is made, and which the token verifies against.
pub record IsKnown (scrypt : Scrypt) (keys : List ApiKey) (token : Text) (auth : AuthContext)
    : Type 0 where
  pub key : ApiKey
  pub listed : Memᴰ key keys
  pub active : key.revoked_at ≡ none
  pub verified : verify_api_key scrypt token key.hash ≡ true
  pub context : auth ≡ context_of key

active_eq : (k : ApiKey) → is_active k ≡ true → k.revoked_at ≡ none
active_eq k h = go k.revoked_at h
  where
    go : (o : Option ℕ) → (elim o [ none ↦ true | some t ↦ false ]) ≡ true → o ≡ none
    go none h = refl
    go (some t) h = cc

pub first_verified-IsKnown :
    (scrypt : Scrypt) (token prefix : Text) (keys : List ApiKey) (k : ApiKey)
    → first_verified scrypt token (candidates prefix keys) ≡ some k
    → IsKnown scrypt keys token (context_of k)
unfolding first_verified candidates
first_verified-IsKnown scrypt token prefix [] k h = cc
first_verified-IsKnown scrypt token prefix (c ∷ keys) k h =
    elim (Bool-cases (c.prefix == prefix && is_active c)) [
      | inl candidate ↦ elim (Bool-cases (verify_api_key scrypt token c.hash)) [
        | inl verified ↦
            let same : c ≡ k = cc (rw (candidate, verified) at h) in
            let active : c.revoked_at ≡ none = active_eq c (ground arith) in
            record {
              key = c;
              listed = Memᴰ.head refl;
              active = active;
              verified = verified;
              context = ap context_of (sym same);
            }
        | inr refused ↦
            later (first_verified-IsKnown scrypt token prefix keys k (rw (candidate, refused) at h))
      ]
      | inr other ↦ later (first_verified-IsKnown scrypt token prefix keys k (rw other at h))
    ]
  where
    later :
        IsKnown scrypt keys token (context_of k) → IsKnown scrypt (c ∷ keys) token (context_of k)
    later known = record {
      key = known.key;
      listed = Memᴰ.tail known.listed;
      active = known.active;
      verified = known.verified;
      context = known.context;
    }

admitted-IsKnown :
    (scrypt : Scrypt) (token prefix : Text) (keys : List ApiKey) (auth : AuthContext)
    (o : Option ApiKey)
    → first_verified scrypt token (candidates prefix keys) ≡ o
    → admitted o ≡ authenticated auth
    → IsKnown scrypt keys token auth
admitted-IsKnown scrypt token prefix keys auth none found h = cc
admitted-IsKnown scrypt token prefix keys auth (some k) found h =
    let same : context_of k ≡ auth = cc in
    subst (IsKnown scrypt keys token) same (first_verified-IsKnown scrypt token prefix keys k found)

-- The token of an authorization header: what follows its first seven characters, trimmed.
abbrev pub token_of : Text → Text
token_of header = trim (drop 7 header)

-- A branch that admits is the one that was taken.
then_admits :
    (b : Bool) (x other : Access) (auth : AuthContext)
    → other ≢ authenticated auth
    → (if b then x else other) ≡ authenticated auth
    → (b ≡ true) × (x ≡ authenticated auth)
then_admits true x other auth refuses h = (refl, h)
then_admits false x other auth refuses h = absurd (refuses h)

else_admits :
    (b : Bool) (x other : Access) (auth : AuthContext)
    → other ≢ authenticated auth
    → (if b then other else x) ≡ authenticated auth
    → x ≡ authenticated auth
else_admits true x other auth refuses h = absurd (refuses h)
else_admits false x other auth refuses h = h

and_true : (a b : Bool) → (a && b) ≡ true → b ≡ true
and_true true b h = h
and_true false b h = cc

check_token-IsKnown :
    (scrypt : Scrypt) (token : Text) (keys : List ApiKey) (auth : AuthContext)
    → check_token scrypt token keys ≡ authenticated auth
    → IsKnown scrypt keys token auth
unfolding check_token
check_token-IsKnown scrypt token keys auth h =
    admitted-IsKnown scrypt token (extract_prefix token) keys auth _ refl
      (else_admits (is_empty token) _ empty_bearer_token auth (λ e. cc) h)

check_header-IsKnown :
    (scrypt : Scrypt) (header : Text) (keys : List ApiKey) (auth : AuthContext)
    → check_header scrypt header keys ≡ authenticated auth
    → (starts_with (to_lower header) (codes "bearer ") ≡ true)
      × IsKnown scrypt keys (token_of header) auth
unfolding check_header
check_header-IsKnown scrypt header keys auth h =
    let bearer = starts_with (to_lower header) (codes "bearer ") in
    let (given, verified) =
      then_admits (not (is_empty header) && bearer) _ missing_bearer_token auth (λ e. cc) h in
    (
      and_true (not (is_empty header)) bearer given,
      check_token-IsKnown scrypt (token_of header) keys auth verified,
    )

-- A call of a route that is not public is let in, in the name of an organisation and a key, only if
-- its authorization header starts with `Bearer ` in any case and the rest, trimmed, verifies against
-- the stored hash of that key, which the table has for that organisation and which is not revoked.
pub can_activate-IsKnown :
    (scrypt : Scrypt) (header : Option Text) (keys : List ApiKey) (auth : AuthContext)
    → can_activate scrypt false header keys ≡ authenticated auth
    → (text : Text) × (header ≡ some text)
      × (starts_with (to_lower text) (codes "bearer ") ≡ true)
      × IsKnown scrypt keys (token_of text) auth
unfolding can_activate
can_activate-IsKnown scrypt none keys auth h = cc
can_activate-IsKnown scrypt (some text) keys auth h =
    let (bearer, known) = check_header-IsKnown scrypt text keys auth h in
    (text, refl, bearer, known)
