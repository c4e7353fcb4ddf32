-- ===== src/Proxy/Headers/Filtering.antt =====
-- Which headers pass the proxy, in both directions: apps/api/src/proxy/proxy.service.ts.
use mathlib.Core.List.{Memᴰ}
use get_mcp.Base.{
  ◌≡◌, ◌⊎◌, refl, sym, subst, inl, inr, false, Option, none, some, List, [], ◌∷◌, Bool-cases, All,
  Text, codes, ◌==◌, is_empty, insert, lookup, lookup-insert, eq_refl, ◌∙◌,
}
use get_mcp.Access.Secrets.{Cipher, decrypt_secret}
use get_mcp.Proxy.Headers.{
  Incoming, Headers, HeaderValue, one, many, missing, strip_request_headers, strip_response_headers,
  is_stripped, forward_header, forward_incoming, with_authorization, authorize, incoming_or,
  build_forward_headers, return_header, filter_response_headers,
}

insert-All :
    (P : Text × Text → Type 0) (name value : Text) (headers : Headers)
    → P (name, value)
    → All P headers
    → All P (insert name value headers)
unfolding insert
insert-All P name value [] p h = (p, tt)
insert-All P name value ((other, old) ∷ headers) p (q, h) = elim (Bool-cases (other == name)) [
  | inl same ↦ rw same (p, h)
  | inr differ ↦ rw differ (q, insert-All P name value headers p h)
]

-- A header that the caller sent, with a value, and which is not on the list.
abbrev pub IsKept : Incoming → Text × Text → Type 0
IsKept incoming (name, value) =
    (is_stripped strip_request_headers name ≡ false)
    × (is_empty value ≡ false)
    × Memᴰ (name, some value) incoming

-- The organisation's own credentials.
abbrev pub IsCredential : Cipher → Option Text → Option Text → Text × Text → Type 0
IsCredential cipher env encrypted (name, value) =
    (name ≡ codes "Authorization")
    × ((secret : Text) × (encrypted ≡ some secret)
        × (decrypt_secret cipher env secret ≡ some value))

forward_header-All :
    (P : Text × Text → Type 0) (name : Text) (value : Option Text) (out : Headers)
    → ((v : Text)
        → value ≡ some v
        → is_stripped strip_request_headers name ≡ false
        → is_empty v ≡ false
        → P (name, v))
    → All P out
    → All P (forward_header name value out)
forward_header-All P name none out p h = h
forward_header-All P name (some v) out p h = elim (Bool-cases (is_empty v)) [
  | inl blank ↦ rw blank h
  | inr given ↦ elim (Bool-cases (is_stripped strip_request_headers name)) [
    | inl stripped ↦ rw (given, stripped) h
    | inr kept ↦ rw (given, kept) (insert-All P name v out (p v refl kept given) h)
  ]
]

forward_incoming-All :
    (P : Text × Text → Type 0) (incoming : Incoming) (out : Headers)
    → ((name v : Text) → IsKept incoming (name, v) → P (name, v))
    → All P out
    → All P (forward_incoming incoming out)
unfolding forward_incoming
forward_incoming-All P [] out p h = h
forward_incoming-All P ((name, value) ∷ incoming) out p h =
    forward_incoming-All P incoming (forward_header name value out)
      (λ other v (kept, given, listed). p other v (kept, given, Memᴰ.tail listed))
      (forward_header-All P name value out
        (λ v e kept given. p name v (kept, given, Memᴰ.head (rw e))) h)

abbrev pub IsForwarded : Cipher → Option Text → Option Incoming → Option Text → Text × Text → Type 0
IsForwarded cipher env incoming encrypted header =
    IsKept (incoming_or incoming) header ⊎ IsCredential cipher env encrypted header

-- The credentials of the organisation are what is sent as `Authorization`.
abbrev pub HasCredential : Cipher → Option Text → Option Text → Headers → Type 0
HasCredential cipher env none headers = Unit
HasCredential cipher env (some secret) headers =
    is_empty secret ≡ false
    → lookup (codes "Authorization") headers ≡ decrypt_secret cipher env secret

module _ (cipher : Cipher) (env : Option Text) (incoming : Option Incoming) where
  abbrev Forwards : Option Text → Headers → Type 0
  Forwards encrypted headers =
      All (IsForwarded cipher env incoming encrypted) headers
      × HasCredential cipher env encrypted headers

  with_authorization-Forwards :
      (secret : Text) (out headers : Headers) (o : Option Text)
      → decrypt_secret cipher env secret ≡ o
      → All (IsForwarded cipher env incoming (some secret)) out
      → with_authorization out o ≡ some headers
      → Forwards (some secret) headers
  with_authorization-Forwards secret out headers none found h e = cc
  with_authorization-Forwards secret out headers (some value) found h e =
      let same : insert (codes "Authorization") value out ≡ headers = cc in
      subst (Forwards (some secret)) same (
        insert-All (IsForwarded cipher env incoming (some secret)) (codes "Authorization") value out
            (inr (refl, (secret, refl, found))) h,
        λ given. lookup-inserted value out ∙ sym found,
      )
    where
      lookup-inserted :
          (value : Text) (out : Headers)
          → lookup (codes "Authorization") (insert (codes "Authorization") value out) ≡ some value
      lookup-inserted value out = rw (
        lookup-insert (codes "Authorization") (codes "Authorization") value out,
        eq_refl (codes "Authorization"),
      )

  authorize-Forwards :
      (encrypted : Option Text) (out headers : Headers)
      → All (IsForwarded cipher env incoming encrypted) out
      → authorize cipher env encrypted out ≡ some headers
      → Forwards encrypted headers
  authorize-Forwards none out headers h =
      λ e. let same : out ≡ headers = cc in subst (Forwards none) same (h, tt)
  authorize-Forwards (some secret) out headers h = elim (Bool-cases (is_empty secret)) [
    | inl blank ↦ rw blank (λ e.
        let same : out ≡ headers = cc in
        (subst (All (IsForwarded cipher env incoming (some secret))) same h, λ given. cc))
    | inr given ↦ rw given (λ e.
        let (kept, credential) =
          with_authorization-Forwards secret out headers (decrypt_secret cipher env secret) refl h
            e in
        (kept, λ same. credential given))
  ]

  -- Every header that the proxy forwards is one that the caller sent, with a value, and whose name in
  -- lower case is not on the list of stripped headers, or it is `Authorization` with the decrypted
  -- credentials of the organisation; and where there are credentials they are what is sent.
  pub build_forward_headers-Forwards :
      (encrypted : Option Text) (headers : Headers)
      → build_forward_headers cipher env incoming encrypted ≡ some headers
      → All (IsForwarded cipher env incoming encrypted) headers
        × HasCredential cipher env encrypted headers
  unfolding build_forward_headers
  build_forward_headers-Forwards encrypted headers h =
      authorize-Forwards encrypted (forward_incoming (incoming_or incoming) []) headers
        (forward_incoming-All (IsForwarded cipher env incoming encrypted) (incoming_or incoming) []
          (λ name v kept. inl kept) tt)
        h

-- A header of the upstream's answer that is not on the list.
abbrev pub IsReturned : Text × Text → Type 0
IsReturned (name, value) = is_stripped strip_response_headers name ≡ false

return_header-IsReturned :
    (name : Text) (value : HeaderValue) (out : Headers)
    → is_stripped strip_response_headers name ≡ false
    → All IsReturned out
    → All IsReturned (return_header name value out)
return_header-IsReturned name missing out kept h = h
return_header-IsReturned name (one v) out kept h = insert-All IsReturned name v out kept h
return_header-IsReturned name (many vs) out kept h = insert-All IsReturned name _ out kept h

pub filter_response_headers-IsReturned :
    (input : List (Text × HeaderValue)) (out : Headers)
    → All IsReturned out
    → All IsReturned (filter_response_headers input out)
unfolding filter_response_headers
filter_response_headers-IsReturned [] out h = h
filter_response_headers-IsReturned ((name, value) ∷ input) out h =
    elim (Bool-cases (is_stripped strip_response_headers name)) [
      | inl stripped ↦ rw stripped (filter_response_headers-IsReturned input out h)
      | inr kept ↦ rw kept (
          filter_response_headers-IsReturned input (return_header name value out)
            (return_header-IsReturned name value out kept h))
    ]
