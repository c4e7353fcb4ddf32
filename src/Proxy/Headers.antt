-- ===== src/Proxy/Headers.antt =====
-- The headers and the URL that proxy.service.ts builds (apps/api/src/proxy).
pub mod Filtering
pub mod Urls
use get_mcp.Base.{
  ℕ, Bool, not, Option, none, some, List, [], ◌∷◌, ◌++◌, if◌then◌else◌, Text, codes, ◌==◌, has,
  is_empty, join, starts_with, to_lower, lookup, insert,
}
use get_mcp.Access.Secrets.{Cipher, decrypt_secret}
use get_mcp.Policy.PathMatch.{ends_with_slash, drop_last}

-- A record of headers; the value `none` is undefined.
abbrev pub Incoming : Type 0
Incoming = List (Text × Option Text)

abbrev pub Headers : Type 0
Headers = List (Text × Text)

abbrev pub strip_request_headers : List Text
strip_request_headers =
    codes "authorization"
    ∷ codes "host"
    ∷ codes "content-length"
    ∷ codes "connection"
    ∷ codes "keep-alive"
    ∷ codes "proxy-authenticate"
    ∷ codes "proxy-authorization"
    ∷ codes "te"
    ∷ codes "trailer"
    ∷ codes "transfer-encoding"
    ∷ codes "upgrade"
    ∷ codes "cookie"
    ∷ codes "x-tenant-id"
    ∷ codes "x-agent-id"
    ∷ codes "x-agent-source"
    ∷ codes "x-agent-reasoning"
    ∷ codes "x-request-id"
    ∷ []

abbrev pub strip_response_headers : List Text
strip_response_headers =
    codes "connection"
    ∷ codes "keep-alive"
    ∷ codes "proxy-authenticate"
    ∷ codes "proxy-authorization"
    ∷ codes "te"
    ∷ codes "trailer"
    ∷ codes "transfer-encoding"
    ∷ codes "upgrade"
    ∷ []

abbrev pub is_stripped : List Text → Text → Bool
is_stripped set name = has set (to_lower name)

-- One round of the loop: a value that is undefined or empty is dropped.
abbrev pub forward_header : Text → Option Text → Headers → Headers
forward_header name none out = out
forward_header name (some value) out =
    if is_empty value
    then out
    else if is_stripped strip_request_headers name
    then out
    else insert name value out

unfoldable pub forward_incoming : Incoming → Headers → Headers
forward_incoming [] out = out
forward_incoming ((name, value) ∷ incoming) out =
    forward_incoming incoming (forward_header name value out)

abbrev pub with_authorization : Headers → Option Text → Option Headers
with_authorization out none = none
with_authorization out (some secret) = some (insert (codes "Authorization") secret out)

-- `none` is a throw of `decryptSecret`.
abbrev pub authorize : Cipher → Option Text → Option Text → Headers → Option Headers
authorize cipher env none out = some out
authorize cipher env (some encrypted) out =
    if is_empty encrypted
    then some out
    else with_authorization out (decrypt_secret cipher env encrypted)

abbrev pub incoming_or : Option Incoming → Incoming
incoming_or none = []
incoming_or (some incoming) = incoming

unfoldable pub build_forward_headers :
    Cipher → Option Text → Option Incoming → Option Text → Option Headers
build_forward_headers cipher env incoming encrypted =
    authorize cipher env encrypted (forward_incoming (incoming_or incoming) [])

-- The values of the upstream's headers; `missing` is undefined or null.
pub data HeaderValue : Type 0 where
  one : Text → HeaderValue
  many : List Text → HeaderValue
  missing : HeaderValue

abbrev pub return_header : Text → HeaderValue → Headers → Headers
return_header name missing out = out
return_header name (one value) out = insert name value out
return_header name (many values) out = insert name (join (codes ", ") values) out

unfoldable pub filter_response_headers : List (Text × HeaderValue) → Headers → Headers
filter_response_headers [] out = out
filter_response_headers ((name, value) ∷ input) out =
    filter_response_headers input
      (if is_stripped strip_response_headers name then out else return_header name value out)

unfoldable pub join_url : Text → Text → Text
join_url base path =
    (if ends_with_slash base then drop_last base else base)
    ++ (if starts_with path (codes "/") then path else codes "/" ++ path)
