-- ===== src/Proxy/Headers/Urls.antt =====
-- The URL that `joinUrl` of apps/api/src/proxy/proxy.service.ts builds.
use get_mcp.Base.{◌≡◌, refl, ap, true, false, [], ◌∷◌, ◌++◌, Text, codes, starts_with}
use get_mcp.Policy.PathMatch.{ends_with_slash, drop_last}
use get_mcp.Proxy.Headers.{join_url}

ends_with_slash-append : (s : Text) → ends_with_slash (s ++ codes "/") ≡ true
unfolding ends_with_slash
ends_with_slash-append [] = refl
ends_with_slash-append (c ∷ []) = refl
ends_with_slash-append (c ∷ d ∷ s) = ends_with_slash-append (d ∷ s)

drop_last-append : (s : Text) → drop_last (s ++ codes "/") ≡ s
unfolding drop_last
drop_last-append [] = refl
drop_last-append (c ∷ []) = refl
drop_last-append (c ∷ d ∷ s) = ap (λ t. c ∷ t) (drop_last-append (d ∷ s))

starts_slash : (path : Text) → starts_with (codes "/" ++ path) (codes "/") ≡ true
unfolding starts_with
starts_slash path = refl

-- A base that ends in at most one slash and a path that begins with at most one are joined by one.
pub join_url-slash :
    (base path : Text)
    → ends_with_slash base ≡ false
    → starts_with path (codes "/") ≡ false
    → let url = base ++ (codes "/" ++ path) in
      (join_url base path ≡ url)
      × (join_url (base ++ codes "/") path ≡ url)
      × (join_url base (codes "/" ++ path) ≡ url)
      × (join_url (base ++ codes "/") (codes "/" ++ path) ≡ url)
unfolding join_url
join_url-slash base path plain bare =
    let slash = ends_with_slash-append base in
    let back = drop_last-append base in
    let front : starts_with (codes "/" ++ path) (codes "/") ≡ true = starts_slash path in
    (rw (plain, bare), rw (slash, bare, back), rw (plain, front), rw (slash, front, back))
