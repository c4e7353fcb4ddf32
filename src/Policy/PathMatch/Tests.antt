-- ===== src/Policy/PathMatch/Tests.antt =====
-- The matchers of path-match.util.ts on concrete templates and paths.
use get_mcp.Base.{
  ◌≡◌, ◌⊎◌, refl, true, false, none, some, List, [], ◌∷◌, arith, codes, ◌==◌, different_text,
  to_upper,
}
use get_mcp.Policy.PathMatch.{normalize, path_matches, method_matches}
use get_mcp.Policy.PathMatch.Regexp.{
  escape, expand_stars, expand_first, expand_params, starts_ident, is_ident_start, is_ident,
  regexp_source, regexp, is_special, is_line_end, next_mode, emit, tokens, quantify, accepts,
  test_many, test,
}
use get_mcp.Policy.PathMatch.Template.{Segment, lit, param, render, Follows}
use get_mcp.Policy.PathMatch.Laws.{
  Answers, path_matches-Follows, path_matches-wild_line_end, path_matches-double_star,
}

run_matchers : Unit {0}
unfolding path_matches method_matches normalize ◌==◌ to_upper escape is_special expand_stars
    expand_first expand_params starts_ident is_ident regexp_source regexp next_mode emit tokens
    quantify is_line_end accepts test_many test
run_matchers = tt

-- The cases of path-match.util.spec.ts.
spec_cases :
    (path_matches (codes "/v1/refunds") (codes "/v1/refunds") ≡ some true)
    × (path_matches (codes "/v1/refunds") (codes "/v1/refunds-undo") ≡ some false)
    × (path_matches (codes "**") (codes "/v1/x/y/z") ≡ some true)
    × (path_matches (codes "/v1/users/:id") (codes "/v1/users/123-xyz") ≡ some true)
    × (path_matches (codes "/v1/users/:id") (codes "/v1/users/abc/orders") ≡ some false)
    × (path_matches (codes "/v1/users/:id/orders") (codes "/v1/users/abc/orders") ≡ some true)
    × (path_matches (codes "/v1/foo/*") (codes "/v1/foo/bar/baz") ≡ some true)
    × (path_matches (codes "/v1/foo/*") (codes "/v1/foo") ≡ some false)
    × (path_matches (codes "/v1/foo/*") (codes "/v1/foobar") ≡ some false)
    × (path_matches (codes "/v1/refunds") (codes "/v1/refunds?foo=1") ≡ some true)
    × (path_matches (codes "/v1/refunds") (codes "/v1/refunds/") ≡ some true)
    × (path_matches (codes "/v1/**") (codes "/v1/x") ≡ none)
    × (method_matches (codes "post") (codes "POST") ≡ true)
    × (method_matches (codes "POST") (codes "GET") ≡ false)
unfolding run_matchers
spec_cases = (refl, refl, refl, refl, refl, refl, refl, refl, refl, refl, refl, refl, refl, refl)

abbrev users_id : List Segment
users_id = lit (codes "u") ∷ (param (codes "id") ∷ [])

path_matches-Follows_example : Answers (path_matches (render users_id) (codes "/u/7/?full=1")) (
    (render users_id ≡ normalize (codes "/u/7/?full=1"))
    ⊎ Follows users_id (normalize (codes "/u/7/?full=1")))
unfolding normalize is_ident_start is_ident
path_matches-Follows_example =
    path_matches-Follows (lit (codes "u")) (param (codes "id") ∷ []) (codes "/u/7/?full=1")
      (((omega arith), tt), ((refl, (refl, tt)), tt)) refl

path_matches-wild_line_end_example :
    path_matches (codes "/u/*") (b'/' ∷ (b'u' ∷ (b'/' ∷ (10 ∷ (b'x' ∷ []))))) ≡ some false
unfolding normalize is_line_end
path_matches-wild_line_end_example =
    path_matches-wild_line_end (codes "u") [] (10 ∷ (b'x' ∷ [])) (((omega arith), tt), (tt, tt))
      refl refl (λ one_line. let wrong : true ≡ false = one_line.0 in cc)
      (different_text (unfold ◌==◌ in refl))

path_matches-double_star_example : path_matches (codes "/u/**") (codes "/u/x") ≡ none
unfolding normalize ◌==◌
path_matches-double_star_example =
    path_matches-double_star (lit (codes "u")) [] (codes "/u/x") (((omega arith), tt), tt) refl
      (different_text refl)
