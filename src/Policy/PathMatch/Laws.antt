-- ===== src/Policy/PathMatch/Laws.antt =====
-- `pathMatches` and `methodMatches` of path-match.util.ts against the templates' description.
use mathlib.Core.Option
use get_mcp.Base.{
  ◌≡◌, ◌≢◌, ◌↔◌, ◌⊎◌, refl, sym, ap, ◌∙◌, Bool, true, false, Option, none, some, List, [], ◌∷◌,
  ◌++◌, append_assoc, append-nil, if◌then◌else◌, Bool-cases, inl, inr, Text, codes, ◌==◌, eq_iff,
}
use get_mcp.Policy.PathMatch.{normalize, path_matches}
use get_mcp.Policy.PathMatch.Regexp.{regexp, regexp_source, test}
use get_mcp.Policy.PathMatch.Template.{
  Segment, lit, wild, render_segment, render, IsOneLine, Follows,
}
use get_mcp.Policy.PathMatch.Compile.{items_of, AreWellFormed}
use get_mcp.Policy.PathMatch.Whole.{regexp-render, regexp-double_star}
use get_mcp.Policy.PathMatch.Semantics.{test-Follows, Follows-test}

-- A template that begins with a slash and is already normal is compared, and then tried as a
-- regular expression.
path_matches_slash :
    (t path : Text)
    → normalize (b'/' ∷ t) ≡ b'/' ∷ t
    → path_matches (b'/' ∷ t) path ≡ (
        if (b'/' ∷ t) == normalize path
        then some true
        else Option.map (λ items. test items (normalize path)) (regexp (regexp_source (b'/' ∷ t))))
unfolding path_matches
path_matches_slash t path normal =
    let not_star : ((b'/' ∷ t) == codes "*") ≡ false = unfold ◌==◌ in refl in
    let not_stars : ((b'/' ∷ t) == codes "**") ≡ false = unfold ◌==◌ in refl in
    rw (not_star, not_stars, normal)

-- What a call of `pathMatches` answers, and when the answer is yes.
abbrev pub Answers : Option Bool → Type 0 → Type 0
Answers o P = (b : Bool) × (o ≡ some b) × ((b ≡ true) ↔ P)

-- For a template made of literal, parameter and wildcard segments, without a query string or a
-- trailing slash, `pathMatches` does not throw, and it accepts exactly the template's own text and the
-- paths that follow its segments, once the path's query string and trailing slash are dropped.
pub path_matches-Follows :
    (seg : Segment) (segs : List Segment) (path : Text)
    → AreWellFormed (seg ∷ segs)
    → normalize (render (seg ∷ segs)) ≡ render (seg ∷ segs)
    → Answers
        (path_matches (render (seg ∷ segs)) path)
        ((render (seg ∷ segs) ≡ normalize path) ⊎ Follows (seg ∷ segs) (normalize path))
path_matches-Follows seg segs path w normal =
    let template = render (seg ∷ segs) in
    let found = normalize path in
    let run = path_matches_slash (render_segment seg ++ render segs) path normal in
    elim (Bool-cases (template == found)) [
      | inl same ↦ (true, rw (run, same), ((λ _. inl ((eq_iff template found).0 same)), λ _. refl))
      | inr other ↦ (
        test (items_of (seg ∷ segs)) found,
        rw (run, other, regexp-render (seg ∷ segs) w),
        (
          (λ h. inr (test-Follows (seg ∷ segs) found h)),
          elim [
            | inl e ↦ let wrong = (eq_iff template found).1 e in cc
            | inr f ↦ Follows-test (seg ∷ segs) found f
          ],
        ),
      )
    ]

abbrev pub literals : List Text → List Segment
literals [] = []
literals (s ∷ ss) = lit s ∷ literals ss

Follows-literals :
    (ss : List Text) (tail : List Segment) (p : Text)
    → Follows (literals ss ++ tail) p
    → (rest : Text) × (p ≡ render (literals ss) ++ rest) × Follows tail rest
Follows-literals [] tail p h = (p, refl, h)
Follows-literals (s ∷ ss) tail p (q, e, h) =
    let (rest, e', h') = Follows-literals ss tail q h in (rest, rw (e, e') (simp append_assoc), h')

append_cancel : (s t u : Text) → s ++ t ≡ s ++ u → t ≡ u
append_cancel [] t u h = h
append_cancel (c ∷ s) t u h = append_cancel s t u (cc)

-- A template without parameters and wildcards, whatever regular expression syntax stands in it,
-- accepts its own text and no other path, up to the path's query string and trailing slash. The
-- template has no query string and no trailing slash of its own.
pub path_matches-literals :
    (s : Text) (ss : List Text) (path : Text)
    → AreWellFormed (literals (s ∷ ss))
    → normalize (render (literals (s ∷ ss))) ≡ render (literals (s ∷ ss))
    → path_matches (render (literals (s ∷ ss))) path
      ≡ some (render (literals (s ∷ ss)) == normalize path)
path_matches-literals s ss path w normal =
    let template = render (literals (s ∷ ss)) in
    let (b, e, iff) = path_matches-Follows (lit s) (literals ss) path w normal in
    rw e (
      ap some (elim (Bool-cases (template == normalize path)) [
        | inl same ↦ rw same (iff.1 (inl ((eq_iff template (normalize path)).0 same)))
        | inr other ↦ rw other (elim (Bool-cases b) [
          | inr no_match ↦ no_match
          | inl accepted ↦ absurd (other_path s ss (normalize path) other (iff.0 accepted))
        ])
      ]))
  where
    other_path :
        (s : Text) (ss : List Text) (p : Text)
        → (render (literals (s ∷ ss)) == p) ≡ false
        → ((render (literals (s ∷ ss)) ≡ p) ⊎ Follows (literals (s ∷ ss)) p)
        → ⊥
    other_path s ss p other (inl same) =
        let wrong = (eq_iff (render (literals (s ∷ ss))) p).1 same in cc
    other_path s ss p other (inr follows) =
        let (rest, e, nothing) = Follows-literals (s ∷ ss) [] p (rw append-nil follows) in
        let same : render (literals (s ∷ ss)) ≡ p = rw (e, nothing, append-nil) in
        let wrong = (eq_iff (render (literals (s ∷ ss))) p).1 same in cc

render-append : (xs ys : List Segment) → render (xs ++ ys) ≡ render xs ++ render ys
render-append [] ys = refl
render-append (seg ∷ xs) ys = rw (render-append xs ys) (simp append_assoc)

not_wild :
    (ss : List Text) (v : Text)
    → let segs = literals ss ++ wild ∷ [] in
      let path = render (literals ss) ++ b'/' ∷ v in
      ¬ IsOneLine v → v ≢ codes "*" → ((render segs ≡ path) ⊎ Follows segs path) → ⊥
not_wild ss v broken not_star (inl same) =
    let tails =
      append_cancel (render (literals ss)) (b'/' ∷ codes "*") (b'/' ∷ v)
        (sym (render-append (literals ss) (wild ∷ [])) ∙ same) in
    not_star (cc)
not_wild ss v broken not_star (inr follows) =
    let (rest, e, (value, left, e', ok, nothing)) = Follows-literals ss (wild ∷ []) _ follows in
    let tails : b'/' ∷ v ≡ rest = append_cancel (render (literals ss)) (b'/' ∷ v) rest e in
    let same : v ≡ value ++ left = cc in
    let whole : v ≡ value = same ∙ ap (λ t. value ++ t) nothing ∙ append-nil value in
    broken (rw whole ok)

-- A wildcard stops at a line terminator: a path below the template's prefix whose remainder has one
-- is not matched, so a rule for `prefix/*` does not apply to it. The prefix is of literal segments, and
-- neither the template nor the path has a query string or a trailing slash.
pub path_matches-wild_line_end :
    (s : Text) (ss : List Text) (v : Text)
    → let segs = literals ss ++ wild ∷ [] in
      let path = render (literals (s ∷ ss)) ++ b'/' ∷ v in
      AreWellFormed (lit s ∷ segs)
      → normalize (render (lit s ∷ segs)) ≡ render (lit s ∷ segs)
      → normalize path ≡ path
      → ¬ IsOneLine v
      → v ≢ codes "*"
      → path_matches (render (lit s ∷ segs)) path ≡ some false
path_matches-wild_line_end s ss v w normal same_path broken not_star =
    let path = render (literals (s ∷ ss)) ++ b'/' ∷ v in
    let (b, e, iff) = path_matches-Follows (lit s) (literals ss ++ wild ∷ []) path w normal in
    rw e (elim (Bool-cases b) [
      | inr no_match ↦ ap some no_match
      | inl accepted ↦
          absurd (not_wild (s ∷ ss) v broken not_star (rw same_path at (iff.0 accepted)))
    ])

-- A template of segments that ends in `/**` throws a SyntaxError at every path but its own text, once
-- the path's query string and trailing slash are dropped.
pub path_matches-double_star :
    (seg : Segment) (segs : List Segment) (path : Text)
    → AreWellFormed (seg ∷ segs)
    → normalize (render (seg ∷ segs) ++ codes "/**") ≡ render (seg ∷ segs) ++ codes "/**"
    → normalize path ≢ render (seg ∷ segs) ++ codes "/**"
    → path_matches (render (seg ∷ segs) ++ codes "/**") path ≡ none
path_matches-double_star seg segs path w normal other =
    let template = render (seg ∷ segs) ++ codes "/**" in
    let run = path_matches_slash ((render_segment seg ++ render segs) ++ codes "/**") path normal in
    elim (Bool-cases (template == normalize path)) [
      | inl same ↦ absurd (other (sym ((eq_iff template (normalize path)).0 same)))
      | inr differs ↦ rw (run, differs, regexp-double_star (seg ∷ segs) w)
    ]
