-- ===== src/Policy/PathMatch/Whole.antt =====
-- The regular expression of a whole template: `templateToRegExp`.
use mathlib.Core.Option
use get_mcp.Base.{
  ◌≡◌, refl, sym, ap, ◌∙◌, false, Option, none, some, List, [], ◌∷◌, ◌++◌, map, append_assoc,
  append-nil, arith, Text, codes,
}
use get_mcp.Policy.PathMatch.Regexp.{
  is_special, escape, expand_stars, expand_first, expand_params, regexp_source, Class, char, dot,
  not_slash, Token, atom, star, plus, plain, next_mode, emit, tokens, Item, one, many, quantify,
  regexp,
}
use get_mcp.Policy.PathMatch.Template.{Segment, lit, param, wild, render}
use get_mcp.Policy.PathMatch.Compile.{
  IsBoundary, starred, segment_items, segment_tokens, spell, items_of, AreWellFormed,
  spell-IsBoundary, escape-render, expand_stars-spell,
}
use get_mcp.Policy.PathMatch.Tokens.{tokens-spell, expand_params-spell}

-- The items, put in front of those that follow.
abbrev pub before : List Item → Option (List Item) → Option (List Item)
before xs none = none
before xs (some ys) = some (xs ++ ys)

before-before :
    (xs ys : List Item) (o : Option (List Item)) → before xs (before ys o) ≡ before (xs ++ ys) o
before-before xs ys none = refl
before-before xs ys (some zs) = ap some (sym (append_assoc xs ys zs))

before-nil : (o : Option (List Item)) → before [] o ≡ o
before-nil none = refl
before-nil (some zs) = refl

map-before : (xs : List Item) (o : Option (List Item)) → Option.map (λ ys. xs ++ ys) o ≡ before xs o
map-before xs none = refl
map-before xs (some ys) = refl

abbrev pending : Option Class → List Item
pending none = []
pending (some a) = one a ∷ []

-- The tokens that follow do not begin with a quantifier.
abbrev pub IsClean : List Token → Type 0
IsClean [] = Unit
IsClean (atom a ∷ ts) = Unit
IsClean (star ∷ ts) = ⊥
IsClean (plus ∷ ts) = ⊥

quantify-pending :
    (o : Option Class) (ts : List Token)
    → IsClean ts
    → quantify o ts ≡ before (pending o) (quantify none ts)
unfolding quantify
quantify-pending none ts h = sym (before-nil _)
quantify-pending (some a) [] h = refl
quantify-pending (some a) (atom b ∷ ts) h = map-before (one a ∷ []) (quantify (some b) ts)
quantify-pending (some a) (star ∷ ts) h = elim h [ ]
quantify-pending (some a) (plus ∷ ts) h = elim h [ ]

quantify_literal :
    (a : Class) (s : Text) (ts : List Token)
    → IsClean ts
    → quantify (some a) (map (λ c. atom (char c)) s ++ ts)
      ≡ before (one a ∷ map (λ c. one (char c)) s) (quantify none ts)
unfolding quantify
quantify_literal a [] ts h = quantify-pending (some a) ts h
quantify_literal a (c ∷ s) ts h =
    map-before (one a ∷ []) _
    ∙ ap (before (one a ∷ [])) (quantify_literal (char c) s ts h)
    ∙ before-before (one a ∷ []) (one (char c) ∷ map (λ d. one (char d)) s) (quantify none ts)

quantify_segment :
    (seg : Segment) (ts : List Token)
    → IsClean ts
    → quantify (some (char b'/')) (segment_tokens seg ++ ts)
      ≡ before (one (char b'/') ∷ segment_items seg) (quantify none ts)
unfolding quantify
quantify_segment (lit s) ts h = quantify_literal (char b'/') s ts h
quantify_segment (param name) ts h =
    map-before (one (char b'/') ∷ []) _
    ∙ ap (before (one (char b'/') ∷ [])) (map-before (one not_slash ∷ many not_slash ∷ []) _)
    ∙ before-before (one (char b'/') ∷ []) (one not_slash ∷ many not_slash ∷ []) (quantify none ts)
quantify_segment wild ts h =
    map-before (one (char b'/') ∷ []) _
    ∙ ap (before (one (char b'/') ∷ [])) (map-before (many dot ∷ []) _)
    ∙ before-before (one (char b'/') ∷ []) (many dot ∷ []) (quantify none ts)

abbrev spell_tokens : List Segment → List Token
spell_tokens = spell (atom (char b'/')) segment_tokens

spell-IsClean :
    (segs : List Segment) (ts : List Token) → IsClean ts → IsClean (spell_tokens segs ++ ts)
spell-IsClean [] ts h = h
spell-IsClean (seg ∷ segs) ts h = tt

quantify-spell :
    (segs : List Segment) (ts : List Token)
    → IsClean ts
    → quantify none (spell_tokens segs ++ ts) ≡ before (items_of segs) (quantify none ts)
quantify-spell [] ts h = sym (before-nil _)
quantify-spell (seg ∷ segs) ts h =
    rw (append_assoc (segment_tokens seg) (spell_tokens segs) ts)
      (unfold quantify in quantify_segment seg (spell_tokens segs ++ ts) (spell-IsClean segs ts h))
    ∙ ap (before (one (char b'/') ∷ segment_items seg)) (quantify-spell segs ts h)
    ∙ before-before (one (char b'/') ∷ segment_items seg) (items_of segs) (quantify none ts)

expand_first_boundary : (t : Text) → IsBoundary t → expand_first t ≡ t
unfolding expand_first
expand_first_boundary [] h = refl
expand_first_boundary (c ∷ s) h = ground arith

-- A template that ends in `tail`, where `left` is the tail after the second replacement.
regexp-render_tail :
    (segs : List Segment) (tail left : Text)
    → AreWellFormed segs
    → IsBoundary (escape tail)
    → expand_stars false (escape tail) ≡ left
    → IsBoundary left
    → IsClean (tokens plain (expand_params false left))
    → regexp (regexp_source (render segs ++ tail))
      ≡ before (items_of segs) (regexp (expand_params false left))
unfolding regexp regexp_source
regexp-render_tail segs tail left w b e k clean =
    rw
      (
        escape-render segs tail w,
        expand_stars-spell segs (escape tail) w b,
        e,
        expand_first_boundary (spell b'/' starred segs ++ left)
            (spell-IsBoundary starred segs left k),
        expand_params-spell segs left w k,
        tokens-spell segs (expand_params false left) w,
      )
      (quantify-spell segs (tokens plain (expand_params false left)) clean)

-- The regular expression of a template asks for the items of its segments.
pub regexp-render :
    (segs : List Segment)
    → AreWellFormed segs
    → regexp (regexp_source (render segs)) ≡ some (items_of segs)
unfolding escape expand_stars expand_params tokens regexp quantify
regexp-render segs w =
    rw append-nil at (regexp-render_tail segs [] [] w tt refl tt tt) ∙ ap some (append-nil _)

-- `/**` is no regular expression: the second `*` has nothing to repeat.
pub regexp-double_star :
    (segs : List Segment)
    → AreWellFormed segs
    → regexp (regexp_source (render segs ++ codes "/**")) ≡ none
unfolding escape is_special expand_stars expand_params tokens next_mode emit regexp quantify
regexp-double_star segs w =
    regexp-render_tail segs (codes "/**") (codes "/.**") w refl refl refl tt ∙ refl
