-- ===== src/Policy/PathMatch/Compile.antt =====
-- The regular expression of a template, segment by segment: `templateToRegExp`.
use get_mcp.Base.{
  ℕ, ◌≡◌, ◌≢◌, refl, Bool, true, false, List, [], ◌∷◌, ◌++◌, map, append_assoc, arith, ◌=?◌,
  Bool-cases, inl, inr, Text, codes, All,
}
use get_mcp.Policy.PathMatch.Regexp.{
  is_special, escape, expand_stars, is_ident_start, is_ident, char, dot, not_slash, Token, atom,
  star, plus, Item, one, many,
}
use get_mcp.Policy.PathMatch.Template.{
  Segment, lit, param, wild, render_segment, render, IsLiteral, IsWellFormed,
}

-- What is left of the text begins a segment, or is empty.
abbrev pub IsBoundary : Text → Type 0
IsBoundary [] = Unit
IsBoundary (c ∷ s) = c ≡ b'/'

-- The text of a segment after each replacement.
abbrev pub starred : Segment → Text
starred (lit s) = escape s
starred (param name) = b':' ∷ name
starred wild = b'.' ∷ b'*' ∷ []

abbrev pub named : Segment → Text
named (lit s) = escape s
named (param name) = codes "[^/]+"
named wild = b'.' ∷ b'*' ∷ []

abbrev pub segment_items : Segment → List Item
segment_items (lit s) = map (λ c. one (char c)) s
segment_items (param name) = one not_slash ∷ many not_slash ∷ []
segment_items wild = many dot ∷ []

abbrev pub segment_tokens : Segment → List Token
segment_tokens (lit s) = map (λ c. atom (char c)) s
segment_tokens (param name) = atom not_slash ∷ plus ∷ []
segment_tokens wild = atom dot ∷ star ∷ []

module _ {ℓ} {A : Type ℓ} (slash : A) (text : Segment → List A) where
  abbrev pub spell : List Segment → List A
  spell [] = []
  spell (seg ∷ segs) = slash ∷ text seg ++ spell segs

abbrev pub items_of : List Segment → List Item
items_of = spell (one (char b'/')) segment_items

escape-append : (s t : Text) → escape (s ++ t) ≡ escape s ++ escape t
unfolding escape
escape-append [] t = refl
escape-append (c ∷ s) t = ground (arith, escape-append s t)

escape_ident : (s : Text) → All (λ d. is_ident d ≡ true) s → escape s ≡ s
unfolding escape is_special is_ident
escape_ident [] h = refl
escape_ident (c ∷ s) (p, h) = ground (arith, escape_ident s h)

-- The first replacement, which quotes what regular expressions treat specially.
abbrev pub quoted : Segment → Text
quoted (lit s) = escape s
quoted (param name) = b':' ∷ name
quoted wild = b'*' ∷ []

abbrev pub AreWellFormed : List Segment → Type 0
AreWellFormed = All IsWellFormed

escape-render_segment :
    (seg : Segment) → IsWellFormed seg → escape (render_segment seg) ≡ quoted seg
unfolding escape is_special is_ident
escape-render_segment (lit s) h = refl
escape-render_segment (param (c ∷ s)) (p, h) = ground (arith, escape_ident s h)
escape-render_segment (param []) h = elim h [ ]
escape-render_segment wild h = refl

escape-slash : (s : Text) → escape (b'/' ∷ s) ≡ b'/' ∷ escape s
unfolding escape is_special
escape-slash s = refl

pub escape-render :
    (segs : List Segment) (tail : Text)
    → AreWellFormed segs
    → escape (render segs ++ tail) ≡ spell b'/' quoted segs ++ escape tail
escape-render [] tail h = refl
escape-render (seg ∷ segs) tail (w, h) =
    let rest = render segs ++ tail in
    rw
      (
        append_assoc (render_segment seg) (render segs) tail,
        escape-slash (render_segment seg ++ rest),
        escape-append (render_segment seg) rest,
        escape-render_segment seg w,
        escape-render segs tail h,
      )
      (simp append_assoc)

pub spell-IsBoundary :
    (f : Segment → Text) (segs : List Segment) (tail : Text)
    → IsBoundary tail
    → IsBoundary (spell b'/' f segs ++ tail)
spell-IsBoundary f [] tail h = h
spell-IsBoundary f (seg ∷ segs) tail h = refl

-- The second replacement.
expand_stars_boundary :
    (b : Bool) (t : Text) → IsBoundary t → expand_stars b t ≡ expand_stars false t
unfolding expand_stars
expand_stars_boundary b [] h = refl
expand_stars_boundary b (c ∷ s) h = ground arith

expand_stars_skip :
    (b : Bool) (u t : Text)
    → All (λ c. c ≢ b'*') u
    → IsBoundary t
    → expand_stars b (u ++ t) ≡ u ++ expand_stars false t
unfolding expand_stars
expand_stars_skip b [] t h k = expand_stars_boundary b t k
expand_stars_skip b (c ∷ u) t (p, h) k = ground (arith, expand_stars_skip (c =? b'/') u t h k)

escape-no_star : (s : Text) → All IsLiteral s → All (λ c. c ≢ b'*') (escape s)
unfolding escape
escape-no_star [] h = tt
escape-no_star (c ∷ s) (p, h) = elim (Bool-cases (is_special c)) [
  | inl special ↦ rw special (omega arith, (p.1, escape-no_star s h))
  | inr usual ↦ rw usual (p.1, escape-no_star s h)
]

ident-no_star : (s : Text) → All (λ d. is_ident d ≡ true) s → All (λ c. c ≢ b'*') s
unfolding is_ident
ident-no_star [] h = tt
ident-no_star (c ∷ s) (p, h) = (ground arith, ident-no_star s h)

pub ident_of_start : (c : ℕ) → is_ident_start c ≡ true → is_ident c ≡ true
unfolding is_ident
ident_of_start c h = ground arith

expand_stars-slash : (s : Text) → expand_stars false (b'/' ∷ s) ≡ b'/' ∷ expand_stars true s
unfolding expand_stars
expand_stars-slash s = refl

expand_stars_segment :
    (seg : Segment) (t : Text)
    → IsWellFormed seg
    → IsBoundary t
    → expand_stars true (quoted seg ++ t) ≡ starred seg ++ expand_stars false t
expand_stars_segment (lit s) t w k = expand_stars_skip true (escape s) t (escape-no_star s w) k
expand_stars_segment (param (c ∷ s)) t (p, w) k =
    expand_stars_skip true (b':' ∷ c ∷ s) t
      (omega arith, ident-no_star (c ∷ s) (ident_of_start c p, w)) k
expand_stars_segment (param []) t w k = elim w [ ]
expand_stars_segment wild t w k = unfold expand_stars in refl

pub expand_stars-spell :
    (segs : List Segment) (tail : Text)
    → AreWellFormed segs
    → IsBoundary tail
    → expand_stars false (spell b'/' quoted segs ++ tail)
      ≡ spell b'/' starred segs ++ expand_stars false tail
expand_stars-spell [] tail h k = refl
expand_stars-spell (seg ∷ segs) tail (w, h) k =
    let rest = spell b'/' quoted segs ++ tail in
    rw append_assoc (
      rw
        (
          expand_stars-slash (quoted seg ++ rest),
          expand_stars_segment seg rest w (spell-IsBoundary quoted segs tail k),
          expand_stars-spell segs tail h k,
        )
        (simp append_assoc))
