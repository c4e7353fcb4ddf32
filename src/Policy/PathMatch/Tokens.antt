-- ===== src/Policy/PathMatch/Tokens.antt =====
-- The last replacement of `templateToRegExp`, and the reading of the finished source.
use get_mcp.Base.{
  ℕ, ◌≡◌, ◌≢◌, refl, ap, ◌∙◌, true, false, List, [], ◌∷◌, ◌++◌, map, append_assoc, arith,
  Bool-cases, inl, inr, Text, codes, All,
}
use get_mcp.Policy.PathMatch.Regexp.{
  is_special, escape, is_ident, starts_ident, expand_params, char, atom, plain, next_mode, emit,
  tokens,
}
use get_mcp.Policy.PathMatch.Template.{Segment, lit, param, wild, IsLiteral, IsWellFormed}
use get_mcp.Policy.PathMatch.Compile.{
  IsBoundary, starred, named, segment_tokens, spell, AreWellFormed, ident_of_start,
  spell-IsBoundary,
}

-- The third replacement.
expand_params_skip :
    (u t : Text) → All (λ c. c ≢ b':') u → expand_params false (u ++ t) ≡ u ++ expand_params false t
unfolding expand_params
expand_params_skip [] t h = refl
expand_params_skip (c ∷ u) t (p, h) = ground (arith, expand_params_skip u t h)

expand_params_boundary : (t : Text) → IsBoundary t → expand_params true t ≡ expand_params false t
unfolding expand_params is_ident
expand_params_boundary [] h = refl
expand_params_boundary (c ∷ s) h = ground arith

expand_params_name :
    (s t : Text)
    → All (λ d. is_ident d ≡ true) s
    → IsBoundary t
    → expand_params true (s ++ t) ≡ expand_params false t
unfolding expand_params
expand_params_name [] t h k = expand_params_boundary t k
expand_params_name (c ∷ s) t (p, h) k = rw p (expand_params_name s t h k)

escape-no_colon : (s : Text) → All IsLiteral s → All (λ c. c ≢ b':') (escape s)
unfolding escape
escape-no_colon [] h = tt
escape-no_colon (c ∷ s) (p, h) = elim (Bool-cases (is_special c)) [
  | inl special ↦ rw special (omega arith, (p.2, escape-no_colon s h))
  | inr usual ↦ rw usual (p.2, escape-no_colon s h)
]

expand_params_segment :
    (seg : Segment) (t : Text)
    → IsWellFormed seg
    → IsBoundary t
    → expand_params false (starred seg ++ t) ≡ named seg ++ expand_params false t
expand_params_segment (lit s) t w k = expand_params_skip (escape s) t (escape-no_colon s w)
expand_params_segment (param (c ∷ s)) t (p, w) k =
    unfold expand_params starts_ident in
    rw p (ap (λ u. codes "[^/]+" ++ u) (expand_params_name (c ∷ s) t (ident_of_start c p, w) k))
expand_params_segment (param []) t w k = elim w [ ]
expand_params_segment wild t w k = unfold expand_params in refl

expand_params-slash : (s : Text) → expand_params false (b'/' ∷ s) ≡ b'/' ∷ expand_params false s
unfolding expand_params
expand_params-slash s = refl

pub expand_params-spell :
    (segs : List Segment) (tail : Text)
    → AreWellFormed segs
    → IsBoundary tail
    → expand_params false (spell b'/' starred segs ++ tail)
      ≡ spell b'/' named segs ++ expand_params false tail
expand_params-spell [] tail h k = refl
expand_params-spell (seg ∷ segs) tail (w, h) k =
    let rest = spell b'/' starred segs ++ tail in
    rw
      (
        append_assoc (starred seg) (spell b'/' starred segs) tail,
        expand_params-slash (starred seg ++ rest),
        expand_params_segment seg rest w (spell-IsBoundary starred segs tail k),
        expand_params-spell segs tail h k,
      )
      (simp append_assoc)

-- The tokens.
tokens-quoted : (c : ℕ) (u : Text) → tokens plain (0x5c ∷ c ∷ u) ≡ atom (char c) ∷ tokens plain u
unfolding tokens emit next_mode
tokens-quoted c u = refl

tokens-usual :
    (c : ℕ) (u : Text)
    → is_special c ≡ false
    → c ≢ b'*'
    → tokens plain (c ∷ u) ≡ atom (char c) ∷ tokens plain u
unfolding tokens is_special
tokens-usual c u usual h =
    let read : emit plain c ≡ atom (char c) ∷ [] = unfold emit in ground arith in
    let next : next_mode plain c ≡ plain = unfold next_mode in ground arith in rw (read, next)

tokens-escape :
    (s t : Text)
    → All IsLiteral s
    → tokens plain (escape s ++ t) ≡ map (λ c. atom (char c)) s ++ tokens plain t
unfolding escape
tokens-escape [] t h = refl
tokens-escape (c ∷ s) t (p, h) =
    let rest = ap (λ ts. atom (char c) ∷ ts) (tokens-escape s t h) in
    elim (Bool-cases (is_special c)) [
      | inl special ↦ rw special (tokens-quoted c (escape s ++ t) ∙ rest)
      | inr usual ↦ rw usual (tokens-usual c (escape s ++ t) usual p.1 ∙ rest)
    ]

tokens_segment :
    (seg : Segment) (t : Text)
    → IsWellFormed seg
    → tokens plain (named seg ++ t) ≡ segment_tokens seg ++ tokens plain t
tokens_segment (lit s) t w = tokens-escape s t w
tokens_segment (param name) t w = unfold tokens emit next_mode in refl
tokens_segment wild t w = unfold tokens emit next_mode in refl

tokens-slash : (s : Text) → tokens plain (b'/' ∷ s) ≡ atom (char b'/') ∷ tokens plain s
unfolding tokens emit next_mode
tokens-slash s = refl

pub tokens-spell :
    (segs : List Segment) (tail : Text)
    → AreWellFormed segs
    → tokens plain (spell b'/' named segs ++ tail)
      ≡ spell (atom (char b'/')) segment_tokens segs ++ tokens plain tail
tokens-spell [] tail h = refl
tokens-spell (seg ∷ segs) tail (w, h) =
    let rest = spell b'/' named segs ++ tail in
    rw
      (
        append_assoc (named seg) (spell b'/' named segs) tail,
        tokens-slash (named seg ++ rest),
        tokens_segment seg rest w,
        tokens-spell segs tail h,
      )
      (simp append_assoc)
