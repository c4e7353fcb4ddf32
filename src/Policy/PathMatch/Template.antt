-- ===== src/Policy/PathMatch/Template.antt =====
-- Templates as segments, as the comment at the top of path-match.util.ts and docs/policies.md
-- describe them, independently of regular expressions.
use get_mcp.Base.{ℕ, ◌≡◌, ◌≢◌, true, false, List, [], ◌∷◌, ◌++◌, Text, All}
use get_mcp.Policy.PathMatch.Regexp.{is_ident_start, is_ident, is_line_end}

pub data Segment : Type 0 where
  lit param : Text → Segment
  wild : Segment

abbrev pub render_segment : Segment → Text
render_segment (lit s) = s
render_segment (param name) = b':' ∷ name
render_segment wild = b'*' ∷ []

-- Each segment follows a slash.
abbrev pub render : List Segment → Text
render [] = []
render (seg ∷ segs) = b'/' ∷ render_segment seg ++ render segs

-- A character of a literal segment; regular expression syntax such as `.` or `(` is allowed.
abbrev pub IsLiteral : ℕ → Type 0
IsLiteral c = (c ≢ b'/') × (c ≢ b'*') × (c ≢ b':')

abbrev pub IsName : Text → Type 0
IsName [] = ⊥
IsName (c ∷ s) = (is_ident_start c ≡ true) × All (λ d. is_ident d ≡ true) s

abbrev pub IsWellFormed : Segment → Type 0
IsWellFormed (lit s) = All IsLiteral s
IsWellFormed (param name) = IsName name
IsWellFormed wild = Unit

abbrev pub HasNoSlash : Text → Type 0
HasNoSlash = All (λ c. c ≢ b'/')

abbrev pub IsOneLine : Text → Type 0
IsOneLine = All (λ c. is_line_end c ≡ false)

-- The paths that a template stands for: a literal stands for itself, a parameter for one non-empty
-- segment, a wildcard for any text on one line, in which slashes may stand.
abbrev pub Follows : List Segment → Text → Type 0
Follows [] path = path ≡ []
Follows (lit s ∷ segs) path = (rest : Text) × (path ≡ b'/' ∷ s ++ rest) × Follows segs rest
Follows (param name ∷ segs) path =
    (value : Text) × (rest : Text) × (path ≡ b'/' ∷ value ++ rest)
    × (value ≢ [])
    × HasNoSlash value
    × Follows segs rest
Follows (wild ∷ segs) path =
    (value : Text) × (rest : Text) × (path ≡ b'/' ∷ value ++ rest)
    × IsOneLine value
    × Follows segs rest
